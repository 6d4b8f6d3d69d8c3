-- ===== src/Dataset/Content/Filling.antt =====
-- `fill_pipeline` keeps the entries and the requests in step.
use forge_dsio.Prelude.{
  ℕ, zero, suc, ◌+◌, ◌-◌, ◌≤◌, ◌<◌, ◌≡◌, inl, inr, refl, sym, ap, ◌∙◌, subst, Bool, true, false,
  ltb, ◌&&◌, some, Option-cases, Bool-cases, List, [], ◌∷◌, ◌++◌, length, length-append,
  append_assoc, append-nil, length-set, min, Outcome, ok, err, arith,
}
use forge_dsio.Prelude.Words.{u64_mod, add_u64_fits}
use forge_dsio.Error.{Error}
use forge_dsio.File.{Bytes}
use forge_dsio.Backend.{ReadRequest, BackendOps}
use forge_dsio.Dataset.{Pending, ShardStream, take_free}
use forge_dsio.Dataset.Pipeline.{
  request_length, push_request, plan, Step, submitted, submit_plan, fill_with, fill_pipeline,
}
use forge_dsio.Dataset.Laws.{plan-Planned}
use forge_dsio.Dataset.Requests.{request_length_lem, plan-Stopped}
use forge_dsio.Dataset.Content.{Serves}
use forge_dsio.Dataset.Content.Slots.{take_free_lem, take_free-IsFree, Slots-take_free, lt_of_get}
use forge_dsio.Dataset.Content.Flight.{Flight, Flight-append}
use forge_dsio.Dataset.Fitting.{request_length-le, length-AllLong}
use forge_dsio.Dataset.Content.State.{Entries-backend, Entries, Flies, Keeps}

module _ {B : Type 0} (content : Bytes) (at : ℕ) where
  push_request-Entries :
      (rs : List ReadRequest) (s : ShardStream B) (slot : ℕ) (taken : List Bool)
      → take_free s.free ≡ some (slot, taken)
      → s.next_offset < s.window_end
      → length s.pending < s.read_depth
      → Entries content at rs s
      → Entries content at (rs ++ (push_request s slot taken).0 ∷ []) (push_request s slot taken).1
  unfolding push_request
  push_request-Entries rs s slot taken e below fewer h =
      let t = take_free_lem s.free slot taken e in
      let remaining = s.window_end - s.next_offset in
      let size = request_length s.segment s.block remaining in
      let n = min size remaining in
      let p : Pending = record { offset = s.next_offset; slot = slot; bytes = 0; done = false } in
      let r : ReadRequest = record { offset = s.next_offset; size = size; token = slot } in
      let long = (request_length_lem s.segment s.block remaining h.block_pos).0 in
      let fits : s.next_offset + n < u64_mod = omega (arith, h.fits, below) in
      record {
        flight =
            subst
              (λ x. Flight content s.window_end s.buffers at (s.pending ++ p ∷ []) (rs ++ r ∷ []) x)
              (sym (add_u64_fits s.next_offset n fits))
              (Flight-append p r n h.flight refl refl (omega (arith, long, below))
                (omega (arith, h.lens, lt_of_get s.free slot true t.0)) refl refl refl
                (omega (
                  arith,
                  request_length-le s.segment s.block remaining h.block_pos h.room,
                  length-AllLong s.segment s.buffers slot h.long
                      (omega (arith, h.lens, lt_of_get s.free slot true t.0)),
                )));
        slots = Slots-take_free s.free taken s.pending p e h.slots;
        lens = ap length t.1 ∙ length-set s.free slot false ∙ h.lens;
        some_free = λ q. absurd (omega (arith, ap length q, length-append s.pending (p ∷ [])));
        depth = h.depth;
        count = omega (arith, fewer, length-append s.pending (p ∷ []));
        block_pos = h.block_pos;
        long = h.long;
        room = h.room;
        fits = h.fits;
      }

  plan-Entries :
      (rounds count : ℕ) (rs : List ReadRequest) (s : ShardStream B)
      → Entries content at rs s
      → Entries content at (rs ++ (plan rounds count s).0) (plan rounds count s).1
  unfolding plan
  plan-Entries zero count rs s h = subst (λ x. Entries content at x s) (sym (append-nil rs)) h
  plan-Entries (suc rounds) count rs s h =
      elim (Bool-cases
        (ltb (length s.pending + count) s.read_depth && ltb s.next_offset s.window_end)) [
          | inr stop ↦ rw (plan, stop) (subst (λ x. Entries content at x s) (sym (append-nil rs)) h)
          | inl room ↦ elim (Option-cases (take_free s.free)) [
            | inl no_slot ↦
                rw (plan, room, no_slot)
                  (subst (λ x. Entries content at x s) (sym (append-nil rs)) h)
            | inr ((slot, taken), free) ↦
                let (r, s') = push_request s slot taken in
                let more = plan rounds (suc count) s' in
                rw (plan, room, free)
                  (subst (λ x. Entries content at x more.1) (append_assoc rs (r ∷ []) more.0)
                    (plan-Entries rounds (suc count) (rs ++ r ∷ []) s'
                      (push_request-Entries rs s slot taken free (ground arith) (ground arith) h)))
          ]
        ]

  -- With nothing in flight after a fill, the window is read.
  plan-ends :
      (rs : List ReadRequest) (s : ShardStream B)
      → Entries content at rs s
      → (plan s.read_depth 0 s).1.pending ≡ []
      → s.window_end ≤ (plan s.read_depth 0 s).1.next_offset
  plan-ends rs s h q =
      let e = plan-Entries s.read_depth 0 rs s h in
      let n = plan-Planned s.read_depth 0 s in
      elim (plan-Stopped s.read_depth 0 s (omega arith)) [
        | inl stop ↦ ground (arith, stop, e.depth, n.added, ap length q)
        | inr none_free ↦ let (k, f) = e.some_free q in absurd (take_free-IsFree _ k f none_free)
      ]

  plan-Keeps : (rounds count : ℕ) (s : ShardStream B) → Keeps s (plan rounds count s).1
  plan-Keeps rounds count s =
      let o = sym (plan-Planned rounds count s).others in
      record {
        carry = ap (λ (x : ShardStream B). x.carry) o;
        order = ap (λ (x : ShardStream B). x.order) o;
        shards = ap (λ (x : ShardStream B). x.shards) o;
        next = ap (λ (x : ShardStream B). x.next) o;
        window_end = ap (λ (x : ShardStream B). x.window_end) o;
        is_open = ap (λ (x : ShardStream B). x.is_open) o;
        read_depth = ap (λ (x : ShardStream B). x.read_depth) o;
        options = ap (λ (x : ShardStream B). x.options) o;
      }

module _ {B W : Type 0} (ops : BackendOps B W) (serves : Serves ops) (content : Bytes)
    (at : ℕ) where
  -- After a fill that succeeds.
  abbrev pub FillFlies : ShardStream B → Step ops → Type 0
  FillFlies s (err e, t, w) = Unit
  FillFlies s (ok _, t, w) =
      Keeps s t × Flies serves content at t × (t.pending ≡ [] → t.window_end ≤ t.next_offset)

  -- The requests are submitted, or there are none.
  submit_plan-Flies :
      (s t : ShardStream B) (start : ℕ) (rs : List ReadRequest) (b : B) (w : W)
      → Keeps s t
      → t.backend ≡ some b
      → serves.content b ≡ content
      → Entries content at (serves.flying b ++ rs) t
      → (t.pending ≡ [] → t.window_end ≤ t.next_offset)
      → FillFlies s (submit_plan ops start (rs, t) b w)
  submit_plan-Flies s t start [] b w k e f h ends = (
    k,
    record {
      b = b;
      is_backend = e;
      of_file = f;
      entries = subst (λ x. Entries content at x t) (append-nil (serves.flying b)) h;
    },
    ends,
  )
  submit_plan-Flies s t start (r ∷ rs) b w k e f h ends = answered (ops.submit (r ∷ rs) b w) refl
    where
      answered :
          (a : Outcome Error (Unit {0}) × B × W)
          → ops.submit (r ∷ rs) b w ≡ a
          → FillFlies s (submitted ops start (suc (length rs)) t a)
      answered (err _, b', w') q = tt
      answered (ok _, b', w') q =
          let l = serves.on_submit (r ∷ rs) b b' w w' q in
          (
            record {
              carry = k.carry;
              order = k.order;
              shards = k.shards;
              next = k.next;
              window_end = k.window_end;
              is_open = k.is_open;
              read_depth = k.read_depth;
              options = k.options;
            },
            record {
              b = b';
              is_backend = refl;
              of_file = l.1 ∙ f;
              entries = Entries-backend (some b') (subst (λ x. Entries content at x t) (sym l.0) h);
            },
            ends,
          )

  pub fill_pipeline-Flies :
      (s : ShardStream B) (w : W) → Flies serves content at s → FillFlies s (fill_pipeline ops s w)
  unfolding fill_pipeline
  fill_pipeline-Flies s w h =
      let t = (plan s.read_depth 0 s).1 in
      let same : t.backend ≡ s.backend =
        ap (λ (x : ShardStream B). x.backend) (sym (plan-Planned s.read_depth 0 s).others) in
      subst (λ x. FillFlies s (fill_with ops s w x)) (sym h.is_backend)
        (submit_plan-Flies s t s.next_offset (plan s.read_depth 0 s).0 h.b w
          (plan-Keeps content at s.read_depth 0 s) (same ∙ h.is_backend) h.of_file
          (plan-Entries content at s.read_depth 0 (serves.flying h.b) s h.entries)
          (λ q. omega (
            arith,
            plan-ends content at (serves.flying h.b) s h.entries q,
            (plan-Keeps content at s.read_depth 0 s).window_end,
          )))
