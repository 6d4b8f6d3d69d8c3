-- ===== src/Dataset/Laws.antt =====
-- `fill_pipeline`: the requests that are planned, and a submission that fails.
use mathlib.Core.Option.{some-injective}
use forge_dsio.Prelude.{
  ℕ, zero, suc, ◌+◌, ◌*◌, ◌<◌, ◌≡◌, refl, sym, ap, ◌∙◌, ◌⊎◌, inl, inr, Option-cases, Bool-cases,
  ltb, ◌&&◌, Bool, true, false, Option, none, some, List, [], ◌∷◌, ◌++◌, length, length-append, set,
  Outcome, ok, err, arith,
}
use forge_dsio.Error.{Error}
use forge_dsio.Backend.{ReadRequest, BackendOps}
use forge_dsio.Dataset.{Pending, ShardStream, shift, take_free, release, split_last, undo}
use forge_dsio.Dataset.Pipeline.{
  push_request, plan, take_back, Step, submitted, submit_plan, fill_with, fill_pipeline,
}

release-shift :
    (free : List Bool) (o : Option (ℕ × List Bool)) (slot : ℕ) (taken : List Bool)
    → ((k : ℕ) → (t : List Bool) → o ≡ some (k, t) → release k t ≡ free)
    → shift o ≡ some (slot, taken)
    → release slot taken ≡ false ∷ free
unfolding release
release-shift free none slot taken ih e = cc
release-shift free (some (k, t)) slot taken ih e =
    ap (λ (p : ℕ × List Bool). set p.1 p.0 true) (sym (some-injective _ _ e))
    ∙ ap (◌∷◌ false) (ih k t refl)

-- Releasing the slot that was taken restores the flags.
release-take_free :
    (free : List Bool) (slot : ℕ) (taken : List Bool)
    → take_free free ≡ some (slot, taken)
    → release slot taken ≡ free
unfolding take_free release
release-take_free [] slot taken e = cc
release-take_free (true ∷ free) slot taken e =
    ap (λ (p : ℕ × List Bool). set p.1 p.0 true) (sym (some-injective _ _ e))
release-take_free (false ∷ free) slot taken e =
    release-shift free (take_free free) slot taken (λ k t f. release-take_free free k t f) e

split_last-append :
    (p : Pending) (front : List Pending) (q : Pending)
    → split_last p (front ++ q ∷ []) ≡ (q, p ∷ front)
unfolding split_last
split_last-append p [] q = refl
split_last-append p (x ∷ front) q = rw (split_last-append x front q) refl

undo_one :
    (free : List Bool) (front : List Pending) (q : Pending)
    → undo 1 free (front ++ q ∷ []) ≡ (release q.slot free, front)
unfolding undo split_last
undo_one free [] q = refl
undo_one free (p ∷ front) q = rw (split_last-append p front q) refl

-- Undoing one entry more is undoing one at the end.
undo-suc :
    (n : ℕ) (free : List Bool) (pending : List Pending)
    → undo (suc n) free pending ≡ undo 1 (undo n free pending).0 (undo n free pending).1
unfolding undo
undo-suc zero free pending = refl
undo-suc (suc n) free [] = refl
undo-suc (suc n) free (p ∷ rest) =
    undo-suc n (release (split_last p rest).0.slot free) (split_last p rest).1

module _ {B : Type 0} where
  -- What a plan leaves of the stream: its flags and entries are those from before, but for the
  -- requests that were planned, and nothing else than the offset is different.
  pub record Planned (s : ShardStream B) (count : ℕ) (requests : List ReadRequest)
      (s' : ShardStream B) : Type 0 where
    pub undone : undo (length requests) s'.free s'.pending ≡ (s.free, s.pending)
    pub others : s ≡ record s' { free = s.free; pending = s.pending; next_offset = s.next_offset }
    pub added : length s'.pending ≡ length s.pending + length requests
    pub half :
        (length requests ≡ 0) ⊎ (length s.pending + count + 2 * length requests < s.read_depth + 2)

  none-Planned : (s : ShardStream B) (count : ℕ) → Planned s count [] s
  unfolding undo
  none-Planned s count = record {
    undone = refl;
    others = refl;
    added = omega arith;
    half = inl refl;
  }

  cons-Planned :
      (s : ShardStream B) (count slot : ℕ) (taken : List Bool) (requests : List ReadRequest)
      (s' : ShardStream B)
      → take_free s.free ≡ some (slot, taken)
      → length s.pending + count < s.read_depth
      → Planned (push_request s slot taken).1 (suc count) requests s'
      → Planned s count ((push_request s slot taken).0 ∷ requests) s'
  unfolding push_request
  cons-Planned s count slot taken requests s' free room h = record {
    undone =
        undo-suc (length requests) s'.free s'.pending
        ∙ ap (λ (p : List Bool × List Pending). undo 1 p.0 p.1) h.undone
        ∙ undo_one taken s.pending _
        ∙ ap (λ (f : List Bool). (f, s.pending)) (release-take_free s.free slot taken free);
    others =
        ap
          (λ (x : ShardStream B). record x {
            free = s.free;
            pending = s.pending;
            next_offset = s.next_offset;
          })
          h.others;
    added = omega (arith, h.added, one_longer);
    half = elim h.half [
      | inl none_more ↦ inr (omega arith)
      | inr more ↦ inr (omega (arith, one_longer, more))
    ];
  }
    where
      one_longer : length (push_request s slot taken).1.pending ≡ length s.pending + 1
      one_longer = length-append s.pending _

  pub plan-Planned :
      (rounds count : ℕ) (s : ShardStream B)
      → Planned s count (plan rounds count s).0 (plan rounds count s).1
  unfolding plan
  plan-Planned zero count s = none-Planned s count
  plan-Planned (suc rounds) count s =
      elim (Bool-cases
        (ltb (length s.pending + count) s.read_depth && ltb s.next_offset s.window_end)) [
          | inr stop ↦ rw (plan, stop) (none-Planned s count)
          | inl room ↦ elim (Option-cases (take_free s.free)) [
            | inl no_slot ↦ rw (plan, room, no_slot) (none-Planned s count)
            | inr ((slot, taken), free) ↦
                rw (plan, room, free)
                  (cons-Planned s count slot taken
                    (plan rounds (suc count) (push_request s slot taken).1).0
                    (plan rounds (suc count) (push_request s slot taken).1).1 free (ground arith)
                    (plan-Planned rounds (suc count) (push_request s slot taken).1))
          ]
        ]

  -- Taking a whole plan back gives the stream from before.
  take_back-plan :
      (rounds count : ℕ) (s : ShardStream B) (b : Option B)
      → take_back s.next_offset
          (length (plan rounds count s).0)
          (record (plan rounds count s).1 { backend = b })
        ≡ record s { backend = b }
  unfolding take_back
  take_back-plan rounds count s b =
      let h = plan-Planned rounds count s in
      ap
        (λ (p : List Bool × List Pending). record (plan rounds count s).1 {
          backend = b;
          free = p.0;
          pending = p.1;
          next_offset = s.next_offset;
        })
        h.undone
      ∙ ap (λ (x : ShardStream B). record x { backend = b }) (sym h.others)

module _ {B W : Type 0} (ops : BackendOps B W) where
  -- What `fill_pipeline` leaves: after an error the stream from before, but for the state of the backend;
  -- on success, a number of new entries that with those in flight fills no more than the depth, and
  -- is at most half of what was free of it, rounded up.
  abbrev pub Filled : ShardStream B → Step ops → Type 0
  Filled s (err e, s', w) = (b : Option B) × (s' ≡ record s { backend = b })
  Filled s (ok _, s', w) =
      (n : ℕ) × (length s'.pending ≡ length s.pending + n)
      × ((n ≡ 0) ⊎ (length s.pending + 2 * n < s.read_depth + 2))

  submit_plan-Filled :
      (s s' : ShardStream B) (requests : List ReadRequest) (b : B) (w : W)
      → Planned s 0 requests s'
      → ((c : Option B)
          → take_back s.next_offset (length requests) (record s' { backend = c })
            ≡ record s { backend = c })
      → Filled s (submit_plan ops s.next_offset (requests, s') b w)
  submit_plan-Filled s s' [] b w h back = (0, h.added, inl refl)
  submit_plan-Filled s s' (r ∷ requests) b w h back = answered (ops.submit (r ∷ requests) b w)
    where
      at_most :
          (suc (length requests) ≡ 0)
          ⊎ (length s.pending + 2 * suc (length requests) < s.read_depth + 2)
      at_most = elim h.half [
        | inl nothing ↦ inl nothing
        | inr some_more ↦ inr (omega (arith, some_more))
      ]

      answered :
          (answer : Outcome Error (Unit {0}) × B × W)
          → Filled s (submitted ops s.next_offset (suc (length requests)) s' answer)
      answered (err e, b', w') = (some b', back (some b'))
      answered (ok _, b', w') = (suc (length requests), h.added, at_most)

  fill_with-Filled : (s : ShardStream B) (w : W) (o : Option B) → Filled s (fill_with ops s w o)
  fill_with-Filled s w none = (0, omega arith, inl refl)
  fill_with-Filled s w (some b) =
      submit_plan-Filled s (plan s.read_depth 0 s).1 (plan s.read_depth 0 s).0 b w
        (plan-Planned s.read_depth 0 s) (take_back-plan s.read_depth 0 s)

  -- `fill_pipeline`, whatever the backend answers: where the submission fails, the stream is the one from
  -- before, but for the state of the backend. Else it adds entries that fit beside those in flight;
  -- they are at most half of what the depth leaves free, rounded up.
  pub fill_pipeline-Filled : (s : ShardStream B) (w : W) → Filled s (fill_pipeline ops s w)
  unfolding fill_pipeline
  fill_pipeline-Filled s w = fill_with-Filled s w s.backend
