-- ===== src/Dataset/Content/Awaiting.antt =====
-- `await_front` keeps the entries and the requests in step, whichever request completes.
use forge_dsio.Prelude.{
  ℕ, zero, suc, ◌≡◌, inl, inr, refl, sym, ap, ◌∙◌, subst, true, false, Option, none, some,
  Bool-cases, List, [], ◌∷◌, ◌++◌, length, length-set, get_or, set, take, drop, length-take,
  length-append, length-drop, nil_of_length, Outcome, ok, err, arith,
}
use forge_dsio.Error.{Error}
use forge_dsio.File.{Bytes}
use forge_dsio.Backend.{ReadRequest, Completion, BackendOps}
use forge_dsio.Dataset.{Pending, ShardStream}
use forge_dsio.Dataset.Pipeline.{
  Step, front_done, settle_completion, settled, reaped, go_on, await_front, land,
}
use forge_dsio.Dataset.Completions.{Marks, settle_completion-Marks}
use forge_dsio.Dataset.Content.{Serves, Answers}
use forge_dsio.Dataset.Content.Flight.{Flight, Flight-Marks, Marks-Slots}
use forge_dsio.Dataset.Fitting.{AllLong}
use forge_dsio.Dataset.Content.State.{Entries, Flies, Keeps, Keeps-trans, Keeps-refl}

get_or-AllLong :
    (n : ℕ) (buffers : List Bytes) (k : ℕ) (v : Bytes)
    → AllLong n buffers
    → length v ≡ length (get_or buffers k [])
    → AllLong n (set buffers k v)
get_or-AllLong n [] k v l e = tt
get_or-AllLong n (b ∷ bs) zero v l e = (e ∙ l.0, l.1)
get_or-AllLong n (b ∷ bs) (suc k) v l e = (l.0, get_or-AllLong n bs k v l.1 e)

-- What lands leaves the sizes of the buffers.
land-AllLong :
    (n : ℕ) (c : Completion) (buffers : List Bytes) → AllLong n buffers → AllLong n (land c buffers)
land-AllLong n c buffers l =
    let buffer = get_or buffers c.token [] in
    let old = drop (length c.landed) buffer in
    get_or-AllLong n buffers c.token (take (length buffer) (c.landed ++ old)) l (
      omega (
        arith,
        length-take (length buffer) (c.landed ++ old),
        length-append c.landed old,
        length-drop (length c.landed) buffer,
      ))

-- Marking keeps the number of the entries.
length-Marks :
    {end : ℕ} {c : Completion} {ps qs : List Pending} → Marks end c ps qs → length qs ≡ length ps
length-Marks (Marks.here e) = refl
length-Marks (Marks.there ne m) = ap suc (length-Marks m)

module _ {B W : Type 0} (ops : BackendOps B W) (serves : Serves ops) (content : Bytes)
    (at : ℕ) where
  abbrev StepFlies : ShardStream B → Step ops → Type 0
  StepFlies s (err e, t, w) = Unit
  StepFlies s (ok _, t, w) =
      Keeps s t × Flies serves content at t × (length t.pending ≡ length s.pending)

  -- A completion is settled.
  settled-Flies :
      (s : ShardStream B) (b b' : B) (w : W) (c : Completion)
      → Entries content at (serves.flying b) s
      → (r : ReadRequest) × (xs : List ReadRequest) × (ys : List ReadRequest) × (serves.flying b
          ≡ xs ++ r ∷ ys)
        × (serves.flying b' ≡ xs ++ ys)
        × (serves.content b' ≡ serves.content b)
        × Answers (serves.content b) r c
      → serves.content b ≡ content
      → StepFlies s (
          settled ops
            (settle_completion c (record s { backend = some b' }))
            (record s { backend = some b' })
            w)
  settled-Flies s b b' w c h (r, xs, ys, q, q', f, a) e =
      elim (settle_completion-Marks c (record s { backend = some b' })) [
        | inl (unknown, _) ↦ rw unknown tt
        | inr (inl (failed, _, _)) ↦ rw failed tt
        | inr (inr (works, (after, m, same))) ↦ rw same (
          record {
            carry = refl;
            order = refl;
            shards = refl;
            next = refl;
            window_end = refl;
            is_open = refl;
            read_depth = refl;
            options = refl;
          },
          record {
            b = b';
            is_backend = refl;
            of_file = f ∙ e;
            entries = record {
              flight =
                  subst
                    (λ x. Flight content s.window_end (land c s.buffers) at after x s.next_offset)
                    (sym q')
                    (Flight-Marks s.free c r xs ys h.flight h.slots q
                      (subst (λ x. Answers x r c) e a) works m);
              slots = Marks-Slots s.free m h.slots;
              lens = h.lens ∙ sym (length-set s.buffers c.token _);
              some_free =
                  λ n. h.some_free (nil_of_length s.pending (sym (length-Marks m) ∙ ap length n));
              depth = h.depth;
              count = omega (arith, h.count, length-Marks m);
              block_pos = h.block_pos;
              long = land-AllLong s.segment c s.buffers h.long;
              room = h.room;
              fits = h.fits;
            };
          },
          length-Marks m,
        )
      ]

  reaped-Flies :
      (s : ShardStream B) (b : B) (w : W)
      → Entries content at (serves.flying b) s
      → serves.content b ≡ content
      → (a : Outcome Error (List Completion) × B × W) → ops.reap 1 1 b w ≡ a
      → StepFlies s (reaped ops s a)
  reaped-Flies s b w h e (err _, b', w') q = tt
  reaped-Flies s b w h e (ok [], b', w') q = tt
  reaped-Flies s b w h e (ok (c ∷ more), b', w') q =
      settled-Flies s b b' w' c h (serves.on_reap b b' w w' c more q) e

  -- After the wait, where it has a result: the front entry is done.
  abbrev pub AwaitFlies : ShardStream B → Option (Step ops) → Type 0
  AwaitFlies s none = Unit
  AwaitFlies s (some (err e, t, w)) = Unit
  AwaitFlies s (some (ok _, t, w)) =
      Keeps s t
      × Flies serves content at t
      × (front_done t.pending ≡ true)
      × (length t.pending ≡ length s.pending)

  go_on-Flies :
      (s : ShardStream B) (next : ShardStream B → W → Option (Step ops))
      → ((t : ShardStream B) (w : W) → Flies serves content at t → AwaitFlies t (next t w))
      → (r : Step ops) → StepFlies s r
      → AwaitFlies s (go_on ops next r)
  go_on-Flies s next ih (err e, t, w) h = tt
  go_on-Flies s next ih (ok _, t, w) (k, h, n) = keeps (next t w) (ih t w h)
    where
      keeps : (o : Option (Step ops)) → AwaitFlies t o → AwaitFlies s o
      keeps none a = tt
      keeps (some (err e, u, v)) a = tt
      keeps (some (ok _, u, v)) a = (Keeps-trans k a.0, a.1, a.2, a.3 ∙ n)

  pub await_front-Flies :
      (rounds : ℕ) (s : ShardStream B) (w : W)
      → Flies serves content at s
      → AwaitFlies s (await_front ops rounds s w)
  unfolding await_front
  await_front-Flies zero s w h = tt
  await_front-Flies (suc rounds) s w h = elim (Bool-cases (front_done s.pending)) [
    | inl front ↦ rw (await_front, front) (Keeps-refl s, h, front, refl)
    | inr waits ↦
        let next = λ (t : ShardStream B) (v : W). await_front ops rounds t v in
        let a = ops.reap 1 1 h.b w in
        subst (AwaitFlies s) (sym (round s w h.b waits h.is_backend)) (
          go_on-Flies s next (λ t v. await_front-Flies rounds t v) (reaped ops s a)
            (reaped-Flies s h.b w h.entries h.of_file a refl))
  ]
    where
      round :
          (s : ShardStream B) (w : W) (b : B)
          → front_done s.pending ≡ false
          → s.backend ≡ some b
          → await_front ops (suc rounds) s w
            ≡ go_on ops (λ t v. await_front ops rounds t v) (reaped ops s (ops.reap 1 1 b w))
      round s w b f e = rw (await_front, f, e) refl
