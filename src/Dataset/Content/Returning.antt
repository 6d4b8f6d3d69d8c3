-- ===== src/Dataset/Content/Returning.antt =====
-- `await_front` of `ShardStream` returns: each round takes a request out of flight.
use forge_dsio.Prelude.{
  ℕ, zero, suc, ◌<◌, ◌≡◌, ◌≢◌, inl, inr, refl, sym, ap, subst, false, Option, none, some,
  Bool-cases, List, [], ◌∷◌, length, length-append, Outcome, ok, err, arith,
}
use forge_dsio.Error.{Error}
use forge_dsio.Backend.{Completion, BackendOps}
use forge_dsio.Dataset.{ShardStream}
use forge_dsio.Dataset.Pipeline.{
  Step, front_done, settle_completion, settled, reaped, go_on, await_front,
}
use forge_dsio.Dataset.Completions.{settle_completion-Marks}
use forge_dsio.Dataset.Content.{Serves}

module _ {B W : Type 0} (ops : BackendOps B W) (serves : Serves ops) where
  -- After a round that goes on fewer than `n` requests are in flight.
  abbrev Lessens : ℕ → Step ops → Type 0
  Lessens n (err e, t, w) = Unit
  Lessens n (ok _, t, w) = (b : B) × (t.backend ≡ some b) × (length (serves.flying b) < n)

  settled-Lessens :
      (s : ShardStream B) (b : B) (w : W) (c : Completion) (n : ℕ)
      → length (serves.flying b) < n
      → Lessens n (
          settled ops
            (settle_completion c (record s { backend = some b }))
            (record s { backend = some b })
            w)
  settled-Lessens s b w c n l = elim (settle_completion-Marks c (record s { backend = some b })) [
    | inl (unknown, _) ↦ rw unknown tt
    | inr (inl (failed, _, _)) ↦ rw failed tt
    | inr (inr (works, (after, m, same))) ↦ rw same (b, refl, l)
  ]

  reaped-Lessens :
      (s : ShardStream B) (b : B) (w : W) (a : Outcome Error (List Completion) × B × W)
      → ops.reap 1 1 b w ≡ a
      → Lessens (length (serves.flying b)) (reaped ops s a)
  reaped-Lessens s b w (err _, b', w') q = tt
  reaped-Lessens s b w (ok [], b', w') q = tt
  reaped-Lessens s b w (ok (c ∷ more), b', w') q =
      let (r, xs, ys, before, after, _, _) = serves.on_reap b b' w w' c more q in
      settled-Lessens s b' w' c (length (serves.flying b)) (
        omega (
          arith,
          ap length before,
          ap length after,
          length-append xs (r ∷ ys),
          length-append xs ys,
        ))

  go_on-returns :
      (next : ShardStream B → W → Option (Step ops)) (n : ℕ)
      → ((t : ShardStream B) (w : W) (b : B)
          → t.backend ≡ some b
          → length (serves.flying b) < n
          → next t w ≢ none)
      → (r : Step ops) → Lessens n r
      → go_on ops next r ≢ none
  go_on-returns next n ih (err e, t, w) h q = absurd (ground (arith, q))
  go_on-returns next n ih (ok _, t, w) (b, e, l) q = ih t w b e l q

  -- `await_front` returns with a success or an error when it has more rounds than the backend has
  -- requests in flight.
  pub await_front-Returns :
      (rounds : ℕ) (s : ShardStream B) (w : W) (b : B)
      → s.backend ≡ some b
      → length (serves.flying b) < rounds
      → await_front ops rounds s w ≢ none
  unfolding await_front
  await_front-Returns zero s w b e l = absurd (omega (arith, l))
  await_front-Returns (suc rounds) s w b e l = elim (Bool-cases (front_done s.pending)) [
    | inl front ↦ λ q. absurd (ground (arith, q, front))
    | inr waits ↦
        subst (λ o. o ≢ none) (sym (round s w b waits e))
          (go_on-returns (λ t v. await_front ops rounds t v) (length (serves.flying b))
            (λ t v b' e' l'. await_front-Returns rounds t v b' e' (omega (arith, l, l')))
            (reaped ops s (ops.reap 1 1 b w)) (reaped-Lessens s b w (ops.reap 1 1 b w) refl))
  ]
    where
      round :
          (s : ShardStream B) (w : W) (b : B)
          → front_done s.pending ≡ false
          → s.backend ≡ some b
          → await_front ops (suc rounds) s w
            ≡ go_on ops (λ t v. await_front ops rounds t v) (reaped ops s (ops.reap 1 1 b w))
      round s w b f e = rw (await_front, f, e) refl
