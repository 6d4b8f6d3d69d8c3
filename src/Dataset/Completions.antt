-- ===== src/Dataset/Completions.antt =====
-- `await_front`: what a completion changes of the entries in flight.
use mathlib.Core.Option
use mathlib.Core.Option.{some-injective}
use forge_dsio.Prelude.{
  ℕ, ◌-◌, ◌≡◌, ◌≢◌, refl, sym, ◌∙◌, subst, ◌⊎◌, inl, inr, Bool-cases, Option-cases, ◌==◌, ==_iff,
  ◌!=◌, min, true, Option, none, some, List, [], ◌∷◌, ok, err, arith,
}
use forge_dsio.Error.{stream_unknown_request, stream_read_failed}
use forge_dsio.Backend.{Completion}
use forge_dsio.Dataset.{Pending, ShardStream}
use forge_dsio.Dataset.Content.Slots.{AllOther}
use forge_dsio.Dataset.Pipeline.{complete, settle_completion, land}

-- The first entry whose slot is the token is done, with the bytes that lie in the window; every other
-- entry, and the order, stays.
pub data Marks (window_end : ℕ) (c : Completion) : List Pending → List Pending → Type 0 where
  here :
      {p : Pending} {rest : List Pending}
      → p.slot ≡ c.token
      → Marks window_end c
          (p ∷ rest)
          (record p { bytes = min c.bytes (window_end - p.offset); done = true } ∷ rest)
  there :
      {p : Pending} {rest rest' : List Pending}
      → p.slot ≢ c.token
      → Marks window_end c rest rest'
      → Marks window_end c (p ∷ rest) (p ∷ rest')

Marks-later :
    (window_end : ℕ) (c : Completion) (p : Pending) (rest : List Pending)
    (o : Option (List Pending)) (after : List Pending)
    → p.slot ≢ c.token
    → ((ps : List Pending) → o ≡ some ps → Marks window_end c rest ps)
    → Option.map (λ ps. p ∷ ps) o ≡ some after
    → Marks window_end c (p ∷ rest) after
Marks-later window_end c p rest none after other ih e = cc
Marks-later window_end c p rest (some ps) after other ih e =
    subst (Marks window_end c (p ∷ rest)) (some-injective _ _ e) (Marks.there other (ih ps refl))

-- Where no entry is found, none has the token.
complete-AllOther :
    (window_end : ℕ) (c : Completion) (before : List Pending)
    → complete window_end c before ≡ none
    → AllOther c.token before
unfolding complete
complete-AllOther window_end c [] e = tt
complete-AllOther window_end c (p ∷ rest) e = elim (Bool-cases (p.slot == c.token)) [
  | inl same ↦ absurd (ground (arith, same, e))
  | inr other ↦ (
    λ q. ground (arith, other, q),
    complete-AllOther window_end c rest
        (none_later (complete window_end c rest) (ground (arith, other, e))),
  )
]
  where
    none_later : (o : Option (List Pending)) → Option.map (λ ps. p ∷ ps) o ≡ none → o ≡ none
    none_later none q = refl
    none_later (some ps) q = absurd (ground (arith, q))

complete-Marks :
    (window_end : ℕ) (c : Completion) (before after : List Pending)
    → complete window_end c before ≡ some after
    → Marks window_end c before after
unfolding complete
complete-Marks window_end c [] after e = cc
complete-Marks window_end c (p ∷ rest) after e = elim (Bool-cases (p.slot == c.token)) [
  | inl same ↦
      let q : complete window_end c (p ∷ rest)
          ≡ some (record p { bytes = min c.bytes (window_end - p.offset); done = true } ∷ rest) =
        rw (complete, same) refl in
      subst (Marks window_end c (p ∷ rest)) (some-injective _ _ (sym q ∙ e))
        (Marks.here ((==_iff p.slot c.token).0 same))
  | inr other ↦
      let q : complete window_end c (p ∷ rest)
          ≡ Option.map (λ ps. p ∷ ps) (complete window_end c rest) =
        rw (complete, other) refl in
      Marks-later window_end c p rest (complete window_end c rest) after (λ f. ground arith)
        (λ ps g. complete-Marks window_end c rest ps g) (sym q ∙ e)
]

module _ {B : Type 0} where
  -- Settling a completion, in whatever order completions arrive, either fails (no entry has its token,
  -- or one has, but the read failed with its `errno`), or it marks the first entry of its token, keeps every other
  -- entry and the order, and puts the bytes into the buffer of its slot; nothing else changes.
  pub settle_completion-Marks :
      (c : Completion) (s : ShardStream B)
      → ((settle_completion c s ≡ err stream_unknown_request) × AllOther c.token s.pending)
        ⊎ ((settle_completion c s ≡ err (stream_read_failed c.error))
            × (c.error ≢ 0)
            × ((after : List Pending) × Marks s.window_end c s.pending after))
        ⊎ ((c.error ≡ 0)
            × ((after : List Pending) × Marks s.window_end c s.pending after
                × (settle_completion c s
                    ≡ ok (record s { pending = after; buffers = land c s.buffers }))))
  unfolding settle_completion
  settle_completion-Marks c s = elim (Option-cases (complete s.window_end c s.pending)) [
    | inl unknown ↦
        inl
          (rw (settle_completion, unknown) refl, complete-AllOther s.window_end c s.pending unknown)
    | inr (after, found) ↦ elim (Bool-cases (c.error != 0)) [
      | inl failed ↦ inr (
          inl (
            rw (settle_completion, found, failed) refl,
            λ e. ground arith,
            (after, complete-Marks s.window_end c s.pending after found),
          ))
      | inr works ↦ inr (
          inr (
            ground arith,
            (
              after,
              complete-Marks s.window_end c s.pending after found,
              rw (settle_completion, found, works) refl,
            ),
          ))
    ]
  ]
