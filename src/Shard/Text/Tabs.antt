-- ===== src/Shard/Text/Tabs.antt =====
-- The fields of a manifest line: what `split_line` of src/shard.cpp finds.
use mathlib.Core.Option
use mathlib.Core.Option.{some-injective}
use forge_dsio.Prelude.{
  ℕ, suc, ◌+◌, ◌-◌, ◌==◌, ◌≡◌, refl, inl, inr, Bool-cases, Option-cases, Option, none, some, [],
  ◌∷◌, ◌++◌, subst, sym, ap, ◌∙◌, take, drop, drop-drop, arith,
}
use forge_dsio.Error.{Text}
use forge_dsio.Shard.Text.{tab, find, find_from, Fields, split_line}
use forge_dsio.Shard.Text.Splitting.{Lacks, Lacks-find, manifest_line}

-- The text around the first `b`.
record IsSplit (b : ℕ) (s : Text) (i : ℕ) : Type 0 where
  whole : s ≡ take i s ++ b ∷ drop (suc i) s
  before : Lacks b (take i s)

find-IsSplit : (b : ℕ) (s : Text) (i : ℕ) → find b s ≡ some i → IsSplit b s i
unfolding find
find-IsSplit b [] i e = cc
find-IsSplit b (c ∷ s) i e = elim (Bool-cases (c == b)) [
  | inl hit ↦
      let here : 0 ≡ i = ground arith in
      subst (IsSplit b (c ∷ s)) here
        (record { whole = ap (λ x. x ∷ s) (let q : c ≡ b = ground arith in q); before = tt })
  | inr miss ↦ elim (Option-cases (find b s)) [
    | inl nothing ↦ absurd (ground arith)
    | inr (j, found) ↦
        let later : suc j ≡ i = ground arith in
        let rest = find-IsSplit b s j found in
        subst (IsSplit b (c ∷ s)) later
          (record { whole = ap (◌∷◌ c) rest.whole; before = (λ q. ground arith, rest.before) })
  ]
]

-- The fields of a line, and the tabs between them.
pub record IsFields (line : Text) (f : Fields) : Type 0 where
  pub whole : line ≡ manifest_line f.path f.offset f.length
  pub path_tab : Lacks tab f.path
  pub offset_tab : Lacks tab f.offset
  pub length_tab : Lacks tab f.length

-- The fields between the tab at `first`, the tab `j` bytes behind it, and the end.
abbrev fields_at : Text → ℕ → ℕ → Fields
fields_at line first j = record {
  path = take first line;
  offset = take (first + 1 + j - first - 1) (drop (first + 1) line);
  length = drop (first + 1 + j + 1) line;
}

fields_at-IsFields :
    (line : Text) (first j : ℕ)
    → find tab line ≡ some first
    → find tab (drop (first + 1) line) ≡ some j
    → find tab (drop (first + 1 + j + 1) line) ≡ none
    → IsFields line (fields_at line first j)
fields_at-IsFields line first j e1 e2 e3 =
    let one = find-IsSplit tab line first e1 in
    let two = find-IsSplit tab (drop (first + 1) line) j e2 in
    let next : suc first ≡ first + 1 = omega arith in
    let width : j ≡ first + 1 + j - first - 1 = omega arith in
    let last : first + 1 + suc j ≡ first + 1 + j + 1 = omega arith in
    let middle : drop (first + 1) line
        ≡ take (first + 1 + j - first - 1) (drop (first + 1) line)
          ++ tab ∷ drop (first + 1 + j + 1) line =
      two.whole
      ∙ ap (λ k. take k (drop (first + 1) line) ++ tab ∷ drop (suc j) (drop (first + 1) line)) width
      ∙ ap (λ t. take (first + 1 + j - first - 1) (drop (first + 1) line) ++ tab ∷ t)
          (drop-drop (first + 1) (suc j) line ∙ ap (λ k. drop k line) last) in
    record {
      whole =
          one.whole
          ∙ ap (λ k. take first line ++ tab ∷ drop k line) next
          ∙ ap (λ t. take first line ++ tab ∷ t) middle;
      path_tab = one.before;
      offset_tab = subst (λ k. Lacks tab (take k (drop (first + 1) line))) width two.before;
      length_tab = Lacks-find tab (drop (first + 1 + j + 1) line) e3;
    }

-- The end of `split_line`, after a look for a third tab.
abbrev without_third : Text → ℕ → ℕ → Option ℕ → Option Fields
without_third line first j third = elim third [
  | some _ ↦ none
  | none ↦ some (fields_at line first j)
]

split_line-two :
    (line : Text) (first j : ℕ)
    → find tab line ≡ some first
    → find tab (drop (first + 1) line) ≡ some j
    → split_line line ≡ without_third line first j (find_from tab (first + 1 + j + 1) line)
unfolding split_line find_from
split_line-two line first j e1 e2 = rw (split_line, e1, e2) refl

pub split_line-IsFields : (line : Text) (f : Fields) → split_line line ≡ some f → IsFields line f
unfolding split_line find_from
split_line-IsFields line f e = elim (Option-cases (find tab line)) [
  | inl no_first ↦ let q : split_line line ≡ none = rw (split_line, no_first) refl in cc
  | inr (first, e1) ↦ elim (Option-cases (find tab (drop (first + 1) line))) [
    | inl no_second ↦ let q : split_line line ≡ none = rw (split_line, e1, no_second) refl in cc
    | inr (j, e2) ↦
        let two : split_line line
            ≡ without_third line first j (
                Option.map (λ i. first + 1 + j + 1 + i)
                  (find tab (drop (first + 1 + j + 1) line))) =
          split_line-two line first j e1 e2 in
        elim (Option-cases (find tab (drop (first + 1 + j + 1) line))) [
          | inr (k, third) ↦
              let q : split_line line ≡ none =
                two
                ∙ ap (λ x. without_third line first j (Option.map (λ i. first + 1 + j + 1 + i) x))
                    third in
              cc
          | inl no_third ↦
              let q : split_line line ≡ some (fields_at line first j) =
                two
                ∙ ap (λ x. without_third line first j (Option.map (λ i. first + 1 + j + 1 + i) x))
                    no_third in
              subst (IsFields line) (some-injective _ _ (sym q ∙ e))
                (fields_at-IsFields line first j e1 e2 no_third)
        ]
  ]
]
