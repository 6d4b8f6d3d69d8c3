-- ===== src/Shard/Load/Laws.antt =====
-- `ShardSet::load`: what every shard of a set that was loaded satisfies.
use mathlib.Core.Option
use forge_dsio.Prelude.{
  ℕ, ◌+◌, ◌%◌, ◌<◌, ◌≡◌, refl, inl, inr, Bool-cases, Bool, true, false, Option, none, some, List,
  [], ◌∷◌, ◌⊎◌, subst, sym, ap, ◌∙◌, Outcome, ok, err, arith,
}
use forge_dsio.Prelude.Words.{u64_mod, add_u64}
use forge_dsio.Error.{Text, Error}
use forge_dsio.Shard.{Shard, ShardSet, add}
use forge_dsio.Shard.Text.{is_empty, parse_u64, Fields, split_line, lines}
use forge_dsio.Shard.Text.Decimal.{parse_u64_iff}
use forge_dsio.Shard.Load.{
  LineResult, skipped, pushed, failed, faulted, strip_return, is_skipped, Input, check_shard,
  read_numbers, read_fields, read_line, load_lines, check_stream, load,
}

-- A shard that a direct read can start: it is not empty, starts at a multiple of the alignment, and
-- ends within 64 bits.
abbrev pub IsReadable : ℕ → Shard → Type 0
IsReadable alignment s =
    (0 < alignment) × (0 < s.length) × (s.offset % alignment ≡ 0) × (s.offset + s.length < u64_mod)

abbrev pub AllReadable : ℕ → ShardSet → Type 0
AllReadable alignment [] = Unit {0}
AllReadable alignment (s ∷ set) = IsReadable alignment s × AllReadable alignment set

abbrev LineReadable : ℕ → LineResult → Type 0
LineReadable alignment (pushed s) = IsReadable alignment s
LineReadable alignment _ = Unit {0}

AllReadable-add :
    (alignment : ℕ) (s : Shard) (set : ShardSet)
    → AllReadable alignment set
    → IsReadable alignment s
    → AllReadable alignment (add s set)
unfolding add
AllReadable-add alignment s [] all one = (one, tt)
AllReadable-add alignment s (x ∷ set) all one = (all.0, AllReadable-add alignment s set all.1 one)

LineResult-cases :
    (r : LineResult)
    → (r ≡ skipped)
      ⊎ ((s : Shard) × (r ≡ pushed s))
      ⊎ ((e : Error) × (r ≡ failed e))
      ⊎ (r ≡ faulted)
LineResult-cases skipped = inl refl
LineResult-cases (pushed s) = inr (inl (s, refl))
LineResult-cases (failed e) = inr (inr (inl (e, refl)))
LineResult-cases faulted = inr (inr (inr refl))

module _ (manifest : Text) (alignment : ℕ) where
  check_shard-LineReadable :
      (number : ℕ) (path : Text) (offset length : ℕ)
      → offset < u64_mod
      → length < u64_mod
      → LineReadable alignment (check_shard manifest alignment number path offset length)
  unfolding check_shard add_u64
  check_shard-LineReadable number path offset length ho hl = ground arith

  read_numbers-LineReadable :
      (number : ℕ) (path : Text) (offset length : Option ℕ)
      → ((n : ℕ) → offset ≡ some n → n < u64_mod)
      → ((n : ℕ) → length ≡ some n → n < u64_mod)
      → LineReadable alignment (read_numbers manifest alignment number path offset length)
  unfolding read_numbers
  read_numbers-LineReadable number path none length ho hl = tt
  read_numbers-LineReadable number path (some o) none ho hl = tt
  read_numbers-LineReadable number path (some o) (some l) ho hl =
      check_shard-LineReadable number path o l (ho o refl) (hl l refl)

  parse_u64_fits : (s : Text) (n : ℕ) → parse_u64 s ≡ some n → n < u64_mod
  parse_u64_fits s n e = ((parse_u64_iff s n).0 e).3

  read_fields-LineReadable :
      (number : ℕ) (fields : Option Fields)
      → LineReadable alignment (read_fields manifest alignment number fields)
  unfolding read_fields
  read_fields-LineReadable number none = tt
  read_fields-LineReadable number (some f) = elim (Bool-cases (is_empty f.path)) [
    | inl e ↦ rw e tt
    | inr e ↦ rw e (
        read_numbers-LineReadable number f.path (parse_u64 f.offset) (parse_u64 f.length)
          (parse_u64_fits f.offset) (parse_u64_fits f.length))
  ]

  read_line-LineReadable :
      (number : ℕ) (raw : Text) → LineReadable alignment (read_line manifest alignment number raw)
  unfolding read_line
  read_line-LineReadable number raw = elim (Bool-cases (is_skipped (strip_return raw))) [
    | inl e ↦ rw e tt
    | inr e ↦ rw e (read_fields-LineReadable number (split_line (strip_return raw)))
  ]

  -- How the loop goes on after a line.
  abbrev pub after : ℕ → ShardSet → List Text → LineResult → Option (Outcome Error ShardSet)
  after number set rest skipped = load_lines manifest alignment number set rest
  after number set rest (pushed s) = load_lines manifest alignment number (add s set) rest
  after number set rest (failed e) = some (err e)
  after number set rest faulted = none

  pub load_lines-cons :
      (number : ℕ) (set : ShardSet) (line : Text) (rest : List Text)
      → load_lines manifest alignment number set (line ∷ rest)
        ≡ after (number + 1) set rest (read_line manifest alignment (number + 1) line)
  unfolding load_lines
  load_lines-cons number set line rest =
      elim (LineResult-cases (read_line manifest alignment (number + 1) line)) [
        | inl skip ↦ rw (skip, load_lines) refl
        | inr (inl (s, push)) ↦ rw (push, load_lines) refl
        | inr (inr (inl (x, fail))) ↦ rw (fail, load_lines) refl
        | inr (inr (inr fault)) ↦ rw (fault, load_lines) refl
      ]

  after-AllReadable :
      (number : ℕ) (set : ShardSet) (rest : List Text) (loaded : ShardSet) (r : LineResult)
      → ((s : ShardSet)
          → AllReadable alignment s
          → load_lines manifest alignment number s rest ≡ some (ok loaded)
          → AllReadable alignment loaded)
      → AllReadable alignment set
      → LineReadable alignment r
      → after number set rest r ≡ some (ok loaded)
      → AllReadable alignment loaded
  after-AllReadable number set rest loaded skipped ih all one q = ih set all q
  after-AllReadable number set rest loaded (pushed s) ih all one q =
      ih (add s set) (AllReadable-add alignment s set all one) q
  after-AllReadable number set rest loaded (failed x) ih all one q = cc
  after-AllReadable number set rest loaded faulted ih all one q = cc

  load_lines-AllReadable :
      (number : ℕ) (set : ShardSet) (rest : List Text) (loaded : ShardSet)
      → AllReadable alignment set
      → load_lines manifest alignment number set rest ≡ some (ok loaded)
      → AllReadable alignment loaded
  unfolding load_lines
  load_lines-AllReadable number set [] loaded all e =
      let same : set ≡ loaded = cc in subst (AllReadable alignment) same all
  load_lines-AllReadable number set (line ∷ rest) loaded all e =
      after-AllReadable (number + 1) set rest loaded
        (read_line manifest alignment (number + 1) line)
        (λ s h q. load_lines-AllReadable (number + 1) s rest loaded h q) all
        (read_line-LineReadable (number + 1) line) (sym (load_lines-cons number set line rest) ∙ e)

  check_stream-ok :
      (bad : Bool) (r : Outcome Error ShardSet) (loaded : ShardSet)
      → check_stream manifest alignment bad r ≡ ok loaded
      → r ≡ ok loaded
  unfolding check_stream
  check_stream-ok true (ok set) loaded e = cc
  check_stream-ok false (ok set) loaded e = e
  check_stream-ok bad (err x) loaded e = e

  -- Every shard of a set that `load` returns can be read directly: it is not empty, its offset is a
  -- multiple of the alignment, which is not 0, and it ends within 64 bits.
  pub load-AllReadable :
      (input : Option Input) (loaded : ShardSet)
      → load manifest alignment input ≡ some (ok loaded)
      → AllReadable alignment loaded
  unfolding load
  load-AllReadable none loaded e = cc
  load-AllReadable (some i) loaded e =
      read (load_lines manifest alignment 0 [] (lines i.bad i.text)) refl e
    where
      read :
          (r : Option (Outcome Error ShardSet))
          → load_lines manifest alignment 0 [] (lines i.bad i.text) ≡ r
          → Option.map (check_stream manifest alignment i.bad) r ≡ some (ok loaded)
          → AllReadable alignment loaded
      read none h q = cc
      read (some r) h q =
          let same : check_stream manifest alignment i.bad r ≡ ok loaded = cc in
          let loads : r ≡ ok loaded = check_stream-ok i.bad r loaded same in
          load_lines-AllReadable 0 [] (lines i.bad i.text) loaded tt (h ∙ ap some loads)
