-- ===== src/Shard/Load/Lines.antt =====
-- `ShardSet::load`: the set that was loaded is that of the lines of the manifest.
use mathlib.Core.Option
use forge_dsio.Prelude.{
  ℕ, ◌+◌, ◌≡◌, refl, inl, inr, Bool-cases, Option-cases, Bool, true, false, Option, none, some,
  List, [], ◌∷◌, ◌++◌, subst, sym, ap, ◌∙◌, append-nil, append_assoc, Outcome, ok, err, arith,
}
use forge_dsio.Error.{Text, Error}
use forge_dsio.Shard.{Shard, ShardSet, add}
use forge_dsio.Shard.Text.{is_empty, parse_u64, Fields, split_line, lines}
use forge_dsio.Shard.Text.Tabs.{IsFields, split_line-IsFields}
use forge_dsio.Shard.Paths.{parent_path, resolve}
use forge_dsio.Shard.Load.{
  LineResult, skipped, pushed, failed, faulted, strip_return, is_skipped, Input, check_shard,
  read_numbers, read_fields, read_line, load_lines, check_stream, load,
}
use forge_dsio.Shard.Load.Laws.{after, load_lines-cons}

module _ (manifest : Text) (alignment : ℕ) where
  -- The shard of a line: of its three fields, without a return at its end.
  pub record IsShardLine (line : Text) (s : Shard) : Type 0 where
    pub kept : is_skipped (strip_return line) ≡ false
    pub fields : Fields
    pub whole : IsFields (strip_return line) fields
    pub named : is_empty fields.path ≡ false
    pub path : s.path ≡ resolve (parent_path manifest) fields.path
    pub offset : parse_u64 fields.offset ≡ some s.offset
    pub length : parse_u64 fields.length ≡ some s.length

  -- The shards of the lines, in order: one for each that is not empty and no comment.
  pub data Reads : List Text → ShardSet → Type 0 where
    finish : Reads [] []
    skip :
        {line : Text} {rest : List Text} {set : ShardSet}
        → is_skipped (strip_return line) ≡ true
        → Reads rest set
        → Reads (line ∷ rest) set
    take_line :
        {line : Text} {rest : List Text} {s : Shard} {set : ShardSet}
        → IsShardLine line s
        → Reads rest set
        → Reads (line ∷ rest) (s ∷ set)

  abbrev LineRead : Text → LineResult → Type 0
  LineRead line skipped = is_skipped (strip_return line) ≡ true
  LineRead line (pushed s) = IsShardLine line s
  LineRead line _ = Unit {0}

  check_shard-LineRead :
      (number : ℕ) (line path : Text) (offset length : ℕ)
      → IsShardLine line
          (record { path = resolve (parent_path manifest) path; offset = offset; length = length })
      → LineRead line (check_shard manifest alignment number path offset length)
  unfolding check_shard
  check_shard-LineRead number line path offset length h = ground (arith, h)

  read_numbers-LineRead :
      (number : ℕ) (line : Text) (f : Fields)
      → is_skipped (strip_return line) ≡ false
      → IsFields (strip_return line) f
      → is_empty f.path ≡ false
      → LineRead line
          (read_numbers manifest alignment number f.path (parse_u64 f.offset) (parse_u64 f.length))
  unfolding read_numbers
  read_numbers-LineRead number line f kept whole named = elim (Option-cases (parse_u64 f.offset)) [
    | inl bad ↦ rw (bad, read_numbers) tt
    | inr (o, offset) ↦ elim (Option-cases (parse_u64 f.length)) [
      | inl bad ↦ rw (offset, bad, read_numbers) tt
      | inr (l, length) ↦
          rw (offset, length, read_numbers)
            (check_shard-LineRead number line f.path o l (record {
              kept = kept;
              fields = f;
              whole = whole;
              named = named;
              path = refl;
              offset = offset;
              length = length;
            }))
    ]
  ]

  read_line-LineRead :
      (number : ℕ) (line : Text) → LineRead line (read_line manifest alignment number line)
  unfolding read_line read_fields
  read_line-LineRead number line = elim (Bool-cases (is_skipped (strip_return line))) [
    | inl passed ↦ rw (read_line, passed) passed
    | inr kept ↦ elim (Option-cases (split_line (strip_return line))) [
      | inl bad ↦ rw (read_line, kept, bad) tt
      | inr (f, splits) ↦ elim (Bool-cases (is_empty f.path)) [
        | inl unnamed ↦ rw (read_line, kept, splits, unnamed) tt
        | inr named ↦
            rw (read_line, kept, splits, named)
              (read_numbers-LineRead number line f kept
                (split_line-IsFields (strip_return line) f splits) named)
      ]
    ]
  ]

  after-Reads :
      (number : ℕ) (set : ShardSet) (line : Text) (rest : List Text) (loaded : ShardSet)
      (r : LineResult)
      → ((s : ShardSet)
          → load_lines manifest alignment number s rest ≡ some (ok loaded)
          → (more : ShardSet) × (loaded ≡ s ++ more) × Reads rest more)
      → LineRead line r
      → after manifest alignment number set rest r ≡ some (ok loaded)
      → (more : ShardSet) × (loaded ≡ set ++ more) × Reads (line ∷ rest) more
  unfolding add
  after-Reads number set line rest loaded skipped ih one q =
      let (more, same, reads) = ih set q in (more, same, skip one reads)
  after-Reads number set line rest loaded (pushed s) ih one q =
      let (more, same, reads) = ih (add s set) q in
      (s ∷ more, same ∙ append_assoc set (s ∷ []) more, take_line one reads)
  after-Reads number set line rest loaded (failed e) ih one q = cc
  after-Reads number set line rest loaded faulted ih one q = cc

  load_lines-Reads :
      (number : ℕ) (set : ShardSet) (rest : List Text) (loaded : ShardSet)
      → load_lines manifest alignment number set rest ≡ some (ok loaded)
      → (more : ShardSet) × (loaded ≡ set ++ more) × Reads rest more
  unfolding load_lines
  load_lines-Reads number set [] loaded e =
      let same : loaded ≡ set = cc in ([], same ∙ sym (append-nil set), finish)
  load_lines-Reads number set (line ∷ rest) loaded e =
      after-Reads (number + 1) set line rest loaded (read_line manifest alignment (number + 1) line)
        (λ s q. load_lines-Reads (number + 1) s rest loaded q)
        (read_line-LineRead (number + 1) line)
        (sym (load_lines-cons manifest alignment number set line rest) ∙ e)

  check_stream-works :
      (bad : Bool) (r : Outcome Error ShardSet) (loaded : ShardSet)
      → check_stream manifest alignment bad r ≡ ok loaded
      → (bad ≡ false) × (r ≡ ok loaded)
  unfolding check_stream
  check_stream-works true (ok set) loaded e = cc
  check_stream-works false (ok set) loaded e = (refl, e)
  check_stream-works true (err x) loaded e = cc
  check_stream-works false (err x) loaded e = cc

  -- A set that `load` returns is that of the lines of the manifest, all of which were read without a
  -- failure: in their order one shard for each line that is not empty and does not start with `#`,
  -- without a carriage return at its end. Such a line is a path that is not empty, an offset and a
  -- length, with one tab between two of them and no other; the shard has these 64-bit numbers, and the
  -- path from the directory of the manifest.
  pub load-Reads :
      (i : Input) (loaded : ShardSet)
      → load manifest alignment (some i) ≡ some (ok loaded)
      → (i.bad ≡ false) × Reads (lines i.bad i.text) loaded
  unfolding load
  load-Reads i loaded e = read (load_lines manifest alignment 0 [] (lines i.bad i.text)) refl e
    where
      read :
          (r : Option (Outcome Error ShardSet))
          → load_lines manifest alignment 0 [] (lines i.bad i.text) ≡ r
          → Option.map (check_stream manifest alignment i.bad) r ≡ some (ok loaded)
          → (i.bad ≡ false) × Reads (lines i.bad i.text) loaded
      read none h q = cc
      read (some r) h q =
          let same : check_stream manifest alignment i.bad r ≡ ok loaded = cc in
          let (works, loads) = check_stream-works i.bad r loaded same in
          let (more, all, reads) =
            load_lines-Reads 0 [] (lines i.bad i.text) loaded (h ∙ ap some loads) in
          (works, subst (Reads (lines i.bad i.text)) (sym all) reads)
