-- ===== src/Shard/Load.antt =====
-- `ShardSet::load` of src/shard.cpp.
pub mod Laws
pub mod Lines
use mathlib.Core.Option
use forge_dsio.Prelude.{
  ℕ, ◌+◌, ◌%◌, ◌==◌, ◌!=◌, ltb, if◌then◌else◌, Bool, true, false, Option, none, some, List, [], ◌∷◌,
  Outcome, ok, err,
}
use forge_dsio.Prelude.Words.{add_u64}
use forge_dsio.Error.{
  Text, Error, manifest_open, manifest_fields, manifest_empty_path, manifest_numbers,
  manifest_zero_length, manifest_misaligned, manifest_overflow, manifest_read,
}
use forge_dsio.Shard.{Shard, ShardSet, add}
use forge_dsio.Shard.Text.{carriage_return, hash, is_empty, parse_u64, Fields, split_line, lines}
use forge_dsio.Shard.Paths.{parent_path, resolve}

-- What one line comes to. `faulted`: `offset % alignment` divides by zero.
pub data LineResult : Type 0 where
  skipped : LineResult
  pushed : Shard → LineResult
  failed : Error → LineResult
  faulted : LineResult

-- `if (!line.empty() && line.back() == '\r') line.pop_back()`.
unfoldable pub strip_return : Text → Text
strip_return [] = []
strip_return (c ∷ []) = if c == carriage_return then [] else c ∷ []
strip_return (c ∷ d ∷ s) = c ∷ strip_return (d ∷ s)

abbrev pub is_skipped : Text → Bool
is_skipped [] = true
is_skipped (c ∷ _) = c == hash

-- The stream that `std::ifstream` opened: what it reads, and whether a read then failed.
pub record Input : Type 0 where
  pub text : Text
  pub bad : Bool

module _ (manifest : Text) (alignment : ℕ) where
  unfoldable pub check_shard : ℕ → Text → ℕ → ℕ → LineResult
  check_shard number path offset length =
      if length == 0
      then failed (manifest_zero_length manifest number)
      else if alignment == 0
      then faulted
      else if offset % alignment != 0
      then failed (manifest_misaligned manifest number offset alignment)
      else if ltb (add_u64 offset length) offset
      then failed (manifest_overflow manifest number)
      else pushed
          (record { path = resolve (parent_path manifest) path; offset = offset; length = length })

  unfoldable pub read_numbers : ℕ → Text → Option ℕ → Option ℕ → LineResult
  unfolding check_shard
  read_numbers number path none _ = failed (manifest_numbers manifest number)
  read_numbers number path (some offset) none = failed (manifest_numbers manifest number)
  read_numbers number path (some offset) (some length) = check_shard number path offset length

  unfoldable pub read_fields : ℕ → Option Fields → LineResult
  unfolding read_numbers
  read_fields number none = failed (manifest_fields manifest number)
  read_fields number (some f) =
      if is_empty f.path
      then failed (manifest_empty_path manifest number)
      else read_numbers number f.path (parse_u64 f.offset) (parse_u64 f.length)

  -- The body of the loop, for the line with this number.
  unfoldable pub read_line : ℕ → Text → LineResult
  unfolding read_fields
  read_line number raw =
      let line = strip_return raw in
      if is_skipped line then skipped else read_fields number (split_line line)

  -- The loop, from the number of lines read and the shards so far. `none`: a line faulted.
  unfoldable pub load_lines : ℕ → ShardSet → List Text → Option (Outcome Error ShardSet)
  load_lines number set [] = some (ok set)
  load_lines number set (line ∷ rest) = elim (read_line (number + 1) line) [
    | skipped ↦ load_lines (number + 1) set rest
    | pushed s ↦ load_lines (number + 1) (add s set) rest
    | failed e ↦ some (err e)
    | faulted ↦ none
  ]

  unfoldable pub check_stream : Bool → Outcome Error ShardSet → Outcome Error ShardSet
  check_stream bad (err e) = err e
  check_stream true (ok set) = err (manifest_read manifest)
  check_stream false (ok set) = ok set

  -- `none` for the stream: the manifest cannot be opened.
  unfoldable pub load : Option Input → Option (Outcome Error ShardSet)
  unfolding load_lines check_stream
  load none = some (err (manifest_open manifest))
  load (some i) = Option.map (check_stream i.bad) (load_lines 0 [] (lines i.bad i.text))
