-- ===== src/Shard/Save.antt =====
-- `ShardSet::save` of src/shard.cpp. `std::filesystem::relative` looks at the file system, and is a
-- parameter: `none` is an error code.
use forge_dsio.Prelude.{
  ℕ, ◌||◌, if◌then◌else◌, Bool, true, false, Option, none, some, [], ◌∷◌, ◌++◌, Outcome, ok, err,
}
use forge_dsio.Error.{Text, Error, save_open, save_path, save_write}
use forge_dsio.Shard.{Shard, ShardSet}
use forge_dsio.Shard.Text.{tab, newline, is_empty, find, show}
use forge_dsio.Shard.Paths.{parent_path}

-- `kManifestHeader`.
abbrev pub header : Text
header =
    b'#' ∷ b' ' ∷ b'd' ∷ b's' ∷ b'i' ∷ b'o' ∷ b' ' ∷ b's' ∷ b'h' ∷ b'a' ∷ b'r' ∷ b'd' ∷ b' ' ∷ b'm'
    ∷ b'a' ∷ b'n' ∷ b'i' ∷ b'f' ∷ b'e' ∷ b's' ∷ b't' ∷ b' ' ∷ b'v' ∷ b'1' ∷ []

abbrev pub is_found : Option ℕ → Bool
is_found none = false
is_found (some _) = true

-- What stands in the file, and what is returned.
pub record Saved : Type 0 where
  pub written : Text
  pub result : Outcome Error (Unit {0})

module _ (relative : Text → Text → Option Text) (manifest : Text) where
  abbrev pub or_path : Text → Option Text → Text
  or_path path none = path
  or_path path (some r) = if is_empty r then path else r

  -- The path that is written for a shard.
  unfoldable pub written_path : Text → Text
  written_path path =
      if is_empty (parent_path manifest)
      then path
      else or_path path (relative path (parent_path manifest))

  abbrev pub shard_line : Shard → Text
  shard_line s = written_path s.path ++ (tab ∷ (show s.offset ++ (tab ∷ show s.length)))

  -- The loop, from what is written so far.
  unfoldable pub save_lines : Text → ShardSet → Saved
  save_lines out [] = record { written = out; result = ok tt }
  save_lines out (s ∷ set) = elim (is_found (find tab s.path) || is_found (find newline s.path)) [
    | true ↦ record { written = out; result = err (save_path s.path) }
    | false ↦ save_lines (out ++ shard_line s ++ newline ∷ []) set
  ]

  abbrev pub check_written : Bool → Outcome Error (Unit {0}) → Outcome Error (Unit {0})
  check_written true (ok _) = err (save_write manifest)
  check_written true (err e) = err e
  check_written false r = r

  -- `opened`: the stream could be opened. `failed`: a write on it failed.
  unfoldable pub save : Bool → Bool → ShardSet → Saved
  unfolding save_lines
  save false failed set = record { written = []; result = err (save_open manifest) }
  save true failed set =
      let saved = save_lines (header ++ newline ∷ []) set in
      record { written = saved.written; result = check_written failed saved.result }
