-- ===== src/Shard/Examples.antt =====
-- The theorems about shards at concrete inputs, and tests.
use mathlib.Core.List.{Permᴰ}
use forge_dsio.Prelude.{
  inl, inr, ℕ, ◌<◌, ◌≡◌, ◌≢◌, ◌↔◌, refl, true, false, Option, none, some, List, [], ◌∷◌, ok, arith,
}
use forge_dsio.Prelude.Words.{u64_mod, add_u64}
use forge_dsio.Error.{Text}
use forge_dsio.Shard.{Shard, ShardSet, add}
use forge_dsio.Shard.Text.{
  newline, carriage_return, hash, tab, parse_u64, lines, lines_from, split_line, find, find_from,
  from_chars, scan_digits,
}
use forge_dsio.Shard.Paths.{parent_path, resolve, up_to_slash, strip_slashes, join, filename}
use forge_dsio.Shard.Load.{
  load, load_lines, read_line, read_fields, read_numbers, check_shard, check_stream, strip_return,
  Input,
}
use forge_dsio.Shard.Load.Lines.{Reads, load-Reads}
use forge_dsio.Shard.Load.Laws.{load-AllReadable, AllReadable}
use forge_dsio.Shard.Save.{save, written_path}
use forge_dsio.Shard.Text.Splitting.{Lacks-find}
use forge_dsio.Shard.RoundTrip.{load-save, IsSavable}
use forge_dsio.Shard.RoundTrip.Comments.{IsComment, load-save_comments}
use forge_dsio.Shard.Text.Decimal.{parse_u64_iff, AllDigits, value}
use forge_dsio.Shard.Discover.{
  Entry, Directory, discover, add_files, list_files, sort_files, insert, text_lt,
}
use forge_dsio.Shard.Discover.Laws.{discover-Covers, wanted, Sorted, Covers}

-- `d/a` from byte 8 on, five bytes.
abbrev part : Shard
part = record { path = b'd' ∷ b'/' ∷ b'a' ∷ []; offset = 8; length = 5 }

abbrev whole_file : Shard
whole_file = record { path = b'/' ∷ b'x' ∷ []; offset = 0; length = 13 }

abbrev two : ShardSet
two = part ∷ whole_file ∷ []

-- The manifest `d/m`, and a file system that knows `d/a` below `d`.
abbrev manifest : Text
manifest = b'd' ∷ b'/' ∷ b'm' ∷ []

abbrev relative : Text → Text → Option Text
relative (_ ∷ _ ∷ c ∷ []) _ = some (c ∷ [])
relative _ _ = none

part-IsSavable : IsSavable relative manifest 4 part
unfolding find written_path parent_path up_to_slash strip_slashes resolve join
part-IsSavable = record {
  path_tab = Lacks-find tab part.path refl;
  path_newline = Lacks-find newline part.path refl;
  written_tab = Lacks-find tab (written_path relative manifest part.path) refl;
  written_newline = Lacks-find newline (written_path relative manifest part.path) refl;
  written_kept = refl;
  leads_back = refl;
  readable = (omega arith, omega arith, omega arith, omega arith);
}

whole_file-IsSavable : IsSavable relative manifest 4 whole_file
unfolding find written_path parent_path up_to_slash strip_slashes resolve join
whole_file-IsSavable = record {
  path_tab = Lacks-find tab whole_file.path refl;
  path_newline = Lacks-find newline whole_file.path refl;
  written_tab = Lacks-find tab (written_path relative manifest whole_file.path) refl;
  written_newline = Lacks-find newline (written_path relative manifest whole_file.path) refl;
  written_kept = refl;
  leads_back = refl;
  readable = (omega arith, omega arith, omega arith, omega arith);
}

load-save_example :
    ((save relative manifest true false two).result ≡ ok tt)
    × (load manifest 4
          (some (record { text = (save relative manifest true false two).written; bad = false }))
        ≡ some (ok two))
load-save_example = load-save relative manifest 4 two (part-IsSavable, (whole_file-IsSavable, tt))

-- `#<TAB>0<TAB>5` and `d/a<TAB>8<TAB>5`, with a return at the end.
abbrev typed : Text
typed =
    b'#' ∷ tab ∷ b'0' ∷ tab ∷ b'5' ∷ newline ∷ b'a' ∷ tab ∷ b'8' ∷ tab ∷ b'5' ∷ carriage_return
    ∷ newline ∷ []

abbrev typed_input : Option Input
typed_input = some (record { text = typed; bad = false })

typed-load : load manifest 4 typed_input ≡ some (ok (part ∷ []))
unfolding load load_lines lines lines_from read_line read_fields read_numbers check_shard
    check_stream strip_return split_line find find_from parse_u64 from_chars scan_digits parent_path
    up_to_slash strip_slashes resolve join add_u64 add
typed-load = refl

load-AllReadable_example : AllReadable 4 (part ∷ [])
load-AllReadable_example = load-AllReadable manifest 4 typed_input (part ∷ []) typed-load

abbrev typed_text : Input
typed_text = record { text = typed; bad = false }

load-Reads_example : (false ≡ false) × Reads manifest 4 (lines false typed) (part ∷ [])
load-Reads_example = load-Reads manifest 4 typed_text (part ∷ []) typed-load

abbrev commented : Shard
commented = record { path = b'#' ∷ []; offset = 0; length = 5 }

commented-written : written_path relative manifest commented.path ≡ hash ∷ []
unfolding written_path parent_path up_to_slash strip_slashes
commented-written = refl

commented-IsComment : IsComment relative manifest 4 commented
unfolding find written_path parent_path up_to_slash strip_slashes
commented-IsComment = record {
  path_tab = Lacks-find tab commented.path refl;
  path_newline = Lacks-find newline commented.path refl;
  written_newline = Lacks-find newline (written_path relative manifest commented.path) refl;
  is_comment = ([], commented-written);
}

-- The shard between the others is lost.
load-save_comments_example :
    ((save relative manifest true false (part ∷ commented ∷ whole_file ∷ [])).result ≡ ok tt)
    × (load manifest 4 (
          some (record {
            text = (save relative manifest true false (part ∷ commented ∷ whole_file ∷ [])).written;
            bad = false;
          }))
        ≡ some (ok two))
load-save_comments_example =
    load-save_comments relative manifest 4 (part ∷ commented ∷ whole_file ∷ [])
      (inl part-IsSavable, (inr commented-IsComment, (inl whole_file-IsSavable, tt)))

abbrev twelve : Text
twelve = b'1' ∷ b'2' ∷ []

parse_u64_iff_example :
    (parse_u64 twelve ≡ some 12)
    ↔ ((twelve ≢ []) × AllDigits twelve × (12 ≡ value 0 twelve) × (12 < u64_mod))
parse_u64_iff_example = parse_u64_iff twelve 12

abbrev entry : ℕ → Entry
entry c = record { path = b'd' ∷ b'/' ∷ c ∷ []; is_regular = true; error = none }

-- `d` with the files `b`, `.`, `a` (of 6 bytes each).
abbrev listed_directory : Directory
listed_directory = record {
  is_directory = true;
  opening = none;
  listed = entry b'b' ∷ entry b'.' ∷ entry b'a' ∷ [];
  file_size = λ p. ok 6;
  absolute = λ p. b'/' ∷ p;
}

abbrev found : ShardSet
found =
    record { path = b'/' ∷ b'd' ∷ b'/' ∷ b'a' ∷ []; offset = 0; length = 6 }
    ∷ record { path = b'/' ∷ b'd' ∷ b'/' ∷ b'b' ∷ []; offset = 0; length = 6 }
    ∷ []

found-discover : discover listed_directory (b'd' ∷ []) ≡ ok found
unfolding discover add_files add list_files sort_files insert text_lt filename up_to_slash
found-discover = refl

discover-Covers_example :
    (files : List Text) × Permᴰ (wanted listed_directory.listed) files
    × Sorted files
    × Covers listed_directory files found
discover-Covers_example = discover-Covers listed_directory (b'd' ∷ []) found found-discover
