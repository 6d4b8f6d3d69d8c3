-- ===== src/Shard/RoundTrip.antt =====
-- `ShardSet::save` followed by `ShardSet::load`.
pub mod Comments
use mathlib.Core.Option
use forge_dsio.Prelude.{
  ℕ, ◌+◌, ◌<◌, ◌≡◌, refl, ap, ◌∙◌, ◌⊎◌, inl, inr, true, false, Option, none, some, [], ◌∷◌, ◌++◌,
  map, append_assoc, append-nil, ok, arith,
}
use forge_dsio.Prelude.Words.{add_u64}
use forge_dsio.Error.{Text}
use forge_dsio.Shard.{Shard, ShardSet, add}
use forge_dsio.Shard.Text.{tab, newline, hash, is_empty, lines, lines_from, last_line, show, find}
use forge_dsio.Shard.Text.Decimal.{AllDigits, show-AllDigits, show_nonempty, parse_u64-show}
use forge_dsio.Shard.Text.Splitting.{
  Lacks, Lacks-find, find-Lacks, split_line-manifest_line, lines-append,
}
use forge_dsio.Shard.Paths.{parent_path, resolve}
use forge_dsio.Shard.Load.{
  skipped, pushed, strip_return, is_skipped, check_shard, read_numbers, read_fields, read_line,
  load_lines, check_stream, load,
}
use forge_dsio.Shard.Load.Laws.{IsReadable, load_lines-cons}
use forge_dsio.Shard.Save.{header, written_path, shard_line, save_lines, save}

AllDigits-Lacks : (c : ℕ) (s : Text) → c < b'0' → AllDigits s → Lacks c s
AllDigits-Lacks c [] h d = tt
AllDigits-Lacks c (x ∷ s) h d = (λ e. omega (arith, d.0.0, e), AllDigits-Lacks c s h d.1)

Lacks-append : (c : ℕ) (s t : Text) → Lacks c s → Lacks c t → Lacks c (s ++ t)
Lacks-append c [] t hs ht = ht
Lacks-append c (x ∷ s) t hs ht = (hs.0, Lacks-append c s t hs.1 ht)

-- A line that ends in a digit is not shortened.
strip_return-AllDigits : (s : Text) → AllDigits s → strip_return s ≡ s
unfolding strip_return
strip_return-AllDigits [] d = refl
strip_return-AllDigits (c ∷ []) d = ground arith
strip_return-AllDigits (c ∷ x ∷ s) d = ap (◌∷◌ c) (strip_return-AllDigits (x ∷ s) d.1)

after_tab : (x : ℕ) (d : Text) → AllDigits (x ∷ d) → strip_return (tab ∷ x ∷ d) ≡ tab ∷ x ∷ d
unfolding strip_return
after_tab x d h = ap (◌∷◌ tab) (strip_return-AllDigits (x ∷ d) h)

strip_return-append :
    (s : Text) (x : ℕ) (t : Text) → strip_return (s ++ x ∷ t) ≡ s ++ strip_return (x ∷ t)
unfolding strip_return
strip_return-append [] x t = refl
strip_return-append (c ∷ []) x t = refl
strip_return-append (c ∷ y ∷ s) x t = ap (◌∷◌ c) (strip_return-append (y ∷ s) x t)

header-Lacks : Lacks newline header
unfolding find
header-Lacks = Lacks-find newline header refl

module _ (relative : Text → Text → Option Text) (manifest : Text) (alignment : ℕ) where
  -- What `save` wants of a path (no tab, no newline), and what `load` needs to read its line back: the
  -- written path has neither of them, is not empty, does not start with `#` and leads back to the
  -- shard's path from the manifest's directory; and the shard is one that `load` accepts.
  pub record IsSavable (s : Shard) : Type 0 where
    pub path_tab : Lacks tab s.path
    pub path_newline : Lacks newline s.path
    pub written_tab : Lacks tab (written_path relative manifest s.path)
    pub written_newline : Lacks newline (written_path relative manifest s.path)
    pub written_kept : is_skipped (written_path relative manifest s.path) ≡ false
    pub leads_back : resolve (parent_path manifest) (written_path relative manifest s.path) ≡ s.path
    pub readable : IsReadable alignment s

  -- What `save` wants of a path, and that the line is one line.
  record IsPlain (s : Shard) : Type 0 where
    path_tab : Lacks tab s.path
    path_newline : Lacks newline s.path
    written_newline : Lacks newline (written_path relative manifest s.path)

  abbrev AllPlain : ShardSet → Type 0
  AllPlain [] = Unit {0}
  AllPlain (s ∷ set) = IsPlain s × AllPlain set

  abbrev pub AllSavable : ShardSet → Type 0
  AllSavable [] = Unit {0}
  AllSavable (s ∷ set) = IsSavable s × AllSavable set

  is_skipped-append :
      (s t : Text) → is_skipped s ≡ false → (is_skipped (s ++ t) ≡ false) × (is_empty s ≡ false)
  is_skipped-append [] t h = cc
  is_skipped-append (c ∷ s) t h = (h, refl)

  strip_return-shard_line :
      (s : Shard) → strip_return (shard_line relative manifest s) ≡ shard_line relative manifest s
  strip_return-shard_line s =
      digits (written_path relative manifest s.path) (show s.length) (show-AllDigits s.length)
        (show_nonempty s.length)
    where
      digits :
          (w d : Text)
          → AllDigits d
          → is_empty d ≡ false
          → strip_return (w ++ (tab ∷ (show s.offset ++ (tab ∷ d))))
            ≡ w ++ (tab ∷ (show s.offset ++ (tab ∷ d)))
      digits w [] h e = cc
      digits w (x ∷ d) h e =
          strip_return-append w tab (show s.offset ++ (tab ∷ x ∷ d))
          ∙ ap (◌++◌ w) (
              strip_return-append (tab ∷ show s.offset) tab (x ∷ d)
              ∙ ap (λ t. (tab ∷ show s.offset) ++ t) (after_tab x d h))

  check_shard-readable :
      (number : ℕ) (path : Text) (s : Shard)
      → IsReadable alignment s
      → resolve (parent_path manifest) path ≡ s.path
      → check_shard manifest alignment number path s.offset s.length ≡ pushed s
  unfolding check_shard add_u64
  check_shard-readable number path s h back = rw back (ground arith)

  read_line-shard_line :
      (number : ℕ) (s : Shard)
      → IsSavable s
      → read_line manifest alignment number (shard_line relative manifest s) ≡ pushed s
  unfolding read_line read_fields read_numbers
  read_line-shard_line number s h =
      rw
        (
          strip_return-shard_line s,
          (is_skipped-append (written_path relative manifest s.path)
              (tab ∷ show s.offset ++ tab ∷ show s.length) h.written_kept).0,
          split_line-manifest_line (written_path relative manifest s.path) (show s.offset)
              (show s.length) h.written_tab
              (AllDigits-Lacks tab (show s.offset) (omega arith) (show-AllDigits s.offset))
              (AllDigits-Lacks tab (show s.length) (omega arith) (show-AllDigits s.length)),
          (is_skipped-append (written_path relative manifest s.path) [] h.written_kept).1,
          parse_u64-show s.offset (omega (arith, h.readable.3)),
          parse_u64-show s.length (omega (arith, h.readable.3)),
        )
        (check_shard-readable number (written_path relative manifest s.path) s h.readable
          h.leads_back)

  header_skipped : read_line manifest alignment (0 + 1) header ≡ skipped
  unfolding read_line strip_return
  header_skipped = refl

  read_lines :
      (number : ℕ) (acc set : ShardSet)
      → AllSavable set
      → load_lines manifest alignment number acc (map (shard_line relative manifest) set)
        ≡ some (ok (acc ++ set))
  unfolding load_lines add
  read_lines number acc [] h = rw append-nil
  read_lines number acc (s ∷ set) h =
      load_lines-cons manifest alignment number acc (shard_line relative manifest s)
        (map (shard_line relative manifest) set)
      ∙ rw (read_line-shard_line (number + 1) s h.0) (
          read_lines (number + 1) (add s acc) set h.1
          ∙ ap (λ (l : ShardSet). some (ok l)) (append_assoc acc (s ∷ []) set))

  -- What `save` writes below the header.
  abbrev pub body : ShardSet → Text
  body [] = []
  body (s ∷ set) = shard_line relative manifest s ++ newline ∷ body set

  shard_line-Lacks : (s : Shard) → IsPlain s → Lacks newline (shard_line relative manifest s)
  shard_line-Lacks s h =
      Lacks-append newline (written_path relative manifest s.path)
        (tab ∷ show s.offset ++ tab ∷ show s.length) h.written_newline
        (
          omega arith,
          Lacks-append newline (show s.offset) (tab ∷ show s.length)
              (AllDigits-Lacks newline (show s.offset) (omega arith) (show-AllDigits s.offset))
              (
                omega arith,
                AllDigits-Lacks newline (show s.length) (omega arith) (show-AllDigits s.length),
              ),
        )

  lines-body :
      (set : ShardSet)
      → AllPlain set
      → lines false (body set) ≡ map (shard_line relative manifest) set
  unfolding lines lines_from last_line
  lines-body [] h = refl
  lines-body (s ∷ set) h =
      lines-append false (shard_line relative manifest s) (body set) (shard_line-Lacks s h.0)
      ∙ ap (◌∷◌ (shard_line relative manifest s)) (lines-body set h.1)

  save_lines-body :
      (out : Text) (set : ShardSet)
      → AllPlain set
      → save_lines relative manifest out set ≡ record { written = out ++ body set; result = ok tt }
  unfolding save_lines
  save_lines-body out [] h = rw append-nil
  save_lines-body out (s ∷ set) h =
      rw
        (save_lines, find-Lacks tab s.path h.0.path_tab, find-Lacks newline s.path h.0.path_newline)
        (save_lines-body (out ++ shard_line relative manifest s ++ newline ∷ []) set h.1
          ∙ ap (λ (w : Text). record { written = w; result = ok tt })
              (append_assoc (out ++ shard_line relative manifest s) (newline ∷ []) (body set)
                ∙ append_assoc out (shard_line relative manifest s) (newline ∷ body set)))

  -- What `save` writes is read line by line below the header.
  save-load_lines :
      (set kept : ShardSet)
      → AllPlain set
      → load_lines manifest alignment 1 [] (map (shard_line relative manifest) set) ≡ some (ok kept)
      → ((save relative manifest true false set).result ≡ ok tt)
        × (load manifest alignment (
              some (record { text = (save relative manifest true false set).written; bad = false }))
            ≡ some (ok kept))
  unfolding load save check_stream
  save-load_lines set kept h e = rw (save_lines-body (header ++ newline ∷ []) set h) (
    refl,
    ap (Option.map (check_stream manifest alignment false))
        (ap (load_lines manifest alignment 0 []) read ∙ read_rest),
  )
    where
      read :
          lines false ((header ++ newline ∷ []) ++ body set)
          ≡ header ∷ map (shard_line relative manifest) set
      read = lines-append false header (body set) header-Lacks ∙ ap (◌∷◌ header) (lines-body set h)

      read_rest :
          load_lines manifest alignment 0 [] (header ∷ map (shard_line relative manifest) set)
          ≡ some (ok kept)
      read_rest =
          load_lines-cons manifest alignment 0 [] header (map (shard_line relative manifest) set)
          ∙ rw header_skipped e

  AllSavable-AllPlain : (set : ShardSet) → AllSavable set → AllPlain set
  AllSavable-AllPlain [] h = tt
  AllSavable-AllPlain (s ∷ set) h = (
    record {
      path_tab = h.0.path_tab;
      path_newline = h.0.path_newline;
      written_newline = h.0.written_newline;
    },
    AllSavable-AllPlain set h.1,
  )

  -- If every shard of a set is savable, then `save` (on a stream that works) succeeds, and `load` reads
  -- the same set back from what it wrote.
  pub load-save :
      (set : ShardSet)
      → AllSavable set
      → ((save relative manifest true false set).result ≡ ok tt)
        × (load manifest alignment (
              some (record { text = (save relative manifest true false set).written; bad = false }))
            ≡ some (ok set))
  load-save set h = save-load_lines set set (AllSavable-AllPlain set h) (read_lines 1 [] set h)
