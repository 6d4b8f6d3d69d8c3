-- ===== src/Shard/RoundTrip/Comments.antt =====
-- `ShardSet::save` and `ShardSet::load` of paths that start with `#`.
use forge_dsio.Prelude.{
  ℕ, ◌+◌, ◌≡◌, refl, ap, ◌∙◌, ◌⊎◌, inl, inr, true, false, Option, some, [], ◌∷◌, ◌++◌, map,
  append_assoc, append-nil, ok,
}
use forge_dsio.Error.{Text}
use forge_dsio.Shard.{Shard, ShardSet, add}
use forge_dsio.Shard.Text.{tab, newline, hash}
use forge_dsio.Shard.Text.Splitting.{Lacks}
use forge_dsio.Shard.Load.{skipped, read_line, load_lines, load}
use forge_dsio.Shard.Load.Laws.{load_lines-cons}
use forge_dsio.Shard.Save.{written_path, shard_line, save}
use forge_dsio.Shard.RoundTrip.{
  IsSavable, AllPlain, read_line-shard_line, strip_return-shard_line, save-load_lines,
}

module _ (relative : Text → Text → Option Text) (manifest : Text) (alignment : ℕ) where
  -- A line whose path starts with `#` is skipped.
  read_line-comment :
      (number : ℕ) (s : Shard) (rest : Text)
      → written_path relative manifest s.path ≡ hash ∷ rest
      → read_line manifest alignment number (shard_line relative manifest s) ≡ skipped
  unfolding read_line
  read_line-comment number s rest starts =
      rw (strip_return-shard_line relative manifest alignment s, starts) refl

  -- A shard that `save` takes, but whose written path starts with `#`.
  pub record IsComment (s : Shard) : Type 0 where
    pub path_tab : Lacks tab s.path
    pub path_newline : Lacks newline s.path
    pub written_newline : Lacks newline (written_path relative manifest s.path)
    pub is_comment : (rest : Text) × (written_path relative manifest s.path ≡ hash ∷ rest)

  -- Each shard is savable, or its line is a comment.
  abbrev pub AllTaken : ShardSet → Type 0
  AllTaken [] = Unit {0}
  AllTaken (s ∷ set) = (IsSavable relative manifest alignment s ⊎ IsComment s) × AllTaken set

  -- The savable ones.
  abbrev pub savable : (set : ShardSet) → AllTaken set → ShardSet
  savable [] h = []
  savable (s ∷ set) (inl _, h) = s ∷ savable set h
  savable (s ∷ set) (inr _, h) = savable set h

  AllTaken-AllPlain : (set : ShardSet) → AllTaken set → AllPlain relative manifest alignment set
  AllTaken-AllPlain [] h = tt
  AllTaken-AllPlain (s ∷ set) (inl i, h) = (
    record {
      path_tab = i.path_tab;
      path_newline = i.path_newline;
      written_newline = i.written_newline;
    },
    AllTaken-AllPlain set h,
  )
  AllTaken-AllPlain (s ∷ set) (inr i, h) = (
    record {
      path_tab = i.path_tab;
      path_newline = i.path_newline;
      written_newline = i.written_newline;
    },
    AllTaken-AllPlain set h,
  )

  read_savable :
      (number : ℕ) (acc set : ShardSet) (h : AllTaken set)
      → load_lines manifest alignment number acc (map (shard_line relative manifest) set)
        ≡ some (ok (acc ++ savable set h))
  unfolding load_lines add
  read_savable number acc [] h = rw append-nil
  read_savable number acc (s ∷ set) (inl i, h) =
      load_lines-cons manifest alignment number acc (shard_line relative manifest s)
        (map (shard_line relative manifest) set)
      ∙ rw (read_line-shard_line relative manifest alignment (number + 1) s i) (
          read_savable (number + 1) (add s acc) set h
          ∙ ap (λ (l : ShardSet). some (ok l)) (append_assoc acc (s ∷ []) (savable set h)))
  read_savable number acc (s ∷ set) (inr i, h) =
      load_lines-cons manifest alignment number acc (shard_line relative manifest s)
        (map (shard_line relative manifest) set)
      ∙ rw (read_line-comment (number + 1) s i.is_comment.0 i.is_comment.1)
          (read_savable (number + 1) acc set h)

  -- If every shard of a set is savable or has a written path that starts with `#` (and no tab or newline
  -- in its path), `save` on a stream that works reports success for all of them, but `load` of what it
  -- wrote gives only the savable ones: the others are lost, without an error.
  pub load-save_comments :
      (set : ShardSet) (h : AllTaken set)
      → ((save relative manifest true false set).result ≡ ok tt)
        × (load manifest alignment (
              some (record { text = (save relative manifest true false set).written; bad = false }))
            ≡ some (ok (savable set h)))
  load-save_comments set h =
      save-load_lines relative manifest alignment set (savable set h) (AllTaken-AllPlain set h)
        (read_savable 1 [] set h)
