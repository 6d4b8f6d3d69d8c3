-- ===== src/Shard/Discover/Laws.antt =====
-- `ShardSet::discover`: whole files, in the order of their names.
use mathlib.Core.List.{Permᴰ}
use mathlib.Core.List.Permᴰ
use forge_dsio.Prelude.{
  ℕ, ◌==◌, ◌≡◌, ◌≢◌, refl, sym, ap, ◌∙◌, subst, inl, inr, Bool-cases, Option-cases, if◌then◌else◌,
  ◌&&◌, not, true, false, Option, List, [], ◌∷◌, ◌++◌, append_assoc, append-nil, ok, err,
  Outcome-cases, ==_iff, arith,
}
use forge_dsio.Error.{Text, discover_stat, discover_read, discover_directory}
use forge_dsio.Shard.{Shard, ShardSet, add}
use forge_dsio.Shard.Paths.{filename}
use forge_dsio.Shard.Discover.{
  Entry, Directory, Listing, is_hidden, list_files, text_lt, by_filename, insert, sort_files,
  add_files, finish, discover,
}

-- The regular files with a name that is not hidden.
abbrev pub wanted : List Entry → List Text
wanted [] = []
wanted (e ∷ rest) =
    if not (is_hidden (filename e.path)) && e.is_regular then e.path ∷ wanted rest else wanted rest

list_files-wanted :
    (error : Option ℕ) (entries : List Entry) → (list_files error entries).files ≡ wanted entries
unfolding list_files
list_files-wanted error [] = refl
list_files-wanted error (e ∷ rest) = elim (Bool-cases (is_hidden (filename e.path))) [
  | inl hidden ↦ rw hidden (list_files-wanted error rest)
  | inr shown ↦ rw shown (rw (list_files-wanted e.error rest) refl)
]

text_lt_asym : (s t : Text) → text_lt s t ≡ true → text_lt t s ≡ false
unfolding text_lt
text_lt_asym s [] e = cc
text_lt_asym [] (d ∷ t) e = refl
text_lt_asym (c ∷ s) (d ∷ t) e = ground (arith, text_lt_asym s t)

-- No file stands behind one with a greater name.
abbrev pub Sorted : List Text → Type 0
Sorted [] = Unit {0}
Sorted (a ∷ []) = Unit {0}
Sorted (a ∷ b ∷ rest) = (by_filename b a ≡ false) × Sorted (b ∷ rest)

insert-before :
    (a b : Text) (rest : List Text)
    → by_filename b a ≡ true
    → insert a (b ∷ rest) ≡ b ∷ insert a rest
unfolding insert
insert-before a b rest e = rw e refl

insert-front :
    (a b : Text) (rest : List Text) → by_filename b a ≡ false → insert a (b ∷ rest) ≡ a ∷ b ∷ rest
unfolding insert
insert-front a b rest e = rw e refl

insert-behind :
    (a b : Text) (rest : List Text)
    → by_filename b a ≡ true
    → Sorted (b ∷ rest)
    → Sorted (insert a rest)
    → Sorted (b ∷ insert a rest)
unfolding insert
insert-behind a b [] before h s = (text_lt_asym (filename b) (filename a) before, tt)
insert-behind a b (c ∷ rest) before h s = elim (Bool-cases (by_filename c a)) [
  | inl e ↦
      subst (λ l. Sorted (b ∷ l)) (sym (insert-before a c rest e))
        (h.0, subst Sorted (insert-before a c rest e) s)
  | inr e ↦
      subst (λ l. Sorted (b ∷ l)) (sym (insert-front a c rest e))
        (text_lt_asym (filename b) (filename a) before, subst Sorted (insert-front a c rest e) s)
]

Sorted-tail : (b : Text) (rest : List Text) → Sorted (b ∷ rest) → Sorted rest
Sorted-tail b [] h = tt
Sorted-tail b (c ∷ rest) h = h.1

insert-Sorted : (a : Text) (files : List Text) → Sorted files → Sorted (insert a files)
unfolding insert
insert-Sorted a [] h = tt
insert-Sorted a (b ∷ rest) h = elim (Bool-cases (by_filename b a)) [
  | inl before ↦
      subst Sorted (sym (insert-before a b rest before))
        (insert-behind a b rest before h (insert-Sorted a rest (Sorted-tail b rest h)))
  | inr not_before ↦ subst Sorted (sym (insert-front a b rest not_before)) (not_before, h)
]

insert-Permᴰ : (a : Text) (files : List Text) → Permᴰ (a ∷ files) (insert a files)
unfolding insert
insert-Permᴰ a [] = Permᴰ.cons refl Permᴰ.nil
insert-Permᴰ a (b ∷ rest) = elim (Bool-cases (by_filename b a)) [
  | inl before ↦
      rw before (Permᴰ.trans (Permᴰ.swap refl refl) (Permᴰ.cons refl (insert-Permᴰ a rest)))
  | inr not_before ↦ rw not_before (Permᴰ.refl (a ∷ b ∷ rest))
]

sort_files-Sorted : (files : List Text) → Sorted (sort_files files)
unfolding sort_files
sort_files-Sorted [] = tt
sort_files-Sorted (a ∷ rest) = insert-Sorted a (sort_files rest) (sort_files-Sorted rest)

sort_files-Permᴰ : (files : List Text) → Permᴰ files (sort_files files)
unfolding sort_files
sort_files-Permᴰ [] = Permᴰ.nil
sort_files-Permᴰ (a ∷ rest) =
    Permᴰ.trans (Permᴰ.cons refl (sort_files-Permᴰ rest)) (insert-Permᴰ a (sort_files rest))

module _ (directory : Directory) where
  -- One shard for each file that is not empty, in their order: the whole file.
  pub data Covers : List Text → ShardSet → Type 0 where
    none_left : Covers [] []
    empty :
        {file : Text} {rest : List Text} {set : ShardSet}
        → directory.file_size file ≡ ok 0
        → Covers rest set
        → Covers (file ∷ rest) set
    whole :
        {file : Text} {size : ℕ} {rest : List Text} {set : ShardSet}
        → directory.file_size file ≡ ok size
        → size ≢ 0
        → Covers rest set
        → Covers
            (file ∷ rest)
            (record { path = directory.absolute file; offset = 0; length = size } ∷ set)

  add_files-empty :
      (acc : ShardSet) (file : Text) (rest : List Text)
      → directory.file_size file ≡ ok 0
      → add_files directory acc (file ∷ rest) ≡ add_files directory acc rest
  unfolding add_files
  add_files-empty acc file rest e = rw (e, add_files) refl

  add_files-whole :
      (acc : ShardSet) (file : Text) (rest : List Text) (size : ℕ)
      → directory.file_size file ≡ ok size
      → (size == 0) ≡ false
      → add_files directory acc (file ∷ rest)
        ≡ add_files directory
            (add (record { path = directory.absolute file; offset = 0; length = size }) acc)
            rest
  unfolding add_files
  add_files-whole acc file rest size e full = rw (add_files, e, full) refl

  add_files-failed :
      (acc : ShardSet) (file : Text) (rest : List Text) (code : ℕ)
      → directory.file_size file ≡ err code
      → add_files directory acc (file ∷ rest) ≡ err (discover_stat file code)
  unfolding add_files
  add_files-failed acc file rest code e = rw (e, add_files) refl

  add_files-Covers :
      (acc : ShardSet) (files : List Text) (found : ShardSet)
      → add_files directory acc files ≡ ok found
      → (set : ShardSet) × (found ≡ acc ++ set) × Covers files set
  unfolding add_files add
  add_files-Covers acc [] found e =
      let same : found ≡ acc = cc in ([], same ∙ sym (append-nil acc), none_left)
  add_files-Covers acc (file ∷ rest) found e = elim (Outcome-cases (directory.file_size file)) [
    | inr (code, fails) ↦ absurd (cc (add_files-failed acc file rest code fails, e))
    | inl (size, sized) ↦ elim (Bool-cases (size == 0)) [
      | inl none_there ↦
          let zero_size : directory.file_size file ≡ ok 0 =
            sized ∙ ap ok ((==_iff size 0).0 none_there) in
          let (set, eq, covers) =
            add_files-Covers acc rest found (sym (add_files-empty acc file rest zero_size) ∙ e) in
          (set, eq, empty zero_size covers)
      | inr there ↦
          let shard : Shard = record {
            path = directory.absolute file;
            offset = 0;
            length = size;
          } in
          let (set, eq, covers) =
            add_files-Covers (add shard acc) rest found
              (sym (add_files-whole acc file rest size sized there) ∙ e) in
          (shard ∷ set, eq ∙ append_assoc acc (shard ∷ []) set, whole sized (ground arith) covers)
    ]
  ]

  finish-Covers :
      (name : Text) (listing : Listing) (found : ShardSet)
      → listing.files ≡ wanted directory.listed
      → finish directory name listing ≡ ok found
      → (files : List Text) × Permᴰ (wanted directory.listed) files
        × Sorted files
        × Covers files found
  finish-Covers name listing found all e = elim (Option-cases listing.error) [
    | inr (code, fails) ↦
        let q : finish directory name listing ≡ err (discover_read name code) = rw fails refl in cc
    | inl works ↦
        let q : finish directory name listing ≡ add_files directory [] (sort_files listing.files) =
          rw works refl in
        let (set, eq, covers) = add_files-Covers [] (sort_files listing.files) found (sym q ∙ e) in
        (
          sort_files listing.files,
          subst (λ l. Permᴰ l (sort_files listing.files)) all (sort_files-Permᴰ listing.files),
          sort_files-Sorted listing.files,
          subst (Covers (sort_files listing.files)) (sym eq) covers,
        )
  ]

  discover-finish :
      (name : Text)
      → directory.is_directory ≡ true
      → discover directory name
        ≡ finish directory name (list_files directory.opening directory.listed)
  unfolding discover
  discover-finish name is_one = rw is_one refl

  -- The set that `discover` returns covers the regular files of the directory that are not hidden,
  -- each once, in the order of their names: one shard for each that is not empty, the whole file.
  pub discover-Covers :
      (name : Text) (found : ShardSet)
      → discover directory name ≡ ok found
      → (files : List Text) × Permᴰ (wanted directory.listed) files
        × Sorted files
        × Covers files found
  unfolding discover
  discover-Covers name found e = elim (Bool-cases directory.is_directory) [
    | inr no_directory ↦
        let q : discover directory name ≡ err (discover_directory name) =
          rw (discover, no_directory) refl in
        cc
    | inl is_one ↦
        finish-Covers name (list_files directory.opening directory.listed) found
          (list_files-wanted directory.opening directory.listed)
          (sym (discover-finish name is_one) ∙ e)
  ]
