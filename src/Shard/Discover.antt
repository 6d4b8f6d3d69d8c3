-- ===== src/Shard/Discover.antt =====
-- `ShardSet::discover` of src/shard.cpp. The directory is a parameter.
pub mod Laws
use forge_dsio.Prelude.{
  ℕ, ◌==◌, ltb, if◌then◌else◌, Bool, true, false, Option, none, some, List, [], ◌∷◌, Outcome, ok,
  err,
}
use forge_dsio.Error.{Text, Error, discover_directory, discover_read, discover_stat}
use forge_dsio.Shard.{Shard, ShardSet, add}
use forge_dsio.Shard.Paths.{filename}

-- One entry of the directory: its path, and what `is_regular_file(ec)` returns and leaves in `ec`.
pub record Entry : Type 0 where
  pub path : Text
  pub is_regular : Bool
  pub error : Option ℕ

-- `listed` are the entries that the iterator visits, and `opening` is the `ec` of its constructor.
pub record Directory : Type 0 where
  pub is_directory : Bool
  pub opening : Option ℕ
  pub listed : List Entry
  pub file_size : Text → Outcome ℕ ℕ
  pub absolute : Text → Text

-- The local `files` and `ec`.
pub record Listing : Type 0 where
  pub files : List Text
  pub error : Option ℕ

abbrev pub is_hidden : Text → Bool
is_hidden [] = false
is_hidden (c ∷ _) = c == b'.'

abbrev pub keep : Entry → List Text → List Text
keep e files = if e.is_regular then e.path ∷ files else files

-- The loop over the entries, from the `ec` so far: a hidden entry leaves it, any other sets it.
unfoldable pub list_files : Option ℕ → List Entry → Listing
unfolding filename
list_files error [] = record { files = []; error = error }
list_files error (e ∷ rest) =
    let hidden = list_files error rest in
    let seen = list_files e.error rest in
    if is_hidden (filename e.path)
    then hidden
    else record { files = keep e seen.files; error = seen.error }

-- `operator<` of `std::string`.
unfoldable pub text_lt : Text → Text → Bool
text_lt s [] = false
text_lt [] (d ∷ t) = true
text_lt (c ∷ s) (d ∷ t) =
    let rest = text_lt s t in if ltb c d then true else if c == d then rest else false

abbrev pub by_filename : Text → Text → Bool
by_filename a b = text_lt (filename a) (filename b)

-- `std::sort` by the name. (The names in a directory differ, so there is one sorted order.)
unfoldable pub insert : Text → List Text → List Text
insert a [] = a ∷ []
insert a (b ∷ rest) =
    let later = insert a rest in if by_filename b a then b ∷ later else a ∷ b ∷ rest

unfoldable pub sort_files : List Text → List Text
unfolding insert
sort_files [] = []
sort_files (a ∷ rest) = insert a (sort_files rest)

-- The loop over the sorted files, from the shards so far.
module _ (directory : Directory) where
  unfoldable pub add_files : ShardSet → List Text → Outcome Error ShardSet
  add_files set [] = ok set
  add_files set (file ∷ rest) = elim (directory.file_size file) [
    | err e ↦ err (discover_stat file e)
    | ok size ↦ elim (size == 0) [
      | true ↦ add_files set rest
      | false ↦
          add_files (add (record { path = directory.absolute file; offset = 0; length = size }) set)
            rest
    ]
  ]

  abbrev pub finish : Text → Listing → Outcome Error ShardSet
  finish name listing = elim listing.error [
    | some e ↦ err (discover_read name e)
    | none ↦ add_files [] (sort_files listing.files)
  ]

  unfoldable pub discover : Text → Outcome Error ShardSet
  unfolding add_files list_files sort_files
  discover name =
      if directory.is_directory
      then finish name (list_files directory.opening directory.listed)
      else err (discover_directory name)
