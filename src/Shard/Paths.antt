-- ===== src/Shard/Paths.antt =====
-- The parts of `std::filesystem::path` that src/shard.cpp uses, for POSIX paths.
use forge_dsio.Prelude.{
  ℕ, ◌==◌, ◌&&◌, not, if◌then◌else◌, Bool, true, false, [], ◌∷◌, ◌++◌, length, drop,
}
use forge_dsio.Error.{Text}
use forge_dsio.Shard.Text.{is_empty}

abbrev pub slash : ℕ
slash = b'/'

abbrev pub has_slash : Text → Bool
has_slash [] = false
has_slash (c ∷ s) = if c == slash then true else has_slash s

-- The path up to its last slash, which is included.
unfoldable pub up_to_slash : Text → Text
up_to_slash [] = []
up_to_slash (c ∷ s) = let before = up_to_slash s in if has_slash (c ∷ s) then c ∷ before else []

abbrev pub only_slashes : Text → Bool
only_slashes [] = true
only_slashes (c ∷ s) = (c == slash) && only_slashes s

-- Without the slashes at the end.
unfoldable pub strip_slashes : Text → Text
strip_slashes [] = []
strip_slashes (c ∷ s) =
    let before = strip_slashes s in if only_slashes (c ∷ s) then [] else c ∷ before

-- A root has no relative path and is its own parent; a directory below it keeps no slash at its end.
unfoldable pub parent_path : Text → Text
unfolding up_to_slash strip_slashes
parent_path p =
    let before = up_to_slash p in
    let stripped = strip_slashes before in
    if only_slashes p
    then p
    else if is_empty before
    then []
    else if is_empty stripped
    then slash ∷ []
    else stripped

unfoldable pub filename : Text → Text
unfolding up_to_slash
filename p = drop (length (up_to_slash p)) p

abbrev pub is_relative : Text → Bool
is_relative [] = true
is_relative (c ∷ _) = not (c == slash)

abbrev pub ends_in_slash : Text → Bool
ends_in_slash [] = false
ends_in_slash (c ∷ []) = c == slash
ends_in_slash (_ ∷ d ∷ s) = ends_in_slash (d ∷ s)

-- `a / b` for a relative `b`, and a directory that is not empty.
unfoldable pub join : Text → Text → Text
join a b = if ends_in_slash a then a ++ b else a ++ slash ∷ b

-- `resolved` of `ShardSet::load`.
unfoldable pub resolve : Text → Text → Text
unfolding join
resolve directory path =
    if is_relative path && not (is_empty directory) then join directory path else path
