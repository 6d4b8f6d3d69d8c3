-- ===== src/File/Ownership.antt =====
-- Who holds the descriptor: `File::open`, `close`, move assignment and the destructor.
use forge_dsio.Prelude.{
  ℕ, ◌≡◌, refl, if◌then◌else◌, Bool, true, false, none, some, List, [], ◌∷◌, ◌++◌, inl, inr,
  Option-cases, Outcome, ok, err, arith,
}
use forge_dsio.Error.{Text, Error}
use forge_dsio.Os.{Os, Sys, Sys-cases}
use forge_dsio.Os.Contract.{CountsFds}
use forge_dsio.Align.BlockSize.{block_size, statfs_block}
use forge_dsio.File.{File, OpenMode, open_file, open_flags, close, move_assign, closed_file}

-- The descriptors that a file, or the result of an `open`, has to close.
abbrev pub held_by : File → List ℕ
held_by f = elim f.fd [ none ↦ [] | some fd ↦ fd ∷ [] ]

abbrev pub held : Outcome Error File → List ℕ
held (err e) = []
held (ok f) = held_by f

-- The descriptors of two files, which are one object where `same` is true, and the others.
abbrev pub owned : Bool → File → File → List ℕ → List ℕ
owned true this other rest = held_by this ++ rest
owned false this other rest = held_by this ++ (held_by other ++ rest)

module _ {W : Type 0} (os : Os W) (fds : W → List ℕ) (c : CountsFds os fds) where
  -- Whatever its result, `block_size` leaves the descriptors open that were open before: it closes
  -- the one that it opens.
  pub fds-block_size : (path : Text) (w : W) → fds (block_size os path w).1 ≡ fds w
  unfolding block_size statfs_block
  fds-block_size path w = grind (arith, c.opens, c.opens_not, c.closes, c.asks, c.stats)

  -- After `File::open` the open descriptors are those from before, and the one of the file that it
  -- returns, if it returns one: no failure leaks a descriptor.
  pub fds-open_file :
      (path : Text) (mode : OpenMode) (w : W)
      → fds (open_file os path mode w).1 ≡ held (open_file os path mode w).0 ++ fds w
  unfolding open_file
  fds-open_file path mode w = elim (Sys-cases opened.0) [
    | inr (code, e) ↦ ground (arith, c.opens_not path (open_flags mode) 0o644 w code e)
    | inl (fd, e) ↦ ground (
      arith,
      c.opens path (open_flags mode) 0o644 w fd e,
      fds-block_size path opened.1,
      c.closes fd (block_size os path opened.1).1 (fds w),
    )
  ]
    where
      opened : Sys ℕ × W
      opened = os.sys_open path (open_flags mode) 0o644 w

  pub fds_held :
      (f : File) (w : W) (rest : List ℕ) → fds w ≡ held_by f ++ rest → fds (close os f w).1 ≡ rest
  unfolding close
  fds_held f w rest e = elim (Option-cases f.fd) [
    | inl closed ↦ ground arith
    | inr (fd, held) ↦ ground (arith, c.closes fd w rest)
  ]

  -- `close` gives back the descriptor that the file holds and leaves it closed; on a closed file, a
  -- second `close` for example, it changes nothing.
  fds-close :
      (f : File) (w : W) (rest : List ℕ)
      → fds w ≡ held_by f ++ rest
      → (fds (close os f w).1 ≡ rest)
        × ((close os f w).0.fd ≡ none)
        × (close os (close os f w).0 (close os f w).1 ≡ close os f w)
  unfolding close
  fds-close f w rest e = ground (arith, fds_held f w rest e)

  -- Move assignment closes what `this` held, takes over what `other` held and leaves `other` closed;
  -- assigning a file to itself (then `other` is `this`, and they hold one descriptor) changes neither
  -- the file nor its descriptor. Each open descriptor stays with one file.
  pub fds-move_assign :
      (same : Bool) (this other : File) (w : W) (rest : List ℕ)
      → fds w ≡ owned same this other rest
      → let (this', other', w') = move_assign os same this other w in
        (fds w' ≡ owned same this' other' rest)
        × (this' ≡ (if same then this else other))
        × (other' ≡ (if same then other else closed_file))
  unfolding move_assign
  fds-move_assign true this other w rest e = (e, refl, refl)
  fds-move_assign false this other w rest e =
      (fds_held this w (held_by other ++ rest) e, refl, refl)
