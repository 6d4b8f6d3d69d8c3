-- ===== src/Os/Contract.antt =====
-- What the code relies on of the system calls, as named hypotheses. `pending` counts the signals that
-- are yet to interrupt a call.
use native.Mathlib.Nat.{add-zero}
use forge_dsio.Prelude.{
  ℕ, ◌+◌, ◌≤◌, ◌<◌, ◌≡◌, ap, ◌∙◌, List, [], ◌∷◌, ◌++◌, length, take, drop, ◌==◌, if◌then◌else◌,
  arith,
}
use forge_dsio.Error.{Text}
use forge_dsio.Os.{Os, done, failed, Flags}
use forge_dsio.Os.Retry.{Interrupts}

-- pread(2) on a regular file whose bytes are `content`: a read returns bytes of the file from the
-- offset on, at most `count`, and none only at the end of the file.
pub record ReadsFile {W : Type 0} (os : Os W) (fd : ℕ) (content : List ℕ) (pending : W → ℕ)
    : Type 0 where
  pub signals : (offset count : ℕ) → Interrupts pending (os.sys_pread fd offset count)
  pub reads :
      (offset count : ℕ) (w : W) (bytes : List ℕ)
      → (os.sys_pread fd offset count w).0 ≡ done bytes
      → (bytes ≡ take (length bytes) (drop offset content)) × (length bytes ≤ count)
  pub ends :
      (offset count : ℕ) (w : W)
      → 0 < count
      → (os.sys_pread fd offset count w).0 ≡ done []
      → length content ≤ offset

-- A file as a function from positions to bytes, with some bytes written over from a position on.
unfoldable pub patch : (ℕ → ℕ) → ℕ → List ℕ → ℕ → ℕ
patch file at [] = file
patch file at (b ∷ bs) = patch (λ p. if p == at then b else file p) (at + 1) bs

pub patch-append :
    (file : ℕ → ℕ) (at : ℕ) (xs ys : List ℕ)
    → patch (patch file at xs) (at + length xs) ys ≡ patch file at (xs ++ ys)
unfolding patch
patch-append file at [] ys = rw add-zero
patch-append file at (x ∷ xs) ys =
    ap (λ k. patch (patch (λ p. if p == at then x else file p) (at + 1) xs) k ys) (omega arith)
    ∙ patch-append (λ p. if p == at then x else file p) (at + 1) xs ys

-- pwrite(2) on a regular file, where `content w` are its bytes in the state `w`: a write that takes
-- `n` bytes puts the first `n` of `src` at the offset, and one that fails changes nothing.
pub record WritesFile {W : Type 0} (os : Os W) (fd : ℕ) (content : W → ℕ → ℕ) (pending : W → ℕ)
    : Type 0 where
  pub signals : (offset : ℕ) (src : List ℕ) → Interrupts pending (os.sys_pwrite fd offset src)
  pub writes :
      (offset : ℕ) (src : List ℕ) (w : W) (n : ℕ)
      → (os.sys_pwrite fd offset src w).0 ≡ done n
      → (n ≤ length src)
        × (content (os.sys_pwrite fd offset src w).1 ≡ patch (content w) offset (take n src))
  pub writes_not :
      (offset : ℕ) (src : List ℕ) (w : W) (code : ℕ)
      → (os.sys_pwrite fd offset src w).0 ≡ failed code
      → content (os.sys_pwrite fd offset src w).1 ≡ content w

-- The descriptors that are open: open(2) adds one, close(2) removes one, the others leave them.
pub record CountsFds {W : Type 0} (os : Os W) (fds : W → List ℕ) : Type 0 where
  pub opens :
      (path : Text) (flags : Flags) (mode : ℕ) (w : W) (fd : ℕ)
      → (os.sys_open path flags mode w).0 ≡ done fd
      → fds (os.sys_open path flags mode w).1 ≡ fd ∷ fds w
  pub opens_not :
      (path : Text) (flags : Flags) (mode : ℕ) (w : W) (code : ℕ)
      → (os.sys_open path flags mode w).0 ≡ failed code
      → fds (os.sys_open path flags mode w).1 ≡ fds w
  pub closes : (fd : ℕ) (w : W) (rest : List ℕ) → fds w ≡ fd ∷ rest → fds (os.sys_close fd w) ≡ rest
  pub asks : (fd : ℕ) (w : W) → fds (os.sys_blksszget fd w).1 ≡ fds w
  pub stats : (path : Text) (w : W) → fds (os.sys_statfs path w).1 ≡ fds w
  pub sizes : (fd : ℕ) (w : W) → fds (os.sys_fstat fd w).1 ≡ fds w

-- fstat(2) reports one size for every descriptor: there is one file, and it does not change.
abbrev pub HasSize : {W : Type 0} → Os W → ℕ → Type 0
HasSize {W = W} os bytes = (fd : ℕ) (w : W) (n : ℕ) → (os.sys_fstat fd w).0 ≡ done n → n ≡ bytes
