-- ===== src/Dataset/Content/Available.antt =====
-- `open_shard` has a result: the block size of a file is not 0, and the shard is in the set.
use forge_dsio.Prelude.{
  ℕ, zero, suc, ◌≤◌, ◌<◌, ◌==◌, ◌≡◌, ◌≢◌, inl, inr, refl, none, some, Bool-cases, List, [], ◌∷◌,
  length, get_elem?, Outcome, ok, err, arith,
}
use forge_dsio.Error.{Error, Text}
use forge_dsio.Os.{Os, Sys, Sys-cases}
use forge_dsio.Align.BlockSize.{
  block_size, statfs_block, read_only_flags, from_device, is_positive_int, logical_size,
}
use forge_dsio.File.{File, OpenMode, direct_read, open_file, open_flags}
use forge_dsio.Reader.{Alloc}
use forge_dsio.Shard.{Shard}
use forge_dsio.Dataset.{ShardStream}
use forge_dsio.Backend.{BackendOps}
use forge_dsio.Dataset.Content.{Serves, Names}
use forge_dsio.Dataset.Stream.{Opener, open_file_of, open_shard}

pub get_of_lt :
    {A : Type 0} (xs : List A) (k : ℕ) → k < length xs → (a : A) × (get_elem? xs k ≡ some a)
get_of_lt [] k h = absurd (omega (arith, h))
get_of_lt (x ∷ xs) zero h = (x, refl)
get_of_lt (x ∷ xs) (suc k) h = get_of_lt xs k (omega (arith, h))

module _ {B W : Type 0} (os : Os W) (alloc : Alloc) (opener : Opener B W) {ops : BackendOps B W}
    (serves : Serves ops) (names : Names os opener serves) where
  open names use {most}

  abbrev IsPositive : Outcome Error ℕ × W → Type 0
  IsPositive (err e, w) = Unit
  IsPositive (ok n, w) = (0 < n) × (n ≤ most)

  statfs_block-IsPositive : (path : Text) (w : W) → IsPositive (statfs_block os path w)
  unfolding statfs_block
  statfs_block-IsPositive path w = elim (Sys-cases (os.sys_statfs path w).0) [
    | inl (n, q) ↦ rw (statfs_block, q) (names.statfs_le path n w q)
    | inr (code, q) ↦ rw (statfs_block, q) tt
  ]

  block_size-IsPositive : (path : Text) (w : W) → IsPositive (block_size os path w)
  unfolding block_size from_device is_positive_int logical_size
  block_size-IsPositive path w = elim (Sys-cases opened.0) [
    | inr (code, q) ↦ rw (block_size, q) tt
    | inl (fd, q) ↦
        let fallback =
          statfs_block-IsPositive path (os.sys_close fd (os.sys_blksszget fd opened.1).1) in
        elim (Sys-cases (os.sys_blksszget fd opened.1).0) [
          | inl (n, asked) ↦ ground (arith, q, asked, names.device_le fd n opened.1 asked, fallback)
          | inr (code, asked) ↦ ground (arith, q, asked, fallback)
        ]
  ]
    where
      opened : Sys ℕ × W
      opened = os.sys_open path read_only_flags 0 w

  abbrev pub IsAligned : Outcome Error File × W → Type 0
  IsAligned (err e, w) = Unit
  IsAligned (ok f, w) = (0 < f.alignment) × (f.alignment ≤ most)

  pub open_file-IsAligned :
      (path : Text) (mode : OpenMode) (w : W) → IsAligned (open_file os path mode w)
  unfolding open_file
  open_file-IsAligned path mode w = elim (Sys-cases opened.0) [
    | inr (code, q) ↦ rw (open_file, q) tt
    | inl (fd, q) ↦ ground (arith, q, block_size-IsPositive path opened.1)
  ]
    where
      opened : Sys ℕ × W
      opened = os.sys_open path (open_flags mode) 0o644 w

  open_file_of-returns :
      (shard : Shard) (s : ShardStream B) (r : Outcome Error File × W)
      → IsAligned r
      → open_file_of os alloc opener shard s r ≢ none
  open_file_of-returns shard s (err e, w) h = λ q. absurd (ground (arith, q))
  open_file_of-returns shard s (ok f, w) h = elim (Bool-cases (f.alignment == 0)) [
    | inl z ↦ absurd (ground (arith, z, h))
    | inr nz ↦ rw nz (λ q. absurd (ground (arith, q)))
  ]

  pub open_shard-Returns :
      (s : ShardStream B) (w : W) (i : ℕ)
      → get_elem? s.order s.next ≡ some i
      → i < length s.shards
      → open_shard os alloc opener s w ≢ none
  unfolding open_shard
  open_shard-Returns s w i e l =
      let (shard, f) = get_of_lt s.shards i l in
      rw (open_shard, e, f)
        (open_file_of-returns shard s (open_file os shard.path direct_read w)
          (open_file-IsAligned shard.path direct_read w))
