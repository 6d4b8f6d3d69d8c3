-- ===== src/Align/BlockSize.antt =====
-- `dsio::block_size` of src/align.cpp.
use forge_dsio.Prelude.{ℕ, ◌^◌, ◌&&◌, ltb, if◌then◌else◌, Bool, true, false, Outcome, ok, err}
use forge_dsio.Error.{Text, Error, block_size_open, block_size_statfs}
use forge_dsio.Os.{Os, Sys, done, failed, Flags}

-- `O_RDONLY | O_CLOEXEC`; no mode is passed.
abbrev pub read_only_flags : Flags
read_only_flags = record {
  rdwr = false;
  creat = false;
  trunc = false;
  direct = false;
  cloexec = true;
}

-- `logical > 0`, for the 32-bit pattern of an `int`.
unfoldable pub is_positive_int : ℕ → Bool
is_positive_int pattern = ltb 0 pattern && ltb pattern (2 ^ 31)

module _ {W : Type 0} (os : Os W) where
  -- Not a block device: the block size of the file system.
  unfoldable pub statfs_block : Text → W → Outcome Error ℕ × W
  statfs_block path w =
      let (info, w') = os.sys_statfs path w in
      elim info [
        | failed code ↦ (err (block_size_statfs path code), w')
        | done bsize ↦ (ok bsize, w')
      ]

  unfoldable pub from_device : Sys ℕ → Bool
  from_device (failed code) = false
  from_device (done logical) = is_positive_int logical

  -- `logical` is 0 where the call failed.
  unfoldable pub logical_size : Sys ℕ → ℕ
  logical_size (failed code) = 0
  logical_size (done logical) = logical

  unfoldable pub block_size : Text → W → Outcome Error ℕ × W
  block_size path w =
      let (opened, w1) = os.sys_open path read_only_flags 0 w in
      elim opened [
        | failed code ↦ (err (block_size_open path code), w1)
        | done fd ↦
            let (asked, w2) = os.sys_blksszget fd w1 in
            let w3 = os.sys_close fd w2 in
            if from_device asked then (ok (logical_size asked), w3) else statfs_block path w3
      ]
