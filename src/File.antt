-- ===== src/File.antt =====
-- include/dsio/file.hpp and src/file.cpp: a descriptor with the alignment of its file.
pub mod Reading
pub mod Writing
pub mod Ownership
mod Examples
use mathlib.Core.Option
use forge_dsio.Prelude.{
  ℕ, zero, suc, ◌+◌, ◌==◌, ltb, if◌then◌else◌, Bool, true, false, Option, none, some, List, [],
  ◌++◌, length, take, drop, Outcome, ok, err, ◌>>=◌,
}
use forge_dsio.Prelude.Words.{add_u64}
use forge_dsio.Error.{Text, Error, FileOp, file_open, file_closed, file_error}
use forge_dsio.Os.{Os, Sys, done, failed, Flags, eio}
use forge_dsio.Os.Retry.{retry}
use forge_dsio.Align.BlockSize.{block_size}

pub data OpenMode : Type 0 where
  read_only direct_read write_create direct_write : OpenMode

-- The fields `fd_` (-1 is `none`), `path_` and `alignment_`.
pub record File : Type 0 where
  pub fd : Option ℕ
  pub path : Text
  pub alignment : ℕ

-- `File{}`; also what a move leaves behind, whose string the library leaves empty.
abbrev pub closed_file : File
closed_file = record { fd = none; path = []; alignment = 0 }

unfoldable pub open_flags : OpenMode → Flags
open_flags mode = record {
  rdwr = write mode;
  creat = write mode;
  trunc = write mode;
  direct = direct mode;
  cloexec = true;
}
  where
    direct : OpenMode → Bool
    direct direct_read = true
    direct direct_write = true
    direct _ = false

    write : OpenMode → Bool
    write write_create = true
    write direct_write = true
    write _ = false

abbrev pub Bytes : Type 0
Bytes = List ℕ

module _ {W : Type 0} (os : Os W) where
  -- `::open` with mode 0644, then the block size; the descriptor is closed if that fails.
  unfoldable pub open_file : Text → OpenMode → W → Outcome Error File × W
  open_file path mode w =
      let (opened, w1) = os.sys_open path (open_flags mode) 0o644 w in
      elim opened [
        | failed code ↦ (err (file_open path code), w1)
        | done fd ↦
            let (block, w2) = block_size os path w1 in
            elim block [
              | err e ↦ (err e, os.sys_close fd w2)
              | ok alignment ↦
                  (ok (record { fd = some fd; path = path; alignment = alignment }), w2)
            ]
      ]

  unfoldable pub close : File → W → File × W
  close f w = elim f.fd [ none ↦ (f, w) | some fd ↦ (record f { fd = none }, os.sys_close fd w) ]

  -- The move constructor: the new file, and what `other` becomes.
  unfoldable pub move_construct : File → File × File
  move_construct other = (other, closed_file)

  -- Move assignment: `this`, `other` and the system afterwards; `same` is `this == &other`.
  unfoldable pub move_assign : Bool → File → File → W → File × File × W
  move_assign same this other w =
      let (closed, w') = close this w in if same then (this, other, w) else (other, closed_file, w')

  unfoldable pub size : File → W → Outcome Error ℕ × W
  size f w = elim f.fd [
    | none ↦ (err (file_closed FileOp.size), w)
    | some fd ↦
        let (stat, w') = os.sys_fstat fd w in
        elim stat [
          | failed code ↦ (err (file_error FileOp.size f.path code), w')
          | done bytes ↦ (ok bytes, w')
        ]
  ]

  -- The result of a read, the buffer after it and the system after it.
  abbrev pub Transfer : Type 0
  Transfer = Outcome Error ℕ × Bytes × W

  unfoldable pub pread_result : File → Bytes → Sys Bytes × W → Transfer
  pread_result f dst (failed code, w) = (err (file_error FileOp.pread f.path code), dst, w)
  pread_result f dst (done bytes, w) = (ok (length bytes), bytes ++ drop (length bytes) dst, w)

  -- `rounds` bounds the retries after signals; so it does below.
  unfoldable pub pread : ℕ → File → ℕ → Bytes → W → Option Transfer
  pread rounds f offset dst w = elim f.fd [
    | none ↦ some (err (file_closed FileOp.pread), dst, w)
    | some fd ↦
        Option.map (pread_result f dst) (retry rounds (os.sys_pread fd offset (length dst)) w)
  ]

  -- One round of the loop, after its `pread` into the rest of the buffer.
  unfoldable pub read_more :
      (ℕ → Bytes → W → Option Transfer) → Bytes → ℕ → Transfer → Option Transfer
  read_more next dst total (err e, rest, w) = some (err e, take total dst ++ rest, w)
  read_more next dst total (ok got, rest, w) =
      if got == 0
      then some (ok total, take total dst ++ rest, w)
      else next (total + got) (take total dst ++ rest) w

  -- `while (total < dst.size())` with its rounds bounded by the second argument; `total` counts bytes
  -- of the buffer, so it does not wrap.
  unfoldable pub pread_exact_from : ℕ → ℕ → File → ℕ → ℕ → Bytes → W → Option Transfer
  pread_exact_from rounds zero f offset total dst w = none
  pread_exact_from rounds (suc turns) f offset total dst w =
      let read =
        (pread rounds f (add_u64 offset total) (drop total dst) w
          >>= read_more (λ t d v. pread_exact_from rounds turns f offset t d v) dst total) in
      if ltb total (length dst) then read else some (ok total, dst, w)

  -- Each round reads a byte or ends the loop, so one round more than the buffer holds is enough.
  unfoldable pub pread_exact : ℕ → File → ℕ → Bytes → W → Option Transfer
  unfolding pread_exact_from
  pread_exact rounds f offset dst w = pread_exact_from rounds (suc (length dst)) f offset 0 dst w
