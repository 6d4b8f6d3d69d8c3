-- ===== src/Mmap.antt =====
-- include/dsio/mmap.hpp and src/mmap.cpp: a read-only mapping of a window of a file.
pub mod Laws
pub mod Advising
mod Examples
use forge_dsio.Prelude.{
  ℕ, ◌+◌, ◌-◌, ◌%◌, ◌==◌, ◌!=◌, ◌||◌, ltb, if◌then◌else◌, Bool, true, false, Option, none, some,
  Outcome, ok, err,
}
use forge_dsio.Error.{
  Text, Error, MmapOp, mmap_unaligned, mmap_error, mmap_past_end, mmap_window, advise_past_end,
  advise_unaligned, advise_error,
}
use forge_dsio.Os.{Os, Sys, done, failed, Flags}

pub data Advice : Type 0 where
  normal sequential random will_need dont_need : Advice

-- The `MADV_` constants of Linux.
unfoldable pub to_madvise : Advice → ℕ
to_madvise normal = 0
to_madvise random = 1
to_madvise sequential = 2
to_madvise will_need = 3
to_madvise dont_need = 4

-- Of what `sysconf(_SC_PAGESIZE)` returns.
unfoldable pub page_size : ℕ → ℕ
page_size reported = if reported == 0 then 4096 else reported

-- The calls for mappings, beside those of `Os`. An address is a number, and not 0. `mmap` takes the
-- descriptor, the length and the offset: the protection and the flags are always the same.
pub record Maps (W : Type 0) : Type 0 where
  pub sys_mmap : ℕ → ℕ → ℕ → W → Sys ℕ × W
  pub sys_munmap : ℕ → ℕ → W → W
  pub sys_madvise : ℕ → ℕ → ℕ → W → Sys (Unit {0}) × W

-- The fields `map_`, `map_length_`, `data_` (here `start`) and `size_`: a null pointer is `none`.
pub record MmapFile : Type 0 where
  pub map : Option ℕ
  pub map_length : ℕ
  pub start : Option ℕ
  pub size : ℕ

abbrev pub unmapped : MmapFile
unmapped = record { map = none; map_length = 0; start = none; size = 0 }

abbrev pub is_empty : MmapFile → Bool
is_empty f = f.size == 0

abbrev pub mmap_flags : Flags
mmap_flags = record { rdwr = false; creat = false; trunc = false; direct = false; cloexec = true }

module _ {W : Type 0} (maps : Maps W) where
  -- `unmap`, which the destructor calls too.
  unfoldable pub unmap : MmapFile → W → MmapFile × W
  unmap f w = elim f.map [
    | none ↦ (unmapped, w)
    | some address ↦ (unmapped, maps.sys_munmap address f.map_length w)
  ]

  -- The move constructor: the new mapping, and what `other` becomes.
  unfoldable pub move_construct : MmapFile → MmapFile × MmapFile
  move_construct other = (other, unmapped)

  -- Move assignment: `this`, `other` and the system afterwards; `same` is `this == &other`.
  unfoldable pub move_assign : Bool → MmapFile → MmapFile → W → MmapFile × MmapFile × W
  move_assign same this other w =
      let (released, w') = unmap this w in if same then (this, other, w) else (other, unmapped, w')

  abbrev pub advised : Sys (Unit {0}) × W → Outcome Error (Unit {0}) × W
  advised (done _, w) = (ok tt, w)
  advised (failed code, w) = (err (advise_error code), w)

  abbrev pub address_of : MmapFile → ℕ
  address_of f = elim f.start [ none ↦ 0 | some address ↦ address ]

  -- The length that is passed on: 0, or more than there is, means up to the end.
  abbrev pub clamp_length : MmapFile → ℕ → ℕ → ℕ
  clamp_length f offset length =
      if (length == 0) || ltb (f.size - offset) length then f.size - offset else length

  unfoldable pub advise : ℕ → MmapFile → Advice → ℕ → ℕ → W → Outcome Error (Unit {0}) × W
  advise page f advice offset length w =
      if is_empty f
      then (ok tt, w)
      else if ltb f.size offset
      then (err advise_past_end, w)
      else if offset % page != 0
      then (err advise_unaligned, w)
      else advised (
          maps.sys_madvise (address_of f + offset) (clamp_length f offset length)
            (to_madvise advice) w)

  unfoldable pub prefetch : ℕ → MmapFile → ℕ → ℕ → W → Outcome Error (Unit {0}) × W
  unfolding advise
  prefetch page f offset length w = advise page f will_need offset length w

  unfoldable pub drop_pages : ℕ → MmapFile → ℕ → ℕ → W → Outcome Error (Unit {0}) × W
  unfolding advise
  drop_pages page f offset length w = advise page f dont_need offset length w

module _ {W : Type 0} (os : Os W) (maps : Maps W) where
  abbrev pub mapped : ℕ → Text → Sys ℕ × W → Outcome Error MmapFile × W
  mapped length path (failed code, w) = (err (mmap_error MmapOp.mmap_call path code), w)
  mapped length path (done address, w) = (
    ok (record { map = some address; map_length = length; start = some address; size = length }),
    w,
  )

  -- `close(fd)` behind the call.
  abbrev pub and_close : ℕ → Sys ℕ × W → Sys ℕ × W
  and_close fd (r, w) = (r, os.sys_close fd w)

  -- The window of `length` bytes: an empty one maps nothing.
  unfoldable pub map_window : Text → ℕ → ℕ → ℕ → W → Outcome Error MmapFile × W
  map_window path fd offset length w =
      if length == 0
      then (ok unmapped, os.sys_close fd w)
      else mapped length path (and_close fd (maps.sys_mmap fd length offset w))

  unfoldable pub check_window : Text → ℕ → ℕ → ℕ → ℕ → W → Outcome Error MmapFile × W
  unfolding map_window
  check_window path fd offset length file_size w =
      let window = if length == 0 then file_size - offset else length in
      if ltb file_size offset
      then (err (mmap_past_end path offset file_size), os.sys_close fd w)
      else if ltb (file_size - offset) window
      then (err (mmap_window path window offset), os.sys_close fd w)
      else map_window path fd offset window w

  unfoldable pub open_fd : Text → ℕ → ℕ → ℕ → W → Outcome Error MmapFile × W
  unfolding check_window
  open_fd path fd offset length w =
      let (info, w1) = os.sys_fstat fd w in
      elim info [
        | failed code ↦ (err (mmap_error MmapOp.stat_call path code), os.sys_close fd w1)
        | done file_size ↦ check_window path fd offset length file_size w1
      ]

  unfoldable pub open_mmap : ℕ → Text → ℕ → ℕ → W → Outcome Error MmapFile × W
  unfolding open_fd
  open_mmap page path offset length w =
      let (opened, w1) = os.sys_open path mmap_flags 0 w in
      if offset % page != 0 then (err (mmap_unaligned path offset), w) else elim opened [
        | failed code ↦ (err (mmap_error MmapOp.open_call path code), w1)
        | done fd ↦ open_fd path fd offset length w1
      ]
