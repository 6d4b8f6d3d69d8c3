-- ===== src/Reader.antt =====
-- include/dsio/reader.hpp and src/reader.cpp: a file front to back in aligned chunks.
pub mod Laws
pub mod Whole
pub mod Opening
mod Examples
use mathlib.Core.Option
use forge_dsio.Prelude.{
  ℕ, ◌+◌, ◌-◌, ◌%◌, ◌==◌, ◌!=◌, ltb, if◌then◌else◌, min, Bool, true, false, Option, none, some,
  List, [], ◌∷◌, length, take, Outcome, ok, err,
}
use forge_dsio.Prelude.Words.{add_u64, sub_u64}
use forge_dsio.Error.{Text, Error, reader_misaligned, reader_past_end, reader_buffer}
use forge_dsio.Os.{Os}
use forge_dsio.File.{
  File, Bytes, direct_read, open_file, close, size as file_size, Transfer, pread_exact,
}

-- `bytes` are those that the span shows until the next call.
pub record Chunk : Type 0 where
  pub bytes : Bytes
  pub offset : ℕ

-- The fields, the buffer by its bytes. (`end` of the source is `end_`.)
pub record DirectReader : Type 0 where
  pub file : File
  pub buffer : Bytes
  pub start : ℕ
  pub end : ℕ
  pub position : ℕ

unfoldable pub block_size : DirectReader → ℕ
block_size r = length r.buffer

unfoldable pub size : DirectReader → ℕ
size r = sub_u64 r.end r.start

unfoldable pub reset : DirectReader → DirectReader
reset r = record r { position = r.start }

-- `fp::AlignedBuffer::alloc(size, alignment)`: a buffer, or its error.
abbrev pub Alloc : Type 0
Alloc = ℕ → ℕ → Outcome Text Bytes

module _ {W : Type 0} (os : Os W) (alloc : Alloc) where
  -- A result with an error: the file that the function still holds is closed.
  abbrev pub give_up : File → W → Error → Outcome Error DirectReader × W
  give_up file w e = (err e, (close os file w).1)

  unfoldable pub open_window : File → ℕ → ℕ → W → Outcome Error DirectReader × W
  open_window file offset length w = elim (alloc file.alignment file.alignment) [
    | err e ↦ give_up file w (reader_buffer e)
    | ok buffer ↦ (
      ok (record {
        file = file;
        buffer = buffer;
        start = offset;
        end = add_u64 offset length;
        position = offset;
      }),
      w,
    )
  ]

  unfoldable pub open_whole : Text → W → Outcome Error DirectReader × W
  open_whole path w =
      let (opened, w1) = open_file os path direct_read w in
      elim opened [
        | err e ↦ (err e, w1)
        | ok file ↦
            let (bytes, w2) = file_size os file w1 in
            elim bytes [ err e ↦ give_up file w2 e | ok n ↦ open_window file 0 n w2 ]
      ]

  -- The window within a file of `n` bytes.
  unfoldable pub clamp_window : File → ℕ → ℕ → ℕ → W → Outcome Error DirectReader × W
  clamp_window file offset length n w =
      if ltb n offset
      then give_up file w (reader_past_end offset n)
      else open_window file offset (if ltb (n - offset) length then n - offset else length) w

  unfoldable pub open_aligned : File → ℕ → ℕ → W → Outcome Error DirectReader × W
  open_aligned file offset length w =
      let (bytes, w') = file_size os file w in
      elim bytes [ err e ↦ give_up file w' e | ok n ↦ clamp_window file offset length n w' ]

  -- `none`: the alignment is 0, and `offset % alignment` divides by it.
  unfoldable pub open_at : Text → ℕ → ℕ → W → Option (Outcome Error DirectReader × W)
  open_at path offset length w =
      let (opened, w1) = open_file os path direct_read w in
      elim opened [
        | err e ↦ some (err e, w1)
        | ok file ↦
            if file.alignment == 0
            then none
            else if offset % file.alignment != 0
            then some (give_up file w1 (reader_misaligned offset file.alignment))
            else some (open_aligned file offset length w1)
      ]

module _ {W : Type 0} (os : Os W) where
  -- The result of a call, the reader after it and the system after it.
  abbrev pub Read : Type 0
  Read = Outcome Error Chunk × DirectReader × W

  abbrev pub no_chunk : DirectReader → Outcome Error Chunk
  no_chunk r = ok (record { bytes = []; offset = r.position })

  -- What `next_chunk` makes of its read.
  unfoldable pub trim : DirectReader → Transfer os → Read
  trim r (err e, buffer, w) = (err e, record r { buffer = buffer }, w)
  trim r (ok got, buffer, w) =
      let bytes = min got (sub_u64 r.end r.position) in
      if got == 0 then (no_chunk r, record r { buffer = buffer }, w) else (
        ok (record { bytes = take bytes buffer; offset = r.position }),
        record r { buffer = buffer; position = add_u64 r.position bytes },
        w,
      )

  unfoldable pub next_chunk : ℕ → DirectReader → W → Option Read
  unfolding trim
  next_chunk rounds r w =
      if ltb r.position r.end
      then Option.map (trim r) (pread_exact os rounds r.file r.position r.buffer w)
      else some (no_chunk r, r, w)
