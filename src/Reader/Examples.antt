-- ===== src/Reader/Examples.antt =====
-- The theorems about readers at concrete inputs, and tests.
use forge_dsio.Prelude.{
  ℕ, ◌≡◌, ◌≤◌, refl, ap, ◌∙◌, sym, some, List, [], ◌∷◌, length, Outcome, ok, Outcome, arith,
  replicate, length-replicate,
}
use forge_dsio.Prelude.Words.{add_u64, sub_u64}
use forge_dsio.Error.{Error}
use forge_dsio.Os.Disk.{Disk, disk_os, disk-CountsFds, disk-HasSize, disk-ReadsFile}
use forge_dsio.Os.Retry.{retry}
use forge_dsio.Align.BlockSize.{block_size, from_device, statfs_block}
use forge_dsio.File.{
  File, open_file, close, size as file_size, pread_exact, pread_exact_from, pread, pread_result,
  read_more,
}
use forge_dsio.Reader.{
  DirectReader, Chunk, Read, Alloc, next_chunk, trim, open_at, open_aligned, clamp_window,
  open_window, open_whole,
}
use forge_dsio.Reader.Laws.{IsReader, Step, next_chunk-Step}
use forge_dsio.Reader.Whole.{read_all, read_all-Whole, Whole, then_more}
use forge_dsio.Reader.Opening.{Allocates, Opened, open_at-Opened, open_whole-Opened}

-- Nine bytes, in blocks of four, and a signal on the way.
abbrev text : List ℕ
text = 1 ∷ 2 ∷ 3 ∷ 4 ∷ 5 ∷ 6 ∷ 7 ∷ 8 ∷ 9 ∷ []

abbrev disk : Disk
disk = record {
  fds = 3 ∷ [];
  next = 4;
  written = λ p. 0;
  signals = 1;
  regions = [];
  shown = λ a. (0, 0);
}

abbrev input : File
input = record { fd = some 3; path = []; alignment = 4 }

-- The window from 4 to 9.
abbrev tail_reader : DirectReader
tail_reader = record { file = input; buffer = replicate 4 0; start = 4; end = 9; position = 4 }

tail_reader-IsReader :
    IsReader
      (disk_os text)
      3
      text
      (λ d. d.signals)
      (disk-ReadsFile text 3)
      input
      refl
      2
      4
      tail_reader
tail_reader-IsReader = record {
  reads = refl;
  block_long = refl;
  block_pos = omega arith;
  ordered = omega arith;
  fits = omega arith;
}

next_chunk-Step_example :
    (t : Read (disk_os text)) × (next_chunk (disk_os text) 2 tail_reader disk ≡ some t)
    × Step
        (disk_os text)
        3
        text
        (λ d. d.signals)
        (disk-ReadsFile text 3)
        input
        refl
        2
        4
        tail_reader
        t
    × (t.2.signals ≤ 1)
next_chunk-Step_example =
    next_chunk-Step (disk_os text) 3 text (λ d. d.signals) (disk-ReadsFile text 3) input refl 2 4
      tail_reader disk tail_reader-IsReader (omega arith)

read_all-Whole_example :
    (res : Outcome Error (List Chunk)) × (read_all (disk_os text) 2 6 tail_reader disk ≡ some res)
    × Whole
        (disk_os text)
        3
        text
        (λ d. d.signals)
        (disk-ReadsFile text 3)
        input
        refl
        2
        4
        tail_reader
        res
read_all-Whole_example =
    read_all-Whole (disk_os text) 3 text (λ d. d.signals) (disk-ReadsFile text 3) input refl 2 4 6
      tail_reader disk tail_reader-IsReader (omega arith) (omega arith)

-- Two chunks: the bytes 5 to 8, and the byte 9.
tail_read :
    read_all (disk_os text) 2 6 tail_reader disk
    ≡ some (
        ok (
          record { bytes = 5 ∷ 6 ∷ 7 ∷ 8 ∷ []; offset = 4 }
          ∷ record { bytes = 9 ∷ []; offset = 8 }
          ∷ []))
unfolding read_all then_more next_chunk trim pread_exact pread_exact_from pread pread_result
    read_more retry add_u64 sub_u64
tail_read = refl

abbrev alloc : Alloc
alloc bytes align = ok (replicate bytes 0)

alloc-Allocates : Allocates alloc
alloc-Allocates bytes align buffer e =
    let same : replicate {A = ℕ} bytes 0 ≡ buffer = cc in
    ap length (sym same) ∙ length-replicate {A = ℕ} bytes 0

abbrev opened : Outcome Error DirectReader × Disk
opened = (
  ok (record {
    file = record { fd = some 4; path = []; alignment = 4 };
    buffer = replicate 4 0;
    start = 4;
    end = 9;
    position = 4;
  }),
  record disk { fds = 4 ∷ 3 ∷ []; next = 6 },
)

opened-open_at : open_at (disk_os text) alloc [] 4 100 disk ≡ some opened
unfolding open_at open_aligned clamp_window open_window open_file block_size file_size close add_u64
    from_device statfs_block
opened-open_at = refl

open_at-Opened_example :
    Opened
      (disk_os text)
      (λ d. d.fds)
      (disk-CountsFds text)
      9
      (disk-HasSize text)
      (omega arith)
      alloc
      alloc-Allocates
      4
      100
      (3 ∷ [])
      opened
open_at-Opened_example =
    open_at-Opened (disk_os text) (λ d. d.fds) (disk-CountsFds text) 9 (disk-HasSize text)
      (omega arith) alloc alloc-Allocates [] 4 100 disk opened opened-open_at

open_whole-Opened_example :
    Opened
      (disk_os text)
      (λ d. d.fds)
      (disk-CountsFds text)
      9
      (disk-HasSize text)
      (omega arith)
      alloc
      alloc-Allocates
      0
      9
      (3 ∷ [])
      (open_whole (disk_os text) alloc [] disk)
open_whole-Opened_example =
    open_whole-Opened (disk_os text) (λ d. d.fds) (disk-CountsFds text) 9 (disk-HasSize text)
      (omega arith) alloc alloc-Allocates [] disk
