-- ===== src/File/Examples.antt =====
-- The theorems about files at concrete inputs, and tests.
use forge_dsio.Prelude.{ℕ, ◌≡◌, refl, false, some, List, [], ◌∷◌, ◌++◌, ok, arith}
use forge_dsio.Prelude.Words.{add_u64}
use forge_dsio.Os.Contract.{patch}
use forge_dsio.Os.Disk.{Disk, disk_os, disk-CountsFds, disk-ReadsFile, disk-WritesFile}
use forge_dsio.Os.Retry.{retry}
use forge_dsio.Align.BlockSize.{block_size}
use forge_dsio.File.{
  File, closed_file, direct_read, open_file, move_assign, pread_exact, pread, Transfer,
  pread_result, read_more,
}
use forge_dsio.File.Writing.{Written, pwrite_exact}
use forge_dsio.File.Ownership.{fds-block_size, fds-open_file, fds-move_assign, held, owned}
use forge_dsio.File.Reading.{pread_exact-Complete, Complete}
use forge_dsio.File.Writing.Laws.{pwrite_exact-Finished, Finished}

-- Nine bytes, and two signals on the way.
abbrev text : List ℕ
text = 1 ∷ 2 ∷ 3 ∷ 4 ∷ 5 ∷ 6 ∷ 7 ∷ 8 ∷ 9 ∷ []

abbrev disk : Disk
disk = record {
  fds = 3 ∷ 5 ∷ [];
  next = 6;
  written = λ p. 0;
  signals = 2;
  regions = [];
  shown = λ a. (0, 0);
}

abbrev input : File
input = record { fd = some 3; path = []; alignment = 4 }

abbrev other : File
other = record { fd = some 5; path = []; alignment = 4 }

abbrev blank : List ℕ
blank = 0 ∷ 0 ∷ 0 ∷ 0 ∷ 0 ∷ 0 ∷ 0 ∷ 0 ∷ []

fds-block_size_example : (block_size (disk_os text) [] disk).1.fds ≡ 3 ∷ 5 ∷ []
fds-block_size_example = fds-block_size (disk_os text) (λ d. d.fds) (disk-CountsFds text) [] disk

fds-open_file_example :
    (open_file (disk_os text) [] direct_read disk).1.fds
    ≡ held (open_file (disk_os text) [] direct_read disk).0 ++ (3 ∷ 5 ∷ [])
fds-open_file_example =
    fds-open_file (disk_os text) (λ d. d.fds) (disk-CountsFds text) [] direct_read disk

fds-move_assign_example :
    let (this', other', w') = move_assign (disk_os text) false input other disk in
    (w'.fds ≡ owned false this' other' []) × (this' ≡ other) × (other' ≡ closed_file)
fds-move_assign_example =
    fds-move_assign (disk_os text) (λ d. d.fds) (disk-CountsFds text) false input other disk [] refl

pread_exact-Complete_example :
    (t : Transfer (disk_os text)) × (pread_exact (disk_os text) 3 input 4 blank disk ≡ some t)
    × Complete (disk_os text) 3 text (λ d. d.signals) (disk-ReadsFile text 3) input refl 3 4 blank t
pread_exact-Complete_example =
    pread_exact-Complete (disk_os text) 3 text (λ d. d.signals) (disk-ReadsFile text 3) input refl 3
      4 blank disk (omega arith) (omega arith)

pwrite_exact-Finished_example :
    (t : Written (disk_os text)) × (pwrite_exact (disk_os text) 3 input 4 text disk ≡ some t)
    × Finished
        (disk_os text)
        3
        (λ d. d.written)
        (λ d. d.signals)
        (disk-WritesFile text 3)
        input
        refl
        3
        (λ p. 0)
        4
        text
        t
pwrite_exact-Finished_example =
    pwrite_exact-Finished (disk_os text) 3 (λ d. d.written) (λ d. d.signals)
      (disk-WritesFile text 3) input refl 3 4 text disk (omega arith) (omega arith)

-- Five bytes are left from offset 4 on; the rest of the buffer stays.
tail_read :
    pread_exact (disk_os text) 3 input 4 blank disk
    ≡ some (ok 5, 5 ∷ 6 ∷ 7 ∷ 8 ∷ 9 ∷ 0 ∷ 0 ∷ 0 ∷ [], record disk { signals = 0 })
unfolding pread_exact pread retry pread_result read_more add_u64 patch
tail_read = refl
