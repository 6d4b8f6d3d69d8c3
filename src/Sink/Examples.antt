-- ===== src/Sink/Examples.antt =====
-- The theorem about sinks at a concrete input, and tests.
use forge_dsio.Prelude.{ℕ, ◌≡◌, refl, some, List, [], ◌∷◌, ok, arith, replicate}
use forge_dsio.Prelude.Words.{add_u64}
use forge_dsio.Os.Disk.{Disk, disk_os, disk-ReadsFile}
use forge_dsio.Os.Retry.{retry}
use forge_dsio.File.{File, pread_exact, pread_exact_from, pread, pread_result, read_more}
use forge_dsio.Sink.{HostSink, host_sink, host_commit, Into, read_into, read_aligned, after_read}
use forge_dsio.Sink.Laws.{host_sink-SinkLaws, read_into-Landed, Landed}

abbrev text : List ℕ
text = 1 ∷ 2 ∷ 3 ∷ 4 ∷ 5 ∷ 6 ∷ 7 ∷ 8 ∷ 9 ∷ []

abbrev disk : Disk
disk = record {
  fds = 3 ∷ [];
  next = 4;
  written = λ p. 0;
  signals = 1;
  regions = [];
  shown = λ a. (0, 0);
}

abbrev input : File
input = record { fd = some 3; path = []; alignment = 4 }

-- Ten bytes: the aligned prefix has eight.
abbrev ten : HostSink
ten = record { region = replicate 10 0; alignment = 4 }

read_into-Landed_example :
    (res : Into (disk_os text) host_sink) × (read_into (disk_os text) host_sink 2 input 4 ten disk
      ≡ some res)
    × Landed
        (disk_os text)
        3
        text
        (λ d. d.signals)
        (disk-ReadsFile text 3)
        input
        refl
        2
        host_sink
        host_sink-SinkLaws
        4
        ten
        res
unfolding host_sink
read_into-Landed_example =
    read_into-Landed (disk_os text) 3 text (λ d. d.signals) (disk-ReadsFile text 3) input refl 2
      host_sink host_sink-SinkLaws 4 ten disk (omega arith) (omega arith) (omega arith)
      (omega arith)

-- Five bytes are left in the file.
ten_read :
    read_into (disk_os text) host_sink 2 input 4 ten disk
    ≡ some (
      ok 5,
      record { region = 5 ∷ 6 ∷ 7 ∷ 8 ∷ 9 ∷ 0 ∷ 0 ∷ 0 ∷ 0 ∷ 0 ∷ []; alignment = 4 },
      record disk { signals = 0 },
    )
unfolding read_into read_aligned after_read host_sink host_commit pread_exact pread_exact_from pread
    pread_result read_more retry add_u64
ten_read = refl
