-- ===== src/Backend/Thread/Examples.antt =====
-- The theorems about the thread backend at concrete inputs, and tests.
use forge_dsio.Prelude.{
  ℕ, ◌+◌, ◌≤◌, ◌<◌, ◌≡◌, ◌⊎◌, ◌++◌, refl, some, none, List, [], ◌∷◌, length, ok, err, arith,
}
use forge_dsio.Error.{thread_queue_full}
use forge_dsio.Os.Disk.{Disk, disk_os, disk-ReadsFile}
use forge_dsio.Os.Retry.{retry}
use forge_dsio.Backend.{ReadRequest}
use forge_dsio.Backend.Thread.{
  Task, ThreadBackend, completion, submit, drain, read_once, wait, wait_oldest, work, reap,
}
use forge_dsio.Backend.Thread.Queue.{submit_lem, requests_of, Answered}
use forge_dsio.Backend.Thread.Laws.{Reaped, IsReadyAt, AreOthers, reap-Reaped, work-Answered}

abbrev text : List ℕ
text = 1 ∷ 2 ∷ 3 ∷ 4 ∷ 5 ∷ 6 ∷ []

abbrev disk : Disk
disk = record {
  fds = 3 ∷ [];
  next = 4;
  written = λ p. 0;
  signals = 1;
  regions = [];
  shown = λ a. (0, 0);
}

abbrev first : ReadRequest
first = record { offset = 0; size = 4; token = 0 }

abbrev second : ReadRequest
second = record { offset = 4; size = 4; token = 1 }

abbrev fresh : ReadRequest → Task
fresh r = record { request = r; result = none }

abbrev busy : ThreadBackend
busy = record { fd = 3; depth = 2; threads = 2; pending = fresh first ∷ fresh second ∷ [] }

submit_lem_example :
    ((2 + 1 ≤ 2)
      × ((submit (first ∷ []) busy).0 ≡ ok tt)
      × (requests_of (submit (first ∷ []) busy).1.pending ≡ (first ∷ second ∷ []) ++ (first ∷ []))
      × (length (submit (first ∷ []) busy).1.pending ≤ (submit (first ∷ []) busy).1.depth))
    ⊎ ((2 < 2 + 1) × (submit (first ∷ []) busy ≡ (err thread_queue_full, busy)))
submit_lem_example = submit_lem (first ∷ []) busy

busy-Answered : Answered text busy.pending
busy-Answered = (λ c e. cc, (λ c e. cc, tt))

reap-Reaped_example :
    Reaped
      (disk_os text)
      3
      text
      (λ d. d.signals)
      (disk-ReadsFile text 3)
      2
      4
      1
      busy
      disk
      (reap (disk_os text) 2 3 4 1 busy disk)
reap-Reaped_example =
    reap-Reaped (disk_os text) 3 text (λ d. d.signals) (disk-ReadsFile text 3) 2 4 1 busy disk
      (omega arith) busy-Answered

work-Answered_example :
    (us : List Task) × (v : Disk) × (work (disk_os text) 2 3 1 busy.pending disk ≡ some (us, v))
    × Answered text us
    × (requests_of us ≡ first ∷ second ∷ [])
    × IsReadyAt 1 us
    × AreOthers 1 busy.pending us
work-Answered_example =
    work-Answered (disk_os text) 3 text (λ d. d.signals) (disk-ReadsFile text 3) 2 1 busy.pending
      disk (omega arith) busy-Answered

-- The second read was done first: one `reap` with `min` 1 hands out both, in order.
out_of_turn :
    reap
      (disk_os text)
      2
      3
      4
      1
      (record busy {
        pending =
            fresh first
            ∷ record {
              request = second;
              result = some (record { token = 1; bytes = 2; error = 0; landed = 5 ∷ 6 ∷ [] });
            }
            ∷ [];
      })
      disk
    ≡ some (
      ok (
          record { token = 0; bytes = 4; error = 0; landed = 1 ∷ 2 ∷ 3 ∷ 4 ∷ [] }
          ∷ record { token = 1; bytes = 2; error = 0; landed = 5 ∷ 6 ∷ [] }
          ∷ []),
      record busy { pending = [] },
      record disk { signals = 0 },
    )
unfolding reap wait_oldest wait read_once retry completion drain
out_of_turn = refl
