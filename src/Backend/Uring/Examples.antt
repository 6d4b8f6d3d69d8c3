-- ===== src/Backend/Uring/Examples.antt =====
-- The theorems about io_uring and the factories at concrete inputs, and tests.
use forge_dsio.Prelude.{
  ℕ, ◌+◌, ◌-◌, ◌/◌, ◌≤◌, ◌<◌, ◌≡◌, ◌⊎◌, refl, min, true, [], ◌∷◌, ok, err, arith,
}
use forge_dsio.Error.{uring_queue_full}
use forge_dsio.Os.{done}
use forge_dsio.Backend.{ReadRequest}
use forge_dsio.Backend.Uring.{
  Cqe, Ring, UringBackend, submit, reap, reap_rest, with_first, wait_least, drain, to_completion,
}
use forge_dsio.Backend.Uring.Laws.{
  CountsReads, Submitted, submit-Submitted, HandsOut, reap-HandsOut,
}
use forge_dsio.Backend.Uring.Waiting.{HasLength, reap_waits_half}

abbrev finished : Cqe
finished = record { user_data = 7; res = done 4; landed = 1 ∷ 2 ∷ 3 ∷ 4 ∷ [] }

-- The state counts the reads in flight: each is complete when it is waited for, and no sooner.
abbrev lazy_ring : Ring ℕ
lazy_ring = record {
  queue_init = λ depth r. (done tt, 0);
  queue_exit = λ r. r;
  get_sqe = λ r. (true, r);
  prep_read = λ fd size offset token r. r + 1;
  ring_submit = λ r. (done r, r);
  wait_cqe = λ r. (done finished, r);
  cqe_seen = λ r. r - 1;
  peek_batch = λ n r. ([], r);
  cq_advance = λ n r. r - n;
}

lazy-CountsReads : CountsReads lazy_ring (λ r. r)
lazy-CountsReads = record {
  gets = λ r. refl;
  prepares = λ fd size offset token r. refl;
  submits = λ r. refl;
  waits = λ r. refl;
  seen = λ r. refl;
  peeks = λ n r. refl;
  peeks-le = λ n r. omega arith;
  advances = λ n r. refl;
}

abbrev four : UringBackend
four = record { fd = 3; depth = 4; in_flight = 4; initialized = true }

abbrev one : UringBackend
one = record { fd = 3; depth = 4; in_flight = 1; initialized = true }

abbrev request : ReadRequest
request = record { offset = 0; size = 4096; token = 7 }

submit-Submitted_example :
    ((4 < 1 + 2)
      × (submit lazy_ring (request ∷ request ∷ []) one 1 ≡ (err uring_queue_full, one, 1)))
    ⊎ ((1 + 2 ≤ 4)
        × Submitted lazy_ring
            (λ r. r)
            lazy-CountsReads
            one
            2
            (submit lazy_ring (request ∷ request ∷ []) one 1)
        × ((submit lazy_ring (request ∷ request ∷ []) one 1).1.in_flight
            ≤ (submit lazy_ring (request ∷ request ∷ []) one 1).1.depth))
submit-Submitted_example =
    submit-Submitted lazy_ring (λ r. r) lazy-CountsReads (request ∷ request ∷ []) one 1 refl

reap-HandsOut_example :
    HandsOut lazy_ring (λ r. r) lazy-CountsReads four 8 (reap lazy_ring 8 4 four 4)
reap-HandsOut_example =
    reap-HandsOut lazy_ring (λ r. r) lazy-CountsReads 8 4 four 4 refl (omega arith)

reap_waits_half_example :
    HasLength lazy_ring
      (λ r. (finished, refl))
      (min (min 4 8) ((4 + 1) / 2))
      (reap lazy_ring 8 4 four 4)
reap_waits_half_example = reap_waits_half lazy_ring (λ r. (finished, refl)) (λ n r. refl) 8 4 four 4

-- Four reads in flight and `min` 4: two completions.
two_of_four :
    (reap lazy_ring 8 4 four 4).0 ≡ ok (to_completion finished ∷ to_completion finished ∷ [])
unfolding reap reap_rest wait_least with_first drain
two_of_four = refl
