-- ===== src/Backend/Uring.antt =====
-- src/uring.cpp: the io_uring backend, over liburing as a parameter.
pub mod Laws
pub mod Waiting
mod Examples
use forge_dsio.Prelude.{
  ℕ, zero, suc, ◌+◌, ◌-◌, ◌%◌, ◌^◌, ltb, if◌then◌else◌, min, Bool, true, false, List, [], ◌∷◌, ◌++◌,
  map, length, Outcome, ok, err,
}
use forge_dsio.Prelude.Words.{sub_u64}
use forge_dsio.Error.{Error, uring_queue_full, uring_sqe_full, uring_submit, uring_wait_cqe}
use forge_dsio.Os.{Sys, done, failed}
use forge_dsio.File.{Bytes}
use forge_dsio.Backend.{ReadRequest, Completion}

-- A completion queue entry: the user data, and `res` (`-errno` is `failed`) with the bytes that the
-- read has put into the buffer.
pub record Cqe : Type 0 where
  pub user_data : ℕ
  pub res : Sys ℕ
  pub landed : Bytes

-- What the code calls of liburing, over the state `R` of a ring and the kernel behind it. `get_sqe`
-- says whether an entry is free, and `prep_read` fills the one that it gave: descriptor, length,
-- offset and user data.
pub record Ring (R : Type 0) : Type 0 where
  pub queue_init : ℕ → R → Sys (Unit {0}) × R
  pub queue_exit : R → R
  pub get_sqe : R → Bool × R
  pub prep_read : ℕ → ℕ → ℕ → ℕ → R → R
  pub ring_submit : R → Sys ℕ × R
  pub wait_cqe : R → Sys Cqe × R
  pub cqe_seen : R → R
  pub peek_batch : ℕ → R → List Cqe × R
  pub cq_advance : ℕ → R → R

pub record UringBackend : Type 0 where
  pub fd : ℕ
  pub depth : ℕ
  pub in_flight : ℕ
  pub initialized : Bool

unfoldable pub to_completion : Cqe → Completion
to_completion cqe = elim cqe.res [
  | failed code ↦ record { token = cqe.user_data; bytes = 0; error = code; landed = cqe.landed }
  | done n ↦ record { token = cqe.user_data; bytes = n; error = 0; landed = cqe.landed }
]

-- `++in_flight_` and `--in_flight_`.
abbrev pub one_more : UringBackend → UringBackend
one_more b = record b { in_flight = b.in_flight + 1 }

abbrev pub one_less : UringBackend → UringBackend
one_less b = record b { in_flight = b.in_flight - 1 }

module _ {R : Type 0} (ring : Ring R) where
  -- The constructor's state after `init`.
  unfoldable pub init : UringBackend → R → Sys (Unit {0}) × UringBackend × R
  init b r =
      let (rc, r') = ring.queue_init (b.depth % 2 ^ 32) r in
      elim rc [
        | failed code ↦ (failed code, record b { initialized = false }, r')
        | done u ↦ (done u, record b { initialized = true }, r')
      ]

  unfoldable pub destroy : UringBackend → R → R
  destroy b r = if b.initialized then ring.queue_exit r else r

  -- The length is passed as an `unsigned`, of 32 bits.
  unfoldable pub prepare : UringBackend → ReadRequest → R → R
  prepare b request = ring.prep_read b.fd (request.size % 2 ^ 32) request.offset request.token

  -- The loop of `submit` and the call behind it.
  unfoldable pub submit_each :
      List ReadRequest → UringBackend → R → Outcome Error (Unit {0}) × UringBackend × R
  submit_each [] b r =
      let (rc, r') = ring.ring_submit r in
      elim rc [ failed code ↦ (err (uring_submit code), b, r') | done n ↦ (ok tt, b, r') ]
  submit_each (request ∷ requests) b r =
      let (free, r1) = ring.get_sqe r in
      elim free [
        | true ↦ submit_each requests (one_more b) (prepare b request r1)
        | false ↦
            let (flushed, r2) = ring.ring_submit r1 in
            let (free_now, r3) = ring.get_sqe r2 in
            elim flushed [
              | failed code ↦ (err (uring_submit code), b, r2)
              | done n ↦ elim free_now [
                | true ↦ submit_each requests (one_more b) (prepare b request r3)
                | false ↦ (err uring_sqe_full, b, r3)
              ]
            ]
      ]

  unfoldable pub submit :
      List ReadRequest → UringBackend → R → Outcome Error (Unit {0}) × UringBackend × R
  submit requests b r =
      if ltb b.depth (b.in_flight + length requests)
      then (err uring_queue_full, b, r)
      else submit_each requests b r

  abbrev pub Reaped : Type 0
  Reaped = Outcome Error (List Completion) × UringBackend × R

  -- A completion in front of those of the later rounds; an error drops it.
  unfoldable pub with_first : Cqe → Reaped → Reaped
  with_first cqe (err e, b, r) = (err e, b, r)
  with_first cqe (ok rest, b, r) = (ok (to_completion cqe ∷ rest), b, r)

  -- `while (count < min && count < in_flight_)`: the first argument is `min - count`.
  unfoldable pub wait_least : ℕ → ℕ → UringBackend → R → Reaped
  wait_least zero count b r = (ok [], b, r)
  wait_least (suc left) count b r =
      let (waited, r1) = ring.wait_cqe r in
      elim (ltb count b.in_flight) [
        | false ↦ (ok [], b, r)
        | true ↦ elim waited [
          | failed code ↦ (err (uring_wait_cqe code), b, r1)
          | done cqe ↦ with_first cqe (wait_least left (count + 1) (one_less b) (ring.cqe_seen r1))
        ]
      ]

  -- What is complete already, up to 64 and as far as `out` has room.
  unfoldable pub drain : ℕ → UringBackend → R → List Completion × UringBackend × R
  drain room b r =
      let (cqes, r1) = ring.peek_batch (min room 64) r in
      if ltb 0 (min room 64)
      then (
        map to_completion cqes,
        record b { in_flight = sub_u64 b.in_flight (length cqes) },
        (if ltb 0 (length cqes) then ring.cq_advance (length cqes) r1 else r1),
      )
      else ([], b, r)

  unfoldable pub reap_rest : ℕ → Reaped → Reaped
  reap_rest room (err e, b, r) = (err e, b, r)
  reap_rest room (ok cs, b, r) =
      let (more, b', r') = drain (room - length cs) b r in (ok (cs ++ more), b', r')

  -- `out` is given by its size; the result lists what is moved into it.
  unfoldable pub reap : ℕ → ℕ → UringBackend → R → Reaped
  reap room least b r = reap_rest room (wait_least (min least room) 0 b r)
