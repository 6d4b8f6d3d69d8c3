-- ===== src/Backend/Uring/Laws.antt =====
-- The io_uring backend's count of the reads in flight.
use forge_dsio.Prelude.{
  ℕ, zero, suc, ◌+◌, ◌-◌, ◌%◌, ◌^◌, ◌≤◌, ◌<◌, ◌≡◌, ◌⊎◌, ◌∙◌, inl, inr, min, ltb, Bool-cases, ltb→lt,
  ltb→le, List, [], ◌∷◌, length, length-append, length-map, Outcome, ok, err, arith,
}
use forge_dsio.Prelude.Words.{u64_mod, sub_u64_fits}
use forge_dsio.Error.{Error, uring_queue_full}
use forge_dsio.Os.{Sys-cases}
use forge_dsio.Backend.{ReadRequest}
use forge_dsio.Backend.Uring.{
  Cqe, Ring, UringBackend, one_more, one_less, to_completion, prepare, submit_each, submit, Reaped,
  with_first, wait_least, drain, reap_rest, reap,
}

-- Liburing's queues: `outstanding` counts the reads that were prepared and whose completion was not
-- consumed yet.
pub record CountsReads {R : Type 0} (ring : Ring R) (outstanding : R → ℕ) : Type 0 where
  pub gets : (r : R) → outstanding (ring.get_sqe r).1 ≡ outstanding r
  pub prepares :
      (fd size offset token : ℕ) (r : R)
      → outstanding (ring.prep_read fd size offset token r) ≡ outstanding r + 1
  pub submits : (r : R) → outstanding (ring.ring_submit r).1 ≡ outstanding r
  pub waits : (r : R) → outstanding (ring.wait_cqe r).1 ≡ outstanding r
  pub seen : (r : R) → outstanding (ring.cqe_seen r) ≡ outstanding r - 1
  pub peeks : (n : ℕ) (r : R) → outstanding (ring.peek_batch n r).1 ≡ outstanding r
  pub peeks-le :
      (n : ℕ) (r : R)
      → (length (ring.peek_batch n r).0 ≤ n) × (length (ring.peek_batch n r).0 ≤ outstanding r)
  pub advances : (n : ℕ) (r : R) → outstanding (ring.cq_advance n r) ≡ outstanding r - n

module _ {R : Type 0} (ring : Ring R) (outstanding : R → ℕ) (c : CountsReads ring outstanding) where
  -- The backend's count is the ring's.
  abbrev pub IsBalanced : UringBackend → R → Type 0
  IsBalanced b r = b.in_flight ≡ outstanding r

  -- The outcome of a loop of `submit` over `n` requests.
  abbrev pub Submitted : UringBackend → ℕ → Outcome Error (Unit {0}) × UringBackend × R → Type 0
  Submitted b n (ok _, b', r) =
      IsBalanced b' r × (b'.depth ≡ b.depth) × (b'.in_flight ≡ b.in_flight + n)
  Submitted b n (err e, b', r) =
      IsBalanced b' r
      × (b'.depth ≡ b.depth)
      × (b.in_flight ≤ b'.in_flight)
      × (b'.in_flight ≤ b.in_flight + n)

  Submitted-one_more :
      (b : UringBackend) (n : ℕ) (t : Outcome Error (Unit {0}) × UringBackend × R)
      → Submitted (one_more b) n t
      → Submitted b (suc n) t
  Submitted-one_more b n (ok _, b', r) h = omega arith
  Submitted-one_more b n (err e, b', r) h = omega arith

  submit_each-Submitted :
      (requests : List ReadRequest) (b : UringBackend) (r : R)
      → IsBalanced b r
      → Submitted b (length requests) (submit_each ring requests b r)
  unfolding submit_each prepare
  submit_each-Submitted [] b r h = elim (Sys-cases (ring.ring_submit r).0) [
    | inl (n, e) ↦ rw (e, submit_each) (omega (arith, c.submits r))
    | inr (code, e) ↦ rw (e, submit_each) (omega (arith, c.submits r))
  ]
  submit_each-Submitted (request ∷ requests) b r h =
      let ih = submit_each-Submitted requests (one_more b) in
      elim (Bool-cases (ring.get_sqe r).0) [
        | inl free ↦ rw (free, submit_each) (next ih r1 (c.gets r))
        | inr full ↦ elim (Sys-cases (ring.ring_submit r1).0) [
          | inr (code, e) ↦ rw (full, e, submit_each) (omega (arith, c.gets r, c.submits r1))
          | inl (n, e) ↦ elim (Bool-cases (ring.get_sqe r2).0) [
            | inl free ↦
                rw (full, e, free, submit_each) (next ih r3 (c.gets r2 ∙ c.submits r1 ∙ c.gets r))
            | inr still ↦
                rw (full, e, still, submit_each) (omega (arith, c.gets r2, c.submits r1, c.gets r))
          ]
        ]
      ]
    where
      r1 : R
      r1 = (ring.get_sqe r).1

      r2 : R
      r2 = (ring.ring_submit r1).1

      r3 : R
      r3 = (ring.get_sqe r2).1

      next :
          ((v : R)
            → IsBalanced (one_more b) v
            → Submitted (one_more b) (length requests) (submit_each ring requests (one_more b) v))
          → (v : R) → outstanding v ≡ outstanding r
          → Submitted b
              (suc (length requests))
              (submit_each ring requests (one_more b) (prepare ring b request v))
      next ih v e = Submitted-one_more b (length requests) _ (
          ih (prepare ring b request v) (
            omega
              (arith, e, c.prepares b.fd (request.size % 2 ^ 32) request.offset request.token v)))

  -- Either the requests do not fit beside those in flight: then `submit` refuses with a full queue
  -- and changes nothing. Or they fit: then the reads in flight stay within the depth, and the
  -- backend's count stays that of the ring, whatever liburing reports; on success it has grown by the
  -- number of the requests.
  pub submit-Submitted :
      (requests : List ReadRequest) (b : UringBackend) (r : R)
      → IsBalanced b r
      → ((b.depth < b.in_flight + length requests)
          × (submit ring requests b r ≡ (err uring_queue_full, b, r)))
        ⊎ ((b.in_flight + length requests ≤ b.depth)
            × Submitted b (length requests) (submit ring requests b r)
            × ((submit ring requests b r).1.in_flight ≤ (submit ring requests b r).1.depth))
  unfolding submit
  submit-Submitted requests b r h =
      elim (Bool-cases (ltb b.depth (b.in_flight + length requests))) [
        | inl full ↦ inl (ltb→lt _ _ full, rw full)
        | inr fits ↦
            let room = ltb→le b.depth (b.in_flight + length requests) fits in
            let each = submit_each-Submitted requests b r h in
            inr (room, rw fits each, rw fits (within (submit_each ring requests b r) room each))
      ]
    where
      within :
          (t : Outcome Error (Unit {0}) × UringBackend × R)
          → b.in_flight + length requests ≤ b.depth
          → Submitted b (length requests) t
          → t.1.in_flight ≤ t.1.depth
      within (ok _, b', r') room h = omega arith
      within (err e, b', r') room h = omega arith

  -- The outcome of `reap` and of its loops: the count goes down by the completions handed out.
  abbrev pub HandsOut : UringBackend → ℕ → Reaped ring → Type 0
  HandsOut b room (ok cs, b', r) =
      IsBalanced b' r
      × (b'.depth ≡ b.depth)
      × (b'.in_flight + length cs ≡ b.in_flight)
      × (length cs ≤ room)
  HandsOut b room (err e, b', r) =
      IsBalanced b' r × (b'.depth ≡ b.depth) × (b'.in_flight ≤ b.in_flight)

  with_first-HandsOut :
      (cqe : Cqe) (b : UringBackend) (left : ℕ) (t : Reaped ring)
      → 0 < b.in_flight
      → HandsOut (one_less b) left t
      → HandsOut b (suc left) (with_first ring cqe t)
  unfolding with_first
  with_first-HandsOut cqe b left (ok cs, b', r) pos h = omega arith
  with_first-HandsOut cqe b left (err e, b', r) pos h = omega arith

  wait_least-HandsOut :
      (left count : ℕ) (b : UringBackend) (r : R)
      → IsBalanced b r
      → HandsOut b left (wait_least ring left count b r)
  unfolding wait_least
  wait_least-HandsOut zero count b r h = omega arith
  wait_least-HandsOut (suc left) count b r h = elim (Bool-cases (ltb count b.in_flight)) [
    | inr stop ↦ rw (stop, wait_least) (omega arith)
    | inl more ↦ elim (Sys-cases (ring.wait_cqe r).0) [
      | inr (code, e) ↦ rw (more, e, wait_least) (omega (arith, c.waits r))
      | inl (cqe, e) ↦
          rw (more, e, wait_least)
            (with_first-HandsOut cqe b left _ (omega (arith, ltb→lt count b.in_flight more)) (
              wait_least-HandsOut left (count + 1) (one_less b) (ring.cqe_seen (ring.wait_cqe r).1)
                (omega (arith, c.seen (ring.wait_cqe r).1, c.waits r))))
    ]
  ]

  drain-HandsOut :
      (room : ℕ) (b : UringBackend) (r : R)
      → IsBalanced b r
      → b.in_flight < u64_mod
      → let (cs, b', r') = drain ring room b r in HandsOut b room (ok cs, b', r')
  unfolding drain
  drain-HandsOut room b r h word =
      let n = min room 64 in
      ground (
        arith,
        c.peeks n r,
        c.peeks-le n r,
        c.advances (length (ring.peek_batch n r).0) (ring.peek_batch n r).1,
        length-map (ring.peek_batch n r).0 to_completion,
        sub_u64_fits b.in_flight (length (ring.peek_batch n r).0),
      )

  reap_rest-HandsOut :
      (room least : ℕ) (b : UringBackend) (t : Reaped ring)
      → least ≤ room
      → b.in_flight < u64_mod
      → HandsOut b least t
      → HandsOut b room (reap_rest ring room t)
  unfolding reap_rest
  reap_rest-HandsOut room least b (err e, b', r) le word h = h
  reap_rest-HandsOut room least b (ok cs, b', r) le word h =
      let (more, b2, r2) = drain ring (room - length cs) b' r in
      omega (arith, drain-HandsOut (room - length cs) b' r h.0 (omega arith), length-append cs more)

  -- Whatever liburing reports, `reap` keeps the backend's count that of the ring. On success it hands
  -- out at most `out.size()` completions and the count goes down by their number.
  pub reap-HandsOut :
      (room least : ℕ) (b : UringBackend) (r : R)
      → IsBalanced b r
      → b.in_flight < u64_mod
      → HandsOut b room (reap ring room least b r)
  unfolding reap
  reap-HandsOut room least b r h word =
      reap_rest-HandsOut room (min least room) b _ (omega arith) word
        (wait_least-HandsOut (min least room) 0 b r h)
