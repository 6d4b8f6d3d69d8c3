-- ===== src/Backend/Uring/Waiting.antt =====
-- How many completions the io_uring backend's `reap` waits for.
use forge_dsio.Prelude.{
  ℕ, zero, suc, ◌+◌, ◌-◌, ◌/◌, ◌≡◌, inl, inr, min, ltb, Bool-cases, ltb→lt, ltb→le, [], length,
  length-append, ok, err, arith,
}
use forge_dsio.Os.{done}
use forge_dsio.Backend.Uring.{
  Cqe, Ring, UringBackend, one_less, Reaped, with_first, wait_least, drain, reap_rest, reap,
}

-- A ring on which waiting succeeds.
module _ {R : Type 0} (ring : Ring R)
    (waits : (r : R) → (cqe : Cqe) × ((ring.wait_cqe r).0 ≡ done cqe)) where
  abbrev pub HasLength : ℕ → Reaped ring → Type 0
  HasLength n (ok cs, b, r) = length cs ≡ n
  HasLength n (err e, b, r) = ⊥

  HasLength-eq : (m n : ℕ) (t : Reaped ring) → m ≡ n → HasLength m t → HasLength n t
  HasLength-eq m n (ok cs, b, r) e h = omega arith
  HasLength-eq m n (err x, b, r) e h = elim h [ ]

  with_first-HasLength :
      (cqe : Cqe) (n : ℕ) (t : Reaped ring)
      → HasLength n t
      → HasLength (suc n) (with_first ring cqe t)
  unfolding with_first
  with_first-HasLength cqe n (ok cs, b, r) h = omega arith
  with_first-HasLength cqe n (err e, b, r) h = elim h [ ]

  -- The loop's second test compares a count that goes up with one that goes down.
  wait_least-HasLength :
      (left count : ℕ) (b : UringBackend) (r : R)
      → HasLength (min left ((b.in_flight - count + 1) / 2)) (wait_least ring left count b r)
  unfolding wait_least
  wait_least-HasLength zero count b r = omega arith
  wait_least-HasLength (suc left) count b r = elim (Bool-cases (ltb count b.in_flight)) [
    | inr stop ↦ rw (stop, wait_least) (omega (arith, ltb→le count b.in_flight stop))
    | inl more ↦
        let (cqe, e) = waits r in
        let below = ltb→lt count b.in_flight more in
        rw (more, e, wait_least)
          (HasLength-eq (suc (min left ((b.in_flight - 1 - (count + 1) + 1) / 2)))
            (min (suc left) ((b.in_flight - count + 1) / 2)) _ (omega arith)
            (with_first-HasLength cqe _
              (wait_least ring left (count + 1) (one_less b) (ring.cqe_seen (ring.wait_cqe r).1))
              (wait_least-HasLength left (count + 1) (one_less b)
                (ring.cqe_seen (ring.wait_cqe r).1))))
  ]

  reap_rest-HasLength :
      ((n : ℕ) (r : R) → (ring.peek_batch n r).0 ≡ [])
      → (room n : ℕ) (t : Reaped ring) → HasLength n t
      → HasLength n (reap_rest ring room t)
  unfolding reap_rest drain
  reap_rest-HasLength idle room n (ok cs, b, r) h =
      omega
        (arith, length-append cs (drain ring (room - length cs) b r).0, nothing (room - length cs))
    where
      nothing : (left : ℕ) → length (drain ring left b r).0 ≡ 0
      nothing left = ground (arith, idle (min left 64) r)
  reap_rest-HasLength idle room n (err e, b, r) h = elim h [ ]

  -- With waiting that succeeds and no completion beyond those waited for, `reap` hands out `min`
  -- completions, clamped to the room and to half of the reads in flight, rounded up: it does not
  -- wait for more than that half.
  pub reap_waits_half :
      ((n : ℕ) (r : R) → (ring.peek_batch n r).0 ≡ [])
      → (room least : ℕ) (b : UringBackend) (r : R)
      → HasLength (min (min least room) ((b.in_flight + 1) / 2)) (reap ring room least b r)
  unfolding reap
  reap_waits_half idle room least b r = reap_rest-HasLength idle room _ _ (
      HasLength-eq (min (min least room) ((b.in_flight - 0 + 1) / 2)) _
        (wait_least ring (min least room) 0 b r) (omega arith)
        (wait_least-HasLength (min least room) 0 b r))
