-- ===== src/Os/Retry.antt =====
-- `do { rc = call(); } while (rc < 0 && errno == EINTR);` of src/file.cpp and src/thread_backend.cpp.
use forge_dsio.Prelude.{
  ℕ, zero, suc, ◌≤◌, ◌<◌, ◌==◌, ◌≡◌, ◌≢◌, refl, sym, ap, ◌∙◌, Option, none, some, if◌then◌else◌,
  Bool-cases, ==_iff, inl, inr, arith,
}
use forge_dsio.Os.{Sys, done, failed, eintr}

module _ {ℓ} {W : Type 0} {A : Type ℓ} where
  -- The loop's test: another round after an interrupted call.
  unfoldable pub settle : Sys A × W → Option (Sys A × W) → Option (Sys A × W)
  settle (done a, w) again = some (done a, w)
  settle (failed code, w) again = if code == eintr then again else some (failed code, w)

  -- The first argument bounds the rounds; `none` means that it was too small.
  unfoldable pub retry : ℕ → (W → Sys A × W) → W → Option (Sys A × W)
  unfolding settle
  retry zero call w = none
  retry (suc rounds) call w = let again = retry rounds call (call w).1 in settle (call w) again

  -- `pending` counts the signals that are yet to interrupt a call.
  pub record Interrupts (pending : W → ℕ) (call : W → Sys A × W) : Type ℓ where
    pub grows_not : (w : W) → pending (call w).1 ≤ pending w
    pub interrupted : (w : W) → (call w).0 ≡ failed eintr → pending (call w).1 < pending w

  -- From the first state to the second by interrupted calls only.
  pub data Interrupted (call : W → Sys A × W) : W → W → Type ℓ where
    calm : {w : W} → Interrupted call w w
    signal :
        {w v : W} → (call w).0 ≡ failed eintr → Interrupted call (call w).1 v → Interrupted call w v

  -- What interrupted calls leave alone is the same at the end.
  pub Interrupted-keeps {κ} :
      {B : Type κ} (view : W → B) (call : W → Sys A × W)
      → ((w : W) → (call w).0 ≡ failed eintr → view (call w).1 ≡ view w)
      → {w v : W} → Interrupted call w v
      → view v ≡ view w
  Interrupted-keeps view call keeps calm = refl
  Interrupted-keeps view call keeps (signal {w} hit rest) =
      Interrupted-keeps view call keeps rest ∙ keeps w hit

  -- What the loop returns: the result of its last call, which no signal interrupted.
  pub record Returned (pending : W → ℕ) (call : W → Sys A × W) (w : W) (result : Option (Sys A × W))
      : Type ℓ where
    pub last : W
    pub returns : result ≡ some (call last)
    pub settled : (call last).0 ≢ failed eintr
    pub pending-le : pending last ≤ pending w
    pub before : Interrupted call w last

  settle-Returned :
      (pending : W → ℕ) (call : W → Sys A × W) (w : W) (r : Sys A) (w' : W)
      → call w ≡ (r, w')
      → pending w' ≤ pending w
      → (again : Option (Sys A × W)) → (r ≡ failed eintr → Returned pending call w again)
      → Returned pending call w (settle (r, w') again)
  unfolding settle
  settle-Returned pending call w (done a) w' e le again more = record {
    last = w;
    returns = ap some (sym e);
    settled = λ q. cc;
    pending-le = omega arith;
    before = calm;
  }
  settle-Returned pending call w (failed code) w' e le again more =
      elim (Bool-cases (code == eintr)) [
        | inl hit ↦ rw hit (more (ap failed ((==_iff code eintr).0 hit)))
        | inr miss ↦ rw miss (record {
          last = w;
          returns = ap some (sym e);
          settled = λ q. ground arith;
          pending-le = omega arith;
          before = calm;
        })
      ]

  -- With more rounds than signals the loop returns the result of a call that was not interrupted.
  pub retry-Returned :
      (pending : W → ℕ) (call : W → Sys A × W)
      → Interrupts pending call
      → (rounds : ℕ) (w : W) → pending w < rounds
      → Returned pending call w (retry rounds call w)
  unfolding retry
  retry-Returned pending call i zero w h = absurd (omega arith)
  retry-Returned pending call i (suc rounds) w h =
      settle-Returned pending call w (call w).0 (call w).1 refl (i.grows_not w) _ λ hit.
        widen hit
          (retry-Returned pending call i rounds (call w).1 (omega (arith, i.interrupted w hit)))
    where
      widen :
          {result : Option (Sys A × W)}
          → (call w).0 ≡ failed eintr
          → Returned pending call (call w).1 result
          → Returned pending call w result
      widen hit r = record {
        last = r.last;
        returns = r.returns;
        settled = r.settled;
        pending-le = omega (arith, r.pending-le, i.grows_not w);
        before = signal hit r.before;
      }
