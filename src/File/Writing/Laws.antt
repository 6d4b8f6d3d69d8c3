-- ===== src/File/Writing/Laws.antt =====
-- `File::pwrite_exact`: what it leaves in the file.
use forge_dsio.Prelude.{
  ℕ, zero, suc, ◌+◌, ◌-◌, ◌≤◌, ◌<◌, ◌==◌, ◌≡◌, ◌≢◌, ◌⊎◌, refl, sym, ap, subst, ◌∙◌, inl, inr, true,
  Option, some, ok, err, arith, length, take, drop, length-take, length-drop, take-add, take-all,
  ltb, Bool-cases, ltb→lt, ltb→le, ==_iff,
}
use forge_dsio.Prelude.Words.{u64_mod, add_u64_fits}
use forge_dsio.Error.{FileOp, file_error}
use forge_dsio.Os.{Os, Sys, done, failed, eintr, eio}
use forge_dsio.Os.Retry.{retry-Returned, Interrupted-keeps}
use forge_dsio.Os.Contract.{WritesFile, patch, patch-append}
use forge_dsio.File.{File, Bytes}
use forge_dsio.File.Writing.{
  Written, pwrite_result, pwrite, write_more, pwrite_exact_from, pwrite_exact,
}

module _ {W : Type 0} (os : Os W) (fd : ℕ) (content : W → ℕ → ℕ) (pending : W → ℕ)
    (kernel : WritesFile os fd content pending) (f : File) (is_open : f.fd ≡ some fd)
    (rounds : ℕ) where
  -- What one write at `at` does to a file.
  abbrev Progress : (ℕ → ℕ) → ℕ → Bytes → Written os → Type 0
  Progress file at src (err e, w) =
      ((code : ℕ) × (e ≡ file_error FileOp.pwrite f.path code) × (code ≢ eintr))
      × (content w ≡ file)
  Progress file at src (ok put, w) = (put ≤ length src) × (content w ≡ patch file at (take put src))

  pwrite_result-Progress :
      (file : ℕ → ℕ) (at : ℕ) (src : Bytes) (w : W)
      → content w ≡ file
      → (r : Sys ℕ) (v : W) → os.sys_pwrite fd at src w ≡ (r, v)
      → r ≢ failed eintr
      → Progress file at src (pwrite_result os f (r, v))
  unfolding pwrite_result
  pwrite_result-Progress file at src w same (failed code) v e settled = (
    (code, refl, λ q. settled (ap failed q)),
    sym (ap (λ t. content t.1) e) ∙ kernel.writes_not at src w code (ap (λ t. t.0) e) ∙ same,
  )
  pwrite_result-Progress file at src w same (done put) v e settled =
      let (short, puts) = kernel.writes at src w put (ap (λ t. t.0) e) in
      (short, sym (ap (λ t. content t.1) e) ∙ puts ∙ ap (λ g. patch g at (take put src)) same)

  pwrite_result-state : (r : Sys ℕ) (v : W) → (pwrite_result os f (r, v)).1 ≡ v
  unfolding pwrite_result
  pwrite_result-state (failed code) v = refl
  pwrite_result-state (done put) v = refl

  pwrite-Progress :
      (at : ℕ) (src : Bytes) (w : W)
      → pending w < rounds
      → (t : Written os) × (pwrite os rounds f at src w ≡ some t)
        × Progress (content w) at src t
        × (pending t.1 ≤ pending w)
  unfolding pwrite
  pwrite-Progress at src w more =
      let call = os.sys_pwrite fd at src in
      let r = retry-Returned pending call (kernel.signals at src) rounds w more in
      let calm = kernel.signals at src in
      let same =
        Interrupted-keeps content call (λ v hit. kernel.writes_not at src v eintr hit) r.before in
      (
        pwrite_result os f (call r.last),
        ground (arith, r.returns),
        pwrite_result-Progress (content w) at src r.last same (call r.last).0 (call r.last).1 refl
            r.settled,
        omega (
          arith,
          r.pending-le,
          calm.grows_not r.last,
          ap pending (pwrite_result-state (call r.last).0 (call r.last).1),
        ),
      )

  -- The end of the loop: everything is written, or a prefix and the failure that is reported, which
  -- is `EIO` after a write of no bytes.
  abbrev pub Finished : (ℕ → ℕ) → ℕ → Bytes → Written os → Type 0
  Finished file offset src (err e, w) =
      (((code : ℕ) × (e ≡ file_error FileOp.pwrite f.path code) × (code ≢ eintr))
        ⊎ (e ≡ file_error FileOp.pwrite_exact f.path eio))
      × ((n : ℕ) × (n < length src) × (content w ≡ patch file offset (take n src)))
  Finished file offset src (ok total, w) =
      (total ≡ length src) × (content w ≡ patch file offset src)

  -- The first `n` bytes and `put` more behind them.
  patch-add :
      (file : ℕ → ℕ) (offset : ℕ) (src : Bytes) (n put : ℕ)
      → n ≤ length src
      → patch (patch file offset (take n src)) (offset + n) (take put (drop n src))
        ≡ patch file offset (take (n + put) src)
  patch-add file offset src n put below =
      ap (λ k. patch (patch file offset (take n src)) (offset + k) (take put (drop n src)))
        (let e : n ≡ length (take n src) = omega (arith, length-take n src) in e)
      ∙ patch-append file offset (take n src) (take put (drop n src))
      ∙ ap (patch file offset) (sym (take-add n put src))

  write_more-Finished :
      (file : ℕ → ℕ) (offset n : ℕ) (src : Bytes) (next : ℕ → W → Option (Written os))
      (t : Written os)
      → n < length src
      → Progress (patch file offset (take n src)) (offset + n) (drop n src) t
      → ((put : ℕ)
          → 0 < put
          → n + put ≤ length src
          → content t.1 ≡ patch file offset (take (n + put) src)
          → (u : Written os) × (next (n + put) t.1 ≡ some u) × Finished file offset src u)
      → (u : Written os) × (write_more os next f n t ≡ some u) × Finished file offset src u
  unfolding write_more
  write_more-Finished file offset n src next (err e, w) below (why, same) more =
      ((err e, w), refl, (inl why, (n, below, same)))
  write_more-Finished file offset n src next (ok put, w) below (short, puts) more =
      elim (Bool-cases (put == 0)) [
        | inl nothing ↦ rw nothing (
          (err (file_error FileOp.pwrite_exact f.path eio), w),
          refl,
          (inr refl, (n, below, wrote ∙ ap (λ k. patch file offset (take k src)) (stays nothing))),
        )
        | inr something ↦
            rw something (more put (ground arith) (omega (arith, length-drop n src)) wrote)
      ]
    where
      wrote : content w ≡ patch file offset (take (n + put) src)
      wrote = puts ∙ patch-add file offset src n put (omega arith)

      stays : (put == 0) ≡ true → n + put ≡ n
      stays e = omega (arith, (==_iff put 0).0 e)

  pwrite_exact_from-Finished :
      (file : ℕ → ℕ) (offset : ℕ) (src : Bytes)
      → offset + length src < u64_mod
      → (turns n : ℕ) (w : W) → n ≤ length src
      → content w ≡ patch file offset (take n src)
      → length src - n < turns
      → pending w < rounds
      → (t : Written os) × (pwrite_exact_from os rounds turns f offset n src w ≡ some t)
        × Finished file offset src t
  unfolding pwrite_exact_from
  pwrite_exact_from-Finished file offset src word zero n w fits same enough more =
      absurd (omega arith)
  pwrite_exact_from-Finished file offset src word (suc turns) n w fits same enough more =
      elim (Bool-cases (ltb n (length src))) [
        | inl below ↦
            let n_lt = ltb→lt n (length src) below in
            let (t, write, progress, calm) = pwrite-Progress (offset + n) (drop n src) w more in
            rw (below, add_u64_fits offset n (omega arith), write)
              (write_more-Finished file offset n src _ t n_lt
                (subst (λ g. Progress g (offset + n) (drop n src) t) same progress)
                λ put pos put_fits wrote.
                  pwrite_exact_from-Finished file offset src word turns (n + put) t.1 put_fits wrote
                    (omega arith) (omega arith))
        | inr full ↦
            let all = ltb→le n (length src) full in
            rw full
              ((ok n, w), refl, (omega arith, same ∙ ap (patch file offset) (take-all n src all)))
      ]

  -- `pwrite_exact` on an open regular file, for an offset and a source within 64 bits, and with more
  -- retries than signals: it returns. On success all of `src` stands in the file at the offset and
  -- the rest of the file is as before. It fails with an `errno` of the system that is not `EINTR`, or
  -- with `EIO`, and then a proper prefix of `src` is written and nothing else has changed.
  pub pwrite_exact-Finished :
      (offset : ℕ) (src : Bytes) (w : W)
      → offset + length src < u64_mod
      → pending w < rounds
      → (t : Written os) × (pwrite_exact os rounds f offset src w ≡ some t)
        × Finished (content w) offset src t
  unfolding pwrite_exact patch
  pwrite_exact-Finished offset src w word more =
      pwrite_exact_from-Finished (content w) offset src word (suc (length src)) 0 w (omega arith)
        refl (omega arith) more
