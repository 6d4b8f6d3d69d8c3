-- ===== src/File/Writing.antt =====
-- `File::pwrite`, `File::pwrite_exact` and `File::sync` of src/file.cpp.
pub mod Laws
use mathlib.Core.Option
use forge_dsio.Prelude.{
  ℕ, zero, suc, ◌+◌, ◌==◌, ltb, if◌then◌else◌, Bool, Option, none, some, length, drop, Outcome, ok,
  err, ◌>>=◌,
}
use forge_dsio.Prelude.Words.{add_u64}
use forge_dsio.Error.{Error, FileOp, file_closed, file_error}
use forge_dsio.Os.{Os, Sys, done, failed, eio}
use forge_dsio.Os.Retry.{retry}
use forge_dsio.File.{File, Bytes}

module _ {W : Type 0} (os : Os W) where
  abbrev pub Written : Type 0
  Written = Outcome Error ℕ × W

  unfoldable pub pwrite_result : File → Sys ℕ × W → Written
  pwrite_result f (failed code, w) = (err (file_error FileOp.pwrite f.path code), w)
  pwrite_result f (done put, w) = (ok put, w)

  unfoldable pub pwrite : ℕ → File → ℕ → Bytes → W → Option Written
  pwrite rounds f offset src w = elim f.fd [
    | none ↦ some (err (file_closed FileOp.pwrite), w)
    | some fd ↦ Option.map (pwrite_result f) (retry rounds (os.sys_pwrite fd offset src) w)
  ]

  -- One round of the loop, after its `pwrite`: a write of no bytes is an error.
  unfoldable pub write_more : (ℕ → W → Option Written) → File → ℕ → Written → Option Written
  write_more next f total (err e, w) = some (err e, w)
  write_more next f total (ok put, w) =
      if put == 0
      then some (err (file_error FileOp.pwrite_exact f.path eio), w)
      else next (total + put) w

  unfoldable pub pwrite_exact_from : ℕ → ℕ → File → ℕ → ℕ → Bytes → W → Option Written
  pwrite_exact_from rounds zero f offset total src w = none
  pwrite_exact_from rounds (suc turns) f offset total src w =
      let write =
        (pwrite rounds f (add_u64 offset total) (drop total src) w
          >>= write_more (λ t v. pwrite_exact_from rounds turns f offset t src v) f total) in
      if ltb total (length src) then write else some (ok total, w)

  -- Each round writes a byte or ends the loop.
  unfoldable pub pwrite_exact : ℕ → File → ℕ → Bytes → W → Option Written
  unfolding pwrite_exact_from
  pwrite_exact rounds f offset src w = pwrite_exact_from rounds (suc (length src)) f offset 0 src w

  unfoldable pub sync_result : File → Sys (Unit {0}) × W → Outcome Error (Unit {0}) × W
  sync_result f (failed code, w) = (err (file_error FileOp.sync f.path code), w)
  sync_result f (done _, w) = (ok tt, w)

  unfoldable pub sync : ℕ → File → Bool → W → Option (Outcome Error (Unit {0}) × W)
  sync rounds f full w = elim f.fd [
    | none ↦ some (err (file_closed FileOp.sync), w)
    | some fd ↦
        Option.map (sync_result f)
          (retry rounds (if full then os.sys_fsync fd else os.sys_fdatasync fd) w)
  ]
