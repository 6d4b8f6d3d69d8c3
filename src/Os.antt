-- ===== src/Os.antt =====
-- The system calls that dsio makes, as a parameter of the model: code outside the repository.
pub mod Retry
pub mod Contract
pub mod Disk
use forge_dsio.Prelude.{ℕ, Bool, List, ◌≡◌, refl, ◌⊎◌, inl, inr}
use forge_dsio.Error.{Text}

-- What a call returns: a value, or -1 with `errno`.
pub data Sys {ℓ} (A : Type ℓ) : Type ℓ where
  done : A → Sys A
  failed : ℕ → Sys A

pub Sys-cases {ℓ} :
    {A : Type ℓ} (r : Sys A) → ((a : A) × (r ≡ done a)) ⊎ ((code : ℕ) × (r ≡ failed code))
Sys-cases (done a) = inl (a, refl)
Sys-cases (failed code) = inr (code, refl)

-- `errno` values that the code names.
abbrev pub eintr : ℕ
eintr = 4

abbrev pub eio : ℕ
eio = 5

abbrev pub eagain : ℕ
eagain = 11

-- The `flags` of open(2), one field for each bit that the code sets (`rdwr` unset is `O_RDONLY`).
pub record Flags : Type 0 where
  pub rdwr : Bool
  pub creat : Bool
  pub trunc : Bool
  pub direct : Bool
  pub cloexec : Bool

-- `W` is the state of everything outside the program. A descriptor is a number: the value -1 of the
-- source's fields is `none` in the model. A read returns its bytes, a write how many it took.
pub record Os (W : Type 0) : Type 0 where
  pub sys_open : Text → Flags → ℕ → W → Sys ℕ × W
  pub sys_close : ℕ → W → W
  -- BLKSSZGET: the `int` that it stores, as a 32-bit pattern.
  pub sys_blksszget : ℕ → W → Sys ℕ × W
  -- The field `f_bsize`, and the field `st_size`.
  pub sys_statfs : Text → W → Sys ℕ × W
  pub sys_fstat : ℕ → W → Sys ℕ × W
  -- Descriptor, offset (the 64-bit pattern of the `off_t`) and count.
  pub sys_pread : ℕ → ℕ → ℕ → W → Sys (List ℕ) × W
  pub sys_pwrite : ℕ → ℕ → List ℕ → W → Sys ℕ × W
  pub sys_fsync : ℕ → W → Sys (Unit {0}) × W
  pub sys_fdatasync : ℕ → W → Sys (Unit {0}) × W
