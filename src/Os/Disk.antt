-- ===== src/Os/Disk.antt =====
-- A small system for tests: one file, short reads and writes of at most four bytes, and signals.
use forge_dsio.Prelude.{
  ℕ, ◌+◌, ◌-◌, ◌==◌, ◌≡◌, ◌≢◌, refl, ap, min, List, [], ◌∷◌, length, take, drop, length-take,
  length-drop, take-length-take, if◌then◌else◌, arith,
}
use forge_dsio.Os.{Os, Sys, done, failed, eintr}
use forge_dsio.Os.Retry.{Interrupts}
use forge_dsio.Os.Contract.{ReadsFile, WritesFile, CountsFds, HasSize, patch}

-- `written` is what writes change; `regions` are the mappings, by address and length.
pub record Disk : Type 0 where
  pub fds : List ℕ
  pub next : ℕ
  pub written : ℕ → ℕ
  pub signals : ℕ
  pub regions : List (ℕ × ℕ)
  pub shown : ℕ → ℕ × ℕ

abbrev pub erase : ℕ → List ℕ → List ℕ
erase fd [] = []
erase fd (x ∷ xs) = if x == fd then xs else x ∷ erase fd xs

-- A call that a pending signal interrupts.
abbrev pub interruptible {ℓ} : {A : Type ℓ} → (Disk → Sys A × Disk) → Disk → Sys A × Disk
interruptible call d =
    if 0 == d.signals then call d else (failed eintr, record d { signals = d.signals - 1 })

abbrev pub write_call : ℕ → List ℕ → Disk → Sys ℕ × Disk
write_call offset src d = (
  done (min (length src) 4),
  record d { written = patch d.written offset (take (min (length src) 4) src) },
)

-- The bytes that reads return are given.
module _ (content : List ℕ) where
  abbrev pub read_call : ℕ → ℕ → Disk → Sys (List ℕ) × Disk
  read_call offset count d = (done (take (min count 4) (drop offset content)), d)

  abbrev pub disk_os : Os Disk
  disk_os = record {
    sys_open =
        λ path flags mode d. (done d.next, record d { fds = d.next ∷ d.fds; next = d.next + 1 });
    sys_close = λ fd d. record d { fds = erase fd d.fds };
    sys_blksszget = λ fd d. (failed 25, d);
    sys_statfs = λ path d. (done 4, d);
    sys_fstat = λ fd d. (done (length content), d);
    sys_pread = λ fd offset count. interruptible (read_call offset count);
    sys_pwrite = λ fd offset src. interruptible (write_call offset src);
    sys_fsync = λ fd d. (done tt, d);
    sys_fdatasync = λ fd d. (done tt, d);
  }

  pub disk-CountsFds : CountsFds disk_os (λ d. d.fds)
  disk-CountsFds = record {
    opens = λ path flags mode d fd e. ground arith;
    opens_not = λ path flags mode d code e. cc;
    closes = λ fd d rest e. rw e (ground arith);
    asks = λ fd d. refl;
    stats = λ path d. refl;
    sizes = λ fd d. refl;
  }

  pub disk-HasSize : HasSize disk_os (length content)
  disk-HasSize fd d n e = cc

  interruptible-Interrupts {ℓ} :
      {A : Type ℓ} (call : Disk → Sys A × Disk)
      → ((d : Disk) → (call d).1.signals ≡ d.signals)
      → ((d : Disk) → (call d).0 ≢ failed eintr)
      → Interrupts (λ d. d.signals) (interruptible call)
  interruptible-Interrupts call keeps never = record {
    grows_not = λ d. ground (arith, keeps d);
    interrupted = λ d e. ground (arith, keeps d, never d);
  }

  read_bytes :
      (offset count : ℕ) (d : Disk) (bytes : List ℕ)
      → (interruptible (read_call offset count) d).0 ≡ done bytes
      → bytes ≡ take (min count 4) (drop offset content)
  read_bytes offset count d bytes e = ground arith

  pub disk-ReadsFile : (fd : ℕ) → ReadsFile disk_os fd content (λ d. d.signals)
  disk-ReadsFile fd = record {
    signals =
        λ offset count. interruptible-Interrupts (read_call offset count) (λ d. refl) (λ d e. cc);
    reads = λ offset count d bytes e. rw (read_bytes offset count d bytes e) (
      take-length-take (min count 4) (drop offset content),
      omega (arith, length-take (min count 4) (drop offset content)),
    );
    ends = λ offset count d pos e. omega (
      arith,
      ap length (read_bytes offset count d [] e),
      length-take (min count 4) (drop offset content),
      length-drop offset content,
    );
  }

  pub disk-WritesFile : (fd : ℕ) → WritesFile disk_os fd (λ d. d.written) (λ d. d.signals)
  disk-WritesFile fd = record {
    signals =
        λ offset src. interruptible-Interrupts (write_call offset src) (λ d. refl) (λ d e. cc);
    writes = λ offset src d n e. ground arith;
    writes_not = λ offset src d code e. ground arith;
  }
