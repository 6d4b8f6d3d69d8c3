-- ===== src/File/Reading.antt =====
-- `File::pread` and `File::pread_exact`: what they leave in the buffer.
use forge_dsio.Prelude.{
  ℕ, zero, suc, ◌+◌, ◌-◌, ◌≤◌, ◌<◌, ◌≡◌, ◌≢◌, refl, ap, ◌∙◌, inl, inr, true, Option, some, ◌++◌, ok,
  err, arith, min, length, take, drop, length-take, length-drop, take-append-drop, length-append,
  nil_of_length, ◌==◌, ==_iff, take-append, drop-append, drop-drop, take-add, append_assoc, ltb,
  Bool-cases, ltb→lt, ltb→le,
}
use forge_dsio.Prelude.Words.{u64_mod, add_u64_fits}
use forge_dsio.Error.{Error, FileOp, file_error}
use forge_dsio.Os.{Os, Sys, done, failed, eintr}
use forge_dsio.Os.Retry.{retry-Returned}
use forge_dsio.Os.Contract.{ReadsFile}
use forge_dsio.File.{
  File, Bytes, Transfer, pread_result, pread, read_more, pread_exact_from, pread_exact,
}

-- `n` bytes of the file from the offset on, over the first `n` bytes of the buffer.
abbrev pub filled : Bytes → ℕ → Bytes → ℕ → Bytes
filled content offset dst n = take n (drop offset content) ++ drop n dst

pub length-filled :
    (content : Bytes) (offset : ℕ) (dst : Bytes) (n : ℕ)
    → n ≤ length dst
    → n ≤ length content - offset
    → length (filled content offset dst n) ≡ length dst
length-filled content offset dst n fits inside = omega (
  arith,
  length-append (take n (drop offset content)) (drop n dst),
  length-take n (drop offset content),
  length-drop offset content,
  length-drop n dst,
)

-- Reading `m` more bytes behind the first `n`.
filled-add :
    (content : Bytes) (offset : ℕ) (dst : Bytes) (n m : ℕ)
    → n ≤ length content - offset
    → take n (filled content offset dst n)
        ++ (take m (drop (offset + n) content) ++ drop m (drop n (filled content offset dst n)))
      ≡ filled content offset dst (n + m)
filled-add content offset dst n m inside = rw (
  take-append n (take n (drop offset content)) (drop n dst) exact,
  drop-append n (take n (drop offset content)) (drop n dst) exact,
  drop-drop n m dst,
  take-add n m (drop offset content),
  drop-drop offset n content,
  append_assoc,
)
  where
    exact : length (take n (drop offset content)) ≡ n
    exact = omega (arith, length-take n (drop offset content), length-drop offset content)

-- A regular file that is open under `f`, and more retries than signals.
module _ {W : Type 0} (os : Os W) (fd : ℕ) (content : Bytes) (pending : W → ℕ)
    (kernel : ReadsFile os fd content pending) (f : File) (is_open : f.fd ≡ some fd)
    (rounds : ℕ) where
  -- A failure of the system, as a value that carries its `errno`; never an interruption.
  abbrev pub Reported : FileOp → Error → Type 0
  Reported op e = (code : ℕ) × (e ≡ file_error op f.path code) × (code ≢ eintr)

  -- What one read at `at` into `span` does.
  abbrev Progress : ℕ → Bytes → Transfer os → Type 0
  Progress at span (err e, rest, w) = Reported FileOp.pread e × (rest ≡ span)
  Progress at span (ok got, rest, w) =
      (rest ≡ take got (drop at content) ++ drop got span)
      × (got ≤ length span)
      × (got ≤ length content - at)
      × (got ≡ 0 → length content ≤ at)

  pread_result-Progress :
      (at : ℕ) (span : Bytes) (w : W)
      → 0 < length span
      → (r : Sys Bytes) (v : W) → (os.sys_pread fd at (length span) w).0 ≡ r
      → r ≢ failed eintr
      → Progress at span (pread_result os f span (r, v))
  unfolding pread_result
  pread_result-Progress at span w pos (failed code) v e settled =
      ((code, refl, λ q. settled (ap failed q)), refl)
  pread_result-Progress at span w pos (done bytes) v e settled =
      let (from_file, short) = kernel.reads at (length span) w bytes e in
      (
        ap (λ b. b ++ drop (length bytes) span) from_file,
        short,
        omega (
          arith,
          ap length from_file,
          length-take (length bytes) (drop at content),
          length-drop at content,
        ),
        λ none_read.
            kernel.ends at (length span) w pos (e ∙ ap done (nil_of_length bytes none_read)),
      )

  pread_result-state :
      (span : Bytes) (r : Sys Bytes) (v : W) → (pread_result os f span (r, v)).2 ≡ v
  unfolding pread_result
  pread_result-state span (failed code) v = refl
  pread_result-state span (done bytes) v = refl

  pread-Progress :
      (at : ℕ) (span : Bytes) (w : W)
      → 0 < length span
      → pending w < rounds
      → (t : Transfer os) × (pread os rounds f at span w ≡ some t)
        × Progress at span t
        × (pending t.2 ≤ pending w)
  unfolding pread
  pread-Progress at span w pos more =
      let call = os.sys_pread fd at (length span) in
      let r = retry-Returned pending call (kernel.signals at (length span)) rounds w more in
      let calm = kernel.signals at (length span) in
      (
        pread_result os f span (call r.last),
        ground (arith, r.returns),
        pread_result-Progress at span r.last pos (call r.last).0 (call r.last).1 refl r.settled,
        omega (
          arith,
          r.pending-le,
          calm.grows_not r.last,
          ap pending (pread_result-state span (call r.last).0 (call r.last).1),
        ),
      )

  -- The end of the loop: the buffer holds the bytes of the file up to its end, or the prefix that was
  -- read before the failure that is reported.
  abbrev pub Complete : ℕ → Bytes → Transfer os → Type 0
  Complete offset dst (err e, buffer, w) =
      Reported FileOp.pread e
      × ((n : ℕ) × (n ≤ length dst)
          × (n ≤ length content - offset)
          × (buffer ≡ filled content offset dst n))
  Complete offset dst (ok total, buffer, w) =
      (total ≡ min (length dst) (length content - offset))
      × (buffer ≡ filled content offset dst total)

  read_more-Complete :
      (offset n : ℕ) (dst : Bytes) (next : ℕ → Bytes → W → Option (Transfer os)) (t : Transfer os)
      (w : W)
      → pending t.2 ≤ pending w
      → n < length dst
      → n ≤ length content - offset
      → Progress (offset + n) (drop n (filled content offset dst n)) t
      → ((got : ℕ)
          → 0 < got
          → n + got ≤ length dst
          → n + got ≤ length content - offset
          → (u : Transfer os) × (next (n + got) (filled content offset dst (n + got)) t.2 ≡ some u)
            × Complete offset dst u
            × (pending u.2 ≤ pending t.2))
      → (u : Transfer os) × (read_more os next (filled content offset dst n) n t ≡ some u)
        × Complete offset dst u
        × (pending u.2 ≤ pending w)
  unfolding read_more
  read_more-Complete offset n dst next (err e, rest, v) w calm below inside (why, same) more = (
    (err e, take n (filled content offset dst n) ++ rest, v),
    refl,
    (why, (n, omega arith, inside, ap (◌++◌ (take n old)) same ∙ take-append-drop n old)),
    calm,
  )
    where
      old : Bytes
      old = filled content offset dst n
  read_more-Complete offset n dst next (ok got, rest, v) w calm below inside
        (read, short, in_file, stop) more =
      elim (Bool-cases (got == 0)) [
        | inl none_read ↦
            rw none_read (
              (ok n, take n old ++ rest, v),
              refl,
              (at_end none_read, glued ∙ same none_read),
              calm,
            )
        | inr some_read ↦
            let (u, next_u, complete, calmer) = more got (ground arith) fits (omega arith) in
            rw (some_read, glued) (u, next_u, complete, omega (arith, calm, calmer))
      ]
    where
      old : Bytes
      old = filled content offset dst n

      glued : take n old ++ rest ≡ filled content offset dst (n + got)
      glued = ap (◌++◌ (take n old)) read ∙ filled-add content offset dst n got inside

      at_end : (got == 0) ≡ true → n ≡ min (length dst) (length content - offset)
      at_end e = omega (arith, stop ((==_iff got 0).0 e))

      same : (got == 0) ≡ true → filled content offset dst (n + got) ≡ filled content offset dst n
      same e = ap (filled content offset dst) (omega (arith, (==_iff got 0).0 e))

      fits : n + got ≤ length dst
      fits =
          omega (arith, length-drop n old, length-filled content offset dst n (omega arith) inside)

  pread_exact_from-Complete :
      (offset : ℕ) (dst : Bytes)
      → offset + length dst < u64_mod
      → (turns n : ℕ) (w : W) → n ≤ length dst
      → n ≤ length content - offset
      → length dst - n < turns
      → pending w < rounds
      → (t : Transfer os) × (pread_exact_from os rounds turns f offset n
            (filled content offset dst n)
            w
          ≡ some t)
        × Complete offset dst t
        × (pending t.2 ≤ pending w)
  unfolding pread_exact_from
  pread_exact_from-Complete offset dst word zero n w fits inside enough more = absurd (omega arith)
  pread_exact_from-Complete offset dst word (suc turns) n w fits inside enough more =
      elim (Bool-cases (ltb n (length old))) [
        | inl below ↦
            let n_lt : n < length dst = omega (arith, ltb→lt n (length old) below, size_kept) in
            let (t, read, progress, calm) =
              pread-Progress (offset + n) (drop n old) w
                (omega (arith, length-drop n old, size_kept)) more in
            rw (below, add_u64_fits offset n (omega arith), read)
              (read_more-Complete offset n dst _ t w calm n_lt inside progress
                λ got pos got_fits got_inside.
                  pread_exact_from-Complete offset dst word turns (n + got) t.2 got_fits got_inside
                    (omega arith) (omega arith))
        | inr full ↦ rw full (
          (ok n, old, w),
          refl,
          (omega (arith, ltb→le n (length old) full, size_kept), refl),
          omega arith,
        )
      ]
    where
      old : Bytes
      old = filled content offset dst n

      size_kept : length old ≡ length dst
      size_kept = length-filled content offset dst n fits inside

  pub pread_exact-Calm :
      (offset : ℕ) (dst : Bytes) (w : W)
      → offset + length dst < u64_mod
      → pending w < rounds
      → (t : Transfer os) × (pread_exact os rounds f offset dst w ≡ some t)
        × Complete offset dst t
        × (pending t.2 ≤ pending w)
  unfolding pread_exact
  pread_exact-Calm offset dst w word more =
      pread_exact_from-Complete offset dst word (suc (length dst)) 0 w (omega arith) (omega arith)
        (omega arith) more

  -- `pread_exact` on an open regular file, for an offset and a buffer within 64 bits, and with more
  -- retries than signals: it returns. On success it has read the whole buffer, or up to the end of
  -- the file; those bytes are the file's and the rest of the buffer is untouched. It fails only with
  -- an `errno` of the system that is not `EINTR`, after a correct prefix.
  pub pread_exact-Complete :
      (offset : ℕ) (dst : Bytes) (w : W)
      → offset + length dst < u64_mod
      → pending w < rounds
      → (t : Transfer os) × (pread_exact os rounds f offset dst w ≡ some t) × Complete offset dst t
  pread_exact-Complete offset dst w word more =
      let (t, returns, complete, calm) = pread_exact-Calm offset dst w word more in
      (t, returns, complete)
