-- ===== src/Sink/Laws.antt =====
-- `read_into`: what it leaves in the region of a sink.
use native.Mathlib.Nat.{mod-lt}
use forge_dsio.Prelude.{
  ℕ, ◌+◌, ◌-◌, ◌%◌, ◌≤◌, ◌<◌, ◌≡◌, refl, sym, ap, ◌∙◌, ◌⊎◌, inl, inr, ◌==◌, min, false, some, ◌++◌,
  append_assoc, length, take, drop, length-take, drop-take-drop, Outcome, ok, err, arith,
}
use forge_dsio.Prelude.Words.{u64_mod}
use forge_dsio.Error.{Error, FileOp}
use forge_dsio.Os.{Os}
use forge_dsio.Os.Contract.{ReadsFile}
use forge_dsio.File.{File, Bytes, Transfer}
use forge_dsio.File.Reading.{filled, Reported, Complete, pread_exact-Complete}
use forge_dsio.Sink.{
  SinkOps, host, host_sink, host_commit, Into, committed, after_read, read_aligned, read_into,
}

-- What a sink of host memory promises: the region is memory, and `commit` leaves it.
pub record SinkLaws {S : Type 0} (sink : SinkOps S) : Type 0 where
  pub region_put : (bytes : Bytes) (s : S) → sink.region (sink.put bytes s) ≡ bytes
  pub kind_host : (s : S) → sink.kind s ≡ host
  pub region_commit : (n : ℕ) (s : S) → sink.region (sink.commit n s).1 ≡ sink.region s

pub host_sink-SinkLaws : SinkLaws host_sink
unfolding host_sink host_commit
host_sink-SinkLaws = record {
  region_put = λ bytes s. refl;
  kind_host = λ s. refl;
  region_commit = λ n s. refl;
}

module _ {W S : Type 0} (os : Os W) (fd : ℕ) (content : Bytes) (pending : W → ℕ)
    (kernel : ReadsFile os fd content pending) (file : File) (is_open : file.fd ≡ some fd)
    (rounds : ℕ) (sink : SinkOps S) (laws : SinkLaws sink) where
  -- The region's largest aligned prefix.
  abbrev pub prefix : S → ℕ
  prefix s = length (sink.region s) - length (sink.region s) % file.alignment

  -- On success the file's bytes stand at the start of the region, and the rest of it is untouched: as
  -- many bytes as the prefix holds or the file has. On failure, of the read or of `commit`, the region
  -- holds a correct prefix.
  abbrev pub Landed : ℕ → S → Into os sink → Type 0
  Landed offset s (ok got, s', w) =
      (got ≡ min (prefix s) (length content - offset))
      × (sink.region s' ≡ filled content offset (sink.region s) got)
  Landed offset s (err e, s', w) =
      (n : ℕ) × (n ≤ prefix s)
      × (sink.region s' ≡ filled content offset (sink.region s) n)
      × (Reported os fd content pending kernel file is_open rounds FileOp.pread e
          ⊎ ((t : S) × ((sink.commit n t).0 ≡ err e)))

  length-prefix : (s : S) → length (take (prefix s) (sink.region s)) ≡ prefix s
  length-prefix s = omega (arith, length-take (prefix s) (sink.region s))

  filled-prefix :
      (offset : ℕ) (s : S) (bytes : Bytes) (n : ℕ)
      → n ≤ prefix s
      → bytes ≡ filled content offset (take (prefix s) (sink.region s)) n
      → sink.region (sink.put (bytes ++ drop (prefix s) (sink.region s)) s)
        ≡ filled content offset (sink.region s) n
  filled-prefix offset s bytes n short same =
      laws.region_put (bytes ++ drop (prefix s) (sink.region s)) s
      ∙ ap (λ (l : Bytes). l ++ drop (prefix s) (sink.region s)) same
      ∙ append_assoc (take n (drop offset content)) (drop n (take (prefix s) (sink.region s)))
          (drop (prefix s) (sink.region s))
      ∙ ap (λ (l : Bytes). take n (drop offset content) ++ l)
          (drop-take-drop n (prefix s) (sink.region s) short)

  committed-Landed :
      (offset : ℕ) (s before : S) (got : ℕ) (w : W) (r : Outcome Error (Unit {0}) × S)
      → sink.commit got before ≡ r
      → got ≡ min (prefix s) (length content - offset)
      → sink.region before ≡ filled content offset (sink.region s) got
      → Landed offset s (committed os sink got w r)
  committed-Landed offset s before got w (ok _, s') e all same = (
    all,
    sym (ap (λ (p : Outcome Error (Unit {0}) × S). sink.region p.1) e)
        ∙ laws.region_commit got before
        ∙ same,
  )
  committed-Landed offset s before got w (err x, s') e all same = (
    got,
    omega (arith, all),
    sym (ap (λ (p : Outcome Error (Unit {0}) × S). sink.region p.1) e)
        ∙ laws.region_commit got before
        ∙ same,
    inr (before, ap (λ (p : Outcome Error (Unit {0}) × S). p.0) e),
  )

  after_read-Landed :
      (offset : ℕ) (s : S) (t : Transfer os)
      → Complete os fd content pending kernel file is_open rounds offset
          (take (prefix s) (sink.region s))
          t
      → Landed offset s (after_read os sink (prefix s) s t)
  unfolding after_read
  after_read-Landed offset s (err e, bytes, w) (why, (n, short, inside, same)) =
      let fits : n ≤ prefix s = omega (arith, length-prefix s) in
      (n, fits, filled-prefix offset s bytes n fits same, inl why)
  after_read-Landed offset s (ok got, bytes, w) (all, same) =
      let total : got ≡ min (prefix s) (length content - offset) =
        omega (arith, all, length-prefix s) in
      committed-Landed offset s (sink.put (bytes ++ drop (prefix s) (sink.region s)) s) got w
        (sink.commit got (sink.put (bytes ++ drop (prefix s) (sink.region s)) s)) refl total
        (filled-prefix offset s bytes got (omega (arith, total)) same)

  -- `read_into` an ordinary sink whose region holds at least one aligned block, from a file with an
  -- alignment that is not 0, for an offset and a region within 64 bits and with more retries than
  -- signals: it returns. On success it has read the largest aligned prefix of the region, or up to
  -- the end of the file; the bytes at the start of the region are the file's and the rest is
  -- untouched. It fails only with an `errno` of the system or with the error of `commit`.
  pub read_into-Landed :
      (offset : ℕ) (s : S) (w : W)
      → 0 < file.alignment
      → file.alignment ≤ length (sink.region s)
      → offset + length (sink.region s) < u64_mod
      → pending w < rounds
      → (res : Into os sink) × (read_into os sink rounds file offset s w ≡ some res)
        × Landed offset s res
  unfolding read_into read_aligned
  read_into-Landed offset s w pos room word more =
      let (t, read, complete) =
        pread_exact-Complete os fd content pending kernel file is_open rounds offset
          (take (prefix s) (sink.region s)) w (omega (arith, length-prefix s)) more in
      rw (read_into, laws.kind_host s, nonzero, read_aligned, holds, read)
        (after_read os sink (prefix s) s t, refl, after_read-Landed offset s t complete)
    where
      nonzero : (file.alignment == 0) ≡ false
      nonzero = ground arith

      holds : (prefix s == 0) ≡ false
      holds = ground (arith, mod-lt (length (sink.region s)) pos)
