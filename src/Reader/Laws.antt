-- ===== src/Reader/Laws.antt =====
-- `DirectReader::next_chunk`: each chunk, and what all of them make up.
use forge_dsio.Prelude.{
  ℕ, ◌+◌, ◌-◌, ◌≤◌, ◌<◌, ◌≡◌, refl, sym, ap, ◌∙◌, inl, inr, some, [], ok, err, arith, min, length,
  take, drop, length-take, length-drop, ◌==◌, ==_iff, take-append_le, take-take, take-min, take-nil,
  drop-all, ltb, Bool-cases, ltb→lt, ltb→le,
}
use forge_dsio.Prelude.Words.{u64_mod, add_u64, sub_u64, add_u64_fits, sub_u64_fits}
use forge_dsio.Error.{FileOp}
use forge_dsio.Os.{Os}
use forge_dsio.Os.Contract.{ReadsFile}
use forge_dsio.File.{File, Bytes, Transfer, pread_exact}
use forge_dsio.File.Reading.{length-filled, Reported, Complete, pread_exact-Calm}
use forge_dsio.Reader.{DirectReader, Read, trim, next_chunk, no_chunk}

-- The bytes of a window of the file, as far as the file has them.
abbrev pub window : Bytes → ℕ → ℕ → Bytes
window content from to = take (to - from) (drop from content)

past_end : (content : Bytes) (from to n : ℕ) → to ≤ from → take n (window content from to) ≡ []
past_end content from to n h =
    ap (λ (k : ℕ). take n (take k (drop from content))) (let e : to - from ≡ 0 = omega arith in e)
    ∙ take-nil n

file_ends :
    (content : Bytes) (from to n : ℕ) → length content ≤ from → take n (window content from to) ≡ []
file_ends content from to n h =
    ap (λ (l : Bytes). take n (take (to - from) l)) (drop-all from content h)
    ∙ ap (take n) (take-nil (to - from))
    ∙ take-nil n

-- A regular file that is open under `file`, and a reader of it within 64 bits.
module _ {W : Type 0} (os : Os W) (fd : ℕ) (content : Bytes) (pending : W → ℕ)
    (kernel : ReadsFile os fd content pending) (file : File) (is_open : file.fd ≡ some fd)
    (rounds : ℕ) (block : ℕ) where
  pub record IsReader (r : DirectReader) : Type 0 where
    pub reads : r.file ≡ file
    pub block_long : length r.buffer ≡ block
    pub block_pos : 0 < block
    pub ordered : r.position ≤ r.end
    pub fits : r.end + block < u64_mod

  -- A chunk: the next block of the window, shorter only at its end; the reader stands behind it.
  abbrev pub Step : DirectReader → Read os → Type 0
  Step r (err e, r', w) =
      Reported os fd content pending kernel file is_open rounds FileOp.pread e
      × (r'.position ≡ r.position)
      × (r'.end ≡ r.end)
      × IsReader r'
  Step r (ok c, r', w) =
      (c.offset ≡ r.position)
      × (c.bytes ≡ take block (window content r.position r.end))
      × (r'.position ≡ r.position + length c.bytes)
      × (r'.end ≡ r.end)
      × IsReader r'

  trim-Step :
      (r : DirectReader)
      → IsReader r
      → r.position < r.end
      → (t : Transfer os)
      → Complete os fd content pending kernel file is_open rounds r.position r.buffer t
      → Step r (trim os r t)
  unfolding trim
  trim-Step r h below (err e, buffer, w) (why, (n, short, inside, same)) = (
    why,
    refl,
    refl,
    record {
      reads = h.reads;
      block_long =
          ap length same ∙ length-filled content r.position r.buffer n short inside ∙ h.block_long;
      block_pos = h.block_pos;
      ordered = h.ordered;
      fits = h.fits;
    },
  )
  trim-Step r h below (ok got, buffer, w) (all, same) = elim (Bool-cases (got == 0)) [
    | inl none_read ↦ rw none_read (
      refl,
      sym (
          file_ends content r.position r.end block
            (omega (arith, all, h.block_long, h.block_pos, (==_iff got 0).0 none_read))),
      omega arith,
      refl,
      kept,
    )
    | inr some_read ↦
        rw (some_read, left, moved)
          (
            refl,
            chunk,
            ap (λ k. r.position + k) (sym chunk_long),
            refl,
            record {
              reads = h.reads;
              block_long = kept.block_long;
              block_pos = h.block_pos;
              ordered = omega arith;
              fits = h.fits;
            },
          )
  ]
    where
      full : length buffer ≡ block
      full =
          ap length same
          ∙ length-filled content r.position r.buffer got (omega (arith, all)) (omega (arith, all))
          ∙ h.block_long

      kept : IsReader (record r { buffer = buffer })
      kept = record {
        reads = h.reads;
        block_long = full;
        block_pos = h.block_pos;
        ordered = h.ordered;
        fits = h.fits;
      }

      left : sub_u64 r.end r.position ≡ r.end - r.position
      left = sub_u64_fits r.end r.position (omega arith) (omega (arith, h.fits))

      moved :
          add_u64 r.position (min got (r.end - r.position))
          ≡ r.position + min got (r.end - r.position)
      moved = add_u64_fits r.position (min got (r.end - r.position)) (omega (arith, h.fits))

      chunk :
          take (min got (r.end - r.position)) buffer ≡ take block (window content r.position r.end)
      chunk =
          ap (take (min got (r.end - r.position))) same
          ∙ take-append_le (min got (r.end - r.position)) (take got (drop r.position content))
              (drop got r.buffer)
              (omega (
                arith,
                all,
                length-take got (drop r.position content),
                length-drop r.position content,
              ))
          ∙ take-take (min got (r.end - r.position)) got (drop r.position content)
          ∙ take-min (min (min got (r.end - r.position)) got) (min block (r.end - r.position))
              (drop r.position content)
              (omega (arith, all, h.block_long, length-drop r.position content))
          ∙ sym (take-take block (r.end - r.position) (drop r.position content))

      chunk_long :
          length (take (min got (r.end - r.position)) buffer) ≡ min got (r.end - r.position)
      chunk_long =
          omega (arith, all, full, h.block_long, length-take (min got (r.end - r.position)) buffer)

  trim-state : (r : DirectReader) (t : Transfer os) → (trim os r t).2 ≡ t.2
  unfolding trim
  trim-state r (err e, buffer, w) = refl
  trim-state r (ok got, buffer, w) = elim (Bool-cases (got == 0)) [
    | inl e ↦ rw e refl
    | inr e ↦ rw e refl
  ]

  -- `next_chunk` returns. On success the chunk is the next block of the window, as far as the window
  -- and the file have bytes, at the position of the reader, which moves behind it. On failure,
  -- with an `errno` of the system, the position stays.
  pub next_chunk-Step :
      (r : DirectReader) (w : W)
      → IsReader r
      → pending w < rounds
      → (t : Read os) × (next_chunk os rounds r w ≡ some t) × Step r t × (pending t.2 ≤ pending w)
  unfolding next_chunk
  next_chunk-Step r w h more = elim (Bool-cases (ltb r.position r.end)) [
    | inl below ↦
        let (t, read, complete, calm) =
          pread_exact-Calm os fd content pending kernel file is_open rounds r.position r.buffer w
            (omega (arith, h.fits, h.block_long, h.ordered)) more in
        let same_read : pread_exact os rounds r.file r.position r.buffer w ≡ some t =
          ap (λ (f : File). pread_exact os rounds f r.position r.buffer w) h.reads ∙ read in
        rw (below, same_read)
          (
            trim os r t,
            refl,
            trim-Step r h (ltb→lt r.position r.end below) t complete,
            omega (arith, calm, ap pending (trim-state r t)),
          )
    | inr done_all ↦ rw done_all (
      (no_chunk os r, r, w),
      refl,
      (
        refl,
        sym (
            past_end content r.position r.end block
              (omega (arith, ltb→le r.position r.end done_all))),
        omega arith,
        refl,
        h,
      ),
      omega arith,
    )
  ]
