-- ===== src/Reader/Opening.antt =====
-- `DirectReader::open`: the window that it opens, and the descriptors.
use mathlib.Core.Option.{some-injective}
use native.Mathlib.Nat.{zero-mod}
use forge_dsio.Prelude.{
  ℕ, ◌+◌, ◌-◌, ◌%◌, ◌≤◌, ◌<◌, ◌≡◌, refl, sym, ap, ◌∙◌, subst, inl, inr, Option-cases, Bool-cases,
  ltb, ltb→le, ◌==◌, ◌!=◌, min, none, some, List, ◌++◌, length, Outcome, ok, err, Outcome-cases,
  arith,
}
use forge_dsio.Prelude.Words.{u64_mod, add_u64, add_u64_fits}
use forge_dsio.Error.{Text, Error, reader_buffer, reader_misaligned}
use forge_dsio.Os.{Os, Sys-cases}
use forge_dsio.Os.Contract.{CountsFds, HasSize}
use forge_dsio.File.{File, Bytes, direct_read, open_file, size as file_size}
use forge_dsio.File.Ownership.{held_by, fds_held, fds-open_file}
use forge_dsio.Reader.{
  DirectReader, Alloc, give_up, open_window, open_whole, clamp_window, open_aligned, open_at,
}

-- The allocator returns a buffer of the size that is asked for.
abbrev pub Allocates : Alloc → Type 0
Allocates alloc =
    (bytes align : ℕ) (buffer : Bytes) → alloc bytes align ≡ ok buffer → length buffer ≡ bytes

module _ {W : Type 0} (os : Os W) (fds : W → List ℕ) (c : CountsFds os fds) (total : ℕ)
    (sized : HasSize os total) (fits : total < u64_mod) (alloc : Alloc)
    (allocates : Allocates alloc) where
  -- A reader of the window from the offset on, clamped to the file, that holds its descriptor; or an
  -- error, and no descriptor is left open.
  abbrev pub Opened : ℕ → ℕ → List ℕ → Outcome Error DirectReader × W → Type 0
  Opened offset extent rest (err e, w) = fds w ≡ rest
  Opened offset extent rest (ok r, w) =
      (fds w ≡ held_by r.file ++ rest)
      × (r.start ≡ offset)
      × (r.position ≡ offset)
      × (offset ≤ total)
      × (r.end ≡ offset + min extent (total - offset))
      × (length r.buffer ≡ r.file.alignment)
      × (offset % r.file.alignment ≡ 0)

  open_window-made :
      (file : File) (offset window : ℕ) (w : W) (buffer : Bytes)
      → alloc file.alignment file.alignment ≡ ok buffer
      → open_window os alloc file offset window w ≡ (
        ok (record {
          file = file;
          buffer = buffer;
          start = offset;
          end = add_u64 offset window;
          position = offset;
        }),
        w,
      )
  unfolding open_window
  open_window-made file offset window w buffer made = rw (open_window, made) refl

  open_window-Opened :
      (file : File) (offset extent window : ℕ) (w : W) (rest : List ℕ)
      → fds w ≡ held_by file ++ rest
      → offset ≤ total
      → window ≡ min extent (total - offset)
      → offset % file.alignment ≡ 0
      → Opened offset extent rest (open_window os alloc file offset window w)
  unfolding open_window
  open_window-Opened file offset extent window w rest e inside clamped aligned =
      elim (Outcome-cases (alloc file.alignment file.alignment)) [
        | inr (x, fails) ↦
            let stops : open_window os alloc file offset window w
                ≡ give_up os alloc file w (reader_buffer x) =
              rw (open_window, fails) refl in
            subst (Opened offset extent rest) (sym stops) (fds_held os fds c file w rest e)
        | inl (buffer, made) ↦
            subst (Opened offset extent rest)
              (sym (open_window-made file offset window w buffer made))
              (
                e,
                refl,
                refl,
                inside,
                add_u64_fits offset window (omega arith) ∙ ap (λ k. offset + k) clamped,
                allocates file.alignment file.alignment buffer made,
                aligned,
              )
      ]

  clamp_window-Opened :
      (file : File) (offset extent n : ℕ) (w : W) (rest : List ℕ)
      → fds w ≡ held_by file ++ rest
      → n ≡ total
      → offset % file.alignment ≡ 0
      → Opened offset extent rest (clamp_window os alloc file offset extent n w)
  unfolding clamp_window
  clamp_window-Opened file offset extent n w rest e same aligned =
      elim (Bool-cases (ltb n offset)) [
        | inl past ↦ rw past (fds_held os fds c file w rest e)
        | inr inside ↦ rw inside (
            open_window-Opened file offset extent _ w rest e (omega (arith, ltb→le n offset inside))
              (ground arith) aligned)
      ]

  -- `size` leaves the descriptors, and reports the size.
  fds-file_size : (file : File) (w : W) → fds (file_size os file w).1 ≡ fds w
  unfolding file_size
  fds-file_size file w = elim (Option-cases file.fd) [
    | inl closed ↦ rw closed refl
    | inr (fd, held_fd) ↦ elim (Sys-cases (os.sys_fstat fd w).0) [
      | inl (n, e) ↦ ground (arith, c.sizes fd w)
      | inr (code, e) ↦ ground (arith, c.sizes fd w)
    ]
  ]

  file_size-HasSize : (file : File) (w : W) (n : ℕ) → (file_size os file w).0 ≡ ok n → n ≡ total
  unfolding file_size
  file_size-HasSize file w n e = elim (Option-cases file.fd) [
    | inl closed ↦ ground arith
    | inr (fd, held_fd) ↦ elim (Sys-cases (os.sys_fstat fd w).0) [
      | inl (m, f) ↦ ground (arith, sized fd w m f)
      | inr (code, f) ↦ ground arith
    ]
  ]

  open_aligned-Opened :
      (file : File) (offset extent : ℕ) (w : W) (rest : List ℕ)
      → fds w ≡ held_by file ++ rest
      → offset % file.alignment ≡ 0
      → Opened offset extent rest (open_aligned os alloc file offset extent w)
  unfolding open_aligned
  open_aligned-Opened file offset extent w rest e aligned =
      elim (Outcome-cases (file_size os file w).0) [
        | inr (x, fails) ↦
            let stops : open_aligned os alloc file offset extent w
                ≡ give_up os alloc file (file_size os file w).1 x =
              rw (open_aligned, fails) refl in
            subst (Opened offset extent rest) (sym stops)
              (fds_held os fds c file (file_size os file w).1 rest (fds-file_size file w ∙ e))
        | inl (n, reports) ↦
            let goes_on : open_aligned os alloc file offset extent w
                ≡ clamp_window os alloc file offset extent n (file_size os file w).1 =
              rw (open_aligned, reports) refl in
            subst (Opened offset extent rest) (sym goes_on) (
              clamp_window-Opened file offset extent n (file_size os file w).1 rest
                (fds-file_size file w ∙ e) (file_size-HasSize file w n reports) aligned)
      ]

  -- `open` of a window, for a file whose size is below `2 ^ 64` and is what the system reports. On
  -- success the reader holds its descriptor and stands at the offset, a multiple of the alignment and
  -- not past the end of the file; its window ends where it was asked to, or at the end of the file;
  -- its buffer is one block. On failure no descriptor is left open. (With an alignment of 0 the code
  -- divides by it, and there is no result.)
  pub open_at-Opened :
      (path : Text) (offset extent : ℕ) (w : W) (res : Outcome Error DirectReader × W)
      → open_at os alloc path offset extent w ≡ some res
      → Opened offset extent (fds w) res
  unfolding open_at
  open_at-Opened path offset extent w res e =
      elim (Outcome-cases (open_file os path direct_read w).0) [
        | inr (x, fails) ↦
            let stops : open_at os alloc path offset extent w ≡ some (err x, w1) =
              rw (open_at, fails) refl in
            subst (Opened offset extent (fds w)) (some-injective _ _ (sym stops ∙ e))
              (fds-open_file os fds c path direct_read w ∙ rw fails refl)
        | inl (file, opens) ↦
            let has : fds w1 ≡ held_by file ++ fds w =
              fds-open_file os fds c path direct_read w ∙ rw opens refl in
            elim (Bool-cases (file.alignment == 0)) [
              | inl no_alignment ↦
                  let stops : open_at os alloc path offset extent w ≡ none =
                    rw (open_at, opens, no_alignment) refl in
                  cc
              | inr some_alignment ↦ elim (Bool-cases (offset % file.alignment != 0)) [
                | inl misaligned ↦
                    let stops : open_at os alloc path offset extent w
                        ≡ some
                            (give_up os alloc file w1 (reader_misaligned offset file.alignment)) =
                      rw (open_at, opens, some_alignment, misaligned) refl in
                    subst (Opened offset extent (fds w)) (some-injective _ _ (sym stops ∙ e))
                      (fds_held os fds c file w1 (fds w) has)
                | inr aligned ↦
                    let goes_on : open_at os alloc path offset extent w
                        ≡ some (open_aligned os alloc file offset extent w1) =
                      rw (open_at, opens, some_alignment, aligned) refl in
                    subst (Opened offset extent (fds w)) (some-injective _ _ (sym goes_on ∙ e))
                      (open_aligned-Opened file offset extent w1 (fds w) has (ground arith))
              ]
            ]
      ]
    where
      w1 : W
      w1 = (open_file os path direct_read w).1

  -- `open` of a whole file, likewise: the window is the file, from 0 to its size.
  pub open_whole-Opened :
      (path : Text) (w : W) → Opened 0 total (fds w) (open_whole os alloc path w)
  unfolding open_whole
  open_whole-Opened path w = elim (Outcome-cases (open_file os path direct_read w).0) [
    | inr (x, fails) ↦
        let stops : open_whole os alloc path w ≡ (err x, w1) = rw (open_whole, fails) refl in
        subst (Opened 0 total (fds w)) (sym stops)
          (fds-open_file os fds c path direct_read w ∙ rw fails refl)
    | inl (file, opens) ↦
        let has : fds w1 ≡ held_by file ++ fds w =
          fds-open_file os fds c path direct_read w ∙ rw opens refl in
        elim (Outcome-cases (file_size os file w1).0) [
          | inr (x, fails) ↦
              let stops : open_whole os alloc path w
                  ≡ give_up os alloc file (file_size os file w1).1 x =
                rw (open_whole, opens, fails) refl in
              subst (Opened 0 total (fds w)) (sym stops) (
                fds_held os fds c file (file_size os file w1).1 (fds w)
                  (fds-file_size file w1 ∙ has))
          | inl (n, reports) ↦
              let goes_on : open_whole os alloc path w
                  ≡ open_window os alloc file 0 n (file_size os file w1).1 =
                rw (open_whole, opens, reports) refl in
              subst (Opened 0 total (fds w)) (sym goes_on) (
                open_window-Opened file 0 total n (file_size os file w1).1 (fds w)
                  (fds-file_size file w1 ∙ has) (omega arith)
                  (omega (arith, file_size-HasSize file w1 n reports)) (zero-mod file.alignment))
        ]
  ]
    where
      w1 : W
      w1 = (open_file os path direct_read w).1
