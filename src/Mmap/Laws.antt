-- ===== src/Mmap/Laws.antt =====
-- Mappings: what `open` maps, who unmaps it, and which ranges `advise` passes on.
use forge_dsio.Prelude.{
  ℕ, ◌+◌, ◌-◌, ◌%◌, ◌≤◌, ◌≡◌, ◌≢◌, refl, sym, ap, ◌∙◌, subst, ◌⊎◌, inl, inr, Option-cases,
  Bool-cases, ltb, ltb→le, ◌==◌, ◌!=◌, ==_iff, if◌then◌else◌, Bool, true, false, Option, none, some,
  List, [], ◌∷◌, ◌++◌, Outcome, ok, err, arith,
}
use forge_dsio.Error.{Text, Error, MmapOp, mmap_error, mmap_unaligned, mmap_past_end, mmap_window}
use forge_dsio.Os.{Os, Sys, Sys-cases, done, failed}
use forge_dsio.Os.Contract.{CountsFds, HasSize}
use forge_dsio.Mmap.{
  Maps, MmapFile, unmapped, unmap, move_assign, map_window, check_window, open_fd, open_mmap,
  mmap_flags,
}

-- mmap(2) adds a region, munmap(2) removes it, and the calls for files leave the regions as they are. A
-- region shows the file of a descriptor from an offset on: `shown` has both, by the address.
pub record CountsMaps {W : Type 0} (os : Os W) (maps : Maps W) (fds : W → List ℕ)
    (regions : W → List (ℕ × ℕ)) (shown : W → ℕ → ℕ × ℕ) : Type 0 where
  pub maps_one :
      (fd length offset : ℕ) (w : W) (address : ℕ)
      → (maps.sys_mmap fd length offset w).0 ≡ done address
      → regions (maps.sys_mmap fd length offset w).1 ≡ (address, length) ∷ regions w
  pub maps_not :
      (fd length offset : ℕ) (w : W) (code : ℕ)
      → (maps.sys_mmap fd length offset w).0 ≡ failed code
      → regions (maps.sys_mmap fd length offset w).1 ≡ regions w
  pub shows :
      (fd length offset : ℕ) (w : W) (address : ℕ)
      → (maps.sys_mmap fd length offset w).0 ≡ done address
      → shown (maps.sys_mmap fd length offset w).1 address ≡ (fd, offset)
  pub closes_shown : (fd address : ℕ) (w : W) → shown (os.sys_close fd w) address ≡ shown w address
  pub unmaps :
      (address length : ℕ) (w : W) (rest : List (ℕ × ℕ))
      → regions w ≡ (address, length) ∷ rest
      → regions (maps.sys_munmap address length w) ≡ rest
  pub keeps_fds : (fd length offset : ℕ) (w : W) → fds (maps.sys_mmap fd length offset w).1 ≡ fds w
  pub opens : (path : Text) (w : W) → regions (os.sys_open path mmap_flags 0 w).1 ≡ regions w
  pub stats : (fd : ℕ) (w : W) → regions (os.sys_fstat fd w).1 ≡ regions w
  pub closes : (fd : ℕ) (w : W) → regions (os.sys_close fd w) ≡ regions w

-- The region that a mapping has to unmap.
abbrev pub held_region : MmapFile → List (ℕ × ℕ)
held_region f = elim f.map [ none ↦ [] | some address ↦ (address, f.map_length) ∷ [] ]

-- The regions of two mappings, which are one object where `same` is true, and the others.
abbrev pub owned_regions : Bool → MmapFile → MmapFile → List (ℕ × ℕ) → List (ℕ × ℕ)
owned_regions true this other rest = held_region this ++ rest
owned_regions false this other rest = held_region this ++ (held_region other ++ rest)

-- A mapping of `length` bytes at an address.
abbrev pub region : ℕ → ℕ → MmapFile
region address length = record {
  map = some address;
  map_length = length;
  start = some address;
  size = length;
}

-- Nothing is mapped, and the size is 0; or one region that starts at the data and has the size.
abbrev pub IsMapping : MmapFile → Type 0
IsMapping f = (f ≡ unmapped) ⊎ ((address : ℕ) × (f ≡ region address f.size) × (f.size ≢ 0))

-- The descriptor that an `open` returned.
abbrev pub opened_fd : Sys ℕ → ℕ
opened_fd (done fd) = fd
opened_fd (failed code) = 0

module _ {W : Type 0} (os : Os W) (maps : Maps W) (fds : W → List ℕ) (regions : W → List (ℕ × ℕ))
    (shown : W → ℕ → ℕ × ℕ) (c : CountsFds os fds) (m : CountsMaps os maps fds regions shown)
    (total : ℕ) (sized : HasSize os total) (page : ℕ) where
  -- The window that was asked for, or all from the offset on where the extent is 0.
  abbrev pub wanted : ℕ → ℕ → ℕ
  wanted offset extent = if extent == 0 then total - offset else extent

  -- What is mapped is the file of this descriptor, from this offset on.
  abbrev pub IsShown : ℕ → ℕ → W → Option ℕ → Type 0
  IsShown fd offset w none = Unit
  IsShown fd offset w (some address) = shown w address ≡ (fd, offset)

  abbrev pub Mapped : ℕ → ℕ → ℕ → List ℕ → List (ℕ × ℕ) → Outcome Error MmapFile × W → Type 0
  Mapped fd offset extent fds0 regions0 (err e, w) = (fds w ≡ fds0) × (regions w ≡ regions0)
  Mapped fd offset extent fds0 regions0 (ok f, w) =
      (fds w ≡ fds0)
      × (regions w ≡ held_region f ++ regions0)
      × (f.size ≡ wanted offset extent)
      × (offset + f.size ≤ total)
      × (offset % page ≡ 0)
      × IsMapping f
      × IsShown fd offset w f.map

  map_window-Mapped :
      (path : Text) (fd offset extent window : ℕ) (w : W) (fds0 : List ℕ)
      → fds w ≡ fd ∷ fds0
      → window ≡ wanted offset extent
      → offset + window ≤ total
      → offset % page ≡ 0
      → Mapped fd offset extent fds0 (regions w) (map_window os maps path fd offset window w)
  unfolding map_window
  map_window-Mapped path fd offset extent window w fds0 has same inside aligned =
      elim (Bool-cases (window == 0)) [
        | inl nothing ↦
            let q : map_window os maps path fd offset window w ≡ (ok unmapped, os.sys_close fd w) =
              rw (map_window, nothing) refl in
            let zero_window : window ≡ 0 = (==_iff window 0).0 nothing in
            subst (Mapped fd offset extent fds0 (regions w)) (sym q) (
              c.closes fd w fds0 has,
              m.closes fd w,
              omega (arith, zero_window, same),
              omega (arith, zero_window, inside),
              aligned,
              inl refl,
              tt,
            )
        | inr something ↦ elim (Sys-cases (maps.sys_mmap fd window offset w).0) [
          | inr (code, fails) ↦
              let q : map_window os maps path fd offset window w
                  ≡ (err (mmap_error MmapOp.mmap_call path code), os.sys_close fd w1) =
                rw (map_window, something, fails) refl in
              subst (Mapped fd offset extent fds0 (regions w)) (sym q) (
                c.closes fd w1 fds0 (m.keeps_fds fd window offset w ∙ has),
                m.closes fd w1 ∙ m.maps_not fd window offset w code fails,
              )
          | inl (address, works) ↦
              let q : map_window os maps path fd offset window w ≡ (
                ok (record {
                  map = some address;
                  map_length = window;
                  start = some address;
                  size = window;
                }),
                os.sys_close fd w1,
              ) =
                rw (map_window, something, works) refl in
              subst (Mapped fd offset extent fds0 (regions w)) (sym q) (
                c.closes fd w1 fds0 (m.keeps_fds fd window offset w ∙ has),
                m.closes fd w1 ∙ m.maps_one fd window offset w address works,
                same,
                inside,
                aligned,
                inr (address, refl, λ e. ground arith),
                m.closes_shown fd address w1 ∙ m.shows fd window offset w address works,
              )
        ]
      ]
    where
      w1 : W
      w1 = (maps.sys_mmap fd window offset w).1

  check_window-Mapped :
      (path : Text) (fd offset extent n : ℕ) (w : W) (fds0 : List ℕ)
      → fds w ≡ fd ∷ fds0
      → n ≡ total
      → offset % page ≡ 0
      → Mapped fd offset extent fds0 (regions w) (check_window os maps path fd offset extent n w)
  unfolding check_window
  check_window-Mapped path fd offset extent n w fds0 has same aligned =
      elim (Bool-cases (ltb n offset)) [
        | inl past ↦
            let q : check_window os maps path fd offset extent n w
                ≡ (err (mmap_past_end path offset n), os.sys_close fd w) =
              rw (check_window, past) refl in
            subst (Mapped fd offset extent fds0 (regions w)) (sym q)
              (c.closes fd w fds0 has, m.closes fd w)
        | inr within ↦ elim (Bool-cases (ltb (n - offset) window)) [
          | inl too_long ↦
              let q : check_window os maps path fd offset extent n w
                  ≡ (err (mmap_window path window offset), os.sys_close fd w) =
                rw (check_window, within, too_long) refl in
              subst (Mapped fd offset extent fds0 (regions w)) (sym q)
                (c.closes fd w fds0 has, m.closes fd w)
          | inr fits ↦
              let q : check_window os maps path fd offset extent n w
                  ≡ map_window os maps path fd offset window w =
                rw (check_window, within, fits) refl in
              subst (Mapped fd offset extent fds0 (regions w)) (sym q) (
                map_window-Mapped path fd offset extent window w fds0 has
                  (ap (λ (k : ℕ). if extent == 0 then k - offset else extent) same)
                  (omega (arith, same, ltb→le n offset within, ltb→le (n - offset) window fits))
                  aligned)
        ]
      ]
    where
      window : ℕ
      window = if extent == 0 then n - offset else extent

  open_fd-Mapped :
      (path : Text) (fd offset extent : ℕ) (w : W) (fds0 : List ℕ)
      → fds w ≡ fd ∷ fds0
      → offset % page ≡ 0
      → Mapped fd offset extent fds0 (regions w) (open_fd os maps path fd offset extent w)
  unfolding open_fd
  open_fd-Mapped path fd offset extent w fds0 has aligned = elim (Sys-cases (os.sys_fstat fd w).0) [
    | inr (code, fails) ↦
        let q : open_fd os maps path fd offset extent w
            ≡ (err (mmap_error MmapOp.stat_call path code), os.sys_close fd w1) =
          rw (open_fd, fails) refl in
        subst (Mapped fd offset extent fds0 (regions w)) (sym q)
          (c.closes fd w1 fds0 has1, m.closes fd w1 ∙ m.stats fd w)
    | inl (n, reports) ↦
        let q : open_fd os maps path fd offset extent w
            ≡ check_window os maps path fd offset extent n w1 =
          rw (open_fd, reports) refl in
        subst (Mapped fd offset extent fds0 (regions w)) (sym q) (
          subst
            (λ (l : List (ℕ × ℕ)).
              Mapped fd offset extent fds0 l (check_window os maps path fd offset extent n w1))
            (m.stats fd w)
            (check_window-Mapped path fd offset extent n w1 fds0 has1 (sized fd w n reports)
              aligned))
  ]
    where
      w1 : W
      w1 = (os.sys_fstat fd w).1

      has1 : fds w1 ≡ fd ∷ fds0
      has1 = c.sizes fd w ∙ has

  -- `open` leaves the descriptors as they were, whatever its result. On success the window is the one
  -- that was asked for (all from the offset on, for a length of 0), it starts at a page and lies in
  -- the file; an empty window maps nothing, and any other one region of its size, which the mapping
  -- holds and which shows the file that was opened from the offset on. On failure nothing is mapped.
  pub open_mmap-Mapped :
      (path : Text) (offset extent : ℕ) (w : W)
      → Mapped
          (opened_fd (os.sys_open path mmap_flags 0 w).0)
          offset
          extent
          (fds w)
          (regions w)
          (open_mmap os maps page path offset extent w)
  unfolding open_mmap
  open_mmap-Mapped path offset extent w = elim (Bool-cases (offset % page != 0)) [
    | inl unaligned ↦
        let q : open_mmap os maps page path offset extent w
            ≡ (err (mmap_unaligned path offset), w) =
          rw (open_mmap, unaligned) refl in
        subst
          (Mapped (opened_fd (os.sys_open path mmap_flags 0 w).0) offset extent (fds w) (regions w))
          (sym q) (refl, refl)
    | inr aligned ↦ elim (Sys-cases (os.sys_open path mmap_flags 0 w).0) [
      | inr (code, fails) ↦
          let q : open_mmap os maps page path offset extent w
              ≡ (err (mmap_error MmapOp.open_call path code), w1) =
            rw (open_mmap, aligned, fails) refl in
          subst
            (Mapped (opened_fd (os.sys_open path mmap_flags 0 w).0) offset extent (fds w)
              (regions w))
            (sym q) (c.opens_not path mmap_flags 0 w code fails, m.opens path w)
      | inl (fd, opened) ↦
          let q : open_mmap os maps page path offset extent w
              ≡ open_fd os maps path fd offset extent w1 =
            rw (open_mmap, aligned, opened) refl in
          subst
            (Mapped (opened_fd (os.sys_open path mmap_flags 0 w).0) offset extent (fds w)
              (regions w))
            (sym q)
            (subst
              (λ (x : Sys ℕ).
                Mapped (opened_fd x) offset extent (fds w) (regions w)
                  (open_fd os maps path fd offset extent w1))
              (sym opened)
              (subst
                (λ (l : List (ℕ × ℕ)).
                  Mapped fd offset extent (fds w) l (open_fd os maps path fd offset extent w1))
                (m.opens path w)
                (open_fd-Mapped path fd offset extent w1 (fds w)
                  (c.opens path mmap_flags 0 w fd opened) (ground arith))))
    ]
  ]
    where
      w1 : W
      w1 = (os.sys_open path mmap_flags 0 w).1

  regions-unmap :
      (f : MmapFile) (w : W) (rest : List (ℕ × ℕ))
      → regions w ≡ held_region f ++ rest
      → regions (unmap maps f w).1 ≡ rest
  unfolding unmap
  regions-unmap f w rest e = elim (Option-cases f.map) [
    | inl nothing ↦ ground arith
    | inr (address, held) ↦ ground (arith, m.unmaps address f.map_length w rest)
  ]

  -- Move assignment unmaps what `this` held, takes over what `other` held and leaves `other` empty;
  -- assigning a mapping to itself (then `other` is `this`, and they hold one region) changes neither
  -- the mapping nor its region. Each region stays with one mapping.
  pub regions-move_assign :
      (same : Bool) (this other : MmapFile) (w : W) (rest : List (ℕ × ℕ))
      → regions w ≡ owned_regions same this other rest
      → let (this', other', w') = move_assign maps same this other w in
        (regions w' ≡ owned_regions same this' other' rest)
        × (this' ≡ (if same then this else other))
        × (other' ≡ (if same then other else unmapped))
  unfolding move_assign
  regions-move_assign true this other w rest e = (e, refl, refl)
  regions-move_assign false this other w rest e =
      (regions-unmap this w (held_region other ++ rest) e, refl, refl)
