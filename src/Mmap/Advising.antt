-- ===== src/Mmap/Advising.antt =====
-- `MmapFile::advise`: which ranges it passes on.
use forge_dsio.Prelude.{
  ℕ, ◌+◌, ◌-◌, ◌%◌, ◌≤◌, ◌<◌, ◌≡◌, ◌≢◌, refl, ◌⊎◌, min, ==_iff, inl, inr, Bool-cases, ltb, ltb→lt,
  ltb→le, ◌==◌, ◌!=◌, false, err, arith,
}
use forge_dsio.Error.{advise_past_end, advise_unaligned}
use forge_dsio.Mmap.{Maps, Advice, advise, advised, to_madvise, clamp_length}
use forge_dsio.Mmap.Laws.{region}

-- The bytes of a request of this extent, for which so many are left: 0 asks for all of them.
abbrev pub IsExtent : ℕ → ℕ → ℕ → Type 0
IsExtent left extent n = ((extent ≡ 0) × (n ≡ left)) ⊎ ((extent ≢ 0) × (n ≡ min extent left))

-- The clamped length: what was asked for, or what is left.
clamp_length_lem :
    {W : Type 0} (maps : Maps W) (address length offset extent : ℕ)
    → offset ≤ length
    → let n = clamp_length maps (region address length) offset extent in
      (offset + n ≤ length) × IsExtent (length - offset) extent n
clamp_length_lem maps address length offset extent inside = elim (Bool-cases (extent == 0)) [
  | inl all ↦ rw all (omega arith, inl ((==_iff extent 0).0 all, refl))
  | inr some_bytes ↦ elim (Bool-cases (ltb (length - offset) extent)) [
    | inl clamped ↦
        rw (some_bytes, clamped)
          (omega arith, inr (λ e. ground (arith, e, some_bytes), ground (arith, clamped)))
    | inr fits ↦
        rw (some_bytes, fits)
          (ground (arith, fits), inr (λ e. ground (arith, e, some_bytes), ground (arith, fits)))
  ]
]

module _ {W : Type 0} (maps : Maps W) where
  -- `advise` on a mapped region that is not empty passes on a range that lies in it, starts at a page,
  -- and is as long as was asked for, or as what is left of the region where that is less or 0 was asked
  -- for. Otherwise it asks nothing of the system: the offset is past the end or in the middle of a page.
  pub advise_within :
      (page address length : ℕ) (advice : Advice) (offset extent : ℕ) (w : W)
      → length ≢ 0
      → ((n : ℕ) × (advise maps page (region address length) advice offset extent w
            ≡ advised maps (maps.sys_madvise (address + offset) n (to_madvise advice) w))
          × (offset + n ≤ length)
          × IsExtent (length - offset) extent n
          × (offset % page ≡ 0))
        ⊎ ((advise maps page (region address length) advice offset extent w
              ≡ (err advise_past_end, w))
            × (length < offset))
        ⊎ ((advise maps page (region address length) advice offset extent w
              ≡ (err advise_unaligned, w))
            × (offset % page ≢ 0))
  unfolding advise
  advise_within page address length advice offset extent w some_bytes =
      elim (Bool-cases (ltb length offset)) [
        | inl past ↦ inr (inl (rw (advise, full, past) refl, ltb→lt length offset past))
        | inr inside ↦ elim (Bool-cases (offset % page != 0)) [
          | inl unaligned ↦ inr (inr (rw (advise, full, inside, unaligned) refl, λ e. ground arith))
          | inr aligned ↦
              let clamped =
                clamp_length_lem maps address length offset extent (ltb→le length offset inside) in
              inl (
                clamp_length maps (region address length) offset extent,
                rw (advise, full, inside, aligned) refl,
                clamped.0,
                clamped.1,
                ground arith,
              )
        ]
      ]
    where
      full : (length == 0) ≡ false
      full = ground arith
