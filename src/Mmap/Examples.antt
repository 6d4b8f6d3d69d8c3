-- ===== src/Mmap/Examples.antt =====
-- The theorems about mappings at concrete inputs, and tests.
use forge_dsio.Prelude.{
  ℕ, ◌+◌, ◌-◌, ◌%◌, ◌≤◌, ◌<◌, ◌≡◌, ◌≢◌, ◌⊎◌, refl, ◌==◌, if◌then◌else◌, false, List, [], ◌∷◌,
  length, ok, err, arith,
}
use forge_dsio.Error.{advise_past_end, advise_unaligned}
use forge_dsio.Os.{done}
use forge_dsio.Os.Disk.{Disk, disk_os, disk-CountsFds, disk-HasSize}
use forge_dsio.Mmap.{
  Maps, unmapped, normal, open_mmap, open_fd, check_window, map_window, move_assign, advise,
  advised, to_madvise,
}
use forge_dsio.Mmap.Laws.{
  CountsMaps, Mapped, open_mmap-Mapped, regions-move_assign, region, owned_regions,
}
use forge_dsio.Mmap.Advising.{IsExtent, advise_within}

abbrev erase_region : ℕ → List (ℕ × ℕ) → List (ℕ × ℕ)
erase_region address [] = []
erase_region address (r ∷ rs) = if r.0 == address then rs else r ∷ erase_region address rs

-- Mappings stand one behind the other from a megabyte on.
abbrev disk_maps : Maps Disk
disk_maps = record {
  sys_mmap = λ fd bytes offset d. (
    done (1048576 + length d.regions),
    record d {
      regions = (1048576 + length d.regions, bytes) ∷ d.regions;
      shown = λ a. if a == 1048576 + length d.regions then (fd, offset) else d.shown a;
    },
  );
  sys_munmap = λ address bytes d. record d { regions = erase_region address d.regions };
  sys_madvise = λ address bytes advice d. (done tt, d);
}

-- Nine bytes in pages of four.
abbrev text : List ℕ
text = 1 ∷ 2 ∷ 3 ∷ 4 ∷ 5 ∷ 6 ∷ 7 ∷ 8 ∷ 9 ∷ []

abbrev disk : Disk
disk = record {
  fds = 3 ∷ [];
  next = 4;
  written = λ p. 0;
  signals = 0;
  regions = (64, 8) ∷ (128, 4) ∷ [];
  shown = λ a. (0, 0);
}

disk-CountsMaps : CountsMaps (disk_os text) disk_maps (λ d. d.fds) (λ d. d.regions) (λ d. d.shown)
disk-CountsMaps = record {
  maps_one = λ fd bytes offset d address e. ground arith;
  maps_not = λ fd bytes offset d code e. cc;
  shows = λ fd bytes offset d address e. ground (arith, e);
  closes_shown = λ fd address d. refl;
  unmaps = λ address bytes d rest e. rw e (ground arith);
  keeps_fds = λ fd bytes offset d. refl;
  opens = λ path d. refl;
  stats = λ fd d. refl;
  closes = λ fd d. refl;
}

open_mmap-Mapped_example :
    Mapped
      (disk_os text)
      disk_maps
      (λ d. d.fds)
      (λ d. d.regions)
      (λ d. d.shown)
      (disk-CountsFds text)
      disk-CountsMaps
      9
      (disk-HasSize text)
      4
      4
      8
      0
      (3 ∷ [])
      ((64, 8) ∷ (128, 4) ∷ [])
      (open_mmap (disk_os text) disk_maps 4 [] 8 0 disk)
open_mmap-Mapped_example =
    open_mmap-Mapped (disk_os text) disk_maps (λ d. d.fds) (λ d. d.regions) (λ d. d.shown)
      (disk-CountsFds text) disk-CountsMaps 9 (disk-HasSize text) 4 [] 8 0 disk

-- One byte from 8 on.
tail_mapped : (open_mmap (disk_os text) disk_maps 4 [] 8 0 disk).0 ≡ ok (region 1048578 1)
unfolding open_mmap open_fd check_window map_window
tail_mapped = refl

regions-move_assign_example :
    let (this', other', w') = move_assign disk_maps false (region 64 8) (region 128 4) disk in
    (w'.regions ≡ owned_regions false this' other' [])
    × (this' ≡ region 128 4)
    × (other' ≡ unmapped)
regions-move_assign_example =
    regions-move_assign (disk_os text) disk_maps (λ d. d.fds) (λ d. d.regions) (λ d. d.shown)
      (disk-CountsFds text) disk-CountsMaps 9 (disk-HasSize text) 4 false (region 64 8)
      (region 128 4) disk [] refl

advise_within_example :
    ((n : ℕ) × (advise disk_maps 4 (region 64 8) normal 4 100 disk
        ≡ advised disk_maps (disk_maps.sys_madvise (64 + 4) n (to_madvise normal) disk))
      × (4 + n ≤ 8)
      × IsExtent (8 - 4) 100 n
      × (4 % 4 ≡ 0))
    ⊎ ((advise disk_maps 4 (region 64 8) normal 4 100 disk ≡ (err advise_past_end, disk)) × (8 < 4))
    ⊎ ((advise disk_maps 4 (region 64 8) normal 4 100 disk ≡ (err advise_unaligned, disk))
        × (4 % 4 ≢ 0))
advise_within_example = advise_within disk_maps 4 64 8 normal 4 100 disk (λ e. omega (arith, e))
