-- ===== src/Pmm/Tests.antt =====
-- The page manager on eight pages, of which page 0 is in use, and a start from a memory map with one
-- usable region.
use hnmos.Prelude.{
  ℕ, ◌+◌, ◌*◌, ◌<◌, ◌≡◌, ◌↔◌, refl, true, false, not, ◌&&◌, some, [], ◌∷◌, arith, ltb, leb, ◌==◌,
  if◌then◌else◌,
}
use hnmos.Pmm.{Pmm, page_size, page_is_used, test_bit, alloc_page, free_page, mark_range_free}
use hnmos.Pmm.Inv.{IsValid}
use hnmos.Pmm.Bits.{IsByte}
use hnmos.Pmm.Alloc.{Allocated, alloc_page_total, alloc_page-null_iff, free_page-alloc_page}
use hnmos.Pmm.Range.{mark_range_free_lem, mark_range_free_wraps}
use hnmos.Pmm.Boot.{MultibootInfo, MmapEntry, init}
use hnmos.Pmm.Boot.Entries.{covered, entries}
use hnmos.Pmm.Boot.Reserve.{reserved}
use hnmos.Pmm.Boot.Start.{init_lem, init_total}

abbrev pub bytes : ℕ → ℕ
bytes i = if i == 0 then 1 else 255

abbrev pub small : Pmm
small = record {
  bitmap = bytes;
  stats = record {
    total_memory_kib = 32;
    usable_memory_kib = 28;
    reserved_memory_kib = 4;
    total_pages = 8;
    used_pages = 1;
    free_pages = 7;
    region_count = 1;
    usable_region_count = 1;
    reserved_region_count = 0;
    mmap_available = true;
    initialized = true;
  };
  next_search_page = 0;
}

bytes-IsByte : IsByte bytes
bytes-IsByte i = ground arith

pub small-IsValid : IsValid small
unfolding page_is_used test_bit
small-IsValid = record {
  bytes = bytes-IsByte;
  tracked = omega arith;
  counted = refl;
  complement = refl;
  search_in = omega arith;
}

pub small-zero_used : page_is_used small.bitmap 0 ≡ true
unfolding page_is_used test_bit
small-zero_used = refl

alloc_page_total_example : (page : ℕ) × Allocated small page (alloc_page small)
alloc_page_total_example = alloc_page_total small small-IsValid refl (omega arith)

alloc_page-null_iff_example :
    ((alloc_page small).0 ≡ 0) ↔ ((j : ℕ) → j < 8 → page_is_used small.bitmap j ≡ true)
alloc_page-null_iff_example = alloc_page-null_iff small small-IsValid refl small-zero_used

free_page-alloc_page_example :
    ((j : ℕ)
      → page_is_used (free_page (alloc_page small).1 (alloc_page small).0).bitmap j
        ≡ page_is_used small.bitmap j)
    × ((free_page (alloc_page small).1 (alloc_page small).0).stats.free_pages ≡ 7)
    × ((free_page (alloc_page small).1 (alloc_page small).0).stats.used_pages ≡ 1)
    × IsValid (free_page (alloc_page small).1 (alloc_page small).0)
free_page-alloc_page_example =
    free_page-alloc_page small small-IsValid refl small-zero_used (omega arith)

-- From the middle of page 1 to the middle of page 4: the pages 2 and 3.
mark_range_free_example :
    (page_is_used (mark_range_free small 6144 12288).bitmap 2 ≡ (
      if leb 6144 (2 * page_size) && leb (2 * page_size + page_size) (6144 + 12288) && ltb 2 8
      then false
      else page_is_used small.bitmap 2))
    × IsValid (mark_range_free small 6144 12288)
mark_range_free_example = mark_range_free_lem small 6144 12288 2 small-IsValid (omega arith)

mark_range_free_wraps_example :
    page_is_used (mark_range_free small 4294963201 4096).bitmap 0 ≡ false
mark_range_free_wraps_example =
    mark_range_free_wraps small 4294963201 4096 0 small-IsValid (omega arith) (omega arith)
      (omega arith) (omega arith) (omega arith)

-- One usable region of 16 MiB from 0 on.
abbrev region : MmapEntry
region = record {
  size = 20;
  base_addr_low = 0;
  base_addr_high = 0;
  length_low = 16777216;
  length_high = 0;
  kind = 1;
}

abbrev info : MultibootInfo
info = record {
  flags = 65;
  mem_lower = 640;
  mem_upper = 15360;
  mmap_length = 24;
  mmap_addr = 36864;
}

init_example :
    (q : Pmm) × (init 1310720 (λ a. region) (λ a. info) 32768 small ≡ some q)
    × IsValid q
    × (q.stats.initialized ≡ true)
    × ((j : ℕ)
        → j < q.stats.total_pages
        → page_is_used q.bitmap j
          ≡ (if reserved 1310720 32768 j then true else not (covered (region ∷ []) j)))
unfolding entries
init_example =
    init_lem 1310720 (λ a. region) (λ a. info) 32768 small (region ∷ []) bytes-IsByte
      (record {
        present = λ e. ground arith;
        flagged = refl;
        placed = λ e. ground arith;
        non_empty = λ e. ground arith;
      })
      refl ((λ k b. omega arith), tt) (omega arith) (omega arith) (omega arith)

init_total_example :
    (q : Pmm) × (init 1310720 (λ a. region) (λ a. info) 32768 small ≡ some q)
    × IsValid q
    × (q.stats.initialized ≡ true)
init_total_example =
    init_total 1310720 (λ a. region) (λ a. info) 32768 small bytes-IsByte
      (λ given offset met h. omega arith)
