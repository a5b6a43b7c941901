-- ===== src/Pmm.antt =====
-- The physical memory manager, kernel01/kernel/memory/pmm.c: its state, the bitmap, and the
-- functions that allocate and free pages. `Pmm.Boot` has the start from the multiboot record.
-- The writes to the log are left out.
pub mod Bits
pub mod Count
pub mod Inv
pub mod Alloc
pub mod Range
pub mod Boot
pub mod Tests
use Prim.Native.Nat.{bit_and, bit_or}
use hnmos.Prelude.{
  ℕ, zero, suc, ◌+◌, ◌-◌, ◌*◌, ◌/◌, ◌%◌, ◌^◌, Bool, true, false, not, ◌||◌, Option, none, some, ltb,
  leb, ◌==◌, if◌then◌else◌, add32, sub32, mul32,
}

abbrev pub page_size : ℕ
page_size = 4096

abbrev pub max_tracked_memory : ℕ
max_tracked_memory = 1024 * 1024 * 1024

abbrev pub max_pages : ℕ
max_pages = max_tracked_memory / page_size

abbrev pub low_memory_limit : ℕ
low_memory_limit = 0x0010_0000

abbrev pub kernel_start : ℕ
kernel_start = 0x0010_0000

-- `struct hnm_pmm_stats`; the two flags are `int`s that hold 0 or 1.
pub record Stats : Type 0 where
  pub total_memory_kib : ℕ
  pub usable_memory_kib : ℕ
  pub reserved_memory_kib : ℕ
  pub total_pages : ℕ
  pub used_pages : ℕ
  pub free_pages : ℕ
  pub region_count : ℕ
  pub usable_region_count : ℕ
  pub reserved_region_count : ℕ
  pub mmap_available : Bool
  pub initialized : Bool

-- The static variables. The bitmap gives the byte at an index; no index past its
-- `max_pages / 8` bytes is reached, since every caller tests against `total_pages`.
pub record Pmm : Type 0 where
  pub bitmap : ℕ → ℕ
  pub stats : Stats
  pub next_search_page : ℕ

-- `& ~(HNM_PMM_PAGE_SIZE - 1)` clears the low 12 bits.
unfoldable pub align_down : ℕ → ℕ
align_down value = value / page_size * page_size

unfoldable pub align_up : ℕ → ℕ
unfolding align_down
align_up value = align_down (sub32 (add32 value page_size) 1)

unfoldable pub test_bit : ℕ → ℕ → Bool
test_bit byte k = not (bit_and byte (2 ^ k) == 0)

unfoldable pub set_bit : ℕ → ℕ → ℕ
set_bit byte k = bit_or byte (2 ^ k)

-- `(u8)~(1 << k)`
unfoldable pub clear_bit : ℕ → ℕ → ℕ
clear_bit byte k = bit_and byte (255 - 2 ^ k)

-- `hnm_pmm_bitmap`: the byte at each index.
abbrev pub Bitmap : Type 0
Bitmap = ℕ → ℕ

abbrev pub store : Bitmap → ℕ → ℕ → Bitmap
store bytes i v j = if i == j then v else bytes j

unfoldable pub page_is_used : Bitmap → ℕ → Bool
page_is_used bitmap page = test_bit (bitmap (page / 8)) (page % 8)

unfoldable pub set_page_used : Bitmap → ℕ → Bitmap
set_page_used bitmap page = store bitmap (page / 8) (set_bit (bitmap (page / 8)) (page % 8))

unfoldable pub set_page_free : Bitmap → ℕ → Bitmap
set_page_free bitmap page = store bitmap (page / 8) (clear_bit (bitmap (page / 8)) (page % 8))

unfoldable pub count_freed : Stats → Stats
count_freed s = record s { free_pages = add32 s.free_pages 1; used_pages = sub32 s.used_pages 1 }

unfoldable pub count_used : Stats → Stats
count_used s = record s { free_pages = sub32 s.free_pages 1; used_pages = add32 s.used_pages 1 }

unfoldable pub mark_page_free : Pmm → ℕ → Pmm
mark_page_free p page =
    if leb p.stats.total_pages page || not (page_is_used p.bitmap page)
    then p
    else record p { bitmap = set_page_free p.bitmap page; stats = count_freed p.stats }

unfoldable pub mark_page_used : Pmm → ℕ → Pmm
mark_page_used p page =
    if leb p.stats.total_pages page || page_is_used p.bitmap page
    then p
    else record p { bitmap = set_page_used p.bitmap page; stats = count_used p.stats }

-- `for (address = start; address < end; address += HNM_PMM_PAGE_SIZE)`, at most `fuel` rounds.
unfoldable pub free_pages_from : ℕ → ℕ → ℕ → Pmm → Pmm
free_pages_from zero address end p = p
free_pages_from (suc fuel) address end p =
    let rest =
      free_pages_from fuel (add32 address page_size) end (mark_page_free p (address / page_size)) in
    if ltb address end then rest else p

unfoldable pub use_pages_from : ℕ → ℕ → ℕ → Pmm → Pmm
use_pages_from zero address end p = p
use_pages_from (suc fuel) address end p =
    let rest =
      use_pages_from fuel (add32 address page_size) end (mark_page_used p (address / page_size)) in
    if ltb address end then rest else p

abbrev pub clip_end : ℕ → ℕ
clip_end end = if ltb max_tracked_memory end then max_tracked_memory else end

-- The end of the loop; `base + length < base` tests for a wrap.
abbrev pub free_end : ℕ → ℕ → ℕ
free_end base len =
    clip_end (if ltb (add32 base len) base then max_tracked_memory else align_down (add32 base len))

abbrev pub use_end : ℕ → ℕ → ℕ
use_end base len =
    clip_end (if ltb (add32 base len) base then max_tracked_memory else align_up (add32 base len))

-- `end` is at most `max_tracked_memory`, so `max_pages` rounds are enough.
unfoldable pub mark_range_free : Pmm → ℕ → ℕ → Pmm
mark_range_free p base len =
    if ltb len page_size then p else free_pages_from max_pages (align_up base) (free_end base len) p

unfoldable pub mark_range_used : Pmm → ℕ → ℕ → Pmm
mark_range_used p base len =
    if len == 0 then p else use_pages_from max_pages (align_down base) (use_end base len) p

-- The pages that the loop of `hnm_pmm_alloc_page` looks at, `left` of them, until one is free.
unfoldable pub find_free_page : Pmm → ℕ → ℕ → Option ℕ
find_free_page p zero scanned = none
find_free_page p (suc left) scanned =
    let page = add32 p.next_search_page scanned % p.stats.total_pages in
    let rest = find_free_page p left (scanned + 1) in
    if page_is_used p.bitmap page then rest else some page

abbrev pub take_page : Pmm → ℕ → ℕ × Pmm
take_page p page =
    (mul32 page page_size, record (mark_page_used p page) { next_search_page = add32 page 1 })

-- The address of a page, or the null pointer 0.
unfoldable pub alloc_page : Pmm → ℕ × Pmm
alloc_page p =
    if not p.stats.initialized || (p.stats.free_pages == 0)
    then (0, p)
    else elim (find_free_page p p.stats.total_pages 0) [
      | none ↦ (0, p)
      | some page ↦ take_page p page
    ]

unfoldable pub free_page : Pmm → ℕ → Pmm
free_page p address =
    if not p.stats.initialized || (address == 0) || not (address % page_size == 0)
    then p
    else mark_page_free p (address / page_size)
