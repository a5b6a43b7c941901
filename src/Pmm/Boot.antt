-- ===== src/Pmm/Boot.antt =====
-- The start of the page manager, `hnm_pmm_init`: the free memory is read from the multiboot record,
-- and the pages of the kernel are reserved. What the boot loader left in memory (the record and the
-- entries of its memory map) and the linker's symbol `kernel_end` are parameters.
pub mod Entries
pub mod Reserve
pub mod Start
use hnmos.Prelude.{
  ℕ, zero, suc, ◌+◌, ◌-◌, ◌*◌, ◌/◌, ◌%◌, Bool, true, false, not, ◌&&◌, ◌||◌, Option, none, some,
  ltb, leb, ◌==◌, if◌then◌else◌, add32, sub32, mul32, u32_max,
}
use mathlib.Core.Option
use hnmos.Pmm.{
  Pmm, Stats, Bitmap, page_size, max_tracked_memory, max_pages, low_memory_limit, kernel_start,
  align_up, mark_range_free, mark_range_used,
}

-- `struct hnm_multiboot_info`, the fields that are read.
pub record MultibootInfo : Type 0 where
  pub flags : ℕ
  pub mem_lower : ℕ
  pub mem_upper : ℕ
  pub mmap_length : ℕ
  pub mmap_addr : ℕ

-- `struct hnm_multiboot_mmap_entry`
pub record MmapEntry : Type 0 where
  pub size : ℕ
  pub base_addr_low : ℕ
  pub base_addr_high : ℕ
  pub length_low : ℕ
  pub length_high : ℕ
  pub kind : ℕ

abbrev pub memory_available : ℕ
memory_available = 1

abbrev pub bitmap_bytes : ℕ
bitmap_bytes = max_pages / 8

-- `flags & HNM_MULTIBOOT_INFO_MEMORY`, bit 0, and `flags & HNM_MULTIBOOT_INFO_MMAP`, bit 6.
abbrev pub has_memory : MultibootInfo → Bool
has_memory info = info.flags % 2 == 1

abbrev pub has_mmap : MultibootInfo → Bool
has_mmap info = info.flags / 64 % 2 == 1

unfoldable pub clip_length_to_kib : ℕ → ℕ → ℕ
clip_length_to_kib length_low length_high =
    if not (length_high == 0) then u32_max else length_low / 1024

unfoldable pub add_kib : ℕ → ℕ → ℕ
add_kib target amount = if ltb (u32_max - target) amount then u32_max else add32 target amount

unfoldable pub prepare_bitmap : Pmm → ℕ → Pmm
prepare_bitmap p highest_address =
    let clipped =
      if ltb max_tracked_memory highest_address then max_tracked_memory else highest_address in
    let pages = align_up clipped / page_size in
    let total = if ltb max_pages pages then max_pages else pages in
    record p {
      bitmap = λ i. if ltb i bitmap_bytes then 0xff else p.bitmap i;
      stats = record (p.stats) { total_pages = total; used_pages = total; free_pages = 0 };
    }

-- The end of a region, as the search for the highest address takes it.
abbrev pub entry_end : MmapEntry → ℕ
entry_end e =
    if (e.base_addr_high == 0) && (e.length_high == 0)
    then (if ltb (add32 e.base_addr_low e.length_low) e.base_addr_low
        then max_tracked_memory
        else add32 e.base_addr_low e.length_low)
    else max_tracked_memory

unfoldable pub raise_highest : MmapEntry → ℕ → ℕ
raise_highest e highest = if ltb highest (entry_end e) then entry_end e else highest

-- `offset += entry->size + sizeof(entry->size)`
abbrev pub next_offset : ℕ → MmapEntry → ℕ
next_offset offset e = add32 offset (add32 e.size 4)

unfoldable pub count_region : MmapEntry → Stats → Stats
count_region e s =
    let kib = clip_length_to_kib e.length_low e.length_high in
    let s₁ = record s { region_count = add32 s.region_count 1 } in
    let s₂ =
      if e.kind == memory_available
      then record s₁ {
        usable_region_count = add32 s.usable_region_count 1;
        usable_memory_kib = add_kib s.usable_memory_kib kib;
      }
      else record s₁ {
        reserved_region_count = add32 s.reserved_region_count 1;
        reserved_memory_kib = add_kib s.reserved_memory_kib kib;
      } in
    record s₂ { total_memory_kib = add_kib s.total_memory_kib kib }

-- The body of the loop of `hnm_pmm_parse_mmap`.
unfoldable pub parse_entry : MmapEntry → Pmm → Pmm
parse_entry e p =
    let q = record p { stats = count_region e p.stats } in
    if (e.kind == memory_available) && (e.base_addr_high == 0)
    then mark_range_free q e.base_addr_low e.length_low
    else q

-- The two loops over the memory map. `none` is a loop still running when the fuel is used up.
module _ (entry_at : ℕ → MmapEntry) (info : MultibootInfo) where
  abbrev pub entry : ℕ → MmapEntry
  entry offset = entry_at (add32 info.mmap_addr offset)

  unfoldable pub highest_from : ℕ → ℕ → ℕ → Option ℕ
  highest_from zero offset highest = none
  highest_from (suc fuel) offset highest =
      let e = entry offset in
      let rest = highest_from fuel (next_offset offset e) (raise_highest e highest) in
      if ltb offset info.mmap_length then rest else some highest

  unfoldable pub parse_from : ℕ → ℕ → Pmm → Option Pmm
  parse_from zero offset p = none
  parse_from (suc fuel) offset p =
      let e = entry offset in
      let rest = parse_from fuel (next_offset offset e) (parse_entry e p) in
      if ltb offset info.mmap_length then rest else some p

-- A round moves on by four bytes at least, so one round for each byte of the map is enough.
abbrev pub mmap_fuel : MultibootInfo → ℕ
mmap_fuel info = suc info.mmap_length

unfoldable pub mmap_highest_address : (ℕ → MmapEntry) → MultibootInfo → Option ℕ
mmap_highest_address entry_at info = highest_from entry_at info (mmap_fuel info) 0 low_memory_limit

unfoldable pub parse_mmap : (ℕ → MmapEntry) → MultibootInfo → Pmm → Option Pmm
parse_mmap entry_at info p =
    parse_from entry_at info (mmap_fuel info) 0
      (record p { stats = record (p.stats) { mmap_available = true } })

unfoldable pub init_from_basic_memory : MultibootInfo → Pmm → Pmm
init_from_basic_memory info p =
    if has_memory info
    then (let total_kib = add32 (add32 info.mem_lower info.mem_upper) 1024 in
        let q = record p {
          stats = record (p.stats) {
            mmap_available = false;
            total_memory_kib = total_kib;
            usable_memory_kib = info.mem_upper;
            reserved_memory_kib = sub32 total_kib info.mem_upper;
            region_count = 2;
            usable_region_count = 1;
            reserved_region_count = 1;
          };
        } in
        mark_range_free (prepare_bitmap q (mul32 total_kib 1024)) low_memory_limit
          (mul32 info.mem_upper 1024))
    else prepare_bitmap
        (record p {
          stats = record (p.stats) {
            mmap_available = false;
            total_memory_kib = 1024;
            usable_memory_kib = 0;
            reserved_memory_kib = 1024;
          };
        })
        (mul32 1024 1024)

unfoldable pub reserve_kernel_ranges : ℕ → ℕ → Pmm → Pmm
reserve_kernel_ranges kernel_end multiboot_info_addr p =
    let low = mark_range_used p 0 low_memory_limit in
    let kernel = mark_range_used low kernel_start (sub32 (align_up kernel_end) kernel_start) in
    if multiboot_info_addr == 0
    then kernel
    else mark_range_used kernel multiboot_info_addr page_size

-- The statistics and the search position are set to 0; the bitmap stays as it is.
unfoldable pub reset : Pmm → Pmm
reset p = record {
  bitmap = p.bitmap;
  stats = record {
    total_memory_kib = 0;
    usable_memory_kib = 0;
    reserved_memory_kib = 0;
    total_pages = 0;
    used_pages = 0;
    free_pages = 0;
    region_count = 0;
    usable_region_count = 0;
    reserved_region_count = 0;
    mmap_available = false;
    initialized = false;
  };
  next_search_page = 0;
}

-- Without a multiboot record: the low memory alone, all of it in use.
abbrev pub low_memory_only : Pmm → Pmm
low_memory_only p =
    let low = prepare_bitmap p low_memory_limit in
    record low {
      stats = record (low.stats) { total_memory_kib = 1024; reserved_memory_kib = 1024 };
    }

unfoldable pub read_memory : (ℕ → MmapEntry) → (ℕ → MultibootInfo) → ℕ → Pmm → Option Pmm
read_memory entry_at info_at multiboot_info_addr p =
    let info = info_at multiboot_info_addr in
    let from_mmap =
      Option.bind (mmap_highest_address entry_at info)
        (λ highest. parse_mmap entry_at info (prepare_bitmap p highest)) in
    if not (multiboot_info_addr == 0)
      && has_mmap info
      && not (info.mmap_addr == 0)
      && not (info.mmap_length == 0)
    then from_mmap
    else (if not (multiboot_info_addr == 0)
        then some (init_from_basic_memory info p)
        else some (low_memory_only p))

abbrev pub ready : Pmm → Pmm
ready p = record p { stats = record (p.stats) { initialized = true } }

-- `kernel_end` is the address of the linker's symbol.
unfoldable pub init : ℕ → (ℕ → MmapEntry) → (ℕ → MultibootInfo) → ℕ → Pmm → Option Pmm
init kernel_end entry_at info_at multiboot_info_addr p =
    Option.map (λ q. ready (reserve_kernel_ranges kernel_end multiboot_info_addr q))
      (read_memory entry_at info_at multiboot_info_addr (reset p))
