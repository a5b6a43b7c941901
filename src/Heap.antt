-- ===== src/Heap.antt =====
-- The kernel heap, kernel01/kernel/memory/heap.c: a bump allocator over the pages of `Pmm`.
-- The writes to the log are left out.
pub mod Inv
pub mod Blocks
pub mod Serve
mod Tests
use hnmos.Prelude.{
  ℕ, ◌+◌, ◌-◌, ◌*◌, ◌/◌, Bool, true, false, not, ◌||◌, ltb, ◌==◌, if◌then◌else◌, add32, sub32,
}
use hnmos.Pmm
use hnmos.Pmm.{Pmm, page_size}

abbrev pub alignment : ℕ
alignment = 8

abbrev pub max_allocation : ℕ
max_allocation = page_size

-- `struct hnm_heap_stats`; the two flags are `int`s that hold 0 or 1.
pub record Stats : Type 0 where
  pub total_bytes : ℕ
  pub used_bytes : ℕ
  pub page_count : ℕ
  pub allocation_count : ℕ
  pub failed_allocations : ℕ
  pub initialized : Bool
  pub supports_free : Bool

-- The static variables; the null pointer is 0.
pub record Heap : Type 0 where
  pub stats : Stats
  pub current_page : ℕ
  pub current_offset : ℕ

-- The heap with the page manager that it calls.
pub record Memory : Type 0 where
  pub pmm : Pmm
  pub heap : Heap

-- `& ~(HNM_HEAP_ALIGNMENT - 1)` clears the low 3 bits.
unfoldable pub align : ℕ → ℕ
align value = sub32 (add32 value alignment) 1 / alignment * alignment

unfoldable pub count_failure : Stats → Stats
count_failure s = record s { failed_allocations = add32 s.failed_allocations 1 }

unfoldable pub new_page : Memory → Bool × Memory
new_page m =
    let (page, pmm) = Pmm.alloc_page m.pmm in
    if page == 0
    then (
      false,
      record { pmm = pmm; heap = record (m.heap) { stats = count_failure m.heap.stats } },
    )
    else (
      true,
      record {
        pmm = pmm;
        heap = record {
          stats = record (m.heap.stats) {
            page_count = add32 m.heap.stats.page_count 1;
            total_bytes = add32 m.heap.stats.total_bytes page_size;
          };
          current_page = page;
          current_offset = 0;
        };
      },
    )

unfoldable pub init : Memory → Memory
init m = record m {
  heap = record {
    stats = record {
      total_bytes = 0;
      used_bytes = 0;
      page_count = 0;
      allocation_count = 0;
      failed_allocations = 0;
      initialized = m.pmm.stats.initialized;
      supports_free = false;
    };
    current_page = 0;
    current_offset = 0;
  };
}

-- The part of `hnm_kmalloc` behind the tests: the block is taken from the current page.
unfoldable pub bump : ℕ → Memory → ℕ × Memory
bump aligned_size m = (
  add32 m.heap.current_page m.heap.current_offset,
  record m {
    heap = record (m.heap) {
      current_offset = add32 m.heap.current_offset aligned_size;
      stats = record (m.heap.stats) {
        used_bytes = add32 m.heap.stats.used_bytes aligned_size;
        allocation_count = add32 m.heap.stats.allocation_count 1;
      };
    };
  },
)

-- The test of `hnm_kmalloc` for a page that is missing or too full.
abbrev pub needs_page : ℕ → Heap → Bool
needs_page aligned_size h =
    (h.current_page == 0) || ltb page_size (add32 h.current_offset aligned_size)

unfoldable pub kmalloc : ℕ → Memory → ℕ × Memory
kmalloc size m =
    let aligned_size = align size in
    let (got, m') = new_page m in
    if not m.heap.stats.initialized || (size == 0)
    then (0, m)
    else (if ltb max_allocation aligned_size
        then (0, record m { heap = record (m.heap) { stats = count_failure m.heap.stats } })
        else (if needs_page aligned_size m.heap
            then (if got then bump aligned_size m' else (0, m'))
            else bump aligned_size m))

-- Memory is never given back.
unfoldable pub kfree : ℕ → Memory → Memory
kfree address m = m
