-- ===== src/Heap/Tests.antt =====
-- The heap over the eight pages of the page manager's tests.
use hnmos.Prelude.{◌+◌, ◌*◌, ◌/◌, ◌%◌, ◌≤◌, ◌≡◌, ◌≢◌, refl, true, false, [], ◌∷◌, inr, arith}
use hnmos.Pmm
use hnmos.Pmm.{Pmm, page_size, page_is_used, test_bit}
use hnmos.Pmm.Tests.{small, small-IsValid, small-zero_used}
use hnmos.Heap.{Memory, alignment, init, kmalloc, new_page, bump, align}
use hnmos.Heap.Inv.{IsValid, init-IsValid}
use hnmos.Heap.Blocks.{Serves, kmalloc-Serves, kmalloc_wraps}
use hnmos.Heap.Serve.{PairwiseDisjoint, serve, kmalloc_disjoint}

abbrev no_heap : Memory
no_heap = record {
  pmm = small;
  heap = record {
    stats = record {
      total_bytes = 0;
      used_bytes = 0;
      page_count = 0;
      allocation_count = 0;
      failed_allocations = 0;
      initialized = false;
      supports_free = false;
    };
    current_page = 0;
    current_offset = 0;
  };
}

abbrev begun : Memory
begun = init no_heap

begun-IsValid : IsValid begun
begun-IsValid = init-IsValid no_heap small-IsValid small-zero_used

begun-Serves : Serves begun 100
unfolding init
begun-Serves = (refl, omega arith, omega arith, inr (omega arith))

kmalloc-Serves_example :
    ((kmalloc 100 begun).0 ≢ 0)
    × ((kmalloc 100 begun).0 % alignment ≡ 0)
    × ((kmalloc 100 begun).0 + 100 ≤ (kmalloc 100 begun).0 / page_size * page_size + page_size)
    × (page_is_used (kmalloc 100 begun).1.pmm.bitmap ((kmalloc 100 begun).0 / page_size) ≡ true)
    × IsValid (kmalloc 100 begun).1
kmalloc-Serves_example = kmalloc-Serves begun 100 begun-IsValid begun-Serves

-- A heap that has taken its first page.
abbrev in_use : Memory
in_use = (kmalloc 100 begun).1

in_use-IsValid : IsValid in_use
in_use-IsValid = (kmalloc-Serves begun 100 begun-IsValid begun-Serves).4

in_use-on : in_use.heap.stats.initialized ≡ true
unfolding init kmalloc new_page bump align Pmm.alloc_page Pmm.find_free_page Pmm.mark_page_used
    Pmm.count_used Pmm.set_page_used Pmm.set_bit page_is_used test_bit
in_use-on = refl

in_use-page : in_use.heap.current_page ≢ 0
unfolding init kmalloc new_page bump align Pmm.alloc_page Pmm.find_free_page Pmm.mark_page_used
    Pmm.count_used Pmm.set_page_used Pmm.set_bit page_is_used test_bit
in_use-page e = ground (arith, e)

kmalloc_wraps_example :
    ((kmalloc 4294967290 in_use).0 ≡ in_use.heap.current_page + in_use.heap.current_offset)
    × ((kmalloc 4294967290 in_use).0 ≢ 0)
    × ((kmalloc 4294967290 in_use).1.heap.current_page ≡ in_use.heap.current_page)
    × ((kmalloc 4294967290 in_use).1.heap.current_offset ≡ in_use.heap.current_offset)
kmalloc_wraps_example =
    kmalloc_wraps in_use 4294967290 in_use-IsValid in_use-on in_use-page (omega arith) (omega arith)

kmalloc_disjoint_example :
    PairwiseDisjoint (serve (100 ∷ 4000 ∷ 8 ∷ []) begun []).0
    × IsValid (serve (100 ∷ 4000 ∷ 8 ∷ []) begun []).1
kmalloc_disjoint_example =
    kmalloc_disjoint (100 ∷ 4000 ∷ 8 ∷ []) begun begun-IsValid
      (omega arith, (omega arith, (omega arith, tt)))
