-- ===== src/Heap/Inv.antt =====
-- The invariant of the heap, and what each call leaves.
use hnmos.Prelude.{
  ℕ, zero, suc, ◌+◌, ◌-◌, ◌*◌, ◌/◌, ◌%◌, ◌≤◌, ◌<◌, ◌≡◌, ◌≢◌, refl, true, false, arith, ◌==◌,
  if◌then◌else◌, add32, u32_mod, ◌∙◌,
}
use mathlib.Core.Path.{subst⁻¹}
use hnmos.Pmm
use hnmos.Pmm.{Pmm, page_size, max_pages, page_is_used}
use hnmos.Pmm.Inv
use hnmos.Pmm.Alloc.{Allocated}
use hnmos.Heap.{Heap, Memory, alignment, align, new_page, bump, init, count_failure}

-- The bytes left in the current page.
abbrev pub room : Heap → ℕ
room h = if h.current_page == 0 then 0 else page_size - h.current_offset

pub record IsValid (m : Memory) : Type 0 where
  pub pages : Pmm.Inv.IsValid m.pmm
  pub zero_used : page_is_used m.pmm.bitmap 0 ≡ true
  pub backed : m.heap.stats.initialized ≡ true → m.pmm.stats.initialized ≡ true
  pub page_aligned : m.heap.current_page % page_size ≡ 0
  pub page_tracked : m.heap.current_page < max_pages * page_size
  pub page_used : page_is_used m.pmm.bitmap (m.heap.current_page / page_size) ≡ true
  pub offset_in : m.heap.current_offset ≤ page_size
  pub offset_aligned : m.heap.current_offset % alignment ≡ 0
  pub pages_counted : m.heap.stats.page_count + m.pmm.stats.free_pages ≤ m.pmm.stats.total_pages
  pub bytes_counted : m.heap.stats.total_bytes ≡ m.heap.stats.page_count * page_size
  pub used_in : m.heap.stats.used_bytes + room m.heap ≤ m.heap.stats.total_bytes

pub init-IsValid :
    (m : Memory) → Pmm.Inv.IsValid m.pmm → page_is_used m.pmm.bitmap 0 ≡ true → IsValid (init m)
unfolding init
init-IsValid m v z = record {
  pages = v;
  zero_used = z;
  backed = λ e. e;
  page_aligned = refl;
  page_tracked = omega arith;
  page_used = z;
  offset_in = omega arith;
  offset_aligned = refl;
  pages_counted = omega (arith, v.complement);
  bytes_counted = refl;
  used_in = omega arith;
}

-- A rounded size: no smaller, at most 7 larger, a multiple of 8.
pub align_lem :
    (size : ℕ)
    → size + alignment ≤ u32_mod
    → (size ≤ align size) × (align size < size + alignment) × (align size % alignment ≡ 0)
unfolding align
align_lem size h = omega arith

-- What `hnm_heap_new_page` does when it finds a page.
pub record Moved (m : Memory) (m' : Memory) : Type 0 where
  pub valid : IsValid m'
  pub fresh : page_is_used m.pmm.bitmap (m'.heap.current_page / page_size) ≡ false
  pub there : m'.heap.current_page ≢ 0
  pub empty : m'.heap.current_offset ≡ 0
  pub same_init : m'.heap.stats.initialized ≡ m.heap.stats.initialized
  pub same_bytes : m'.heap.stats.used_bytes ≡ m.heap.stats.used_bytes
  pub grows : (j : ℕ) → page_is_used m.pmm.bitmap j ≡ true → page_is_used m'.pmm.bitmap j ≡ true

not_zero :
    (p : Pmm) (page : ℕ)
    → page_is_used p.bitmap 0 ≡ true
    → page_is_used p.bitmap page ≡ false
    → 0 < page
not_zero p zero z e = cc
not_zero p (suc k) z e = omega arith

pub new_page-eq :
    (m : Memory)
    → (Pmm.alloc_page m.pmm).0 ≢ 0
    → new_page m ≡ (
      true,
      record {
        pmm = (Pmm.alloc_page m.pmm).1;
        heap = record {
          stats = record (m.heap.stats) {
            page_count = add32 m.heap.stats.page_count 1;
            total_bytes = add32 m.heap.stats.total_bytes page_size;
          };
          current_page = (Pmm.alloc_page m.pmm).0;
          current_offset = 0;
        };
      },
    )
unfolding new_page
new_page-eq m h = ground arith

pub new_page-refused :
    (m : Memory)
    → Pmm.alloc_page m.pmm ≡ (0, m.pmm)
    → new_page m
      ≡ (false, record m { heap = record (m.heap) { stats = count_failure m.heap.stats } })
unfolding new_page
new_page-refused m h = ground arith

-- Moving to the page that the manager hands out.
pub moved :
    (m : Memory) (page : ℕ)
    → IsValid m
    → Allocated m.pmm page (Pmm.alloc_page m.pmm)
    → Moved m (new_page m).1
moved m page v a =
    let pos = not_zero m.pmm page v.zero_used a.was_free in
    let addr = a.address in
    let t = v.pages.tracked in
    let e = new_page-eq m (omega arith) in
    let here : (Pmm.alloc_page m.pmm).0 / page_size ≡ page = omega arith in
    let pages_in : page < max_pages = omega (arith, a.in_range) in
    subst⁻¹ (λ r. Moved m r.1) e
      (record {
        valid = record {
          pages = a.valid;
          zero_used = ground (arith, a.marked 0, v.zero_used);
          backed = λ i. a.ready ∙ v.backed i;
          page_aligned = omega arith;
          page_tracked = omega arith;
          page_used = rw here (ground (arith, a.marked page));
          offset_in = omega arith;
          offset_aligned = refl;
          pages_counted = omega (arith, v.pages_counted, a.counted, a.total, v.pages.complement);
          bytes_counted =
              omega (arith, v.bytes_counted, v.pages_counted, a.counted, v.pages.complement);
          used_in =
              ground
                (arith, v.bytes_counted, v.used_in, v.pages_counted, a.counted, v.pages.complement);
        };
        fresh = rw here a.was_free;
        there = omega arith;
        empty = refl;
        same_init = refl;
        same_bytes = refl;
        grows = λ j u. ground (arith, a.marked j);
      })

pub count_failure-IsValid :
    (m : Memory)
    → IsValid m
    → IsValid (record m { heap = record (m.heap) { stats = count_failure m.heap.stats } })
unfolding count_failure
count_failure-IsValid m v = record {
  pages = v.pages;
  zero_used = v.zero_used;
  backed = v.backed;
  page_aligned = v.page_aligned;
  page_tracked = v.page_tracked;
  page_used = v.page_used;
  offset_in = v.offset_in;
  offset_aligned = v.offset_aligned;
  pages_counted = v.pages_counted;
  bytes_counted = v.bytes_counted;
  used_in = v.used_in;
}

-- Taking a block that fits keeps the invariant.
pub bump-IsValid :
    (a : ℕ) (m : Memory)
    → IsValid m
    → m.heap.current_page ≢ 0
    → m.heap.current_offset + a ≤ page_size
    → a % alignment ≡ 0
    → IsValid (bump a m).1
unfolding bump
bump-IsValid a m v n fits al = record {
  pages = v.pages;
  zero_used = v.zero_used;
  backed = v.backed;
  page_aligned = v.page_aligned;
  page_tracked = v.page_tracked;
  page_used = v.page_used;
  offset_in = omega arith;
  offset_aligned = omega (arith, v.offset_aligned);
  pages_counted = v.pages_counted;
  bytes_counted = v.bytes_counted;
  used_in = ground (
    arith, v.used_in, v.bytes_counted, v.pages_counted, v.pages.complement, v.pages.tracked,
    v.offset_in,
  );
}

pub new_page-true :
    (m : Memory) (page : ℕ)
    → IsValid m
    → Allocated m.pmm page (Pmm.alloc_page m.pmm)
    → new_page m ≡ (true, (new_page m).1)
new_page-true m page v a =
    let pos = not_zero m.pmm page v.zero_used a.was_free in
    let e = new_page-eq m (omega (arith, a.address)) in cc e
