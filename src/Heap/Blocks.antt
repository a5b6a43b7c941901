-- ===== src/Heap/Blocks.antt =====
-- `hnm_kmalloc`: where its blocks lie.
use hnmos.Prelude.{
  ℕ, ◌+◌, ◌-◌, ◌*◌, ◌/◌, ◌%◌, ◌≤◌, ◌<◌, ◌≡◌, ◌≢◌, refl, true, false, arith, inl, inr, Bool-cases,
  ◌⊎◌, u32_mod, dec_lt,
}
use mathlib.Core.Path.{subst⁻¹}
use hnmos.Pmm.{page_size, page_is_used}
use hnmos.Pmm.Alloc.{alloc_page-refused, alloc_page_total}
use hnmos.Heap.{
  Memory, alignment, max_allocation, align, new_page, bump, kmalloc, needs_page, count_failure,
}
use hnmos.Heap.Inv.{
  IsValid, align_lem, Moved, moved, new_page-refused, new_page-true, count_failure-IsValid,
  bump-IsValid,
}

-- A failed call leaves the pages and the position in the current page.
pub record Refused (m : Memory) (r : ℕ × Memory) : Type 0 where
  pub null : r.0 ≡ 0
  pub valid : IsValid r.1
  pub bitmap : r.1.pmm.bitmap ≡ m.pmm.bitmap
  pub page : r.1.heap.current_page ≡ m.heap.current_page
  pub offset : r.1.heap.current_offset ≡ m.heap.current_offset

-- A call that returns a block of `size` bytes: the last bytes of what is now taken of the current
-- page, in the page that was current before or in one that was free.
pub record Granted (m : Memory) (size : ℕ) (r : ℕ × Memory) : Type 0 where
  pub valid : IsValid r.1
  pub there : r.1.heap.current_page ≢ 0
  pub in_page : r.1.heap.current_page ≤ r.0
  pub ends : r.0 + align size ≡ r.1.heap.current_page + r.1.heap.current_offset
  pub aligned : r.0 % alignment ≡ 0
  pub taken : 0 < align size
  pub grows : (j : ℕ) → page_is_used m.pmm.bitmap j ≡ true → page_is_used r.1.pmm.bitmap j ≡ true
  pub origin :
      ((r.1.heap.current_page ≡ m.heap.current_page)
        × (r.0 ≡ m.heap.current_page + m.heap.current_offset))
      ⊎ (page_is_used m.pmm.bitmap (r.1.heap.current_page / page_size) ≡ false)

-- The heap is initialised, the size is between 1 and a page, and the current page has room or a
-- page is free.
abbrev pub Serves : Memory → ℕ → Type 0
Serves m size =
    (m.heap.stats.initialized ≡ true)
    × (0 < size)
    × (size ≤ max_allocation)
    × ((needs_page (align size) m.heap ≡ false) ⊎ (0 < m.pmm.stats.free_pages))

module _ (m : Memory) (size : ℕ) (v : IsValid m) (small : size + alignment ≤ u32_mod) where
  stays :
      0 < size
      → align size ≤ page_size
      → needs_page (align size) m.heap ≡ false
      → Granted m size (bump (align size) m)
  unfolding bump
  stays pos fits f =
      let there : m.heap.current_page ≢ 0 = ground arith in
      let o = v.offset_in in
      let room : m.heap.current_offset + align size ≤ page_size = ground arith in
      let al = (align_lem size small).2 in
      let t = v.page_tracked in
      record {
        valid = bump-IsValid (align size) m v there room al;
        there = there;
        in_page = omega arith;
        ends = omega arith;
        aligned = omega (arith, v.page_aligned, v.offset_aligned);
        taken = omega (arith, align_lem size small);
        grows = λ j u. u;
        origin = inl (refl, omega arith);
      }

  moves :
      (m' : Memory)
      → 0 < size
      → Moved m m'
      → align size ≤ page_size
      → Granted m size (bump (align size) m')
  unfolding bump
  moves m' pos w fits =
      let room : m'.heap.current_offset + align size ≤ page_size = omega (arith, w.empty) in
      let al = (align_lem size small).2 in
      let t = w.valid.page_tracked in
      record {
        valid = bump-IsValid (align size) m' w.valid w.there room al;
        there = w.there;
        in_page = omega (arith, w.empty);
        ends = omega (arith, w.empty);
        aligned = omega (arith, w.empty, w.valid.page_aligned);
        taken = omega (arith, align_lem size small);
        grows = w.grows;
        origin = inr w.fresh;
      }

  failed : Refused m (0, record m { heap = record (m.heap) { stats = count_failure m.heap.stats } })
  unfolding count_failure
  failed = record {
    null = refl;
    valid = count_failure-IsValid m v;
    bitmap = refl;
    page = refl;
    offset = refl;
  }

  kmalloc-moves :
      m.heap.stats.initialized ≡ true
      → 0 < size
      → align size ≤ page_size
      → needs_page (align size) m.heap ≡ true
      → new_page m ≡ (true, (new_page m).1)
      → kmalloc size m ≡ bump (align size) (new_page m).1
  unfolding kmalloc
  kmalloc-moves i p f n e = ground arith

  kmalloc-stays :
      m.heap.stats.initialized ≡ true
      → 0 < size
      → align size ≤ page_size
      → needs_page (align size) m.heap ≡ false
      → kmalloc size m ≡ bump (align size) m
  unfolding kmalloc
  kmalloc-stays i p f n = ground arith

  kmalloc-Granted : Serves m size → Granted m size (kmalloc size m)
  kmalloc-Granted (i, p, s, c) =
      let fits : align size ≤ page_size = omega (arith, align_lem size small) in
      elim (Bool-cases (needs_page (align size) m.heap)) [
        | inr f ↦ subst⁻¹ (Granted m size) (kmalloc-stays i p fits f) (stays p fits f)
        | inl n ↦
            let free : 0 < m.pmm.stats.free_pages = ground arith in
            let (page, a) = alloc_page_total m.pmm v.pages (v.backed i) free in
            let w = moved m page v a in
            subst⁻¹ (Granted m size) (kmalloc-moves i p fits n (new_page-true m page v a))
              (moves (new_page m).1 p w fits)
      ]

  kmalloc-unserved : (m.heap.stats.initialized ≡ false) ⊎ (size ≡ 0) → kmalloc size m ≡ (0, m)
  unfolding kmalloc
  kmalloc-unserved h = ground arith

  kmalloc-failed :
      (max_allocation < align size)
        ⊎ ((needs_page (align size) m.heap ≡ true)
            × (new_page m ≡ (
              false,
              record m { heap = record (m.heap) { stats = count_failure m.heap.stats } },
            )))
      → m.heap.stats.initialized ≡ true
      → 0 < size
      → kmalloc size m
        ≡ (0, record m { heap = record (m.heap) { stats = count_failure m.heap.stats } })
  unfolding kmalloc
  kmalloc-failed h i p = ground arith

  unserved : Refused m (0, m)
  unserved = record { null = refl; valid = v; bitmap = refl; page = refl; offset = refl }

  -- Every call of `hnm_kmalloc` either returns null, and then leaves the pages and the position, or
  -- returns a block.
  pub kmalloc-cases : Refused m (kmalloc size m) ⊎ Granted m size (kmalloc size m)
  kmalloc-cases = elim (Bool-cases m.heap.stats.initialized) [
    | inr n ↦ inl (subst⁻¹ (Refused m) (kmalloc-unserved (inl n)) unserved)
    | inl i ↦ elim (dec_lt 0 size) [
      | no z ↦ inl (subst⁻¹ (Refused m) (kmalloc-unserved (inr (omega arith))) unserved)
      | yes p ↦ elim (dec_lt max_allocation size) [
        | yes big ↦
            let over : max_allocation < align size = omega (arith, align_lem size small) in
            inl (subst⁻¹ (Refused m) (kmalloc-failed (inl over) i p) failed)
        | no s ↦ elim (Bool-cases (needs_page (align size) m.heap)) [
          | inr f ↦ inr (kmalloc-Granted (i, p, omega arith, inl f))
          | inl n ↦ elim (dec_lt 0 m.pmm.stats.free_pages) [
            | yes free ↦ inr (kmalloc-Granted (i, p, omega arith, inr free))
            | no none_free ↦
                let e = new_page-refused m (alloc_page-refused m.pmm (inr (omega arith))) in
                inl (subst⁻¹ (Refused m) (kmalloc-failed (inr (n, e)) i p) failed)
          ]
        ]
      ]
    ]
  ]

  pub kmalloc-IsValid : IsValid (kmalloc size m).1
  kmalloc-IsValid = elim kmalloc-cases [ inl r ↦ r.valid | inr g ↦ g.valid ]

-- The call serves every request that it can: in an initialised heap a request of 1 to 4096 bytes
-- for which the current page has room or a page is free gets an address that is not null, is a
-- multiple of 8, and whose block of at least the requested size stays inside one page in use.
pub kmalloc-Serves :
    (m : Memory) (size : ℕ)
    → IsValid m
    → Serves m size
    → let (address, m') = kmalloc size m in
      let page = address / page_size in
      (address ≢ 0)
      × (address % alignment ≡ 0)
      × (address + size ≤ page * page_size + page_size)
      × (page_is_used m'.pmm.bitmap page ≡ true)
      × IsValid m'
kmalloc-Serves m size v s =
    let g = kmalloc-Granted m size v (omega (arith, s.2)) s in
    let w = g.valid in
    let a = align_lem size (omega (arith, s.2)) in
    let page : (kmalloc size m).0 / page_size ≡ (kmalloc size m).1.heap.current_page / page_size =
      omega (arith, g.ends, g.in_page, w.page_aligned, w.offset_in, s.1, a.0) in
    let n = g.there in
    (
      omega (arith, g.in_page),
      g.aligned,
      omega (arith, g.ends, w.offset_in, w.page_aligned, a.0, page),
      rw page w.page_used,
      w,
    )

-- A size in the last 7 below 2 ^ 32 is rounded to 0: with a current page `hnm_kmalloc` then returns
-- an address that is not null and takes no byte, so the next block starts at the same address.
pub kmalloc_wraps :
    (m : Memory) (size : ℕ)
    → IsValid m
    → m.heap.stats.initialized ≡ true
    → m.heap.current_page ≢ 0
    → u32_mod - alignment < size
    → size < u32_mod
    → let (address, m') = kmalloc size m in
      (address ≡ m.heap.current_page + m.heap.current_offset)
      × (address ≢ 0)
      × (m'.heap.current_page ≡ m.heap.current_page)
      × (m'.heap.current_offset ≡ m.heap.current_offset)
unfolding kmalloc align bump
kmalloc_wraps m size v i there lo hi = ground (arith, v.page_tracked, v.offset_in)
