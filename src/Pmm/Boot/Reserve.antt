-- ===== src/Pmm/Boot/Reserve.antt =====
-- The fresh bitmap, and the pages that the start-up reserves for the kernel.
use hnmos.Prelude.{
  ℕ, zero, suc, ◌+◌, ◌*◌, ◌%◌, ◌≤◌, ◌<◌, ◌≡◌, refl, sym, Bool, true, not, ◌&&◌, ◌||◌, arith, ltb,
  ◌==◌, if◌then◌else◌, inl, inr, Bool-cases, u32_mod, sub32, ◌∙◌,
}
use hnmos.Pmm.{
  Pmm, page_size, max_pages, low_memory_limit, kernel_start, page_is_used, test_bit, align_up,
  mark_range_used,
}
use hnmos.Pmm.Bits.{IsByte}
use hnmos.Pmm.Count.{all_used}
use hnmos.Pmm.Inv.{IsValid, SameShape}
use hnmos.Pmm.Range.{mark_range_used_lem, mark_range_used-IsValid, mark_range_used-SameShape}
use hnmos.Pmm.Boot.{prepare_bitmap, reserve_kernel_ranges}

test_bit-full : (k : ℕ) → k < 8 → test_bit 0xff k ≡ true
unfolding test_bit
test_bit-full zero h = refl
test_bit-full (suc zero) h = refl
test_bit-full (suc (suc zero)) h = refl
test_bit-full (suc (suc (suc zero))) h = refl
test_bit-full (suc (suc (suc (suc zero)))) h = refl
test_bit-full (suc (suc (suc (suc (suc zero))))) h = refl
test_bit-full (suc (suc (suc (suc (suc (suc zero)))))) h = refl
test_bit-full (suc (suc (suc (suc (suc (suc (suc zero))))))) h = refl
test_bit-full (suc (suc (suc (suc (suc (suc (suc (suc k)))))))) h = absurd (omega arith)

pub prepare_bitmap-used :
    (p : Pmm) (highest j : ℕ)
    → j < max_pages
    → page_is_used (prepare_bitmap p highest).bitmap j ≡ true
unfolding prepare_bitmap page_is_used
prepare_bitmap-used p highest j h = ground (arith, test_bit-full (j % 8))

prepare_bitmap-total :
    (p : Pmm) (highest : ℕ) → (prepare_bitmap p highest).stats.total_pages ≤ max_pages
unfolding prepare_bitmap
prepare_bitmap-total p highest = ground arith

pub prepare_bitmap-search :
    (p : Pmm) (highest : ℕ) → (prepare_bitmap p highest).next_search_page ≡ p.next_search_page
unfolding prepare_bitmap
prepare_bitmap-search p highest = refl

prepare_bitmap-counts :
    (p : Pmm) (highest : ℕ)
    → ((prepare_bitmap p highest).stats.free_pages ≡ 0)
      × ((prepare_bitmap p highest).stats.used_pages ≡ (prepare_bitmap p highest).stats.total_pages)
unfolding prepare_bitmap
prepare_bitmap-counts p highest = (refl, refl)

prepare_bitmap-IsByte :
    (p : Pmm) (highest : ℕ) → IsByte p.bitmap → IsByte (prepare_bitmap p highest).bitmap
unfolding prepare_bitmap
prepare_bitmap-IsByte p highest v i = ground (arith, v i)

pub prepare_bitmap-IsValid :
    (p : Pmm) (highest : ℕ)
    → IsByte p.bitmap
    → p.next_search_page ≡ 0
    → IsValid (prepare_bitmap p highest)
prepare_bitmap-IsValid p highest b e =
    let t = prepare_bitmap-total p highest in
    let c = prepare_bitmap-counts p highest in
    let s = prepare_bitmap-search p highest in
    record {
      bytes = prepare_bitmap-IsByte p highest b;
      tracked = t;
      counted =
          c.0
          ∙ sym (
              all_used (page_is_used (prepare_bitmap p highest).bitmap) _
                (λ j l. prepare_bitmap-used p highest j (omega arith)));
      complement = omega arith;
      search_in = omega arith;
    }

-- The pages that hold the low memory or the kernel's image, or that the multiboot record touches.
abbrev pub reserved : ℕ → ℕ → ℕ → Bool
reserved kernel_end info_addr j =
    ltb (j * page_size) kernel_end
    || (not (info_addr == 0)
        && ltb (j * page_size) (info_addr + page_size)
        && ltb info_addr (j * page_size + page_size))

module _ (kernel_end info_addr : ℕ) (p : Pmm) (v : IsValid p) where
  abbrev low : Pmm
  low = mark_range_used p 0 low_memory_limit

  abbrev kernel : Pmm
  kernel = mark_range_used low kernel_start (sub32 (align_up kernel_end) kernel_start)

  low-IsValid : IsValid low
  low-IsValid = mark_range_used-IsValid p _ _ v

  kernel-IsValid : IsValid kernel
  kernel-IsValid = mark_range_used-IsValid low _ _ low-IsValid

  pub reserve_kernel_ranges-IsValid : IsValid (reserve_kernel_ranges kernel_end info_addr p)
  unfolding reserve_kernel_ranges
  reserve_kernel_ranges-IsValid = elim (Bool-cases (info_addr == 0)) [
    | inl t ↦ rw t kernel-IsValid
    | inr f ↦ rw f (mark_range_used-IsValid kernel _ _ kernel-IsValid)
  ]

  kernel-SameShape : SameShape p kernel
  kernel-SameShape = ground (
    arith,
    mark_range_used-SameShape p 0 low_memory_limit,
    mark_range_used-SameShape low kernel_start (sub32 (align_up kernel_end) kernel_start),
  )

  pub reserve_kernel_ranges-SameShape : SameShape p (reserve_kernel_ranges kernel_end info_addr p)
  unfolding reserve_kernel_ranges
  reserve_kernel_ranges-SameShape =
      ground (arith, kernel-SameShape, mark_range_used-SameShape kernel info_addr page_size)

  kernel-bits :
      (j : ℕ)
      → kernel_start < kernel_end
      → kernel_end + 2 * page_size ≤ u32_mod
      → page_is_used kernel.bitmap j ≡ (
          if ltb (j * page_size) kernel_end && ltb j p.stats.total_pages
          then true
          else page_is_used p.bitmap j)
  unfolding align_up
  kernel-bits j lo hi = ground (
    arith,
    (mark_range_used_lem p 0 low_memory_limit j v (omega arith)).0,
    mark_range_used-SameShape p 0 low_memory_limit,
    (mark_range_used_lem low kernel_start (sub32 (align_up kernel_end) kernel_start) j low-IsValid
        (omega arith)).0,
  )

  pub reserve_kernel_ranges-bits :
      (j : ℕ)
      → kernel_start < kernel_end
      → kernel_end + 2 * page_size ≤ u32_mod
      → info_addr + 2 * page_size ≤ u32_mod
      → page_is_used (reserve_kernel_ranges kernel_end info_addr p).bitmap j ≡ (
          if reserved kernel_end info_addr j && ltb j p.stats.total_pages
          then true
          else page_is_used p.bitmap j)
  unfolding reserve_kernel_ranges
  reserve_kernel_ranges-bits j lo hi info_hi = ground (
    arith,
    kernel-bits j lo hi,
    kernel-SameShape,
    (mark_range_used_lem kernel info_addr page_size j kernel-IsValid (omega arith)).0,
  )
