-- ===== src/Pmm/Range.antt =====
-- `hnm_pmm_mark_range_free` and `hnm_pmm_mark_range_used`: which pages a range of addresses covers.
use hnmos.Prelude.{
  ℕ, zero, suc, ◌+◌, ◌*◌, ◌/◌, ◌%◌, ◌≤◌, ◌<◌, ◌≡◌, refl, Bool, true, false, arith, ltb, leb, ◌==◌,
  if◌then◌else◌, inl, inr, Bool-cases, ◌&&◌, u32_mod, add32, ◌-◌, ◌∙◌, dec_lt,
}
use hnmos.Pmm.{
  Pmm, page_size, max_tracked_memory, max_pages, page_is_used, mark_page_used, mark_page_free,
  align_down, align_up, free_pages_from, use_pages_from, mark_range_free, mark_range_used, free_end,
  use_end,
}
use hnmos.Pmm.Bits.{IsByte}
use hnmos.Pmm.Inv.{
  IsValid, SameShape, page_is_used-mark_page_used, page_is_used-mark_page_free,
  mark_page_used-IsValid, mark_page_free-IsValid, mark_page_used-SameShape,
  mark_page_free-SameShape, mark_page_free-IsByte, mark_page_used-IsByte,
}

-- The page `j` lies in the pages from address `a` up to address `end`, and is tracked.
abbrev between : ℕ → ℕ → ℕ → ℕ → Bool
between a end total j = leb a (j * page_size) && ltb (j * page_size) end && ltb j total

page_is_used-free_pages_from :
    (fuel a end : ℕ) (p : Pmm) (j : ℕ)
    → IsByte p.bitmap
    → a % page_size ≡ 0
    → end ≤ max_tracked_memory
    → end ≤ a + fuel * page_size
    → page_is_used (free_pages_from fuel a end p).bitmap j
      ≡ (if between a end p.stats.total_pages j then false else page_is_used p.bitmap j)
unfolding free_pages_from
page_is_used-free_pages_from zero a end p j v m e f = ground arith
page_is_used-free_pages_from (suc fuel) a end p j v m e f =
    let page = a / page_size in
    ground (
      arith,
      page_is_used-mark_page_free p page j v,
      mark_page_free-SameShape p page,
      page_is_used-free_pages_from fuel (add32 a page_size) end (mark_page_free p page) j
          (mark_page_free-IsByte p page v),
    )

page_is_used-use_pages_from :
    (fuel a end : ℕ) (p : Pmm) (j : ℕ)
    → IsByte p.bitmap
    → a % page_size ≡ 0
    → end ≤ max_tracked_memory
    → end ≤ a + fuel * page_size
    → page_is_used (use_pages_from fuel a end p).bitmap j
      ≡ (if between a end p.stats.total_pages j then true else page_is_used p.bitmap j)
unfolding use_pages_from
page_is_used-use_pages_from zero a end p j v m e f = ground arith
page_is_used-use_pages_from (suc fuel) a end p j v m e f =
    let page = a / page_size in
    ground (
      arith,
      page_is_used-mark_page_used p page j v,
      mark_page_used-SameShape p page,
      page_is_used-use_pages_from fuel (add32 a page_size) end (mark_page_used p page) j
          (mark_page_used-IsByte p page v),
    )

free_pages_from-IsValid :
    (fuel a end : ℕ) (p : Pmm) → IsValid p → IsValid (free_pages_from fuel a end p)
unfolding free_pages_from
free_pages_from-IsValid zero a end p v = v
free_pages_from-IsValid (suc fuel) a end p v = elim (Bool-cases (ltb a end)) [
  | inl t ↦ rw t (free_pages_from-IsValid fuel _ end _ (mark_page_free-IsValid p _ v))
  | inr f ↦ rw f v
]

use_pages_from-IsValid :
    (fuel a end : ℕ) (p : Pmm) → IsValid p → IsValid (use_pages_from fuel a end p)
unfolding use_pages_from
use_pages_from-IsValid zero a end p v = v
use_pages_from-IsValid (suc fuel) a end p v = elim (Bool-cases (ltb a end)) [
  | inl t ↦ rw t (use_pages_from-IsValid fuel _ end _ (mark_page_used-IsValid p _ v))
  | inr f ↦ rw f v
]

pub mark_range_free-IsValid :
    (p : Pmm) (base len : ℕ) → IsValid p → IsValid (mark_range_free p base len)
unfolding mark_range_free
mark_range_free-IsValid p base len v = elim (Bool-cases (ltb len page_size)) [
  | inl t ↦ rw t v
  | inr f ↦ rw f (free_pages_from-IsValid max_pages _ _ p v)
]

pub mark_range_used-IsValid :
    (p : Pmm) (base len : ℕ) → IsValid p → IsValid (mark_range_used p base len)
unfolding mark_range_used
mark_range_used-IsValid p base len v = elim (Bool-cases (len == 0)) [
  | inl t ↦ rw t v
  | inr f ↦ rw f (use_pages_from-IsValid max_pages _ _ p v)
]

align_up-page : (x : ℕ) → (align_up x % page_size ≡ 0) × (align_down x % page_size ≡ 0)
unfolding align_up
align_up-page x = omega arith

free_end-le : (base len : ℕ) → free_end base len ≤ max_tracked_memory
free_end-le base len = ground arith

use_end-le : (base len : ℕ) → use_end base len ≤ max_tracked_memory
use_end-le base len = ground arith

-- The bits after the loop, for every range: `start` is the aligned base.
page_is_used-mark_range_free :
    (p : Pmm) (base len j : ℕ)
    → IsValid p
    → page_size ≤ len
    → page_is_used (mark_range_free p base len).bitmap j ≡ (
        if between (align_up base) (free_end base len) p.stats.total_pages j
        then false
        else page_is_used p.bitmap j)
unfolding mark_range_free
page_is_used-mark_range_free p base len j v h =
    let e : ltb len page_size ≡ false = ground arith in
    rw e (
      page_is_used-free_pages_from max_pages (align_up base) (free_end base len) p j v.bytes
        (align_up-page base).0 (free_end-le base len) (omega (arith, free_end-le base len)))

page_is_used-mark_range_used :
    (p : Pmm) (base len j : ℕ)
    → IsValid p
    → 0 < len
    → page_is_used (mark_range_used p base len).bitmap j ≡ (
        if between (align_down base) (use_end base len) p.stats.total_pages j
        then true
        else page_is_used p.bitmap j)
unfolding mark_range_used
page_is_used-mark_range_used p base len j v h =
    let e : (len == 0) ≡ false = ground arith in
    rw e (
      page_is_used-use_pages_from max_pages (align_down base) (use_end base len) p j v.bytes
        (align_up-page base).1 (use_end-le base len) (omega (arith, use_end-le base len)))

abbrev inside : ℕ → ℕ → ℕ → ℕ → Bool
inside base len total j =
    leb base (j * page_size) && leb (j * page_size + page_size) (base + len) && ltb j total

abbrev meets : ℕ → ℕ → ℕ → ℕ → Bool
meets base len total j =
    ltb (j * page_size) (base + len)
    && ltb base (j * page_size + page_size)
    && ltb 0 len
    && ltb j total

between-inside :
    (base len total j : ℕ)
    → base + len < u32_mod
    → page_size ≤ len
    → total ≤ max_pages
    → between (align_up base) (free_end base len) total j ≡ inside base len total j
unfolding align_up
between-inside base len total j fits h t = ground arith

between-meets :
    (base len total j : ℕ)
    → base + len + page_size ≤ u32_mod
    → 0 < len
    → total ≤ max_pages
    → between (align_down base) (use_end base len) total j ≡ meets base len total j
unfolding align_up
between-meets base len total j fits h t = ground arith

mark_range_free-bits :
    (p : Pmm) (base len j : ℕ)
    → IsValid p
    → base + len < u32_mod
    → page_is_used (mark_range_free p base len).bitmap j
      ≡ (if inside base len p.stats.total_pages j then false else page_is_used p.bitmap j)
unfolding mark_range_free
mark_range_free-bits p base len j v fits = elim (dec_lt len page_size) [
  | yes short ↦ ground arith
  | no long ↦
      rw (← between-inside base len p.stats.total_pages j fits (omega arith) v.tracked)
        (page_is_used-mark_range_free p base len j v (omega arith))
]

mark_range_used-bits :
    (p : Pmm) (base len j : ℕ)
    → IsValid p
    → base + len + page_size ≤ u32_mod
    → page_is_used (mark_range_used p base len).bitmap j
      ≡ (if meets base len p.stats.total_pages j then true else page_is_used p.bitmap j)
unfolding mark_range_used
mark_range_used-bits p base len j v fits = elim (dec_lt 0 len) [
  | no empty ↦ ground arith
  | yes some_byte ↦
      rw (← between-meets base len p.stats.total_pages j fits some_byte v.tracked)
        (page_is_used-mark_range_used p base len j v some_byte)
]

-- For a range that does not pass the end of the address space, `hnm_pmm_mark_range_free` frees
-- exactly the tracked pages that lie wholly inside it: the bits of all others stay, and the
-- statistics go on agreeing with the bitmap.
pub mark_range_free_lem :
    (p : Pmm) (base len j : ℕ)
    → IsValid p
    → base + len < u32_mod
    → (page_is_used (mark_range_free p base len).bitmap j ≡ (
        if leb base (j * page_size)
          && leb (j * page_size + page_size) (base + len)
          && ltb j p.stats.total_pages
        then false
        else page_is_used p.bitmap j))
      × IsValid (mark_range_free p base len)
mark_range_free_lem p base len j v fits =
    (mark_range_free-bits p base len j v fits, mark_range_free-IsValid p base len v)

-- For a range that stays a page short of the end of the address space, `hnm_pmm_mark_range_used`
-- takes exactly the tracked pages that have an address in common with it.
pub mark_range_used_lem :
    (p : Pmm) (base len j : ℕ)
    → IsValid p
    → base + len + page_size ≤ u32_mod
    → (page_is_used (mark_range_used p base len).bitmap j ≡ (
        if ltb (j * page_size) (base + len)
          && ltb base (j * page_size + page_size)
          && ltb 0 len
          && ltb j p.stats.total_pages
        then true
        else page_is_used p.bitmap j))
      × IsValid (mark_range_used p base len)
mark_range_used_lem p base len j v fits =
    (mark_range_used-bits p base len j v fits, mark_range_used-IsValid p base len v)

-- A range of at least a page's length whose base lies in the last page of the address space, and is
-- not that page's first address, makes `hnm_pmm_mark_range_free` free every tracked page: the
-- aligned base wraps to 0.
pub mark_range_free_wraps :
    (p : Pmm) (base len j : ℕ)
    → IsValid p
    → u32_mod - page_size < base
    → base < u32_mod
    → page_size ≤ len
    → len < u32_mod
    → j < p.stats.total_pages
    → page_is_used (mark_range_free p base len).bitmap j ≡ false
mark_range_free_wraps p base len j v lo hi long short l =
    page_is_used-mark_range_free p base len j v long ∙ ground (arith, whole)
  where
    whole : between (align_up base) (free_end base len) p.stats.total_pages j ≡ true
    whole = unfold align_up in ground (arith, v.tracked)

free_pages_from-SameShape : (fuel a end : ℕ) (p : Pmm) → SameShape p (free_pages_from fuel a end p)
unfolding free_pages_from
free_pages_from-SameShape zero a end p = record { total = refl; search = refl; ready = refl }
free_pages_from-SameShape (suc fuel) a end p = ground (
  arith,
  mark_page_free-SameShape p (a / page_size),
  free_pages_from-SameShape fuel (add32 a page_size) end (mark_page_free p (a / page_size)),
)

use_pages_from-SameShape : (fuel a end : ℕ) (p : Pmm) → SameShape p (use_pages_from fuel a end p)
unfolding use_pages_from
use_pages_from-SameShape zero a end p = record { total = refl; search = refl; ready = refl }
use_pages_from-SameShape (suc fuel) a end p = ground (
  arith,
  mark_page_used-SameShape p (a / page_size),
  use_pages_from-SameShape fuel (add32 a page_size) end (mark_page_used p (a / page_size)),
)

pub mark_range_free-SameShape : (p : Pmm) (base len : ℕ) → SameShape p (mark_range_free p base len)
unfolding mark_range_free
mark_range_free-SameShape p base len =
    ground (arith, free_pages_from-SameShape max_pages (align_up base) (free_end base len) p)

pub mark_range_used-SameShape : (p : Pmm) (base len : ℕ) → SameShape p (mark_range_used p base len)
unfolding mark_range_used
mark_range_used-SameShape p base len =
    ground (arith, use_pages_from-SameShape max_pages (align_down base) (use_end base len) p)
