-- ===== src/Pmm/Inv.antt =====
-- The invariant of the page manager: the statistics agree with the bitmap.
use hnmos.Prelude.{
  ℕ, ◌+◌, ◌≤◌, ◌<◌, ◌≡◌, sym, true, false, arith, ltb, leb, ◌==◌, if◌then◌else◌, inl, inr,
  Bool-cases, ap, ◌∙◌, not, ◌||◌,
}
use hnmos.Pmm.{
  Pmm, max_pages, page_is_used, set_page_used, set_page_free, mark_page_used, mark_page_free,
  count_freed, count_used,
}
use hnmos.Pmm.Bits.{
  IsByte, page_is_used-set_page_used, page_is_used-set_page_free, set_page_used-IsByte,
  set_page_free-IsByte,
}
use hnmos.Pmm.Count.{count_free, count_free-le, count_free-freed}

pub record IsValid (p : Pmm) : Type 0 where
  pub bytes : IsByte p.bitmap
  pub tracked : p.stats.total_pages ≤ max_pages
  pub counted : p.stats.free_pages ≡ count_free (page_is_used p.bitmap) p.stats.total_pages
  pub complement : p.stats.used_pages + p.stats.free_pages ≡ p.stats.total_pages
  pub search_in : p.next_search_page ≤ p.stats.total_pages

-- What marking a page does to the bitmap, on both branches.
pub page_is_used-mark_page_free :
    (p : Pmm) (i j : ℕ)
    → IsByte p.bitmap
    → page_is_used (mark_page_free p i).bitmap j ≡ (
        if ltb i p.stats.total_pages
        then (if i == j then false else page_is_used p.bitmap j)
        else page_is_used p.bitmap j)
unfolding mark_page_free
page_is_used-mark_page_free p i j v = ground (arith, page_is_used-set_page_free p.bitmap i j v)

pub page_is_used-mark_page_used :
    (p : Pmm) (i j : ℕ)
    → IsByte p.bitmap
    → page_is_used (mark_page_used p i).bitmap j ≡ (
        if ltb i p.stats.total_pages
        then (if i == j then true else page_is_used p.bitmap j)
        else page_is_used p.bitmap j)
unfolding mark_page_used
page_is_used-mark_page_used p i j v = ground (arith, page_is_used-set_page_used p.bitmap i j v)

-- Changing the bit of a tracked page and counting it keeps the invariant.
module _ (p : Pmm) (i : ℕ) (v : IsValid p) (tracked : i < p.stats.total_pages) where
  freed-IsValid :
      page_is_used p.bitmap i ≡ true
      → IsValid (record p { bitmap = set_page_free p.bitmap i; stats = count_freed p.stats })
  unfolding count_freed
  freed-IsValid e =
      let c : count_free (page_is_used (set_page_free p.bitmap i)) p.stats.total_pages
          ≡ p.stats.free_pages + 1 =
        count_free-freed (page_is_used p.bitmap) _ p.stats.total_pages i tracked e
          (λ j. page_is_used-set_page_free p.bitmap i j v.bytes)
        ∙ ap (λ (k : ℕ). k + 1) (sym v.counted) in
      let l : count_free (page_is_used (set_page_free p.bitmap i)) p.stats.total_pages
          ≤ p.stats.total_pages =
        count_free-le _ p.stats.total_pages in
      record {
        bytes = set_page_free-IsByte p.bitmap i v.bytes;
        tracked = v.tracked;
        counted = omega arith;
        complement = omega arith;
        search_in = v.search_in;
      }

  taken-IsValid :
      page_is_used p.bitmap i ≡ false
      → IsValid (record p { bitmap = set_page_used p.bitmap i; stats = count_used p.stats })
  unfolding count_used
  taken-IsValid e =
      let c : p.stats.free_pages
          ≡ count_free (page_is_used (set_page_used p.bitmap i)) p.stats.total_pages + 1 =
        v.counted
        ∙ count_free-freed (page_is_used (set_page_used p.bitmap i)) (page_is_used p.bitmap)
            p.stats.total_pages i tracked
            (ground (arith, page_is_used-set_page_used p.bitmap i i v.bytes))
            (λ j. ground (arith, page_is_used-set_page_used p.bitmap i j v.bytes)) in
      record {
        bytes = set_page_used-IsByte p.bitmap i v.bytes;
        tracked = v.tracked;
        counted = omega arith;
        complement = omega arith;
        search_in = v.search_in;
      }

pub mark_page_free-IsValid : (p : Pmm) (i : ℕ) → IsValid p → IsValid (mark_page_free p i)
unfolding mark_page_free
mark_page_free-IsValid p i v =
    elim (Bool-cases (leb p.stats.total_pages i || not (page_is_used p.bitmap i))) [
      | inl t ↦ rw t v
      | inr f ↦ rw f (freed-IsValid p i v (ground arith) (ground arith))
    ]

pub mark_page_used-IsValid : (p : Pmm) (i : ℕ) → IsValid p → IsValid (mark_page_used p i)
unfolding mark_page_used
mark_page_used-IsValid p i v =
    elim (Bool-cases (leb p.stats.total_pages i || page_is_used p.bitmap i)) [
      | inl t ↦ rw t v
      | inr f ↦ rw f (taken-IsValid p i v (ground arith) (ground arith))
    ]

-- The fields that marking a page leaves alone.
pub record SameShape (p q : Pmm) : Type 0 where
  pub total : q.stats.total_pages ≡ p.stats.total_pages
  pub search : q.next_search_page ≡ p.next_search_page
  pub ready : q.stats.initialized ≡ p.stats.initialized

pub mark_page_free-SameShape : (p : Pmm) (i : ℕ) → SameShape p (mark_page_free p i)
unfolding mark_page_free count_freed
mark_page_free-SameShape p i = ground arith

pub mark_page_used-SameShape : (p : Pmm) (i : ℕ) → SameShape p (mark_page_used p i)
unfolding mark_page_used count_used
mark_page_used-SameShape p i = ground arith

pub mark_page_used-counted :
    (p : Pmm) (i : ℕ)
    → IsValid p
    → 0 < p.stats.free_pages
    → i < p.stats.total_pages
    → page_is_used p.bitmap i ≡ false
    → (mark_page_used p i).stats.free_pages + 1 ≡ p.stats.free_pages
unfolding mark_page_used count_used
mark_page_used-counted p i v h l f = ground (arith, v.complement, v.tracked)

pub mark_page_free-counted :
    (p : Pmm) (i : ℕ)
    → IsValid p
    → i < p.stats.total_pages
    → page_is_used p.bitmap i ≡ true
    → (mark_page_free p i).stats.free_pages ≡ p.stats.free_pages + 1
unfolding mark_page_free count_freed
mark_page_free-counted p i v l f = ground (arith, v.complement, v.tracked)

pub mark_page_free-IsByte : (p : Pmm) (i : ℕ) → IsByte p.bitmap → IsByte (mark_page_free p i).bitmap
unfolding mark_page_free
mark_page_free-IsByte p i v j = ground (arith, v j, set_page_free-IsByte p.bitmap i v j)

pub mark_page_used-IsByte : (p : Pmm) (i : ℕ) → IsByte p.bitmap → IsByte (mark_page_used p i).bitmap
unfolding mark_page_used
mark_page_used-IsByte p i v j = ground (arith, v j, set_page_used-IsByte p.bitmap i v j)
