-- ===== src/Pmm/Alloc.antt =====
-- `hnm_pmm_alloc_page` and `hnm_pmm_free_page`.
use hnmos.Prelude.{
  ℕ, zero, suc, ◌+◌, ◌*◌, ◌%◌, ◌-◌, ◌/◌, ◌≤◌, ◌<◌, ◌≡◌, true, false, arith, ◌==◌, if◌then◌else◌,
  inl, inr, Bool-cases, Option-cases, ap, ◌∙◌, ◌⊎◌, ◌↔◌, none, some, add32, dec_lt, ℕ_discrete,
}
use mathlib.Core.Path.{subst, subst⁻¹}
use native.Mathlib.Nat.{mod-eq_of_lt}
use hnmos.Pmm.{
  Pmm, page_size, max_pages, page_is_used, mark_page_free, find_free_page, take_page, alloc_page,
  free_page, count_used,
}
use hnmos.Pmm.Count.{count_free-zero, all_used}
use hnmos.Pmm.Inv.{
  IsValid, page_is_used-mark_page_used, page_is_used-mark_page_free, mark_page_used-IsValid,
  mark_page_free-IsValid, mark_page_used-SameShape, mark_page_used-counted, mark_page_free-counted,
  mark_page_free-SameShape,
}

-- The page that the loop looks at in round `k`.
abbrev candidate : Pmm → ℕ → ℕ
candidate p k = add32 p.next_search_page k % p.stats.total_pages

find_free_page-some :
    (p : Pmm) (left scanned : ℕ) {page : ℕ}
    → 0 < p.stats.total_pages
    → find_free_page p left scanned ≡ some page
    → (page < p.stats.total_pages) × (page_is_used p.bitmap page ≡ false)
unfolding find_free_page
find_free_page-some p zero scanned t h = cc
find_free_page-some p (suc left) scanned t h =
    elim (Bool-cases (page_is_used p.bitmap (candidate p scanned))) [
      | inl used ↦ find_free_page-some p left (scanned + 1) t (rw used at h)
      | inr free ↦ ground arith
    ]

find_free_page-none :
    (p : Pmm) (left scanned k : ℕ)
    → find_free_page p left scanned ≡ none
    → scanned ≤ k
    → k < scanned + left
    → page_is_used p.bitmap (candidate p k) ≡ true
unfolding find_free_page
find_free_page-none p zero scanned k h lo hi = absurd (omega arith)
find_free_page-none p (suc left) scanned k h lo hi =
    elim (Bool-cases (page_is_used p.bitmap (candidate p scanned))) [
      | inl used ↦ elim (ℕ_discrete scanned k) [
        | yes e ↦ subst (λ i. page_is_used p.bitmap (candidate p i) ≡ true) e used
        | no n ↦
            find_free_page-none p left (scanned + 1) k (rw used at h) (omega arith) (omega arith)
      ]
      | inr free ↦ ground arith
    ]

ring_covers : (n t j : ℕ) → n ≤ t → j < t → t ≤ max_pages → (k : ℕ) × (k < t) × (add32 n k % t ≡ j)
ring_covers n t j hn hj ht = elim (dec_lt j n) [
  | yes below ↦ (j + t - n, omega arith, ap (λ x. x % t) (unwrapped below) ∙ once_round)
  | no above ↦ (j - n, omega arith, ap (λ x. x % t) (direct above) ∙ mod-eq_of_lt hj)
]
  where
    once_round : (j + t) % t ≡ j
    once_round = grind arith

    unwrapped : j < n → add32 n (j + t - n) ≡ j + t
    unwrapped h = omega arith

    direct : ¬ (j < n) → add32 n (j - n) ≡ j
    direct h = omega arith

-- With a free page on record the search finds one: some round looks at each page, so a search that
-- finds nothing has seen every page used, and the count would be 0.
find_free_page_total :
    (p : Pmm)
    → IsValid p
    → 0 < p.stats.free_pages
    → (page : ℕ) × (find_free_page p p.stats.total_pages 0 ≡ some page)
      × (page < p.stats.total_pages)
      × (page_is_used p.bitmap page ≡ false)
find_free_page_total p v h = elim (Option-cases (find_free_page p p.stats.total_pages 0)) [
  | inl e ↦ absurd (
      omega (
        arith,
        v.counted,
        all_used (page_is_used p.bitmap) p.stats.total_pages (λ j l. seen e j l),
      ))
  | inr (page, e) ↦ let (l, f) = find_free_page-some p _ 0 (omega arith) e in (page, e, l, f)
]
  where
    seen :
        find_free_page p p.stats.total_pages 0 ≡ none
        → (j : ℕ) → j < p.stats.total_pages
        → page_is_used p.bitmap j ≡ true
    seen e j l =
        let (k, hk, c) =
          ring_covers p.next_search_page p.stats.total_pages j v.search_in l v.tracked in
        subst (λ i. page_is_used p.bitmap i ≡ true) c
          (find_free_page-none p p.stats.total_pages 0 k e (omega arith) (omega arith))

-- What an allocation of `page` does.
pub record Allocated (p : Pmm) (page : ℕ) (r : ℕ × Pmm) : Type 0 where
  pub in_range : page < p.stats.total_pages
  pub was_free : page_is_used p.bitmap page ≡ false
  pub address : r.0 ≡ page * page_size
  pub marked :
      (j : ℕ) → page_is_used r.1.bitmap j ≡ (if page == j then true else page_is_used p.bitmap j)
  pub counted : r.1.stats.free_pages + 1 ≡ p.stats.free_pages
  pub total : r.1.stats.total_pages ≡ p.stats.total_pages
  pub ready : r.1.stats.initialized ≡ p.stats.initialized
  pub valid : IsValid r.1

take_page-IsValid :
    (p : Pmm) (page : ℕ) → IsValid p → page < p.stats.total_pages → IsValid (take_page p page).1
take_page-IsValid p page v l =
    let w = mark_page_used-IsValid p page v in
    let s = mark_page_used-SameShape p page in
    record {
      bytes = w.bytes;
      tracked = w.tracked;
      counted = w.counted;
      complement = w.complement;
      search_in = omega arith;
    }

take_page-Allocated :
    (p : Pmm) (page : ℕ)
    → IsValid p
    → 0 < p.stats.free_pages
    → page < p.stats.total_pages
    → page_is_used p.bitmap page ≡ false
    → Allocated p page (take_page p page)
unfolding count_used
take_page-Allocated p page v h l f = record {
  in_range = l;
  was_free = f;
  address = omega (arith, v.tracked);
  marked = λ j. ground (arith, page_is_used-mark_page_used p page j v.bytes);
  counted = mark_page_used-counted p page v h l f;
  total = (mark_page_used-SameShape p page).total;
  ready = (mark_page_used-SameShape p page).ready;
  valid = take_page-IsValid p page v l;
}

alloc_page-eq :
    (p : Pmm) (page : ℕ)
    → p.stats.initialized ≡ true
    → 0 < p.stats.free_pages
    → find_free_page p p.stats.total_pages 0 ≡ some page
    → alloc_page p ≡ take_page p page
unfolding alloc_page
alloc_page-eq p page ready h e = ground arith

-- While the manager is initialised and has a free page on record, `hnm_pmm_alloc_page` returns the
-- address of a page below the total that was free. It marks that page used and changes the bit of no
-- other, lowers the count of free pages by one, leaves the total, and keeps the invariant.
pub alloc_page_total :
    (p : Pmm)
    → IsValid p
    → p.stats.initialized ≡ true
    → 0 < p.stats.free_pages
    → (page : ℕ) × Allocated p page (alloc_page p)
alloc_page_total p v ready h =
    let (page, e, l, f) = find_free_page_total p v h in
    (
      page,
      subst⁻¹ (Allocated p page) (alloc_page-eq p page ready h e)
          (take_page-Allocated p page v h l f),
    )

pub alloc_page-refused :
    (p : Pmm) → (p.stats.initialized ≡ false) ⊎ (p.stats.free_pages ≡ 0) → alloc_page p ≡ (0, p)
unfolding alloc_page
alloc_page-refused p h = ground arith

-- Either an allocation is refused, or it takes a page.
pub alloc_page-cases :
    (p : Pmm)
    → IsValid p
    → ((alloc_page p ≡ (0, p)) × ((p.stats.initialized ≡ false) ⊎ (p.stats.free_pages ≡ 0)))
      ⊎ ((page : ℕ) × Allocated p page (alloc_page p))
alloc_page-cases p v = elim (Bool-cases p.stats.initialized) [
  | inr e ↦ inl (alloc_page-refused p (inl e), inl e)
  | inl ready ↦ elim (dec_lt 0 p.stats.free_pages) [
    | yes h ↦ inr (alloc_page_total p v ready h)
    | no h ↦ inl (alloc_page-refused p (inr (omega arith)), inr (omega arith))
  ]
]

pub alloc_page-IsValid : (p : Pmm) → IsValid p → IsValid (alloc_page p).1
alloc_page-IsValid p v = elim (alloc_page-cases p v) [
  | inl (e, h) ↦ subst⁻¹ (λ r. IsValid r.1) e v
  | inr (page, a) ↦ a.valid
]

-- With page 0 in use (the start-up reserves the low memory), `hnm_pmm_alloc_page` of an initialised
-- manager returns the null pointer exactly when every tracked page is in use.
pub alloc_page-null_iff :
    (p : Pmm)
    → IsValid p
    → p.stats.initialized ≡ true
    → page_is_used p.bitmap 0 ≡ true
    → ((alloc_page p).0 ≡ 0) ↔ ((j : ℕ) → j < p.stats.total_pages → page_is_used p.bitmap j ≡ true)
alloc_page-null_iff p v ready zero_used = elim (alloc_page-cases p v) [
  | inl (e, h) ↦ (
    λ n j l.
        count_free-zero (page_is_used p.bitmap) p.stats.total_pages j (ground (arith, v.counted)) l,
    λ all. ap (λ r. r.0) e,
  )
  | inr (page, a) ↦ (
    λ n j l. absurd (ground (arith, a.address, a.was_free, page_zero page a n)),
    λ all. absurd (ground (arith, all page a.in_range, a.was_free)),
  )
]
  where
    page_zero : (page : ℕ) → Allocated p page (alloc_page p) → (alloc_page p).0 ≡ 0 → page ≡ 0
    page_zero page a n = omega (arith, a.address)

free_page-of_page :
    (q : Pmm) (page : ℕ)
    → q.stats.initialized ≡ true
    → 0 < page
    → free_page q (page * page_size) ≡ mark_page_free q page
unfolding free_page
free_page-of_page q page ready h =
    let e : page * page_size / page_size ≡ page = omega arith in
    ground (arith, ap (mark_page_free q) e)

freed_again :
    (p : Pmm) (page : ℕ) (r : ℕ × Pmm)
    → IsValid p
    → Allocated p page r
    → ((j : ℕ) → page_is_used (mark_page_free r.1 page).bitmap j ≡ page_is_used p.bitmap j)
      × ((mark_page_free r.1 page).stats.free_pages ≡ p.stats.free_pages)
      × ((mark_page_free r.1 page).stats.used_pages ≡ p.stats.used_pages)
      × IsValid (mark_page_free r.1 page)
freed_again p page r v a =
    let w = mark_page_free-IsValid r.1 page a.valid in
    let s = mark_page_free-SameShape r.1 page in
    let used : page_is_used r.1.bitmap page ≡ true = ground (arith, a.marked page) in
    let c = mark_page_free-counted r.1 page a.valid (omega (arith, a.in_range, a.total)) used in
    let free : (mark_page_free r.1 page).stats.free_pages ≡ p.stats.free_pages =
      omega (arith, c, a.counted) in
    (
      λ j. ground (
        arith,
        a.marked j,
        a.was_free,
        a.total,
        a.in_range,
        page_is_used-mark_page_free r.1 page j a.valid.bytes,
      ),
      free,
      omega (arith, w.complement, v.complement, s.total, a.total, free),
      w,
    )

-- Freeing the page just allocated gives back its bit and the counts: the bitmap reads as before on
-- every page, and the numbers of free and used pages are those before the allocation. (Page 0, whose
-- address is the null pointer, is in use beforehand.)
pub free_page-alloc_page :
    (p : Pmm)
    → IsValid p
    → p.stats.initialized ≡ true
    → page_is_used p.bitmap 0 ≡ true
    → 0 < p.stats.free_pages
    → let (address, q) = alloc_page p in
      ((j : ℕ) → page_is_used (free_page q address).bitmap j ≡ page_is_used p.bitmap j)
      × ((free_page q address).stats.free_pages ≡ p.stats.free_pages)
      × ((free_page q address).stats.used_pages ≡ p.stats.used_pages)
      × IsValid (free_page q address)
free_page-alloc_page p v ready zero_used h =
    let (page, a) = alloc_page_total p v ready h in
    let back : free_page (alloc_page p).1 (alloc_page p).0 ≡ mark_page_free (alloc_page p).1 page =
      ap (free_page (alloc_page p).1) a.address
      ∙ free_page-of_page (alloc_page p).1 page (a.ready ∙ ready) (not_zero page a) in
    subst⁻¹
      (λ (f : Pmm).
        ((j : ℕ) → page_is_used f.bitmap j ≡ page_is_used p.bitmap j)
        × (f.stats.free_pages ≡ p.stats.free_pages)
        × (f.stats.used_pages ≡ p.stats.used_pages)
        × IsValid f)
      back (freed_again p page (alloc_page p) v a)
  where
    not_zero : (page : ℕ) → Allocated p page (alloc_page p) → 0 < page
    not_zero zero a = absurd (ground (arith, a.was_free))
    not_zero (suc k) a = omega arith
