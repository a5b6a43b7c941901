-- ===== src/Pmm/Boot/Entries.antt =====
-- The two walks over the boot loader's memory map, against the list of its entries.
use hnmos.Prelude.{
  ℕ, zero, suc, ◌+◌, ◌*◌, ◌≤◌, ◌<◌, ◌≡◌, refl, ap, Bool, false, ◌&&◌, ◌||◌, Option, none, some,
  List, [], ◌∷◌, arith, ltb, leb, ◌==◌, if◌then◌else◌, inl, inr, Bool-cases, u32_mod,
}
use mathlib.Core.Option
use hnmos.Pmm.{Pmm, page_size, page_is_used}
use hnmos.Pmm.Inv.{IsValid, SameShape}
use hnmos.Pmm.Range.{mark_range_free_lem, mark_range_free-IsValid, mark_range_free-SameShape}
use hnmos.Pmm.Boot.{
  MultibootInfo, MmapEntry, memory_available, entry, next_offset, highest_from, parse_from,
  raise_highest, parse_entry, count_region,
}

abbrev pub fold_entries {ℓ} : {S : Type ℓ} → (MmapEntry → S → S) → List MmapEntry → S → S
fold_entries f [] s = s
fold_entries f (e ∷ es) s = fold_entries f es (f e s)

module _ (entry_at : ℕ → MmapEntry) (info : MultibootInfo) where
  -- The entries from an offset on, as the walk meets them.
  unfoldable pub entries : ℕ → ℕ → Option (List MmapEntry)
  entries zero offset = none
  entries (suc fuel) offset =
      let e = entry entry_at info offset in
      let rest = entries fuel (next_offset offset e) in
      if ltb offset info.mmap_length then Option.map (λ es. e ∷ es) rest else some []

  -- An offset that the walk comes to.
  pub data Meets : ℕ → Type 0 where
    first : Meets 0
    next :
        (offset : ℕ)
        → Meets offset
        → offset < info.mmap_length
        → Meets (next_offset offset (entry entry_at info offset))

  -- No entry that the walk comes to has a size that makes the offset wrap.
  abbrev pub Advances : Type 0
  Advances =
      (offset : ℕ)
      → Meets offset
      → offset < info.mmap_length
      → offset + (entry entry_at info offset).size + 4 < u32_mod

  pub entries_total :
      (fuel offset : ℕ)
      → Advances
      → Meets offset
      → info.mmap_length ≤ offset + fuel
      → (es : List MmapEntry) × (entries (suc fuel) offset ≡ some es)
  unfolding entries
  entries_total zero offset adv met h = ([], ground arith)
  entries_total (suc fuel) offset adv met h = elim (Bool-cases (ltb offset info.mmap_length)) [
    | inl inside ↦
        let l : offset < info.mmap_length = ground arith in
        let a = adv offset met l in
        let (es, e) =
          entries_total fuel (next_offset offset (entry entry_at info offset)) adv
            (next offset met l) (omega arith) in
        (
          entry entry_at info offset ∷ es,
          rw inside (ap (Option.map (λ r. entry entry_at info offset ∷ r)) e),
        )
    | inr done ↦ ([], rw done)
  ]

  pub parse_from-fold :
      (fuel offset : ℕ) (p : Pmm)
      → parse_from entry_at info fuel offset p
        ≡ Option.map (λ es. fold_entries parse_entry es p) (entries fuel offset)
  unfolding entries parse_from
  parse_from-fold zero offset p = refl
  parse_from-fold (suc fuel) offset p =
      let e = entry entry_at info offset in
      ground (arith, parse_from-fold fuel (next_offset offset e) (parse_entry e p))

  pub highest_from-fold :
      (fuel offset highest : ℕ)
      → highest_from entry_at info fuel offset highest
        ≡ Option.map (λ es. fold_entries raise_highest es highest) (entries fuel offset)
  unfolding entries highest_from
  highest_from-fold zero offset highest = refl
  highest_from-fold (suc fuel) offset highest =
      let e = entry entry_at info offset in
      ground (arith, highest_from-fold fuel (next_offset offset e) (raise_highest e highest))

-- An entry that gives memory to use, and a page that lies wholly inside it.
abbrev pub frees : MmapEntry → ℕ → Bool
frees e j =
    (e.kind == memory_available)
    && (e.base_addr_high == 0)
    && leb e.base_addr_low (j * page_size)
    && leb (j * page_size + page_size) (e.base_addr_low + e.length_low)

pub covered : List MmapEntry → ℕ → Bool
covered [] j = false
covered (e ∷ es) j = frees e j || covered es j

-- A usable region below 4 GiB does not pass the end of the address space.
abbrev pub Fits : MmapEntry → Type 0
Fits e = e.kind ≡ memory_available → e.base_addr_high ≡ 0 → e.base_addr_low + e.length_low < u32_mod

abbrev pub AllFit : List MmapEntry → Type 0
AllFit [] = Unit
AllFit (e ∷ es) = Fits e × AllFit es

count_region-IsValid :
    (e : MmapEntry) (p : Pmm) → IsValid p → IsValid (record p { stats = count_region e p.stats })
unfolding count_region
count_region-IsValid e p v = elim (Bool-cases (e.kind == memory_available)) [
  | inl t ↦ rw t (record {
    bytes = v.bytes;
    tracked = v.tracked;
    counted = v.counted;
    complement = v.complement;
    search_in = v.search_in;
  })
  | inr f ↦ rw f (record {
    bytes = v.bytes;
    tracked = v.tracked;
    counted = v.counted;
    complement = v.complement;
    search_in = v.search_in;
  })
]

count_region-SameShape :
    (e : MmapEntry) (p : Pmm) → SameShape p (record p { stats = count_region e p.stats })
unfolding count_region
count_region-SameShape e p = ground arith

module _ (e : MmapEntry) (p : Pmm) where
  -- The statistics are counted first.
  abbrev counted : Pmm
  counted = record p { stats = count_region e p.stats }

  pub parse_entry-IsValid : IsValid p → IsValid (parse_entry e p)
  unfolding parse_entry
  parse_entry-IsValid v =
      elim (Bool-cases ((e.kind == memory_available) && (e.base_addr_high == 0))) [
        | inl t ↦ rw t (
            mark_range_free-IsValid counted e.base_addr_low e.length_low
              (count_region-IsValid e p v))
        | inr f ↦ rw f (count_region-IsValid e p v)
      ]

  pub parse_entry-SameShape : SameShape p (parse_entry e p)
  unfolding parse_entry
  parse_entry-SameShape = ground (
    arith,
    count_region-SameShape e p,
    mark_range_free-SameShape counted e.base_addr_low e.length_low,
  )

  parse_entry-bits :
      (j : ℕ)
      → IsValid p
      → Fits e
      → page_is_used (parse_entry e p).bitmap j
        ≡ (if frees e j && ltb j p.stats.total_pages then false else page_is_used p.bitmap j)
  unfolding parse_entry
  parse_entry-bits j v f =
      let w = count_region-IsValid e p v in
      elim (Bool-cases ((e.kind == memory_available) && (e.base_addr_high == 0))) [
        | inl t ↦ ground (
          arith,
          count_region-SameShape e p,
          f (ground arith) (ground arith),
          (mark_range_free_lem counted e.base_addr_low e.length_low j w
              (f (ground arith) (ground arith))).0,
        )
        | inr t ↦ ground arith
      ]

-- After the walk a tracked page is free if an entry frees it; the others are as they were.
pub fold_entries-bits :
    (es : List MmapEntry) (p : Pmm) (j : ℕ)
    → IsValid p
    → AllFit es
    → page_is_used (fold_entries parse_entry es p).bitmap j
      ≡ (if covered es j && ltb j p.stats.total_pages then false else page_is_used p.bitmap j)
unfolding covered
fold_entries-bits [] p j v f = refl
fold_entries-bits (e ∷ es) p j v f = ground (
  arith,
  parse_entry-bits e p j v f.0,
  parse_entry-SameShape e p,
  fold_entries-bits es (parse_entry e p) j (parse_entry-IsValid e p v) f.1,
)

pub fold_entries-IsValid :
    (es : List MmapEntry) (p : Pmm) → IsValid p → IsValid (fold_entries parse_entry es p)
fold_entries-IsValid [] p v = v
fold_entries-IsValid (e ∷ es) p v = fold_entries-IsValid es _ (parse_entry-IsValid e p v)

pub fold_entries-SameShape :
    (es : List MmapEntry) (p : Pmm) → SameShape p (fold_entries parse_entry es p)
fold_entries-SameShape [] p = record { total = refl; search = refl; ready = refl }
fold_entries-SameShape (e ∷ es) p =
    ground (arith, parse_entry-SameShape e p, fold_entries-SameShape es (parse_entry e p))
