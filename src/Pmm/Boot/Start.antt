-- ===== src/Pmm/Boot/Start.antt =====
-- What `hnm_pmm_init` leaves behind: which pages are free after the start.
use hnmos.Prelude.{
  ℕ, ◌+◌, ◌*◌, ◌≤◌, ◌<◌, ◌≡◌, ◌≢◌, refl, ap, ◌∙◌, true, not, ◌&&◌, some, arith, ◌==◌, if◌then◌else◌,
  inl, inr, Bool-cases, u32_mod,
}
use mathlib.Core.Option
use hnmos.Prelude.{List}
use hnmos.Pmm.{Pmm, page_size, low_memory_limit, kernel_start, page_is_used}
use hnmos.Pmm.Bits.{IsByte}
use hnmos.Pmm.Inv.{IsValid}
use hnmos.Pmm.Range.{mark_range_free-IsValid}
use hnmos.Pmm.Boot.{
  MultibootInfo, MmapEntry, has_mmap, has_memory, mmap_fuel, mmap_highest_address, parse_mmap,
  raise_highest, parse_entry, prepare_bitmap, init_from_basic_memory, read_memory, reset,
  reserve_kernel_ranges, ready, init, low_memory_only,
}
use hnmos.Pmm.Boot.Entries.{
  fold_entries, entries, Meets, Advances, entries_total, parse_from-fold, highest_from-fold,
  covered, AllFit, fold_entries-bits, fold_entries-IsValid, fold_entries-SameShape,
}
use hnmos.Pmm.Boot.Reserve.{
  prepare_bitmap-used, prepare_bitmap-IsValid, reserved, reserve_kernel_ranges-IsValid,
  reserve_kernel_ranges-SameShape, reserve_kernel_ranges-bits,
}

-- The boot loader hands over a memory map.
pub record HasMap (info : MultibootInfo) (addr : ℕ) : Type 0 where
  pub present : addr ≢ 0
  pub flagged : has_mmap info ≡ true
  pub placed : info.mmap_addr ≢ 0
  pub non_empty : info.mmap_length ≢ 0

-- The bitmap once all is marked used, before the walk over the map.
abbrev prepared : Pmm → List MmapEntry → Pmm
prepared p es =
    let q = prepare_bitmap (reset p) (fold_entries raise_highest es low_memory_limit) in
    record q { stats = record (q.stats) { mmap_available = true } }

prepared-IsValid : (p : Pmm) (es : List MmapEntry) → IsByte p.bitmap → IsValid (prepared p es)
unfolding reset
prepared-IsValid p es b =
    let v =
      prepare_bitmap-IsValid (reset p) (fold_entries raise_highest es low_memory_limit) b refl in
    record {
      bytes = v.bytes;
      tracked = v.tracked;
      counted = v.counted;
      complement = v.complement;
      search_in = v.search_in;
    }

module _ (entry_at : ℕ → MmapEntry) (info_at : ℕ → MultibootInfo) (addr : ℕ) where
  abbrev info : MultibootInfo
  info = info_at addr

  highest-map :
      (es : List MmapEntry)
      → entries entry_at info (mmap_fuel info) 0 ≡ some es
      → mmap_highest_address entry_at info ≡ some (fold_entries raise_highest es low_memory_limit)
  unfolding mmap_highest_address
  highest-map es e =
      highest_from-fold entry_at info (mmap_fuel info) 0 low_memory_limit
      ∙ ap (Option.map (λ r. fold_entries raise_highest r low_memory_limit)) e

  parse-map :
      (es : List MmapEntry) (p : Pmm)
      → entries entry_at info (mmap_fuel info) 0 ≡ some es
      → parse_mmap entry_at info
          (prepare_bitmap (reset p) (fold_entries raise_highest es low_memory_limit))
        ≡ some (fold_entries parse_entry es (prepared p es))
  unfolding parse_mmap
  parse-map es p e =
      parse_from-fold entry_at info (mmap_fuel info) 0 (prepared p es)
      ∙ ap (Option.map (λ r. fold_entries parse_entry r (prepared p es))) e

  read_memory-map :
      (p : Pmm) (es : List MmapEntry)
      → HasMap info addr
      → entries entry_at info (mmap_fuel info) 0 ≡ some es
      → read_memory entry_at info_at addr (reset p)
        ≡ some (fold_entries parse_entry es (prepared p es))
  unfolding read_memory Option.bind
  read_memory-map p es h e = ground (arith, highest-map es e, parse-map es p e)

  abbrev parsed : Pmm → List MmapEntry → Pmm
  parsed p es = fold_entries parse_entry es (prepared p es)

  abbrev started : ℕ → Pmm → List MmapEntry → Pmm
  started kernel_end p es = ready (reserve_kernel_ranges kernel_end addr (parsed p es))

  parsed-IsValid : (p : Pmm) (es : List MmapEntry) → IsByte p.bitmap → IsValid (parsed p es)
  parsed-IsValid p es b = fold_entries-IsValid es _ (prepared-IsValid p es b)

  started-IsValid :
      (kernel_end : ℕ) (p : Pmm) (es : List MmapEntry)
      → IsByte p.bitmap
      → IsValid (started kernel_end p es)
  started-IsValid kernel_end p es b =
      let v = reserve_kernel_ranges-IsValid kernel_end addr _ (parsed-IsValid p es b) in
      record {
        bytes = v.bytes;
        tracked = v.tracked;
        counted = v.counted;
        complement = v.complement;
        search_in = v.search_in;
      }

  started-bits :
      (kernel_end : ℕ) (p : Pmm) (es : List MmapEntry) (j : ℕ)
      → IsByte p.bitmap
      → AllFit es
      → kernel_start < kernel_end
      → kernel_end + 2 * page_size ≤ u32_mod
      → addr + 2 * page_size ≤ u32_mod
      → j < (started kernel_end p es).stats.total_pages
      → page_is_used (started kernel_end p es).bitmap j
        ≡ (if reserved kernel_end addr j then true else not (covered es j))
  started-bits kernel_end p es j b fit lo hi info_hi l =
      let v = parsed-IsValid p es b in
      let w = prepared-IsValid p es b in
      let q = prepare_bitmap (reset p) (fold_entries raise_highest es low_memory_limit) in
      let s = fold_entries-SameShape es (prepared p es) in
      let r = reserve_kernel_ranges-SameShape kernel_end addr _ v in
      let t = w.tracked in
      ground (
        arith,
        s,
        r,
        reserve_kernel_ranges-bits kernel_end addr _ v j lo hi info_hi,
        fold_entries-bits es (prepared p es) j w fit,
        prepare_bitmap-used (reset p) (fold_entries raise_highest es low_memory_limit) j
            (omega (arith, s.total, r.total)),
      )

-- Started from a memory map whose walk meets the entries `es`, where no usable region below 4 GiB
-- passes the end of the address space, `hnm_pmm_init` returns and leaves an initialised manager
-- whose statistics agree with its bitmap (the kernel's image ends above 1 MiB; it and the record
-- lie two pages short of the end of the address space). Of the tracked pages exactly those are free
-- that lie wholly inside one usable region below 4 GiB, whose length counts with its lower 32 bits,
-- begin at or behind the end of the kernel's image, and hold none of the 4096 bytes from the
-- multiboot record's address on. Nothing else is reserved: a page of that kind is free also where
-- the memory map's own entries lie in it, or where an entry of another kind overlaps it.
pub init_lem :
    (kernel_end : ℕ) (entry_at : ℕ → MmapEntry) (info_at : ℕ → MultibootInfo) (addr : ℕ) (p : Pmm)
    (es : List MmapEntry)
    → IsByte p.bitmap
    → HasMap (info_at addr) addr
    → entries entry_at (info_at addr) (mmap_fuel (info_at addr)) 0 ≡ some es
    → AllFit es
    → kernel_start < kernel_end
    → kernel_end + 2 * page_size ≤ u32_mod
    → addr + 2 * page_size ≤ u32_mod
    → (q : Pmm) × (init kernel_end entry_at info_at addr p ≡ some q)
      × IsValid q
      × (q.stats.initialized ≡ true)
      × ((j : ℕ)
          → j < q.stats.total_pages
          → page_is_used q.bitmap j
            ≡ (if reserved kernel_end addr j then true else not (covered es j)))
unfolding init
init_lem kernel_end entry_at info_at addr p es b h e fit lo hi info_hi = (
  started entry_at info_at addr kernel_end p es,
  ap (Option.map (λ q. ready (reserve_kernel_ranges kernel_end addr q)))
      (read_memory-map entry_at info_at addr p es h e),
  started-IsValid entry_at info_at addr kernel_end p es b,
  refl,
  λ j l. started-bits entry_at info_at addr kernel_end p es j b fit lo hi info_hi l,
)

module _ (info : MultibootInfo) (p : Pmm) (b : IsByte p.bitmap) where
  basic-IsValid : IsValid (init_from_basic_memory info (reset p))
  unfolding init_from_basic_memory reset
  basic-IsValid = elim (Bool-cases (has_memory info)) [
    | inl t ↦ rw t (mark_range_free-IsValid _ _ _ (prepare_bitmap-IsValid _ _ b refl))
    | inr f ↦ rw f (prepare_bitmap-IsValid _ _ b refl)
  ]

  alone-IsValid : IsValid (low_memory_only (reset p))
  unfolding reset
  alone-IsValid =
      let v = prepare_bitmap-IsValid (reset p) low_memory_limit b refl in
      record {
        bytes = v.bytes;
        tracked = v.tracked;
        counted = v.counted;
        complement = v.complement;
        search_in = v.search_in;
      }

read_memory_total :
    (entry_at : ℕ → MmapEntry) (info_at : ℕ → MultibootInfo) (addr : ℕ) (p : Pmm)
    → IsByte p.bitmap
    → (HasMap (info_at addr) addr → Advances entry_at (info_at addr))
    → (q : Pmm) × (read_memory entry_at info_at addr (reset p) ≡ some q) × IsValid q
read_memory_total entry_at info_at addr p b adv =
    let info = info_at addr in
    elim (Bool-cases (
      not (addr == 0)
      && has_mmap info
      && not (info.mmap_addr == 0)
      && not (info.mmap_length == 0))) [
        | inl t ↦
            let (es, e) =
              entries_total entry_at info info.mmap_length 0 (adv (has_map t)) Meets.first
                (omega arith) in
            (
              parsed entry_at info_at addr p es,
              read_memory-map entry_at info_at addr p es (has_map t) e,
              parsed-IsValid entry_at info_at addr p es b,
            )
        | inr f ↦ elim (Bool-cases (not (addr == 0))) [
          | inl t ↦ (
            init_from_basic_memory info (reset p),
            unfold read_memory in rw (f, t),
            basic-IsValid info p b,
          )
          | inr g ↦
              (low_memory_only (reset p), unfold read_memory in rw (f, g), alone-IsValid info p b)
        ]
      ]
  where
    has_map :
        (not (addr == 0)
            && has_mmap (info_at addr)
            && not ((info_at addr).mmap_addr == 0)
            && not ((info_at addr).mmap_length == 0))
          ≡ true
        → HasMap (info_at addr) addr
    has_map t = ground arith

-- `hnm_pmm_init` returns, whether the boot loader gave a memory map, only the basic sizes, or
-- nothing: the manager is initialised and its statistics agree with its bitmap. If a memory map is
-- given, no entry that the walk over it comes to may have a size that makes the walk's offset wrap.
pub init_total :
    (kernel_end : ℕ) (entry_at : ℕ → MmapEntry) (info_at : ℕ → MultibootInfo) (addr : ℕ) (p : Pmm)
    → IsByte p.bitmap
    → (HasMap (info_at addr) addr → Advances entry_at (info_at addr))
    → (q : Pmm) × (init kernel_end entry_at info_at addr p ≡ some q)
      × IsValid q
      × (q.stats.initialized ≡ true)
unfolding init
init_total kernel_end entry_at info_at addr p b adv =
    let (q, e, v) = read_memory_total entry_at info_at addr p b adv in
    let w = reserve_kernel_ranges-IsValid kernel_end addr q v in
    (
      ready (reserve_kernel_ranges kernel_end addr q),
      ap (Option.map (λ r. ready (reserve_kernel_ranges kernel_end addr r))) e,
      record {
        bytes = w.bytes;
        tracked = w.tracked;
        counted = w.counted;
        complement = w.complement;
        search_in = w.search_in;
      },
      refl,
    )
