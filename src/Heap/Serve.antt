-- ===== src/Heap/Serve.antt =====
-- A sequence of calls of `hnm_kmalloc`: no two of its blocks overlap.
use hnmos.Prelude.{
  ℕ, ◌+◌, ◌*◌, ◌/◌, ◌≤◌, ◌≡◌, ◌≢◌, sym, true, arith, ◌==◌, if◌then◌else◌, inl, inr, ◌⊎◌, u32_mod,
  ap, ◌∙◌, List, [], ◌∷◌, ℕ_discrete,
}
use mathlib.Core.Path.{subst⁻¹}
use mathlib.Core.Bool.{false≢true}
use hnmos.Pmm.{page_size, page_is_used}
use hnmos.Heap.{Memory, alignment, align, kmalloc}
use hnmos.Heap.Inv.{IsValid}
use hnmos.Heap.Blocks.{Refused, Granted, kmalloc-cases}

-- A block, by its address and its rounded size.
abbrev pub Block : Type 0
Block = ℕ × ℕ

abbrev pub Disjoint : Block → Block → Type 0
Disjoint b c = (b.0 + b.1 ≤ c.0) ⊎ (c.0 + c.1 ≤ b.0)

abbrev pub AllDisjoint : Block → List Block → Type 0
AllDisjoint b [] = Unit
AllDisjoint b (c ∷ cs) = Disjoint b c × AllDisjoint b cs

abbrev pub PairwiseDisjoint : List Block → Type 0
PairwiseDisjoint [] = Unit
PairwiseDisjoint (b ∷ bs) = AllDisjoint b bs × PairwiseDisjoint bs

-- A block handed out before: inside a page in use, and in the current page below the offset.
record Placed (m : Memory) (b : Block) : Type 0 where
  page_used : page_is_used m.pmm.bitmap (b.0 / page_size) ≡ true
  inside : b.0 + b.1 ≤ b.0 / page_size * page_size + page_size
  below :
      b.0 / page_size * page_size ≡ m.heap.current_page
      → b.0 + b.1 ≤ m.heap.current_page + m.heap.current_offset

abbrev AllPlaced : Memory → List Block → Type 0
AllPlaced m [] = Unit
AllPlaced m (b ∷ bs) = Placed m b × AllPlaced m bs

abbrev note_block : ℕ → ℕ → List Block → List Block
note_block address size bs = if address == 0 then bs else (address, align size) ∷ bs

-- A sequence of requests: the blocks granted, the latest first, and the memory at the end.
pub serve : List ℕ → Memory → List Block → List Block × Memory
serve [] m bs = (bs, m)
serve (size ∷ sizes) m bs =
    let (address, m') = kmalloc size m in serve sizes m' (note_block address size bs)

abbrev pub AllSmall : List ℕ → Type 0
AllSmall [] = Unit
AllSmall (n ∷ ns) = (n + alignment ≤ u32_mod) × AllSmall ns

Refused-Placed :
    (m : Memory) (r : ℕ × Memory) (bs : List Block)
    → Refused m r
    → AllPlaced m bs
    → AllPlaced r.1 bs
Refused-Placed m r [] f p = p
Refused-Placed m r (b ∷ bs) f p = (
  record {
    page_used = rw f.bitmap p.0.page_used;
    inside = p.0.inside;
    below = λ e. omega (arith, p.0.below (e ∙ f.page), f.page, f.offset);
  },
  Refused-Placed m r bs f p.1,
)

module _ (m : Memory) (size : ℕ) (r : ℕ × Memory) (v : IsValid m) (g : Granted m size r) where
  -- A block from before stays placed, and the new block does not overlap it.
  keeps : (b : Block) → Placed m b → Placed r.1 b × Disjoint (r.0, align size) b
  keeps b p =
      let w = g.valid in
      let aligned = w.page_aligned in
      let end = w.offset_in in
      let inside = p.inside in
      elim g.origin [
        | inl (same, at) ↦ (
          record {
            page_used = g.grows (b.0 / page_size) p.page_used;
            inside = p.inside;
            below = λ e. omega (arith, p.below (e ∙ same), g.ends, same, at);
          },
          elim (ℕ_discrete (b.0 / page_size * page_size) m.heap.current_page) [
            | yes e ↦ inr (omega (arith, p.below e, at))
            | no n ↦ omega (arith, g.ends, g.in_page, same)
          ],
        )
        | inr fresh ↦
            let apart : b.0 / page_size ≢ r.1.heap.current_page / page_size =
              λ e. false≢true (sym fresh ∙ ap (page_is_used m.pmm.bitmap) (sym e) ∙ p.page_used) in
            (
              record {
                page_used = g.grows (b.0 / page_size) p.page_used;
                inside = p.inside;
                below = λ e. absurd (omega (arith, apart));
              },
              omega (arith, g.ends, g.in_page, apart),
            )
      ]

  Granted-Placed :
      (bs : List Block) → AllPlaced m bs → AllPlaced r.1 bs × AllDisjoint (r.0, align size) bs
  Granted-Placed [] p = (p, p)
  Granted-Placed (b ∷ bs) p =
      let (q, d) = keeps b p.0 in let (qs, ds) = Granted-Placed bs p.1 in ((q, qs), (d, ds))

  new-Placed : Placed r.1 (r.0, align size)
  new-Placed =
      let w = g.valid in
      let page : r.0 / page_size ≡ r.1.heap.current_page / page_size =
        omega (arith, g.ends, g.in_page, w.page_aligned, w.offset_in, g.taken) in
      record {
        page_used = rw page w.page_used;
        inside = omega (arith, g.ends, w.offset_in, w.page_aligned, page);
        below = λ e. omega (arith, g.ends);
      }

noted :
    (m : Memory) (size : ℕ) (bs : List Block)
    → Granted m size (kmalloc size m)
    → note_block (kmalloc size m).0 size bs ≡ ((kmalloc size m).0, align size) ∷ bs
noted m size bs g = ground (arith, g.there, g.in_page)

unnoted :
    (m : Memory) (size : ℕ) (bs : List Block)
    → Refused m (kmalloc size m)
    → note_block (kmalloc size m).0 size bs ≡ bs
unnoted m size bs f = ground (arith, f.null)

abbrev Kept : List ℕ → Memory → List Block → Type 0
Kept sizes m bs = PairwiseDisjoint (serve sizes m bs).0 × IsValid (serve sizes m bs).1

serve-Disjoint :
    (sizes : List ℕ) (m : Memory) (bs : List Block)
    → IsValid m
    → AllSmall sizes
    → AllPlaced m bs
    → PairwiseDisjoint bs
    → PairwiseDisjoint (serve sizes m bs).0 × IsValid (serve sizes m bs).1
unfolding serve
serve-Disjoint [] m bs v s p d = (d, v)
serve-Disjoint (size ∷ sizes) m bs v s p d = elim (kmalloc-cases m size v s.0) [
  | inl f ↦ subst⁻¹ (Kept sizes (kmalloc size m).1) (unnoted m size bs f) (
      serve-Disjoint sizes (kmalloc size m).1 bs f.valid s.1
        (Refused-Placed m (kmalloc size m) bs f p) d)
  | inr g ↦
      let (q, ds) = Granted-Placed m size (kmalloc size m) v g bs p in
      subst⁻¹ (Kept sizes (kmalloc size m).1) (noted m size bs g) (
        serve-Disjoint sizes (kmalloc size m).1 (((kmalloc size m).0, align size) ∷ bs) g.valid s.1
          (new-Placed m size (kmalloc size m) v g, q) (ds, d))
]

-- No two blocks that `hnm_kmalloc` returns for a sequence of requests overlap, each block counted
-- with its rounded size, and the heap stays valid. (No request is within 8 of the end of the
-- address space.)
pub kmalloc_disjoint :
    (sizes : List ℕ) (m : Memory)
    → IsValid m
    → AllSmall sizes
    → PairwiseDisjoint (serve sizes m []).0 × IsValid (serve sizes m []).1
kmalloc_disjoint sizes m v s = serve-Disjoint sizes m [] v s tt tt
