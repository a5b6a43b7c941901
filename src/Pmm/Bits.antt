-- ===== src/Pmm/Bits.antt =====
-- The bits of a byte, and of the bitmap: `hnm_pmm_set_page_used` and `hnm_pmm_set_page_free` change
-- the bit of one page.
use hnmos.Prelude.{
  ℕ, zero, suc, ◌/◌, ◌%◌, ◌<◌, ◌≡◌, refl, Bool, true, false, ◌&&◌, arith, ltb, ◌==◌, if◌then◌else◌,
}
use hnmos.Pmm.{Bitmap, test_bit, set_bit, clear_bit, page_is_used, set_page_used, set_page_free}

abbrev pub IsByte : Bitmap → Type 0
IsByte bytes = (i : ℕ) → bytes i < 256

-- A test on each number below a bound; a table of its results decides it.
each_below : (ℕ → Bool) → ℕ → Bool
each_below test zero = true
each_below test (suc bound) = each_below test bound && test bound

each_below-at :
    (test : ℕ → Bool) (bound i : ℕ) → i < bound → each_below test bound ≡ true → test i ≡ true
unfolding each_below
each_below-at test zero i inside passed = absurd (omega arith)
each_below-at test (suc bound) i inside passed = ground (arith, each_below-at test bound i)

same : Bool → Bool → Bool
same true b = b
same false true = false
same false false = true

same_sound : (a b : Bool) → same a b ≡ true → a ≡ b
unfolding same
same_sound a b h = ground arith

all_bytes : (ℕ → ℕ → ℕ → Bool) → Bool
all_bytes p = each_below (λ b. each_below (λ k. each_below (λ j. p b k j) 8) 8) 256

all_bytes_sound :
    (p : ℕ → ℕ → ℕ → Bool) (b k j : ℕ)
    → all_bytes p ≡ true
    → b < 256
    → k < 8
    → j < 8
    → p b k j ≡ true
unfolding all_bytes
all_bytes_sound p b k j h hb hk hj =
    each_below-at _ 8 j hj (each_below-at _ 8 k hk (each_below-at _ 256 b hb h))

set_table :
    all_bytes (λ b k j. same (test_bit (set_bit b k) j) (if k == j then true else test_bit b j))
    ≡ true
unfolding all_bytes each_below same test_bit set_bit
set_table = refl

clear_table :
    all_bytes (λ b k j. same (test_bit (clear_bit b k) j) (if k == j then false else test_bit b j))
    ≡ true
unfolding all_bytes each_below same test_bit clear_bit
clear_table = refl

range_table : all_bytes (λ b k j. ltb (set_bit b k) 256 && ltb (clear_bit b k) 256) ≡ true
unfolding all_bytes each_below set_bit clear_bit
range_table = refl

test_bit-set_bit :
    (b k j : ℕ)
    → b < 256
    → k < 8
    → j < 8
    → test_bit (set_bit b k) j ≡ (if k == j then true else test_bit b j)
test_bit-set_bit b k j hb hk hj = same_sound _ _ (all_bytes_sound _ b k j set_table hb hk hj)

test_bit-clear_bit :
    (b k j : ℕ)
    → b < 256
    → k < 8
    → j < 8
    → test_bit (clear_bit b k) j ≡ (if k == j then false else test_bit b j)
test_bit-clear_bit b k j hb hk hj = same_sound _ _ (all_bytes_sound _ b k j clear_table hb hk hj)

bytes_bounds : (b k : ℕ) → b < 256 → k < 8 → (set_bit b k < 256) × (clear_bit b k < 256)
bytes_bounds b k hb hk = ground (arith, all_bytes_sound _ b k 0 range_table hb hk (omega arith))

-- The bit of page `i` is the one that is set, and no other.
pub page_is_used-set_page_used :
    (m : Bitmap) (i j : ℕ)
    → IsByte m
    → page_is_used (set_page_used m i) j ≡ (if i == j then true else page_is_used m j)
unfolding page_is_used set_page_used
page_is_used-set_page_used m i j v =
    ground (arith, v (i / 8), test_bit-set_bit (m (i / 8)) (i % 8) (j % 8))

pub page_is_used-set_page_free :
    (m : Bitmap) (i j : ℕ)
    → IsByte m
    → page_is_used (set_page_free m i) j ≡ (if i == j then false else page_is_used m j)
unfolding page_is_used set_page_free
page_is_used-set_page_free m i j v =
    ground (arith, v (i / 8), test_bit-clear_bit (m (i / 8)) (i % 8) (j % 8))

pub set_page_used-IsByte : (m : Bitmap) (i : ℕ) → IsByte m → IsByte (set_page_used m i)
unfolding set_page_used
set_page_used-IsByte m i v j = ground (arith, v (i / 8), v j, bytes_bounds (m (i / 8)) (i % 8))

pub set_page_free-IsByte : (m : Bitmap) (i : ℕ) → IsByte m → IsByte (set_page_free m i)
unfolding set_page_free
set_page_free-IsByte m i v j = ground (arith, v (i / 8), v j, bytes_bounds (m (i / 8)) (i % 8))
