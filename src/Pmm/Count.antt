-- ===== src/Pmm/Count.antt =====
-- The number of free pages that a bitmap shows, and how one changed bit changes it.
use hnmos.Prelude.{
  ℕ, zero, suc, ◌+◌, ◌≤◌, ◌<◌, ◌≡◌, refl, Bool, true, false, arith, ◌==◌, if◌then◌else◌, Bool-cases,
  inl, inr,
}

abbrev pub count_free : (ℕ → Bool) → ℕ → ℕ
count_free used zero = 0
count_free used (suc n) = count_free used n + (if used n then 0 else 1)

pub count_free-le : (used : ℕ → Bool) (n : ℕ) → count_free used n ≤ n
count_free-le used zero = omega arith
count_free-le used (suc n) = ground (arith, count_free-le used n)

-- Bitmaps that agree below `n` count alike.
pub count_free-same :
    (u v : ℕ → Bool) (n : ℕ) → ((j : ℕ) → j < n → u j ≡ v j) → count_free u n ≡ count_free v n
count_free-same u v zero h = refl
count_free-same u v (suc n) h =
    ground (arith, count_free-same u v n (λ j l. h j (omega arith)), h n (omega arith))

-- The bit at `i` changes from used to free.
pub count_free-freed :
    (u v : ℕ → Bool) (n i : ℕ)
    → i < n
    → u i ≡ true
    → ((j : ℕ) → v j ≡ (if i == j then false else u j))
    → count_free v n ≡ count_free u n + 1
count_free-freed u v zero i l e h = absurd (omega arith)
count_free-freed u v (suc n) i l e h = elim (Bool-cases (i == n)) [
  | inl t ↦ ground (arith, h n, count_free-same v u n (λ j k. ground (arith, h j)))
  | inr f ↦ ground (arith, h n, count_free-freed u v n i (ground arith) e h)
]

pub all_used : (u : ℕ → Bool) (n : ℕ) → ((j : ℕ) → j < n → u j ≡ true) → count_free u n ≡ 0
all_used u zero h = refl
all_used u (suc n) h = ground (arith, h n (omega arith), all_used u n (λ j l. h j (omega arith)))

pub count_free-zero : (u : ℕ → Bool) (n j : ℕ) → count_free u n ≡ 0 → j < n → u j ≡ true
count_free-zero u zero j e l = absurd (omega arith)
count_free-zero u (suc n) j e l = elim (Bool-cases (j == n)) [
  | inl t ↦ ground arith
  | inr f ↦ count_free-zero u n j (ground arith) (ground arith)
]
