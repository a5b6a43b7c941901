-- ===== src/Graphics/Bus.antt =====
-- The search of the bus for a display: `hnm_bga_find_lfb_address` finds the first one.
use mathlib.Core.Path.{subst⁻¹}
use hnmos.Prelude.{
  ℕ, zero, suc, ◌-◌, ◌/◌, ◌%◌, ◌^◌, ◌≤◌, ◌<◌, ◌≡◌, refl, Bool, true, false, not, ◌&&◌, ◌⊎◌, inl,
  inr, ◌==◌, ltb, arith, Bool-cases,
}
use hnmos.Graphics.Framebuffer.{Adapter, find_lfb_from, find_lfb_address}

-- A device that is there, is a display, and has its first base address in memory.
abbrev pub displays : Adapter → ℕ → Bool
displays a d =
    not (a.read_config d 0 % 65536 == 0xFFFF)
    && (a.read_config d 8 / 2 ^ 24 % 256 == 3)
    && (a.read_config d 16 % 2 == 0)

-- That address, without its four lowest bits.
abbrev pub base_address : Adapter → ℕ → ℕ
base_address a d = a.read_config d 16 - a.read_config d 16 % 16

-- The first display of the devices from `start` to 31.
pub record IsFirst (a : Adapter) (start d : ℕ) : Type 0 where
  pub from : start ≤ d
  pub below : d < 32
  pub is_display : displays a d ≡ true
  pub no_earlier : (e : ℕ) → start ≤ e → e < d → displays a e ≡ false

abbrev pub Found : Adapter → ℕ → ℕ → Type 0
Found a start r =
    ((d : ℕ) × IsFirst a start d × (r ≡ base_address a d))
    ⊎ (((d : ℕ) → start ≤ d → d < 32 → displays a d ≡ false) × (r ≡ 0))

find_lfb_from-Found : (a : Adapter) (n : ℕ) → n ≤ 32 → Found a (32 - n) (find_lfb_from a n)
unfolding find_lfb_from
find_lfb_from-Found a zero h = inr ((λ d lo hi. absurd (omega arith)), refl)
find_lfb_from-Found a (suc n) h = elim (Bool-cases (displays a (31 - n))) [
  | inl here ↦ inl (
    31 - n,
    record {
      from = omega arith;
      below = omega arith;
      is_display = here;
      no_earlier = λ e lo hi. absurd (omega arith);
    },
    ground (arith, here),
  )
  | inr not_here ↦
      let same : find_lfb_from a (suc n) ≡ find_lfb_from a n = ground (arith, not_here) in
      subst⁻¹ (Found a (32 - suc n)) same (later not_here (find_lfb_from-Found a n (omega arith)))
]
  where
    here_only : (e : ℕ) → displays a (31 - n) ≡ false → e ≡ 31 - n → displays a e ≡ false
    here_only e off same = subst⁻¹ (λ (k : ℕ). displays a k ≡ false) same off

    later :
        displays a (31 - n) ≡ false
        → Found a (32 - n) (find_lfb_from a n)
        → Found a (32 - suc n) (find_lfb_from a n)
    later off (inl (d, first, e)) = inl (
      d,
      record {
        from = omega (arith, first.from);
        below = first.below;
        is_display = first.is_display;
        no_earlier = λ k lo hi. elim (Bool-cases (k == 31 - n)) [
          | inl at_start ↦ here_only k off (ground (arith, at_start))
          | inr behind ↦ first.no_earlier k (ground (arith, behind, h)) hi
        ];
      },
      e,
    )
    later off (inr (nowhere, e)) = inr (
      (λ k lo hi. elim (Bool-cases (k == 31 - n)) [
        | inl at_start ↦ here_only k off (ground (arith, at_start))
        | inr behind ↦ nowhere k (ground (arith, behind, h)) hi
      ]),
      e,
    )

pub find_lfb_address-Found : (a : Adapter) → Found a 0 (find_lfb_address a)
unfolding find_lfb_address
find_lfb_address-Found a = find_lfb_from-Found a 32 (omega arith)

-- There is one first display.
pub IsFirst-unique : (a : Adapter) (d e : ℕ) → IsFirst a 0 d → IsFirst a 0 e → d ≡ e
IsFirst-unique a d e f g = elim (Bool-cases (ltb d e)) [
  | inl before ↦ absurd (clash f.is_display (g.no_earlier d (omega arith) (ground (arith, before))))
  | inr other ↦ elim (Bool-cases (ltb e d)) [
    | inl behind ↦
        absurd (clash g.is_display (f.no_earlier e (omega arith) (ground (arith, behind))))
    | inr same ↦ ground (arith, other, same)
  ]
]
  where
    clash : {b : Bool} → b ≡ true → b ≡ false → ⊥
    clash t f = ground (arith, t, f)
