-- ===== src/Keyboard/Layout.antt =====
-- The keys of the keyboard as its rows show them, and the table and the shift of the driver against
-- these rows.
use Prim.Native.String.{String}
use hnmos.Prelude.{
  ℕ, zero, suc, ◌+◌, ◌-◌, ◌≤◌, ◌<◌, ◌≡◌, refl, sym, ◌∙◌, Bool, true, false, ◌&&◌, inl, inr, List,
  [], ◌∷◌, arith, ltb, leb, ◌==◌, if◌then◌else◌, length, Bool-cases,
}
use mathlib.Core.Path.{subst⁻¹}
use hnmos.Prelude.Buffer.{codes}
use hnmos.Keyboard.{is_shift, scancode_to_char, apply_shift}

-- Keys side by side: the scancode of the first, what they type, and what they type with a shift.
abbrev pub rows : List (ℕ × (String × String))
rows =
    (0x02, ("1234567890-=", "1234567890_+"))
    ∷ (0x10, ("qwertyuiop", "QWERTYUIOP"))
    ∷ (0x1E, ("asdfghjkl", "ASDFGHJKL"))
    ∷ (0x2C, ("zxcvbnm", "ZXCVBNM"))
    ∷ (0x34, ("./", "./"))
    ∷ (0x39, (" ", " "))
    ∷ []

abbrev nth_char : List ℕ → ℕ → ℕ
nth_char [] n = 0
nth_char (c ∷ cs) zero = c
nth_char (c ∷ cs) (suc n) = nth_char cs n

abbrev char_in : List (ℕ × (String × String)) → Bool → ℕ → ℕ
char_in [] shift scancode = 0
char_in ((first, (plain, shifted)) ∷ others) shift scancode =
    let text = codes (if shift then shifted else plain) in
    let rest = char_in others shift scancode in
    if leb first scancode && ltb scancode (first + length text)
    then nth_char text (scancode - first)
    else rest

-- The character that a key types, or NUL.
unfoldable pub typed_char : Bool → ℕ → ℕ
typed_char shift scancode = char_in rows shift scancode

module _ (f g : ℕ → ℕ) where
  abbrev agree_below : ℕ → Bool
  agree_below zero = true
  agree_below (suc n) = let rest = agree_below n in rest && (f n == g n)

  agree_below_lem : (n s : ℕ) → agree_below n ≡ true → s < n → f s ≡ g s
  agree_below_lem zero s h l = absurd (omega arith)
  agree_below_lem (suc n) s h l = elim (Bool-cases (s == n)) [
    | inl e ↦
        let same : s ≡ n = ground (arith, e) in
        let there : f n ≡ g n = ground (arith, h) in subst⁻¹ (λ (k : ℕ). f k ≡ g k) same there
    | inr e ↦ agree_below_lem n s (ground (arith, h)) (ground (arith, e))
  ]

module _ (shift : Bool) where
  agree_below-table :
      agree_below (λ s. apply_shift shift (scancode_to_char s)) (typed_char shift) 0x3A ≡ true
  unfolding apply_shift scancode_to_char typed_char
  agree_below-table = both shift
    where
      both :
          (b : Bool)
          → agree_below (λ s. apply_shift b (scancode_to_char s)) (typed_char b) 0x3A ≡ true
      both false = refl
      both true = refl

  scancode_to_char-high : (s : ℕ) → 0x3A ≤ s → apply_shift shift (scancode_to_char s) ≡ 0
  unfolding apply_shift scancode_to_char
  scancode_to_char-high s h = ground arith

pub typed_char-high : (shift : Bool) (s : ℕ) → 0x3A ≤ s → typed_char shift s ≡ 0
unfolding typed_char
typed_char-high false s h = ground arith
typed_char-high true s h = ground arith

-- The two shift keys type nothing.
pub typed_char-shift_keys : (shift : Bool) (s : ℕ) → is_shift s ≡ true → typed_char shift s ≡ 0
unfolding typed_char
typed_char-shift_keys false s h = ground (arith, h)
typed_char-shift_keys true s h = ground (arith, h)

-- The table and the shift give what the rows show.
pub apply_shift-typed_char :
    (shift : Bool) (s : ℕ) → apply_shift shift (scancode_to_char s) ≡ typed_char shift s
apply_shift-typed_char shift s = elim (Bool-cases (ltb s 0x3A)) [
  | inl low ↦
      agree_below_lem (λ c. apply_shift shift (scancode_to_char c)) (typed_char shift) 0x3A s
        (agree_below-table shift) (ground (arith, low))
  | inr high ↦
      let far : 0x3A ≤ s = ground (arith, high) in
      scancode_to_char-high shift s far ∙ sym (typed_char-high shift s far)
]
