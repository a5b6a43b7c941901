-- ===== src/Graphics/Clear.antt =====
-- The whole screen in one color.
use hnmos.Prelude.{
  ℕ, zero, suc, ◌-◌, ◌*◌, ◌≤◌, ◌<◌, ◌≡◌, ◌≢◌, refl, ap, ◌∙◌, Bool, true, false, ◌&&◌, ◌||◌, ◌⊎◌,
  inl, inr, leb, ◌==◌, arith, Bool-cases, not, if◌then◌else◌,
}
use mathlib.Core.Path.{subst⁻¹}
use hnmos.Graphics.Framebuffer.{Framebuffer, Memory, put_pixel, clear_row, clear_rows, clear}
use hnmos.Graphics.Pixels.{IsMapped, Apart, picture, shown, put_pixel_lem}

abbrev pub Area : Type 0
Area = ℕ → ℕ → Bool

-- The pixels of an area have the color, the others and all bytes outside the screen stay.
pub record Filled (fb : Framebuffer) (color : ℕ) (area : Area) (before after : Memory)
    : Type 0 where
  pub pixels :
      (x y : ℕ)
      → x < fb.width
      → y < fb.height
      → picture fb after x y ≡ (if area x y then shown fb color else picture fb before x y)
  pub outside : (b : ℕ) → Apart fb.buffer (fb.height * fb.pitch) b 1 → after b ≡ before b

-- One area after another.
pub Filled-or :
    (fb : Framebuffer) (color : ℕ) (a b c : Area) (m n o : Memory)
    → ((x y : ℕ) → x < fb.width → y < fb.height → c x y ≡ (b x y || a x y))
    → Filled fb color a m n
    → Filled fb color b n o
    → Filled fb color c m o
Filled-or fb color a b c m n o e f g = record {
  pixels = λ x y hx hy. g.pixels x y hx hy ∙ ground (arith, f.pixels x y hx hy, e x y hx hy);
  outside = λ i far. g.outside i far ∙ f.outside i far;
}

pub Filled-none :
    (fb : Framebuffer) (color : ℕ) (a : Area) (m : Memory)
    → ((x y : ℕ) → x < fb.width → y < fb.height → a x y ≡ false)
    → Filled fb color a m m
Filled-none fb color a m e = record {
  pixels = λ x y hx hy. rw (e x y hx hy) refl;
  outside = λ i far. refl;
}

abbrev pub spot : ℕ → ℕ → Area
spot x y = λ i j. (i == x) && (j == y)

differ : (x y i j : ℕ) → spot x y i j ≡ false → (x ≢ i) ⊎ (y ≢ j)
differ x y i j e = elim (Bool-cases (i == x)) [
  | inl same ↦ inr (λ f. ground (arith, e, same, f))
  | inr other ↦ inl (λ f. ground (arith, other, f))
]

pub put_pixel-Filled :
    (fb : Framebuffer) (x y color : ℕ) (memory : Memory)
    → IsMapped fb
    → x < fb.width
    → y < fb.height
    → Filled fb color (spot x y) memory (put_pixel fb x y color memory)
put_pixel-Filled fb x y color memory v hx hy =
    let p = put_pixel_lem fb x y color memory v hx hy in
    record {
      pixels = λ i j hi hj. elim (Bool-cases (spot x y i j)) [
        | inl e ↦
            let ei : i ≡ x = ground (arith, e) in
            let ej : j ≡ y = ground (arith, e) in rw (e, ei, ej) p.pixel
        | inr e ↦ rw e (p.others i j hi hj (differ x y i j e))
      ];
      outside = p.outside;
    }

-- The columns from `w - n` on of one row.
clear_row-Filled :
    (fb : Framebuffer) (color y n : ℕ) (memory : Memory)
    → IsMapped fb
    → y < fb.height
    → n ≤ fb.width
    → Filled fb color
        (λ i j. leb (fb.width - n) i && (j == y))
        memory
        (clear_row fb color y n memory)
unfolding clear_row
clear_row-Filled fb color y zero memory v hy h =
    Filled-none fb color _ memory (λ i j hi hj. ground arith)
clear_row-Filled fb color y (suc n) memory v hy h =
    let x = fb.width - suc n in
    let next = put_pixel fb x y color memory in
    Filled-or fb color (spot x y) (λ i j. leb (fb.width - n) i && (j == y)) _ memory next _
      (λ i j hi hj. ground arith) (put_pixel-Filled fb x y color memory v (omega arith) hy)
      (clear_row-Filled fb color y n next v hy (omega arith))

clear_rows-Filled :
    (fb : Framebuffer) (color n : ℕ) (memory : Memory)
    → IsMapped fb
    → n ≤ fb.height
    → Filled fb color (λ i j. leb (fb.height - n) j) memory (clear_rows fb color n memory)
unfolding clear_rows
clear_rows-Filled fb color zero memory v h =
    Filled-none fb color _ memory (λ i j hi hj. ground arith)
clear_rows-Filled fb color (suc n) memory v h =
    let y = fb.height - suc n in
    let next = clear_row fb color y fb.width memory in
    Filled-or fb color (λ i j. leb (fb.width - fb.width) i && (j == y))
      (λ i j. leb (fb.height - n) j) _ memory next _ (λ i j hi hj. ground arith)
      (clear_row-Filled fb color y fb.width memory v (omega arith) (omega arith))
      (clear_rows-Filled fb color n next v (omega arith))

clear-clear_rows :
    (fb : Framebuffer) (color : ℕ) (memory : Memory)
    → fb.available ≡ true
    → clear fb color memory ≡ clear_rows fb color fb.height memory
unfolding clear
clear-clear_rows fb color memory h =
    ap (λ (b : Bool). if not b then memory else clear_rows fb color fb.height memory) h

-- On a screen in one of the three depths, with room for its rows and below 2 ^ 32, clearing gives
-- every pixel the packed color, cut to the depth, and changes no byte outside the screen.
pub clear_lem :
    (fb : Framebuffer) (color : ℕ) (memory : Memory)
    → IsMapped fb
    → Filled fb color (λ x y. true) memory (clear fb color memory)
clear_lem fb color memory v =
    let f = clear_rows-Filled fb color fb.height memory v (omega arith) in
    subst⁻¹ (Filled fb color (λ x y. true) memory) (clear-clear_rows fb color memory v.available)
      (record {
        pixels = λ x y hx hy.
            let all : leb (fb.height - fb.height) y ≡ true = ground arith in
            f.pixels x y hx hy ∙ rw all refl;
        outside = f.outside;
      })
