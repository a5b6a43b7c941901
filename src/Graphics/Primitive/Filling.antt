-- ===== src/Graphics/Primitive/Filling.antt =====
-- A rectangle fills its part of the screen, and its outline the border of that.
use hnmos.Prelude.{
  ℕ, zero, suc, ◌+◌, ◌-◌, ◌^◌, ◌≤◌, ◌<◌, ◌≡◌, refl, ◌∙◌, Bool, true, false, not, ◌&&◌, ◌||◌, ltb,
  leb, ◌==◌, if◌then◌else◌, arith, Bool-cases, inl, inr, add32, sub32,
}
use mathlib.Core.Path.{subst⁻¹}
use hnmos.Graphics.Framebuffer.{Framebuffer, Memory, put_pixel}
use hnmos.Graphics.Pixels.{IsMapped}
use hnmos.Graphics.Clear.{Area, Filled, Filled-or, Filled-none, put_pixel-Filled, spot}
use hnmos.Graphics.Primitive.{fill_columns, fill_rows, clipped_end, fill_rect, draw_rect}

fill_columns-Filled :
    (fb : Framebuffer) (color row n col : ℕ) (memory : Memory)
    → IsMapped fb
    → row < fb.height
    → col + n ≤ fb.width
    → Filled fb color
        (λ i j. leb col i && ltb i (col + n) && (j == row))
        memory
        (fill_columns fb color row n col memory)
unfolding fill_columns
fill_columns-Filled fb color row zero col memory v hr h =
    Filled-none fb color _ memory (λ i j hi hj. ground arith)
fill_columns-Filled fb color row (suc n) col memory v hr h =
    let next = put_pixel fb col row color memory in
    Filled-or fb color (spot col row) (λ i j. leb (col + 1) i && ltb i (col + 1 + n) && (j == row))
      _ memory next _ (λ i j hi hj. ground arith)
      (put_pixel-Filled fb col row color memory v (omega arith) hr)
      (fill_columns-Filled fb color row n (col + 1) next v hr (omega arith))

fill_rows-Filled :
    (fb : Framebuffer) (color x columns n row : ℕ) (memory : Memory)
    → IsMapped fb
    → x + columns ≤ fb.width
    → row + n ≤ fb.height
    → Filled fb color
        (λ i j. leb x i && ltb i (x + columns) && leb row j && ltb j (row + n))
        memory
        (fill_rows fb color x columns n row memory)
unfolding fill_rows
fill_rows-Filled fb color x columns zero row memory v hx h =
    Filled-none fb color _ memory (λ i j hi hj. ground arith)
fill_rows-Filled fb color x columns (suc n) row memory v hx h =
    let next = fill_columns fb color row columns x memory in
    Filled-or fb color (λ i j. leb x i && ltb i (x + columns) && (j == row))
      (λ i j. leb x i && ltb i (x + columns) && leb (row + 1) j && ltb j (row + 1 + n)) _ memory
      next _ (λ i j hi hj. ground arith)
      (fill_columns-Filled fb color row columns x memory v (omega arith) hx)
      (fill_rows-Filled fb color x columns n (row + 1) next v hx (omega arith))

-- The points of a rectangle, without a wrap.
abbrev pub rectangle : ℕ → ℕ → ℕ → ℕ → Area
rectangle x y width height = λ i j. leb x i && ltb i (x + width) && leb y j && ltb j (y + height)

clipped_end_lem :
    (start size limit : ℕ)
    → start < limit
    → limit < 2 ^ 32
    → size < 2 ^ 32
    → clipped_end start size limit ≡ (if ltb limit (start + size) then limit else start + size)
unfolding clipped_end
clipped_end_lem start size limit h l s = ground arith

-- Another area with the same points on the screen.
Filled-same :
    (fb : Framebuffer) (color : ℕ) (a b : Area) (m n : Memory)
    → ((x y : ℕ) → x < fb.width → y < fb.height → b x y ≡ a x y)
    → Filled fb color a m n
    → Filled fb color b m n
Filled-same fb color a b m n e f = record {
  pixels = λ x y hx hy. f.pixels x y hx hy ∙ ground (arith, e x y hx hy);
  outside = f.outside;
}

-- No point of the rectangle is on the screen.
abbrev misses : Framebuffer → ℕ → ℕ → ℕ → ℕ → Bool
misses fb x y width height = (width == 0) || (height == 0) || leb fb.width x || leb fb.height y

fill_rect-misses :
    (fb : Framebuffer) (x y width height color : ℕ) (memory : Memory)
    → misses fb x y width height ≡ true
    → fill_rect fb x y width height color memory ≡ memory
unfolding fill_rect
fill_rect-misses fb x y width height color memory e =
    elim (Bool-cases (not fb.available || (width == 0) || (height == 0))) [
      | inl a ↦ simp a refl
      | inr a ↦
          let off : (leb fb.width x || leb fb.height y) ≡ true = ground (arith, e, a) in
          simp (a, off) refl
    ]

fill_rect-fills :
    (fb : Framebuffer) (x y width height color : ℕ) (memory : Memory)
    → fb.available ≡ true
    → misses fb x y width height ≡ false
    → fill_rect fb x y width height color memory
      ≡ fill_rows fb color x
          (clipped_end x width fb.width - x)
          (clipped_end y height fb.height - y)
          y
          memory
unfolding fill_rect
fill_rect-fills fb x y width height color memory av e =
    let a : (not fb.available || (width == 0) || (height == 0)) ≡ false = ground (arith, e, av) in
    let on : (leb fb.width x || leb fb.height y) ≡ false = ground (arith, e) in simp (a, on) refl

-- On a screen in one of the three depths, with room for its rows and below 2 ^ 32, filling a
-- rectangle gives the packed color to exactly the pixels of the screen that are points of the
-- rectangle, which may reach past the screen and past 2 ^ 32, and changes no byte outside the screen.
pub fill_rect_lem :
    (fb : Framebuffer) (x y width height color : ℕ) (memory : Memory)
    → IsMapped fb
    → fb.width < 2 ^ 32
    → fb.height < 2 ^ 32
    → width < 2 ^ 32
    → height < 2 ^ 32
    → Filled fb color
        (rectangle x y width height)
        memory
        (fill_rect fb x y width height color memory)
fill_rect_lem fb x y width height color memory v wb hb ww hh =
    elim (Bool-cases (misses fb x y width height)) [
      | inl e ↦
          subst⁻¹ (Filled fb color (rectangle x y width height) memory)
            (fill_rect-misses fb x y width height color memory e)
            (Filled-none fb color _ memory (λ i j hi hj. ground (arith, e)))
      | inr e ↦
          let hx : x < fb.width = ground (arith, e) in
          let hy : y < fb.height = ground (arith, e) in
          let cx = clipped_end_lem x width fb.width hx wb ww in
          let cy = clipped_end_lem y height fb.height hy hb hh in
          let columns = clipped_end x width fb.width - x in
          let rows = clipped_end y height fb.height - y in
          subst⁻¹ (Filled fb color (rectangle x y width height) memory)
            (fill_rect-fills fb x y width height color memory v.available e)
            (Filled-same fb color (rectangle x y columns rows) (rectangle x y width height) memory _
              (λ i j hi hj. ground (arith, cx, cy))
              (fill_rows-Filled fb color x columns rows y memory v (ground (arith, cx))
                (ground (arith, cy))))
    ]

-- The points on the sides of a rectangle.
abbrev pub outline : ℕ → ℕ → ℕ → ℕ → Area
outline x y width height = λ i j.
    rectangle x y width height i j
    && ((j == y) || (j + 1 == y + height) || (i == x) || (i + 1 == x + width))

both : Area → Area → Area
both a b = λ i j. b i j || a i j

Filled-both :
    (fb : Framebuffer) (color : ℕ) (a b : Area) (m n o : Memory)
    → Filled fb color a m n
    → Filled fb color b n o
    → Filled fb color (both a b) m o
unfolding both
Filled-both fb color a b m n o f g = Filled-or fb color a b (both a b) m n o (λ i j hi hj. refl) f g

four_sides :
    (x y width height i j : ℕ)
    → 0 < width
    → 0 < height
    → outline x y width height i j
      ≡ both
          (both
            (both (rectangle x y width 1) (rectangle x (y + height - 1) width 1))
            (rectangle x y 1 height))
          (rectangle (x + width - 1) y 1 height)
          i
          j
unfolding both
four_sides x y width height i j w h = ground arith

-- On such a screen drawing a rectangle gives the color to exactly the pixels of the screen that lie on
-- its sides, when it ends below 2 ^ 32.
pub draw_rect_lem :
    (fb : Framebuffer) (x y width height color : ℕ) (memory : Memory)
    → IsMapped fb
    → fb.width < 2 ^ 32
    → fb.height < 2 ^ 32
    → x + width < 2 ^ 32
    → y + height < 2 ^ 32
    → 0 < width
    → 0 < height
    → Filled fb color (outline x y width height) memory (draw_rect fb x y width height color memory)
unfolding draw_rect
draw_rect_lem fb x y width height color memory v wb hb ww hh w h =
    let some_size : ((width == 0) || (height == 0)) ≡ false = ground arith in
    let last_row : sub32 (add32 y height) 1 ≡ y + height - 1 = omega arith in
    let last_column : sub32 (add32 x width) 1 ≡ x + width - 1 = omega arith in
    let top = fill_rect fb x y width 1 color memory in
    let bottom = fill_rect fb x (y + height - 1) width 1 color top in
    let left = fill_rect fb x y 1 height color bottom in
    simp (some_size, last_row, last_column)
      (Filled-same fb color _ (outline x y width height) memory _
        (λ i j hi hj. four_sides x y width height i j w h)
        (Filled-both fb color _ (rectangle (x + width - 1) y 1 height) memory left _
          (Filled-both fb color _ (rectangle x y 1 height) memory bottom _
            (Filled-both fb color (rectangle x y width 1) (rectangle x (y + height - 1) width 1)
              memory top _
              (fill_rect_lem fb x y width 1 color memory v wb hb (omega arith) (omega arith))
              (fill_rect_lem fb x (y + height - 1) width 1 color top v wb hb (omega arith)
                (omega arith)))
            (fill_rect_lem fb x y 1 height color bottom v wb hb (omega arith) (omega arith)))
          (fill_rect_lem fb (x + width - 1) y 1 height color left v wb hb (omega arith)
            (omega arith))))
