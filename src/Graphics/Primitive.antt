-- ===== src/Graphics/Primitive.antt =====
-- Rectangles, kernel01/kernel/graphics/primitive.c.
pub mod Filling
use hnmos.Prelude.{
  ℕ, zero, suc, ◌+◌, ◌-◌, Bool, true, false, not, ◌||◌, ltb, leb, ◌==◌, if◌then◌else◌, add32, sub32,
}
use hnmos.Graphics.Framebuffer.{Framebuffer, Memory, put_pixel}

-- The inner loop of `hnm_draw_fill_rect` from the column `col` on, with `n` columns to go.
unfoldable pub fill_columns : Framebuffer → ℕ → ℕ → ℕ → ℕ → Memory → Memory
fill_columns fb color row zero col memory = memory
fill_columns fb color row (suc n) col memory =
    fill_columns fb color row n (col + 1) (put_pixel fb col row color memory)

-- The outer loop from the row `row` on, with `n` rows to go.
unfoldable pub fill_rows : Framebuffer → ℕ → ℕ → ℕ → ℕ → ℕ → Memory → Memory
fill_rows fb color x columns zero row memory = memory
fill_rows fb color x columns (suc n) row memory =
    fill_rows fb color x columns n (row + 1) (fill_columns fb color row columns x memory)

-- `end_x` and `end_y`: the end of a side, cut at the screen's.
unfoldable pub clipped_end : ℕ → ℕ → ℕ → ℕ
clipped_end start size limit =
    let end = add32 start size in if ltb limit end || ltb end start then limit else end

unfoldable pub fill_rect : Framebuffer → ℕ → ℕ → ℕ → ℕ → ℕ → Memory → Memory
fill_rect fb x y width height color memory =
    let columns = clipped_end x width fb.width - x in
    let rows = clipped_end y height fb.height - y in
    if not fb.available || (width == 0) || (height == 0)
    then memory
    else (if leb fb.width x || leb fb.height y
        then memory
        else fill_rows fb color x columns rows y memory)

unfoldable pub draw_rect : Framebuffer → ℕ → ℕ → ℕ → ℕ → ℕ → Memory → Memory
draw_rect fb x y width height color memory =
    let top = fill_rect fb x y width 1 color memory in
    let bottom = fill_rect fb x (sub32 (add32 y height) 1) width 1 color top in
    let left = fill_rect fb x y 1 height color bottom in
    let right = fill_rect fb (sub32 (add32 x width) 1) y 1 height color left in
    if (width == 0) || (height == 0) then memory else right
