-- ===== src/Interface/Launcher/Places.antt =====
-- Where the buttons of the launcher stand.
use hnmos.Prelude.{
  ℕ, ◌+◌, ◌∙◌, ◌^◌, ◌≤◌, ◌<◌, ◌≡◌, refl, Bool, false, ◌&&◌, Option, none, some, List, [], ◌∷◌, ltb,
  leb, ◌==◌, if◌then◌else◌, arith, zero, suc, add32, sub32,
}
use hnmos.Interface.Launcher.{
  Rect, Button, point_in_rect, hit_test, placed_items, item, panel_x, hits,
}

-- The test is the one of the rectangle's points, when it does not pass 2 ^ 32.
pub point_in_rect_lem :
    (x y : ℕ) (r : Rect)
    → r.x + r.width < 2 ^ 32
    → r.y + r.height < 2 ^ 32
    → point_in_rect x y r
      ≡ (leb r.x x && ltb x (r.x + r.width) && leb r.y y && ltb y (r.y + r.height))
unfolding point_in_rect
point_in_rect_lem x y r h k = ground arith

-- A rectangle that passes 2 ^ 32 is hit nowhere.
pub point_in_rect-wraps :
    (x y : ℕ) (r : Rect)
    → r.x < 2 ^ 32
    → r.width < 2 ^ 32
    → 2 ^ 32 ≤ r.x + r.width
    → point_in_rect x y r ≡ false
unfolding point_in_rect
point_in_rect-wraps x y r h k w = ground arith

-- The left edge of the panel leaves room for it below 2 ^ 32.
pub panel_x-bound : (w : ℕ) → w < 2 ^ 32 → panel_x w + 600 < 2 ^ 32
unfolding panel_x
panel_x-bound w h = ground arith

pub hit_item :
    (x y a b : ℕ)
    → a + 220 < 2 ^ 32
    → b + 56 < 2 ^ 32
    → hit_test (item a b) x y ≡ (leb a x && ltb x (a + 220) && leb b y && ltb y (b + 56))
unfolding hit_test
hit_item x y a b h k = point_in_rect_lem x y (item a b).rect h k

-- The items, by the left edge of the panel.
abbrev pub items_at : ℕ → List Button
items_at p =
    item (p + 64) 262
    ∷ item (p + 316) 262
    ∷ item (p + 64) 338
    ∷ item (p + 316) 338
    ∷ item (p + 190) 414
    ∷ []

pub placed_items_lem : (w : ℕ) → w < 2 ^ 32 → placed_items w ≡ items_at (panel_x w)
unfolding placed_items
placed_items_lem w h =
    let p = panel_x-bound w h in
    let left : add32 (panel_x w) 64 ≡ panel_x w + 64 = omega arith in
    let right : sub32 (sub32 (add32 (panel_x w) 600) 64) 220 ≡ panel_x w + 316 = omega arith in
    let center : add32 (panel_x w) 190 ≡ panel_x w + 190 = omega arith in
    rw (left, right, center) refl

-- The item at a point of the screen, by the columns and rows of the panel.
unfoldable pub under : ℕ → ℕ → ℕ → Option ℕ
under p x y =
    let left = leb (p + 64) x && ltb x (p + 284) in
    let right = leb (p + 316) x && ltb x (p + 536) in
    let center = leb (p + 190) x && ltb x (p + 410) in
    let top = leb 262 y && ltb y 318 in
    let middle = leb 338 y && ltb y 394 in
    let bottom = leb 414 y && ltb y 470 in
    if left && top
    then some 0
    else (if right && top
        then some 1
        else (if left && middle
            then some 2
            else (if right && middle then some 3 else (if center && bottom then some 4 else none))))

abbrev pub same : Option ℕ → ℕ → Bool
same none i = false
same (some j) i = j == i

-- The item at a point is the only one that is hit there.
pub hits-under :
    (p x y i : ℕ) → p + 600 < 2 ^ 32 → i < 5 → hits (items_at p) i x y ≡ same (under p x y) i
unfolding under
hits-under p x y zero h k = hit_item x y (p + 64) 262 (omega arith) (omega arith) ∙ ground arith
hits-under p x y (suc zero) h k =
    hit_item x y (p + 316) 262 (omega arith) (omega arith) ∙ ground arith
hits-under p x y (suc (suc zero)) h k =
    hit_item x y (p + 64) 338 (omega arith) (omega arith) ∙ ground arith
hits-under p x y (suc (suc (suc zero))) h k =
    hit_item x y (p + 316) 338 (omega arith) (omega arith) ∙ ground arith
hits-under p x y (suc (suc (suc (suc zero)))) h k =
    hit_item x y (p + 190) 414 (omega arith) (omega arith) ∙ ground arith
hits-under p x y (suc (suc (suc (suc (suc i))))) h k = absurd (omega arith)
