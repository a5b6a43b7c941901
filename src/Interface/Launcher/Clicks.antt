-- ===== src/Interface/Launcher/Clicks.antt =====
-- A click on the launcher: what is pressed, and what the release asks for.
use hnmos.Prelude.{
  ℕ, zero, suc, ◌+◌, ◌^◌, ◌<◌, ◌≡◌, refl, ap, ◌∙◌, Bool, true, false, Option, none, some, List, [],
  ◌∷◌, if◌then◌else◌, arith, map, Bool-cases, inl, inr,
}
use hnmos.Interface.Launcher.{
  Button, Launcher, Request, stay, point_in_rect, hit_test, hover, press, let_go, pressed_from,
  is_index, hits, panel_x, render, update_hover, mouse_down, mouse_up, activate_item,
}
use hnmos.Interface.Launcher.Places.{
  items_at, placed_items_lem, panel_x-bound, under, same, hit_item, hits-under,
}

-- A change of the marks of a button leaves what it is hit by.
hits-map :
    (f : Button → Button) (bs : List Button) (i x y : ℕ)
    → ((b : Button) → (f b).rect ≡ b.rect)
    → hits (map f bs) i x y ≡ hits bs i x y
unfolding hit_test
hits-map f [] i x y e = refl
hits-map f (b ∷ bs) zero x y e = ap (λ r. point_in_rect x y r) (e b)
hits-map f (b ∷ bs) (suc i) x y e = hits-map f bs i x y e

-- The item that is pressed is the one under the pointer.
pressed_from-under :
    (p x y : ℕ)
    → p + 600 < 2 ^ 32
    → pressed_from (map (hover x y) (items_at p)) 0 none ≡ under p x y
unfolding pressed_from under
pressed_from-under p x y h =
    rw
      (
        hit_item x y (p + 64) 262 (omega arith) (omega arith),
        hit_item x y (p + 316) 262 (omega arith) (omega arith),
        hit_item x y (p + 64) 338 (omega arith) (omega arith),
        hit_item x y (p + 316) 338 (omega arith) (omega arith),
        hit_item x y (p + 190) 414 (omega arith) (omega arith),
      )
      (ground arith)

-- The index of an item under the pointer is one of the five.
under-bound : (p x y i : ℕ) → under p x y ≡ some i → i < 5
unfolding under
under-bound p x y i h = ground (arith, h)

-- The launcher with the pointer pressed somewhere.
pressed_at : (w x y : ℕ) → Launcher → Launcher
pressed_at w x y l = record l {
  items = map press (map (hover x y) (items_at (panel_x w)));
  pressed_index = under (panel_x w) x y;
}

mouse_down-render :
    (w x y : ℕ) (l : Launcher)
    → w < 2 ^ 32
    → l.ready ≡ true
    → mouse_down x y (render w l) ≡ (is_index (under (panel_x w) x y), pressed_at w x y l)
unfolding mouse_down render update_hover pressed_at
mouse_down-render w x y l h r =
    let e = pressed_from-under (panel_x w) x y (panel_x-bound w h) in
    rw (r, placed_items_lem w h, e) refl

-- What a release at a point asks for, when `index` is pressed.
abbrev pub released_at : ℕ → ℕ → ℕ → Option ℕ → Bool × Request
released_at w x y none = (false, stay)
released_at w x y (some index) =
    if same (under (panel_x w) x y) index then (true, activate_item index) else (false, stay)

abbrev pub asked : Bool × Request × Launcher → Bool × Request
asked (used, request, l) = (used, request)

mouse_up-none :
    (x y : ℕ) (l : Launcher) → l.pressed_index ≡ none → asked (mouse_up x y l) ≡ (false, stay)
unfolding mouse_up
mouse_up-none x y l e = rw (e, mouse_up) refl

mouse_up-some :
    (x y i : ℕ) (l : Launcher)
    → l.pressed_index ≡ some i
    → asked (mouse_up x y l)
      ≡ (if hits l.items i x y then (true, activate_item i) else (false, stay))
unfolding mouse_up update_hover
mouse_up-some x y i l e =
    let kept : hits (map let_go (map (hover x y) l.items)) i x y ≡ hits l.items i x y =
      hits-map let_go (map (hover x y) l.items) i x y (λ b. refl)
      ∙ hits-map (hover x y) l.items i x y (λ b. refl) in
    elim (Bool-cases (hits l.items i x y)) [
      | inl h ↦ rw (e, kept, h, mouse_up, update_hover) refl
      | inr h ↦ rw (e, kept, h, mouse_up, update_hover) refl
    ]

mouse_up-pressed_at :
    (w px py x y : ℕ) (l : Launcher) (index : Option ℕ)
    → w < 2 ^ 32
    → under (panel_x w) px py ≡ index
    → asked (mouse_up x y (pressed_at w px py l)) ≡ released_at w x y index
unfolding pressed_at
mouse_up-pressed_at w px py x y l none h e = mouse_up-none x y _ e
mouse_up-pressed_at w px py x y l (some i) h e =
    let items = map (hover px py) (items_at (panel_x w)) in
    mouse_up-some x y i _ e
    ∙ ap (λ (b : Bool). if b then (true, activate_item i) else (false, stay))
        (hits-map press items i x y (λ b. refl)
          ∙ hits-map (hover px py) (items_at (panel_x w)) i x y (λ b. refl)
          ∙ hits-under (panel_x w) x y i (panel_x-bound w h) (under-bound (panel_x w) px py i e))

-- On a launcher that is ready and shown on a screen of any width below 2 ^ 32, pressing the button
-- of the mouse is used exactly if an item is under the pointer, and the release that follows
-- activates that item if it is under the pointer then too, and asks for nothing otherwise.
pub click_lem :
    (w px py x y : ℕ) (l : Launcher)
    → w < 2 ^ 32
    → l.ready ≡ true
    → ((mouse_down px py (render w l)).0 ≡ is_index (under (panel_x w) px py))
      × (asked (mouse_up x y (mouse_down px py (render w l)).1)
          ≡ released_at w x y (under (panel_x w) px py))
click_lem w px py x y l h r =
    let e = mouse_down-render w px py l h r in
    (
      ap (λ d. d.0) e,
      ap (λ (d : Bool × Launcher). asked (mouse_up x y d.1)) e
          ∙ mouse_up-pressed_at w px py x y l (under (panel_x w) px py) h refl,
    )
