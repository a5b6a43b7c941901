-- ===== src/Interface/Launcher.antt =====
-- The launcher, kernel01/kernel/interface/launcher.c, with the hit test of widgets/button.c and
-- widgets/rect.c. Of what is drawn only the places of the buttons are kept; the screen that a click
-- or a key opens is a result, which the router acts on.
pub mod Places
pub mod Clicks
use hnmos.Prelude.{
  ℕ, zero, suc, ◌+◌, ◌-◌, ◌/◌, Bool, true, false, not, ◌&&◌, ◌||◌, Option, none, some, List, [],
  ◌∷◌, ltb, leb, ◌==◌, if◌then◌else◌, get_elem?, map, add32, sub32,
}
use hnmos.Interface.Events.{
  Event, EventType, no_event, key_down, key_char, mouse_move, mouse_button_down, mouse_button_up,
}

-- `enum hnm_screen_id`
pub data ScreenId : Type 0 where
  launcher terminal system memory ai_studio screen_count : ScreenId

-- `struct hnm_ui_rect`
pub record Rect : Type 0 where
  pub x : ℕ
  pub y : ℕ
  pub width : ℕ
  pub height : ℕ

unfoldable pub point_in_rect : ℕ → ℕ → Rect → Bool
point_in_rect x y rect =
    let end_x = add32 rect.x rect.width in
    let end_y = add32 rect.y rect.height in
    if (rect.width == 0) || (rect.height == 0)
    then false
    else (if ltb end_x rect.x || ltb end_y rect.y
        then false
        else leb rect.x x && ltb x end_x && leb rect.y y && ltb y end_y)

-- `struct hnm_ui_button`, without its text and colors.
pub record Button : Type 0 where
  pub rect : Rect
  pub hovered : Bool
  pub pressed : Bool

unfoldable pub hit_test : Button → ℕ → ℕ → Bool
hit_test b x y = point_in_rect x y b.rect

-- The static variables; the index `none` is -1.
pub record Launcher : Type 0 where
  pub items : List Button
  pub pressed_index : Option ℕ
  pub ready : Bool

-- `hnm_launcher_set_item`, the button that it makes of the item.
abbrev pub item : ℕ → ℕ → Button
item x y = record {
  rect = record { x = x; y = y; width = 220; height = 56 };
  hovered = false;
  pressed = false;
}

unfoldable pub panel_x : ℕ → ℕ
panel_x screen_width = if ltb 600 screen_width then sub32 screen_width 600 / 2 else 24

-- The five calls of `hnm_launcher_set_item` in `hnm_launcher_render_home`.
unfoldable pub placed_items : ℕ → List Button
placed_items screen_width =
    let left_x = add32 (panel_x screen_width) 64 in
    let right_x = sub32 (sub32 (add32 (panel_x screen_width) 600) 64) 220 in
    let center_x = add32 (panel_x screen_width) 190 in
    item left_x 262 ∷ item right_x 262 ∷ item left_x 338 ∷ item right_x 338 ∷ item center_x 414 ∷ []

unfoldable pub render : ℕ → Launcher → Launcher
render screen_width l = if l.ready then record l { items = placed_items screen_width } else l

unfoldable pub init : Bool → Launcher → Launcher
init available l =
    if not available
    then record l { ready = false }
    else record l { pressed_index = none; ready = true }

abbrev pub released : Button → Button
released b = record b { hovered = false; pressed = false }

unfoldable pub on_enter : Launcher → Launcher
on_enter l = record l { pressed_index = none; items = map released l.items }

unfoldable pub on_exit : Launcher → Launcher
on_exit l = record l { pressed_index = none }

abbrev pub hover : ℕ → ℕ → Button → Button
hover x y b = record b { hovered = hit_test b x y }

unfoldable pub update_hover : ℕ → ℕ → Launcher → Launcher
update_hover x y l = record l { items = map (hover x y) l.items }

-- The last of the items from the index `i` on that the pointer is over, and before them `found`.
unfoldable pub pressed_from : List Button → ℕ → Option ℕ → Option ℕ
pressed_from [] i found = found
pressed_from (b ∷ bs) i found = pressed_from bs (i + 1) (if b.hovered then some i else found)

abbrev pub press : Button → Button
press b = record b { pressed = b.hovered }

abbrev pub is_index : Option ℕ → Bool
is_index none = false
is_index (some i) = true

unfoldable pub mouse_down : ℕ → ℕ → Launcher → Bool × Launcher
mouse_down x y l =
    let over = update_hover x y l in
    let index = pressed_from over.items 0 none in
    (is_index index, record over { pressed_index = index; items = map press over.items })

-- What a handler asks for: nothing, a screen or the end.
pub data Request : Type 0 where
  stay : Request
  open_screen : ScreenId → Request
  shut_down : Request

-- `hnm_launcher_activate_item`
unfoldable pub activate_item : ℕ → Request
activate_item index =
    if index == 0
    then open_screen terminal
    else (if index == 1
        then open_screen system
        else (if index == 2
            then open_screen memory
            else (if index == 3
                then open_screen ai_studio
                else (if index == 4 then shut_down else stay))))

abbrev pub hits : List Button → ℕ → ℕ → ℕ → Bool
hits items index x y = elim (get_elem? items index) [ none ↦ false | some b ↦ hit_test b x y ]

abbrev pub let_go : Button → Button
let_go b = record b { pressed = false }

-- Whether the event was used, what it asks for, and the launcher; an activation sets the index to -1,
-- which it is already.
unfoldable pub mouse_up : ℕ → ℕ → Launcher → Bool × Request × Launcher
mouse_up x y l =
    let over = update_hover x y l in
    let free : Launcher = record over { pressed_index = none; items = map let_go over.items } in
    elim l.pressed_index [
      | none ↦ (false, stay, free)
      | some index ↦
          if hits free.items index x y
          then (true, activate_item index, free)
          else (false, stay, free)
    ]

-- `hnm_launcher_open` sets the index to -1; the shut-down does not.
unfoldable pub handle_shortcut : ℕ → Launcher → Bool × Request × Launcher
handle_shortcut character l =
    let opened : Launcher = record l { pressed_index = none } in
    if character == b'1'
    then (true, open_screen terminal, opened)
    else (if character == b'2'
        then (true, open_screen system, opened)
        else (if character == b'3'
            then (true, open_screen memory, opened)
            else (if character == b'4'
                then (true, shut_down, l)
                else (if character == b'5'
                    then (true, open_screen ai_studio, opened)
                    else (false, stay, l)))))

abbrev left_down : Event → Launcher → Bool × Request × Launcher
left_down event l =
    let (used, pressed) = mouse_down event.x event.y l in
    if event.button == 1 then (used, stay, pressed) else (false, stay, l)

-- The branches of `hnm_launcher_handle_event` behind its first test.
unfoldable pub handle_kind : EventType → Event → Launcher → Bool × Request × Launcher
handle_kind no_event event l = (false, stay, l)
handle_kind key_down event l = (false, stay, l)
handle_kind key_char event l = handle_shortcut event.character l
handle_kind mouse_move event l = (false, stay, update_hover event.x event.y l)
handle_kind mouse_button_down event l = left_down event l
handle_kind mouse_button_up event l =
    if event.button == 1 then mouse_up event.x event.y l else (false, stay, l)

unfoldable pub handle_event : Event → Launcher → Bool × Request × Launcher
handle_event event l = if not l.ready then (false, stay, l) else handle_kind event.kind event l
