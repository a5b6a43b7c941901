-- ===== src/Mouse.antt =====
-- The mouse driver, kernel01/drivers/mouse.c: packets of three bytes become a position, buttons and
-- events. The bytes that the ports answer are arguments; the end-of-interrupt command and the log
-- are left out. A signed number is its 32 bits.
pub mod Controller
pub mod Position
pub mod Told
pub mod Bytes
pub mod Packets
mod Tests
use hnmos.Prelude.{
  ℕ, ◌+◌, ◌-◌, ◌/◌, ◌%◌, ◌^◌, Bool, true, false, not, ◌&&◌, ◌||◌, Option, none, some, List, ltb,
  leb, ◌==◌, if◌then◌else◌, get_or, set, add32, sub32,
}
use hnmos.Interface.Events.{
  EventType, mouse_move, mouse_button_down, mouse_button_up, Event, EventQueue, event_init, push,
}
use hnmos.Graphics.Framebuffer.{Framebuffer}

abbrev pub packet_size : ℕ
packet_size = 3

-- The static variables, with the queue of events.
pub record Mouse : Type 0 where
  pub packet : List ℕ
  pub packet_index : ℕ
  pub x : ℕ
  pub y : ℕ
  pub left_button : Bool
  pub right_button : Bool
  pub middle_button : Bool
  pub ready : Bool
  pub dirty : Bool
  pub events : EventQueue

unfoldable pub sign_extend : ℕ → ℕ
sign_extend value = if not (value / 128 % 2 == 0) then sub32 value 256 else value

abbrev pub bit : Bool → ℕ → ℕ
bit b value = if b then value else 0

-- The masks have no bit in common.
unfoldable pub buttons_mask : Bool → Bool → Bool → ℕ
buttons_mask left right middle = bit left 1 + bit right 2 + bit middle 4

unfoldable pub push_move_event : ℕ → ℕ → ℕ → Mouse → Mouse
push_move_event dx dy buttons m =
    let event : Event = record (event_init mouse_move) {
      x = m.x;
      y = m.y;
      dx = dx;
      dy = dy;
      buttons = buttons;
    } in
    if (dx == 0) && (dy == 0) then m else record m { events = (push event m.events).1 }

unfoldable pub push_button_event : EventType → ℕ → ℕ → Mouse → Mouse
push_button_event kind button buttons m =
    let event : Event = record (event_init kind) {
      x = m.x;
      y = m.y;
      button = button;
      buttons = buttons;
    } in
    record m { events = (push event m.events).1 }

abbrev pub differs : Bool → Bool → Bool
differs old new = if old then not new else new

-- One of the three tests of `hnm_mouse_push_button_changes`.
unfoldable pub push_button_change : Bool → Bool → ℕ → ℕ → Mouse → Mouse
push_button_change old new button buttons m =
    if differs old new
    then push_button_event (if new then mouse_button_down else mouse_button_up) button buttons m
    else m

-- The old buttons, then the new ones.
unfoldable pub push_button_changes : Bool × Bool × Bool → Bool × Bool × Bool → ℕ → Mouse → Mouse
push_button_changes (old_left, old_right, old_middle) (new_left, new_right, new_middle) buttons m =
    push_button_change old_middle new_middle 3 buttons (
      push_button_change old_right new_right 2 buttons
        (push_button_change old_left new_left 1 buttons m))

-- `<` on signed numbers.
abbrev pub less_signed : ℕ → ℕ → Bool
less_signed a b = ltb (add32 a (2 ^ 31)) (add32 b (2 ^ 31))

abbrev pub clamp : ℕ → ℕ → ℕ
clamp v highest = if less_signed v 0 then 0 else (if less_signed highest v then highest else v)

-- The two coordinates of `hnm_mouse_clamp_position`.
unfoldable pub clamp_position : Framebuffer → ℕ → ℕ → ℕ × ℕ
clamp_position fb x y =
    if not fb.available || (fb.width == 0) || (fb.height == 0)
    then (0, 0)
    else (clamp x (sub32 fb.width 1), clamp y (sub32 fb.height 1))

abbrev pub has_bit : ℕ → ℕ → Bool
has_bit byte k = not (byte / 2 ^ k % 2 == 0)

abbrev pub packet_byte : Mouse → ℕ → ℕ
packet_byte m i = get_or m.packet i 0

-- `packet[0] & 0xC0` are the two highest bits.
unfoldable pub apply_packet : Framebuffer → Mouse → Mouse
apply_packet fb m =
    let flags = packet_byte m 0 in
    let new_left = has_bit flags 0 in
    let new_right = has_bit flags 1 in
    let new_middle = has_bit flags 2 in
    let dx = sign_extend (packet_byte m 1) in
    let dy = sign_extend (packet_byte m 2) in
    let (next_x, next_y) = clamp_position fb (add32 m.x dx) (sub32 m.y dy) in
    let buttons = buttons_mask new_left new_right new_middle in
    let placed : Mouse = record m {
      x = next_x;
      y = next_y;
      left_button = new_left;
      right_button = new_right;
      middle_button = new_middle;
    } in
    let told =
      push_button_changes (m.left_button, m.right_button, m.middle_button)
        (new_left, new_right, new_middle) buttons
        (push_move_event dx (sub32 0 dy) buttons placed) in
    if has_bit flags 6 || has_bit flags 7 then m else record told { dirty = true }

unfoldable pub handle_byte : Framebuffer → ℕ → Mouse → Mouse
handle_byte fb value m =
    let stored : Mouse = record m {
      packet = set m.packet m.packet_index value;
      packet_index = add32 m.packet_index 1;
    } in
    if (m.packet_index == 0) && not (has_bit value 3)
    then m
    else (if ltb stored.packet_index packet_size
        then stored
        else apply_packet fb (record stored { packet_index = 0 }))

-- `hnm_mouse_irq_handler`, with the answers of the status port and the data port.
unfoldable pub irq_handler : Framebuffer → ℕ → ℕ → Mouse → Mouse
irq_handler fb status value m =
    if has_bit status 0 && has_bit status 5
    then (if m.ready then handle_byte fb value m else m)
    else m

-- The arguments of `hnm_cursor_move`.
pub record Move : Type 0 where
  pub x : ℕ
  pub y : ℕ
  pub left_button : Bool
  pub right_button : Bool
  pub middle_button : Bool

-- `hnm_mouse_poll`: the call of `hnm_cursor_move`, if it makes one.
unfoldable pub poll : Mouse → Option Move × Mouse
poll m = if not m.ready || not m.dirty then (none, m) else (
  some (record {
    x = m.x;
    y = m.y;
    left_button = m.left_button;
    right_button = m.right_button;
    middle_button = m.middle_button;
  }),
  record m { dirty = false },
)
