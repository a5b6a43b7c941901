-- ===== src/Keyboard.antt =====
-- The keyboard driver, kernel01/drivers/keyboard.c: from scancodes to events. The bytes that the
-- ports answer are arguments; the end-of-interrupt command and the log are left out.
pub mod Keys
mod Layout
mod Tests
use hnmos.Prelude.{
  ℕ, ◌+◌, ◌-◌, ◌/◌, ◌%◌, Bool, true, false, not, ◌&&◌, ◌||◌, List, [], ◌∷◌, leb, ◌==◌,
  if◌then◌else◌,
}
use hnmos.Interface.Events.{
  EventType, key_down, key_char, Event, EventQueue, event_init, push, key_enter, key_backspace,
  key_escape, key_f1,
}

-- The entries of the table that are not NUL.
abbrev pub keymap : List (ℕ × ℕ)
keymap =
    (0x02, b'1')
    ∷ (0x03, b'2')
    ∷ (0x04, b'3')
    ∷ (0x05, b'4')
    ∷ (0x06, b'5')
    ∷ (0x07, b'6')
    ∷ (0x08, b'7')
    ∷ (0x09, b'8')
    ∷ (0x0A, b'9')
    ∷ (0x0B, b'0')
    ∷ (0x0C, b'-')
    ∷ (0x0D, b'=')
    ∷ (0x10, b'q')
    ∷ (0x11, b'w')
    ∷ (0x12, b'e')
    ∷ (0x13, b'r')
    ∷ (0x14, b't')
    ∷ (0x15, b'y')
    ∷ (0x16, b'u')
    ∷ (0x17, b'i')
    ∷ (0x18, b'o')
    ∷ (0x19, b'p')
    ∷ (0x1E, b'a')
    ∷ (0x1F, b's')
    ∷ (0x20, b'd')
    ∷ (0x21, b'f')
    ∷ (0x22, b'g')
    ∷ (0x23, b'h')
    ∷ (0x24, b'j')
    ∷ (0x25, b'k')
    ∷ (0x26, b'l')
    ∷ (0x2C, b'z')
    ∷ (0x2D, b'x')
    ∷ (0x2E, b'c')
    ∷ (0x2F, b'v')
    ∷ (0x30, b'b')
    ∷ (0x31, b'n')
    ∷ (0x32, b'm')
    ∷ (0x34, b'.')
    ∷ (0x35, b'/')
    ∷ (0x39, b' ')
    ∷ []

abbrev pub look_up : List (ℕ × ℕ) → ℕ → ℕ
look_up [] scancode = 0
look_up ((s, c) ∷ rest) scancode =
    let other = look_up rest scancode in if s == scancode then c else other

unfoldable pub scancode_to_char : ℕ → ℕ
scancode_to_char scancode = look_up keymap scancode

unfoldable pub apply_shift : Bool → ℕ → ℕ
apply_shift shift_pressed character =
    if not shift_pressed
    then character
    else (if leb b'a' character && leb character b'z'
        then character - (b'a' - b'A')
        else (if character == b'-' then b'_' else (if character == b'=' then b'+' else character)))

-- The static flag, with the queue of events.
pub record Keyboard : Type 0 where
  pub shift_pressed : Bool
  pub events : EventQueue

unfoldable pub push_key_down : ℕ → ℕ → ℕ → Keyboard → Keyboard
push_key_down scancode key_code character k =
    let event : Event = record (event_init key_down) {
      scancode = scancode;
      key_code = key_code;
      character = character;
    } in
    record k { events = (push event k.events).1 }

unfoldable pub push_key_char : ℕ → ℕ → Keyboard → Keyboard
push_key_char scancode character k =
    let event : Event = record (event_init key_char) {
      scancode = scancode;
      key_code = character;
      character = character;
    } in
    record k { events = (push event k.events).1 }

abbrev pub is_shift : ℕ → Bool
is_shift scancode = (scancode == 0x2A) || (scancode == 0x36)

-- A scancode is a byte; its highest bit tells a release.
unfoldable pub handle_scancode : ℕ → Keyboard → Keyboard
handle_scancode scancode k =
    let character = apply_shift k.shift_pressed (scancode_to_char scancode) in
    if leb 0x80 scancode
    then (if is_shift (scancode % 0x80) then record k { shift_pressed = false } else k)
    else (if is_shift scancode
        then record k { shift_pressed = true }
        else (if scancode == 0x1C
            then push_key_down scancode key_enter b'\n' k
            else (if scancode == 0x0E
                then push_key_down scancode key_backspace 8 k
                else (if scancode == 0x01
                    then push_key_down scancode key_escape 0 k
                    else (if scancode == 0x3B
                        then push_key_down scancode key_f1 0 k
                        else (if not (character == 0)
                            then push_key_char scancode character
                                (push_key_down scancode character character k)
                            else k))))))

-- With the bytes that the status port and the data port answer.
unfoldable pub irq_handler : ℕ → ℕ → Keyboard → Keyboard
irq_handler status scancode k = if status % 2 == 1 then handle_scancode scancode k else k
