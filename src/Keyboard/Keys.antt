-- ===== src/Keyboard/Keys.antt =====
-- Which events a scancode puts into the queue, and what becomes of the shift.
use hnmos.Prelude.{
  ℕ, ◌<◌, ◌≡◌, refl, Bool, true, false, ◌||◌, List, [], ◌∷◌, arith, leb, inl, inr, Bool-cases, ◌==◌,
  if◌then◌else◌,
}
use mathlib.Core.Path.{subst⁻¹}
use hnmos.Interface.Events.{
  Event, event_init, key_down, key_char, key_enter, key_backspace, key_escape, key_f1,
}
use hnmos.Interface.Events.Queue.{view, IsValid}
use hnmos.Interface.Events.Series.{push_all, spec_push_all, push_all_lem}
use hnmos.Keyboard.Layout.{
  typed_char, typed_char-shift_keys, typed_char-high, apply_shift-typed_char,
}
use hnmos.Keyboard.{Keyboard, push_key_down, push_key_char, is_shift, handle_scancode}

abbrev pub key_event : ℕ → ℕ → ℕ → Event
key_event scancode code c = record (event_init key_down) {
  scancode = scancode;
  key_code = code;
  character = c;
}

abbrev pub char_event : ℕ → ℕ → Event
char_event scancode c = record (event_init key_char) {
  scancode = scancode;
  key_code = c;
  character = c;
}

-- A key that stands for a character.
abbrev pub typed_events : ℕ → ℕ → List Event
typed_events scancode c = if c == 0 then [] else key_event scancode c c ∷ char_event scancode c ∷ []

-- The keys with a name: the scancode, the code of the key and its character.
abbrev pub named_keys : List (ℕ × (ℕ × ℕ))
named_keys =
    (0x1C, (key_enter, b'\n'))
    ∷ (0x0E, (key_backspace, 8))
    ∷ (0x01, (key_escape, 0))
    ∷ (0x3B, (key_f1, 0))
    ∷ []

-- The events of a scancode: of a named key that is pressed, else of the character that the rows of
-- keys show for it.
abbrev pub events_from : List (ℕ × (ℕ × ℕ)) → ℕ → Bool → List Event
events_from [] scancode shift = typed_events scancode (typed_char shift scancode)
events_from ((named, (code, c)) ∷ others) scancode shift =
    let rest = events_from others scancode shift in
    if scancode == named then key_event scancode code c ∷ [] else rest

abbrev pub key_events : ℕ → Bool → List Event
key_events scancode shift = events_from named_keys scancode shift

-- The shift after a scancode: the codes of the two shift keys set it, those of their release clear
-- it.
abbrev pub next_shift : ℕ → Bool → Bool
next_shift scancode shift =
    if (scancode == 0x2A) || (scancode == 0x36)
    then true
    else (if (scancode == 0xAA) || (scancode == 0xB6) then false else shift)

handle_scancode-pushes :
    (scancode : ℕ) (k : Keyboard)
    → scancode < 256
    → handle_scancode scancode k ≡ record {
      shift_pressed = next_shift scancode k.shift_pressed;
      events = push_all (key_events scancode k.shift_pressed) k.events;
    }
unfolding handle_scancode push_key_down push_key_char
handle_scancode-pushes scancode k byte =
    let table = apply_shift-typed_char k.shift_pressed scancode in
    elim (Bool-cases (leb 0x80 scancode)) [
      | inl released ↦
          let silent = typed_char-high k.shift_pressed scancode (ground (arith, released)) in
          ground (arith, released, silent)
      | inr pressed ↦ elim (Bool-cases (is_shift scancode)) [
        | inl shift ↦
            let silent = typed_char-shift_keys k.shift_pressed scancode shift in
            ground (arith, pressed, shift, silent)
        | inr other ↦ ground (arith, table, pressed, other)
      ]
    ]

-- What a scancode is to do to the shift and to the queue.
abbrev pub Handles : ℕ → Keyboard → Keyboard → Type 0
Handles scancode before after =
    (after.shift_pressed ≡ next_shift scancode before.shift_pressed)
    × IsValid after.events
    × (view after.events
        ≡ spec_push_all (key_events scancode before.shift_pressed) (view before.events))

-- A scancode, which is a byte, puts its events at the end of a valid queue, in order and each as
-- far as there is room: a key down for the four named keys, a key down and a character for a key in
-- the rows of keys, with the row's shifted character while a shift is pressed, and nothing for any
-- other scancode, a release or a shift key among them. The codes 0x2A and 0x36 set the shift, 0xAA
-- and 0xB6 clear it, and the others leave it.
pub handle_scancode_lem :
    (scancode : ℕ) (k : Keyboard)
    → scancode < 256
    → IsValid k.events
    → Handles scancode k (handle_scancode scancode k)
handle_scancode_lem scancode k byte v =
    subst⁻¹ (Handles scancode k) (handle_scancode-pushes scancode k byte) (
      refl,
      (push_all_lem (key_events scancode k.shift_pressed) k.events v).0,
      (push_all_lem (key_events scancode k.shift_pressed) k.events v).1,
    )
