-- ===== src/Mouse/Told.antt =====
-- The events that a packet of three bytes pushes.
use hnmos.Prelude.{
  ℕ, ◌≡◌, refl, ap, ◌∙◌, Bool, true, false, ◌&&◌, List, [], ◌∷◌, ◌++◌, ◌==◌, if◌then◌else◌,
  Bool-cases, inl, inr,
}
use hnmos.Interface.Events.{
  Event, EventQueue, mouse_move, mouse_button_down, mouse_button_up, event_init,
}
use hnmos.Interface.Events.Series.{push_all, push_all-append}
use hnmos.Mouse.{
  Mouse, has_bit, differs, buttons_mask, push_move_event, push_button_event, push_button_change,
  push_button_changes,
}

-- The event of a move to a place.
abbrev pub move_event : ℕ → ℕ → ℕ → ℕ → ℕ → Event
move_event x y dx dy buttons = record (event_init mouse_move) {
  x = x;
  y = y;
  dx = dx;
  dy = dy;
  buttons = buttons;
}

-- The event of a button that goes down or up at a place.
abbrev pub button_event : ℕ → ℕ → Bool → ℕ → ℕ → Event
button_event x y down button buttons =
    record (event_init (if down then mouse_button_down else mouse_button_up)) {
      x = x;
      y = y;
      button = button;
      buttons = buttons;
    }

abbrev pub change_events : ℕ → ℕ → Bool → Bool → ℕ → ℕ → List Event
change_events x y old new button buttons =
    if differs old new then button_event x y new button buttons ∷ [] else []

push_button_change_lem :
    (old new : Bool) (button buttons : ℕ) (m : Mouse)
    → push_button_change old new button buttons m
      ≡ record m { events = push_all (change_events m.x m.y old new button buttons) m.events }
unfolding push_button_change push_button_event
push_button_change_lem true true button buttons m = refl
push_button_change_lem true false button buttons m = refl
push_button_change_lem false true button buttons m = refl
push_button_change_lem false false button buttons m = refl

abbrev pub moved_events : ℕ → ℕ → ℕ → ℕ → ℕ → List Event
moved_events x y dx dy buttons =
    if (dx == 0) && (dy == 0) then [] else move_event x y dx dy buttons ∷ []

pub push_move_event_lem :
    (dx dy buttons : ℕ) (m : Mouse)
    → push_move_event dx dy buttons m
      ≡ record m { events = push_all (moved_events m.x m.y dx dy buttons) m.events }
unfolding push_move_event
push_move_event_lem dx dy buttons m = elim (Bool-cases ((dx == 0) && (dy == 0))) [
  | inl e ↦ rw e refl
  | inr e ↦ rw e refl
]

-- The events of a packet, in their order: the move, then the left, the right and the middle button.
abbrev pub packet_events : Bool × Bool × Bool → ℕ → ℕ → ℕ → ℕ → ℕ → List Event
packet_events (left, right, middle) x y flags dx dy =
    let buttons = buttons_mask (has_bit flags 0) (has_bit flags 1) (has_bit flags 2) in
    moved_events x y dx dy buttons
    ++ (change_events x y left (has_bit flags 0) 1 buttons
        ++ (change_events x y right (has_bit flags 1) 2 buttons
            ++ change_events x y middle (has_bit flags 2) 3 buttons))

pub push_button_changes_lem :
    (old_left old_right old_middle left right middle : Bool) (buttons : ℕ) (m : Mouse)
    → push_button_changes (old_left, old_right, old_middle) (left, right, middle) buttons m
      ≡ record m {
        events = push_all (change_events m.x m.y old_middle middle 3 buttons) (
            push_all
              (change_events m.x m.y old_right right 2 buttons)
              (push_all (change_events m.x m.y old_left left 1 buttons) m.events));
      }
unfolding push_button_changes
push_button_changes_lem old_left old_right old_middle left right middle buttons m =
    ap
      (λ n.
        push_button_change old_middle middle 3 buttons
          (push_button_change old_right right 2 buttons n))
      (push_button_change_lem old_left left 1 buttons m)
    ∙ ap (push_button_change old_middle middle 3 buttons)
        (push_button_change_lem old_right right 2 buttons _)
    ∙ push_button_change_lem old_middle middle 3 buttons _

-- The events of a packet are pushed one kind after the other.
pub told :
    (olds : Bool × Bool × Bool) (x y flags dx dy : ℕ) (q : EventQueue)
    → push_all
        (change_events x y olds.2
          (has_bit flags 2)
          3
          (buttons_mask (has_bit flags 0) (has_bit flags 1) (has_bit flags 2)))
        (push_all
          (change_events x y olds.1
            (has_bit flags 1)
            2
            (buttons_mask (has_bit flags 0) (has_bit flags 1) (has_bit flags 2)))
          (push_all
            (change_events x y olds.0
              (has_bit flags 0)
              1
              (buttons_mask (has_bit flags 0) (has_bit flags 1) (has_bit flags 2)))
            (push_all
              (moved_events x y dx dy
                (buttons_mask (has_bit flags 0) (has_bit flags 1) (has_bit flags 2)))
              q)))
      ≡ push_all (packet_events olds x y flags dx dy) q
told olds x y flags dx dy q =
    let b = buttons_mask (has_bit flags 0) (has_bit flags 1) (has_bit flags 2) in
    let es = moved_events x y dx dy b in
    let ls = change_events x y olds.0 (has_bit flags 0) 1 b in
    let rs = change_events x y olds.1 (has_bit flags 1) 2 b in
    let ms = change_events x y olds.2 (has_bit flags 2) 3 b in
    rw
      (
        push_all-append es (ls ++ (rs ++ ms)) q,
        push_all-append ls (rs ++ ms) (push_all es q),
        push_all-append rs ms (push_all ls (push_all es q)),
      )
      refl
