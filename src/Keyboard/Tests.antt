-- ===== src/Keyboard/Tests.antt =====
-- The letter `a` with a shift pressed, into an empty queue.
use hnmos.Prelude.{true, false, replicate, refl, arith}
use hnmos.Interface.Events.{EventQueue, queue_size, event_init, no_event, init}
use hnmos.Interface.Events.Queue.{init-IsValid}
use hnmos.Keyboard.{Keyboard, handle_scancode}
use hnmos.Keyboard.Keys.{Handles, handle_scancode_lem}

abbrev blank : EventQueue
blank = record {
  queue = replicate queue_size (event_init no_event);
  head = 0;
  tail = 0;
  next_sequence = 0;
  dropped = 0;
  last = event_init no_event;
  has_recent = false;
}

abbrev shifted : Keyboard
shifted = record { shift_pressed = true; events = init blank }

handle_scancode_example : Handles 0x1E shifted (handle_scancode 0x1E shifted)
handle_scancode_example = handle_scancode_lem 0x1E shifted (omega arith) (init-IsValid blank refl)
