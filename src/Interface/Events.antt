-- ===== src/Interface/Events.antt =====
-- The queue of input events, kernel01/kernel/interface/events.{h,c}. The write to the log at the
-- start is left out; `dx` and `dy` are the 32 bits of the signed numbers.
pub mod Queue
pub mod Take
pub mod Series
use hnmos.Prelude.{
  ℕ, ◌+◌, ◌-◌, ◌%◌, Bool, true, false, Option, none, some, List, leb, ◌==◌, if◌then◌else◌, get_or,
  set, add32, sub32,
}

-- `enum hnm_ui_event_type`
pub data EventType : Type 0 where
  no_event key_down key_char mouse_move mouse_button_down mouse_button_up : EventType

-- `enum hnm_ui_key_code`
abbrev pub key_none : ℕ
key_none = 0

abbrev pub key_enter : ℕ
key_enter = 13

abbrev pub key_backspace : ℕ
key_backspace = 8

abbrev pub key_escape : ℕ
key_escape = 27

abbrev pub key_f1 : ℕ
key_f1 = 0x3B

-- `struct hnm_ui_event`
pub record Event : Type 0 where
  pub kind : EventType
  pub sequence : ℕ
  pub x : ℕ
  pub y : ℕ
  pub dx : ℕ
  pub dy : ℕ
  pub key_code : ℕ
  pub scancode : ℕ
  pub button : ℕ
  pub buttons : ℕ
  pub character : ℕ

abbrev pub queue_size : ℕ
queue_size = 128

-- The static variables.
pub record EventQueue : Type 0 where
  pub queue : List Event
  pub head : ℕ
  pub tail : ℕ
  pub next_sequence : ℕ
  pub dropped : ℕ
  pub last : Event
  pub has_recent : Bool

-- `hnm_ui_event_init`
unfoldable pub event_init : EventType → Event
event_init kind = record {
  kind = kind;
  sequence = 0;
  x = 0;
  y = 0;
  dx = 0;
  dy = 0;
  key_code = key_none;
  scancode = 0;
  button = 0;
  buttons = 0;
  character = 0;
}

-- `hnm_ui_events_init`
unfoldable pub init : EventQueue → EventQueue
init q = record q {
  head = 0;
  tail = 0;
  next_sequence = 0;
  dropped = 0;
  has_recent = false;
  last = event_init no_event;
}

unfoldable pub push : Event → EventQueue → Bool × EventQueue
push event q =
    let next_head = add32 q.head 1 % queue_size in
    let queued_event : Event = record event { sequence = q.next_sequence } in
    if next_head == q.tail then (false, record q { dropped = add32 q.dropped 1 }) else (
      true,
      record q {
        next_sequence = add32 q.next_sequence 1;
        queue = set q.queue q.head queued_event;
        head = next_head;
        last = queued_event;
        has_recent = true;
      },
    )

-- The event that is copied out, if one is.
unfoldable pub poll : EventQueue → Option Event × EventQueue
poll q = if q.tail == q.head then (none, q) else (
  some (get_or q.queue q.tail (event_init no_event)),
  record q { tail = add32 q.tail 1 % queue_size },
)

unfoldable pub recent : EventQueue → Option Event
recent q = if q.has_recent then some q.last else none

unfoldable pub pending_count : EventQueue → ℕ
pending_count q =
    if leb q.tail q.head then sub32 q.head q.tail else add32 (sub32 queue_size q.tail) q.head

unfoldable pub dropped_count : EventQueue → ℕ
dropped_count q = q.dropped
