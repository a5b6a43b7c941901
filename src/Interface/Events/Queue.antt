-- ===== src/Interface/Events/Queue.antt =====
-- The ring of 128 slots implements a first-in first-out queue of at most 127 events.
use hnmos.Prelude.{
  ℕ, ◌+◌, ◌%◌, ◌≤◌, ◌<◌, ◌≡◌, refl, sym, ap, ◌∙◌, Bool, true, false, Option, none, some, List, [],
  ◌∷◌, ◌++◌, arith, ltb, ◌==◌, if◌then◌else◌, length, set, length-set, add32, Bool-cases, inl, inr,
}
use mathlib.Core.Path.{subst⁻¹}
use hnmos.Prelude.Ring
use hnmos.Prelude.Ring.{wrap, held}
use hnmos.Interface.Events.{
  Event, EventQueue, no_event, event_init, queue_size, init, push, recent, pending_count,
  dropped_count,
}

-- What a client of the queue sees: the events that wait, oldest first, the number for the next
-- event, how many were dropped, and the last event that was taken in.
pub record Waiting : Type 0 where
  pub events : List Event
  pub next_sequence : ℕ
  pub dropped : ℕ
  pub recent : Option Event

abbrev pub stamped : Event → ℕ → Event
stamped e n = record e { sequence = n }

-- With 127 events waiting, an event is dropped and counted.
unfoldable pub spec_push : Event → Waiting → Bool × Waiting
spec_push e w =
    if ltb (length w.events) 127
    then (
      true,
      record {
        events = w.events ++ stamped e w.next_sequence ∷ [];
        next_sequence = add32 w.next_sequence 1;
        dropped = w.dropped;
        recent = some (stamped e w.next_sequence);
      },
    )
    else (false, record w { dropped = add32 w.dropped 1 })

unfoldable pub spec_poll : Waiting → Option Event × Waiting
spec_poll w = elim w.events [ [] ↦ (none, w) | e ∷ es ↦ (some e, record w { events = es }) ]

-- `n` events of the ring from slot `i` on.
abbrev pub window : List Event → ℕ → ℕ → List Event
window = Ring.window queue_size (event_init no_event)

unfoldable pub view : EventQueue → Waiting
view q = record {
  events = window q.queue q.tail (pending_count q);
  next_sequence = q.next_sequence;
  dropped = dropped_count q;
  recent = recent q;
}

pub record IsValid (q : EventQueue) : Type 0 where
  pub slots : length q.queue ≡ queue_size
  pub head_in : q.head < queue_size
  pub tail_in : q.tail < queue_size

pub pending_count_lem :
    (q : EventQueue) → IsValid q → pending_count q ≡ held queue_size q.head q.tail
unfolding pending_count
pending_count_lem q v = ground (arith, v.head_in, v.tail_in)

pub next_slot : (i : ℕ) → i < queue_size → add32 i 1 % queue_size ≡ wrap queue_size (i + 1)
next_slot i h = ground arith

pub pending_window :
    (q : EventQueue)
    → IsValid q
    → window q.queue q.tail (pending_count q)
      ≡ window q.queue q.tail (held queue_size q.head q.tail)
pending_window q v = ap (window q.queue q.tail) (pending_count_lem q v)

-- The state after an event is taken in.
abbrev taken : Event → EventQueue → EventQueue
taken event q = record q {
  next_sequence = add32 q.next_sequence 1;
  queue = set q.queue q.head (stamped event q.next_sequence);
  head = add32 q.head 1 % queue_size;
  last = stamped event q.next_sequence;
  has_recent = true;
}

taken-IsValid : (event : Event) (q : EventQueue) → IsValid q → IsValid (taken event q)
taken-IsValid event q v = record {
  slots = length-set q.queue q.head (stamped event q.next_sequence) ∙ v.slots;
  head_in = omega arith;
  tail_in = v.tail_in;
}

taken-window :
    (event : Event) (q : EventQueue)
    → IsValid q
    → pending_count q < 127
    → window (taken event q).queue q.tail (pending_count (taken event q))
      ≡ window q.queue q.tail (pending_count q) ++ stamped event q.next_sequence ∷ []
taken-window event q v h =
    let e = stamped event q.next_sequence in
    pending_window (taken event q) (taken-IsValid event q v)
    ∙ ap (λ (i : ℕ). window (set q.queue q.head e) q.tail (held queue_size i q.tail))
        (next_slot q.head v.head_in)
    ∙ Ring.window-push queue_size (event_init no_event) q.queue q.head q.tail e v.slots v.head_in
        v.tail_in (omega (arith, pending_count_lem q v))
    ∙ ap (λ l. l ++ e ∷ []) (sym (pending_window q v))

pending_count-full :
    (q : EventQueue)
    → IsValid q
    → (add32 q.head 1 % queue_size == q.tail) ≡ true
    → pending_count q ≡ 127
pending_count-full q v e = ground (arith, pending_count_lem q v, v.head_in, v.tail_in)

pending_count-room :
    (q : EventQueue)
    → IsValid q
    → (add32 q.head 1 % queue_size == q.tail) ≡ false
    → pending_count q < 127
pending_count-room q v e = ground (arith, pending_count_lem q v, v.head_in, v.tail_in)

abbrev counted : EventQueue → EventQueue
counted q = record q { dropped = add32 q.dropped 1 }

push-full :
    (event : Event) (q : EventQueue)
    → (add32 q.head 1 % queue_size == q.tail) ≡ true
    → push event q ≡ (false, counted q)
unfolding push
push-full event q e = rw e refl

push-room :
    (event : Event) (q : EventQueue)
    → (add32 q.head 1 % queue_size == q.tail) ≡ false
    → push event q ≡ (true, taken event q)
unfolding push
push-room event q e = rw e refl

-- What the ring answers and leaves is what the queue does.
abbrev pub Pushes : Event → EventQueue → Bool × EventQueue → Type 0
Pushes event q r =
    IsValid r.1 × (◌≡◌ {A = Bool × Waiting} (r.0, view r.1) (spec_push event (view q)))

view-counted :
    (event : Event) (q : EventQueue)
    → pending_count q ≡ 127
    → ◌≡◌ {A = Bool × Waiting} (false, view (counted q)) (spec_push event (view q))
unfolding spec_push view recent dropped_count pending_count
view-counted event q h =
    let full : ltb (length (window q.queue q.tail (pending_count q))) 127 ≡ false = ground (
      arith,
      h,
      Ring.length-window queue_size (event_init no_event) q.queue q.tail (pending_count q),
    ) in
    rw full refl

view-taken :
    (event : Event) (q : EventQueue)
    → IsValid q
    → pending_count q < 127
    → ◌≡◌ {A = Bool × Waiting} (true, view (taken event q)) (spec_push event (view q))
unfolding spec_push view recent dropped_count
view-taken event q v h =
    let room : ltb (length (window q.queue q.tail (pending_count q))) 127 ≡ true = ground (
      arith,
      h,
      Ring.length-window queue_size (event_init no_event) q.queue q.tail (pending_count q),
    ) in
    rw room (
      ap {B = Bool × Waiting}
        (λ (l : List Event). (
          true,
          record {
            events = l;
            next_sequence = add32 q.next_sequence 1;
            dropped = q.dropped;
            recent = some (stamped event q.next_sequence);
          },
        ))
        (taken-window event q v h))

-- Pushing an event into a valid ring does what pushing it into the queue does: with fewer than 127
-- events waiting it is put at the end, with the next sequence number, and is the recent one; with
-- 127 waiting nothing changes but the count of dropped events. The ring stays valid.
pub push_lem : (event : Event) (q : EventQueue) → IsValid q → Pushes event q (push event q)
push_lem event q v = elim (Bool-cases (add32 q.head 1 % queue_size == q.tail)) [
  | inl full ↦ subst⁻¹ (Pushes event q) (push-full event q full) (
    record { slots = v.slots; head_in = v.head_in; tail_in = v.tail_in },
    view-counted event q (pending_count-full q v full),
  )
  | inr room ↦
      subst⁻¹ (Pushes event q) (push-room event q room)
        (taken-IsValid event q v, view-taken event q v (pending_count-room q v room))
]

-- In every valid ring, the number that `pending_count` answers is that of the events that wait, and
-- is at most 127.
pub pending_count-events :
    (q : EventQueue)
    → IsValid q
    → (pending_count q ≡ length (view q).events) × (pending_count q ≤ 127)
unfolding view
pending_count-events q v = (
  sym (Ring.length-window queue_size (event_init no_event) q.queue q.tail (pending_count q)),
  ground (arith, pending_count_lem q v, v.head_in, v.tail_in),
)

pub init-IsValid : (q : EventQueue) → length q.queue ≡ queue_size → IsValid (init q)
unfolding init
init-IsValid q h = record { slots = h; head_in = omega arith; tail_in = omega arith }
