-- ===== src/Interface/Tests.antt =====
-- The queue of events after its start, and with one event in it.
use hnmos.Prelude.{◌≡◌, refl, true, some, replicate}
use hnmos.Interface.Events.{
  EventQueue, queue_size, event_init, no_event, key_down, init, push, poll,
}
use hnmos.Interface.Events.Queue.{IsValid, init-IsValid, Pushes, push_lem}
use hnmos.Interface.Events.Take.{Polls, poll_lem}

abbrev blank : EventQueue
blank = record {
  queue = replicate queue_size (event_init no_event);
  head = 7;
  tail = 9;
  next_sequence = 3;
  dropped = 1;
  last = event_init no_event;
  has_recent = true;
}

abbrev begun : EventQueue
begun = init blank

begun-IsValid : IsValid begun
begun-IsValid = init-IsValid blank refl

push_example : Pushes (event_init key_down) begun (push (event_init key_down) begun)
push_example = push_lem (event_init key_down) begun begun-IsValid

abbrev one_event : EventQueue
one_event = (push (event_init key_down) begun).1

one_event-IsValid : IsValid one_event
one_event-IsValid = (push_lem (event_init key_down) begun begun-IsValid).0

poll_example : Polls one_event (poll one_event)
poll_example = poll_lem one_event one_event-IsValid

-- The sequence number and the code of the event that comes out.
one_event-poll : poll one_event ≡ (some (event_init key_down), record one_event { tail = 1 })
unfolding init push poll event_init
one_event-poll = refl
