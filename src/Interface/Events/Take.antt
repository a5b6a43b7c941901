-- ===== src/Interface/Events/Take.antt =====
-- Taking an event out of the ring: `hnm_ui_event_poll`.
use hnmos.Prelude.{
  ℕ, ◌%◌, ◌≡◌, refl, ap, true, false, Option, none, some, List, arith, ◌==◌, get_or, add32,
  Bool-cases, inl, inr,
}
use mathlib.Core.Path.{subst⁻¹}
use hnmos.Prelude.{◌≢◌, ◌∙◌}
use hnmos.Prelude.Ring
use hnmos.Prelude.Ring.{held}
use hnmos.Interface.Events.{
  Event, EventQueue, no_event, event_init, queue_size, poll, recent, pending_count, dropped_count,
}
use hnmos.Interface.Events.Queue.{
  Waiting, view, window, spec_poll, IsValid, pending_count_lem, pending_window, next_slot,
}

abbrev passed : EventQueue → EventQueue
passed q = record q { tail = add32 q.tail 1 % queue_size }

passed-IsValid : (q : EventQueue) → IsValid q → IsValid (passed q)
passed-IsValid q v = record { slots = v.slots; head_in = v.head_in; tail_in = omega arith }

poll-empty : (q : EventQueue) → (q.tail == q.head) ≡ true → poll q ≡ (none, q)
unfolding poll
poll-empty q e = rw e refl

poll-next :
    (q : EventQueue)
    → (q.tail == q.head) ≡ false
    → poll q ≡ (some (get_or q.queue q.tail (event_init no_event)), passed q)
unfolding poll
poll-next q e = rw e refl

abbrev pub Polls : EventQueue → Option Event × EventQueue → Type 0
Polls q r = IsValid r.1 × (◌≡◌ {A = Option Event × Waiting} (r.0, view r.1) (spec_poll (view q)))

-- The queue with the events `l`.
abbrev view_with : EventQueue → List Event → Waiting
view_with q l = record {
  events = l;
  next_sequence = q.next_sequence;
  dropped = dropped_count q;
  recent = recent q;
}

-- What polling answers and leaves when the events `l` wait.
abbrev Answers : EventQueue → Option Event × Waiting → List Event → Type 0
Answers q r l = ◌≡◌ {A = Option Event × Waiting} r (spec_poll (view_with q l))

view-empty :
    (q : EventQueue)
    → IsValid q
    → (q.tail == q.head) ≡ true
    → Answers q (none, view q) (view q).events
unfolding spec_poll view Ring.window
view-empty q v e =
    let nothing : pending_count q ≡ 0 = ground (arith, pending_count_lem q v) in
    subst⁻¹
      (λ (n : ℕ). Answers q (none, view_with q (window q.queue q.tail n)) (window q.queue q.tail n))
      nothing refl

view-passed :
    (q : EventQueue)
    → IsValid q
    → (q.tail == q.head) ≡ false
    → Answers q
        (some (get_or q.queue q.tail (event_init no_event)), view (passed q))
        (view q).events
unfolding spec_poll view recent dropped_count
view-passed q v e =
    let oldest = get_or q.queue q.tail (event_init no_event) in
    let apart : q.tail ≢ q.head = ground arith in
    subst⁻¹ (Answers q (some oldest, view (passed q)))
      (pending_window q v
        ∙ Ring.window-pop queue_size (event_init no_event) q.queue q.head q.tail v.head_in v.tail_in
            apart)
      (ap {B = Option Event × Waiting} (λ l. (some oldest, view_with q l))
        (pending_window (passed q) (passed-IsValid q v)
          ∙ ap (λ (i : ℕ). window q.queue i (held queue_size q.head i))
              (next_slot q.tail v.tail_in)))

-- Polling a valid ring does what polling the queue does: it answers the oldest event that waits and
-- takes it away, or answers that there is none and changes nothing. The ring stays valid.
pub poll_lem : (q : EventQueue) → IsValid q → Polls q (poll q)
unfolding view
poll_lem q v = elim (Bool-cases (q.tail == q.head)) [
  | inl same ↦ subst⁻¹ (Polls q) (poll-empty q same) (v, view-empty q v same)
  | inr differ ↦ subst⁻¹ (Polls q) (poll-next q differ) (passed-IsValid q v, view-passed q v differ)
]
