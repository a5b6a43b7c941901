-- ===== src/Interface/Events/Series.antt =====
-- Several events that are pushed one after the other.
use hnmos.Prelude.{◌≡◌, refl, ap, ◌∙◌, Bool, List, [], ◌∷◌, ◌++◌}
use hnmos.Interface.Events.{Event, EventQueue, push}
use hnmos.Interface.Events.Queue.{Waiting, view, spec_push, IsValid, push_lem}

-- Events one after the other into the queue.
abbrev pub spec_push_all : List Event → Waiting → Waiting
spec_push_all [] w = w
spec_push_all (e ∷ es) w = spec_push_all es (spec_push e w).1

abbrev pub push_all : List Event → EventQueue → EventQueue
push_all [] q = q
push_all (e ∷ es) q = push_all es (push e q).1

-- The abstract queue takes a series of events as the ring does.
pub push_all_lem :
    (es : List Event) (q : EventQueue)
    → IsValid q
    → IsValid (push_all es q) × (view (push_all es q) ≡ spec_push_all es (view q))
push_all_lem [] q v = (v, refl)
push_all_lem (e ∷ es) q v =
    let (stays, same) = push_lem e q v in
    let (valid, rest) = push_all_lem es (push e q).1 stays in
    (valid, rest ∙ ap (λ (r : Bool × Waiting). spec_push_all es r.1) same)

pub push_all-append :
    (es fs : List Event) (q : EventQueue) → push_all (es ++ fs) q ≡ push_all fs (push_all es q)
push_all-append [] fs q = refl
push_all-append (e ∷ es) fs q = push_all-append es fs (push e q).1
