-- ===== src/Ai/Serial.antt =====
-- The provider behind the serial line, kernel01/kernel/ai/ai_serial_provider.c.
use hnmos.Prelude.{ℕ, Bool, true, false, Option, none, some, List, ◌==◌, if◌then◌else◌, get_or, not}
use hnmos.Prelude.Buffer.{codes, c_str}
use hnmos.Ai.Task.{AiTask, TaskStatus, empty, pending, running, failed, set_output}
use hnmos.Ai.Stub.{lacks_profile, with_status}
use hnmos.Ai.Transport.{send}
use hnmos.Ai.Transport.Receive.{Serial}
use hnmos.Ai.Transport.Receive

abbrev is_empty_task : TaskStatus → Bool
is_empty_task empty = true
is_empty_task _ = false

abbrev is_running : TaskStatus → Bool
is_running running = true
is_running _ = false

abbrev pub is_waiting : TaskStatus → Bool
is_waiting pending = true
is_waiting running = true
is_waiting _ = false

abbrev refuse : Option (List ℕ) → AiTask → Option AiTask
refuse text t = set_output text (with_status failed (some t))

-- The result, the task and the transport after the call.
unfoldable pub submit_task : (ℕ → Bool) → Option AiTask → Serial → Bool × Option AiTask × Serial
submit_task can_write none s = (false, none, s)
submit_task can_write (some t) s =
    let (sent, sender) = send can_write (some t) s.sender in
    if is_empty_task t.status
    then (false, some t, s)
    else (if lacks_profile t
        then (false, refuse (some (codes "HNLang profile missing; request denied.")) t, s)
        else (if not sent
            then (
              false,
              refuse (some (codes "AI transport send failed.")) t,
              record s { sender = sender },
            )
            else (true, with_status running (some t), record s { sender = sender })))

-- The characters that the device has ready are the first argument.
unfoldable pub poll_task : List ℕ → Option AiTask → Serial → Bool × Serial × Option AiTask
poll_task arrived none s = (false, s, none)
poll_task arrived (some t) s =
    if not (is_running t.status) then (false, s, some t) else Receive.poll arrived (some t) s

unfoldable pub get_result : Option AiTask → List ℕ
get_result none = codes "AI bridge: no task."
get_result (some t) =
    if is_waiting t.status
    then codes "AI bridge: waiting for provider response."
    else (if get_or t.output 0 0 == 0
        then codes "AI bridge: provider returned no output."
        else c_str t.output)
