-- ===== src/Ai/Stub.antt =====
-- The local provider that answers with fixed texts, kernel01/kernel/ai/ai_stub_provider.c.
pub mod Answer
use hnmos.Prelude.{ℕ, Bool, true, false, not, ◌&&◌, ◌||◌, Option, none, some, List, if◌then◌else◌}
use hnmos.Prelude.Buffer.{codes, c_str}
use hnmos.Ai.Task.{
  AiTask, TaskType, no_task, help, sysinfo, status_task, assembly, sync, hnlang, generic,
  TaskStatus, empty, pending, running, finished, cancelled, failed, set_output,
}

-- The statuses in which a task is neither taken nor polled.
abbrev pub is_closed : TaskStatus → Bool
is_closed pending = false
is_closed running = false
is_closed _ = true

abbrev pub lacks_profile : AiTask → Bool
lacks_profile t = elim t.task_type [
  | hnlang ↦ elim t.language_profile [ none ↦ true | some p ↦ false ]
  | _ ↦ false
]

abbrev pub with_status : TaskStatus → Option AiTask → Option AiTask
with_status status none = none
with_status status (some t) = some (record t { status = status })

-- The result, and the task after the call.
unfoldable pub submit_task : Option AiTask → Bool × Option AiTask
submit_task none = (false, none)
submit_task (some t) =
    if is_closed t.status
    then (false, some t)
    else (if lacks_profile t
        then (
          false,
          set_output (some (codes "AI Stub: HNLang language profile is required."))
              (with_status failed (some t)),
        )
        else (true, with_status pending (some t)))

-- The text for a type of task.
abbrev pub answer : TaskType → List ℕ
answer help =
    codes "AI Stub: Future HNMos assistant will help with system tasks, scripts, and diagnostics."
answer sysinfo =
    codes "AI Stub: Kernel status summary is available. Real AI runtime is not enabled yet."
answer status_task = codes "AI Stub: provider active. Real AI runtime is not enabled yet."
answer assembly =
    codes
      "AI Stub: AI assembly plan ready. Kernel snapshot observed; external actions remain gated."
answer sync =
    codes
      "AI Stub: Kernel-owned CPU/RAM/framebuffer checkpoint executed; external actions remain gated."
answer hnlang = codes "AI Stub: HNlang AI task accepted as a placeholder. No model executed."
answer _ = codes "AI Stub: deterministic placeholder response. Real AI runtime is not enabled yet."

unfoldable pub poll_task : Option AiTask → Bool × Option AiTask
poll_task none = (false, none)
poll_task (some t) = if is_closed t.status then (false, some t) else (
  true,
  with_status finished (set_output (some (answer t.task_type)) (with_status running (some t))),
)

abbrev is_finished : TaskStatus → Bool
is_finished finished = true
is_finished _ = false

unfoldable pub get_result : Option AiTask → List ℕ
get_result none = codes "AI Stub: no task available."
get_result (some t) =
    if not (is_finished t.status) then codes "AI Stub: task is not complete." else c_str t.output
