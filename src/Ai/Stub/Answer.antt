-- ===== src/Ai/Stub/Answer.antt =====
-- A task that is submitted to the local provider is answered at the first poll.
use hnmos.Prelude.{
  ℕ, ◌-◌, ◌≡◌, refl, ◌∙◌, Bool, true, false, not, ◌&&◌, Option, some, List, [], ◌∷◌, arith, ◌==◌,
  take,
}
use mathlib.Core.Path.{subst⁻¹}
use hnmos.Prelude.Buffer.{IsText}
use hnmos.Ai.Task.{
  AiTask, TaskType, no_task, help, sysinfo, status_task, assembly, sync, hnlang, generic, pending,
  finished, set_output, output_max, copy_source,
}
use hnmos.Ai.Task.Output.{IsValid, c_str-copy_source}
use hnmos.Ai.Stub.{is_closed, lacks_profile, submit_task, answer, poll_task, get_result}

no_nul : List ℕ → Bool
no_nul [] = true
no_nul (c ∷ cs) = not (c == 0) && no_nul cs

no_nul-IsText : (s : List ℕ) → no_nul s ≡ true → IsText s
unfolding no_nul
no_nul-IsText [] e = tt
no_nul-IsText (c ∷ cs) e = (ground (arith, e), no_nul-IsText cs (ground (arith, e)))

answer-IsText : (k : TaskType) → IsText (answer k)
unfolding no_nul
answer-IsText no_task = no_nul-IsText (answer no_task) refl
answer-IsText help = no_nul-IsText (answer help) refl
answer-IsText sysinfo = no_nul-IsText (answer sysinfo) refl
answer-IsText status_task = no_nul-IsText (answer status_task) refl
answer-IsText assembly = no_nul-IsText (answer assembly) refl
answer-IsText sync = no_nul-IsText (answer sync) refl
answer-IsText hnlang = no_nul-IsText (answer hnlang) refl
answer-IsText generic = no_nul-IsText (answer generic) refl

-- Each answer fits into the output of a task.
answer-fits : (k : TaskType) → take (output_max - 1) (answer k) ≡ answer k
answer-fits no_task = refl
answer-fits help = refl
answer-fits sysinfo = refl
answer-fits status_task = refl
answer-fits assembly = refl
answer-fits sync = refl
answer-fits hnlang = refl
answer-fits generic = refl

pub poll_task-open :
    (t : AiTask)
    → is_closed t.status ≡ false
    → poll_task (some t) ≡ (
      true,
      some (record t {
        status = finished;
        output = copy_source t.output output_max (some (answer t.task_type));
      }),
    )
unfolding poll_task set_output
poll_task-open t e = rw e refl

-- The task that comes out of a call that is to succeed, with the result that is then read.
abbrev pub Yields : List ℕ → Bool × Option AiTask → Type 0
Yields text r = (r.0 ≡ true) × (get_result r.1 ≡ text)

-- A poll of a task that is pending or running finishes it, and the result that is then read is the
-- whole text for the type of the task.
pub poll_task_lem :
    (t : AiTask)
    → IsValid t
    → is_closed t.status ≡ false
    → Yields (answer t.task_type) (poll_task (some t))
unfolding get_result
poll_task_lem t v e = subst⁻¹ (Yields (answer t.task_type)) (poll_task-open t e) (
  refl,
  c_str-copy_source t.output output_max (some (answer t.task_type)) (omega arith)
        (omega (arith, v.output_size)) (answer-IsText t.task_type)
      ∙ answer-fits t.task_type,
)

pub submit_task-open :
    (t : AiTask)
    → is_closed t.status ≡ false
    → lacks_profile t ≡ false
    → submit_task (some t) ≡ (true, some (record t { status = pending }))
unfolding submit_task
submit_task-open t e p = rw (e, p) refl

-- A task that is pending or running, and has its profile if it is of the type `hnlang`, is taken; the
-- poll that follows finishes it, with the whole text for its type.
pub poll_task-submit_task :
    (t : AiTask)
    → IsValid t
    → is_closed t.status ≡ false
    → lacks_profile t ≡ false
    → ((submit_task (some t)).0 ≡ true)
      × Yields (answer t.task_type) (poll_task (submit_task (some t)).1)
poll_task-submit_task t v e p =
    subst⁻¹
      (λ (r : Bool × Option AiTask). (r.0 ≡ true) × Yields (answer t.task_type) (poll_task r.1))
      (submit_task-open t e p)
      (
        refl,
        poll_task_lem (record t { status = pending })
            (record { input_size = v.input_size; output_size = v.output_size }) refl,
      )

-- A task that has no status in which it waits or runs is neither taken nor polled, and stays as it is.
pub closed_lem :
    (t : AiTask)
    → is_closed t.status ≡ true
    → (submit_task (some t) ≡ (false, some t)) × (poll_task (some t) ≡ (false, some t))
unfolding submit_task poll_task
closed_lem t e = (rw e refl, rw e refl)
