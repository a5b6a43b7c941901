-- ===== src/Ai/Bridge/Requests.antt =====
-- The requests that the local provider answers at once.
use hnmos.Prelude.{
  ℕ, ◌≡◌, refl, sym, ap, ◌∙◌, Bool, true, false, Option, none, some, List, add32, set, arith,
  length-set,
}
use hnmos.Ai.Task.{
  AiTask, TaskType, no_task, help, sysinfo, status_task, assembly, sync, hnlang, generic, pending,
  finished, prepare, copy_source, input_max, output_max,
}
use hnmos.Ai.Task.Output.{IsValid, length-copy_source}
use hnmos.Ai.Stub
use hnmos.Ai.Stub.{answer, lacks_profile, is_closed}
use hnmos.Ai.Stub.Answer.{poll_task_lem, poll_task-open, submit_task-open}
use hnmos.Ai.Bridge.{
  Bridge, local_stub, is_hnlang, prepared, hand_over, submit, poll_provider, poll, result, request,
}

-- The task that is asked for, as the provider takes it.
local_task : TaskType → List ℕ → ℕ → Bridge → AiTask
local_task kind input flags b = record (b.last_task) {
  task_id = b.next_task_id;
  task_type = kind;
  input = copy_source b.last_task.input input_max (some input);
  language_profile = none;
  context_flags = flags;
  status = pending;
  output = set b.last_task.output 0 0;
}

prepared-local :
    (kind : TaskType) (input : List ℕ) (flags : ℕ) (b : Bridge)
    → is_hnlang kind ≡ false
    → prepared kind (some input) flags b ≡ local_task kind input flags b
unfolding prepared prepare local_task
prepared-local kind input flags b e = rw e refl

local_profile :
    (kind : TaskType) (input : List ℕ) (flags : ℕ) (b : Bridge)
    → is_hnlang kind ≡ false
    → lacks_profile (local_task kind input flags b) ≡ false
unfolding local_task
local_profile no_task input flags b e = refl
local_profile help input flags b e = refl
local_profile sysinfo input flags b e = refl
local_profile status_task input flags b e = refl
local_profile assembly input flags b e = refl
local_profile sync input flags b e = refl
local_profile generic input flags b e = refl
local_profile hnlang input flags b e = absurd (ground (arith, e))

-- The bridge that has handed the task to the local provider.
handed : TaskType → List ℕ → ℕ → Bridge → Bridge
handed kind input flags b = record b {
  last_task = local_task kind input flags b;
  next_task_id = add32 b.next_task_id 1;
  last_provider = some local_stub;
}

submit-handed :
    (can_write : ℕ → Bool) (kind : TaskType) (input : List ℕ) (flags : ℕ) (b : Bridge)
    → b.ready ≡ true
    → is_hnlang kind ≡ false
    → submit can_write kind (some input) flags b ≡ (true, handed kind input flags b)
unfolding submit hand_over handed local_task
submit-handed can_write kind input flags b on e =
    let t = local_task kind input flags b in
    let taken = submit_task-open t refl (local_profile kind input flags b e) in
    simp (on, e, prepared-local kind input flags b e, taken) refl

local_task-IsValid :
    (kind : TaskType) (input : List ℕ) (flags : ℕ) (b : Bridge)
    → IsValid b.last_task
    → IsValid (local_task kind input flags b)
unfolding local_task
local_task-IsValid kind input flags b v = record {
  input_size = length-copy_source b.last_task.input input_max (some input) ∙ v.input_size;
  output_size = length-set b.last_task.output 0 0 ∙ v.output_size;
}

-- The bridge after the poll that follows.
answered : TaskType → List ℕ → ℕ → Bridge → Bridge
answered kind input flags b =
    let t = local_task kind input flags b in
    record (handed kind input flags b) {
      last_task = record t {
        status = finished;
        output = copy_source t.output output_max (some (answer kind));
      };
    }

poll-handed :
    (arrived : List ℕ) (kind : TaskType) (input : List ℕ) (flags : ℕ) (b : Bridge)
    → b.ready ≡ true
    → poll arrived (handed kind input flags b) ≡ (true, answered kind input flags b)
unfolding poll poll_provider handed answered local_task
poll-handed arrived kind input flags b on =
    simp (on, poll_task-open (local_task kind input flags b) refl) refl

result-answered :
    (kind : TaskType) (input : List ℕ) (flags : ℕ) (b : Bridge)
    → b.ready ≡ true
    → IsValid b.last_task
    → result (answered kind input flags b) ≡ answer kind
unfolding result answered handed local_task
result-answered kind input flags b on v =
    let t = local_task kind input flags b in
    let y = poll_task_lem t (local_task-IsValid kind input flags b v) refl in
    let read = ap (λ (r : Bool × Option AiTask). Stub.get_result r.1) (poll_task-open t refl) in
    simp on (sym read ∙ y.1)

-- What comes of a request to the local provider.
pub record Served (kind : TaskType) (b : Bridge) (r : List ℕ × Bridge) : Type 0 where
  pub text_read : r.0 ≡ answer kind
  pub done : r.1.last_task.status ≡ finished
  pub numbered : r.1.last_task.task_id ≡ b.next_task_id
  pub next_number : r.1.next_task_id ≡ add32 b.next_task_id 1
  pub line : r.1.line ≡ b.line

served :
    (kind : TaskType) (input : List ℕ) (flags : ℕ) (b : Bridge)
    → b.ready ≡ true
    → IsValid b.last_task
    → Served kind b (result (answered kind input flags b), answered kind input flags b)
unfolding answered handed local_task
served kind input flags b on v = record {
  text_read = result-answered kind input flags b on v;
  done = refl;
  numbered = refl;
  next_number = refl;
  line = refl;
}

-- When the bridge is ready and its task has its two buffers, a request of any type but `hnlang` is
-- answered at once, whatever its input and whatever the serial line has ready: the text that comes
-- back is the local provider's whole answer for the type, the task has the next number and is
-- finished, the number after it is next, and the serial line is as before.
pub request_lem :
    (can_write : ℕ → Bool) (arrived : List ℕ) (kind : TaskType) (input : List ℕ) (flags : ℕ)
    (failure : List ℕ) (b : Bridge)
    → b.ready ≡ true
    → is_hnlang kind ≡ false
    → IsValid b.last_task
    → Served kind b (request can_write arrived kind input flags failure b)
unfolding request
request_lem can_write arrived kind input flags failure b on e v =
    simp
      (submit-handed can_write kind input flags b on e, poll-handed arrived kind input flags b on)
      (served kind input flags b on v)
