-- ===== src/Ai/Bridge.antt =====
-- The bridge between the assistant's tasks and the two providers, kernel01/kernel/ai/ai_bridge.c. The
-- program that it builds for each task, which only its summaries show, and the log are left out.
pub mod Exchange
pub mod Requests
mod Tests
use hnmos.Prelude.{
  ℕ, ◌+◌, Bool, true, false, ◌||◌, not, Option, none, some, List, if◌then◌else◌, add32,
}
use hnmos.Prelude.Buffer.{codes}
use hnmos.Ai.Task
use hnmos.Ai.Task.{
  AiTask, TaskType, TaskStatus, no_task, help, sysinfo, status_task, assembly, sync, hnlang,
  generic, pending, running, cancelled, prepare, set_output,
}
use hnmos.Ai.Stub
use hnmos.Ai.Stub.{with_status}
use hnmos.Ai.Serial
use hnmos.Ai.Transport.Receive
use hnmos.Ai.Transport.Receive.{Serial}

pub data Provider : Type 0 where
  local_stub serial_line : Provider

-- The static variables, with those of the serial transport; a provider `none` is a null pointer. The
-- active provider is the serial line and the local one the stub whenever the bridge is ready.
pub record Bridge : Type 0 where
  pub last_provider : Option Provider
  pub last_task : AiTask
  pub next_task_id : ℕ
  pub ready : Bool
  pub line : Serial

-- `hnm_hnlang_ai_system_contract`
abbrev pub system_contract : List ℕ
system_contract =
    codes
      "HNLang v0 is HNMos' typed task/UI language. Grammar: print STRING; let ID = EXPR; route STRING; ai task STRING { input EXPR mode STRING output EXPR }; app STRING { title STRING screen STRING { panel STRING { text EXPR } button STRING { route STRING } } }. Read-only names: kernel.version, kernel.ticks, kernel.memory.total, graphics.width, graphics.height, system.info. Return plain HNLang for /workspace only; never modify kernel, boot, policy, drivers, or audit."

-- The task that a pointer to the bridge's own task holds after a call.
abbrev pub kept : AiTask → Option AiTask → AiTask
kept t none = t
kept t (some u) = u

-- The call of `hnm_ai_serial_provider` starts the transport.
unfoldable pub init : Bridge → Bridge
init b = record {
  last_provider = some local_stub;
  last_task = kept b.last_task (Task.init (some b.last_task));
  next_task_id = 1;
  ready = true;
  line = Receive.init b.line;
}

abbrev pub is_hnlang : TaskType → Bool
is_hnlang hnlang = true
is_hnlang _ = false

abbrev pub provider_for : TaskType → Provider
provider_for kind = if is_hnlang kind then serial_line else local_stub

abbrev with_profile : TaskType → AiTask → AiTask
with_profile kind t =
    if is_hnlang kind then record t { language_profile = some system_contract } else t

-- The task that `hnm_ai_bridge_submit` prepares.
unfoldable pub prepared : TaskType → Option (List ℕ) → ℕ → Bridge → AiTask
prepared kind input flags b =
    with_profile kind
      (kept b.last_task (prepare b.next_task_id kind input flags (some b.last_task)))

-- The call of the provider's `submit_task`.
unfoldable pub hand_over : (ℕ → Bool) → Provider → Bridge → Bool × Bridge
hand_over can_write local_stub b =
    let (taken, task) = Stub.submit_task (some b.last_task) in
    (taken, record b { last_task = kept b.last_task task })
hand_over can_write serial_line b =
    let (taken, task, line) = Serial.submit_task can_write (some b.last_task) b.line in
    (taken, record b { last_task = kept b.last_task task; line = line })

unfoldable pub submit : (ℕ → Bool) → TaskType → Option (List ℕ) → ℕ → Bridge → Bool × Bridge
submit can_write kind input flags b =
    let next : Bridge = record b {
      last_task = prepared kind input flags b;
      next_task_id = add32 b.next_task_id 1;
      last_provider = some (provider_for kind);
    } in
    if not b.ready then (false, b) else hand_over can_write (provider_for kind) next

-- The characters that the serial device has ready are the first argument.
unfoldable pub poll_provider : List ℕ → Option Provider → Bridge → Bool × Bridge
poll_provider arrived none b = (false, b)
poll_provider arrived (some local_stub) b =
    let (done, task) = Stub.poll_task (some b.last_task) in
    (done, record b { last_task = kept b.last_task task })
poll_provider arrived (some serial_line) b =
    let (done, line, task) = Serial.poll_task arrived (some b.last_task) b.line in
    (done, record b { last_task = kept b.last_task task; line = line })

unfoldable pub poll : List ℕ → Bridge → Bool × Bridge
poll arrived b = if not b.ready then (false, b) else poll_provider arrived b.last_provider b

abbrev pub may_cancel : TaskStatus → Bool
may_cancel running = true
may_cancel pending = true
may_cancel _ = false

unfoldable pub cancel : Bridge → Bool × Bridge
cancel b =
    let task = with_status cancelled (some b.last_task) in
    if not (may_cancel b.last_task.status) then (false, b) else (
      true,
      record b {
        last_task =
            kept b.last_task (set_output (some (codes "AI request cancelled locally.")) task);
      },
    )

unfoldable pub result : Bridge → List ℕ
result b = if not b.ready then codes "AI bridge: no provider active." else elim b.last_provider [
  | none ↦ codes "AI bridge: no provider active."
  | some local_stub ↦ Stub.get_result (some b.last_task)
  | some serial_line ↦ Serial.get_result (some b.last_task)
]

-- `hnm_ai_bridge_request_help` and its four neighbours: the text, and the bridge after the poll.
unfoldable pub request :
    (ℕ → Bool) → List ℕ → TaskType → List ℕ → ℕ → List ℕ → Bridge → List ℕ × Bridge
request can_write arrived kind input flags failure b =
    let (taken, b1) = submit can_write kind (some input) flags b in
    let b2 = (poll arrived b1).1 in if not taken then (failure, b1) else (result b2, b2)

unfoldable pub request_help : (ℕ → Bool) → List ℕ → Bridge → List ℕ × Bridge
request_help can_write arrived b =
    request can_write arrived help (codes "ai help") 1
      (codes "AI bridge: help request submit failed.") b

unfoldable pub request_assembly : (ℕ → Bool) → List ℕ → Bridge → List ℕ × Bridge
request_assembly can_write arrived b =
    request can_write arrived assembly (codes "ai asm") 32
      (codes "AI bridge: assembly request submit failed.") b

unfoldable pub request_sync : (ℕ → Bool) → List ℕ → Bridge → List ℕ × Bridge
request_sync can_write arrived b =
    request can_write arrived sync (codes "ai sync") 96
      (codes "AI bridge: sync request submit failed.") b

unfoldable pub request_sysinfo : (ℕ → Bool) → List ℕ → Bridge → List ℕ × Bridge
request_sysinfo can_write arrived b =
    request can_write arrived sysinfo (codes "ai sysinfo") 1
      (codes "AI bridge: sysinfo request submit failed.") b

unfoldable pub request_status : (ℕ → Bool) → List ℕ → Bridge → List ℕ × Bridge
request_status can_write arrived b =
    request can_write arrived status_task (codes "ai status") 1
      (codes "AI bridge: status request submit failed.") b
