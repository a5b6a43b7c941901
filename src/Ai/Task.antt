-- ===== src/Ai/Task.antt =====
-- The task of an assistant, kernel01/kernel/ai/ai_task.{h,c}. A null pointer is `none`; a pointer to a
-- text is its characters; the numbers of the types are those of the enumeration.
pub mod Output
use Prim.Native.String.{String}
use hnmos.Prelude.{ℕ, Option, none, some, List, ◌==◌, if◌then◌else◌, set}
use hnmos.Prelude.Buffer.{copy_text}

abbrev pub input_max : ℕ
input_max = 160

abbrev pub output_max : ℕ
output_max = 1024

-- `enum hnm_ai_task_type`
pub data TaskType : Type 0 where
  no_task help sysinfo status_task assembly sync hnlang generic : TaskType

abbrev pub type_number : TaskType → ℕ
type_number no_task = 0
type_number help = 1
type_number sysinfo = 2
type_number status_task = 3
type_number assembly = 4
type_number sync = 5
type_number hnlang = 6
type_number generic = 7

-- `enum hnm_ai_task_status`
pub data TaskStatus : Type 0 where
  empty pending running finished cancelled failed : TaskStatus

-- `struct hnm_ai_task`
pub record AiTask : Type 0 where
  pub task_id : ℕ
  pub task_type : TaskType
  pub input : List ℕ
  pub language_profile : Option (List ℕ)
  pub context_flags : ℕ
  pub status : TaskStatus
  pub output : List ℕ

-- `hnm_ai_copy_text`
unfoldable pub copy_source : List ℕ → ℕ → Option (List ℕ) → List ℕ
copy_source dest capacity none = if capacity == 0 then dest else set dest 0 0
copy_source dest capacity (some source) = copy_text dest capacity source

unfoldable pub init : Option AiTask → Option AiTask
init none = none
init (some t) = some (record t {
  task_id = 0;
  task_type = no_task;
  input = set t.input 0 0;
  language_profile = none;
  context_flags = 0;
  status = empty;
  output = set t.output 0 0;
})

unfoldable pub prepare : ℕ → TaskType → Option (List ℕ) → ℕ → Option AiTask → Option AiTask
prepare task_id task_type input context_flags none = none
prepare task_id task_type input context_flags (some t) = some (record t {
  task_id = task_id;
  task_type = task_type;
  input = copy_source t.input input_max input;
  language_profile = none;
  context_flags = context_flags;
  status = pending;
  output = set t.output 0 0;
})

unfoldable pub set_output : Option (List ℕ) → Option AiTask → Option AiTask
set_output output none = none
set_output output (some t) = some (record t { output = copy_source t.output output_max output })

unfoldable pub status_name : TaskStatus → String
status_name empty = "empty"
status_name pending = "pending"
status_name running = "running"
status_name finished = "done"
status_name cancelled = "cancelled"
status_name failed = "error"

unfoldable pub type_name : TaskType → String
type_name help = "help"
type_name sysinfo = "sysinfo"
type_name status_task = "status"
type_name assembly = "assembly"
type_name sync = "sync"
type_name hnlang = "hnlang"
type_name generic = "generic"
type_name no_task = "none"
