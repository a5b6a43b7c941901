-- ===== src/Ai/Assembly.antt =====
-- The program that is built for a task, kernel01/kernel/ai/ai_assembly.c, and the snapshot of the
-- processor in ai_machine.c. What the registers CR0 and EFLAGS hold is a parameter; the snapshots of
-- `Sync` are taken under its lock, and `none` is a lock that is waited for without an end.
pub mod Programs
mod Tests
use hnmos.Prelude.{
  ℕ, zero, suc, ◌+◌, ◌*◌, ◌/◌, ◌%◌, ◌^◌, Bool, true, false, not, ◌&&◌, Option, none, some, List, [],
  ◌∷◌, ltb, leb, ◌==◌, if◌then◌else◌, set, map, replicate, add32,
}
use hnmos.Ai.Task.{AiTask, TaskType, type_number, no_task, sync}
use hnmos.Sync
use hnmos.Sync.{Snapshot, Sync, Machine}

-- What the two registers hold.
pub record Registers : Type 0 where
  pub cr0 : ℕ
  pub eflags : ℕ

-- `struct hnm_ai_machine_snapshot`
pub record MachineSnapshot : Type 0 where
  pub state_flags : ℕ
  pub cr0_safe_bits : ℕ
  pub eflags_safe_bits : ℕ

abbrev pub bit_at : ℕ → ℕ → ℕ
bit_at value k = value / 2 ^ k % 2

-- `hnm_ai_machine_capture`: the bits PE and PG of CR0, and IF of EFLAGS.
unfoldable pub machine_capture : Registers → MachineSnapshot
machine_capture r = record {
  state_flags = bit_at r.cr0 0 + (2 * bit_at r.cr0 31 + 4 * bit_at r.eflags 9);
  cr0_safe_bits = bit_at r.cr0 0 + 2 ^ 31 * bit_at r.cr0 31;
  eflags_safe_bits = 512 * bit_at r.eflags 9;
}

-- `enum hnm_ai_assembly_opcode`
pub data Opcode : Type 0 where
  nop observe_machine route_context bound_task draft_response wait_permission sync_cpu sync_ram
        sync_gpu return_result :
      Opcode

pub record Instruction : Type 0 where
  pub opcode : Opcode
  pub operand : ℕ

abbrev pub instruction_max : ℕ
instruction_max = 6

-- `struct hnm_ai_assembly_program`
pub record Program : Type 0 where
  pub instruction_count : ℕ
  pub task_type : TaskType
  pub context_flags : ℕ
  pub machine : MachineSnapshot
  pub sync : Snapshot
  pub instructions : List Instruction

abbrev pub step : Opcode → ℕ → Instruction
step opcode operand = record { opcode = opcode; operand = operand }

unfoldable pub append : Opcode → ℕ → Program → Program
append opcode operand p = if leb instruction_max p.instruction_count then p else record p {
  instructions = set p.instructions p.instruction_count (step opcode operand);
  instruction_count = p.instruction_count + 1;
}

-- `hnm_ai_assembly_init` for the snapshot that its call of `hnm_sync_capture` takes.
abbrev pub cleared : Registers → Snapshot → Program
cleared r snapshot = record {
  instruction_count = 0;
  task_type = no_task;
  context_flags = 0;
  machine = machine_capture r;
  sync = snapshot;
  instructions = replicate instruction_max (step nop 0);
}

unfoldable pub init : Registers → Machine → Sync → Option (Program × Sync)
init r m s = elim (Sync.capture m s) [ none ↦ none | some t ↦ some (cleared r t.last, t) ]

abbrev pub is_sync : TaskType → Bool
is_sync sync = true
is_sync _ = false

abbrev pub titled : AiTask → Program → Program
titled task p = record p { task_type = task.task_type; context_flags = task.context_flags }

-- The instructions of a checkpoint.
unfoldable pub sync_program : AiTask → Program → Program
sync_program task p = append return_result 0 (
    append route_context task.context_flags (
      append sync_gpu p.sync.gpu_fence_count (
        append sync_ram p.sync.ram_fence_count (
          append sync_cpu p.sync.cpu_fence_count
            (append observe_machine p.machine.state_flags p)))))

-- The instructions of any other task.
unfoldable pub task_program : AiTask → Program → Program
task_program task p = append return_result 0 (
    append wait_permission 0 (
      append draft_response 0 (
        append bound_task (type_number task.task_type) (
          append route_context task.context_flags
            (append observe_machine p.machine.state_flags p)))))

-- `hnm_ai_assembly_build` behind its call of `hnm_ai_assembly_init`.
unfoldable pub build_from : Machine → AiTask → Program × Sync → Option (Program × Sync)
build_from m task (p, s) =
    if is_sync task.task_type
    then elim (Sync.checkpoint m s) [
      | none ↦ none
      | some t ↦ some (sync_program task (record (titled task p) { sync = t.last }), t)
    ]
    else some (task_program task (titled task p), s)

-- A null task leaves the cleared program.
unfoldable pub build : Registers → Machine → Option AiTask → Sync → Option (Program × Sync)
build r m none s = init r m s
build r m (some task) s = elim (init r m s) [ none ↦ none | some begun ↦ build_from m task begun ]
