-- ===== src/Scheduler.antt =====
-- The cooperative scheduler, kernel01/kernel/task/scheduler.c. The two entry functions of its own
-- tasks do nothing and are addresses here. The writes to the log are left out.
pub mod Inv
pub mod Fair
pub mod Start
mod Tests
use Prim.Native.String.{String}
use hnmos.Prelude.{
  ℕ, zero, suc, ◌+◌, ◌%◌, Bool, true, false, not, ◌||◌, Option, none, some, ◌==◌, if◌then◌else◌,
  add32,
}
use hnmos.Task
use hnmos.Task.{State, Task, Registry, ready, running, task_at}

-- The static variables, with the registry that the scheduler works on.
pub record Scheduler : Type 0 where
  pub ready : Bool
  pub current_index : ℕ
  pub yield_total : ℕ
  pub registry : Registry

-- `struct hnm_scheduler_stats`
pub record Stats : Type 0 where
  pub ready : Bool
  pub task_count : ℕ
  pub current_task_id : ℕ
  pub yield_count : ℕ

abbrev pub is_ready : State → Bool
is_ready State.ready = true
is_ready _ = false

abbrev pub is_running : State → Bool
is_running State.running = true
is_running _ = false

-- The test of the loop in `hnm_scheduler_select_task` on one candidate.
abbrev pub candidate_ready : Option Task → Bool
candidate_ready none = false
candidate_ready (some t) = is_ready t.state

-- The candidates at the offsets from `offset` on, `left` of them, until one is ready.
unfoldable pub next_ready : Registry → ℕ → ℕ → ℕ → Option ℕ
next_ready r start zero offset = none
next_ready r start (suc left) offset =
    let index = add32 start offset % r.total in
    let rest = next_ready r start left (offset + 1) in
    if candidate_ready (Task.get r index) then some index else rest

-- What the loop does with the task that it selects.
unfoldable pub run_task : ℕ → Scheduler → Scheduler
run_task index s =
    let id = (task_at s.registry index).id in
    let r = (Task.set_state id running s.registry).1 in
    record s {
      current_index = index;
      registry = (Task.increment_yield_count id r).1;
      yield_total = add32 s.yield_total 1;
    }

unfoldable pub select_task : ℕ → Scheduler → Bool × Scheduler
select_task start s =
    if s.registry.total == 0
    then (false, s)
    else elim (next_ready s.registry start s.registry.total 1) [
      | none ↦ (false, s)
      | some index ↦ (true, run_task index s)
    ]

-- The task id, or 0.
unfoldable pub add_task : Option String → ℕ → ℕ → ℕ → Scheduler → ℕ × Scheduler
add_task name entry argument stack_pointer s =
    let (id, r) = Task.register name entry argument stack_pointer State.ready s.registry in
    elim id [ none ↦ (0, record s { registry = r }) | some n ↦ (n, record s { registry = r }) ]

-- The two arguments are the addresses of `hnm_idle_task` and `hnm_ui_task`.
unfoldable pub init : ℕ → ℕ → Scheduler → Scheduler
init idle_entry ui_entry s =
    let s₁ : Scheduler = record {
      ready = true;
      current_index = 0;
      yield_total = 0;
      registry = Task.registry_init s.registry;
    } in
    let (idle_id, s₂) = add_task (some "idle") idle_entry 0 0 s₁ in
    let (ui_task_id, s₃) = add_task (some "ui") ui_entry 0 0 s₂ in
    if ui_task_id == 0 then s₃ else elim (Task.index_by_id s₃.registry ui_task_id) [
      | none ↦ s₃
      | some index ↦ record s₃ {
        current_index = index;
        registry = (Task.set_state ui_task_id running s₃.registry).1;
      }
    ]

-- The first half of a yield: the current task, if it runs, is made ready.
unfoldable pub rest_current : Scheduler → Scheduler
rest_current s = elim (Task.get s.registry s.current_index) [
  | none ↦ s
  | some t ↦
      if is_running t.state
      then record s { registry = (Task.set_state t.id State.ready s.registry).1 }
      else s
]

-- What a yield does when no task is selected: the current task runs on.
unfoldable pub keep_current : Option Task → Scheduler → Scheduler
keep_current none s = s
keep_current (some t) s = record s { registry = (Task.set_state t.id running s.registry).1 }

unfoldable pub yield_task : Scheduler → Scheduler
yield_task s =
    let current = Task.get s.registry s.current_index in
    let s₁ = rest_current s in
    let (selected, s₂) = select_task s.current_index s₁ in
    if not s.ready || (s.registry.total == 0)
    then s
    else (if selected then s₂ else keep_current current s₂)

unfoldable pub current_task : Scheduler → Option Task
current_task s = if s.ready then Task.get s.registry s.current_index else none

unfoldable pub get_stats : Scheduler → Stats
get_stats s = record {
  ready = s.ready;
  task_count = s.registry.total;
  current_task_id = elim (current_task s) [ none ↦ 0 | some t ↦ t.id ];
  yield_count = s.yield_total;
}
