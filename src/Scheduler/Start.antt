-- ===== src/Scheduler/Start.antt =====
-- `hnm_scheduler_init`.
use Prim.Native.String.{String}
use hnmos.Prelude.{
  ℕ, zero, suc, ◌+◌, ◌<◌, ◌≡◌, ◌≢◌, refl, true, arith, ap, length, List, [], ◌∷◌, some, ◌==◌, Bool,
}
use mathlib.Core.Path.{subst⁻¹}
use hnmos.Task
use hnmos.Task.{State, Task, Registry, running, task_at, task_max}
use hnmos.Scheduler.{
  Scheduler, is_ready, is_running, init, add_task, yield_task, select_task, next_ready, run_task,
  rest_current, keep_current,
}
use hnmos.Scheduler.Inv.{state_at}
use hnmos.Scheduler.Fair.{AllReady}

-- A task as it stands in its slot before its first turn.
abbrev pub named : ℕ → String → State → ℕ → Task
named id name state entry = record {
  id = id;
  name = some name;
  state = state;
  entry = entry;
  argument = 0;
  stack_pointer = 0;
  yield_count = 0;
}

module _ (idle_entry ui_entry : ℕ) (ts : List Task) (total next_id : ℕ) where
  -- The two tasks of the start, before the slots that stay unused.
  abbrev first : Scheduler
  first = record {
    ready = true;
    current_index = 1;
    yield_total = 0;
    registry = record {
      tasks = named 1 "idle" State.ready idle_entry ∷ named 2 "ui" running ui_entry ∷ ts;
      total = 2;
      next_id = 3;
    };
  }

  init-first :
      (t u : Task) (on : Bool) (i y : ℕ)
      → init idle_entry ui_entry (record {
        ready = on;
        current_index = i;
        yield_total = y;
        registry = record { tasks = t ∷ u ∷ ts; total = total; next_id = next_id };
      })
        ≡ first
  unfolding init add_task Task.registry_init Task.register Task.index_by_id Task.find_from
      Task.set_state
  init-first t u on i y = refl

  first-AllReady : length ts + 2 ≡ task_max → AllReady first
  first-AllReady h = record {
    valid = record {
      tasks = record {
        slots = omega arith;
        bounded = omega arith;
        next = refl;
        numbered = numbered;
      };
      on = refl;
      current_in = omega arith;
      one_runs = one_runs;
    };
    waiting = waiting;
  }
    where
      numbered : (i : ℕ) → i < 2 → (task_at first.registry i).id ≡ i + 1
      numbered zero l = refl
      numbered (suc zero) l = refl
      numbered (suc (suc i)) l = absurd (omega arith)

      one_runs : (i : ℕ) → i < 2 → is_running (state_at first.registry i) ≡ (i == 1)
      one_runs zero l = refl
      one_runs (suc zero) l = refl
      one_runs (suc (suc i)) l = absurd (omega arith)

      waiting : (i : ℕ) → i < 2 → i ≢ 1 → is_ready (state_at first.registry i) ≡ true
      waiting zero l n = refl
      waiting (suc zero) l n = absurd (n refl)
      waiting (suc (suc i)) l n = absurd (omega arith)

-- The scheduler after its start: task 1 waits for its turn, task 2 has it, and no yield was counted.
pub record Begun (idle_entry ui_entry : ℕ) (r : Scheduler) : Type 0 where
  pub all_ready : AllReady r
  pub total : r.registry.total ≡ 2
  pub current : r.current_index ≡ 1
  pub idle : task_at r.registry 0 ≡ named 1 "idle" State.ready idle_entry
  pub ui : task_at r.registry 1 ≡ named 2 "ui" running ui_entry
  pub next_id : r.registry.next_id ≡ 3
  pub yield_total : r.yield_total ≡ 0
  pub turns : ((yield_task r).current_index ≡ 0) × ((yield_task (yield_task r)).current_index ≡ 1)

module _ (idle_entry ui_entry : ℕ) (ts : List Task) (total next_id : ℕ) where
  first-turns :
      ((yield_task (first idle_entry ui_entry ts total next_id)).current_index ≡ 0)
      × ((yield_task (yield_task (first idle_entry ui_entry ts total next_id))).current_index ≡ 1)
  unfolding yield_task select_task next_ready run_task rest_current keep_current Task.get
      Task.increment_yield_count Task.index_by_id Task.find_from Task.set_state
  first-turns = (refl, refl)

  first-Begun :
      length ts + 2 ≡ task_max
      → Begun idle_entry ui_entry (first idle_entry ui_entry ts total next_id)
  first-Begun h = record {
    all_ready = first-AllReady idle_entry ui_entry ts total next_id h;
    total = refl;
    current = refl;
    idle = refl;
    ui = refl;
    next_id = refl;
    yield_total = refl;
    turns = first-turns;
  }

-- The start leaves a valid scheduler whose registry holds, whatever its eight slots held before,
-- exactly two tasks: task 1, named `idle`, with the first entry address, is ready, and task 2,
-- named `ui`, with the second, is the one that runs; the next number is 3. The first yield then
-- gives the turn to `idle` and the second gives it back to `ui`.
pub init_begins :
    (idle_entry ui_entry : ℕ) (s : Scheduler)
    → length s.registry.tasks ≡ task_max
    → Begun idle_entry ui_entry (init idle_entry ui_entry s)
init_begins idle_entry ui_entry s h = started s.registry.tasks refl
  where
    started :
        (ts : List Task)
        → s.registry.tasks ≡ ts
        → Begun idle_entry ui_entry (init idle_entry ui_entry s)
    started [] e = absurd (omega (arith, ap {B = ℕ} length e))
    started (t ∷ []) e = absurd (omega (arith, ap {B = ℕ} length e))
    started (t ∷ u ∷ ts) e =
        subst⁻¹
          (λ (l : List Task).
            Begun idle_entry ui_entry (
              init idle_entry ui_entry (record s { registry = record (s.registry) { tasks = l } })))
          e
          (subst⁻¹ (Begun idle_entry ui_entry)
            (init-first idle_entry ui_entry ts s.registry.total s.registry.next_id t u s.ready
              s.current_index s.yield_total)
            (first-Begun idle_entry ui_entry ts s.registry.total s.registry.next_id
              (omega (arith, ap {B = ℕ} length e))))
