-- ===== src/Scheduler/Tests.antt =====
-- The scheduler after its start, and one whose only task was stopped.
use hnmos.Prelude.{ℕ, zero, suc, ◌+◌, ◌<◌, ◌≡◌, inl, refl, true, false, some, ◌∷◌, arith, replicate}
use hnmos.Task
use hnmos.Task.{State, Task, Registry, task_max, empty_task, task_at, running}
use hnmos.Scheduler.{Scheduler, init, yield_task}
use hnmos.Scheduler.Inv.{IsValid, Yielded, yield_task_lem, state_at}
use hnmos.Scheduler.Fair.{AllReady, NoneReady, yields, every_task_runs, yield_task-resumes}
use hnmos.Scheduler.Start.{Begun, init_begins}

abbrev off : Scheduler
off = record {
  ready = false;
  current_index = 5;
  yield_total = 9;
  registry = record { tasks = replicate task_max empty_task; total = 0; next_id = 0 };
}

init_begins_example : Begun 4096 8192 (init 4096 8192 off)
init_begins_example = init_begins 4096 8192 off refl

abbrev on : Scheduler
on = init 4096 8192 off

on-AllReady : AllReady on
on-AllReady = (init_begins 4096 8192 off refl).all_ready

on-room : 0 < on.registry.total
on-room = omega (arith, (init_begins 4096 8192 off refl).total)

yield_task_example : Yielded on (yield_task on)
yield_task_example = yield_task_lem on on-AllReady.valid

every_task_runs_example :
    (n : ℕ) × (n < on.registry.total) × ((yields n on).current_index ≡ 0) × IsValid (yields n on)
every_task_runs_example = every_task_runs on 0 on-AllReady on-room

abbrev one_stopped : Scheduler
one_stopped = record {
  ready = true;
  current_index = 0;
  yield_total = 0;
  registry = record {
    tasks =
        record {
          id = 1;
          name = some "shell";
          state = State.stopped;
          entry = 4096;
          argument = 0;
          stack_pointer = 0;
          yield_count = 3;
        }
        ∷ replicate 7 empty_task;
    total = 1;
    next_id = 2;
  };
}

one_stopped-IsValid : Task.Inv.IsValid one_stopped.registry
one_stopped-IsValid = record {
  slots = refl;
  bounded = omega arith;
  next = refl;
  numbered = numbered;
}
  where
    numbered : (i : ℕ) → i < 1 → (task_at one_stopped.registry i).id ≡ i + 1
    numbered zero h = refl
    numbered (suc i) h = absurd (omega arith)

one_stopped-NoneReady : NoneReady one_stopped
one_stopped-NoneReady zero h = refl
one_stopped-NoneReady (suc i) h = absurd (omega arith)

yield_task-resumes_example : state_at (yield_task one_stopped).registry 0 ≡ running
yield_task-resumes_example =
    yield_task-resumes one_stopped one_stopped-IsValid refl (omega arith) (inl refl)
      one_stopped-NoneReady
