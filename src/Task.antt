-- ===== src/Task.antt =====
-- The task registry, kernel01/kernel/task/task.c, with the context of context.c.
-- The writes to the log are left out.
pub mod Inv
mod Tests
use Prim.Native.String.{String}
use hnmos.Prelude.{
  ℕ, zero, suc, ◌+◌, Bool, true, false, ◌||◌, Option, none, some, List, leb, ltb, ◌==◌,
  if◌then◌else◌, add32, get_or, set,
}

pub data State : Type 0 where
  ready running blocked stopped : State

-- `struct hnm_task`. The entry, its argument and the stack pointer are addresses that the registry
-- only stores.
pub record Task : Type 0 where
  pub id : ℕ
  pub name : Option String
  pub state : State
  pub entry : ℕ
  pub argument : ℕ
  pub stack_pointer : ℕ
  pub yield_count : ℕ

abbrev pub task_max : ℕ
task_max = 8

-- The static variables; `tasks` is the array of `task_max` slots.
pub record Registry : Type 0 where
  pub tasks : List Task
  pub total : ℕ
  pub next_id : ℕ

-- What an unused slot of the static array holds.
abbrev pub empty_task : Task
empty_task = record {
  id = 0;
  name = none;
  state = State.ready;
  entry = 0;
  argument = 0;
  stack_pointer = 0;
  yield_count = 0;
}

abbrev pub task_at : Registry → ℕ → Task
task_at r i = get_or r.tasks i empty_task

unfoldable pub registry_init : Registry → Registry
registry_init r = record r { total = 0; next_id = 1 }

-- The id is what is stored through `task_id`; `none` is the result 0.
unfoldable pub register : Option String → ℕ → ℕ → ℕ → State → Registry → Option ℕ × Registry
register none entry argument stack_pointer initial_state r = (none, r)
register (some name) entry argument stack_pointer initial_state r =
    if leb task_max r.total then (none, r) else (
      some r.next_id,
      record {
        tasks = set r.tasks r.total (record {
          id = r.next_id;
          name = some name;
          state = initial_state;
          entry = entry;
          argument = argument;
          stack_pointer = stack_pointer;
          yield_count = 0;
        });
        total = add32 r.total 1;
        next_id = add32 r.next_id 1;
      },
    )

-- The task at an index, or the null pointer.
unfoldable pub get : Registry → ℕ → Option Task
get r i = if leb r.total i then none else some (task_at r i)

-- The loop that four of the functions share: the first index, from `i` on, with this id.
unfoldable pub find_from : Registry → ℕ → ℕ → ℕ → Option ℕ
find_from r zero i task_id = none
find_from r (suc left) i task_id =
    let rest = find_from r left (i + 1) task_id in
    if (task_at r i).id == task_id then some i else rest

unfoldable pub index_by_id : Registry → ℕ → Option ℕ
index_by_id r task_id = find_from r r.total 0 task_id

unfoldable pub get_by_id : Registry → ℕ → Option Task
get_by_id r task_id = elim (index_by_id r task_id) [ none ↦ none | some i ↦ some (task_at r i) ]

abbrev pub put : Registry → ℕ → Task → Registry
put r i t = record r { tasks = set r.tasks i t }

unfoldable pub set_state : ℕ → State → Registry → Bool × Registry
set_state task_id state r = elim (index_by_id r task_id) [
  | none ↦ (false, r)
  | some i ↦ (true, put r i (record (task_at r i) { state = state }))
]

unfoldable pub increment_yield_count : ℕ → Registry → Bool × Registry
increment_yield_count task_id r = elim (index_by_id r task_id) [
  | none ↦ (false, r)
  | some i ↦
      (true, put r i (record (task_at r i) { yield_count = add32 (task_at r i).yield_count 1 }))
]
