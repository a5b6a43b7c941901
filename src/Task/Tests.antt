-- ===== src/Task/Tests.antt =====
-- A registry of eight slots with two tasks.
use hnmos.Prelude.{◌<◌, refl, arith, replicate}
use hnmos.Task.{State, Registry, task_max, empty_task, registry_init}
use hnmos.Task.Inv.{IsValid, registry_init-IsValid, register_lem, Registered, call}

abbrev no_tasks : Registry
no_tasks = record { tasks = replicate task_max empty_task; total = 3; next_id = 9 }

abbrev begun : Registry
begun = registry_init no_tasks

begun-IsValid : IsValid begun
begun-IsValid = registry_init-IsValid no_tasks refl

begun-room : begun.total < task_max
unfolding registry_init
begun-room = omega arith

register_example :
    Registered "shell" 4096 7 0 State.ready begun (call "shell" 4096 7 0 State.ready begun)
register_example = register_lem "shell" 4096 7 0 State.ready begun begun-IsValid begun-room

abbrev one_task : Registry
one_task = (call "shell" 4096 7 0 State.ready begun).1

one_task-IsValid : IsValid one_task
one_task-IsValid = (register_lem "shell" 4096 7 0 State.ready begun begun-IsValid begun-room).valid
