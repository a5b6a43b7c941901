-- ===== src/Ai/Assembly/Programs.antt =====
-- The programs that are built.
use hnmos.Prelude.{
  ◌≡◌, refl, ap, ◌∙◌, Bool, true, false, Option, none, some, List, [], ◌∷◌, if◌then◌else◌, arith,
  Bool-cases, inl, inr,
}
use hnmos.Ai.Task.{AiTask, type_number}
use hnmos.Sync
use hnmos.Sync.{Sync, Machine}
use hnmos.Sync.Fences.{IsFree, Counted, Shows, fences_lem}
use hnmos.Ai.Assembly.{
  Registers, Program, Instruction, step, observe_machine, route_context, bound_task, draft_response,
  wait_permission, sync_cpu, sync_ram, sync_gpu, return_result, machine_capture, append, cleared,
  init, is_sync, titled, sync_program, task_program, build_from, build,
}

-- The six instructions that a program is to have, by the counts of its own snapshots.
abbrev pub planned : AiTask → Program → List Instruction
planned task p =
    if is_sync task.task_type
    then step observe_machine p.machine.state_flags
      ∷ step sync_cpu p.sync.cpu_fence_count
      ∷ step sync_ram p.sync.ram_fence_count
      ∷ step sync_gpu p.sync.gpu_fence_count
      ∷ step route_context task.context_flags
      ∷ step return_result 0
      ∷ []
    else step observe_machine p.machine.state_flags
      ∷ step route_context task.context_flags
      ∷ step bound_task (type_number task.task_type)
      ∷ step draft_response 0
      ∷ step wait_permission 0
      ∷ step return_result 0
      ∷ []

-- A program that was built for a task, with the layer that it was built under.
pub record Built (r : Registers) (m : Machine) (task : AiTask) (s : Sync)
    (built : Option (Program × Sync)) : Type 0 where
  pub program : Program
  pub after : Sync
  pub result : built ≡ some (program, after)
  pub count : program.instruction_count ≡ 6
  pub instructions : program.instructions ≡ planned task program
  pub machine : program.machine ≡ machine_capture r
  pub snapshot : (program.sync ≡ after.last) × Shows m after.last
  pub unlocked : (after.lock ≡ 0) × (after.interrupts ≡ s.interrupts)

-- The program for a checkpoint, and the one for any other task.
checked : Registers → AiTask → Sync → Sync → Program
checked r task s t = sync_program task (record (titled task (cleared r s.last)) { sync = t.last })

unchecked : Registers → AiTask → Sync → Program
unchecked r task s = task_program task (titled task (cleared r s.last))

init-captured :
    (r : Registers) (m : Machine) (s t : Sync)
    → Sync.capture m s ≡ some t
    → init r m s ≡ some (cleared r t.last, t)
unfolding init
init-captured r m s t c =
    ap {B = Option (Program × Sync)}
      (λ (o : Option Sync). elim o [ none ↦ none | some u ↦ some (cleared r u.last, u) ]) c

build_from-sync :
    (m : Machine) (task : AiTask) (p : Program) (s t : Sync)
    → is_sync task.task_type ≡ true
    → Sync.checkpoint m s ≡ some t
    → build_from m task (p, s)
      ≡ some (sync_program task (record (titled task p) { sync = t.last }), t)
unfolding build_from
build_from-sync m task p s t e k =
    let other : Option (Program × Sync) = some (task_program task (titled task p), s) in
    let of : Option Sync → Option (Program × Sync) = λ (o : Option Sync). elim o [
      | none ↦ none
      | some u ↦ some (sync_program task (record (titled task p) { sync = u.last }), u)
    ] in
    ap (λ (b : Bool). if b then of (Sync.checkpoint m s) else other) e ∙ ap of k

build_from-task :
    (m : Machine) (task : AiTask) (p : Program) (s : Sync)
    → is_sync task.task_type ≡ false
    → build_from m task (p, s) ≡ some (task_program task (titled task p), s)
unfolding build_from
build_from-task m task p s e = rw e refl

build-checked :
    (r : Registers) (m : Machine) (task : AiTask) (s t u : Sync)
    → Sync.capture m s ≡ some t
    → Sync.checkpoint m t ≡ some u
    → is_sync task.task_type ≡ true
    → build r m (some task) s ≡ some (checked r task t u, u)
unfolding build checked
build-checked r m task s t u c k e =
    let p = cleared r t.last in
    ap {B = Option (Program × Sync)}
      (λ (o : Option (Program × Sync)). elim o [
        | none ↦ none
        | some begun ↦ build_from m task begun
      ])
      (init-captured r m s t c)
    ∙ build_from-sync m task p t u e k

build-unchecked :
    (r : Registers) (m : Machine) (task : AiTask) (s t : Sync)
    → Sync.capture m s ≡ some t
    → is_sync task.task_type ≡ false
    → build r m (some task) s ≡ some (unchecked r task t, t)
unfolding build unchecked
build-unchecked r m task s t c e =
    ap {B = Option (Program × Sync)}
      (λ (o : Option (Program × Sync)). elim o [
        | none ↦ none
        | some begun ↦ build_from m task begun
      ])
      (init-captured r m s t c)
    ∙ build_from-task m task (cleared r t.last) t e

checked_lem :
    (r : Registers) (task : AiTask) (s t : Sync)
    → is_sync task.task_type ≡ true
    → ((checked r task s t).instruction_count ≡ 6)
      × ((checked r task s t).instructions ≡ planned task (checked r task s t))
unfolding checked sync_program append
checked_lem r task s t e = (refl, simp e refl)

unchecked_lem :
    (r : Registers) (task : AiTask) (s : Sync)
    → is_sync task.task_type ≡ false
    → ((unchecked r task s).instruction_count ≡ 6)
      × ((unchecked r task s).instructions ≡ planned task (unchecked r task s))
unfolding unchecked task_program append
unchecked_lem r task s e = (refl, simp e refl)

captured-IsFree : (m : Machine) (s t : Sync) → t.lock ≡ 0 → Counted 0 0 0 s.last t → IsFree t
captured-IsFree m s t l c = record {
  lock = l;
  cpu = omega (arith, c.0);
  ram = omega (arith, c.1);
  gpu = omega (arith, c.2);
  sequence = omega (arith, c.3);
}

-- With the lock of the synchronisation layer free and its counts below 2 ^ 32, building a program for
-- a task ends, with six instructions: those of the table for a checkpoint or for any other task, with
-- the flags of the registers and the counts of the program's own snapshot, which shows the machine;
-- the lock is free again and the interrupts are as they were.
pub build_lem :
    (r : Registers) (m : Machine) (task : AiTask) (s : Sync)
    → IsFree s
    → Built r m task s (build r m (some task) s)
unfolding checked unchecked sync_program task_program append
build_lem r m task s v =
    let c = (fences_lem m s v).3 in
    let k = (fences_lem m c.after (captured-IsFree m s c.after c.unlocked c.effect.0)).4 in
    elim (Bool-cases (is_sync task.task_type)) [
      | inl e ↦ record {
        program = checked r task c.after k.after;
        after = k.after;
        result = build-checked r m task s c.after k.after c.result k.result e;
        count = (checked_lem r task c.after k.after e).0;
        instructions = (checked_lem r task c.after k.after e).1;
        machine = refl;
        snapshot = (refl, k.effect.1);
        unlocked = (k.unlocked, k.interrupts ∙ c.interrupts);
      }
      | inr e ↦ record {
        program = unchecked r task c.after;
        after = c.after;
        result = build-unchecked r m task s c.after c.result e;
        count = (unchecked_lem r task c.after e).0;
        instructions = (unchecked_lem r task c.after e).1;
        machine = refl;
        snapshot = (refl, c.effect.1);
        unlocked = (c.unlocked, c.interrupts);
      }
    ]
