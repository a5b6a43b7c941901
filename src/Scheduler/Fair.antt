-- ===== src/Scheduler/Fair.antt =====
-- Turns: with no task blocked or stopped every task gets the processor. What a yield does when the
-- current task was stopped.
use hnmos.Prelude.{
  ℕ, zero, suc, ◌+◌, ◌-◌, ◌%◌, ◌<◌, ◌≡◌, ◌≢◌, refl, sym, true, false, arith, none, once_round, ◌∙◌,
  ap, dec_lt, ◌⊎◌, add32,
}
use mathlib.Core.Bool.{false≢true}
use native.Mathlib.Nat.{add-zero, mod-eq_of_lt, mod-add-mod}
use hnmos.Task
use hnmos.Task.Inv
use hnmos.Task.Inv.{set_state-task_at, task_at-put}
use hnmos.Task.{State, Task, running, task_at, task_max}
use hnmos.Scheduler.{
  Scheduler, is_ready, yield_task, rest_current, select_task, keep_current, next_ready,
}
use hnmos.Scheduler.Inv.{IsValid, state_at, Yielded, yield_task_lem}

-- A valid scheduler in which every task but the current one is ready.
pub record AllReady (s : Scheduler) : Type 0 where
  pub valid : IsValid s
  pub waiting :
      (i : ℕ) → i < s.registry.total → i ≢ s.current_index → is_ready (state_at s.registry i) ≡ true

turn_ne : (i n : ℕ) → i < n → 1 < n → (i + 1) % n ≢ i
turn_ne i n l m e = elim (dec_lt (i + 1) n) [
  | yes h ↦ omega (arith, mod-eq_of_lt h)
  | no h ↦
      let back : (i + 1) % n ≡ 0 =
        ap {A = ℕ} (λ k. k % n) {x = i + 1} {y = 0 + n} (omega arith)
        ∙ once_round 0 n (omega arith) in
      omega arith
]

next_in_turn :
    (s t : Scheduler)
    → AllReady s
    → Yielded s t
    → t.current_index ≡ (s.current_index + 1) % s.registry.total
next_in_turn s t a y = elim (dec_lt 1 y.offset) [
  | no h ↦ y.index ∙ ap (λ k. (s.current_index + k) % s.registry.total) (omega (arith, y.positive))
  | yes h ↦
      let i = (s.current_index + 1) % s.registry.total in
      let l = a.valid.current_in in
      let m = y.at_most in
      absurd (
        false≢true (
          sym (y.skipped 1 (omega arith) h)
          ∙ a.waiting i (omega arith) (turn_ne s.current_index s.registry.total l (omega arith))))
]

Yielded-AllReady : (s t : Scheduler) → AllReady s → Yielded s t → AllReady t
Yielded-AllReady s t a y = record {
  valid = y.valid;
  waiting = λ i l n. ground (arith, y.states i, a.waiting i (omega (arith, y.total)), y.total);
}

-- `n` yields, one after the other.
pub yields : ℕ → Scheduler → Scheduler
yields zero s = s
yields (suc n) s = yields n (yield_task s)

yields_lem :
    (n : ℕ) (s : Scheduler)
    → AllReady s
    → ((yields n s).current_index ≡ (s.current_index + n) % s.registry.total)
      × ((yields n s).registry.total ≡ s.registry.total)
      × AllReady (yields n s)
unfolding yields
yields_lem zero s a = (
  sym (ap (λ k. k % s.registry.total) (add-zero s.current_index) ∙ mod-eq_of_lt a.valid.current_in),
  refl,
  a,
)
yields_lem (suc n) s a =
    let y = yield_task_lem s a.valid in
    let (index, total, b) = yields_lem n (yield_task s) (Yielded-AllReady s (yield_task s) a y) in
    (
      index
          ∙ ap (λ k. ((yield_task s).current_index + n) % k) y.total
          ∙ ap (λ k. (k + n) % s.registry.total) (next_in_turn s (yield_task s) a y)
          ∙ mod-add-mod (s.current_index + 1) s.registry.total n
          ∙ ap (λ k. k % s.registry.total) (omega arith),
      total ∙ y.total,
      b,
    )

turns_to : (i j n : ℕ) → i < n → j < n → (k : ℕ) × (k < n) × ((i + k) % n ≡ j)
turns_to i j n hi hj = elim (dec_lt j i) [
  | no above ↦ (
    j - i,
    omega arith,
    ap (λ k. k % n) {x = i + (j - i)} {y = j} (omega arith) ∙ mod-eq_of_lt hj,
  )
  | yes below ↦ (
    j + n - i,
    omega arith,
    ap (λ k. k % n) {x = i + (j + n - i)} {y = j + n} (omega arith) ∙ once_round j n hj,
  )
]

-- No task starves while every task but the current one is ready: each task is the current one, and
-- the only one that runs, after fewer yields than there are tasks.
pub every_task_runs :
    (s : Scheduler) (j : ℕ)
    → AllReady s
    → j < s.registry.total
    → (n : ℕ) × (n < s.registry.total) × ((yields n s).current_index ≡ j) × IsValid (yields n s)
every_task_runs s j a l =
    let (n, h, e) = turns_to s.current_index j s.registry.total a.valid.current_in l in
    let (index, total, b) = yields_lem n s a in (n, h, index ∙ e, b.valid)

-- No task is ready.
abbrev pub NoneReady : Scheduler → Type 0
NoneReady s = (i : ℕ) → i < s.registry.total → is_ready (state_at s.registry i) ≡ false

next_ready-none :
    (s : Scheduler) (start left offset : ℕ)
    → NoneReady s
    → 0 < s.registry.total
    → next_ready s.registry start left offset ≡ none
unfolding next_ready Task.get
next_ready-none s start zero offset n h = refl
next_ready-none s start (suc left) offset n h = ground (
  arith,
  n (add32 start offset % s.registry.total) (omega arith),
  next_ready-none s start left (offset + 1) n h,
)

-- A task that was stopped (or blocked) while it was the current one runs again after the next yield
-- when no task is ready: the yield sets it to running, whatever its state was.
pub yield_task-resumes :
    (s : Scheduler)
    → Task.Inv.IsValid s.registry
    → s.ready ≡ true
    → s.current_index < s.registry.total
    → (state_at s.registry s.current_index ≡ State.stopped)
      ⊎ (state_at s.registry s.current_index ≡ State.blocked)
    → NoneReady s
    → state_at (yield_task s).registry s.current_index ≡ running
unfolding yield_task rest_current select_task keep_current Task.get
yield_task-resumes s v on l st n = ground (
  arith,
  next_ready-none s s.current_index s.registry.total 1 n (omega arith),
  set_state-task_at s.current_index running s.registry v l,
  task_at-put s.registry s.current_index s.current_index
      (record (task_at s.registry s.current_index) { state = running }) v l,
)
