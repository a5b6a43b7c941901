-- ===== src/Scheduler/Inv.antt =====
-- The invariant of the scheduler: one task runs, the one at the current index.
use hnmos.Prelude.{
  ℕ, zero, suc, ◌+◌, ◌%◌, ◌≤◌, ◌<◌, ◌≡◌, ◌≢◌, refl, sym, true, false, some, arith, ◌==◌,
  if◌then◌else◌, add32, inl, inr, Bool-cases, ◌∙◌, ap, ◌⊎◌, dec_lt, once_round, ℕ_discrete,
}
use mathlib.Core.Path.{subst, subst⁻¹}
use mathlib.Core.Bool.{false≢true}
use hnmos.Task
use hnmos.Task.{State, Task, Registry, running, task_at, task_max, put}
use hnmos.Task.Inv
use hnmos.Task.Inv.{task_at-put, put-IsValid, set_state-task_at, increment_yield_count-task_at}
use hnmos.Scheduler.{
  Scheduler, is_ready, is_running, candidate_ready, next_ready, run_task, select_task, rest_current,
  yield_task,
}

abbrev pub state_at : Registry → ℕ → State
state_at r i = (task_at r i).state

pub record IsValid (s : Scheduler) : Type 0 where
  pub tasks : Task.Inv.IsValid s.registry
  pub on : s.ready ≡ true
  pub current_in : s.current_index < s.registry.total
  pub one_runs :
      (i : ℕ) → i < s.registry.total → is_running (state_at s.registry i) ≡ (i == s.current_index)

candidate_ready-get :
    (r : Registry) (i : ℕ) → i < r.total → candidate_ready (Task.get r i) ≡ is_ready (state_at r i)
unfolding Task.get
candidate_ready-get r i l = ground arith

-- The first offset whose task is ready.
pub record Selected (r : Registry) (start : ℕ) (offset : ℕ) (index : ℕ) : Type 0 where
  pub last : ℕ
  pub from : offset ≤ last
  pub here : index ≡ (start + last) % r.total
  pub is_it : is_ready (state_at r index) ≡ true
  pub skipped :
      (k : ℕ) → offset ≤ k → k < last → is_ready (state_at r ((start + k) % r.total)) ≡ false

first_skipped :
    (r : Registry) (start offset index : ℕ)
    → is_ready (state_at r ((start + offset) % r.total)) ≡ false
    → Selected r start (offset + 1) index
    → Selected r start offset index
first_skipped r start offset index f g = record {
  last = g.last;
  from = omega (arith, g.from);
  here = g.here;
  is_it = g.is_it;
  skipped = λ i p q. elim (ℕ_discrete offset i) [
    | yes e ↦ subst (λ j. is_ready (state_at r ((start + j) % r.total)) ≡ false) e f
    | no n ↦ g.skipped i (omega arith) q
  ];
}

next_ready-some :
    (r : Registry) (start left offset : ℕ)
    → start < r.total
    → r.total ≤ task_max
    → offset + left ≤ task_max + 1
    → (k : ℕ) → offset ≤ k
    → k < offset + left
    → is_ready (state_at r ((start + k) % r.total)) ≡ true
    → (index : ℕ) × (next_ready r start left offset ≡ some index) × Selected r start offset index
unfolding next_ready
next_ready-some r start zero offset l m b k lo hi h = absurd (omega arith)
next_ready-some r start (suc left) offset l m b k lo hi h =
    let here = (start + offset) % r.total in
    let same : add32 start offset % r.total ≡ here = ap (λ i. i % r.total) (omega arith) in
    let in_range : here < r.total = omega arith in
    let test : candidate_ready (Task.get r (add32 start offset % r.total))
        ≡ is_ready (state_at r here) =
      ap (λ i. candidate_ready (Task.get r i)) same ∙ candidate_ready-get r here in_range in
    elim (Bool-cases (is_ready (state_at r here))) [
      | inl t ↦ (
        here,
        rw (test ∙ t) (ap some same),
        record {
          last = offset;
          from = omega arith;
          here = refl;
          is_it = t;
          skipped = λ i p q. absurd (omega arith);
        },
      )
      | inr f ↦
          let apart : offset ≢ k = λ e.
            false≢true (sym f ∙ ap (λ i. is_ready (state_at r ((start + i) % r.total))) e ∙ h) in
          let (index, e, g) =
            next_ready-some r start left (offset + 1) l m (omega arith) k (omega arith)
              (omega arith) h in
          (index, rw (test ∙ f) e, first_skipped r start offset index f g)
    ]

-- The registry once the current task is ready, and once the selected one runs.
abbrev pub rested : Registry → ℕ → Registry
rested r i = put r i (record (task_at r i) { state = State.ready })

module _ (s : Scheduler) (v : IsValid s) where
  rest_current-eq : rest_current s ≡ record s { registry = rested s.registry s.current_index }
  unfolding rest_current Task.get
  rest_current-eq = ground (
    arith,
    v.current_in,
    v.one_runs s.current_index v.current_in,
    set_state-task_at s.current_index State.ready s.registry v.tasks v.current_in,
  )

  rested-IsValid : Task.Inv.IsValid (rested s.registry s.current_index)
  rested-IsValid =
      put-IsValid s.registry s.current_index _ v.tasks v.current_in
        (v.tasks.numbered s.current_index v.current_in)

  state_at-rested :
      (j : ℕ)
      → state_at (rested s.registry s.current_index) j
        ≡ (if s.current_index == j then State.ready else state_at s.registry j)
  state_at-rested j = ground (
    arith,
    task_at-put s.registry s.current_index j
        (record (task_at s.registry s.current_index) { state = State.ready }) v.tasks v.current_in,
  )

  -- The current task is ready now, so the search ends at the last offset at the latest.
  selects :
      (index : ℕ) × (next_ready
          (rested s.registry s.current_index)
          s.current_index
          s.registry.total
          1
        ≡ some index)
      × Selected (rested s.registry s.current_index) s.current_index 1 index
  selects =
      let b = v.tasks.bounded in
      let c = v.current_in in
      let back : (s.current_index + s.registry.total) % s.registry.total ≡ s.current_index =
        once_round _ _ c in
      next_ready-some (rested s.registry s.current_index) s.current_index s.registry.total 1 c b
        (omega arith) s.registry.total (omega arith) (omega arith)
        (ap (λ i. is_ready (state_at (rested s.registry s.current_index) i)) back
          ∙ ap is_ready (state_at-rested s.current_index)
          ∙ ground arith)

-- What running the task at an index leaves.
pub record Runs (s : Scheduler) (i : ℕ) (t : Scheduler) : Type 0 where
  pub index : t.current_index ≡ i
  pub total : t.registry.total ≡ s.registry.total
  pub states : (j : ℕ) → state_at t.registry j ≡ (if i == j then running else state_at s.registry j)
  pub tasks : Task.Inv.IsValid t.registry
  pub on : t.ready ≡ s.ready
  pub yields : t.yield_total ≡ add32 s.yield_total 1

module _ (s : Scheduler) (i : ℕ) (v : Task.Inv.IsValid s.registry) (l : i < s.registry.total) where
  abbrev running_now : Registry
  running_now = put s.registry i (record (task_at s.registry i) { state = running })

  abbrev counted : Registry
  counted =
      put running_now i (record (task_at running_now i) {
        yield_count = add32 (task_at running_now i).yield_count 1;
      })

  running_now-IsValid : Task.Inv.IsValid running_now
  running_now-IsValid = put-IsValid s.registry i _ v l (v.numbered i l)

  same_id : (task_at running_now i).id ≡ (task_at s.registry i).id
  same_id =
      ground
        (arith, task_at-put s.registry i i (record (task_at s.registry i) { state = running }) v l)

  run_task-eq :
      run_task i s
      ≡ record s { current_index = i; registry = counted; yield_total = add32 s.yield_total 1 }
  unfolding run_task
  run_task-eq = rw (set_state-task_at i running s.registry v l) (rw (by_id))
    where
      by_id : Task.increment_yield_count (task_at s.registry i).id running_now ≡ (true, counted)
      by_id =
          ap (λ n. Task.increment_yield_count n running_now) (sym same_id)
          ∙ increment_yield_count-task_at i running_now running_now-IsValid l

  run_task-Runs : Runs s i (run_task i s)
  run_task-Runs = subst⁻¹ (Runs s i) run_task-eq (record {
    index = refl;
    total = refl;
    states = λ j. ground (
      arith,
      task_at-put s.registry i j (record (task_at s.registry i) { state = running }) v l,
      task_at-put s.registry i i (record (task_at s.registry i) { state = running }) v l,
      task_at-put running_now i j
          (record (task_at running_now i) {
            yield_count = add32 (task_at running_now i).yield_count 1;
          })
          running_now-IsValid l,
    );
    tasks = put-IsValid running_now i _ running_now-IsValid l (running_now-IsValid.numbered i l);
    on = refl;
    yields = refl;
  })

-- What one yield does: the task at the first offset from 1 on that is ready runs, where the task
-- that ran before counts as ready; it becomes ready, and the states of all others stay.
pub record Yielded (s t : Scheduler) : Type 0 where
  pub offset : ℕ
  pub positive : 1 ≤ offset
  pub at_most : offset ≤ s.registry.total
  pub index : t.current_index ≡ (s.current_index + offset) % s.registry.total
  pub was_ready :
      (is_ready (state_at s.registry t.current_index) ≡ true) ⊎ (t.current_index ≡ s.current_index)
  pub skipped :
      (k : ℕ)
      → 1 ≤ k
      → k < offset
      → is_ready (state_at s.registry ((s.current_index + k) % s.registry.total)) ≡ false
  pub states :
      (j : ℕ)
      → state_at t.registry j ≡ (
          if t.current_index == j
          then running
          else (if s.current_index == j then State.ready else state_at s.registry j))
  pub yields : t.yield_total ≡ add32 s.yield_total 1
  pub total : t.registry.total ≡ s.registry.total
  pub valid : IsValid t

yield_task-eq :
    (s : Scheduler) (index : ℕ)
    → IsValid s
    → next_ready (rested s.registry s.current_index) s.current_index s.registry.total 1 ≡ some index
    → yield_task s ≡ run_task index (record s { registry = rested s.registry s.current_index })
unfolding yield_task select_task
yield_task-eq s index v e = ground (arith, rest_current-eq s v, v.on, v.current_in)

run-Yielded :
    (s : Scheduler) (index : ℕ) (t : Scheduler)
    → IsValid s
    → Selected (rested s.registry s.current_index) s.current_index 1 index
    → Runs (record s { registry = rested s.registry s.current_index }) index t
    → Yielded s t
run-Yielded s index t v g u =
    let c = v.current_in in
    let n = s.registry.total in
    let back : (s.current_index + n) % n ≡ s.current_index = once_round _ _ c in
    let at_cur = state_at-rested s v s.current_index in
    let in_range : t.current_index < n = omega (arith, u.index, g.here) in
    record {
      offset = g.last;
      positive = g.from;
      at_most = elim (dec_lt n g.last) [
        | no h ↦ omega arith
        | yes past ↦
            let f = g.skipped n (omega arith) past in
            absurd (
              false≢true (
                sym f
                ∙ ap (λ i. is_ready (state_at (rested s.registry s.current_index) i)) back
                ∙ ap is_ready at_cur
                ∙ ground arith))
      ];
      index = u.index ∙ g.here;
      was_ready = ground (arith, u.index, g.is_it, state_at-rested s v index);
      skipped = λ k p q.
          let i = (s.current_index + k) % n in
          ground (arith, g.skipped k p q, state_at-rested s v i);
      states = λ j. ground (arith, u.index, u.states j, state_at-rested s v j);
      yields = u.yields;
      total = u.total;
      valid = record {
        tasks = u.tasks;
        on = u.on ∙ v.on;
        current_in = omega (arith, in_range, u.total);
        one_runs = λ j l. ground (
          arith,
          u.index,
          u.states j,
          state_at-rested s v j,
          v.one_runs j (omega (arith, u.total)),
        );
      };
    }

-- A yield of a valid scheduler gives the processor to the next task in turn, and leaves it valid:
-- one task runs, the one at the current index.
pub yield_task_lem : (s : Scheduler) → IsValid s → Yielded s (yield_task s)
yield_task_lem s v =
    let (index, e, g) = selects s v in
    let l : index < s.registry.total = omega (arith, g.here, v.current_in) in
    subst⁻¹ (Yielded s) (yield_task-eq s index v e) (
      run-Yielded s index _ v g (
        run_task-Runs (record s { registry = rested s.registry s.current_index }) index
          (rested-IsValid s v) l))
