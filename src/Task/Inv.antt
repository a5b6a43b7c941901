-- ===== src/Task/Inv.antt =====
-- The invariant of the registry: the task at index `i` has the id `i + 1`.
use Prim.Native.String.{String}
use mathlib.Core.Path.{subst⁻¹}
use mathlib.Core.Option
use hnmos.Prelude.{
  ℕ, zero, suc, ◌+◌, ◌-◌, ◌≤◌, ◌<◌, ◌≡◌, refl, Bool, true, false, ◌&&◌, Option, none, some, arith,
  leb, ltb, ◌==◌, if◌then◌else◌, length, set, length-set, get_or-set, inl, inr, Option-cases, ◌∙◌,
  ap, dec_lt, add32,
}
use hnmos.Task.{
  State, Task, Registry, task_max, task_at, put, registry_init, register, find_from, index_by_id,
  get_by_id, set_state, increment_yield_count, empty_task,
}

pub record IsValid (r : Registry) : Type 0 where
  pub slots : length r.tasks ≡ task_max
  pub bounded : r.total ≤ task_max
  pub next : r.next_id ≡ r.total + 1
  pub numbered : (i : ℕ) → i < r.total → (task_at r i).id ≡ i + 1

pub registry_init-IsValid : (r : Registry) → length r.tasks ≡ task_max → IsValid (registry_init r)
unfolding registry_init
registry_init-IsValid r h = record {
  slots = h;
  bounded = omega arith;
  next = refl;
  numbered = λ i l. absurd (omega arith);
}

-- Writing one slot.
pub task_at-put :
    (r : Registry) (i j : ℕ) (t : Task)
    → IsValid r
    → i < r.total
    → task_at (put r i t) j ≡ (if i == j then t else task_at r j)
task_at-put r i j t v l = get_or-set r.tasks i j t empty_task (omega (arith, v.slots, v.bounded))

pub put-IsValid :
    (r : Registry) (i : ℕ) (t : Task) → IsValid r → i < r.total → t.id ≡ i + 1 → IsValid (put r i t)
put-IsValid r i t v l e = record {
  slots = length-set r.tasks i t ∙ v.slots;
  bounded = v.bounded;
  next = v.next;
  numbered = λ j m. ground (arith, task_at-put r i j t v l, v.numbered j m);
}

find_from-hit :
    (r : Registry) (left i task_id : ℕ)
    → IsValid r
    → i + left ≡ r.total
    → find_from r left i task_id
      ≡ (if ltb i task_id && leb task_id r.total then some (task_id - 1) else none)
unfolding find_from
find_from-hit r zero i task_id v e = ground arith
find_from-hit r (suc left) i task_id v e =
    ground (arith, v.numbered i (omega arith), find_from-hit r left (i + 1) task_id v (omega arith))

-- In a valid registry the ids in use are 1 to the number of tasks, and the task with the id `n` is
-- found at the index `n - 1`.
pub index_by_id_lem :
    (r : Registry) (task_id : ℕ)
    → IsValid r
    → index_by_id r task_id
      ≡ (if ltb 0 task_id && leb task_id r.total then some (task_id - 1) else none)
unfolding index_by_id
index_by_id_lem r task_id v = find_from-hit r r.total 0 task_id v (omega arith)

-- The task at an index is found by its own id.
pub index_by_id-task_at :
    (r : Registry) (i : ℕ) → IsValid r → i < r.total → index_by_id r (task_at r i).id ≡ some i
index_by_id-task_at r i v l =
    ap (index_by_id r) (v.numbered i l) ∙ index_by_id_lem r (i + 1) v ∙ ground arith

module _ (name : String) (entry argument stack_pointer : ℕ) (s : State) (r : Registry) where
  abbrev pub entered : Task
  entered = record {
    id = r.next_id;
    name = some name;
    state = s;
    entry = entry;
    argument = argument;
    stack_pointer = stack_pointer;
    yield_count = 0;
  }

  abbrev pub call : Option ℕ × Registry
  call = register (some name) entry argument stack_pointer s r

  abbrev grown : Registry
  grown = record {
    tasks = set r.tasks r.total entered;
    total = add32 r.total 1;
    next_id = add32 r.next_id 1;
  }

  register-full : r.total ≡ task_max → call ≡ (none, r)
  unfolding register
  register-full e = ground arith

  register-room : r.total < task_max → call ≡ (some r.next_id, grown)
  unfolding register
  register-room l = ground arith

  task_at-grown :
      (j : ℕ)
      → IsValid r
      → r.total < task_max
      → task_at grown j ≡ (if r.total == j then entered else task_at r j)
  task_at-grown j v l = get_or-set r.tasks r.total j entered empty_task (omega (arith, v.slots))

  grown-IsValid : IsValid r → r.total < task_max → IsValid grown
  grown-IsValid v l = record {
    slots = length-set r.tasks r.total entered ∙ v.slots;
    bounded = omega arith;
    next = omega (arith, v.next);
    numbered = λ j m. ground (arith, task_at-grown j v l, v.numbered j, v.next);
  }

  pub register-IsValid : IsValid r → IsValid call.1
  register-IsValid v = elim (dec_lt r.total task_max) [
    | yes l ↦
        subst⁻¹ (λ (c : Option ℕ × Registry). IsValid c.1) (register-room l) (grown-IsValid v l)
    | no n ↦
        let b = v.bounded in
        subst⁻¹ (λ (c : Option ℕ × Registry). IsValid c.1) (register-full (omega arith)) v
  ]

  -- What a registration into a registry with room leaves.
  pub record Registered (c : Option ℕ × Registry) : Type 0 where
    pub id : c.0 ≡ some (r.total + 1)
    pub found : get_by_id c.1 (r.total + 1) ≡ some entered
    pub others : (n : ℕ) → n ≤ r.total → get_by_id c.1 n ≡ get_by_id r n
    pub valid : IsValid c.1

  grown-Registered : IsValid r → r.total < task_max → Registered (some r.next_id, grown)
  unfolding get_by_id
  grown-Registered v l =
      let w = grown-IsValid v l in
      record {
        id = ap some v.next;
        found = ground (arith, index_by_id_lem grown (r.total + 1) w, task_at-grown r.total v l);
        others = λ n m.
            ground
              (arith, index_by_id_lem grown n w, index_by_id_lem r n v, task_at-grown (n - 1) v l);
        valid = w;
      }

  -- A registration with a name, into a valid registry with a slot left, returns the next id; the task
  -- is then found under it with all that was passed in and no yields, every task from before is found
  -- as it was, and the registry stays valid.
  pub register_lem : IsValid r → r.total < task_max → Registered call
  register_lem v l = subst⁻¹ Registered (register-room l) (grown-Registered v l)

-- The index that a lookup finds is one of a task with that id.
index_by_id-some :
    (n : ℕ) {i : ℕ} (r : Registry)
    → IsValid r
    → index_by_id r n ≡ some i
    → (i < r.total) × ((task_at r i).id ≡ n) × (n ≡ i + 1)
index_by_id-some n {i} r v e = let (l, m) = here in (l, omega (arith, v.numbered i l), m)
  where
    here : (i < r.total) × (n ≡ i + 1)
    here = ground (arith, index_by_id_lem r n v)

module _ (n : ℕ) (s : State) (r : Registry) where
  abbrev stated : ℕ → Registry
  stated i = put r i (record (task_at r i) { state = s })

  set_state-found : {i : ℕ} → index_by_id r n ≡ some i → set_state n s r ≡ (true, stated i)
  unfolding set_state
  set_state-found e = rw (e, set_state)

  set_state-missing : index_by_id r n ≡ none → set_state n s r ≡ (false, r)
  unfolding set_state
  set_state-missing e = rw (e, set_state)

  pub set_state-IsValid : IsValid r → IsValid (set_state n s r).1
  set_state-IsValid v = elim (Option-cases (index_by_id r n)) [
    | inl e ↦ subst⁻¹ (λ (c : Bool × Registry). IsValid c.1) (set_state-missing e) v
    | inr (i, e) ↦
        let (l, d, m) = index_by_id-some n r v e in
        subst⁻¹ (λ (c : Bool × Registry). IsValid c.1) (set_state-found e)
          (put-IsValid r i (record (task_at r i) { state = s }) v l (v.numbered i l))
  ]

  -- In a valid registry `hnm_task_set_state` changes the state of the task with the id, if there is
  -- one, and nothing else that a lookup by id shows; it returns whether there is one.
  pub set_state_lem :
      (k : ℕ)
      → IsValid r
      → (get_by_id (set_state n s r).1 k ≡ (
          if n == k
          then Option.map (λ (t : Task). record t { state = s }) (get_by_id r k)
          else get_by_id r k))
        × ((set_state n s r).0 ≡ (ltb 0 n && leb n r.total))
        × IsValid (set_state n s r).1
  unfolding get_by_id
  set_state_lem k v = elim (Option-cases (index_by_id r n)) [
    | inl e ↦ (
      ground (arith, set_state-missing e),
      ground (arith, set_state-missing e, index_by_id_lem r n v),
      set_state-IsValid v,
    )
    | inr (i, e) ↦
        let (l, d, m) = index_by_id-some n r v e in
        let w = put-IsValid r i (record (task_at r i) { state = s }) v l (v.numbered i l) in
        (
          ground (
            arith,
            set_state-found e,
            index_by_id_lem (stated i) k w,
            index_by_id_lem r k v,
            task_at-put r i (k - 1) (record (task_at r i) { state = s }) v l,
          ),
          ground (arith, set_state-found e, index_by_id_lem r n v),
          set_state-IsValid v,
        )
  ]

-- By the task's own id the two functions write the task at its index.
pub set_state-task_at :
    (i : ℕ) (s : State) (r : Registry)
    → IsValid r
    → i < r.total
    → set_state (task_at r i).id s r ≡ (true, put r i (record (task_at r i) { state = s }))
set_state-task_at i s r v l = set_state-found (task_at r i).id s r (index_by_id-task_at r i v l)

pub increment_yield_count-task_at :
    (i : ℕ) (r : Registry)
    → IsValid r
    → i < r.total
    → increment_yield_count (task_at r i).id r
      ≡ (true, put r i (record (task_at r i) { yield_count = add32 (task_at r i).yield_count 1 }))
unfolding increment_yield_count
increment_yield_count-task_at i r v l =
    let e = index_by_id-task_at r i v l in rw (e, increment_yield_count)
