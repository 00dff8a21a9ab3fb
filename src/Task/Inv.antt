-- ===== src/Task/Inv.antt =====
-- The invariant of the scheduler of src/task.c, and that each operation keeps it.
use computer_os.Prelude.{
  ℕ, ◌≡◌, sym, Bool, true, false, ◌&&◌, ◌||◌, not, Option, some, ◌∷◌, ◌==◌, arith, has, NoDup,
  Bool-cases, Option-cases, inl, inr, some_inj, has-erase_self, erase-NoDup, has-erase,
}
use computer_os.Task.{
  Task, task_running, Sched, is_running, is_dead, set_state, is_empty, ready_remove, rotation,
  first_runnable, pick_next, reap_zombies, switch_to, reschedule, yield, scheduler_tick, spawn,
  wake, exited, task_exit_code,
}
use computer_os.Task.Children.{reap_child, block, resume}
use computer_os.Task.Ring.{
  has-rotation, first_runnable-some, has-ready_insert, ready_insert-NoDup, has-unreaped,
  unreaped-NoDup,
}

-- What holds of a task in the circle.
abbrev pub Alive : Task → Type 0
Alive t = (is_dead t.state ≡ false) × (t.has_exited ≡ false)

-- What holds of a task on the zombie list: it is dead, and if it has no parent it may be reaped.
abbrev pub Gone : Task → Type 0
Gone t =
    (is_dead t.state ≡ true)
    × (t.has_exited ≡ true)
    × (((t.parent == 0) && not t.reaped_by_parent) ≡ false)

pub record IsValid (s : Sched) : Type 0 where
  pub distinct : NoDup s.ready
  pub here : has s.current s.ready ≡ true
  pub nonnull : has 0 s.ready ≡ false
  pub alive : (a : ℕ) → has a s.ready ≡ true → Alive (s.tasks a)
  -- No task but the current one has the state RUNNING.
  pub only : (a : ℕ) → has a s.ready ≡ true → is_running (s.tasks a).state ≡ true → a ≡ s.current
  pub distinct_zombies : NoDup s.zombie
  pub gone : (z : ℕ) → has z s.zombie ≡ true → Gone (s.tasks z)

-- No task is on both lists.
pub apart : {s : Sched} → IsValid s → (a : ℕ) → has a s.ready ≡ true → has a s.zombie ≡ false
apart {s} v a h = elim (Bool-cases (has a s.zombie)) [
  | inl both ↦ absurd (ground (arith, v.alive a h, (v.gone a both).0))
  | inr not_there ↦ not_there
]

pub reap_zombies-IsValid : {s : Sched} → IsValid s → IsValid (reap_zombies s)
unfolding reap_zombies
reap_zombies-IsValid {s} v = record {
  distinct = v.distinct;
  here = v.here;
  nonnull = v.nonnull;
  alive = v.alive;
  only = v.only;
  distinct_zombies = unreaped-NoDup s.tasks s.zombie v.distinct_zombies;
  gone = λ z h. v.gone z (ground (arith, has-unreaped s.tasks z s.zombie));
}

pub switch_to-IsValid :
    {s : Sched} (next : ℕ) → IsValid s → has next s.ready ≡ true → IsValid (switch_to next s)
unfolding switch_to
switch_to-IsValid {s} next v inside = record {
  distinct = v.distinct;
  here = inside;
  nonnull = v.nonnull;
  alive = λ a h. ground (arith, v.alive a h);
  only = λ a h r. ground (arith, v.only a h);
  distinct_zombies = v.distinct_zombies;
  gone = λ z h. ground (arith, v.gone z h, apart v next inside, apart v s.current v.here);
}

pub reschedule-IsValid : {s : Sched} → IsValid s → IsValid (reschedule s)
unfolding reschedule pick_next
reschedule-IsValid {s} v = elim (Bool-cases ((s.current == 0) || is_empty s.ready)) [
  | inl idle ↦ rw idle v
  | inr busy ↦ rw busy (elim (Bool-cases (pick_next s.current s == s.current)) [
    | inl alone ↦ rw alone v
    | inr other ↦ rw other (switch_to-IsValid (pick_next s.current s) v (picked other))
  ])
]
  where
    picked :
        (pick_next s.current s == s.current) ≡ false → has (pick_next s.current s) s.ready ≡ true
    picked other = elim (Option-cases (first_runnable s.tasks (rotation s.current s.ready))) [
      | inl nobody ↦ absurd (ground arith)
      | inr (a, e) ↦ rw e (
          ground (
            arith,
            first_runnable-some s.tasks (rotation s.current s.ready) a e,
            has-rotation a s.current s.ready v.distinct,
          ))
    ]

pub yield-IsValid : {s : Sched} → IsValid s → IsValid (yield s)
unfolding yield
yield-IsValid v = reschedule-IsValid (reap_zombies-IsValid v)

pub scheduler_tick-IsValid : {s : Sched} → IsValid s → IsValid (scheduler_tick s)
unfolding scheduler_tick
scheduler_tick-IsValid {s} v = elim (Bool-cases (not s.preempt_enabled)) [
  | inl off ↦ rw off v
  | inr on ↦ rw on (reschedule-IsValid v)
]

-- `kmalloc` returns an address at which no task stands.
pub spawn-IsValid :
    {s : Sched} (user : Bool) (t base : ℕ)
    → IsValid s
    → has t s.ready ≡ false
    → has t s.zombie ≡ false
    → IsValid (spawn user t base s).1
unfolding spawn
spawn-IsValid {s} user t base v new new' = elim (Bool-cases ((t == 0) || (base == 0))) [
  | inl refused ↦ rw refused v
  | inr given ↦ rw given (record {
    distinct = ready_insert-NoDup t s.ready new v.distinct;
    here = ground (arith, has-ready_insert s.current t s.ready, v.here);
    nonnull = ground (arith, has-ready_insert 0 t s.ready, v.nonnull);
    alive = λ a h. ground (arith, has-ready_insert a t s.ready, v.alive a);
    only = λ a h r. ground (arith, has-ready_insert a t s.ready, v.only a);
    distinct_zombies = v.distinct_zombies;
    gone = λ z h. ground (arith, v.gone z h);
  })
]

-- What an exit does to the states of the other tasks.
abbrev Woken : Task → Task → Type 0
Woken old new =
    (is_dead new.state ≡ is_dead old.state)
    × ((is_running new.state && not (is_running old.state)) ≡ false)
    × (new.has_exited ≡ old.has_exited)
    × (new.parent ≡ old.parent)
    × (new.reaped_by_parent ≡ old.reaped_by_parent)

exited-Woken :
    (a code b : ℕ) (tasks : ℕ → Task) → (a == b) ≡ false → Woken (tasks b) (exited a code tasks b)
unfolding exited wake
exited-Woken a code b tasks other = ground arith

exited-Gone : (a code : ℕ) (tasks : ℕ → Task) → Gone (exited a code tasks a)
unfolding exited wake
exited-Gone a code tasks = ground arith

-- The state behind an exit after which `next` runs.
abbrev pub after_exit : ℕ → ℕ → Sched → Sched
after_exit code next s = record s {
  tasks = set_state next task_running (exited s.current code s.tasks);
  ready = ready_remove s.current s.ready;
  zombie = s.current ∷ s.zombie;
  current = next;
}

abbrev pub next_after_exit : ℕ → Sched → Option ℕ
next_after_exit code s =
    first_runnable (exited s.current code s.tasks) (ready_remove s.current s.ready)

pub task_exit_code-some :
    (code : ℕ) (s t : Sched)
    → task_exit_code code s ≡ some t
    → (next : ℕ) × (next_after_exit code s ≡ some next) × (t ≡ after_exit code next s)
unfolding task_exit_code
task_exit_code-some code s t e = elim (Option-cases (next_after_exit code s)) [
  | inl halts ↦ absurd (ground arith)
  | inr (next, f) ↦ (next, f, sym (some_inj (rw (f, task_exit_code) at e)))
]

-- The circle that the exiting task leaves.
left_over :
    {s : Sched} (a : ℕ)
    → IsValid s
    → has a (ready_remove s.current s.ready) ≡ true
    → (has a s.ready ≡ true) × ((s.current == a) ≡ false)
unfolding ready_remove
left_over {s} a v h =
    (has-erase s.current a s.ready h, ground (arith, has-erase_self s.current s.ready v.distinct))

after_exit-IsValid :
    {s : Sched} (code next : ℕ)
    → IsValid s
    → has next (ready_remove s.current s.ready) ≡ true
    → IsValid (after_exit code next s)
unfolding ready_remove
after_exit-IsValid {s} code next v inside = record {
  distinct = erase-NoDup s.current s.ready v.distinct;
  here = inside;
  nonnull = ground (arith, has-erase s.current 0 s.ready, v.nonnull);
  alive = λ a h.
      let l = left_over a v h in
      ground (arith, v.alive a l.0, exited-Woken s.current code a s.tasks l.1);
  only = λ a h r.
      let l = left_over a v h in
      ground (arith, v.only a l.0, exited-Woken s.current code a s.tasks l.1);
  distinct_zombies = (apart v s.current v.here, v.distinct_zombies);
  gone = λ z h. elim (Bool-cases (s.current == z)) [
    | inl me ↦ ground (arith, exited-Gone s.current code s.tasks, left_over next v inside)
    | inr other ↦ ground (
      arith,
      v.gone z (ground arith),
      exited-Woken s.current code z s.tasks other,
      apart v next (left_over next v inside).0,
      left_over next v inside,
    )
  ];
}

pub task_exit_code-IsValid :
    {s t : Sched} (code : ℕ) → IsValid s → task_exit_code code s ≡ some t → IsValid t
task_exit_code-IsValid {s} {t} code v e =
    let (next, found_next, same) = task_exit_code-some code s t e in
    rw same (
      after_exit-IsValid code next v
        (first_runnable-some (exited s.current code s.tasks) (ready_remove s.current s.ready) next
          found_next).0)

pub reap_child-IsValid : {s : Sched} (z : ℕ) → IsValid s → IsValid (reap_child z s)
unfolding reap_child
reap_child-IsValid {s} z v = record {
  distinct = v.distinct;
  here = v.here;
  nonnull = v.nonnull;
  alive = λ a h. ground (arith, v.alive a h);
  only = λ a h r. ground (arith, v.only a h);
  distinct_zombies = v.distinct_zombies;
  gone = λ a h. ground (arith, v.gone a h);
}

pub block-IsValid : {s : Sched} → IsValid s → IsValid (block s)
unfolding block
block-IsValid {s} v = record {
  distinct = v.distinct;
  here = v.here;
  nonnull = v.nonnull;
  alive = λ a h. ground (arith, v.alive a h);
  only = λ a h r. ground (arith, v.only a h);
  distinct_zombies = v.distinct_zombies;
  gone = λ z h. ground (arith, v.gone z h, apart v s.current v.here);
}

pub resume-IsValid : {s : Sched} → IsValid s → IsValid (resume s)
unfolding resume
resume-IsValid {s} v = record {
  distinct = v.distinct;
  here = v.here;
  nonnull = v.nonnull;
  alive = λ a h. ground (arith, v.alive a h);
  only = λ a h r. ground (arith, v.only a h);
  distinct_zombies = v.distinct_zombies;
  gone = λ z h. ground (arith, v.gone z h);
}
