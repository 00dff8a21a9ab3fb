-- ===== src/Task/Runs.antt =====
-- Runs of the scheduler of src/task.c: the operations in any order.
use computer_os.Prelude.{
  ℕ, ◌≡◌, ◌≢◌, refl, Bool, true, false, ◌||◌, not, some, [], ◌==◌, arith, has, Bool-cases, inl, inr,
}
use computer_os.Task.{
  Task, Sched, ready_insert, yield, scheduler_tick, tasking_enable_preemption, tasking_init, spawn,
  task_exit_code, adopt, signal_raise, is_blocked,
}
use computer_os.Task.Children.{Round, collected, no_child, not_yet, blocks, wait_round, resume}
use computer_os.Task.Queries.{task_find_by_id}
use computer_os.Task.Inv.{
  IsValid, yield-IsValid, scheduler_tick-IsValid, spawn-IsValid, task_exit_code-IsValid,
  resume-IsValid, apart,
}
use computer_os.Task.Ring.{find-some}
use computer_os.Task.Wait.{Waited, report, waits, wait_round-Waited}

-- The static variables at the start, over any memory.
abbrev pub cold : (ℕ → Task) → Sched
cold tasks = record {
  tasks = tasks;
  current = 0;
  ready = [];
  next_id = 0;
  preempt_enabled = false;
  zombie = [];
}

-- `t` and `base` are what `kmalloc` returns: an address at which no task stands.
pub data Step (s : Sched) : Sched → Type 0 where
  spawns :
      (user : Bool) (t base : ℕ)
      → has t s.ready ≡ false
      → has t s.zombie ≡ false
      → Step s (spawn user t base s).1
  -- The loader makes the current task the parent of a living task.
  adopts : (a : ℕ) → has a s.ready ≡ true → Step s (adopt a s)
  signals : (a : ℕ) → has a s.ready ≡ true → Step s (signal_raise a s)
  yields : Step s (yield s)
  ticks : Step s (scheduler_tick s)
  enables : Step s (tasking_enable_preemption s)
  exits : (code : ℕ) (t : Sched) → task_exit_code code s ≡ some t → Step s t
  collects :
      (pid : ℕ) (nohang : Bool) (id code : ℕ) (t : Sched)
      → wait_round pid nohang s ≡ collected id code t
      → Step s t
  sleeps : (pid : ℕ) (nohang : Bool) (t : Sched) → wait_round pid nohang s ≡ blocks t → Step s t
  resumes : Step s (resume s)

pub data Reach (s : Sched) : Sched → Type 0 where
  start : Reach s s
  later : {t u : Sched} → Reach s t → Step t u → Reach s u

tasking_init-IsValid : (t : ℕ) (tasks : ℕ → Task) → t ≢ 0 → IsValid (tasking_init t (cold tasks))
unfolding tasking_init ready_insert
tasking_init-IsValid t tasks nonzero =
    let e : (t == 0) ≡ false = ground arith in
    rw e (record {
      distinct = (refl, tt);
      here = ground arith;
      nonnull = ground arith;
      alive = λ a h. ground arith;
      only = λ a h r. ground arith;
      distinct_zombies = tt;
      gone = λ z h. cc;
    })

adopt-IsValid : {s : Sched} (a : ℕ) → IsValid s → has a s.ready ≡ true → IsValid (adopt a s)
unfolding adopt
adopt-IsValid {s} a v inside = record {
  distinct = v.distinct;
  here = v.here;
  nonnull = v.nonnull;
  alive = λ b h. ground (arith, v.alive b h);
  only = λ b h r. ground (arith, v.only b h);
  distinct_zombies = v.distinct_zombies;
  gone = λ z h. ground (arith, v.gone z h, apart v a inside);
}

signal_raise-IsValid :
    {s : Sched} (a : ℕ) → IsValid s → has a s.ready ≡ true → IsValid (signal_raise a s)
unfolding signal_raise
signal_raise-IsValid {s} a v inside =
    elim (Bool-cases ((a == 0) || not (is_blocked (s.tasks a).state))) [
      | inl awake ↦ rw awake v
      | inr asleep ↦ rw asleep (record {
        distinct = v.distinct;
        here = v.here;
        nonnull = v.nonnull;
        alive = λ b h. ground (arith, v.alive b h);
        only = λ b h r. ground (arith, v.only b h);
        distinct_zombies = v.distinct_zombies;
        gone = λ z h. ground (arith, v.gone z h, apart v a inside);
      })
    ]

-- The state inside the outcome of a round.
abbrev outcome : Sched → Round → Sched
outcome s (collected id code t) = t
outcome s no_child = s
outcome s not_yet = s
outcome s (blocks t) = t

outcome-IsValid :
    {s : Sched} {pid : ℕ} {nohang : Bool} (r : Round)
    → IsValid s
    → Waited pid nohang s r
    → IsValid (outcome s r)
outcome-IsValid (collected id code t) v (report c) = c.valid
outcome-IsValid no_child v w = v
outcome-IsValid not_yet v w = v
outcome-IsValid (blocks t) v (waits h n c valid) = valid

Step-IsValid : {s t : Sched} → IsValid s → Step s t → IsValid t
unfolding tasking_enable_preemption
Step-IsValid v (spawns user t base new new') = spawn-IsValid user t base v new new'
Step-IsValid v (adopts a inside) = adopt-IsValid a v inside
Step-IsValid v (signals a inside) = signal_raise-IsValid a v inside
Step-IsValid v yields = yield-IsValid v
Step-IsValid v ticks = scheduler_tick-IsValid v
Step-IsValid v enables = record {
  distinct = v.distinct;
  here = v.here;
  nonnull = v.nonnull;
  alive = v.alive;
  only = v.only;
  distinct_zombies = v.distinct_zombies;
  gone = v.gone;
}
Step-IsValid v (exits code t e) = task_exit_code-IsValid code v e
Step-IsValid {s} v (collects pid nohang id code t e) =
    outcome-IsValid (collected id code t) v (rw e at (wait_round-Waited pid nohang v))
Step-IsValid {s} v (sleeps pid nohang t e) =
    outcome-IsValid (blocks t) v (rw e at (wait_round-Waited pid nohang v))
Step-IsValid v resumes = resume-IsValid v

-- In every run of spawns at fresh addresses, adoptions, wake-ups, yields, ticks, exits, rounds of
-- waiting and returns from them, in any order, behind a `tasking_init` that got its memory: the
-- circle has no task twice, holds the current task and no null pointer; its tasks are neither dead
-- nor exited, and none but the current one has the state RUNNING; every zombie is dead and exited,
-- stands once on its list, and may be reaped if it has no parent.
pub Reach-IsValid :
    (t : ℕ) (tasks : ℕ → Task)
    → t ≢ 0
    → {s : Sched} → Reach (tasking_init t (cold tasks)) s
    → IsValid s
Reach-IsValid t tasks nonzero start = tasking_init-IsValid t tasks nonzero
Reach-IsValid t tasks nonzero (later run step) =
    Step-IsValid (Reach-IsValid t tasks nonzero run) step

-- In a valid state a task that `task_find_by_id` returns is in the circle, has that id and has not
-- exited.
pub task_find_by_id-alive :
    {s : Sched} (id a : ℕ)
    → IsValid s
    → task_find_by_id id s ≡ some a
    → (has a s.ready ≡ true) × ((s.tasks a).id ≡ id) × ((s.tasks a).has_exited ≡ false)
unfolding task_find_by_id
task_find_by_id-alive {s} id a v e =
    let f = find-some (λ b. (s.tasks b).id == id) s.ready a e in
    (f.0, ground (arith, f.1), (v.alive a f.0).1)
