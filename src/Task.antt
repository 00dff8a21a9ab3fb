-- ===== src/Task.antt =====
-- The scheduler of src/task.c. A task is known by its address, 0 is the null pointer, and `tasks` is
-- the memory behind the addresses. The circular list `ready` is listed from its entry on; `zombie`
-- is the list of exited tasks. The type `int` is a word of 32 bits. Stacks, register frames, page
-- tables and open files of a task are left out, as is what reaping gives back to the heap.
pub mod Children
pub mod Queries
pub mod Ring
pub mod Inv
pub mod Wait
pub mod Exit
pub mod Runs
pub mod Turns
pub mod Counting
mod Tests
use computer_os.Prelude.{
  ℕ, zero, suc, ◌+◌, ◌-◌, ◌^◌, Bool, true, false, ◌&&◌, ◌||◌, not, Option, none, some, List, [],
  ◌∷◌, ◌++◌, ltb, leb, ◌==◌, if◌then◌else◌, u32, erase,
}

pub data TaskState : Type 0 where
  task_ready : TaskState
  task_running : TaskState
  task_blocked : TaskState
  task_dead : TaskState

pub record Task : Type 0 where
  pub id : ℕ
  pub state : TaskState
  pub is_user : Bool
  pub parent : ℕ
  pub exit_code : ℕ
  pub has_exited : Bool
  pub wait_any : Bool
  pub reaped_by_parent : Bool

pub record Sched : Type 0 where
  pub tasks : ℕ → Task
  pub current : ℕ
  pub ready : List ℕ
  pub next_id : ℕ
  pub preempt_enabled : Bool
  pub zombie : List ℕ

abbrev pub is_running : TaskState → Bool
is_running task_ready = false
is_running task_running = true
is_running task_blocked = false
is_running task_dead = false

abbrev pub is_blocked : TaskState → Bool
is_blocked task_ready = false
is_blocked task_running = false
is_blocked task_blocked = true
is_blocked task_dead = false

abbrev pub is_dead : TaskState → Bool
is_dead task_ready = false
is_dead task_running = false
is_dead task_blocked = false
is_dead task_dead = true

-- `TASK_READY` or `TASK_RUNNING`, that is, neither `TASK_DEAD` nor `TASK_BLOCKED`.
abbrev pub runnable : TaskState → Bool
runnable st = not (is_dead st || is_blocked st)

-- The memory after a write to the task at `a`.
abbrev pub write : ℕ → Task → (ℕ → Task) → ℕ → Task
write a t tasks b = if a == b then t else tasks b

abbrev pub set_state : ℕ → TaskState → (ℕ → Task) → ℕ → Task
set_state a st tasks = write a (record (tasks a) { state = st }) tasks

abbrev pub is_empty : List ℕ → Bool
is_empty [] = true
is_empty (a ∷ r) = false

-- Behind the entry of the circle.
pub ready_insert : ℕ → List ℕ → List ℕ
ready_insert t [] = t ∷ []
ready_insert t (r ∷ rs) = r ∷ t ∷ rs

-- The entry moves on to the next task if it is the one that leaves.
pub ready_remove : ℕ → List ℕ → List ℕ
ready_remove t ring = erase t ring

-- The tasks behind `c` up to the end of the list, and those from its start up to `c`.
pub after : ℕ → List ℕ → List ℕ
after c [] = []
after c (x ∷ xs) = if c == x then xs else after c xs

pub before : ℕ → List ℕ → List ℕ
before c [] = []
before c (x ∷ xs) = if c == x then [] else x ∷ before c xs

-- The circle from the task behind `c` on, without `c`.
pub rotation : ℕ → List ℕ → List ℕ
rotation c ring = after c ring ++ before c ring

-- The first task of a list that can run.
pub first_runnable : (ℕ → Task) → List ℕ → Option ℕ
first_runnable tasks [] = none
first_runnable tasks (a ∷ r) = if runnable (tasks a).state then some a else first_runnable tasks r

abbrev pub or_else : ℕ → Option ℕ → ℕ
or_else d none = d
or_else d (some a) = a

pub pick_next : ℕ → Sched → ℕ
pick_next start s = or_else start (first_runnable s.tasks (rotation start s.ready))

-- The zombies that stay.
pub unreaped : (ℕ → Task) → List ℕ → List ℕ
unreaped tasks [] = []
unreaped tasks (z ∷ zs) =
    if (tasks z).reaped_by_parent then unreaped tasks zs else z ∷ unreaped tasks zs

pub reap_zombies : Sched → Sched
reap_zombies s = record s { zombie = unreaped s.tasks s.zombie }

-- The switch from the current task to `next`.
pub switch_to : ℕ → Sched → Sched
switch_to next s =
    let tasks =
      if is_running (s.tasks s.current).state
      then set_state s.current task_ready s.tasks
      else s.tasks in
    record s { tasks = set_state next task_running tasks; current = next }

-- The part that `yield` and `scheduler_tick` share.
pub reschedule : Sched → Sched
reschedule s =
    if (s.current == 0) || is_empty s.ready
    then s
    else if pick_next s.current s == s.current
    then s
    else switch_to (pick_next s.current s) s

pub yield : Sched → Sched
yield s = reschedule (reap_zombies s)

pub scheduler_tick : Sched → Sched
scheduler_tick s = if not s.preempt_enabled then s else reschedule s

-- A task as `memset` and the assignments behind it leave it.
abbrev pub new_task : ℕ → TaskState → Bool → Task
new_task id st user = record {
  id = id;
  state = st;
  is_user = user;
  parent = 0;
  exit_code = 0;
  has_exited = false;
  wait_any = false;
  reaped_by_parent = false;
}

-- `t` is the address that `kmalloc` returns.
pub tasking_init : ℕ → Sched → Sched
tasking_init t s = if t == 0 then s else record s {
  tasks = write t (new_task s.next_id task_running false) s.tasks;
  next_id = u32 (s.next_id + 1);
  ready = ready_insert t s.ready;
  current = t;
}

-- `t` and `base` are what `kmalloc` returns for the task and its stack; -1 is the word of all ones.
pub spawn : Bool → ℕ → ℕ → Sched → ℕ × Sched
spawn user t base s = if (t == 0) || (base == 0) then (2 ^ 32 - 1, s) else (
  s.next_id,
  record s {
    tasks = write t (new_task s.next_id task_ready user) s.tasks;
    next_id = u32 (s.next_id + 1);
    ready = ready_insert t s.ready;
  },
)

pub task_spawn : ℕ → ℕ → Sched → ℕ × Sched
task_spawn t base s = spawn false t base s

pub task_spawn_user : ℕ → ℕ → Sched → ℕ × Sched
task_spawn_user t base s = spawn true t base s

pub task_clone_user : ℕ → ℕ → Sched → ℕ × Sched
task_clone_user t base s = spawn true t base s

-- The parent of an exiting task is woken if it waits.
pub wake : ℕ → (ℕ → Task) → ℕ → Task
wake p tasks =
    if not (p == 0) && is_blocked (tasks p).state && (tasks p).wait_any
    then set_state p task_ready tasks
    else tasks

-- The memory when the task at `a` has exited; a task without a parent is reaped by nobody else.
pub exited : ℕ → ℕ → (ℕ → Task) → ℕ → Task
exited a code tasks =
    let dead =
      write a (record (tasks a) { exit_code = code; has_exited = true; state = task_dead }) tasks in
    let woken = wake (tasks a).parent dead in
    if (tasks a).parent == 0
    then write a (record (woken a) { reaped_by_parent = true }) woken
    else woken

-- `none` is the endless `hlt`, when no task is left that can run.
pub task_exit_code : ℕ → Sched → Option Sched
task_exit_code code s =
    let left = ready_remove s.current s.ready in
    let tasks = exited s.current code s.tasks in
    elim (first_runnable tasks left) [
      | none ↦ none
      | some next ↦ some (record s {
        tasks = set_state next task_running tasks;
        ready = left;
        zombie = s.current ∷ s.zombie;
        current = next;
      })
    ]

pub tasking_enable_preemption : Sched → Sched
tasking_enable_preemption s = record s { preempt_enabled = true }

-- `t->parent = task_current()`, for a task that the loader has spawned.
pub adopt : ℕ → Sched → Sched
adopt a s = record s { tasks = write a (record (s.tasks a) { parent = s.current }) s.tasks }

-- `signal_raise` wakes a blocked task; the signals themselves are left out.
pub signal_raise : ℕ → Sched → Sched
signal_raise a s =
    if (a == 0) || not (is_blocked (s.tasks a).state)
    then s
    else record s { tasks = set_state a task_ready s.tasks }
