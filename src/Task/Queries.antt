-- ===== src/Task/Queries.antt =====
-- What src/task.c tells of its tasks: `task_find_by_id`, `task_enumerate` and `task_count_states`.
use computer_os.Prelude.{ℕ, zero, suc, ◌+◌, Option, List, [], ◌∷◌, ◌==◌, if◌then◌else◌}
use computer_os.Task.{
  TaskState, Task, Sched, is_dead, task_ready, task_running, task_blocked, task_dead,
}
use computer_os.Task.Children.{find}

unfoldable pub task_find_by_id : ℕ → Sched → Option ℕ
task_find_by_id id s = find (λ a. (s.tasks a).id == id) s.ready

-- The ids of the tasks of a list that are not dead, `room` at most.
pub enumerate : (ℕ → Task) → ℕ → List ℕ → List ℕ
enumerate tasks zero ring = []
enumerate tasks (suc room) [] = []
enumerate tasks (suc room) (a ∷ r) =
    if is_dead (tasks a).state
    then enumerate tasks (suc room) r
    else (tasks a).id ∷ enumerate tasks room r

pub task_enumerate : ℕ → Sched → List ℕ
task_enumerate max s = enumerate s.tasks max s.ready

-- How many tasks of the circle there are, and how many of them run, are ready and are blocked.
pub record Counts : Type 0 where
  pub total : ℕ
  pub running : ℕ
  pub ready : ℕ
  pub blocked : ℕ

unfoldable pub count_one : TaskState → Counts → Counts
count_one task_running c = record c { total = c.total + 1; running = c.running + 1 }
count_one task_ready c = record c { total = c.total + 1; ready = c.ready + 1 }
count_one task_blocked c = record c { total = c.total + 1; blocked = c.blocked + 1 }
count_one task_dead c = record c { total = c.total + 1 }

unfoldable pub count_from : (ℕ → Task) → List ℕ → Counts → Counts
count_from tasks [] c = c
count_from tasks (a ∷ r) c = count_from tasks r (count_one (tasks a).state c)

unfoldable pub task_count_states : Sched → Counts
task_count_states s =
    count_from s.tasks s.ready (record { total = 0; running = 0; ready = 0; blocked = 0 })
