-- ===== src/Task/Counting.antt =====
-- `task_count_states` of src/task.c in a valid state.
use computer_os.Prelude.{ℕ, ◌+◌, ◌≡◌, true, false, List, [], ◌∷◌, arith, has, length}
use computer_os.Task.{
  TaskState, task_ready, task_running, task_blocked, task_dead, Task, Sched, is_dead,
}
use computer_os.Task.Queries.{Counts, count_one, count_from, task_count_states}
use computer_os.Task.Inv.{IsValid}

-- Each task that is not dead is counted once as what it is.
counted :
    (tasks : ℕ → Task) (ring : List ℕ) (c : Counts)
    → ((a : ℕ) → has a ring ≡ true → is_dead (tasks a).state ≡ false)
    → let r = count_from tasks ring c in
      (r.total ≡ c.total + length ring)
      × (r.running + r.ready + r.blocked + c.total ≡ c.running + c.ready + c.blocked + r.total)
unfolding count_from count_one
counted tasks [] c alive = omega arith
counted tasks (a ∷ r) c alive =
    let rest = counted tasks r (count_one (tasks a).state c) (λ b h. alive b (ground arith)) in
    let one = one_more (tasks a).state (alive a (ground arith)) in omega (arith, rest, one)
  where
    one_more :
        (st : TaskState)
        → is_dead st ≡ false
        → ((count_one st c).total ≡ c.total + 1)
          × ((count_one st c).running + (count_one st c).ready + (count_one st c).blocked
              ≡ c.running + c.ready + c.blocked + 1)
    one_more task_ready h = omega arith
    one_more task_running h = omega arith
    one_more task_blocked h = omega arith
    one_more task_dead h = cc

-- In a valid state `task_count_states` counts every task of the circle, and each as either running,
-- ready or blocked.
pub task_count_states-length :
    {s : Sched}
    → IsValid s
    → let c = task_count_states s in
      (c.total ≡ length s.ready) × (c.running + c.ready + c.blocked ≡ c.total)
unfolding task_count_states
task_count_states-length {s} v = omega (
  arith,
  counted s.tasks s.ready (record { total = 0; running = 0; ready = 0; blocked = 0 })
      (λ a h. (v.alive a h).0),
)
