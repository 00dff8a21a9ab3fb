-- ===== src/Task/Children.antt =====
-- The children of a task of src/task.c: `wait_match`, `has_any_child`, `find_dead_child` and the rounds of
-- `task_wait_child_ex`.
use computer_os.Prelude.{
  ℕ, ◌^◌, Bool, true, false, ◌&&◌, ◌||◌, not, Option, none, some, List, [], ◌∷◌, leb, ◌==◌,
  if◌then◌else◌,
}
use computer_os.Task.{Task, Sched, is_dead, write, yield, task_blocked}

-- `pid <= 0`, or the id.
unfoldable pub wait_match : Task → ℕ → Bool
wait_match t pid = (pid == 0) || leb (2 ^ 31) pid || (t.id == pid)

-- The children that the two loops of `has_any_child` accept.
abbrev pub living_child : ℕ → Sched → ℕ → Bool
living_child pid s a =
    ((s.tasks a).parent == s.current)
    && not (a == s.current)
    && wait_match (s.tasks a) pid
    && not (is_dead (s.tasks a).state)

abbrev pub unreaped_child : ℕ → Sched → ℕ → Bool
unreaped_child pid s z =
    ((s.tasks z).parent == s.current)
    && not (s.tasks z).reaped_by_parent
    && wait_match (s.tasks z) pid

abbrev pub dead_child : ℕ → Sched → ℕ → Bool
dead_child pid s z =
    ((s.tasks z).parent == s.current)
    && (s.tasks z).has_exited
    && not (s.tasks z).reaped_by_parent
    && wait_match (s.tasks z) pid

-- The first element that passes a test.
unfoldable pub find : (ℕ → Bool) → List ℕ → Option ℕ
find test [] = none
find test (a ∷ r) = if test a then some a else find test r

abbrev pub found : Option ℕ → Bool
found none = false
found (some a) = true

unfoldable pub has_any_child : ℕ → Sched → Bool
has_any_child pid s =
    found (find (living_child pid s) s.ready) || found (find (unreaped_child pid s) s.zombie)

unfoldable pub find_dead_child : ℕ → Sched → Option ℕ
find_dead_child pid s = find (dead_child pid s) s.zombie

-- What one round of the loop of `task_wait_child_ex` comes to: the id and the exit code of a child,
-- the result -1, the result 0, or the call of `yield` as a blocked task.
pub data Round : Type 0 where
  collected : ℕ → ℕ → Sched → Round
  no_child : Round
  not_yet : Round
  blocks : Sched → Round

-- `z->reaped_by_parent = 1`.
unfoldable pub reap_child : ℕ → Sched → Sched
reap_child z s = record s {
  tasks = write z (record (s.tasks z) { reaped_by_parent = true }) s.tasks;
}

unfoldable pub collect : ℕ → Sched → Round
collect z s = collected (s.tasks z).id (s.tasks z).exit_code (reap_child z s)

unfoldable pub block : Sched → Sched
block s = record s {
  tasks =
      write s.current (record (s.tasks s.current) { wait_any = true; state = task_blocked })
        s.tasks;
}

unfoldable pub wait_round : ℕ → Bool → Sched → Round
wait_round pid nohang s = elim (find_dead_child pid s) [
  | some z ↦ collect z s
  | none ↦
      if not (has_any_child pid s)
      then no_child
      else if nohang
      then not_yet
      else blocks (yield (block s))
]

-- `current->wait_any = 0`, when the task goes on behind `yield`.
unfoldable pub resume : Sched → Sched
resume s = record s {
  tasks = write s.current (record (s.tasks s.current) { wait_any = false }) s.tasks;
}
