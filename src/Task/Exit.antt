-- ===== src/Task/Exit.antt =====
-- `task_exit_code` of src/task.c, and how an exit code reaches the parent that waits for it.
use computer_os.Prelude.{
  ℕ, ◌≡◌, ◌≢◌, refl, ◌∙◌, Bool, true, false, ◌&&◌, Option, none, some, List, ◌∷◌, ◌==◌, arith, has,
  has-erase_self, has-erase,
}
use computer_os.Task.{
  Sched, is_running, is_blocked, is_dead, runnable, ready_remove, wake, exited, task_exit_code,
}
use computer_os.Task.Children.{
  wait_match, dead_child, find, find_dead_child, collected, reap_child, collect, wait_round,
}
use computer_os.Task.Ring.{first_runnable-some}
use computer_os.Task.Inv.{IsValid, after_exit, next_after_exit, task_exit_code-some}

pub record Exited (code : ℕ) (s t : Sched) : Type 0 where
  pub left : has s.current t.ready ≡ false
  pub zombie : t.zombie ≡ s.current ∷ s.zombie
  pub status :
      ((t.tasks s.current).exit_code ≡ code)
      × ((t.tasks s.current).has_exited ≡ true)
      × (is_dead (t.tasks s.current).state ≡ true)
  -- The task that runs now is one that was left in the circle.
  pub next : (has t.current t.ready ≡ true) × (is_running (t.tasks t.current).state ≡ true)
  -- A parent that waits can run again.
  pub woken :
      let p = (s.tasks s.current).parent in
      has p s.ready ≡ true
      → p ≢ s.current
      → (is_blocked (s.tasks p).state && (s.tasks p).wait_any) ≡ true
      → runnable (t.tasks p).state ≡ true
  pub orphan : (s.tasks s.current).parent ≡ 0 → (t.tasks s.current).reaped_by_parent ≡ true
  pub others :
      (a : ℕ)
      → a ≢ s.current
      → a ≢ (s.tasks s.current).parent
      → a ≢ t.current
      → t.tasks a ≡ s.tasks a

pub data Outcome (code : ℕ) (s : Sched) : Option Sched → Type 0 where
  goes_on : {t : Sched} → Exited code s t → Outcome code s (some t)
  -- Each task left is blocked, and none is a parent that waits for this exit.
  halts :
      ((a : ℕ)
        → has a s.ready ≡ true
        → a ≢ s.current
        → (runnable (s.tasks a).state ≡ false)
          × (((a == (s.tasks s.current).parent) && (s.tasks a).wait_any) ≡ false))
      → Outcome code s none

-- A round finds the latest zombie first.
wait-head :
    (t : Sched) (z pid : ℕ) (zs : List ℕ) (nohang : Bool)
    → t.zombie ≡ z ∷ zs
    → dead_child pid t z ≡ true
    → wait_round pid nohang t ≡ collect z t
unfolding wait_round find_dead_child find
wait-head t z pid zs nohang e here = rw (found_it, wait_round) refl
  where
    found_it : find_dead_child pid t ≡ some z
    found_it = rw (find_dead_child, e, find) (rw here refl)

-- The exited task, as the task that runs next sees it.
abbrev Visible : ℕ → Sched → Sched → Type 0
Visible code s t =
    ((t.tasks s.current).id ≡ (s.tasks s.current).id)
    × ((t.tasks s.current).exit_code ≡ code)
    × (dead_child 0 t s.current ≡ true)

exit-Visible :
    {s : Sched} (code next : ℕ)
    → IsValid s
    → next_after_exit code s ≡ some next
    → next ≡ (s.tasks s.current).parent
    → (s.tasks s.current).reaped_by_parent ≡ false
    → Visible code s (after_exit code next s)
unfolding exited wake ready_remove wait_match
exit-Visible {s} code next v e turn fresh =
    let inside =
      first_runnable-some (exited s.current code s.tasks) (ready_remove s.current s.ready) next e in
    ground (
      arith,
      inside.0,
      has-erase_self s.current s.ready v.distinct,
      has-erase s.current 0 s.ready,
      v.nonnull,
    )

-- If the parent runs next when a task that was not yet reaped exits from a valid state, its round
-- of waiting for any child returns the id and the exit code of that task and marks it.
pub exit-wait_round :
    {s t : Sched} (code : ℕ) (nohang : Bool)
    → IsValid s
    → task_exit_code code s ≡ some t
    → t.current ≡ (s.tasks s.current).parent
    → (s.tasks s.current).reaped_by_parent ≡ false
    → wait_round 0 nohang t ≡ collected (s.tasks s.current).id code (reap_child s.current t)
unfolding collect
exit-wait_round {s} {t} code nohang v e turn fresh =
    let (next, chosen, same) = task_exit_code-some code s t e in
    let seen : Visible code s t =
      rw same (exit-Visible code next v chosen (rw same at turn) fresh) in
    wait-head t s.current 0 s.zombie nohang (rw same refl) seen.2 ∙ rw (seen.0, seen.1) refl
