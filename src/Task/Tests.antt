-- ===== src/Task/Tests.antt =====
-- Runs of the scheduler of src/task.c, and the theorems at concrete states.
use computer_os.Prelude.{ℕ, ◌≡◌, ◌≤◌, refl, true, false, some, [], ◌∷◌, arith, has, length}
use computer_os.Task.{
  task_ready, task_running, task_blocked, task_dead, Task, Sched, write, new_task, ready_insert,
  ready_remove, after, before, rotation, first_runnable, pick_next, unreaped, reap_zombies,
  switch_to, reschedule, yield, tasking_init, spawn, wake, exited, task_exit_code,
}
use computer_os.Task.Children.{collected, reap_child, find, wait_round}
use computer_os.Task.Queries.{task_find_by_id}
use computer_os.Task.Inv.{IsValid}
use computer_os.Task.Wait.{Waited, wait_round-Waited}
use computer_os.Task.Exit.{exit-wait_round}
use computer_os.Task.Runs.{cold, spawns, Reach, start, later, Reach-IsValid, task_find_by_id-alive}
use computer_os.Task.Turns.{yields, yields-current}

abbrev memory : ℕ → Task
memory a = new_task 0 task_dead false

-- A parent that waits, its child that runs, and a third task.
abbrev waiting : Task
waiting = record (new_task 0 task_blocked false) { wait_any = true }

abbrev child : Task
child = record (new_task 1 task_running true) { parent = 0x100 }

abbrev third : Task
third = new_task 2 task_ready true

abbrev family : Sched
family = record {
  tasks = write 0x100 waiting (write 0x200 child (write 0x300 third memory));
  current = 0x200;
  ready = 0x100 ∷ 0x200 ∷ 0x300 ∷ [];
  next_id = 3;
  preempt_enabled = true;
  zombie = [];
}

family-IsValid : IsValid family
family-IsValid = record {
  distinct = (refl, (refl, (refl, tt)));
  here = refl;
  nonnull = refl;
  alive = λ a h. ground arith;
  only = λ a h r. ground arith;
  distinct_zombies = tt;
  gone = λ z h. cc;
}

-- The child exits with code 7, and the parent runs next.
abbrev exit_result : Sched
exit_result = record family {
  tasks =
      write 0x100 (record (exited 0x200 7 family.tasks 0x100) { state = task_running })
        (exited 0x200 7 family.tasks);
  current = 0x100;
  ready = 0x100 ∷ 0x300 ∷ [];
  zombie = 0x200 ∷ [];
}

exit_run : task_exit_code 7 family ≡ some exit_result
unfolding task_exit_code ready_remove first_runnable exited wake
exit_run = refl

-- Two more turns come before that of the third task.
turn_run : (yields 1 family).current ≡ 0x300
unfolding yields yield reap_zombies unreaped reschedule pick_next first_runnable rotation after
    before switch_to
turn_run = refl

yields-current_example : (n : ℕ) × (n ≤ length family.ready) × ((yields n family).current ≡ 0x300)
yields-current_example = yields-current 0x300 family-IsValid refl refl

exit-wait_round_example :
    wait_round 0 true exit_result ≡ collected 1 7 (reap_child 0x200 exit_result)
exit-wait_round_example = exit-wait_round 7 true family-IsValid exit_run refl refl

wait_round-Waited_example : Waited 0 false family (wait_round 0 false family)
wait_round-Waited_example = wait_round-Waited 0 false family-IsValid

task_find_by_id-alive_example :
    (has 0x300 family.ready ≡ true)
    × ((family.tasks 0x300).id ≡ 2)
    × ((family.tasks 0x300).has_exited ≡ false)
unfolding task_find_by_id find
task_find_by_id-alive_example = task_find_by_id-alive 2 0x300 family-IsValid refl

abbrev booted : Sched
booted = tasking_init 0x100 (cold memory)

-- A task is spawned, and the first task becomes its parent.
spawned : Reach booted (spawn true 0x200 0x8000 booted).1
unfolding tasking_init ready_insert
spawned = later start (spawns true 0x200 0x8000 refl refl)

Reach-IsValid_example : IsValid (spawn true 0x200 0x8000 booted).1
Reach-IsValid_example = Reach-IsValid 0x100 memory (λ e. omega (arith, e)) spawned
