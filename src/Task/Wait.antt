-- ===== src/Task/Wait.antt =====
-- `task_wait_child_ex` of src/task.c: what one round of its loop returns, and when it blocks.
use computer_os.Prelude.{
  ℕ, ◌≡◌, ◌≢◌, refl, Bool, true, false, ◌&&◌, none, some, ◌==◌, arith, has, Bool-cases,
  Option-cases, inl, inr,
}
use computer_os.Task.{Sched, yield}
use computer_os.Task.Children.{
  Round, collected, no_child, not_yet, blocks, reap_child, collect, block, wait_match, living_child,
  dead_child, has_any_child, find_dead_child, wait_round,
}
use computer_os.Task.Ring.{find-some, find-none}
use computer_os.Task.Inv.{IsValid, reap_child-IsValid, block-IsValid, yield-IsValid}

-- Whether the task at `a` is a child of the current task that `pid` names.
abbrev pub is_child : ℕ → Sched → ℕ → Bool
is_child pid s a = ((s.tasks a).parent == s.current) && wait_match (s.tasks a) pid

-- The exited child at `z` is reported and marked; no other task changes.
pub record Collected (pid : ℕ) (s : Sched) (id code : ℕ) (t : Sched) : Type 0 where
  pub valid : IsValid t
  pub child : ℕ
  pub exited : has child s.zombie ≡ true
  pub ours : is_child pid s child ≡ true
  pub same_id : id ≡ (s.tasks child).id
  pub same_code : code ≡ (s.tasks child).exit_code
  pub first_time : (s.tasks child).reaped_by_parent ≡ false
  pub once : (t.tasks child).reaped_by_parent ≡ true
  pub others : (a : ℕ) → a ≢ child → t.tasks a ≡ s.tasks a
  pub lists : (t.ready ≡ s.ready) × (t.zombie ≡ s.zombie) × (t.current ≡ s.current)

abbrev pub NoneExited : ℕ → Sched → Type 0
NoneExited pid s =
    (z : ℕ) → has z s.zombie ≡ true → is_child pid s z ≡ true → (s.tasks z).reaped_by_parent ≡ true

pub data Waited (pid : ℕ) (nohang : Bool) (s : Sched) : Round → Type 0 where
  report :
      {id code : ℕ} {t : Sched}
      → Collected pid s id code t
      → Waited pid nohang s (collected id code t)
  -- The result -1.
  childless :
      NoneExited pid s
      → ((a : ℕ) → has a s.ready ≡ true → is_child pid s a ≡ true → a ≡ s.current)
      → Waited pid nohang s no_child
  -- The result 0.
  pending :
      nohang ≡ true → NoneExited pid s → has_any_child pid s ≡ true → Waited pid nohang s not_yet
  waits :
      nohang ≡ false
      → NoneExited pid s
      → has_any_child pid s ≡ true
      → IsValid (yield (block s))
      → Waited pid nohang s (blocks (yield (block s)))

reap_child-Collected :
    {s : Sched} (pid z : ℕ)
    → IsValid s
    → find_dead_child pid s ≡ some z
    → Collected pid s (s.tasks z).id (s.tasks z).exit_code (reap_child z s)
unfolding find_dead_child reap_child
reap_child-Collected {s} pid z v e =
    let f = find-some (dead_child pid s) s.zombie z e in
    record {
      valid = reap_child-IsValid z v;
      child = z;
      exited = f.0;
      ours = ground arith;
      same_id = refl;
      same_code = refl;
      first_time = ground arith;
      once = ground arith;
      others = λ a ne. ground arith;
      lists = (refl, refl, refl);
    }

none_exited : {s : Sched} (pid : ℕ) → IsValid s → find_dead_child pid s ≡ none → NoneExited pid s
unfolding find_dead_child
none_exited {s} pid v e z inside ours =
    ground (arith, find-none (dead_child pid s) s.zombie (rw e refl) z inside, v.gone z inside)

none_living :
    {s : Sched} (pid : ℕ)
    → IsValid s
    → has_any_child pid s ≡ false
    → (a : ℕ) → has a s.ready ≡ true
    → is_child pid s a ≡ true
    → a ≡ s.current
unfolding has_any_child
none_living {s} pid v e a inside ours =
    ground (arith, find-none (living_child pid s) s.ready (ground arith) a inside, v.alive a inside)

-- From a valid state a round of `task_wait_child_ex` reports an exited child that `pid` names and
-- that was not reported before, marks it and changes no other task; or returns -1 when no such
-- child is left, in the circle or unreaped; or returns 0 with `nohang` when none has exited; or
-- without it blocks and yields.
pub wait_round-Waited :
    {s : Sched} (pid : ℕ) (nohang : Bool)
    → IsValid s
    → Waited pid nohang s (wait_round pid nohang s)
unfolding wait_round collect
wait_round-Waited {s} pid nohang v = elim (Option-cases (find_dead_child pid s)) [
  | inr (z, e) ↦ rw (e, wait_round) (report (reap_child-Collected pid z v e))
  | inl nobody ↦
      rw (nobody, wait_round)
        (elim (Bool-cases (has_any_child pid s)) [
          | inr alone ↦ rw alone (childless (none_exited pid v nobody) (none_living pid v alone))
          | inl some_left ↦ rw some_left (elim (Bool-cases nohang) [
            | inl now ↦ rw now (pending refl (none_exited pid v nobody) some_left)
            | inr wait ↦
                rw wait (
                  waits refl (none_exited pid v nobody) some_left (yield-IsValid (block-IsValid v)))
          ])
        ])
]
