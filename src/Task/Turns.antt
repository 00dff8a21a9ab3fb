-- ===== src/Task/Turns.antt =====
-- The round robin of src/task.c: how long a task that can run waits for its turn.
use computer_os.Prelude.{
  ℕ, zero, suc, ◌+◌, ◌<◌, ◌≤◌, ◌≡◌, ◌≢◌, ◌⊎◌, refl, sym, ap, ◌∙◌, subst, true, false, ◌||◌, Option,
  none, some, List, [], ◌∷◌, ◌++◌, ◌==◌, if◌then◌else◌, arith, has, NoDup, length, Bool-cases,
  Option-cases, inl, inr,
}
use computer_os.Task.{
  Task, Sched, runnable, is_empty, after, before, rotation, first_runnable, pick_next, reap_zombies,
  switch_to, reschedule, yield,
}
use computer_os.Task.Ring.{has-concat, has-rotation, first_runnable-some, first_runnable-none}
use computer_os.Task.Inv.{IsValid, yield-IsValid}

-- How many tasks of a list stand before `t`.
pub ahead : ℕ → List ℕ → ℕ
ahead t [] = 0
ahead t (x ∷ xs) = if t == x then 0 else ahead t xs + 1

ahead-concat : (t : ℕ) (xs ys : List ℕ) → has t xs ≡ true → ahead t (xs ++ ys) ≡ ahead t xs
unfolding ahead
ahead-concat t [] ys h = cc
ahead-concat t (x ∷ xs) ys h = ground (arith, ahead-concat t xs ys)

concat_assoc : (xs ys zs : List ℕ) → (xs ++ ys) ++ zs ≡ xs ++ (ys ++ zs)
concat_assoc [] ys zs = refl
concat_assoc (x ∷ xs) ys zs = ap (λ (r : List ℕ). x ∷ r) (concat_assoc xs ys zs)

after-concat_in : (n : ℕ) (xs ys : List ℕ) → has n xs ≡ true → after n (xs ++ ys) ≡ after n xs ++ ys
unfolding after
after-concat_in n [] ys h = cc
after-concat_in n (x ∷ xs) ys h = ground (arith, after-concat_in n xs ys)

after-concat_out : (n : ℕ) (xs ys : List ℕ) → has n xs ≡ false → after n (xs ++ ys) ≡ after n ys
unfolding after
after-concat_out n [] ys h = refl
after-concat_out n (x ∷ xs) ys h = ground (arith, after-concat_out n xs ys)

before-concat_in : (n : ℕ) (xs ys : List ℕ) → has n xs ≡ true → before n (xs ++ ys) ≡ before n xs
unfolding before
before-concat_in n [] ys h = cc
before-concat_in n (x ∷ xs) ys h = ground (arith, before-concat_in n xs ys)

before-concat_out :
    (n : ℕ) (xs ys : List ℕ) → has n xs ≡ false → before n (xs ++ ys) ≡ xs ++ before n ys
unfolding before
before-concat_out n [] ys h = refl
before-concat_out n (x ∷ xs) ys h = ground (arith, before-concat_out n xs ys)

-- A list is cut at a task that it has.
cut : (c : ℕ) (ring : List ℕ) → has c ring ≡ true → ring ≡ before c ring ++ (c ∷ after c ring)
unfolding before after
cut c [] h = cc
cut c (x ∷ xs) h = ground (arith, cut c xs)

has-after : (n c : ℕ) (ring : List ℕ) → has n ring ≡ false → has n (after c ring) ≡ false
unfolding after
has-after n c [] h = refl
has-after n c (x ∷ xs) h = ground (arith, has-after n c xs)

before-after_apart :
    (n c : ℕ) (ring : List ℕ)
    → NoDup ring
    → has n (before c ring) ≡ true
    → has n (after c ring) ≡ false
unfolding before after
before-after_apart n c [] d h = refl
before-after_apart n c (x ∷ xs) d h =
    ground (arith, before-after_apart n c xs d.1, has-after n c xs, d.0)

-- A task that stands behind `n` waits for those before `n`, for `n`, and for those between.
ahead-after :
    (t n : ℕ) (xs : List ℕ)
    → has n xs ≡ true
    → has t (before n xs) ≡ false
    → t ≢ n
    → ahead t xs ≡ length (before n xs) + 1 + ahead t (after n xs)
unfolding ahead before after
ahead-after t n [] h b ne = cc
ahead-after t n (x ∷ xs) h b ne = ground (arith, ahead-after t n xs)

-- All that stands before the first task that can run cannot run.
before-first_runnable :
    (tasks : ℕ → Task) (xs : List ℕ) (n t : ℕ)
    → first_runnable tasks xs ≡ some n
    → runnable (tasks t).state ≡ true
    → has t (before n xs) ≡ false
unfolding first_runnable before
before-first_runnable tasks [] n t e r = refl
before-first_runnable tasks (x ∷ xs) n t e r = elim (Bool-cases (t == x)) [
  | inl same ↦ ground arith
  | inr other ↦ ground (arith, before-first_runnable tasks xs n t)
]

after-skip : (n c : ℕ) (xs : List ℕ) → (n == c) ≡ false → after n (c ∷ xs) ≡ after n xs
unfolding after
after-skip n c xs other = rw other refl

before-skip : (n c : ℕ) (xs : List ℕ) → (n == c) ≡ false → before n (c ∷ xs) ≡ c ∷ before n xs
unfolding before
before-skip n c xs other = rw other refl

-- The rotation at `n` starts with what stands behind `n` in the rotation at `c`.
rotation-rotation :
    (n c : ℕ) (ring : List ℕ)
    → NoDup ring
    → has c ring ≡ true
    → has n (rotation c ring) ≡ true
    → (tail : List ℕ) × (rotation n ring ≡ after n (rotation c ring) ++ tail)
unfolding rotation
rotation-rotation n c ring d here inside = elim (Bool-cases (has n (before c ring))) [
  | inl early ↦ (
    (c ∷ after c ring) ++ before n (before c ring),
    rw
        (
          ap (after n) whole ∙ after-concat_in n (before c ring) (c ∷ after c ring) early,
          ap (before n) whole ∙ before-concat_in n (before c ring) (c ∷ after c ring) early,
          after-concat_out n (after c ring) (before c ring) (before-after_apart n c ring d early),
        )
        (concat_assoc (after n (before c ring)) (c ∷ after c ring) (before n (before c ring))),
  )
  | inr late ↦ (
    c ∷ before n (after c ring),
    rw
        (
          ap (after n) whole
              ∙ after-concat_out n (before c ring) (c ∷ after c ring) late
              ∙ after-skip n c (after c ring) other,
          ap (before n) whole
              ∙ before-concat_out n (before c ring) (c ∷ after c ring) late
              ∙ ap (λ r. before c ring ++ r) (before-skip n c (after c ring) other),
          after-concat_in n (after c ring) (before c ring)
              (ground (arith, late, has-concat n (after c ring) (before c ring))),
        )
        (sym (concat_assoc (after n (after c ring)) (before c ring) (c ∷ before n (after c ring)))),
  )
]
  where
    whole : ring ≡ before c ring ++ (c ∷ after c ring)
    whole = cut c ring here

    other : (n == c) ≡ false
    other = ground (arith, has-rotation n c ring d)

has-cut :
    (t n : ℕ) (xs : List ℕ)
    → has n xs ≡ true
    → has t xs ≡ (has t (before n xs) || (t == n) || has t (after n xs))
unfolding before after
has-cut t n [] h = cc
has-cut t n (x ∷ xs) h = ground (arith, has-cut t n xs)

-- The turn of a task that waits comes nearer when the first task that can run gets its turn.
rotation-nearer :
    (tasks : ℕ → Task) (t n c : ℕ) (ring : List ℕ)
    → NoDup ring
    → has c ring ≡ true
    → first_runnable tasks (rotation c ring) ≡ some n
    → has t (rotation c ring) ≡ true
    → runnable (tasks t).state ≡ true
    → t ≢ n
    → ahead t (rotation n ring) < ahead t (rotation c ring)
rotation-nearer tasks t n c ring d here first waits runs other =
    let inside = (first_runnable-some tasks (rotation c ring) n first).0 in
    let not_before = before-first_runnable tasks (rotation c ring) n t first runs in
    let (tail, same) = rotation-rotation n c ring d here inside in
    let behind : has t (after n (rotation c ring)) ≡ true =
      ground (arith, has-cut t n (rotation c ring) inside, not_before, waits) in
    omega (
      arith,
      ahead-after t n (rotation c ring) inside not_before other,
      ap (ahead t) same,
      ahead-concat t (after n (rotation c ring)) tail behind,
    )

-- The task that runs next.
abbrev next_turn : Sched → Option ℕ
next_turn s = first_runnable s.tasks (rotation s.current s.ready)

module _ {s : Sched} (t : ℕ) (v : IsValid s) (inside : has t s.ready ≡ true) (other : t ≢ s.current)
    (runs : runnable (s.tasks t).state ≡ true) where
  waits : has t (rotation s.current s.ready) ≡ true
  waits = ground (arith, has-rotation t s.current s.ready v.distinct)

  someone : next_turn s ≡ none → ⊥
  someone e = ground (arith, first_runnable-none s.tasks (rotation s.current s.ready) e t waits)

  busy : ((s.current == 0) || is_empty s.ready) ≡ false
  busy = ground (arith, v.nonnull, v.here, not_empty s.ready inside)
    where
      not_empty : (ring : List ℕ) → has t ring ≡ true → is_empty ring ≡ false
      not_empty [] h = cc
      not_empty (x ∷ xs) h = refl

  yield-switch : (n : ℕ) → next_turn s ≡ some n → yield s ≡ switch_to n (reap_zombies s)
  unfolding yield reschedule pick_next reap_zombies
  yield-switch n e =
      let away : (n == s.current) ≡ false = ground (
        arith,
        first_runnable-some s.tasks (rotation s.current s.ready) n e,
        has-rotation n s.current s.ready v.distinct,
      ) in
      rw (busy, e, away) refl

  -- What a turn of `n` does for `t`.
  Nearer : Sched → Type 0
  Nearer r =
      (r.ready ≡ s.ready)
      × (runnable (r.tasks t).state ≡ true)
      × ((r.current ≡ t)
          ⊎ (ahead t (rotation r.current r.ready) < ahead t (rotation s.current s.ready)))

  switch_to-Nearer : (n : ℕ) → next_turn s ≡ some n → Nearer (switch_to n (reap_zombies s))
  unfolding Nearer switch_to reap_zombies
  switch_to-Nearer n e = (
    refl,
    ground arith,
    elim (Bool-cases (n == t)) [
      | inl mine ↦ inl (ground arith)
      | inr theirs ↦ inr (
          rotation-nearer s.tasks t n s.current s.ready v.distinct v.here e waits runs
            (ground arith))
    ],
  )

  yield-Nearer : Nearer (yield s)
  yield-Nearer = elim (Option-cases (next_turn s)) [
    | inl nobody ↦ absurd (someone nobody)
    | inr (n, e) ↦ subst Nearer (sym (yield-switch n e)) (switch_to-Nearer n e)
  ]

-- `n` calls of `yield`, by whichever task runs.
unfoldable pub yields : ℕ → Sched → Sched
yields zero s = s
yields (suc n) s = yields n (yield s)

turn_within :
    (bound : ℕ) {s : Sched} (t : ℕ)
    → IsValid s
    → has t s.ready ≡ true
    → runnable (s.tasks t).state ≡ true
    → ahead t (rotation s.current s.ready) < bound
    → (n : ℕ) × (n ≤ bound) × ((yields n s).current ≡ t)
unfolding yields Nearer
turn_within zero t v inside runs near = absurd (omega arith)
turn_within (suc bound) {s} t v inside runs near = elim (Bool-cases (t == s.current)) [
  | inl now ↦ (0, omega arith, ground arith)
  | inr not_yet ↦
      let step = yield-Nearer t v inside (ground arith) runs in
      let inside' : has t (yield s).ready ≡ true = rw step.0 inside in
      elim step.2 [
        | inl next ↦ (1, omega arith, next)
        | inr nearer ↦
            let (n, small, turn) =
              turn_within bound t (yield-IsValid v) inside' step.1 (omega (arith, nearer)) in
            (suc n, omega arith, turn)
      ]
]

length-cut :
    (c : ℕ) (xs : List ℕ)
    → has c xs ≡ true
    → length (before c xs) + 1 + length (after c xs) ≡ length xs
unfolding before after
length-cut c [] h = cc
length-cut c (x ∷ xs) h = ground (arith, length-cut c xs)

-- The rotation is one shorter than the circle.
length-rotation :
    (c : ℕ) (ring : List ℕ) → has c ring ≡ true → length (rotation c ring) + 1 ≡ length ring
unfolding rotation
length-rotation c ring h =
    omega (arith, length-concat (after c ring) (before c ring), length-cut c ring h)
  where
    length-concat : (xs ys : List ℕ) → length (xs ++ ys) ≡ length xs + length ys
    length-concat [] ys = omega arith
    length-concat (x ∷ xs) ys = omega (arith, length-concat xs ys)

ahead-le : (t : ℕ) (xs : List ℕ) → ahead t xs ≤ length xs
unfolding ahead
ahead-le t [] = omega arith
ahead-le t (x ∷ xs) = ground (arith, ahead-le t xs)

-- From a valid state a task of the circle that can run is the current one after no more calls of
-- `yield` than the circle has tasks.
pub yields-current :
    {s : Sched} (t : ℕ)
    → IsValid s
    → has t s.ready ≡ true
    → runnable (s.tasks t).state ≡ true
    → (n : ℕ) × (n ≤ length s.ready) × ((yields n s).current ≡ t)
yields-current {s} t v inside runs = turn_within (length s.ready) t v inside runs (
    omega
      (arith, ahead-le t (rotation s.current s.ready), length-rotation s.current s.ready v.here))
