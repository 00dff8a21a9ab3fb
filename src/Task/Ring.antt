-- ===== src/Task/Ring.antt =====
-- The circular list of src/task.c, as a list, and searches in it.
use computer_os.Prelude.{
  ℕ, ◌≡◌, refl, Bool, true, false, ◌&&◌, ◌||◌, not, none, some, List, [], ◌∷◌, ◌++◌, ◌==◌, arith,
  has, NoDup, Bool-cases, inl, inr,
}
use computer_os.Task.{
  Task, runnable, ready_insert, after, before, rotation, first_runnable, unreaped,
}
use computer_os.Task.Children.{find, found}

pub has-concat : (a : ℕ) (front back : List ℕ) → has a (front ++ back) ≡ (has a front || has a back)
has-concat a [] back = refl
has-concat a (x ∷ front) back = ground (arith, has-concat a front back)

-- The rotation holds every task of the circle but the one at which it starts.
pub has-parts :
    (a c : ℕ) (ring : List ℕ)
    → NoDup ring
    → (a == c) ≡ false
    → (has a (after c ring) || has a (before c ring)) ≡ has a ring
unfolding after before
has-parts a c [] d ne = refl
has-parts a c (x ∷ xs) d ne = ground (arith, has-parts a c xs d.1 ne)

pub has-before_self : (c : ℕ) (ring : List ℕ) → has c (before c ring) ≡ false
unfolding before
has-before_self c [] = refl
has-before_self c (x ∷ xs) = ground (arith, has-before_self c xs)

pub has-after_self : (c : ℕ) (ring : List ℕ) → NoDup ring → has c (after c ring) ≡ false
unfolding after
has-after_self c [] d = refl
has-after_self c (x ∷ xs) d = ground (arith, has-after_self c xs d.1, d.0)

pub has-rotation :
    (a c : ℕ) (ring : List ℕ) → NoDup ring → has a (rotation c ring) ≡ (has a ring && not (a == c))
unfolding rotation
has-rotation a c ring d = elim (Bool-cases (a == c)) [
  | inl same ↦ ground (
    arith,
    has-concat a (after c ring) (before c ring),
    has-before_self c ring,
    has-after_self c ring d,
  )
  | inr other ↦
      ground (arith, has-concat a (after c ring) (before c ring), has-parts a c ring d other)
]

pub first_runnable-some :
    (tasks : ℕ → Task) (ring : List ℕ) (a : ℕ)
    → first_runnable tasks ring ≡ some a
    → (has a ring ≡ true) × (runnable (tasks a).state ≡ true)
unfolding first_runnable
first_runnable-some tasks [] a e = cc
first_runnable-some tasks (x ∷ xs) a e = ground (arith, first_runnable-some tasks xs a)

pub first_runnable-none :
    (tasks : ℕ → Task) (ring : List ℕ)
    → first_runnable tasks ring ≡ none
    → (a : ℕ) → has a ring ≡ true
    → runnable (tasks a).state ≡ false
unfolding first_runnable
first_runnable-none tasks [] e a h = cc
first_runnable-none tasks (x ∷ xs) e a h = elim (Bool-cases (a == x)) [
  | inl same ↦ ground arith
  | inr other ↦ first_runnable-none tasks xs (ground arith) a (ground arith)
]

pub find-some :
    (test : ℕ → Bool) (xs : List ℕ) (a : ℕ)
    → find test xs ≡ some a
    → (has a xs ≡ true) × (test a ≡ true)
unfolding find
find-some test [] a e = cc
find-some test (x ∷ xs) a e = ground (arith, find-some test xs a)

pub find-none :
    (test : ℕ → Bool) (xs : List ℕ)
    → found (find test xs) ≡ false
    → (a : ℕ) → has a xs ≡ true
    → test a ≡ false
unfolding find
find-none test [] e a h = cc
find-none test (x ∷ xs) e a h = elim (Bool-cases (a == x)) [
  | inl same ↦ ground arith
  | inr other ↦ find-none test xs (ground arith) a (ground arith)
]

pub has-ready_insert :
    (a t : ℕ) (ring : List ℕ) → has a (ready_insert t ring) ≡ ((a == t) || has a ring)
unfolding ready_insert
has-ready_insert a t [] = refl
has-ready_insert a t (x ∷ xs) = ground arith

pub ready_insert-NoDup :
    (t : ℕ) (ring : List ℕ) → has t ring ≡ false → NoDup ring → NoDup (ready_insert t ring)
unfolding ready_insert
ready_insert-NoDup t [] new d = (refl, tt)
ready_insert-NoDup t (x ∷ xs) new d = (ground arith, (ground arith, d.1))

-- The zombies that stay are those that no parent has waited for.
pub has-unreaped :
    (tasks : ℕ → Task) (a : ℕ) (zs : List ℕ)
    → has a (unreaped tasks zs) ≡ (has a zs && not (tasks a).reaped_by_parent)
unfolding unreaped
has-unreaped tasks a [] = refl
has-unreaped tasks a (z ∷ zs) = elim (Bool-cases (a == z)) [
  | inl same ↦ ground (arith, has-unreaped tasks a zs)
  | inr other ↦ ground (arith, has-unreaped tasks a zs)
]

pub unreaped-NoDup : (tasks : ℕ → Task) (zs : List ℕ) → NoDup zs → NoDup (unreaped tasks zs)
unfolding unreaped
unreaped-NoDup tasks [] d = tt
unreaped-NoDup tasks (z ∷ zs) d = elim (Bool-cases (tasks z).reaped_by_parent) [
  | inl gone ↦ rw gone (unreaped-NoDup tasks zs d.1)
  | inr stays ↦ rw stays (ground (arith, has-unreaped tasks z zs, d.0), unreaped-NoDup tasks zs d.1)
]
