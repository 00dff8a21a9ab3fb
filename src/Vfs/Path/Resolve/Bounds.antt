-- ===== src/Vfs/Path/Resolve/Bounds.antt =====
-- The bounds that the loop of `vfs_resolve` keeps, on the names that it has put in the output.
use computer_os.Prelude.{
  ℕ, ◌+◌, ◌≤◌, ◌<◌, ◌≡◌, refl, sym, ap, ◌∙◌, Bool, true, false, ◌&&◌, not, none, some, List, [],
  ◌∷◌, ◌++◌, if◌then◌else◌, length, arith, length-append, some_inj, subst, bind-inversion,
}
use computer_os.Vfs.Path.{Text, slash, is_dot, is_dot_dot, is_empty}
use computer_os.Vfs.Path.Names.{
  tail, reduce, reduce_all, path_of, reversed, is_name, all_names, all_words, no_slash,
}
use computer_os.Vfs.Path.Reduce.{fits, step, run}

-- Each name fitted when it was added.
unfoldable pub all_fit : ℕ → List Text → Bool
all_fit outsz [] = true
all_fit outsz (w ∷ st) = is_name w && fits outsz w st && all_fit outsz st

all_fit-tail :
    (outsz : ℕ) (st : List Text) → all_fit outsz st ≡ true → all_fit outsz (tail st) ≡ true
unfolding all_fit
all_fit-tail outsz [] h = refl
all_fit-tail outsz (w ∷ st) h = ground arith

pub all_fit-all_names : (outsz : ℕ) (st : List Text) → all_fit outsz st ≡ true → all_names st ≡ true
unfolding all_fit all_names
all_fit-all_names outsz [] h = refl
all_fit-all_names outsz (w ∷ st) h = ground (arith, all_fit-all_names outsz st)

pub all_fit-length : (outsz : ℕ) (st : List Text) → all_fit outsz st ≡ true → length st ≤ 64
unfolding all_fit
all_fit-length outsz [] h = omega arith
all_fit-length outsz (w ∷ st) h = ground arith

pub all_fit-length_path :
    (outsz : ℕ) (w : Text) (st : List Text)
    → all_fit outsz (w ∷ st) ≡ true
    → length (path_of (w ∷ st)) + 1 < outsz
unfolding all_fit path_of
all_fit-length_path outsz w st h = rw (length-append (path_of st) (slash ∷ w)) (ground arith)

-- What holds of each result of `step` holds of its result.
step-induction :
    (P : List Text → Type 0) (outsz : ℕ) (w : Text) (st : List Text) {r : List Text}
    → (is_dot w ≡ true → P st)
    → (is_dot w ≡ false → is_dot_dot w ≡ true → P (tail st))
    → (is_dot w ≡ false → is_dot_dot w ≡ false → fits outsz w st ≡ true → P (w ∷ st))
    → step outsz w st ≡ some r
    → P r
step-induction P outsz w st {r} p q t = choose (is_dot w) (is_dot_dot w) (fits outsz w st) p q t
  where
    choose :
        (a b c : Bool)
        → (a ≡ true → P st)
        → (a ≡ false → b ≡ true → P (tail st))
        → (a ≡ false → b ≡ false → c ≡ true → P (w ∷ st))
        → (if a then some st else if b then some (tail st) else if c then some (w ∷ st) else none)
          ≡ some r
        → P r
    choose true b c p q t e = subst P (some_inj e) (p refl)
    choose false true c p q t e = subst P (some_inj e) (q refl refl)
    choose false false true p q t e = subst P (some_inj e) (t refl refl refl)
    choose false false false p q t e = absurd cc

step-all_fit :
    (outsz : ℕ) (w : Text) (st : List Text) {r : List Text}
    → not (is_empty w) && no_slash w ≡ true
    → all_fit outsz st ≡ true
    → step outsz w st ≡ some r
    → all_fit outsz r ≡ true
unfolding all_fit
step-all_fit outsz w st n h =
    step-induction (λ r. all_fit outsz r ≡ true) outsz w st (λ d. h)
      (λ d p. all_fit-tail outsz st h) λ d p f. rw (d, p, f, h) (ground arith)

step-reduce :
    (outsz : ℕ) (w : Text) (st : List Text) {r : List Text}
    → step outsz w st ≡ some r
    → r ≡ reduce w st
step-reduce outsz w st =
    step-induction (λ r. r ≡ reduce w st) outsz w st (λ d. rw d refl) (λ d p. rw (d, p) refl)
      λ d p f. rw (d, p) refl

-- The loop keeps the bounds, and its names are those of the specification.
pub run-all_fit :
    (outsz : ℕ) (ws st : List Text) {r : List Text}
    → all_words ws ≡ true
    → all_fit outsz st ≡ true
    → run outsz ws st ≡ some r
    → (all_fit outsz r ≡ true) × (r ≡ reduce_all ws st)
unfolding run all_words reduce_all
run-all_fit outsz [] st n h e =
    (subst (λ r. all_fit outsz r ≡ true) (some_inj e) h, sym (some_inj e))
run-all_fit outsz (w ∷ ws) st n h e =
    let (t, s, e) = bind-inversion (step outsz w st) (run outsz ws) e in
    let (f, g) =
      run-all_fit outsz ws t (ground arith) (step-all_fit outsz w st (ground arith) h s) e in
    (f, g ∙ ap (reduce_all ws) (step-reduce outsz w st s))

step-fits :
    (outsz : ℕ) (w : Text) (st : List Text)
    → all_fit outsz (w ∷ st) ≡ true
    → step outsz w st ≡ some (w ∷ st)
unfolding all_fit
step-fits outsz w st h =
    let d : is_dot w ≡ false = ground arith in
    let p : is_dot_dot w ≡ false = ground arith in
    let f : fits outsz w st ≡ true = ground arith in rw (d, p, f) refl

snoc_append : (xs : List Text) (w : Text) (ys : List Text) → (xs ++ (w ∷ [])) ++ ys ≡ xs ++ (w ∷ ys)
snoc_append [] w ys = refl
snoc_append (x ∷ xs) w ys = ap (λ (r : List Text). x ∷ r) (snoc_append xs w ys)

-- The names of a directory lead to it from the root.
pub run-reversed :
    (outsz : ℕ) (st ws : List Text)
    → all_fit outsz st ≡ true
    → run outsz (reversed st ++ ws) [] ≡ run outsz ws st
unfolding all_fit run reversed
run-reversed outsz [] ws h = refl
run-reversed outsz (w ∷ st) ws h =
    rw (snoc_append (reversed st) w ws, run-reversed outsz st (w ∷ ws) (ground arith))
      (rw (step-fits outsz w st h) refl)
