-- ===== src/Vfs/Path/Reduce.antt =====
-- `vfs_resolve` of src/vfs.c on the names of a path: its loop is a run over the names that `names` lists.
use computer_os.Prelude.{
  ℕ, suc, ◌+◌, ◌≡◌, refl, sym, ap, ◌∙◌, Bool, true, false, ◌&&◌, not, Option, none, some, List, [],
  ◌∷◌, ◌++◌, leb, ◌==◌, if◌then◌else◌, length, take, Bool-cases, inl, inr, bind, bind-some,
  bind-simulates,
}
use computer_os.Vfs.Path.{Text, slash, Output, is_dot, is_dot_dot, go_up, component, is_empty, walk}
use computer_os.Vfs.Path.Names.{names, tail, path_of}

-- What `starts` holds when the output is the path of `st`.
unfoldable pub starts_of : List Text → List ℕ
starts_of [] = []
starts_of (w ∷ st) = length (path_of st) ∷ starts_of st

abbrev pub shown : List Text → Output
shown st = record { out = path_of st; starts = starts_of st }

-- Whether another name fits behind the path of `st`.
abbrev pub fits : ℕ → Text → List Text → Bool
fits outsz w st =
    not (leb 64 (length st)) && not (leb outsz (length (path_of st) + 1 + length w + 1))

-- One name, with the bounds on the depth and on the size of the output.
abbrev pub step : ℕ → Text → List Text → Option (List Text)
step outsz w st =
    if is_dot w
    then some st
    else if is_dot_dot w
    then some (tail st)
    else if fits outsz w st
    then some (w ∷ st)
    else none

unfoldable pub run : ℕ → List Text → List Text → Option (List Text)
run outsz [] st = some st
run outsz (w ∷ ws) st = bind (step outsz w st) (run outsz ws)

take-append : (xs ys : Text) → take (length xs) (xs ++ ys) ≡ xs
take-append [] ys = refl
take-append (x ∷ xs) ys = ap (λ (r : Text). x ∷ r) (take-append xs ys)

go_up-shown : (st : List Text) → go_up (shown st) ≡ shown (tail st)
unfolding path_of starts_of
go_up-shown [] = refl
go_up-shown (w ∷ st) =
    ap (λ (r : Text). record { out = r; starts = starts_of st })
      (take-append (path_of st) (slash ∷ w))

length-starts_of : (st : List Text) → length (starts_of st) ≡ length st
unfolding starts_of
length-starts_of [] = refl
length-starts_of (w ∷ st) = ap suc (length-starts_of st)

-- The order of the guards does not matter to the result.
guards :
    {A B : Type 0} (f : A → B) (a b c d : Bool) (x y z : A)
    → (if a
        then some (f x)
        else if b
        then some (f y)
        else if c
        then none
        else if d
        then none
        else some (f z))
      ≡ bind
          (if a then some x else if b then some y else if not c && not d then some z else none)
          (λ r. some (f r))
guards f true b c d x y z = refl
guards f false true c d x y z = refl
guards f false false true d x y z = refl
guards f false false false true x y z = refl
guards f false false false false x y z = refl

-- One component does to the output what its name does to the directory.
pub component-step :
    (outsz : ℕ) (w : Text) (st : List Text)
    → component outsz w (shown st) ≡ bind (step outsz w st) (λ r. some (shown r))
unfolding component path_of starts_of
component-step outsz w st =
    rw (go_up-shown st, length-starts_of st)
      (guards shown (is_dot w) (is_dot_dot w) (leb 64 (length st))
        (leb outsz (length (path_of st) + 1 + length w + 1)) st (tail st) (w ∷ st))

-- The loop over the buffer is the run over the names in it.
pub walk-run :
    (outsz : ℕ) (cs word : Text) (st : List Text)
    → walk outsz cs word (shown st) ≡ bind (run outsz (names cs word) st) (λ r. some (shown r))
unfolding walk run names
walk-run outsz [] word st = elim (Bool-cases (is_empty word)) [
  | inl e ↦ rw (e, names, run) refl
  | inr e ↦
      rw (e, names, run, component-step outsz word st)
        (sym (bind-some (bind (step outsz word st) (λ r. some (shown r))))
          ∙ bind-simulates (step outsz word st) shown some some shown (λ a. refl))
]
walk-run outsz (c ∷ cs) word st = elim (Bool-cases (c == slash)) [
  | inl s ↦ elim (Bool-cases (is_empty word)) [
    | inl e ↦ rw (s, e, names, walk) (walk-run outsz cs [] st)
    | inr e ↦
        rw (s, e, names, walk, run, component-step outsz word st)
          (bind-simulates (step outsz word st) shown (walk outsz cs []) (run outsz (names cs []))
            shown (walk-run outsz cs []))
  ]
  | inr s ↦ rw (s, names, walk) (walk-run outsz cs (word ++ (c ∷ [])) st)
]
