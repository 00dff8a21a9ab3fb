-- ===== src/Vfs/Path/Resolve/Normal.antt =====
-- The result of `vfs_resolve` of src/vfs.c is a normal form.
use computer_os.Prelude.{
  ℕ, ◌+◌, ◌≤◌, ◌<◌, ◌≡◌, refl, sym, ap, ◌∙◌, true, false, some, List, [], ◌∷◌, ◌++◌, ltb, leb,
  length, arith, Bool-cases, inl, inr, some_inj, subst, bind-inversion,
}
use computer_os.Vfs.Path.{Text, slash, path_size, starts_with_slash, joined, vfs_resolve}
use computer_os.Vfs.Path.Names.{
  names, reduce_all, path_of, reversed, all_names, no_slash, append_assoc, names-path_of,
  names-is_word,
}
use computer_os.Vfs.Path.Reduce.{run}
use computer_os.Vfs.Path.Resolve.{text_of, text_in, vfs_resolve-run}
use computer_os.Vfs.Path.Resolve.Bounds.{
  all_fit, run-all_fit, run-reversed, all_fit-all_names, all_fit-length_path,
}
use computer_os.Vfs.Path.Resolve.Room.{base, joined-lem, joined-some}

text_in-text_of :
    (outsz : ℕ) (st : List Text) {r : Text}
    → all_fit outsz st ≡ true
    → text_in outsz st ≡ some r
    → (r ≡ text_of st) × (length r < outsz)
text_in-text_of outsz [] h e = elim (Bool-cases (ltb outsz 2)) [
  | inl f ↦ absurd (ground arith)
  | inr f ↦ let g = some_inj (rw f at e) in (sym g, subst (λ r. length r < outsz) g (ground arith))
]
text_in-text_of outsz (w ∷ st) h e = (
  sym (some_inj e),
  subst (λ r. length r < outsz) (some_inj e) (omega (arith, all_fit-length_path outsz w st h)),
)

no_slash-empty : no_slash [] ≡ true
unfolding no_slash
no_slash-empty = refl

all_fit-empty : (outsz : ℕ) → all_fit outsz [] ≡ true
unfolding all_fit
all_fit-empty outsz = refl

-- The names that are left, and that they fit in the output.
pub resolved :
    (cwd path : Text) (outsz : ℕ) {r : Text}
    → vfs_resolve cwd path outsz ≡ some r
    → (st : List Text) × (all_fit outsz st ≡ true)
      × (st ≡ reduce_all (names (base cwd path ++ (slash ∷ path)) []) [])
      × (r ≡ text_of st)
      × (length r < outsz)
resolved cwd path outsz e =
    let (buf, j, e) =
      bind-inversion (joined cwd path) _ (sym (vfs_resolve-run cwd path outsz) ∙ e) in
    let (st, f, e) = bind-inversion (run outsz (names buf []) []) (text_in outsz) e in
    let (h, q) =
      run-all_fit outsz (names buf []) [] (names-is_word buf [] no_slash-empty)
        (all_fit-empty outsz) f in
    let (t, b) = text_in-text_of outsz st h e in
    (st, h, q ∙ ap (λ (b : Text). reduce_all (names b []) []) (joined-some cwd path j), t, b)

-- A path that `vfs_resolve` returns is a slash before each of the names that are left when `.` and
-- `..` are worked off, or `/` for none. No such name is empty, is `.` or `..`, or holds a slash,
-- and the result is shorter than the output buffer, so that its 0 fits.
pub vfs_resolve-names :
    (cwd path : Text) (outsz : ℕ) {r : Text}
    → vfs_resolve cwd path outsz ≡ some r
    → (st : List Text) × (r ≡ text_of st)
      × (st ≡ reduce_all (names (base cwd path ++ (slash ∷ path)) []) [])
      × (all_names st ≡ true)
      × (length r < outsz)
vfs_resolve-names cwd path outsz e =
    let (st, h, q, t, b) = resolved cwd path outsz e in (st, t, q, all_fit-all_names outsz st h, b)

-- The names of a directory, read from its path behind another slash.
names-text_of : (st : List Text) → all_names st ≡ true → names (slash ∷ text_of st) [] ≡ reversed st
unfolding names reversed
names-text_of [] h = refl
names-text_of (w ∷ st) h = names-path_of (w ∷ st) h

path_of-slash : (st : List Text) (w : Text) → starts_with_slash (path_of st ++ (slash ∷ w)) ≡ true
unfolding path_of
path_of-slash [] w = refl
path_of-slash (v ∷ st) w =
    rw (append_assoc (path_of st) (slash ∷ v) (slash ∷ w)) (path_of-slash st (v ++ (slash ∷ w)))

text_of-slash : (st : List Text) → starts_with_slash (text_of st) ≡ true
unfolding path_of
text_of-slash [] = refl
text_of-slash (w ∷ st) = path_of-slash st w

text_of-fits :
    (outsz : ℕ) (st : List Text)
    → all_fit outsz st ≡ true
    → length (text_of st) < outsz
    → outsz ≤ path_size
    → length (text_of st) + 1 < path_size
text_of-fits outsz [] h b o = omega arith
text_of-fits outsz (w ∷ st) h b o = omega (arith, all_fit-length_path outsz w st h)

text_in-fits :
    (outsz : ℕ) (st : List Text)
    → length (text_of st) < outsz
    → text_in outsz st ≡ some (text_of st)
text_in-fits outsz [] b = let e : ltb outsz 2 ≡ false = ground arith in rw e refl
text_in-fits outsz (w ∷ st) b = refl

list_append_nil : (xs : List Text) → xs ++ [] ≡ xs
list_append_nil [] = refl
list_append_nil (x ∷ xs) = ap (λ (r : List Text). x ∷ r) (list_append_nil xs)

vfs_resolve-text_of :
    (cwd : Text) (outsz : ℕ) (st : List Text)
    → all_fit outsz st ≡ true
    → length (text_of st) < outsz
    → outsz ≤ path_size
    → vfs_resolve cwd (text_of st) outsz ≡ some (text_of st)
unfolding run
vfs_resolve-text_of cwd outsz st h b o =
    let s : starts_with_slash (text_of st) ≡ true = text_of-slash st in
    let f : leb path_size (0 + 1 + length (text_of st)) ≡ false =
      ground (arith, text_of-fits outsz st h b o) in
    let ns : names (slash ∷ text_of st) [] ≡ reversed st ++ [] =
      names-text_of st (all_fit-all_names outsz st h) ∙ sym (list_append_nil (reversed st)) in
    rw
      (
        vfs_resolve-run cwd (text_of st) outsz,
        joined-lem cwd (text_of st),
        s,
        f,
        ns,
        run-reversed outsz st [] h,
      )
      (text_in-fits outsz st b)

-- For an output of at most 256 bytes, what `vfs_resolve` returned resolves to itself, whatever the
-- working directory is.
pub vfs_resolve-idempotent :
    (cwd path : Text) (outsz : ℕ) (cwd' : Text) {r : Text}
    → outsz ≤ path_size
    → vfs_resolve cwd path outsz ≡ some r
    → vfs_resolve cwd' r outsz ≡ some r
vfs_resolve-idempotent cwd path outsz cwd' o e =
    let (st, h, q, t, b) = resolved cwd path outsz e in
    rw t (vfs_resolve-text_of cwd' outsz st h (subst (λ r. length r < outsz) t b) o)
