-- ===== src/Vfs/Path/Resolve.antt =====
-- `vfs_resolve` of src/vfs.c against the names of its result.
pub mod Bounds
pub mod Normal
pub mod Room
pub mod Relative
use computer_os.Prelude.{
  ℕ, zero, suc, ◌+◌, ◌≤◌, ◌<◌, ◌≡◌, refl, sym, ap, ◌∙◌, Bool, true, false, ◌&&◌, not, Option, none,
  some, List, [], ◌∷◌, ◌++◌, ltb, leb, ◌==◌, if◌then◌else◌, length, arith, Bool-cases, Option-cases,
  inl, inr, length-append, bind, bind_cong, bind-map,
}
use computer_os.Vfs.Path.{
  Text, slash, dot, path_size, Output, fill, joined, is_empty, walk, finish, vfs_resolve, is_dot,
  is_dot_dot,
}
use computer_os.Vfs.Path.Names.{
  names, tail, reduce, reduce_all, path_of, is_name, all_names, all_words, no_slash, append_nil,
  names-is_word,
}
use computer_os.Vfs.Path.Reduce.{shown, starts_of, fits, step, run, walk-run}

-- The path of a directory.
abbrev pub text_of : List Text → Text
text_of [] = slash ∷ []
text_of (w ∷ st) = path_of (w ∷ st)

-- The result for the names that are left, when there is room for it.
abbrev pub text_in : ℕ → List Text → Option Text
text_in outsz [] = if ltb outsz 2 then none else some (slash ∷ [])
text_in outsz (w ∷ st) = some (path_of (w ∷ st))

finish-append :
    (outsz : ℕ) (p q : Text) (c : ℕ) (ss : List ℕ)
    → finish outsz (record { out = p ++ (c ∷ q); starts = ss }) ≡ some (p ++ (c ∷ q))
unfolding finish
finish-append outsz [] q c ss = refl
finish-append outsz (x ∷ p) q c ss = refl

finish-shown : (outsz : ℕ) (st : List Text) → finish outsz (shown st) ≡ text_in outsz st
unfolding finish path_of starts_of
finish-shown outsz [] = refl
finish-shown outsz (w ∷ st) =
    finish-append outsz (path_of st) w slash (length (path_of st) ∷ starts_of st)

-- `vfs_resolve`, with its offsets into a buffer and the positions of its components, equals a run
-- over the names of the path: `.` keeps the list of names, `..` drops the last one, any other is
-- added if it is at most the 64th and fits in the output; the result is the path of the names that
-- are left, or `/` for none.
pub vfs_resolve-run :
    (cwd path : Text) (outsz : ℕ)
    → vfs_resolve cwd path outsz
      ≡ bind (joined cwd path) (λ buf. bind (run outsz (names buf []) []) (text_in outsz))
unfolding vfs_resolve path_of starts_of
vfs_resolve-run cwd path outsz = bind_cong (joined cwd path) _ _ λ buf.
    ap (λ (o : Option Output). bind o (finish outsz)) (walk-run outsz buf [] [])
    ∙ bind-map (run outsz (names buf []) []) shown (finish outsz) (text_in outsz)
        (finish-shown outsz)
