-- ===== src/Vfs/Path/Resolve/Room.antt =====
-- When `vfs_resolve` of src/vfs.c has room: the buffer for the path that is read, and the output.
use computer_os.Prelude.{
  ℕ, suc, ◌+◌, ◌≤◌, ◌<◌, ◌≡◌, refl, sym, ◌∙◌, true, false, none, some, List, [], ◌∷◌, ◌++◌, ltb,
  leb, ◌==◌, if◌then◌else◌, length, arith, Bool-cases, inl, inr, length-append, some_inj, subst,
  bind,
}
use computer_os.Vfs.Path.{
  Text, slash, path_size, starts_with_slash, fill, joined, is_dot, is_dot_dot, is_empty,
  vfs_resolve,
}
use computer_os.Vfs.Path.Names.{names, tail, reduce, reduce_all, path_of, append_assoc, append_nil}
use computer_os.Vfs.Path.Reduce.{fits, step, run}
use computer_os.Vfs.Path.Resolve.{text_of, text_in, vfs_resolve-run}

pub fill-lem :
    (s buf : Text)
    → length buf < path_size
    → fill s buf ≡ (if leb path_size (length buf + length s) then none else some (buf ++ s))
unfolding fill
fill-lem [] buf h =
    let e : leb path_size (length buf + 0) ≡ false = ground arith in rw (e, append_nil buf) refl
fill-lem (c ∷ s) buf h = elim (Bool-cases (leb path_size (length buf + 1))) [
  | inl e ↦
      let f : leb path_size (length buf + length (c ∷ s)) ≡ true = ground arith in rw (e, f) refl
  | inr e ↦
      let g : length (buf ++ (c ∷ [])) ≡ length buf + 1 = length-append buf (c ∷ []) in
      let f : length buf + 1 + length s ≡ length buf + length (c ∷ s) = ground arith in
      rw e
        (fill-lem s (buf ++ (c ∷ [])) (ground arith) ∙ rw (g, f, append_assoc buf (c ∷ []) s) refl)
]

-- The directory that a path starts from.
abbrev pub base : Text → Text → Text
base cwd path = if starts_with_slash path then [] else cwd

zero_add : (n : ℕ) → 0 + n ≡ n
zero_add n = omega arith

fill-base :
    (cwd path : Text)
    → (if starts_with_slash path then some [] else fill cwd [])
      ≡ (if leb path_size (length (base cwd path)) then none else some (base cwd path))
fill-base cwd path = elim (Bool-cases (starts_with_slash path)) [
  | inl e ↦ rw e refl
  | inr e ↦ rw e (
      subst (λ n. fill cwd [] ≡ (if leb path_size n then none else some cwd))
        (zero_add (length cwd)) (fill-lem cwd [] (omega arith)))
]

fill-slash :
    (path b : Text)
    → bind
        (if leb path_size (length b) then none else some b)
        (λ buf. bind (fill (slash ∷ []) buf) (fill path))
      ≡ (if leb path_size (length b + 1 + length path) then none else some (b ++ (slash ∷ path)))
fill-slash path b = elim (Bool-cases (leb path_size (length b))) [
  | inl e ↦
      let f : leb path_size (length b + 1 + length path) ≡ true = ground arith in rw (e, f) refl
  | inr e ↦ elim (Bool-cases (leb path_size (length b + 1))) [
    | inl g ↦
        let f : leb path_size (length b + 1 + length path) ≡ true = ground arith in
        rw (e, fill-lem (slash ∷ []) b (ground arith), g, f) refl
    | inr g ↦
        let h : length (b ++ (slash ∷ [])) ≡ length b + 1 = length-append b (slash ∷ []) in
        rw (e, fill-lem (slash ∷ []) b (ground arith), g)
          (fill-lem path (b ++ (slash ∷ [])) (ground arith)
            ∙ rw (h, append_assoc b (slash ∷ []) path) refl)
  ]
]

-- Too long a path is refused, and every other one is put behind its directory.
pub joined-lem :
    (cwd path : Text)
    → joined cwd path ≡ (
        if leb path_size (length (base cwd path) + 1 + length path)
        then none
        else some (base cwd path ++ (slash ∷ path)))
unfolding joined
joined-lem cwd path = rw (fill-base cwd path) (fill-slash path (base cwd path))

pub joined-some :
    (cwd path : Text) {buf : Text}
    → joined cwd path ≡ some buf
    → buf ≡ base cwd path ++ (slash ∷ path)
joined-some cwd path e =
    elim (Bool-cases (leb path_size (length (base cwd path) + 1 + length path))) [
      | inl f ↦ absurd (none_some (sym (joined-lem cwd path ∙ rw f refl) ∙ e))
      | inr f ↦ some_inj (sym e ∙ joined-lem cwd path ∙ rw f refl)
    ]
  where
    none_some : {b : Text} → ¬ (none ≡ some b)
    none_some h = absurd cc

-- The characters of names, each behind its slash.
unfoldable size : List Text → ℕ
size [] = 0
size (w ∷ ws) = 1 + length w + size ws

names-size : (cs word : Text) → size (names cs word) ≤ length word + length cs + 1
unfolding size names
names-size [] word = elim (Bool-cases (is_empty word)) [
  | inl e ↦ rw (e, names) (ground arith)
  | inr e ↦ rw (e, names) (ground arith)
]
names-size (c ∷ cs) word = elim (Bool-cases (c == slash)) [
  | inl s ↦ elim (Bool-cases (is_empty word)) [
    | inl e ↦ rw (s, e, names) (omega (arith, names-size cs []))
    | inr e ↦ rw (s, e, names) (omega (arith, names-size cs []))
  ]
  | inr s ↦
      let e : length (word ++ (c ∷ [])) ≡ length word + 1 = length-append word (c ∷ []) in
      rw (s, names) (omega (arith, names-size cs (word ++ (c ∷ []))))
]

length-tail : (st : List Text) → length (tail st) ≤ length st
length-tail [] = omega arith
length-tail (w ∷ st) = omega arith

length-path_of-tail : (st : List Text) → length (path_of (tail st)) ≤ length (path_of st)
unfolding path_of
length-path_of-tail [] = omega arith
length-path_of-tail (w ∷ st) = rw (length-append (path_of st) (slash ∷ w)) (omega arith)

-- A name that fits makes the directory deeper by one at most.
step-succeeds :
    (outsz : ℕ) (w : Text) (st : List Text)
    → fits outsz w st ≡ true
    → (step outsz w st ≡ some (reduce w st))
      × (length (reduce w st) ≤ length st + 1)
      × (length (path_of (reduce w st)) ≤ length (path_of st) + (1 + length w))
unfolding path_of
step-succeeds outsz w st f = elim (Bool-cases (is_dot w)) [
  | inl d ↦ rw d (refl, omega arith, omega arith)
  | inr d ↦ elim (Bool-cases (is_dot_dot w)) [
    | inl p ↦ rw (d, p) (refl, omega (arith, length-tail st), omega (arith, length-path_of-tail st))
    | inr p ↦
        rw (d, p, f) (refl, omega arith, rw (length-append (path_of st) (slash ∷ w)) (omega arith))
  ]
]

-- The run of names that fit does not fail.
run-succeeds :
    (outsz : ℕ) (ws st : List Text)
    → length st + length ws ≤ 64
    → length (path_of st) + size ws + 1 < outsz
    → run outsz ws st ≡ some (reduce_all ws st)
unfolding size run reduce_all
run-succeeds outsz [] st d h = refl
run-succeeds outsz (w ∷ ws) st d h =
    let (e, m, n) = step-succeeds outsz w st (ground arith) in
    rw e (run-succeeds outsz ws (reduce w st) (omega arith) (omega arith))

text_in-some : (outsz : ℕ) (st : List Text) → 2 ≤ outsz → text_in outsz st ≡ some (text_of st)
text_in-some outsz [] h = let e : ltb outsz 2 ≡ false = ground arith in rw e refl
text_in-some outsz (w ∷ st) h = refl

-- When the path, behind the working directory if it is relative, has fewer than 254 characters with
-- the slash between and at most 64 names, `vfs_resolve` with an output of 256 bytes succeeds, and
-- gives the path of the names that are left.
pub vfs_resolve-succeeds :
    (cwd path : Text)
    → length (base cwd path) + 1 + length path < 254
    → length (names (base cwd path ++ (slash ∷ path)) []) ≤ 64
    → vfs_resolve cwd path path_size
      ≡ some (text_of (reduce_all (names (base cwd path ++ (slash ∷ path)) []) []))
unfolding path_of
vfs_resolve-succeeds cwd path h n =
    let f : leb path_size (length (base cwd path) + 1 + length path) ≡ false = ground arith in
    let m : length (base cwd path ++ (slash ∷ path)) ≡ length (base cwd path) + suc (length path) =
      length-append (base cwd path) (slash ∷ path) in
    rw
      (
        vfs_resolve-run cwd path path_size,
        joined-lem cwd path,
        f,
        run-succeeds path_size (names (base cwd path ++ (slash ∷ path)) []) [] (omega arith)
            (omega (arith, names-size (base cwd path ++ (slash ∷ path)) [])),
      )
      (text_in-some path_size (reduce_all (names (base cwd path ++ (slash ∷ path)) []) [])
        (omega arith))

pub vfs_resolve-too_long :
    (cwd path : Text) (outsz : ℕ)
    → 255 ≤ length (base cwd path) + length path
    → vfs_resolve cwd path outsz ≡ none
vfs_resolve-too_long cwd path outsz h =
    let f : leb path_size (length (base cwd path) + 1 + length path) ≡ true = ground arith in
    rw (vfs_resolve-run cwd path outsz, joined-lem cwd path, f) refl
