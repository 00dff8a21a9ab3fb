-- ===== src/Vfs/Mount/Route.antt =====
-- `route` of src/vfs.c: the longest prefix that holds a path, and the path within its file system.
use computer_os.Prelude.{
  ℕ, ◌+◌, ◌≤◌, ◌<◌, ◌≡◌, refl, ap, ◌∙◌, true, false, ◌||◌, none, some, List, [], ◌∷◌, ◌++◌, leb,
  ◌==◌, if◌then◌else◌, length, drop, get_elem?, arith, Bool-cases, inl, inr, some_inj, Option-cases,
  ◌⊎◌, length-append,
}
use computer_os.Vfs.Path.Names.{append_nil}
use computer_os.Vfs.Path.{Text, slash, starts_with_slash, is_empty}
use computer_os.Vfs.Mount.{
  Mount, strip, is_slash, under, copy_rest, sub_path, longest, rest_of, route,
}
use computer_os.Vfs.Mount.Longest.{covers, longest-within, longest-Chosen, longest-some}

copy_rest-lem : (n o : ℕ) (s : Text) → o + length s < n → copy_rest n o s ≡ some s
unfolding copy_rest
copy_rest-lem n o [] h = refl
copy_rest-lem n o (c ∷ s) h =
    let e : leb n (o + 1) ≡ false = ground arith in
    rw (e, copy_rest-lem n (o + 1) s (omega arith)) refl

strip-append :
    (p path : Text) {rest : Text}
    → strip p path ≡ some rest
    → (path ≡ p ++ rest) × (drop (length p) path ≡ rest)
unfolding strip
strip-append [] path h = (some_inj h, some_inj h)
strip-append (c ∷ p) [] h = absurd cc
strip-append (c ∷ p) (d ∷ path) {rest} h = elim (Bool-cases (c == d)) [
  | inl e ↦
      let q : c ≡ d = ground arith in
      let (a, b) = strip-append p path (rw e at h) in (rw (q, a) refl, b)
  | inr e ↦ let z : none ≡ some rest = rw e at h in absurd cc
]

-- The path within a file system: what follows the prefix, or the root.
abbrev pub Located : Text → Text → Text → Type 0
Located prefix path sub =
    if is_slash prefix
    then path ≡ sub
    else (path ≡ prefix ++ sub)
    ⊎ ((path ≡ prefix) × (sub ≡ slash ∷ []))

-- A rest that is empty or starts with a slash, and fits, is the path within the file system.
sub_path-slash :
    (n : ℕ) (rest : Text)
    → starts_with_slash rest ≡ true
    → length rest < n
    → sub_path n rest ≡ some rest
unfolding sub_path
sub_path-slash n [] s h = absurd cc
sub_path-slash n (c ∷ rest) s h = rw (s, copy_rest-lem n 0 (c ∷ rest) (omega arith)) refl

module _ {S : Type 0} where
  rest_of-Located :
      (m : Mount S) (path : Text) (n : ℕ)
      → under m.prefix path ≡ true
      → starts_with_slash path ≡ true
      → length path < n
      → (sub : Text) × (sub_path n (rest_of m path) ≡ some sub) × Located m.prefix path sub
  unfolding under sub_path
  rest_of-Located m path n u s h = elim (Bool-cases (is_slash m.prefix)) [
    | inl e ↦ rw e (path, sub_path-slash n path s h, refl)
    | inr e ↦ elim (Option-cases (strip m.prefix path)) [
      | inl f ↦ let z : false ≡ true = rw (e, f) at u in absurd cc
      | inr (rest, f) ↦
          let (a, b) = strip-append m.prefix path f in rw (e, b) (split rest a (rw (e, f) at u))
    ]
  ]
    where
      split :
          (rest : Text)
          → path ≡ m.prefix ++ rest
          → is_empty rest || starts_with_slash rest ≡ true
          → (sub : Text) × (sub_path n rest ≡ some sub)
            × ((path ≡ m.prefix ++ sub) ⊎ ((path ≡ m.prefix) × (sub ≡ slash ∷ [])))
      split [] a t = (slash ∷ [], refl, inr (a ∙ append_nil m.prefix, refl))
      split (c ∷ rest) a t =
          let l : length path ≡ length m.prefix + length (c ∷ rest) =
            ap (λ (x : Text). length x) a ∙ length-append m.prefix (c ∷ rest) in
          (c ∷ rest, sub_path-slash n (c ∷ rest) t (omega arith), inl a)

  -- If a mount in use holds an absolute path that is shorter than the buffer, `route` succeeds. It
  -- gives a slot that is in use and whose prefix holds the path, no mount that holds the path has a
  -- longer prefix, and the path within the file system is the whole path for the root, and what
  -- follows the prefix, or `/` for nothing, for any other.
  pub route-Located :
      (ms : List (Mount S)) (path : Text) (n : ℕ) (k : ℕ) {m' : Mount S}
      → get_elem? ms k ≡ some m'
      → covers path m' ≡ true
      → starts_with_slash path ≡ true
      → length path < n
      → (i : ℕ) × (m : Mount S) × (sub : Text) × (route ms path n ≡ some (i, m.ops, sub))
        × (get_elem? ms i ≡ some m)
        × (covers path m ≡ true)
        × Located m.prefix path sub
        × ((j : ℕ) (o : Mount S)
            → get_elem? ms j ≡ some o
            → covers path o ≡ true
            → length o.prefix ≤ length m.prefix)
  unfolding route
  route-Located ms path n k g c s h =
      let ((i, m), e) = longest-some path ms 0 none k g c in
      let (x, a) = longest-within path ms 0 none (length m.prefix) (rw e (ground arith)) in
      elim (longest-Chosen path ms 0 none e) [
        | inl z ↦ absurd cc
        | inr (j, q, g', c') ↦
            let (sub, d, l) = rest_of-Located m path n (ground arith) s h in
            let p : i ≡ j = omega arith in (i, m, sub, rw (e, d) refl, rw p g', c', l, a)
      ]

  -- Without one there is none.
  pub route-none :
      (ms : List (Mount S)) (path : Text) (n : ℕ)
      → ((j : ℕ) (m : Mount S) → get_elem? ms j ≡ some m → covers path m ≡ false)
      → route ms path n ≡ none
  unfolding route
  route-none ms path n a = elim (Option-cases (longest path ms 0 none)) [
    | inl e ↦ rw e refl
    | inr ((i, m), e) ↦ elim (longest-Chosen path ms 0 none e) [
      | inl z ↦ absurd cc
      | inr (j, q, g, c) ↦ let f : covers path m ≡ false = a j m g in absurd cc
    ]
  ]
