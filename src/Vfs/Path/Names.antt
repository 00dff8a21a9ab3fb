-- ===== src/Vfs/Path/Names.antt =====
-- The names of a path of src/vfs.c, apart from how `vfs_resolve` keeps them.
use computer_os.Prelude.{
  ℕ, ◌≡◌, refl, ap, ◌∙◌, Bool, true, false, ◌&&◌, not, List, [], ◌∷◌, ◌++◌, ◌==◌, if◌then◌else◌,
  arith, Bool-cases, inl, inr,
}
use computer_os.Vfs.Path.{Text, slash, is_empty, is_dot, is_dot_dot}

-- The names between the slashes; `word` is the start of the first one.
unfoldable pub names : Text → Text → List Text
names [] word = if is_empty word then [] else word ∷ []
names (c ∷ cs) word = elim (c == slash) [
  | true ↦ (if is_empty word then names cs [] else word ∷ names cs [])
  | false ↦ names cs (word ++ (c ∷ []))
]

unfoldable pub no_slash : Text → Bool
no_slash [] = true
no_slash (c ∷ cs) = not (c == slash) && no_slash cs

-- A name that stands for an entry of a directory.
abbrev pub is_name : Text → Bool
is_name w = not (is_empty w) && no_slash w && not (is_dot w) && not (is_dot_dot w)

abbrev pub tail : List Text → List Text
tail [] = []
tail (w ∷ st) = st

unfoldable pub all_names : List Text → Bool
all_names [] = true
all_names (w ∷ ws) = is_name w && all_names ws

-- Texts between slashes, `.` and `..` among them.
unfoldable pub all_words : List Text → Bool
all_words [] = true
all_words (w ∷ ws) = not (is_empty w) && no_slash w && all_words ws

-- What a name does to the names that lead to a directory, the last one first.
abbrev pub reduce : Text → List Text → List Text
reduce w st = if is_dot w then st else if is_dot_dot w then tail st else w ∷ st

unfoldable pub reduce_all : List Text → List Text → List Text
reduce_all [] st = st
reduce_all (w ∷ ws) st = reduce_all ws (reduce w st)

-- The path of a directory, without the slash of the root.
unfoldable pub path_of : List Text → Text
path_of [] = []
path_of (w ∷ st) = path_of st ++ (slash ∷ w)

unfoldable pub reversed : List Text → List Text
reversed [] = []
reversed (w ∷ st) = reversed st ++ (w ∷ [])

pub append_assoc : (xs ys zs : Text) → (xs ++ ys) ++ zs ≡ xs ++ (ys ++ zs)
append_assoc [] ys zs = refl
append_assoc (x ∷ xs) ys zs = ap (λ (r : Text). x ∷ r) (append_assoc xs ys zs)

pub append_nil : (xs : Text) → xs ++ [] ≡ xs
append_nil [] = refl
append_nil (x ∷ xs) = ap (λ (r : Text). x ∷ r) (append_nil xs)

-- A slash ends a name.
pub names-append :
    (xs ys word : Text) → names (xs ++ (slash ∷ ys)) word ≡ names xs word ++ names ys []
unfolding names
names-append [] ys word = elim (Bool-cases (is_empty word)) [
  | inl e ↦ rw (e, names) refl
  | inr e ↦ rw (e, names) refl
]
names-append (c ∷ xs) ys word = elim (Bool-cases (c == slash)) [
  | inl e ↦ elim (Bool-cases (is_empty word)) [
    | inl f ↦ rw (e, f, names) (names-append xs ys [])
    | inr f ↦ rw (e, f, names) (ap (λ (r : List Text). word ∷ r) (names-append xs ys []))
  ]
  | inr e ↦ rw (e, names) (names-append xs ys (word ++ (c ∷ [])))
]

snoc_not_empty : (word : Text) (c : ℕ) → is_empty (word ++ (c ∷ [])) ≡ false
snoc_not_empty [] c = refl
snoc_not_empty (x ∷ word) c = refl

no_slash-snoc :
    (word : Text) (c : ℕ)
    → no_slash word ≡ true
    → (c == slash) ≡ false
    → no_slash (word ++ (c ∷ [])) ≡ true
unfolding no_slash
no_slash-snoc [] c n s = ground arith
no_slash-snoc (x ∷ word) c n s = ground (arith, no_slash-snoc word c)

-- A text without slashes is one name.
names-word :
    (xs word : Text)
    → no_slash xs ≡ true
    → is_empty (word ++ xs) ≡ false
    → names xs word ≡ (word ++ xs) ∷ []
unfolding names no_slash
names-word [] word n e =
    let f : is_empty word ≡ false = rw (append_nil word) at e in rw (f, append_nil word) refl
names-word (c ∷ xs) word n e =
    let f : (c == slash) ≡ false = ground arith in
    rw (f, names)
      (names-word xs (word ++ (c ∷ [])) (ground arith) (rw (append_assoc word (c ∷ []) xs) e)
        ∙ ap (λ (r : Text). r ∷ []) (append_assoc word (c ∷ []) xs))

-- The names of the path of a directory are those that lead to it.
pub names-path_of : (st : List Text) → all_names st ≡ true → names (path_of st) [] ≡ reversed st
unfolding path_of reversed all_names names
names-path_of [] h = refl
names-path_of (w ∷ st) h =
    rw
      (
        names-append (path_of st) w [],
        names-path_of st (ground arith),
        names-word w [] (ground arith) (ground arith),
      )
      refl

-- Names that are read one after another contain no slash.
pub names-is_word : (xs word : Text) → no_slash word ≡ true → all_words (names xs word) ≡ true
unfolding names all_words no_slash
names-is_word [] word n = elim (Bool-cases (is_empty word)) [
  | inl e ↦ rw (e, names) refl
  | inr e ↦ rw (e, names) (ground arith)
]
names-is_word (c ∷ xs) word n = elim (Bool-cases (c == slash)) [
  | inl s ↦
      rw (s, names)
        (elim (Bool-cases (is_empty word)) [
          | inl e ↦ rw (e, names) (names-is_word xs [] (ground arith))
          | inr e ↦ rw (e, names) (ground (arith, names-is_word xs []))
        ])
  | inr s ↦ rw (s, names) (names-is_word xs (word ++ (c ∷ [])) (no_slash-snoc word c n s))
]
