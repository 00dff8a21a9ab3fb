-- ===== src/Vfs/Mount/Longest.antt =====
-- The loop of `route` of src/vfs.c: the longest prefix that holds a path.
use computer_os.Prelude.{
  ℕ, zero, suc, ◌+◌, ◌≤◌, ◌≡◌, refl, sym, ap, ◌∙◌, subst, Bool, true, false, ◌&&◌, none, some, List,
  [], ◌∷◌, ltb, leb, if◌then◌else◌, length, get_elem?, arith, inl, inr, some_inj, ◌⊎◌,
}
use computer_os.Vfs.Path.{Text}
use computer_os.Vfs.Mount.{Mount, under, Best, is_longer, longest}

module _ {S : Type 0} where
  -- A mount whose prefix holds the path.
  abbrev pub covers : Text → Mount S → Bool
  covers path m = m.in_use && under m.prefix path

  -- The prefix so far has `n` characters at most.
  abbrev pub within : ℕ → Best S → Bool
  within n none = true
  within n (some (i, m)) = leb (length m.prefix) n

  abbrev next : Text → ℕ → Mount S → Best S → Best S
  next path i m best =
      if m.in_use && under m.prefix path && is_longer m.prefix best then some (i, m) else best

  next-within :
      (path : Text) (i : ℕ) (m : Mount S) (best : Best S) (n : ℕ)
      → within n (next path i m best) ≡ true
      → (within n best ≡ true) × (covers path m ≡ true → length m.prefix ≤ n)
  next-within path i m none n h = (refl, only m.in_use (under m.prefix path) h)
    where
      only :
          (a u : Bool)
          → within n (if a && u && true then some (i, m) else none) ≡ true
          → a && u ≡ true
          → length m.prefix ≤ n
      only true true h c = ground arith
      only true false h c = absurd cc
      only false u h c = absurd cc
  next-within path i m (some (j, b)) n h =
      longer m.in_use (under m.prefix path) (ltb (length b.prefix) (length m.prefix)) refl h
    where
      longer :
          (a u l : Bool)
          → ltb (length b.prefix) (length m.prefix) ≡ l
          → within n (if a && u && l then some (i, m) else some (j, b)) ≡ true
          → (leb (length b.prefix) n ≡ true) × (a && u ≡ true → length m.prefix ≤ n)
      longer true true true e h = (ground arith, λ c. ground arith)
      longer true true false e h = (h, λ c. ground arith)
      longer true false l e h = (h, λ c. absurd cc)
      longer false u l e h = (h, λ c. absurd cc)

  -- No prefix that holds the path is longer than the result, of those in the table and before it.
  pub longest-within :
      (path : Text) (ms : List (Mount S)) (i : ℕ) (best : Best S) (n : ℕ)
      → within n (longest path ms i best) ≡ true
      → (within n best ≡ true)
        × ((j : ℕ) (m : Mount S)
            → get_elem? ms j ≡ some m
            → covers path m ≡ true
            → length m.prefix ≤ n)
  unfolding longest
  longest-within path [] i best n h = (h, λ j m g c. absurd cc)
  longest-within path (m ∷ ms) i best n h =
      let (h, a) = longest-within path ms (suc i) (next path i m best) n h in
      let (h, b) = next-within path i m best n h in (h, each a b)
    where
      each :
          ((j : ℕ) (m : Mount S)
            → get_elem? ms j ≡ some m
            → covers path m ≡ true
            → length m.prefix ≤ n)
          → (covers path m ≡ true → length m.prefix ≤ n)
          → (j : ℕ) (m' : Mount S) → get_elem? (m ∷ ms) j ≡ some m'
          → covers path m' ≡ true
          → length m'.prefix ≤ n
      each a b zero m' g c =
          subst (λ (x : Mount S). covers path x ≡ true → length x.prefix ≤ n) (some_inj g) b c
      each a b (suc j) m' g c = a j m' g c

  -- A mount of the table, in its slot, that holds the path.
  abbrev pub Chosen : Text → List (Mount S) → ℕ → ℕ → Mount S → Type 0
  Chosen path ms k i m = (j : ℕ) × (i ≡ k + j) × (get_elem? ms j ≡ some m) × (covers path m ≡ true)

  abbrev ChosenAt : Text → List (Mount S) → ℕ → ℕ × Mount S → Type 0
  ChosenAt path ms k (i, m) = Chosen path ms k i m

  next-Chosen :
      (path : Text) (i : ℕ) (m : Mount S) (best : Best S) {r : ℕ × Mount S}
      → next path i m best ≡ some r
      → (best ≡ some r) ⊎ (((i, m) ≡ r) × (covers path m ≡ true))
  next-Chosen path i m best {r} h =
      choose m.in_use (under m.prefix path) (is_longer m.prefix best) h
    where
      choose :
          (a u l : Bool)
          → (if a && u && l then some (i, m) else best) ≡ some r
          → (best ≡ some r) ⊎ (((i, m) ≡ r) × (a && u ≡ true))
      choose true true true h = inr (some_inj h, refl)
      choose true true false h = inl h
      choose true false l h = inl h
      choose false u l h = inl h

  pub longest-Chosen :
      (path : Text) (ms : List (Mount S)) (k : ℕ) (best : Best S) {i : ℕ} {m : Mount S}
      → longest path ms k best ≡ some (i, m)
      → (best ≡ some (i, m)) ⊎ Chosen path ms k i m
  unfolding longest
  longest-Chosen path [] k best h = inl h
  longest-Chosen path (m' ∷ ms) k best {i} {m} h =
      elim (longest-Chosen path ms (suc k) (next path k m' best) h) [
        | inl e ↦ elim (next-Chosen path k m' best e) [
          | inl b ↦ inl b
          | inr (p, c) ↦ inr (subst (ChosenAt path (m' ∷ ms) k) p (zero, omega arith, refl, c))
        ]
        | inr (j, e, g, c) ↦ inr (suc j, omega arith, g, c)
      ]

  longest-from :
      (path : Text) (ms : List (Mount S)) (k : ℕ) (b : ℕ × Mount S)
      → (r : ℕ × Mount S) × (longest path ms k (some b) ≡ some r)
  unfolding longest
  longest-from path [] k b = (b, refl)
  longest-from path (m ∷ ms) k b =
      choose (m.in_use && under m.prefix path && is_longer m.prefix (some b))
        (longest-from path ms (suc k))
    where
      choose :
          (t : Bool)
          → ((b : ℕ × Mount S) → (r : ℕ × Mount S) × (longest path ms (suc k) (some b) ≡ some r))
          → (r : ℕ × Mount S) × (longest path ms (suc k) (if t then some (k, m) else some b)
              ≡ some r)
      choose true rest = rest (k, m)
      choose false rest = rest b

  next-some :
      (path : Text) (k : ℕ) (m : Mount S) (best : Best S)
      → covers path m ≡ true
      → (b : ℕ × Mount S) × (next path k m best ≡ some b)
  next-some path k m none c = only m.in_use (under m.prefix path) c
    where
      only :
          (a u : Bool)
          → a && u ≡ true
          → (b : ℕ × Mount S) × ((if a && u && true then some (k, m) else none) ≡ some b)
      only true true c = ((k, m), refl)
      only true false c = absurd cc
      only false u c = absurd cc
  next-some path k m (some b) c =
      either (m.in_use && under m.prefix path && is_longer m.prefix (some b))
    where
      either : (t : Bool) → (r : ℕ × Mount S) × ((if t then some (k, m) else some b) ≡ some r)
      either true = ((k, m), refl)
      either false = (b, refl)

  -- With a mount that holds the path there is a result.
  pub longest-some :
      (path : Text) (ms : List (Mount S)) (k : ℕ) (best : Best S) (j : ℕ) {m : Mount S}
      → get_elem? ms j ≡ some m
      → covers path m ≡ true
      → (r : ℕ × Mount S) × (longest path ms k best ≡ some r)
  unfolding longest
  longest-some path [] k best j g c = absurd cc
  longest-some path (m' ∷ ms) k best zero g c =
      let (b, e) =
        next-some path k m' best
          (subst (λ (x : Mount S). covers path x ≡ true) (sym (some_inj g)) c) in
      let (r, f) = longest-from path ms (suc k) b in (r, ap (longest path ms (suc k)) e ∙ f)
  longest-some path (m' ∷ ms) k best (suc j) g c =
      longest-some path ms (suc k) (next path k m' best) j g c
