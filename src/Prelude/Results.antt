-- ===== src/Prelude/Results.antt =====
-- The chain of two calls, the first of which may fail.
use mathlib.Core.Path.{◌≡◌, refl}
use mathlib.Core.Option.{Option, none, some}

abbrev pub bind : {A B : Type 0} → Option A → (A → Option B) → Option B
bind none k = none
bind (some a) k = k a

pub bind-inversion :
    {A B : Type 0} (o : Option A) (k : A → Option B) {b : B}
    → bind o k ≡ some b
    → (a : A) × (o ≡ some a) × (k a ≡ some b)
bind-inversion none k e = absurd cc
bind-inversion (some a) k e = (a, refl, e)

pub bind_cong :
    {A B : Type 0} (o : Option A) (f g : A → Option B) → ((a : A) → f a ≡ g a) → bind o f ≡ bind o g
bind_cong none f g e = refl
bind_cong (some a) f g e = e a

pub bind-some : {A : Type 0} (o : Option A) → bind o some ≡ o
bind-some none = refl
bind-some (some a) = refl

-- A result that is mapped before the second call.
pub bind-map :
    {A B C : Type 0} (o : Option A) (f : A → B) (g : B → Option C) (h : A → Option C)
    → ((a : A) → g (f a) ≡ h a)
    → bind (bind o (λ r. some (f r))) g ≡ bind o h
bind-map none f g h e = refl
bind-map (some a) f g h e = e a

-- Two runs step by step, one on what `f` shows of the states of the other.
pub bind-simulates :
    {A B C : Type 0} (o : Option A) (f : A → B) (g : B → Option C) (h : A → Option A) (k : A → C)
    → ((a : A) → g (f a) ≡ bind (h a) (λ r. some (k r)))
    → bind (bind o (λ r. some (f r))) g ≡ bind (bind o h) (λ r. some (k r))
bind-simulates none f g h k e = refl
bind-simulates (some a) f g h k e = e a
