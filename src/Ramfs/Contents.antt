-- ===== src/Ramfs/Contents.antt =====
-- The contents that a name has in the table of src/ramfs.c, and what a change of one slot does to them.
pub mod Read
pub mod Slots
pub mod Sound
pub mod Write
pub mod Delete
pub mod Move
use computer_os.Prelude.{
  ℕ, zero, suc, ◌+◌, ◌≤◌, ◌<◌, ◌≡◌, refl, sym, ap, ◌∙◌, subst, Bool, true, false, ◌&&◌, ◌||◌, not,
  Option, none, some, List, [], ◌∷◌, ◌++◌, ltb, leb, ◌==◌, if◌then◌else◌, length, take, bind, min,
  max, arith, Bool-cases, inl, inr, some_inj, bind-inversion, ◌↔◌,
}
use computer_os.Vfs.Path.{Text}
use computer_os.Ramfs.{
  File, same, has_name, first_slot, find, is_unused, modify, drop_file, fill_file, new_file,
  get_file,
}

-- The contents of the first file with this name.
unfoldable pub contents : List File → Text → Option Text
contents [] q = none
contents (f ∷ fs) q = if has_name q f then f.bytes else contents fs q

unfoldable pub absent : Text → List File → Bool
absent q [] = true
absent q (f ∷ fs) = not (has_name q f) && absent q fs

-- A file that is used has its bytes, as many as it says.
abbrev pub has_bytes : ℕ → Option Text → Bool
has_bytes n none = false
has_bytes n (some b) = n == length b

abbrev pub file_sound : File → Bool
file_sound f = not f.used || has_bytes f.size f.bytes

-- No two files have one name, and each has its bytes.
unfoldable pub sound : List File → Bool
sound [] = true
sound (f ∷ fs) = file_sound f && (not f.used || absent f.name fs) && sound fs

pub same_refl : (a : Text) → same a a ≡ true
unfolding same
same_refl [] = refl
same_refl (c ∷ a) = ground (arith, same_refl a)

pub same-eq : (a b : Text) → same a b ≡ true → a ≡ b
unfolding same
same-eq [] [] h = refl
same-eq [] (d ∷ b) h = absurd cc
same-eq (c ∷ a) [] h = absurd cc
same-eq (c ∷ a) (d ∷ b) h =
    let e : c ≡ d = ground arith in let f : a ≡ b = same-eq a b (ground arith) in rw (e, f) refl

pub absent-contents : (q : Text) (fs : List File) → absent q fs ≡ true → contents fs q ≡ none
unfolding absent contents
absent-contents q [] h = refl
absent-contents q (f ∷ fs) h =
    let e : has_name q f ≡ false = ground arith in rw e (absent-contents q fs (ground arith))

bind-none : (o : Option ℕ) → bind o (λ i. some (suc i)) ≡ none → o ≡ none
bind-none none h = refl
bind-none (some a) h = absurd cc

pub find-absent : (q : Text) (fs : List File) → find q fs ≡ none → absent q fs ≡ true
unfolding first_slot absent
find-absent q [] h = refl
find-absent q (f ∷ fs) h = elim (Bool-cases (has_name q f)) [
  | inl e ↦ let g : some zero ≡ none = rw e at h in absurd cc
  | inr e ↦ rw e (find-absent q fs (bind-none (first_slot (has_name q) fs) (rw e at h)))
]

-- A test that passes in no slot before the first one.
pub first_slot-suc :
    (test : File → Bool) (f : File) (fs : List File) {i : ℕ}
    → test f ≡ false
    → first_slot test (f ∷ fs) ≡ some i
    → (j : ℕ) × (i ≡ suc j) × (first_slot test fs ≡ some j)
unfolding first_slot
first_slot-suc test f fs e h =
    let (j, a, b) = bind-inversion (first_slot test fs) (λ i. some (suc i)) (rw e at h) in
    (j, sym (some_inj b), a)

pub first_slot-zero :
    (test : File → Bool) (f : File) (fs : List File) {i : ℕ}
    → test f ≡ true
    → first_slot test (f ∷ fs) ≡ some i
    → i ≡ zero
unfolding first_slot
first_slot-zero test f fs e h = sym (some_inj (rw e at h))

-- The contents that a file with this name has, if it comes first.
abbrev pub over : Text → Option Text → List File → Text → Option Text
over name b fs q = if same name q then b else contents fs q
