-- ===== src/Ramfs/Contents/Sound.antt =====
-- The changes of one slot of the table of src/ramfs.c keep it sound.
use computer_os.Prelude.{
  ℕ, zero, suc, ◌≡◌, refl, ap, subst, Bool, true, false, ◌&&◌, ◌||◌, not, some, List, [], ◌∷◌,
  length, arith, Bool-cases, inl, inr,
}
use computer_os.Vfs.Path.{Text}
use computer_os.Ramfs.{
  File, same, has_name, first_slot, is_unused, modify, drop_file, fill_file, new_file,
}
use computer_os.Ramfs.Contents.{
  absent, sound, file_sound, same_refl, same-eq, first_slot-suc, first_slot-zero,
}

absent-modify :
    (q : Text) (i : ℕ) (g : File → File) (fs : List File)
    → ((f : File) → has_name q f ≡ false → has_name q (g f) ≡ false)
    → absent q fs ≡ true
    → absent q (modify i g fs) ≡ true
unfolding absent modify
absent-modify q i g [] k h = refl
absent-modify q zero g (f ∷ fs) k h =
    let e : has_name q (g f) ≡ false = k f (ground arith) in rw e (ground arith)
absent-modify q (suc i) g (f ∷ fs) k h =
    let e : has_name q f ≡ false = ground arith in rw e (absent-modify q i g fs k (ground arith))

-- A change that gives no slot another name.
sound-modify :
    (i : ℕ) (g : File → File) (fs : List File)
    → ((q : Text) (f : File) → has_name q f ≡ false → has_name q (g f) ≡ false)
    → ((f : File) (rest : List File) → sound (f ∷ rest) ≡ true → sound (g f ∷ rest) ≡ true)
    → sound fs ≡ true
    → sound (modify i g fs) ≡ true
unfolding sound modify
sound-modify i g [] k a h = refl
sound-modify zero g (f ∷ fs) k a h = a f fs h
sound-modify (suc i) g (f ∷ fs) k a h =
    let r : sound (modify i g fs) ≡ true = sound-modify i g fs k a (ground arith) in
    elim (Bool-cases f.used) [
      | inl u ↦
          let n : absent f.name (modify i g fs) ≡ true =
            absent-modify f.name i g fs (k f.name) (ground arith) in
          ground arith
      | inr u ↦ ground arith
    ]

and_true : {a b c : Bool} → a ≡ true → b ≡ true → c ≡ true → a && b && c ≡ true
and_true h i j = ground (arith, h, i, j)

sound-cons :
    (f : File) (fs : List File)
    → file_sound f ≡ true
    → (not f.used || absent f.name fs) ≡ true
    → sound fs ≡ true
    → sound (f ∷ fs) ≡ true
unfolding sound
sound-cons f fs h i j = and_true h i j

sound-names :
    (f : File) (fs : List File) → sound (f ∷ fs) ≡ true → (not f.used || absent f.name fs) ≡ true
unfolding sound
sound-names f fs h = ground arith

sound-tail : (f : File) (fs : List File) → sound (f ∷ fs) ≡ true → sound fs ≡ true
unfolding sound
sound-tail f fs h = ground arith

sound-head : (f : File) (fs : List File) → sound (f ∷ fs) ≡ true → file_sound f ≡ true
unfolding sound
sound-head f fs h = ground arith

filled-file_sound : (b : Text) (f : File) → file_sound (fill_file b f) ≡ true
filled-file_sound b f = ground arith

pub sound-fill :
    (i : ℕ) (b : Text) (fs : List File) → sound fs ≡ true → sound (modify i (fill_file b) fs) ≡ true
sound-fill i b fs =
    sound-modify i (fill_file b) fs (λ q f h. h)
      λ f rest h.
        sound-cons (fill_file b f) rest (filled-file_sound b f) (sound-names f rest h)
          (sound-tail f rest h)

pub sound-drop : (i : ℕ) (fs : List File) → sound fs ≡ true → sound (modify i drop_file fs) ≡ true
sound-drop i fs =
    sound-modify i drop_file fs (λ q f h. refl)
      λ f rest h. sound-cons (drop_file f) rest refl refl (sound-tail f rest h)

same-false :
    (name : Text) (f : File) → f.used ≡ true → has_name name f ≡ false → same name f.name ≡ false
same-false name f u h = elim (Bool-cases (same name f.name)) [
  | inl e ↦
      let r : has_name f.name f ≡ false =
        subst (λ n. has_name n f ≡ false) (same-eq name f.name e) h in
      ground (arith, same_refl f.name)
  | inr e ↦ e
]

-- An unused slot that takes a new name.
pub sound-fill-new :
    (name b : Text) (fs : List File) {i : ℕ}
    → absent name fs ≡ true
    → first_slot is_unused fs ≡ some i
    → sound fs ≡ true
    → sound (modify i (λ f. fill_file b (new_file name f)) fs) ≡ true
unfolding modify absent first_slot
sound-fill-new name b [] n h s = absurd cc
sound-fill-new name b (f ∷ fs) n h s = elim (Bool-cases (is_unused f)) [
  | inl e ↦
      let z = first_slot-zero is_unused f fs e h in
      rw z (
        sound-cons (fill_file b (new_file name f)) fs (filled-file_sound b (new_file name f))
          (ground arith) (sound-tail f fs s))
  | inr e ↦
      let (j, z, k) = first_slot-suc is_unused f fs e h in
      let u : f.used ≡ true = ground arith in
      let d : same name f.name ≡ false = same-false name f u (ground arith) in
      let o : absent f.name fs ≡ true = ground (arith, sound-names f fs s) in
      let a : absent f.name (modify j (λ f. fill_file b (new_file name f)) fs) ≡ true =
        absent-modify f.name j (λ f. fill_file b (new_file name f)) fs (λ g h. d) o in
      rw z (
        sound-cons f (modify j (λ f. fill_file b (new_file name f)) fs) (sound-head f fs s)
          (rw (u, a) refl) (sound-fill-new name b fs (ground arith) k (sound-tail f fs s)))
]

pub length-modify : (i : ℕ) (g : File → File) (fs : List File) → length (modify i g fs) ≡ length fs
unfolding modify
length-modify i g [] = refl
length-modify zero g (f ∷ fs) = refl
length-modify (suc i) g (f ∷ fs) = ap suc (length-modify i g fs)

pub sound-drop-new :
    (i : ℕ) (name : Text) (fs : List File)
    → sound fs ≡ true
    → sound (modify i (λ f. drop_file (new_file name f)) fs) ≡ true
sound-drop-new i name fs =
    sound-modify i (λ f. drop_file (new_file name f)) fs (λ q f h. refl)
      λ f rest h. sound-cons (drop_file (new_file name f)) rest refl refl (sound-tail f rest h)
