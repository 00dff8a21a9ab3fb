-- ===== src/Ramfs/Contents/Slots.antt =====
-- The change of one slot of the table of src/ramfs.c, by the contents of the names.
use computer_os.Prelude.{
  ℕ, zero, suc, ◌≡◌, refl, ap, subst, true, false, Option, none, some, List, [], ◌∷◌, if◌then◌else◌,
  arith, Bool-cases, inl, inr,
}
use computer_os.Vfs.Path.{Text}
use computer_os.Ramfs.{
  File, same, has_name, first_slot, find, is_unused, modify, drop_file, fill_file, new_file,
}
use computer_os.Ramfs.Contents.{
  contents, absent, sound, same-eq, absent-contents, first_slot-suc, first_slot-zero, over,
}

-- A slot with another name stays in front.
over-cons :
    (name : Text) (b : Option Text) (f : File) (fs : List File) (q : Text)
    → has_name name f ≡ false
    → (if has_name q f then f.bytes else over name b fs q) ≡ over name b (f ∷ fs) q
unfolding contents
over-cons name b f fs q h = elim (Bool-cases (same name q)) [
  | inl e ↦
      let g : has_name q f ≡ false = subst (λ n. has_name n f ≡ false) (same-eq name q e) h in
      rw (e, g) refl
  | inr e ↦ rw e refl
]

-- The change of the slot that `find` gives.
found-contents :
    (name : Text) (b : Option Text) (g : File → File) (fs : List File) {i : ℕ} (q : Text)
    → ((f : File) (rest : List File)
        → has_name name f ≡ true
        → contents (g f ∷ rest) q ≡ over name b (f ∷ rest) q)
    → find name fs ≡ some i
    → contents (modify i g fs) q ≡ over name b fs q
unfolding contents modify first_slot
found-contents name b g [] q s h = absurd cc
found-contents name b g (f ∷ fs) q s h = elim (Bool-cases (has_name name f)) [
  | inl e ↦ let z = first_slot-zero (has_name name) f fs e h in rw z (s f fs e)
  | inr e ↦
      let (j, z, k) = first_slot-suc (has_name name) f fs e h in
      rw z (rw (found-contents name b g fs q s k) (over-cons name b f fs q e))
]

-- The change of the slot that is unused.
unused-contents :
    (name : Text) (b : Option Text) (g : File → File) (fs : List File) {i : ℕ} (q : Text)
    → ((f : File) (rest : List File)
        → f.used ≡ false
        → contents (g f ∷ rest) q ≡ over name b (f ∷ rest) q)
    → absent name fs ≡ true
    → first_slot is_unused fs ≡ some i
    → contents (modify i g fs) q ≡ over name b fs q
unfolding contents modify absent first_slot
unused-contents name b g [] q s n h = absurd cc
unused-contents name b g (f ∷ fs) q s n h = elim (Bool-cases (is_unused f)) [
  | inl e ↦ let z = first_slot-zero is_unused f fs e h in rw z (s f fs (ground arith))
  | inr e ↦
      let (j, z, k) = first_slot-suc is_unused f fs e h in
      rw z (
        rw (unused-contents name b g fs q s (ground arith) k)
          (over-cons name b f fs q (ground arith)))
]

pub modify-modify :
    (i : ℕ) (g h : File → File) (fs : List File)
    → modify i g (modify i h fs) ≡ modify i (λ f. g (h f)) fs
unfolding modify
modify-modify i g h [] = refl
modify-modify zero g h (f ∷ fs) = refl
modify-modify (suc i) g h (f ∷ fs) = ap (λ (r : List File). f ∷ r) (modify-modify i g h fs)

-- A file that is filled.
pub fill-contents :
    (name b : Text) (fs : List File) {i : ℕ} (q : Text)
    → find name fs ≡ some i
    → contents (modify i (fill_file b) fs) q ≡ over name (some b) fs q
unfolding contents
fill-contents name b fs q =
    found-contents name (some b) (fill_file b) fs q
      λ f rest h. filled f rest (ground arith) (same-eq f.name name (ground arith))
  where
    filled :
        (f : File) (rest : List File)
        → f.used ≡ true
        → f.name ≡ name
        → contents (fill_file b f ∷ rest) q ≡ over name (some b) (f ∷ rest) q
    filled f rest u e = elim (Bool-cases (same name q)) [
      | inl s ↦ rw (u, e, s) refl
      | inr s ↦ rw (u, e, s) refl
    ]

pub fill-new-contents :
    (name b : Text) (fs : List File) {i : ℕ} (q : Text)
    → absent name fs ≡ true
    → first_slot is_unused fs ≡ some i
    → contents (modify i (fill_file b) (modify i (new_file name) fs)) q ≡ over name (some b) fs q
unfolding contents
fill-new-contents name b fs {i} q n h = rw (modify-modify i (fill_file b) (new_file name) fs) (
    unused-contents name (some b) (λ f. fill_file b (new_file name f)) fs q (λ f rest u. rw u refl)
      n h)

-- A slot that was unused, and is given up again.
pub drop-new-contents :
    (name : Text) (fs : List File) {i : ℕ} (q : Text)
    → absent name fs ≡ true
    → first_slot is_unused fs ≡ some i
    → contents (modify i drop_file (modify i (new_file name) fs)) q ≡ contents fs q
unfolding contents modify first_slot
drop-new-contents name fs {i} q n h = rw (modify-modify i drop_file (new_file name) fs) (kept fs h)
  where
    kept :
        (fs : List File) {i : ℕ}
        → first_slot is_unused fs ≡ some i
        → contents (modify i (λ f. drop_file (new_file name f)) fs) q ≡ contents fs q
    kept [] h = absurd cc
    kept (f ∷ fs) h = elim (Bool-cases (is_unused f)) [
      | inl e ↦
          let z = first_slot-zero is_unused f fs e h in
          let u : f.used ≡ false = ground arith in rw z (rw u refl)
      | inr e ↦ let (j, z, k) = first_slot-suc is_unused f fs e h in rw z (rw (kept fs k) refl)
    ]

-- A file that is dropped, when no other has its name.
pub drop-contents :
    (name : Text) (fs : List File) {i : ℕ} (q : Text)
    → sound fs ≡ true
    → find name fs ≡ some i
    → contents (modify i drop_file fs) q ≡ over name none fs q
unfolding contents modify first_slot sound
drop-contents name [] q s h = absurd cc
drop-contents name (f ∷ fs) q s h = elim (Bool-cases (has_name name f)) [
  | inl e ↦
      let z = first_slot-zero (has_name name) f fs e h in
      rw z (dropped (ground arith) (same-eq f.name name (ground arith)) (ground arith))
  | inr e ↦
      let (j, z, k) = first_slot-suc (has_name name) f fs e h in
      rw z (rw (drop-contents name fs q (ground arith) k) (over-cons name none f fs q e))
]
  where
    dropped :
        f.used ≡ true
        → f.name ≡ name
        → absent f.name fs ≡ true
        → contents fs q ≡ over name none (f ∷ fs) q
    dropped u e n = elim (Bool-cases (same name q)) [
      | inl s ↦ rw (s, ← same-eq name q s, ← e) (absent-contents f.name fs n)
      | inr s ↦ rw (u, e, s) refl
    ]
