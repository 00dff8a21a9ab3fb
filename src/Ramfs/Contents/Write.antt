-- ===== src/Ramfs/Contents/Write.antt =====
-- `ramfs_write_file` of src/ramfs.c, by the contents of the names.
use computer_os.Prelude.{
  ℕ, ◌≤◌, ◌<◌, ◌≡◌, refl, sym, ◌∙◌, subst, Bool, true, false, Option, none, some, List, ltb, leb,
  if◌then◌else◌, length, take, max, arith, inl, inr, Option-cases, ◌⊎◌,
}
use computer_os.Vfs.Path.{Text}
use computer_os.Ramfs.{
  File, same, first_slot, find, is_unused, modify, drop_file, fill_file, new_file, store_in,
  store_at, ramfs_write_file, ramfs_read_file, bare, is_root, max_size, name_max,
}
use computer_os.Ramfs.Contents.{contents, absent, sound, same_refl, find-absent, over}
use computer_os.Ramfs.Contents.Slots.{
  modify-modify, fill-contents, fill-new-contents, drop-contents, drop-new-contents,
}
use computer_os.Ramfs.Contents.Read.{ramfs_read_file-contents}
use computer_os.Ramfs.Contents.Sound.{sound-fill, sound-drop, sound-fill-new, sound-drop-new}

-- A write that succeeds gives the name these contents; one that fails leaves those of the others.
abbrev pub Written : Text → Text → List File → Option ℕ × List File → Type 0
Written name b fs (some n, fs') =
    (n ≡ length b) × (sound fs' ≡ true) × ((q : Text) → contents fs' q ≡ over name (some b) fs q)
Written name b fs (none, fs') =
    (sound fs' ≡ true) × ((q : Text) → same name q ≡ false → contents fs' q ≡ contents fs q)

unchanged : (name b : Text) (fs : List File) → sound fs ≡ true → Written name b fs (none, fs)
unchanged name b fs s = (s, λ q n. refl)

store_in-found :
    (room : List File → ℕ → Bool) (name b : Text) (i : ℕ) (fs : List File)
    → sound fs ≡ true
    → find name fs ≡ some i
    → Written name b fs (store_in room b i fs)
store_in-found room name b i fs s h =
    choose (room (modify i (λ f. record f { bytes = none }) fs) (max (length b) 1))
  where
    choose :
        (r : Bool)
        → Written name b fs (
            if r
            then (some (length b), modify i (fill_file b) fs)
            else (none, modify i drop_file fs))
    choose true = (refl, sound-fill i b fs s, λ q. fill-contents name b fs q h)
    choose false = (sound-drop i fs s, λ q n. drop-contents name fs q s h ∙ rw n refl)

store_in-new :
    (room : List File → ℕ → Bool) (name b : Text) (i : ℕ) (fs : List File)
    → sound fs ≡ true
    → absent name fs ≡ true
    → first_slot is_unused fs ≡ some i
    → Written name b fs (store_in room b i (modify i (new_file name) fs))
store_in-new room name b i fs s n h = choose (
    room (modify i (λ f. record f { bytes = none }) (modify i (new_file name) fs))
      (max (length b) 1))
  where
    choose :
        (r : Bool)
        → Written name b fs (
            if r
            then (some (length b), modify i (fill_file b) (modify i (new_file name) fs))
            else (none, modify i drop_file (modify i (new_file name) fs)))
    choose true = (
      refl,
      rw (modify-modify i (fill_file b) (new_file name) fs) (sound-fill-new name b fs n h s),
      λ q. fill-new-contents name b fs q n h,
    )
    choose false = (
      rw (modify-modify i drop_file (new_file name) fs) (sound-drop-new i name fs s),
      λ q d. drop-new-contents name fs q n h,
    )

store_at-Written :
    (room : List File → ℕ → Bool) (name b : Text) (fs : List File)
    → sound fs ≡ true
    → Written name b fs (store_at room name b (find name fs) fs)
store_at-Written room name b fs s = elim (Option-cases (find name fs)) [
  | inl e ↦ elim (Option-cases (first_slot is_unused fs)) [
    | inl u ↦ rw (e, u) (unchanged name b fs s)
    | inr (i, u) ↦ rw (e, u) (store_in-new room name b i fs s (find-absent name fs e) u)
  ]
  | inr (i, e) ↦ rw e (store_in-found room name b i fs s e)
]

-- On a sound table, where no two files have one name and each has its bytes, `ramfs_write_file`
-- leaves a sound table. When it succeeds its result is the length and exactly the name of the path
-- has the new contents; when it fails every other name keeps its contents.
pub ramfs_write_file-Written :
    (room : List File → ℕ → Bool) (path b : Text) (fs : List File)
    → sound fs ≡ true
    → Written (bare path) b fs (ramfs_write_file room path b fs)
unfolding ramfs_write_file
ramfs_write_file-Written room path b fs s =
    guarded (is_root path) (ltb max_size (length b)) (leb name_max (length (bare path)))
  where
    guarded :
        (r l n : Bool)
        → Written (bare path) b fs (
            if r
            then (none, fs)
            else if l
            then (none, fs)
            else if n
            then (none, fs)
            else store_at room (bare path) b (find (bare path) fs) fs)
    guarded true l n = unchanged (bare path) b fs s
    guarded false true n = unchanged (bare path) b fs s
    guarded false false true = unchanged (bare path) b fs s
    guarded false false false = store_at-Written room (bare path) b fs s

-- A slot for the name: that of the file with the name, or a free one.
abbrev pub HasSlot : Text → List File → Type 0
HasSlot name fs =
    ((i : ℕ) × (find name fs ≡ some i)) ⊎ ((i : ℕ) × (first_slot is_unused fs ≡ some i))

store_at-succeeds :
    (room : List File → ℕ → Bool) (name b : Text) (fs : List File)
    → ((gs : List File) (n : ℕ) → room gs n ≡ true)
    → HasSlot name fs
    → (fs' : List File) × (store_at room name b (find name fs) fs ≡ (some (length b), fs'))
store_at-succeeds room name b fs m h = elim (Option-cases (find name fs)) [
  | inl e ↦ elim h [
    | inl (i, k) ↦ absurd (none_some (sym e ∙ k))
    | inr (i, u) ↦ rw (e, u, m) (_, refl)
  ]
  | inr (i, e) ↦ rw (e, m) (_, refl)
]
  where
    none_some : {i : ℕ} → ¬ (none ≡ some i)
    none_some h = absurd cc

-- With a name, a size and a slot that fit, and memory, the write succeeds and is read back.
pub ramfs_write_file-read :
    (room : List File → ℕ → Bool) (path b : Text) (m : ℕ) (fs : List File)
    → sound fs ≡ true
    → ((gs : List File) (n : ℕ) → room gs n ≡ true)
    → is_root path ≡ false
    → length b ≤ max_size
    → length (bare path) < name_max
    → HasSlot (bare path) fs
    → (fs' : List File) × (ramfs_write_file room path b fs ≡ (some (length b), fs'))
      × (ramfs_read_file path m fs' ≡ (some (take m b), fs'))
unfolding ramfs_write_file
ramfs_write_file-read room path b m fs s k r l n h =
    let (fs', e) = store_at-succeeds room (bare path) b fs k h in
    let l' : ltb max_size (length b) ≡ false = ground arith in
    let n' : leb name_max (length (bare path)) ≡ false = ground arith in
    let (z, s', c) =
      subst (Written (bare path) b fs) e (store_at-Written room (bare path) b fs s) in
    (
      fs',
      rw (r, l', n') e,
      ramfs_read_file-contents path m fs' s' r ∙ rw (c (bare path), same_refl (bare path)) refl,
    )
