-- ===== src/Ramfs/Contents/Delete.antt =====
-- `ramfs_delete_file` of src/ramfs.c, by the contents of the names.
use computer_os.Prelude.{
  ℕ, ◌≡◌, refl, true, Option, none, some, List, Bool-cases, inl, inr, Option-cases, ◌⊎◌,
}
use computer_os.Vfs.Path.{Text}
use computer_os.Ramfs.{File, find, ramfs_delete_file, bare, is_root}
use computer_os.Ramfs.Contents.{contents, sound, find-absent, absent-contents, over}
use computer_os.Ramfs.Contents.Slots.{drop-contents}
use computer_os.Ramfs.Contents.Sound.{sound-drop}

-- A name that was deleted has no contents; one that was not there changes nothing.
abbrev pub Deleted : Text → List File → Option ℕ × List File → Type 0
Deleted path fs (some n, fs') =
    (n ≡ 0) × (sound fs' ≡ true) × ((q : Text) → contents fs' q ≡ over (bare path) none fs q)
Deleted path fs (none, fs') =
    (fs' ≡ fs) × ((is_root path ≡ true) ⊎ (contents fs (bare path) ≡ none))

-- On a sound table `ramfs_delete_file` either leaves a sound table, in which the name has no
-- contents and the others have theirs, or fails, for the root and for a name without contents, and
-- changes nothing.
pub ramfs_delete_file-Deleted :
    (path : Text) (fs : List File) → sound fs ≡ true → Deleted path fs (ramfs_delete_file path fs)
unfolding ramfs_delete_file
ramfs_delete_file-Deleted path fs s = elim (Bool-cases (is_root path)) [
  | inl r ↦ rw r (refl, inl r)
  | inr r ↦ elim (Option-cases (find (bare path) fs)) [
    | inl e ↦ rw (r, e) (refl, inr (absent-contents (bare path) fs (find-absent (bare path) fs e)))
    | inr (i, e) ↦ rw (r, e) (refl, sound-drop i fs s, λ q. drop-contents (bare path) fs q s e)
  ]
]
