-- ===== src/Ramfs.antt =====
-- The RAM file system of src/ramfs.c: a table of 64 files, whose contents are on the kernel heap.
pub mod Contents
mod Mounted
mod Tests
use computer_os.Prelude.{
  ℕ, zero, suc, ◌+◌, ◌*◌, Bool, true, false, ◌&&◌, ◌||◌, not, Option, none, some, List, [], ◌∷◌,
  ◌++◌, ltb, leb, ◌==◌, if◌then◌else◌, length, take, replicate, bind, min, max, ◌-◌,
}
use computer_os.Vfs.Path.{Text, slash, starts_with_slash, is_empty}
use computer_os.Vfs.Mount.{Dirent, Ops, no_ops}

abbrev pub max_files : ℕ
max_files = 64

-- 4 MB, `RAMFS_MAX_SIZE`.
abbrev pub max_size : ℕ
max_size = 4194304

abbrev pub name_max : ℕ
name_max = 256

-- `bytes` is `none` when `data` is NULL.
pub record File : Type 0 where
  pub used : Bool
  pub name : Text
  pub size : ℕ
  pub bytes : Option Text

-- What `ramfs_init` makes of each slot.
abbrev pub clear : File → File
clear f = record f { used = false; bytes = none }

unfoldable pub ramfs_init : List File → List File
ramfs_init [] = []
ramfs_init (f ∷ fs) = clear f ∷ ramfs_init fs

abbrev pub bare : Text → Text
bare [] = []
bare (c ∷ path) = if c == slash then path else c ∷ path

abbrev pub is_root : Text → Bool
is_root path = is_empty (bare path)

-- `strcmp(a, b) == 0`.
unfoldable pub same : Text → Text → Bool
same [] [] = true
same [] (d ∷ b) = false
same (c ∷ a) [] = false
same (c ∷ a) (d ∷ b) = (c == d) && same a b

-- The file in a slot has this name.
abbrev pub has_name : Text → File → Bool
has_name name f = f.used && same f.name name

-- The first slot that passes a test.
unfoldable pub first_slot : (File → Bool) → List File → Option ℕ
first_slot test [] = none
first_slot test (f ∷ fs) =
    let rest = first_slot test fs in if test f then some zero else bind rest λ i. some (suc i)

abbrev pub find : Text → List File → Option ℕ
find name fs = first_slot (has_name name) fs

abbrev pub is_unused : File → Bool
is_unused f = not f.used

unfoldable pub modify : ℕ → (File → File) → List File → List File
modify i g [] = []
modify zero g (f ∷ fs) = g f ∷ fs
modify (suc i) g (f ∷ fs) = f ∷ modify i g fs

abbrev pub entry_of : File → Dirent
entry_of f = record {
  name = take (name_max - 1) f.name;
  size = f.size;
  first_cluster = 0;
  attr = 0;
}

-- The entries of the used slots, `m` at most.
unfoldable pub list_files : List File → ℕ → List Dirent
list_files [] m = []
list_files (f ∷ fs) zero = []
list_files (f ∷ fs) (suc m) = elim f.used [
  | true ↦ entry_of f ∷ list_files fs m
  | false ↦ list_files fs (suc m)
]

unfoldable pub ramfs_list : Text → ℕ → List File → Option (List Dirent) × List File
ramfs_list path m fs = (if is_root path then some (list_files fs m) else none, fs)

abbrev pub ramfs_is_dir : Text → List File → Bool
ramfs_is_dir path fs = is_root path

unfoldable pub get_file : List File → ℕ → Option File
get_file [] i = none
get_file (f ∷ fs) zero = some f
get_file (f ∷ fs) (suc i) = get_file fs i

-- The copy of the contents, cut at `m`.
abbrev pub read_of : ℕ → File → Option Text
read_of m f = bind f.bytes λ b. some (take (if ltb f.size m then f.size else m) b)

unfoldable pub ramfs_read_file : Text → ℕ → List File → Option Text × List File
ramfs_read_file path m fs = (
  if is_root path then none else bind (find (bare path) fs) (λ i. bind (get_file fs i) (read_of m)),
  fs,
)

abbrev pub new_file : Text → File → File
new_file name f = record { used = true; name = name; size = 0; bytes = none }

abbrev pub fill_file : Text → File → File
fill_file b f = record f { size = length b; bytes = some b }

abbrev pub drop_file : File → File
drop_file f = record f { used = false; bytes = none }

-- `kmalloc` has the memory, after the old contents were freed, or the slot is given up.
abbrev pub store_in : (List File → ℕ → Bool) → Text → ℕ → List File → Option ℕ × List File
store_in room b i fs =
    if room (modify i (λ f. record f { bytes = none }) fs) (max (length b) 1)
    then (some (length b), modify i (fill_file b) fs)
    else (none, modify i drop_file fs)

abbrev pub store_new :
    (List File → ℕ → Bool) → Text → Text → Option ℕ → List File → Option ℕ × List File
store_new room name b none fs = (none, fs)
store_new room name b (some i) fs = store_in room b i (modify i (new_file name) fs)

abbrev pub store_at :
    (List File → ℕ → Bool) → Text → Text → Option ℕ → List File → Option ℕ × List File
store_at room name b (some i) fs = store_in room b i fs
store_at room name b none fs = store_new room name b (first_slot is_unused fs) fs

-- `room fs n` says whether `kmalloc(n)` finds memory while the files are `fs`.
unfoldable pub ramfs_write_file :
    (List File → ℕ → Bool) → Text → Text → List File → Option ℕ × List File
ramfs_write_file room path b fs =
    if is_root path
    then (none, fs)
    else if ltb max_size (length b)
    then (none, fs)
    else if leb name_max (length (bare path))
    then (none, fs)
    else store_at room (bare path) b (find (bare path) fs) fs

abbrev pub delete_at : Option ℕ → List File → Option ℕ × List File
delete_at none fs = (none, fs)
delete_at (some i) fs = (some 0, modify i drop_file fs)

unfoldable pub ramfs_delete_file : Text → List File → Option ℕ × List File
ramfs_delete_file path fs = if is_root path then (none, fs) else delete_at (find (bare path) fs) fs

abbrev pub ramfs_mkdir : Text → List File → Option ℕ × List File
ramfs_mkdir path fs = (none, fs)

abbrev pub ramfs_rmdir : Text → List File → Option ℕ × List File
ramfs_rmdir path fs = (none, fs)

-- The buffer that is copied: that of the destination is freed before it is read.
abbrev pub source_bytes : (Text → Text) → Text → Text → Text → Text
source_bytes freed src dst b = if same (bare src) (bare dst) then freed b else b

abbrev pub write_copy :
    (List File → ℕ → Bool)
    → (Text → Text)
    → Text
    → Text
    → Option Text
    → List File
    → Option ℕ × List File
write_copy room freed src dst none fs = (none, fs)
write_copy room freed src dst (some b) fs =
    ramfs_write_file room dst (source_bytes freed src dst b) fs

-- `freed b` is what the contents `b` are after `kfree` and the next `kmalloc`.
unfoldable pub ramfs_cp :
    (List File → ℕ → Bool) → (Text → Text) → Text → Text → List File → Option ℕ × List File
ramfs_cp room freed src dst fs =
    write_copy room freed src dst
      (bind (find (bare src) fs)
        λ i. bind (get_file fs i) λ f. bind f.bytes λ b. some (take f.size b))
      fs

abbrev pub delete_after : Text → Option ℕ × List File → Option ℕ × List File
delete_after src (none, fs) = (none, fs)
delete_after src (some n, fs) = ramfs_delete_file src fs

unfoldable pub ramfs_mv :
    (List File → ℕ → Bool) → (Text → Text) → Text → Text → List File → Option ℕ × List File
ramfs_mv room freed src dst fs = delete_after src (ramfs_cp room freed src dst fs)

-- `ramfs_ops`.
abbrev pub ramfs_vfs_ops : (List File → ℕ → Bool) → (Text → Text) → Ops (List File)
ramfs_vfs_ops room freed = record no_ops {
  list = some ramfs_list;
  is_dir = some ramfs_is_dir;
  read_file = some ramfs_read_file;
  write_file = some (ramfs_write_file room);
  delete_file = some ramfs_delete_file;
  mkdir = some ramfs_mkdir;
  rmdir = some ramfs_rmdir;
  cp = some (ramfs_cp room freed);
  mv = some (ramfs_mv room freed);
}
