-- ===== src/Vfs/Mount.antt =====
-- The mount table of src/vfs.c, and the routing of a path to the file system that holds it.
--
-- `S` is what the file systems keep. A negative result of an operation is `none`.
pub mod Longest
pub mod Route
use computer_os.Prelude.{
  ℕ, zero, suc, ◌+◌, Bool, true, false, ◌&&◌, ◌||◌, not, Option, none, some, List, [], ◌∷◌, ◌++◌,
  ltb, leb, ◌==◌, if◌then◌else◌, length, drop, replicate, get_elem?, bind,
}
use computer_os.Vfs.Path.{Text, slash, path_size, starts_with_slash, is_empty, vfs_resolve}

pub record Dirent : Type 0 where
  pub name : Text
  pub size : ℕ
  pub first_cluster : ℕ
  pub attr : ℕ

-- `vfs_ops_t`; an operation that is NULL is `none`.
pub record Ops (S : Type 0) : Type 0 where
  pub list : Option (Text → ℕ → S → Option (List Dirent) × S)
  pub is_dir : Option (Text → S → Bool)
  pub read_file : Option (Text → ℕ → S → Option Text × S)
  pub read_file_at : Option (Text → ℕ → ℕ → S → Option Text × S)
  pub write_file : Option (Text → Text → S → Option ℕ × S)
  pub delete_file : Option (Text → S → Option ℕ × S)
  pub mkdir : Option (Text → S → Option ℕ × S)
  pub rmdir : Option (Text → S → Option ℕ × S)
  pub cp : Option (Text → Text → S → Option ℕ × S)
  pub mv : Option (Text → Text → S → Option ℕ × S)
  pub link : Option (Text → Text → S → Option ℕ × S)
  pub chmod : Option (Text → ℕ → S → Option ℕ × S)
  pub chown : Option (Text → ℕ → ℕ → S → Option ℕ × S)

abbrev pub no_ops : {S : Type 0} → Ops S
no_ops = record {
  list = none;
  is_dir = none;
  read_file = none;
  read_file_at = none;
  write_file = none;
  delete_file = none;
  mkdir = none;
  rmdir = none;
  cp = none;
  mv = none;
  link = none;
  chmod = none;
  chown = none;
}

pub record Mount (S : Type 0) : Type 0 where
  pub prefix : Text
  pub ops : Ops S
  pub name : Text
  pub in_use : Bool

-- The mount table, the working directory, and what the file systems keep.
pub record Vfs (S : Type 0) : Type 0 where
  pub mounts : List (Mount S)
  pub cwd : Text
  pub files : S

abbrev pub max_mounts : ℕ
max_mounts = 12

module _ {S : Type 0} where
  unfoldable pub vfs_init : Vfs S → Vfs S
  vfs_init v = record v {
    mounts = replicate max_mounts (record { prefix = []; ops = no_ops; name = []; in_use = false });
    cwd = slash ∷ [];
  }

  -- The first slot that is not in use.
  unfoldable pub mount_in : Mount S → List (Mount S) → Option (List (Mount S))
  mount_in m [] = none
  mount_in m (s ∷ ss) =
      let rest = mount_in m ss in
      if not s.in_use then some (m ∷ ss) else bind rest λ ss. some (s ∷ ss)

  unfoldable pub vfs_mount : Text → Ops S → Text → Vfs S → Option (Vfs S)
  vfs_mount prefix ops name v =
      bind (mount_in (record { prefix = prefix; ops = ops; name = name; in_use = true }) v.mounts)
        λ ms. some (record v { mounts = ms })

  unfoldable pub count_in : List (Mount S) → ℕ
  count_in [] = 0
  count_in (m ∷ ms) = (if m.in_use then 1 else 0) + count_in ms

  abbrev pub vfs_mount_count : Vfs S → ℕ
  vfs_mount_count v = count_in v.mounts

  abbrev pub vfs_mount_at : ℕ → Vfs S → Option (Mount S)
  vfs_mount_at i v = bind (get_elem? v.mounts i) λ m. if m.in_use then some m else none

-- `strcmp` and `strncmp`: what follows the prefix.
unfoldable pub strip : Text → Text → Option Text
strip [] path = some path
strip (c ∷ p) [] = none
strip (c ∷ p) (d ∷ path) = let rest = strip p path in if c == d then rest else none

abbrev pub is_slash : Text → Bool
is_slash (c ∷ []) = c == slash
is_slash _ = false

abbrev pub ends_name : Option Text → Bool
ends_name none = false
ends_name (some rest) = is_empty rest || starts_with_slash rest

unfoldable pub under : Text → Text → Bool
under prefix path = if is_slash prefix then true else ends_name (strip prefix path)

-- The copy of the rest of the path behind `o` characters of `sub`.
unfoldable pub copy_rest : ℕ → ℕ → Text → Option Text
copy_rest subsz o [] = some []
copy_rest subsz o (c ∷ s) =
    let rest = copy_rest subsz (o + 1) s in
    if leb subsz (o + 1) then none else bind rest λ r. some (c ∷ r)

unfoldable pub sub_path : ℕ → Text → Option Text
sub_path subsz rest =
    if is_empty rest
    then some (slash ∷ [])
    else if starts_with_slash rest
    then copy_rest subsz 0 rest
    else if ltb subsz 2
    then none
    else bind (copy_rest subsz 1 rest) λ r. some (slash ∷ r)

-- The longest prefix so far, with its slot.
abbrev pub Best : Type 0 → Type 0
Best S = Option (ℕ × Mount S)

module _ {S : Type 0} where
  abbrev pub is_longer : Text → Best S → Bool
  is_longer prefix none = true
  is_longer prefix (some (j, m)) = ltb (length m.prefix) (length prefix)

  unfoldable pub longest : Text → List (Mount S) → ℕ → Best S → Best S
  longest path [] i best = best
  longest path (m ∷ ms) i best =
      longest path ms (suc i)
        (if m.in_use && under m.prefix path && is_longer m.prefix best then some (i, m) else best)

  abbrev pub rest_of : Mount S → Text → Text
  rest_of m path = if is_slash m.prefix then path else drop (length m.prefix) path

  abbrev pub sub_of : Text → ℕ → ℕ × Mount S → Option (ℕ × Ops S × Text)
  sub_of path subsz (i, m) = bind (sub_path subsz (rest_of m path)) λ sub. some (i, m.ops, sub)

  unfoldable pub route : List (Mount S) → Text → ℕ → Option (ℕ × Ops S × Text)
  route ms path subsz = bind (longest path ms 0 none) (sub_of path subsz)

  unfoldable pub resolve_route : Vfs S → Text → Option (ℕ × Ops S × Text)
  resolve_route v path =
      bind (vfs_resolve v.cwd path path_size) λ abspath. route v.mounts abspath path_size
