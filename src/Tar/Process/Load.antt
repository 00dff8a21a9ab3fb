-- ===== src/Tar/Process/Load.antt =====
-- `tar_load_and_process` of src/tar.c, on an archive that may be compressed.
use computer_os.Prelude.{
  ℕ, ◌+◌, ◌-◌, ◌*◌, ◌/◌, Bool, true, false, ◌&&◌, ◌||◌, not, Option, none, some, List, [], ◌∷◌, ltb,
  leb, ◌==◌, if◌then◌else◌, length, take, drop, get_or, min, codes, ℤ, pos, negsuc,
}
use computer_os.Vfs.Path.{Text, slash, is_empty}
use computer_os.Vfs.Mount.{Vfs, Dirent}
use computer_os.Vfs.Ops.{vfs_list, vfs_read_file}
use computer_os.Inflate.Run.{Run, done, failed, out_of_fuel}
use computer_os.Inflate.Output.{OutBuf}
use computer_os.Inflate.Gzip.{inflate_gzip, inflate_gzip_size}
use computer_os.Tar.Paths.{before_slash}
use computer_os.Tar.Process.{Walked, tar_loop, start}

abbrev pub tar_max_size : ℕ
tar_max_size = 4 * 1024 * 1024

abbrev pub upper : ℕ → ℕ
upper c = if leb b'a' c && leb c b'z' then c - 32 else c

-- Equal but for the case of letters.
unfoldable pub same_ci : Text → Text → Bool
same_ci [] [] = true
same_ci [] (d ∷ b) = false
same_ci (c ∷ a) [] = false
same_ci (c ∷ a) (d ∷ b) = (upper c == upper d) && same_ci a b

unfoldable pub ends_with_ci : Text → Text → Bool
ends_with_ci name suffix =
    if ltb (length name) (length suffix)
    then false
    else same_ci (drop (length name - length suffix) name) suffix

-- The directory of the archive, and its name in it.
abbrev pub parent_of : Option Text → Text
parent_of none = slash ∷ []
parent_of (some p) = if is_empty p then slash ∷ [] else take 254 p

abbrev pub base_of : Option Text → Text → Text
base_of none path = path
base_of (some p) path = drop (length p + 1) path

-- The size of the first entry with the name that is not empty.
unfoldable pub listed_size : Text → List Dirent → ℕ
listed_size base [] = tar_max_size
listed_size base (e ∷ es) =
    let rest = listed_size base es in if same_ci e.name base && ltb 0 e.size then e.size else rest

abbrev pub of_list : Text → Option (List Dirent) → ℕ
of_list base none = tar_max_size
of_list base (some es) = min (listed_size base es) tar_max_size

abbrev pub is_gzip : Text → Text → Bool
is_gzip path buf =
    (leb 2 (length buf) && (get_or buf 0 0 == 0x1F) && (get_or buf 1 0 == 0x8B))
    || ends_with_ci path (codes ".tar.gz")
    || ends_with_ci path (codes ".tgz")

-- The result -1, or that of the walk.
pub data Loaded (S : Type 0) : Type 0 where
  refused : Vfs S → Loaded S
  processed : Walked S → Loaded S

-- The memory that the three calls of `kmalloc` find, and what the third returns.
pub record Memory : Type 0 where
  pub for_entries : Bool
  pub for_archive : Bool
  pub for_raw : Bool
  pub raw : ℕ → Text

module _ {S : Type 0} where
  abbrev pub sized : Text → Option (List Dirent) × Vfs S → ℕ × Vfs S
  sized path (es, v) = (of_list (base_of (before_slash path) path) es, v)

  -- The size to allocate, and the file systems after the listing.
  abbrev pub lookup_size : Bool → Text → Vfs S → ℕ × Vfs S
  lookup_size room path v =
      if room then sized path (vfs_list (parent_of (before_slash path)) 64 v) else (tar_max_size, v)

  -- Every entry but a wrong one takes a block at least.
  unfoldable pub tar_process : Text → Text → Bool → Vfs S → Walked S
  tar_process d dst extract v = tar_loop (length d / 512 + 2) d dst extract (start v)

  -- A decoder that fails; it always ends.
  abbrev pub process_raw : Run (ℤ × OutBuf) → Text → Bool → Vfs S → Loaded S
  process_raw (done (pos n, out)) dst extract v =
      processed (tar_process (take n out.buf) dst extract v)
  process_raw (done (negsuc n, out)) dst extract v = refused v
  process_raw failed dst extract v = refused v
  process_raw out_of_fuel dst extract v = refused v

  abbrev pub process_gzip : Memory → Text → Text → Bool → Vfs S → Loaded S
  process_gzip mem buf dst extract v =
      let n = inflate_gzip_size buf in
      if (n == 0) || ltb tar_max_size n
      then refused v
      else if not mem.for_raw
      then refused v
      else process_raw (inflate_gzip buf (mem.raw n) n) dst extract v

  abbrev pub process_read : Memory → Text → Text → Bool → Option Text × Vfs S → Loaded S
  process_read mem path dst extract (none, v) = refused v
  process_read mem path dst extract (some buf, v) =
      if is_empty buf
      then refused v
      else if is_gzip path buf
      then process_gzip mem buf dst extract v
      else processed (tar_process buf dst extract v)

  abbrev pub read_sized : Memory → Text → Text → Bool → ℕ × Vfs S → Loaded S
  read_sized mem path dst extract (n, v) =
      if mem.for_archive
      then process_read mem path dst extract (vfs_read_file path n v)
      else refused v

  unfoldable pub tar_load_and_process : Memory → Text → Text → Bool → Vfs S → Loaded S
  tar_load_and_process mem path dst extract v =
      read_sized mem path dst extract (lookup_size mem.for_entries path v)

  abbrev pub tar_extract : Memory → Text → Text → Vfs S → Loaded S
  tar_extract mem path dst v = tar_load_and_process mem path dst true v

  abbrev pub tar_list : Memory → Text → Vfs S → Loaded S
  tar_list mem path v = tar_load_and_process mem path (slash ∷ []) false v
