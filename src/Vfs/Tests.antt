-- ===== src/Vfs/Tests.antt =====
-- Runs of src/vfs.c, and the theorems at concrete paths and mounts.
use computer_os.Prelude.{
  ℕ, ◌≤◌, ◌<◌, ◌≡◌, refl, true, some, List, [], ◌∷◌, length, get_elem?, replicate, arith, codes,
  if◌then◌else◌, Option, none, bind, take,
}
use computer_os.Vfs.Path.{
  Text, path_size, vfs_resolve, joined, starts_with_slash, fill, walk, component, finish,
}
use computer_os.Vfs.Path.Names.{names, reduce_all, path_of, all_names, no_slash}
use computer_os.Vfs.Path.Reduce.{run}
use computer_os.Vfs.Path.Resolve.{text_of, vfs_resolve-run}
use computer_os.Vfs.Path.Resolve.Bounds.{all_fit}
use computer_os.Vfs.Path.Resolve.Normal.{vfs_resolve-names, vfs_resolve-idempotent}
use computer_os.Vfs.Path.Resolve.Room.{vfs_resolve-succeeds}
use computer_os.Vfs.Path.Resolve.Relative.{vfs_resolve-relative}
use computer_os.Vfs.Mount.{
  Ops, Mount, Vfs, no_ops, under, route, longest, strip, sub_path, copy_rest,
}
use computer_os.Vfs.Mount.Longest.{covers}
use computer_os.Vfs.Mount.Route.{Located, route-Located}
use computer_os.Vfs.Ops.{vfs_chdir, vfs_getcwd}
use computer_os.Vfs.Ops.Cwd.{Rooted, vfs_chdir-Rooted}
use computer_os.Vfs.Ops.Across.{Contents}
use computer_os.Ramfs.{same}
use computer_os.Vfs.Ops.Errors.{Refused, vfs-too_long}

up_run :
    vfs_resolve (codes "/usr/bin") (codes "../lib/./x//y") path_size ≡ some (codes "/usr/lib/x/y")
unfolding vfs_resolve joined fill walk component finish
up_run = refl

vfs_resolve-run_example :
    vfs_resolve (codes "/usr") (codes "../tmp") path_size ≡ some (codes "/tmp")
unfolding run names joined path_of fill
vfs_resolve-run_example = vfs_resolve-run (codes "/usr") (codes "../tmp") path_size

vfs_resolve-names_example :
    (st : List Text) × (codes "/tmp" ≡ text_of st)
    × (st ≡ reduce_all (names (codes "/usr/../tmp") []) [])
    × (all_names st ≡ true)
    × (length (codes "/tmp") < path_size)
unfolding vfs_resolve joined fill walk component finish
vfs_resolve-names_example = vfs_resolve-names (codes "/usr") (codes "../tmp") path_size refl

vfs_resolve-idempotent_example :
    vfs_resolve (codes "/etc") (codes "/tmp") path_size ≡ some (codes "/tmp")
unfolding vfs_resolve joined fill walk component finish
vfs_resolve-idempotent_example =
    vfs_resolve-idempotent (codes "/usr") (codes "../tmp") path_size (codes "/etc") (omega arith)
      refl

vfs_resolve-succeeds_example :
    vfs_resolve (codes "/usr") (codes "../tmp") path_size ≡ some (codes "/tmp")
unfolding names reduce_all path_of
vfs_resolve-succeeds_example =
    vfs_resolve-succeeds (codes "/usr") (codes "../tmp") (omega arith) (omega arith)

vfs_resolve-relative_example :
    vfs_resolve (codes "/usr") (codes "../tmp") path_size ≡ some (codes "/tmp")
unfolding run names path_of all_fit no_slash
vfs_resolve-relative_example =
    vfs_resolve-relative (codes "usr" ∷ []) (codes "../tmp") path_size refl refl (omega arith)

-- Two file systems; the second is at /tmp.
abbrev mounted : List (Mount ℕ)
mounted =
    record { prefix = codes "/"; ops = no_ops; name = codes "fat32"; in_use = true }
    ∷ record { prefix = codes "/tmp"; ops = no_ops; name = codes "ramfs"; in_use = true }
    ∷ []

route_run : route mounted (codes "/tmp/x") path_size ≡ some (1, no_ops, codes "/x")
unfolding route longest under strip sub_path copy_rest
route_run = refl

route_root_run : route mounted (codes "/tmpx") path_size ≡ some (0, no_ops, codes "/tmpx")
unfolding route longest under strip sub_path copy_rest
route_root_run = refl

route-Located_example :
    (i : ℕ) × (m : Mount ℕ) × (sub : Text) × (route mounted (codes "/tmp/x") path_size
      ≡ some (i, m.ops, sub))
    × (get_elem? mounted i ≡ some m)
    × (covers (codes "/tmp/x") m ≡ true)
    × Located m.prefix (codes "/tmp/x") sub
    × ((j : ℕ) (o : Mount ℕ)
        → get_elem? mounted j ≡ some o
        → covers (codes "/tmp/x") o ≡ true
        → length o.prefix ≤ length m.prefix)
unfolding under strip
route-Located_example =
    route-Located mounted (codes "/tmp/x") path_size 0 refl refl refl (omega arith)

abbrev at_root : Vfs ℕ
at_root = record { mounts = mounted; cwd = codes "/"; files = 0 }

vfs-too_long_example : Refused at_root (replicate 300 b'x') (codes "y") [] 10 0 0 0 true
vfs-too_long_example =
    vfs-too_long at_root (replicate 300 b'x') (codes "y") [] 10 0 0 0 true (omega arith)

-- A file system with the files of a function, and one with one file, which every path names.
abbrev Files : Type 0
Files = (Text → Option Text) × Option Text

abbrev here : Contents Files
here f p = f.0 p

abbrev there : Contents Files
there f p = f.1

abbrev without : Text → (Text → Option Text) → Text → Option Text
without p files q = if same q p then none else files q

abbrev source : Ops Files
source = record no_ops {
  is_dir = some (λ path f. starts_with_slash path);
  read_file = some (λ path m f. (bind (f.0 path) (λ c. some (take m c)), f));
  delete_file = some (λ path f. (some 0, (without path f.0, f.1)));
}

abbrev target : Ops Files
target = record no_ops {
  write_file = some (λ path bytes f. (some (length bytes), (f.0, some bytes)));
}

abbrev two : Vfs Files
two = record {
  mounts =
      record { prefix = codes "/"; ops = source; name = codes "fat32"; in_use = true }
      ∷ record { prefix = codes "/mnt"; ops = target; name = codes "ext2"; in_use = true }
      ∷ [];
  cwd = codes "/";
  files = (λ q. some (codes "abc"), none);
}

vfs_chdir-Rooted_example :
    (vfs_resolve two.cwd (codes "usr/lib") path_size ≡ some (codes "/usr/lib"))
    × Rooted (record two { cwd = codes "/usr/lib" })
    × (vfs_getcwd path_size (record two { cwd = codes "/usr/lib" }) ≡ some (codes "/usr/lib"))
    × (record two { cwd = codes "/usr/lib" } ≡ record two { cwd = codes "/usr/lib" })
unfolding vfs_chdir vfs_resolve joined fill walk component finish route longest under strip sub_path
    copy_rest
vfs_chdir-Rooted_example =
    vfs_chdir-Rooted (codes "usr/lib") two (record two { cwd = codes "/usr/lib" }) refl
