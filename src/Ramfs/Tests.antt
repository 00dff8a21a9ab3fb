-- ===== src/Ramfs/Tests.antt =====
-- Runs of src/ramfs.c, and the theorems at concrete tables.
use computer_os.Prelude.{
  ℕ, ◌≡◌, refl, Bool, true, false, none, some, List, [], ◌∷◌, length, replicate, arith, inr, codes,
}
use computer_os.Vfs.Path.{Text, vfs_resolve, joined, fill, walk, component, finish}
use computer_os.Vfs.Mount.{
  Vfs, no_ops, under, route, resolve_route, longest, strip, sub_path, copy_rest,
}
use computer_os.Vfs.Ops.{vfs_mv, vfs_read_file, vfs_write_file}
use computer_os.Vfs.Window.{fetched, vfs_read_at}
use computer_os.Ramfs.{
  File, ramfs_vfs_ops, ramfs_write_file, ramfs_delete_file, ramfs_cp, ramfs_mv, same, first_slot,
  modify, get_file,
}
use computer_os.Ramfs.Contents.{contents, sound, absent}
use computer_os.Ramfs.Contents.Write.{Written, ramfs_write_file-Written}
use computer_os.Ramfs.Contents.Move.{Moved, ramfs_mv-Moved}
use computer_os.Ramfs.Mounted.{vfs_write_file-read, vfs_read_at-contents, vfs_mv-lost}

abbrev free_slot : File
free_slot = record { used = false; name = []; size = 0; bytes = none }

abbrev file : Text → Text → File
file name b = record { used = true; name = name; size = length b; bytes = some b }

-- Two files among free slots.
abbrev table : List File
table = file (codes "a") (codes "hello") ∷ free_slot ∷ file (codes "b") (codes "x") ∷ free_slot ∷ []

abbrev always : List File → ℕ → Bool
always fs n = true

abbrev garbled : Text → Text
garbled b = replicate (length b) 0

write_run : ramfs_write_file always (codes "/c") (codes "new") table ≡ (
  some 3,
  file (codes "a") (codes "hello")
      ∷ file (codes "c") (codes "new")
      ∷ file (codes "b") (codes "x")
      ∷ free_slot
      ∷ [],
)
unfolding ramfs_write_file first_slot modify same
write_run = refl

-- Without memory a file that is written again is gone.
write_fails_run : ramfs_write_file (λ fs n. false) (codes "/a") (codes "new") table ≡ (
  none,
  record (file (codes "a") (codes "hello")) { used = false; bytes = none }
      ∷ free_slot
      ∷ file (codes "b") (codes "x")
      ∷ free_slot
      ∷ [],
)
unfolding ramfs_write_file first_slot modify same
write_fails_run = refl

ramfs_write_file-Written_example :
    Written
      (codes "c")
      (codes "new")
      table
      (ramfs_write_file always (codes "/c") (codes "new") table)
unfolding sound absent same
ramfs_write_file-Written_example =
    ramfs_write_file-Written always (codes "/c") (codes "new") table refl

ramfs_mv-Moved_example :
    Moved (codes "/a") (codes "/b") table (ramfs_mv always garbled (codes "/a") (codes "/b") table)
unfolding sound absent same
ramfs_mv-Moved_example = ramfs_mv-Moved always garbled (codes "/a") (codes "/b") table refl refl

abbrev mounted : Vfs (List File)
mounted = record {
  mounts =
      record { prefix = codes "/"; ops = no_ops; name = codes "fat32"; in_use = true }
      ∷ record {
        prefix = codes "/tmp";
        ops = ramfs_vfs_ops always garbled;
        name = codes "ramfs";
        in_use = true;
      }
      ∷ [];
  cwd = codes "/tmp";
  files = table;
}

vfs_write_file-read_example :
    (v' : Vfs (List File)) × (vfs_write_file (codes "c") (codes "new") mounted ≡ (some 3, v'))
    × (vfs_read_file (codes "c") 2 v' ≡ (some (codes "ne"), v'))
unfolding resolve_route vfs_resolve joined fill walk component finish route longest under strip
    sub_path copy_rest sound absent same first_slot
vfs_write_file-read_example =
    vfs_write_file-read always garbled mounted (codes "c") (codes "/c") 1 refl refl (codes "new") 2
      (λ gs n. refl) refl (omega arith) (omega arith) (inr (1, refl))

vfs_read_at-contents_example :
    vfs_read_at true (codes "a") 1 3 mounted ≡ (fetched (codes "ell"), mounted)
unfolding resolve_route vfs_resolve joined fill walk component finish route longest under strip
    sub_path copy_rest sound absent same contents
vfs_read_at-contents_example =
    vfs_read_at-contents always garbled mounted (codes "a") (codes "/a") 1 refl refl (codes "hello")
      1 3 refl refl (omega arith) (omega arith) (omega arith)

-- What is left when a is moved to a.
abbrev lost : Vfs (List File)
lost = record mounted {
  files =
      record { used = false; name = codes "a"; size = 5; bytes = none }
      ∷ free_slot
      ∷ file (codes "b") (codes "x")
      ∷ free_slot
      ∷ [];
}

vfs_mv-lost_example : vfs_read_file (codes "a") 5 lost ≡ (none, lost)
unfolding resolve_route vfs_resolve joined fill walk component finish route longest under strip
    sub_path copy_rest sound absent same vfs_mv ramfs_mv ramfs_cp ramfs_write_file ramfs_delete_file
    first_slot modify get_file
vfs_mv-lost_example =
    vfs_mv-lost always garbled mounted (codes "a") (codes "/a") 1 refl refl lost 0 5 refl refl
