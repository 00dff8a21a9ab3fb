-- ===== src/Tar/Tests.antt =====
-- Archives for src/tar.c, and the theorems at them.
use computer_os.Prelude.{
  ℕ, zero, suc, ◌+◌, ◌-◌, ◌≤◌, ◌<◌, ◌≡◌, ◌≢◌, refl, true, false, none, some, List, [], ◌∷◌, ◌++◌,
  length, take, replicate, arith, codes,
}
use computer_os.Vfs.Path.{Text, vfs_resolve, joined, fill, walk, component, finish}
use computer_os.Vfs.Mount.{Vfs, copy_rest, longest, route, strip, sub_path, under, resolve_route}
use computer_os.Vfs.Ops.{vfs_mkdir, vfs_write_file}
use computer_os.Ramfs.{File, ramfs_vfs_ops, ramfs_write_file, first_slot, modify, same}
use computer_os.Tar.{
  tar_block, octal_from, octal_to_uint, field, block_is_zero, checksum, sum_of, until_nul,
  build_name,
}
use computer_os.Tar.Octal.{digits, ends_octal, octal_to_uint-digits}
use computer_os.Tar.Paths.{join_path, strip_end, skip_slashes, before_slash, make_from, mkdir_p}
use computer_os.Tar.Paths.Joined.{tail_open, join_path-bounds}
use computer_os.Tar.Process.{
  walked, out_of_rounds, tar_loop, start, size_of, tar_step, dispatch_entry, write_entry,
}
use computer_os.Tar.Process.Load.{tar_process}
use computer_os.Tar.Process.Walk.{size_limit}
use computer_os.Tar.Process.Ends.{tar_process-ends}
use computer_os.Tar.Process.Hang.{tar_loop-hangs}

abbrev padded : ℕ → Text → Text
padded n s = s ++ replicate (n - length s) 0

-- A header with this checksum field.
abbrev header_with : Text → Text → Text → ℕ → Text
header_with sum name size t =
    padded 100 name
    ++ replicate 24 0
    ++ padded 12 size
    ++ replicate 12 0
    ++ padded 8 sum
    ++ (t ∷ [])
    ++ replicate 355 0

abbrev hello : Text
hello =
    header_with (codes "002464") (codes "a.txt") (codes "00000000005") b'0'
    ++ padded 512 (codes "hello")

abbrev wrapping : Text
wrapping = header_with (codes "002064") (codes "x") (codes "37777777000") b'x'

hello_sum : octal_to_uint (field 148 8 hello) ≡ checksum (take 512 hello)
unfolding octal_from sum_of
hello_sum = refl

wrapping_sum : octal_to_uint (field 148 8 wrapping) ≡ checksum wrapping
unfolding octal_from sum_of
wrapping_sum = refl

-- Two free slots of a RAM file system at /tmp.
abbrev free_slot : File
free_slot = record { used = false; name = []; size = 0; bytes = none }

abbrev empty : Vfs (List File)
empty = record {
  mounts =
      record {
        prefix = codes "/tmp";
        ops = ramfs_vfs_ops (λ fs n. true) (λ b. b);
        name = codes "ramfs";
        in_use = true;
      }
      ∷ [];
  cwd = codes "/";
  files = free_slot ∷ free_slot ∷ [];
}

abbrev extracted : Vfs (List File)
extracted = record empty {
  files =
      record { used = true; name = codes "a.txt"; size = 5; bytes = some (codes "hello") }
      ∷ free_slot
      ∷ [];
}

extract_run :
    tar_process hello (codes "/tmp") true empty
    ≡ walked (record (start extracted) { pos = 1024; entries = 1 })
unfolding tar_process tar_loop tar_step block_is_zero sum_of octal_from dispatch_entry write_entry
    vfs_write_file resolve_route vfs_resolve joined join_path fill strip_end skip_slashes build_name
    until_nul walk before_slash make_from mkdir_p copy_rest longest route strip sub_path under
    vfs_mkdir component finish ramfs_write_file first_slot modify same
extract_run = refl

octal_to_uint-digits_example : octal_to_uint (codes "0644" ++ (0 ∷ [])) ≡ 420
unfolding digits ends_octal
octal_to_uint-digits_example = octal_to_uint-digits 4 420 (0 ∷ []) (omega arith) (omega arith) refl

join_path-bounds_example :
    (length (join_path (codes "/tmp/") (codes "a/b/") 256) < 256)
    × (tail_open (join_path (codes "/tmp/") (codes "a/b/") 256) ≡ true)
join_path-bounds_example = join_path-bounds (codes "/tmp/") (codes "a/b/") 256 (omega arith)

tar_loop-hangs_example :
    tar_loop 1000000 wrapping (codes "/tmp") false (start empty) ≡ out_of_rounds
unfolding block_is_zero octal_from sum_of
tar_loop-hangs_example =
    tar_loop-hangs wrapping (codes "/tmp") false (start empty) (omega arith) (omega arith)
      (refl, refl, refl, refl) 1000000

hello_sizes :
    (p : ℕ)
    → p + tar_block ≤ length (take 512 hello)
    → size_of (field p tar_block (take 512 hello)) ≤ size_limit
unfolding octal_from
hello_sizes zero h = omega arith
hello_sizes (suc p) h = absurd (omega arith)

tar_process-ends_example : tar_process (take 512 hello) (codes "/tmp") false empty ≢ out_of_rounds
tar_process-ends_example =
    tar_process-ends (take 512 hello) (codes "/tmp") false empty (omega arith) hello_sizes
