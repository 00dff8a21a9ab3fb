-- ===== src/Tar/Process/Ends.antt =====
-- `tar_process` of src/tar.c has rounds enough.
use computer_os.Prelude.{ℕ, suc, ◌+◌, ◌/◌, ◌^◌, ◌≤◌, ◌≡◌, ◌≢◌, Bool, length, arith}
use computer_os.Vfs.Path.{Text}
use computer_os.Vfs.Mount.{Vfs}
use computer_os.Tar.{tar_block, field}
use computer_os.Tar.Process.{out_of_rounds, size_of, start}
use computer_os.Tar.Process.Walk.{size_limit, tar_loop-ends}
use computer_os.Tar.Process.Load.{tar_process}

-- For an archive of at most 4 MB in which no block that lies within it has a size field above 2 ^
-- 31, `tar_process` ends: the rounds that the model gives its loop are enough, whatever the entries
-- are and whether they are extracted or listed.
pub tar_process-ends :
    {S : Type 0} (d dst : Text) (extract : Bool) (v : Vfs S)
    → length d ≤ 2 ^ 22
    → ((p : ℕ) → p + tar_block ≤ length d → size_of (field p tar_block d) ≤ size_limit)
    → tar_process d dst extract v ≢ out_of_rounds
unfolding tar_process
tar_process-ends d dst extract v l h =
    let e : length d / tar_block + 2 ≡ suc (length d / tar_block + 1) = omega arith in
    rw e (
      tar_loop-ends (length d / tar_block + 1) d dst extract (start v) l h (omega arith)
        (omega arith))
