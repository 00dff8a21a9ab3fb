-- ===== src/Tar/Process/Hang.antt =====
-- An archive on which the walk of src/tar.c does not end.
use computer_os.Prelude.{
  ℕ, zero, suc, ◌+◌, ◌-◌, ◌^◌, ◌≤◌, ◌<◌, ◌≡◌, refl, Bool, true, false, none, leb, length, u32,
  arith,
}
use computer_os.Vfs.Path.{Text}
use computer_os.Tar.{tar_block, field, block_is_zero, checksum_ok}
use computer_os.Tar.Process.{
  Tar, next, out_of_rounds, size_of, typeflag, skip, tar_step, dispatch_entry, tar_loop,
}

skip-wraps : (p : ℕ) → p < 2 ^ 32 → skip (u32 (p + tar_block)) (2 ^ 32 - tar_block) ≡ p
skip-wraps p h = omega arith

-- An extended header whose size makes the position wrap to its own block.
abbrev pub Wrapping : Text → Type 0
Wrapping h =
    (block_is_zero h ≡ false)
    × (checksum_ok h ≡ true)
    × (typeflag h ≡ b'x')
    × (size_of h ≡ 2 ^ 32 - tar_block)

le→leb : (a b : ℕ) → a ≤ b → leb a b ≡ true
le→leb a b h = ground arith

module _ {S : Type 0} where
  again : Tar S → Tar S
  again s = record s { zero_blocks = 0; longname = none; longlink = none }

  Wrapping-tar_step :
      (d dst : Text) (extract : Bool) (s : Tar S)
      → Wrapping (field s.pos tar_block d)
      → s.pos < 2 ^ 32
      → tar_step d dst extract s ≡ next (again s)
  unfolding tar_step dispatch_entry again
  Wrapping-tar_step d dst extract s (z, c, t, n) h = rw (z, c, t, n, skip-wraps s.pos h) refl

  -- At a block with a right checksum, the type `x` and a size of 2 ^ 32 - 512, within an archive
  -- shorter than 2 ^ 32, the loop of `tar_process` does not end with any number of rounds.
  pub tar_loop-hangs :
      (d dst : Text) (extract : Bool) (s : Tar S)
      → s.pos + tar_block ≤ length d
      → length d < 2 ^ 32
      → Wrapping (field s.pos tar_block d)
      → (fuel : ℕ) → tar_loop fuel d dst extract s ≡ out_of_rounds
  unfolding tar_loop again
  tar_loop-hangs d dst extract s b l w zero = refl
  tar_loop-hangs d dst extract s b l w (suc fuel) =
      let q : u32 (s.pos + tar_block) ≡ s.pos + tar_block = omega arith in
      let e : leb (u32 (s.pos + tar_block)) (length d) ≡ true =
        rw q (le→leb (s.pos + tar_block) (length d) b) in
      rw (e, Wrapping-tar_step d dst extract s w (omega arith))
        (tar_loop-hangs d dst extract (again s) b l w fuel)
