-- ===== src/Tar/Process/Walk.antt =====
-- When the walk of src/tar.c over an archive ends.
use computer_os.Prelude.{
  ℕ, zero, suc, ◌+◌, ◌*◌, ◌^◌, ◌≤◌, ◌<◌, ◌≡◌, ◌≢◌, subst, Bool, true, false, ◌&&◌, ◌||◌, not, none,
  leb, ◌==◌, if◌then◌else◌, length, min, u32, arith, Bool-cases, inl, inr,
}
use computer_os.Vfs.Path.{Text, is_empty}
use computer_os.Tar.{tar_block, field, block_is_zero, checksum_ok}
use computer_os.Tar.Process.{
  Tar, Step, next, stopped, overrun, walked, out_of_rounds, past_end, size_of, typeflag, name_of,
  linkname_of, read_entry, skip, is_link, dispatch_entry, tar_step, tar_loop,
}

-- The most that a size may be, so that no position wraps around.
abbrev pub size_limit : ℕ
size_limit = 2 ^ 31

abbrev pub pos_limit : ℕ
pos_limit = 2 ^ 31 + 2 ^ 23

skip-bounds :
    (p n : ℕ) → n ≤ size_limit → p ≤ 2 ^ 22 + 512 → (p ≤ skip p n) × (skip p n ≤ pos_limit)
skip-bounds p n h k = (omega arith, omega arith)

module _ {S : Type 0} where
  -- The walk does not go back.
  abbrev Advanced : ℕ → Step S → Type 0
  Advanced p (next s) = (p ≤ s.pos) × (s.pos ≤ pos_limit)
  Advanced p (stopped s) = Unit
  Advanced p overrun = Unit

  if-Advanced :
      (p : ℕ) (b : Bool) (x y : Step S)
      → Advanced p x
      → Advanced p y
      → Advanced p (if b then x else y)
  if-Advanced p true x y h k = h
  if-Advanced p false x y h k = k

  dispatch_entry-Advanced :
      (d dst : Text) (extract : Bool) (t n : ℕ) (name linkname : Text) (s : Tar S)
      → n ≤ size_limit
      → s.pos ≤ 2 ^ 22 + 512
      → Advanced s.pos (dispatch_entry d dst extract t n name linkname s)
  unfolding dispatch_entry
  dispatch_entry-Advanced d dst extract t n name linkname s h k =
      let b = skip-bounds s.pos n h k in
      if-Advanced s.pos (t == b'L') _ _
        (if-Advanced s.pos (leb (s.pos + min n 511) (length d)) _ _ b tt)
        (if-Advanced s.pos (t == b'K') _ _
          (if-Advanced s.pos (leb (s.pos + min n 511) (length d)) _ _ b tt)
          (if-Advanced s.pos ((t == b'g') || (t == b'x')) _ _ b (
            if-Advanced s.pos (t == b'5') _ _ (omega arith, omega arith)
              (if-Advanced s.pos ((t == b'0') || is_link t) _ _
                (if-Advanced s.pos (not extract) _ _ b (
                  if-Advanced s.pos (is_link t && (n == 0) && not (is_empty linkname)) _ _ b
                    (if-Advanced s.pos (leb (s.pos + n) (length d)) _ _ b tt)))
                b))))

  read_entry-Advanced :
      (d dst : Text) (extract : Bool) (h : Text) (s : Tar S)
      → size_of h ≤ size_limit
      → u32 (s.pos + tar_block) ≤ 2 ^ 22 + 512
      → Advanced (u32 (s.pos + tar_block)) (read_entry d dst extract h s)
  read_entry-Advanced d dst extract h s =
      dispatch_entry-Advanced d dst extract (typeflag h) (size_of h) (name_of h s.longname)
        (linkname_of h s.longlink)
        (record s {
          zero_blocks = 0;
          longname = none;
          longlink = none;
          pos = u32 (s.pos + tar_block);
        })

  tar_step-Advanced :
      (d dst : Text) (extract : Bool) (s : Tar S)
      → size_of (field s.pos tar_block d) ≤ size_limit
      → s.pos ≤ 2 ^ 22
      → Advanced (s.pos + tar_block) (tar_step d dst extract s)
  unfolding tar_step
  tar_step-Advanced d dst extract s h k =
      let e : u32 (s.pos + tar_block) ≡ s.pos + tar_block = omega arith in
      if-Advanced (s.pos + tar_block) (block_is_zero (field s.pos tar_block d)) _ _
        (if-Advanced (s.pos + tar_block) (leb 2 (s.zero_blocks + 1)) _ _ tt
          (omega arith, omega arith))
        (if-Advanced (s.pos + tar_block) (not (checksum_ok (field s.pos tar_block d))) _ _ tt (
          subst (λ p. Advanced p (read_entry d dst extract (field s.pos tar_block d) s)) e
            (read_entry-Advanced d dst extract (field s.pos tar_block d) s h (omega arith))))

  -- Positions grow by a block at least, and no size makes them wrap.
  pub tar_loop-ends :
      (fuel : ℕ) (d dst : Text) (extract : Bool) (s : Tar S)
      → length d ≤ 2 ^ 22
      → ((p : ℕ) → p + tar_block ≤ length d → size_of (field p tar_block d) ≤ size_limit)
      → s.pos ≤ pos_limit
      → length d < s.pos + tar_block * suc fuel
      → tar_loop (suc fuel) d dst extract s ≢ out_of_rounds
  unfolding tar_loop
  tar_loop-ends zero d dst extract s l h b f =
      let e : leb (u32 (s.pos + tar_block)) (length d) ≡ false =
        let q : u32 (s.pos + tar_block) ≡ s.pos + tar_block = omega arith in ground arith in
      rw e λ w. absurd cc
  tar_loop-ends (suc fuel) d dst extract s l h b f =
      elim (Bool-cases (leb (u32 (s.pos + tar_block)) (length d))) [
        | inl e ↦
            let p : s.pos + tar_block ≤ length d = fits (omega arith) e in
            rw e (
              after (tar_step d dst extract s)
                (tar_step-Advanced d dst extract s (h s.pos p) (omega arith))
                λ s' q b'. tar_loop-ends fuel d dst extract s' l h b' (omega arith))
        | inr e ↦ rw e λ w. absurd cc
      ]
    where
      fits :
          u32 (s.pos + tar_block) ≡ s.pos + tar_block
          → leb (u32 (s.pos + tar_block)) (length d) ≡ true
          → s.pos + tar_block ≤ length d
      fits q e = ground arith

      after :
          (t : Step S)
          → Advanced (s.pos + tar_block) t
          → ((s' : Tar S)
              → s.pos + tar_block ≤ s'.pos
              → s'.pos ≤ pos_limit
              → tar_loop (suc fuel) d dst extract s' ≢ out_of_rounds)
          → (elim t [
            | next s' ↦ tar_loop (suc fuel) d dst extract s'
            | stopped s' ↦ walked s'
            | overrun ↦ past_end
          ])
            ≢ out_of_rounds
      after (next s') (q, b') k = k s' q b'
      after (stopped s') a k = λ w. absurd cc
      after overrun a k = λ w. absurd cc
