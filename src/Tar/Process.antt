-- ===== src/Tar/Process.antt =====
-- `tar_process` of src/tar.c: the walk over the blocks of an archive. What it prints is left out.
pub mod Walk
pub mod Hang
pub mod Load
pub mod Ends
use computer_os.Prelude.{
  ℕ, zero, suc, ◌+◌, ◌-◌, ◌*◌, ◌/◌, ◌%◌, ◌^◌, Bool, true, false, ◌&&◌, ◌||◌, not, Option, none,
  some, List, [], ◌∷◌, ◌++◌, ltb, leb, ◌==◌, if◌then◌else◌, length, take, drop, get_or, min, u32,
}
use computer_os.Vfs.Path.{Text, slash, path_size, is_empty}
use computer_os.Vfs.Mount.{Vfs}
use computer_os.Vfs.Ops.{vfs_write_file}
use computer_os.Tar.{
  tar_block, octal_to_uint, field, block_is_zero, checksum_ok, until_nul, build_name,
}
use computer_os.Tar.Paths.{join_path, before_slash, mkdir_p, second}

-- The variables of the loop, and the file systems; `longname` is `none` without `have_longname`.
pub record Tar (S : Type 0) : Type 0 where
  pub pos : ℕ
  pub entries : ℕ
  pub zero_blocks : ℕ
  pub longname : Option Text
  pub longlink : Option Text
  pub vfs : Vfs S

-- After a round of the loop: another, the end, or bytes behind the end of the archive are used.
pub data Step (S : Type 0) : Type 0 where
  next : Tar S → Step S
  stopped : Tar S → Step S
  overrun : Step S

abbrev pub size_of : Text → ℕ
size_of h = octal_to_uint (field 124 12 h)

abbrev pub data_bytes : ℕ → ℕ
data_bytes n = u32 (u32 (n + (tar_block - 1)) / tar_block * tar_block)

-- `'\0'` is an old `'0'`.
abbrev pub typeflag : Text → ℕ
typeflag h = let t = get_or h 156 0 in if t == 0 then b'0' else t

abbrev pub name_of : Text → Option Text → Text
name_of h none = build_name h 512
name_of h (some l) = take 511 (until_nul l)

abbrev pub linkname_of : Text → Option Text → Text
linkname_of h none = until_nul (field 157 99 h)
linkname_of h (some l) = take 255 (until_nul l)

-- The position behind the data of an entry; `pos` is that of the data.
abbrev pub skip : ℕ → ℕ → ℕ
skip pos n = u32 (pos + data_bytes n)

abbrev pub is_link : ℕ → Bool
is_link t = (t == b'1') || (t == b'2')

-- The result of the loop, when it ends with the rounds that it is given.
pub data Walked (S : Type 0) : Type 0 where
  walked : Tar S → Walked S
  out_of_rounds : Walked S
  past_end : Walked S

module _ {S : Type 0} where
  -- `n` bytes of the archive from `pos` on.
  abbrev pub with_bytes : Text → ℕ → ℕ → (Text → Step S) → Step S
  with_bytes d pos n k = if leb (pos + n) (length d) then k (field pos n d) else overrun

  abbrev pub make_parent : Option Text → Vfs S → Vfs S
  make_parent none v = v
  make_parent (some p) v = if is_empty p then v else mkdir_p p v

  unfoldable pub write_entry : Text → Text → Vfs S → Vfs S
  write_entry fullpath bytes v =
      second (vfs_write_file fullpath bytes (make_parent (before_slash fullpath) v))

  -- A file, or a link, which is a file that holds the name of its target if it has no data.
  abbrev pub file_entry : Text → Bool → ℕ → ℕ → Text → Text → Tar S → Step S
  file_entry d extract t n fullpath linkname s =
      let behind = record s { entries = s.entries + 1; pos = skip s.pos n } in
      if not extract
      then next behind
      else if is_link t && (n == 0) && not (is_empty linkname)
      then next (record behind { vfs = write_entry fullpath linkname s.vfs })
      else with_bytes d s.pos n
          λ bytes. next (record behind { vfs = write_entry fullpath bytes s.vfs })

  abbrev pub dir_entry : Bool → Text → Tar S → Step S
  dir_entry extract fullpath s = next (record s {
    entries = s.entries + 1;
    vfs = if extract then mkdir_p fullpath s.vfs else s.vfs;
  })

  -- The dispatch by type; `s.pos` is behind the header, and `n` is the size.
  unfoldable pub dispatch_entry : Text → Text → Bool → ℕ → ℕ → Text → Text → Tar S → Step S
  dispatch_entry d dst extract t n name linkname s =
      if t == b'L'
      then with_bytes d s.pos (min n 511)
          (λ l. next (record s { longname = some l; pos = skip s.pos n }))
      else if t == b'K'
      then with_bytes d s.pos (min n 511)
          (λ l. next (record s { longlink = some l; pos = skip s.pos n }))
      else if (t == b'g') || (t == b'x')
      then next (record s { pos = skip s.pos n })
      else if t == b'5'
      then dir_entry extract (join_path dst name path_size) s
      else if (t == b'0') || is_link t
      then file_entry d extract t n (join_path dst name path_size) linkname s
      else next (record s { pos = skip s.pos n })

  -- The names that a header gives, or that were read before it, and its entry.
  abbrev pub read_entry : Text → Text → Bool → Text → Tar S → Step S
  read_entry d dst extract h s =
      dispatch_entry d dst extract (typeflag h) (size_of h) (name_of h s.longname)
        (linkname_of h s.longlink)
        (record s {
          zero_blocks = 0;
          longname = none;
          longlink = none;
          pos = u32 (s.pos + tar_block);
        })

  unfoldable pub tar_step : Text → Text → Bool → Tar S → Step S
  tar_step d dst extract s =
      let h = field s.pos tar_block d in
      if block_is_zero h
      then (if leb 2 (s.zero_blocks + 1)
          then stopped s
          else next (record s { zero_blocks = s.zero_blocks + 1; pos = u32 (s.pos + tar_block) }))
      else if not (checksum_ok h)
      then stopped s
      else read_entry d dst extract h s

  unfoldable pub tar_loop : ℕ → Text → Text → Bool → Tar S → Walked S
  tar_loop zero d dst extract s = out_of_rounds
  tar_loop (suc fuel) d dst extract s =
      if leb (u32 (s.pos + tar_block)) (length d)
      then elim (tar_step d dst extract s) [
        | next s' ↦ tar_loop fuel d dst extract s'
        | stopped s' ↦ walked s'
        | overrun ↦ past_end
      ]
      else walked s

  abbrev pub start : Vfs S → Tar S
  start v = record {
    pos = 0;
    entries = 0;
    zero_blocks = 0;
    longname = none;
    longlink = none;
    vfs = v;
  }
