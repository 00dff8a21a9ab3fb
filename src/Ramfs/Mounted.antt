-- ===== src/Ramfs/Mounted.antt =====
-- src/ramfs.c behind src/vfs.c: the paths of a mount of the RAM file system.
use computer_os.Prelude.{
  ℕ, ◌+◌, ◌^◌, ◌≤◌, ◌<◌, ◌≡◌, refl, sym, ap, ◌∙◌, Bool, true, false, Option, none, some, List, ◌==◌,
  length, take, drop, arith,
}
use computer_os.Vfs.Path.{Text}
use computer_os.Vfs.Mount.{Vfs, resolve_route}
use computer_os.Vfs.Ops.{keep, vfs_read_file, vfs_write_file, vfs_mv}
use computer_os.Vfs.Window.{fetched, vfs_read_at}
use computer_os.Vfs.Window.Slice.{vfs_read_at-slice}
use computer_os.Ramfs.{
  File, bare, is_root, max_size, name_max, ramfs_vfs_ops, ramfs_read_file, ramfs_mv,
}
use computer_os.Ramfs.Contents.{contents, sound, same_refl}
use computer_os.Ramfs.Contents.Read.{ramfs_read_file-contents}
use computer_os.Ramfs.Contents.Write.{HasSlot, ramfs_write_file-read}
use computer_os.Ramfs.Contents.Move.{Lost, ramfs_mv-Lost}

module _ (room : List File → ℕ → Bool) (freed : Text → Text) (v : Vfs (List File)) (path sub : Text)
    (i : ℕ) (routed : resolve_route v path ≡ some (i, ramfs_vfs_ops room freed, sub))
    (s : sound v.files ≡ true) where
  -- For a path that is routed to a sound RAM file system, with memory at every call, a name of 1 to
  -- 255 characters, at most 4 MB, and a slot that has the name or is free, `vfs_write_file` returns
  -- the length, and `vfs_read_file` then returns the bytes that were written, cut at its maximum.
  pub vfs_write_file-read :
      (b : Text) (m : ℕ)
      → ((gs : List File) (n : ℕ) → room gs n ≡ true)
      → is_root sub ≡ false
      → length b ≤ max_size
      → length (bare sub) < name_max
      → HasSlot (bare sub) v.files
      → (v' : Vfs (List File)) × (vfs_write_file path b v ≡ (some (length b), v'))
        × (vfs_read_file path m v' ≡ (some (take m b), v'))
  unfolding vfs_write_file vfs_read_file resolve_route
  vfs_write_file-read b m k r l n h =
      let (fs', e, q) = ramfs_write_file-read room sub b m v.files s k r l n h in
      (record v { files = fs' }, rw (routed, e) refl, rw (routed, q) refl)

  -- For a file of a sound RAM file system, an offset below 2 ^ 31, a positive length that ends
  -- below 2 ^ 32, and memory for the copy, `vfs_read_at` returns that part of the contents,
  -- shortened at the end of the file.
  pub vfs_read_at-contents :
      (b : Text) (offset len : ℕ)
      → is_root sub ≡ false
      → contents v.files (bare sub) ≡ some b
      → offset < 2 ^ 31
      → offset + len < 2 ^ 32
      → 0 < len
      → vfs_read_at true path offset len v ≡ (fetched (take len (drop offset b)), v)
  vfs_read_at-contents b offset len r c h k p =
      vfs_read_at-slice v path sub b i (ramfs_vfs_ops room freed) offset len v.files ramfs_read_file
        routed refl refl (ramfs_read_file-contents sub (offset + len) v.files s r ∙ rw c refl) h k p

  -- When `vfs_mv` of a path of a sound RAM file system to itself succeeds, the file is gone: the
  -- path can no longer be read.
  pub vfs_mv-lost :
      (v' : Vfs (List File)) (n m : ℕ)
      → is_root sub ≡ false
      → vfs_mv path path v ≡ (some n, v')
      → vfs_read_file path m v' ≡ (none, v')
  unfolding vfs_mv vfs_read_file resolve_route
  vfs_mv-lost v' n m r h =
      let e : (i == i) ≡ true = ground arith in
      after (ramfs_mv room freed sub sub v.files)
        (ramfs_mv-Lost room freed sub sub v.files s (same_refl (bare sub))) (rw (routed, e) at h)
    where
      after :
          (r : Option ℕ × List File)
          → Lost sub v.files r
          → keep v r ≡ (some n, v')
          → vfs_read_file path m v' ≡ (none, v')
      after (none, fs') l h = absurd (no_result (ap first h))
        where
          first : Option ℕ × Vfs (List File) → Option ℕ
          first (a, b) = a

          no_result : ¬ (none ≡ some n)
          no_result h = absurd cc
      after (some k, fs') (s', c) h =
          let q : v' ≡ record v { files = fs' } = sym (ap second h) in
          rw (q, routed, ramfs_read_file-contents sub m fs' s' r, c) refl
        where
          second : Option ℕ × Vfs (List File) → Vfs (List File)
          second (a, b) = b
