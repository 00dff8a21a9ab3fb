-- ===== src/Vfs/Ops/Errors.antt =====
-- The operations of src/vfs.c on a path that is not resolved.
use computer_os.Prelude.{ℕ, suc, ◌+◌, ◌≤◌, ◌≡◌, refl, Bool, false, none, ◌==◌, length, arith}
use computer_os.Vfs.Path.{Text, path_size}
use computer_os.Vfs.Path.Resolve.Room.{base, vfs_resolve-too_long}
use computer_os.Vfs.Mount.{Vfs, resolve_route}
use computer_os.Vfs.Ops.{
  vfs_read_file, vfs_write_file, vfs_delete_file, vfs_mkdir, vfs_rmdir, vfs_chmod, vfs_chown,
  vfs_cp, vfs_mv, vfs_link, vfs_chdir,
}
use computer_os.Vfs.Window.{vfs_read_at, failed}

module _ {S : Type 0} where
  route-too_long :
      (v : Vfs S) (path : Text)
      → 255 ≤ length (base v.cwd path) + length path
      → resolve_route v path ≡ none
  unfolding resolve_route
  route-too_long v path h = rw (vfs_resolve-too_long v.cwd path path_size h) refl

  -- The result -1 of each operation, and nothing has changed.
  abbrev pub Refused : Vfs S → Text → Text → Text → ℕ → ℕ → ℕ → ℕ → Bool → Type 0
  Refused v path other bytes m offset uid gid room =
      (vfs_read_file path m v ≡ (none, v))
      × (vfs_read_at room path offset (suc m) v ≡ (failed, v))
      × (vfs_write_file path bytes v ≡ (none, v))
      × (vfs_delete_file path v ≡ (none, v))
      × (vfs_mkdir path v ≡ (none, v))
      × (vfs_rmdir path v ≡ (none, v))
      × (vfs_chmod path m v ≡ (none, v))
      × (vfs_chown path uid gid v ≡ (none, v))
      × (vfs_cp path other v ≡ (none, v))
      × (vfs_mv path other v ≡ (none, v))
      × (vfs_link path other v ≡ (none, v))
      × (vfs_chdir path v ≡ none)

  -- For a path that has 255 characters or more with the working directory it starts from, the calls
  -- to read, read a window of at least one byte, write, delete, make and remove a directory, change
  -- mode and owner, copy, move, link and change the directory return -1, and nothing has changed.
  pub vfs-too_long :
      (v : Vfs S) (path other bytes : Text) (m offset uid gid : ℕ) (room : Bool)
      → 255 ≤ length (base v.cwd path) + length path
      → Refused v path other bytes m offset uid gid room
  unfolding vfs_read_file vfs_read_at vfs_write_file vfs_delete_file vfs_mkdir vfs_rmdir vfs_chmod
      vfs_chown vfs_cp vfs_mv vfs_link vfs_chdir
  vfs-too_long v path other bytes m offset uid gid room h =
      let e = route-too_long v path h in
      let z : (suc m == 0) ≡ false = ground arith in
      (
        rw e refl,
        rw (z, e) refl,
        rw e refl,
        rw e refl,
        rw e refl,
        rw e refl,
        rw e refl,
        rw e refl,
        rw e refl,
        rw e refl,
        rw e refl,
        rw (vfs_resolve-too_long v.cwd path path_size h) refl,
      )
