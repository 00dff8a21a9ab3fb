-- ===== src/Vfs/Ops.antt =====
-- The operations of src/vfs.c: each resolves its paths and calls the file system that holds them.
pub mod Cwd
pub mod Across
pub mod Errors
use computer_os.Prelude.{
  ℕ, zero, suc, ◌+◌, ◌-◌, ◌%◌, ◌^◌, Bool, true, false, ◌&&◌, ◌||◌, not, Option, none, some, List,
  [], ◌∷◌, ◌++◌, ltb, leb, ◌==◌, if◌then◌else◌, length, take, drop, bind,
}
use computer_os.Vfs.Path.{Text, slash, path_size, is_empty, vfs_resolve}
use computer_os.Vfs.Mount.{Dirent, Ops, Vfs, route, resolve_route}

-- `sizeof(xbuf)`.
abbrev pub xbuf_size : ℕ
xbuf_size = 65536

module _ {S : Type 0} where
  abbrev pub keep : {A : Type 0} → Vfs S → A × S → A × Vfs S
  keep v (r, s) = (r, record v { files = s })

  -- -1 for an operation that is NULL.
  abbrev pub call : {A : Type 0} → Option (S → Option A × S) → Vfs S → Option A × Vfs S
  call none v = (none, v)
  call (some f) v = keep v (f v.files)

  -- -1 for a path without a mount.
  abbrev pub dispatch :
      {A : Type 0}
      → Option (ℕ × Ops S × Text)
      → (Ops S → Text → Option (S → Option A × S))
      → Vfs S
      → Option A × Vfs S
  dispatch none pick v = (none, v)
  dispatch (some (i, o, sub)) pick v = call (pick o sub) v

  -- The empty path is the working directory.
  unfoldable pub vfs_list : Text → ℕ → Vfs S → Option (List Dirent) × Vfs S
  vfs_list path m v =
      dispatch (resolve_route v (if is_empty path then v.cwd else path))
        (λ o sub. bind o.list λ f. some (f sub m)) v

  unfoldable pub vfs_read_file : Text → ℕ → Vfs S → Option Text × Vfs S
  vfs_read_file path m v =
      dispatch (resolve_route v path) (λ o sub. bind o.read_file λ f. some (f sub m)) v

  unfoldable pub vfs_write_file : Text → Text → Vfs S → Option ℕ × Vfs S
  vfs_write_file path bytes v =
      dispatch (resolve_route v path) (λ o sub. bind o.write_file λ f. some (f sub bytes)) v

  unfoldable pub vfs_delete_file : Text → Vfs S → Option ℕ × Vfs S
  vfs_delete_file path v =
      dispatch (resolve_route v path) (λ o sub. bind o.delete_file λ f. some (f sub)) v

  unfoldable pub vfs_mkdir : Text → Vfs S → Option ℕ × Vfs S
  vfs_mkdir path v = dispatch (resolve_route v path) (λ o sub. bind o.mkdir λ f. some (f sub)) v

  unfoldable pub vfs_rmdir : Text → Vfs S → Option ℕ × Vfs S
  vfs_rmdir path v = dispatch (resolve_route v path) (λ o sub. bind o.rmdir λ f. some (f sub)) v

  unfoldable pub vfs_chmod : Text → ℕ → Vfs S → Option ℕ × Vfs S
  vfs_chmod path mode v =
      dispatch (resolve_route v path) (λ o sub. bind o.chmod λ f. some (f sub mode)) v

  unfoldable pub vfs_chown : Text → ℕ → ℕ → Vfs S → Option ℕ × Vfs S
  vfs_chown path uid gid v =
      dispatch (resolve_route v path) (λ o sub. bind o.chown λ f. some (f sub uid gid)) v

  -- The copy through `xbuf`, between two mounts.
  abbrev pub write_read : Text → (Text → Text → S → Option ℕ × S) → Option Text × S → Option ℕ × S
  write_read d write (none, s) = (none, s)
  write_read d write (some bytes, s) = write d bytes s

  abbrev pub copy_across : Ops S → Text → Ops S → Text → Option (S → Option ℕ × S)
  copy_across a s b d =
      bind a.read_file λ read.
        bind b.write_file λ write. some (λ files. write_read d write (read s xbuf_size files))

  abbrev pub cp_between :
      Option (ℕ × Ops S × Text) → Option (ℕ × Ops S × Text) → Vfs S → Option ℕ × Vfs S
  cp_between (some (i, a, s)) (some (j, b, d)) v =
      call (if i == j then bind a.cp (λ f. some (f s d)) else copy_across a s b d) v
  cp_between (some r) none v = (none, v)
  cp_between none dm v = (none, v)

  unfoldable pub vfs_cp : Text → Text → Vfs S → Option ℕ × Vfs S
  vfs_cp src dst v = cp_between (resolve_route v src) (resolve_route v dst) v

  abbrev pub delete_copied : Ops S → Text → Option ℕ × Vfs S → Option ℕ × Vfs S
  delete_copied a s (none, v) = (none, v)
  delete_copied a s (some n, v) = call (bind a.delete_file λ f. some (f s)) v

  abbrev pub mv_between :
      Text → Text → Option (ℕ × Ops S × Text) → Option (ℕ × Ops S × Text) → Vfs S → Option ℕ × Vfs S
  mv_between src dst (some (i, a, s)) (some (j, b, d)) v =
      if i == j then call (bind a.mv λ f. some (f s d)) v else delete_copied a s (vfs_cp src dst v)
  mv_between src dst (some r) none v = (none, v)
  mv_between src dst none dm v = (none, v)

  unfoldable pub vfs_mv : Text → Text → Vfs S → Option ℕ × Vfs S
  vfs_mv src dst v = mv_between src dst (resolve_route v src) (resolve_route v dst) v

  abbrev pub link_between :
      Option (ℕ × Ops S × Text) → Option (ℕ × Ops S × Text) → Vfs S → Option ℕ × Vfs S
  link_between (some (i, a, s)) (some (j, b, d)) v =
      if i == j then call (bind a.link λ f. some (f s d)) v else (none, v)
  link_between (some r) none v = (none, v)
  link_between none nm v = (none, v)

  unfoldable pub vfs_link : Text → Text → Vfs S → Option ℕ × Vfs S
  vfs_link oldpath newpath v = link_between (resolve_route v oldpath) (resolve_route v newpath) v

  -- The directory test, and the copy into `cwd`, which has 256 bytes.
  abbrev pub enter : Text → Option (ℕ × Ops S × Text) → Vfs S → Option (Vfs S)
  enter abspath none v = none
  enter abspath (some (i, o, sub)) v =
      bind o.is_dir
        λ f. if f sub v.files then some (record v { cwd = take (path_size - 1) abspath }) else none

  unfoldable pub vfs_chdir : Text → Vfs S → Option (Vfs S)
  vfs_chdir path v =
      bind (vfs_resolve v.cwd path path_size)
        λ abspath. enter abspath (route v.mounts abspath path_size) v

  -- With `max` 0 the loop has no bound but the text, and the result is -1.
  unfoldable pub vfs_getcwd : ℕ → Vfs S → Option Text
  vfs_getcwd m v = if m == 0 then none else some (take (m - 1) v.cwd)
