-- ===== src/Vfs/Path/Resolve/Relative.antt =====
-- `vfs_resolve` of src/vfs.c on a path that is relative to the working directory.
use computer_os.Prelude.{
  ℕ, ◌+◌, ◌<◌, ◌≡◌, refl, true, false, List, [], ◌∷◌, ◌++◌, leb, length, arith, bind,
}
use computer_os.Vfs.Path.{Text, slash, path_size, starts_with_slash, vfs_resolve}
use computer_os.Vfs.Path.Names.{names, path_of, reversed, all_names, names-path_of, names-append}
use computer_os.Vfs.Path.Reduce.{run}
use computer_os.Vfs.Path.Resolve.{text_of, text_in, vfs_resolve-run}
use computer_os.Vfs.Path.Resolve.Bounds.{all_fit, run-reversed, all_fit-all_names}
use computer_os.Vfs.Path.Resolve.Room.{joined-lem}

names-text_of-append :
    (st : List Text) (path : Text)
    → all_names st ≡ true
    → names (text_of st ++ (slash ∷ path)) [] ≡ reversed st ++ names path []
unfolding names reversed
names-text_of-append [] path h = refl
names-text_of-append (w ∷ st) path h =
    rw (names-append (path_of (w ∷ st)) path [], names-path_of (w ∷ st) h) refl

-- From a working directory that is the path of names that fit, a relative path that fits in the
-- buffer with it is walked from those names on.
pub vfs_resolve-relative :
    (st : List Text) (path : Text) (outsz : ℕ)
    → all_fit outsz st ≡ true
    → starts_with_slash path ≡ false
    → length (text_of st) + 1 + length path < path_size
    → vfs_resolve (text_of st) path outsz ≡ bind (run outsz (names path []) st) (text_in outsz)
vfs_resolve-relative st path outsz h s b =
    let f : leb path_size (length (text_of st) + 1 + length path) ≡ false = ground arith in
    rw
      (
        vfs_resolve-run (text_of st) path outsz,
        joined-lem (text_of st) path,
        s,
        f,
        names-text_of-append st path (all_fit-all_names outsz st h),
        run-reversed outsz st (names path []) h,
      )
      refl
