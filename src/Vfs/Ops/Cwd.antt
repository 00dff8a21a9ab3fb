-- ===== src/Vfs/Ops/Cwd.antt =====
-- The working directory of src/vfs.c.
use computer_os.Prelude.{
  ℕ, ◌-◌, ◌≡◌, refl, sym, ap, ◌∙◌, Bool, true, false, Option, none, some, List, [], if◌then◌else◌,
  take, arith, some_inj, bind-inversion, take_all,
}
use computer_os.Vfs.Path.{Text, path_size, vfs_resolve}
use computer_os.Vfs.Path.Resolve.{text_of}
use computer_os.Vfs.Path.Resolve.Bounds.{all_fit}
use computer_os.Vfs.Path.Resolve.Normal.{resolved}
use computer_os.Vfs.Mount.{Ops, Vfs, vfs_init, route}
use computer_os.Vfs.Ops.{enter, vfs_chdir, vfs_getcwd}

module _ {S : Type 0} where
  -- The working directory is the path of names that fit.
  abbrev pub Rooted : Vfs S → Type 0
  Rooted v = (st : List Text) × (all_fit path_size st ≡ true) × (v.cwd ≡ text_of st)

  pub vfs_init-Rooted : (v : Vfs S) → Rooted (vfs_init v)
  unfolding vfs_init all_fit
  vfs_init-Rooted v = ([], refl, refl)

  enter-cwd :
      (abspath : Text) (o : Option (ℕ × Ops S × Text)) (v : Vfs S) {v' : Vfs S}
      → enter abspath o v ≡ some v'
      → (v' ≡ record v { cwd = take (path_size - 1) abspath })
  enter-cwd abspath none v h = absurd cc
  enter-cwd abspath (some (i, o, sub)) v {v'} h =
      let (f, e, g) = bind-inversion o.is_dir _ h in test (f sub v.files) g
    where
      test :
          (t : Bool)
          → (if t then some (record v { cwd = take (path_size - 1) abspath }) else none) ≡ some v'
          → v' ≡ record v { cwd = take (path_size - 1) abspath }
      test true h = sym (some_inj h)
      test false h = absurd cc

  -- When `vfs_chdir` succeeds, the new working directory is what the path resolved to, without a
  -- loss in the copy, it is again the path of names that fit, `vfs_getcwd` with 256 bytes returns
  -- it, and nothing else has changed.
  pub vfs_chdir-Rooted :
      (path : Text) (v v' : Vfs S)
      → vfs_chdir path v ≡ some v'
      → (vfs_resolve v.cwd path path_size ≡ some v'.cwd)
        × Rooted v'
        × (vfs_getcwd path_size v' ≡ some v'.cwd)
        × (v' ≡ record v { cwd = v'.cwd })
  unfolding vfs_chdir vfs_getcwd
  vfs_chdir-Rooted path v v' h =
      let (abspath, e, g) = bind-inversion (vfs_resolve v.cwd path path_size) _ h in
      let (st, f, q, t, b) = resolved v.cwd path path_size e in
      let n = enter-cwd abspath (route v.mounts abspath path_size) v g in
      let c : v'.cwd ≡ abspath =
        ap (λ (w : Vfs S). w.cwd) n ∙ take_all abspath (path_size - 1) (omega arith) in
      (
        e ∙ ap some (sym c),
        (st, f, c ∙ t),
        ap some (take_all v'.cwd (path_size - 1) (rw c (omega arith))),
        n ∙ ap (λ (w : Text). record v { cwd = w }) (sym (ap (λ (w : Vfs S). w.cwd) n)),
      )
