-- ===== src/Tar/Paths.antt =====
-- The paths of src/tar.c, and the directories it makes.
pub mod Joined
use computer_os.Prelude.{
  ℕ, zero, suc, ◌+◌, ◌-◌, Bool, true, false, ◌&&◌, ◌||◌, not, Option, none, some, List, [], ◌∷◌,
  ◌++◌, ltb, leb, ◌==◌, if◌then◌else◌, length, take, drop,
}
use computer_os.Vfs.Path.{Text, slash, path_size, is_empty}
use computer_os.Vfs.Mount.{Vfs}
use computer_os.Vfs.Ops.{vfs_mkdir}
use computer_os.Tar.{append_in}

-- Without its slashes at the end.
unfoldable pub strip_end : Text → Text
strip_end [] = []
strip_end (c ∷ s) = let rest = strip_end s in if (c == slash) && is_empty rest then [] else c ∷ rest

-- `while (i > 1 && out[i-1] == '/') i--`: the first character stays.
abbrev pub strip_slashes : Text → Text
strip_slashes [] = []
strip_slashes (c ∷ s) = c ∷ strip_end s

unfoldable pub skip_slashes : Text → Text
skip_slashes [] = []
skip_slashes (c ∷ s) = let rest = skip_slashes s in if c == slash then rest else c ∷ s

unfoldable pub join_path : Text → Text → ℕ → Text
join_path dir entry outsz = strip_slashes (
    append_in (outsz - 1)
      (append_in (outsz - 1) (strip_slashes (take (outsz - 1) dir)) (slash ∷ []))
      (skip_slashes entry))

-- The walk back to the last slash, which is not kept; nothing for a slash at the start only.
abbrev pub parent_step : ℕ → Option Text → Option Text
parent_step c none = if c == slash then some [] else none
parent_step c (some p) = some (c ∷ p)

unfoldable pub before_slash : Text → Option Text
before_slash [] = none
before_slash (c ∷ s) = parent_step c (before_slash s)

abbrev pub push : Text → ℕ → Text
push buf c = if ltb (length buf) (path_size - 1) then buf ++ (c ∷ []) else buf

module _ {S : Type 0} where
  abbrev pub second : {A : Type 0} → A × Vfs S → Vfs S
  second (r, v) = v

  -- One prefix of the path; an error is ignored.
  abbrev pub made : Text → Vfs S → Vfs S
  made buf v = if ltb 1 (length buf) then second (vfs_mkdir buf v) else v

  -- `pending` says that a name has been copied since the last slash.
  unfoldable pub make_from : Text → Text → Bool → Vfs S → Vfs S
  make_from buf [] pending v = if pending then made buf v else v
  make_from buf (c ∷ p) pending v = elim (c == slash) [
    | true ↦ make_from (push buf c) p false (made buf v)
    | false ↦ make_from (push buf c) p true v
  ]

  unfoldable pub mkdir_p : Text → Vfs S → Vfs S
  mkdir_p [] v = v
  mkdir_p (c ∷ p) v = elim (c == slash) [
    | true ↦ make_from (c ∷ []) p false v
    | false ↦ make_from [] (c ∷ p) false v
  ]
