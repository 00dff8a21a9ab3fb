-- ===== src/Vfs/Path.antt =====
-- `vfs_resolve` of src/vfs.c. A string of C is the list of its characters, without the 0 at its end.
pub mod Names
pub mod Reduce
pub mod Resolve
use computer_os.Prelude.{
  ℕ, zero, suc, ◌+◌, Bool, true, false, ◌&&◌, Option, none, some, List, [], ◌∷◌, ◌++◌, ltb, leb,
  ◌==◌, if◌then◌else◌, length, take, bind,
}

abbrev pub Text : Type 0
Text = List ℕ

abbrev pub slash : ℕ
slash = b'/'

abbrev pub dot : ℕ
dot = b'.'

-- `sizeof(buf)`, which is also that of the working directory and of `sub`.
abbrev pub path_size : ℕ
path_size = 256

abbrev pub starts_with_slash : Text → Bool
starts_with_slash [] = false
starts_with_slash (c ∷ r) = c == slash

-- A loop that appends `s` to the buffer; `none` is the result -1.
unfoldable pub fill : Text → Text → Option Text
fill [] buf = some buf
fill (c ∷ s) buf =
    let rest = fill s (buf ++ (c ∷ [])) in if leb path_size (length buf + 1) then none else rest

-- The working directory if the path is relative, a slash, and the path.
unfoldable pub joined : Text → Text → Option Text
joined cwd path =
    bind (if starts_with_slash path then some [] else fill cwd [])
      λ buf. bind (fill (slash ∷ []) buf) (fill path)

-- The output, and the positions at which its components start, the last one first.
pub record Output : Type 0 where
  pub out : Text
  pub starts : List ℕ

abbrev pub is_dot : Text → Bool
is_dot (a ∷ []) = a == dot
is_dot _ = false

abbrev pub is_dot_dot : Text → Bool
is_dot_dot (a ∷ b ∷ []) = (a == dot) && (b == dot)
is_dot_dot _ = false

abbrev pub go_up : Output → Output
go_up o = up o.starts o.out
  where
    up : List ℕ → Text → Output
    up [] out = record { out = out; starts = [] }
    up (s ∷ ss) out = record { out = take s out; starts = ss }

-- What the loop does with one component.
unfoldable pub component : ℕ → Text → Output → Option Output
component outsz word o =
    if is_dot word
    then some o
    else if is_dot_dot word
    then some (go_up o)
    else if leb 64 (length o.starts)
    then none
    else if leb outsz (length o.out + 1 + length word + 1)
    then none
    else some (record { out = o.out ++ (slash ∷ word); starts = length o.out ∷ o.starts })

abbrev pub is_empty : Text → Bool
is_empty [] = true
is_empty (c ∷ r) = false

-- The loop over the buffer; `word` is the component that has been read so far.
unfoldable pub walk : ℕ → Text → Text → Output → Option Output
walk outsz [] word o = if is_empty word then some o else component outsz word o
walk outsz (c ∷ cs) word o = elim (c == slash) [
  | true ↦ bind (if is_empty word then some o else component outsz word o) (walk outsz cs [])
  | false ↦ walk outsz cs (word ++ (c ∷ [])) o
]

-- The root, for a path with no component left.
unfoldable pub finish : ℕ → Output → Option Text
finish outsz o =
    if is_empty o.out then (if ltb outsz 2 then none else some (slash ∷ [])) else some o.out

unfoldable pub vfs_resolve : Text → Text → ℕ → Option Text
vfs_resolve cwd path outsz =
    bind (joined cwd path)
      λ buf. bind (walk outsz buf [] (record { out = []; starts = [] })) (finish outsz)
