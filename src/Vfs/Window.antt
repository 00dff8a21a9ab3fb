-- ===== src/Vfs/Window.antt =====
-- `vfs_read_at` of src/vfs.c: a window of a file, on a file system with `read_file_at` or without.
pub mod Slice
use computer_os.Prelude.{
  ℕ, zero, suc, ◌+◌, ◌%◌, ◌^◌, Bool, true, false, not, Option, none, some, List, [], ◌∷◌, ltb, leb,
  ◌==◌, if◌then◌else◌, length, take, drop, ◌-◌, ◌||◌,
}
use computer_os.Vfs.Path.{Text}
use computer_os.Vfs.Mount.{Ops, Vfs, resolve_route}
use computer_os.Vfs.Ops.{keep}

-- The result -1, the bytes put in the buffer, or bytes that are not the file's.
pub data Fetched : Type 0 where
  failed : Fetched
  fetched : Text → Fetched
  beyond : Fetched

abbrev pub from_read : Option Text → Fetched
from_read none = failed
from_read (some bytes) = fetched bytes

-- The copy out of `tmp`. `(int)offset` is negative from 2 ^ 31 on, and then smaller than any
-- length; -1 is smaller than the others only.
unfoldable pub window : ℕ → ℕ → Option Text → Fetched
window offset len none =
    if ltb offset (2 ^ 31) || (offset == 2 ^ 32 - 1) then fetched [] else beyond
window offset len (some bytes) =
    if not (ltb offset (2 ^ 31))
    then beyond
    else if ltb offset (length bytes)
    then fetched (take len (drop offset bytes))
    else fetched []

module _ {S : Type 0} where
  abbrev pub read_window : ℕ → ℕ → Option Text × S → Fetched × S
  read_window offset len (r, s) = (window offset len r, s)

  abbrev pub direct : Option Text × S → Fetched × S
  direct (r, s) = (from_read r, s)

  -- `room` says whether `kmalloc` finds memory for `tmp`.
  abbrev pub fetch :
      Bool
      → ℕ
      → ℕ
      → Text
      → Option (Text → ℕ → ℕ → S → Option Text × S)
      → Option (Text → ℕ → S → Option Text × S)
      → S
      → Fetched × S
  fetch room offset len sub (some read_at) read s = direct (read_at sub offset len s)
  fetch room offset len sub none none s = (failed, s)
  fetch room offset len sub none (some read) s =
      if room then read_window offset len (read sub ((offset + len) % 2 ^ 32) s) else (failed, s)

  abbrev pub fetch_routed : Bool → ℕ → ℕ → Option (ℕ × Ops S × Text) → Vfs S → Fetched × Vfs S
  fetch_routed room offset len none v = (failed, v)
  fetch_routed room offset len (some (i, o, sub)) v =
      keep v (fetch room offset len sub o.read_file_at o.read_file v.files)

  unfoldable pub vfs_read_at : Bool → Text → ℕ → ℕ → Vfs S → Fetched × Vfs S
  vfs_read_at room path offset len v =
      if len == 0 then (fetched [], v) else fetch_routed room offset len (resolve_route v path) v
