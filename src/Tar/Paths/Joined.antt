-- ===== src/Tar/Paths/Joined.antt =====
-- What `join_path` of src/tar.c makes.
use computer_os.Prelude.{
  ℕ, ◌-◌, ◌≤◌, ◌<◌, ◌≡◌, refl, Bool, true, ◌&&◌, not, [], ◌∷◌, ◌==◌, if◌then◌else◌, length, take,
  arith, Bool-cases, inl, inr, length-append, length-take, min,
}
use computer_os.Vfs.Path.{Text, slash, is_empty}
use computer_os.Tar.{append_in}
use computer_os.Tar.Paths.{strip_end, strip_slashes, skip_slashes, join_path}

-- The last character is no slash.
unfoldable pub open_ended : Text → Bool
open_ended [] = true
open_ended (c ∷ s) = if is_empty s then not (c == slash) else open_ended s

strip_end-open_ended : (s : Text) → open_ended (strip_end s) ≡ true
unfolding strip_end open_ended
strip_end-open_ended [] = refl
strip_end-open_ended (c ∷ s) = cut (strip_end s) (strip_end-open_ended s)
  where
    cut :
        (r : Text)
        → open_ended r ≡ true
        → open_ended (if (c == slash) && is_empty r then [] else c ∷ r) ≡ true
    cut [] h = elim (Bool-cases (c == slash)) [
      | inl e ↦ rw e refl
      | inr e ↦ rw (e, open_ended) (ground arith)
    ]
    cut (x ∷ r) h = elim (Bool-cases (c == slash)) [ inl e ↦ rw e h | inr e ↦ rw e h ]

length-strip_end : (s : Text) → length (strip_end s) ≤ length s
unfolding strip_end
length-strip_end [] = omega arith
length-strip_end (c ∷ s) = elim (Bool-cases ((c == slash) && is_empty (strip_end s))) [
  | inl e ↦ rw e (omega arith)
  | inr e ↦ rw e (omega (arith, length-strip_end s))
]

-- The root is the one text that may end with a slash.
abbrev pub tail_open : Text → Bool
tail_open [] = true
tail_open (c ∷ s) = open_ended s

strip_slashes-tail_open : (s : Text) → tail_open (strip_slashes s) ≡ true
strip_slashes-tail_open [] = refl
strip_slashes-tail_open (c ∷ s) = strip_end-open_ended s

length-strip_slashes : (s : Text) → length (strip_slashes s) ≤ length s
length-strip_slashes [] = omega arith
length-strip_slashes (c ∷ s) = omega (arith, length-strip_end s)

length-append_in :
    (limit : ℕ) (out s : Text) → length out ≤ limit → length (append_in limit out s) ≤ limit
length-append_in limit out s h =
    let e : length (take (limit - length out) s) ≡ min (limit - length out) (length s) =
      length-take (limit - length out) s in
    rw (length-append out (take (limit - length out) s)) (omega arith)

-- For a buffer that is not empty, the path that `join_path` makes is shorter than the buffer, so
-- that its 0 fits, and no slash ends it behind its first character.
pub join_path-bounds :
    (dir entry : Text) (outsz : ℕ)
    → 0 < outsz
    → (length (join_path dir entry outsz) < outsz) × (tail_open (join_path dir entry outsz) ≡ true)
unfolding join_path
join_path-bounds dir entry outsz h =
    let a = strip_slashes (take (outsz - 1) dir) in
    let b = append_in (outsz - 1) a (slash ∷ []) in
    let t : length (take (outsz - 1) dir) ≡ min (outsz - 1) (length dir) =
      length-take (outsz - 1) dir in
    let n : length a ≤ outsz - 1 = omega (arith, length-strip_slashes (take (outsz - 1) dir)) in
    let m : length b ≤ outsz - 1 = length-append_in (outsz - 1) a (slash ∷ []) n in
    let k = length-append_in (outsz - 1) b (skip_slashes entry) m in
    (
      omega (arith, length-strip_slashes (append_in (outsz - 1) b (skip_slashes entry))),
      strip_slashes-tail_open _,
    )
