-- ===== src/Vfs/Window/Slice.antt =====
-- `vfs_read_at` of src/vfs.c on a file system without `read_file_at`.
use computer_os.Prelude.{
  ℕ, zero, suc, ◌+◌, ◌%◌, ◌^◌, ◌≤◌, ◌<◌, ◌≡◌, refl, sym, ap, true, false, not, Option, none, some,
  [], ◌∷◌, ltb, ◌==◌, length, take, drop, arith, Bool-cases, inl, inr, ◌⊎◌, length-take, min,
}
use computer_os.Vfs.Path.{Text}
use computer_os.Vfs.Mount.{Ops, Vfs, resolve_route}
use computer_os.Vfs.Window.{fetched, window, vfs_read_at}

take_nil : (n : ℕ) → take {A = ℕ} n [] ≡ []
take_nil zero = refl
take_nil (suc n) = refl

take-take : (n : ℕ) (c : Text) → take n (take n c) ≡ take n c
take-take zero c = refl
take-take (suc n) [] = refl
take-take (suc n) (x ∷ c) = ap (λ (r : Text). x ∷ r) (take-take n c)

take-drop-take :
    (len offset : ℕ) (c : Text)
    → take len (drop offset (take (offset + len) c)) ≡ take len (drop offset c)
take-drop-take len zero c = let e : 0 + len ≡ len = omega arith in rw e (take-take len c)
take-drop-take len (suc offset) [] =
    let e : suc offset + len ≡ suc (offset + len) = omega arith in rw e refl
take-drop-take len (suc offset) (x ∷ c) =
    let e : suc offset + len ≡ suc (offset + len) = omega arith in
    rw e (take-drop-take len offset c)

drop_all : (offset : ℕ) (c : Text) → length c ≤ offset → drop offset c ≡ []
drop_all zero [] h = refl
drop_all zero (x ∷ c) h = absurd (ground arith)
drop_all (suc offset) [] h = refl
drop_all (suc offset) (x ∷ c) h = drop_all offset c (omega arith)

window-slice :
    (offset len : ℕ) (c : Text)
    → offset < 2 ^ 31
    → window offset len (some (take (offset + len) c)) ≡ fetched (take len (drop offset c))
unfolding window
window-slice offset len c h =
    let b : not (ltb offset (2 ^ 31)) ≡ false = ground arith in
    let l : length (take (offset + len) c) ≡ min (offset + len) (length c) =
      length-take (offset + len) c in
    elim (Bool-cases (ltb offset (length (take (offset + len) c)))) [
      | inl e ↦ rw (b, e, take-drop-take len offset c) refl
      | inr e ↦ rw (b, e) (ap fetched (sym (short len c (ground (arith, l)))))
    ]
  where
    short : (len : ℕ) (c : Text) → (length c ≤ offset) ⊎ (len ≡ 0) → take len (drop offset c) ≡ []
    short len c (inl n) = rw (drop_all offset c n) (take_nil len)
    short len c (inr z) = rw z refl

module _ {S : Type 0} where
  -- The window is that part of the file.
  pub vfs_read_at-slice :
      (v : Vfs S) (path sub c : Text) (i : ℕ) (o : Ops S) (offset len : ℕ) (f : S)
      (read : Text → ℕ → S → Option Text × S)
      → resolve_route v path ≡ some (i, o, sub)
      → o.read_file_at ≡ none
      → o.read_file ≡ some read
      → read sub (offset + len) v.files ≡ (some (take (offset + len) c), f)
      → offset < 2 ^ 31
      → offset + len < 2 ^ 32
      → 0 < len
      → vfs_read_at true path offset len v
        ≡ (fetched (take len (drop offset c)), record v { files = f })
  unfolding vfs_read_at
  vfs_read_at-slice v path sub c i o offset len f read e n r k h b p =
      let z : (len == 0) ≡ false = ground arith in
      let m : (offset + len) % 2 ^ 32 ≡ offset + len = omega arith in
      rw (z, e, n, r, m, k, window-slice offset len c h) refl
