-- ===== src/Uaccess/Copies.antt =====
-- The copies of src/uaccess.c.
use computer_os.Prelude.{
  ℕ, zero, suc, ◌+◌, ◌<◌, ◌≡◌, refl, ap, ◌∙◌, Bool, true, false, ◌&&◌, not, Option, some, List, [],
  ◌∷◌, ◌++◌, ◌==◌, if◌then◌else◌, length, drop, arith, Bool-cases, inl, inr,
}
use computer_os.Uaccess.{
  user_range_ok, Memory, Access, enter_access, leave_access, fault, status, read_bytes, put,
  write_bytes, copy_from_user, copy_to_user,
}

-- The addresses from `a` on can be read, or written.
unfoldable pub all_from : (ℕ → Bool) → ℕ → ℕ → Bool
all_from ok a zero = true
all_from ok a (suc n) = ok a && all_from ok (a + 1) n

-- The bytes of the memory.
unfoldable pub bytes_at : Memory → ℕ → ℕ → List ℕ
bytes_at m a zero = []
bytes_at m a (suc n) = m.byte a ∷ bytes_at m (a + 1) n

unfoldable pub run_length : (ℕ → Bool) → ℕ → ℕ → ℕ
run_length ok a zero = 0
run_length ok a (suc n) = let rest = run_length ok (a + 1) n in if ok a then suc rest else 0

length-bytes_at : (m : Memory) (a n : ℕ) → length (bytes_at m a n) ≡ n
unfolding bytes_at
length-bytes_at m a zero = refl
length-bytes_at m a (suc n) = ap suc (length-bytes_at m (a + 1) n)

read_bytes-run :
    (m : Memory) (a n : ℕ) (t : Access)
    → read_bytes m a n t
      ≡ (bytes_at m a (run_length m.readable a n), if all_from m.readable a n then t else fault t)
unfolding read_bytes bytes_at run_length all_from
read_bytes-run m a zero t = refl
read_bytes-run m a (suc n) t = elim (Bool-cases (m.readable a)) [
  | inl e ↦ rw (e, read_bytes-run m (a + 1) n t) refl
  | inr e ↦ rw e refl
]

-- The task after an access.
abbrev pub after_access : Bool → Access
after_access ok = record { in_user_access = false; uaccess_faulted = not ok }

abbrev pub read_so_far : Memory → List ℕ → ℕ → ℕ → List ℕ
read_so_far m dst src len = let k = run_length m.readable src len in bytes_at m src k ++ drop k dst

-- For a range that `user_range_ok` admits and that is not empty, `copy_from_user` of a task returns
-- 0 exactly if every byte can be read. The destination holds the bytes before the first one that
-- cannot be read and is unchanged behind them, and the task is out of the access and has faulted
-- exactly if the result is -1.
pub copy_from_user-bytes :
    (m : Memory) (dst : List ℕ) (src len : ℕ) (t : Access)
    → user_range_ok src len ≡ true
    → 0 < len
    → copy_from_user m dst src len (some t) ≡ (
      all_from m.readable src len,
      read_so_far m dst src len,
      some (after_access (all_from m.readable src len)),
    )
unfolding copy_from_user
copy_from_user-bytes m dst src len t r p =
    let z : (len == 0) ≡ false = ground arith in
    rw
      (
        r,
        z,
        read_bytes-run m src len (enter_access t),
        length-bytes_at m src (run_length m.readable src len),
      )
      (ended (all_from m.readable src len))
  where
    ended :
        (ok : Bool)
        → ◌≡◌ {A = Bool × List ℕ × Option Access}
            (
              status (if ok then enter_access t else fault (enter_access t)),
              read_so_far m dst src len,
              some (leave_access (if ok then enter_access t else fault (enter_access t))),
            )
            (ok, read_so_far m dst src len, some (after_access ok))
    ended true = refl
    ended false = refl

-- Writes that do not fault, one behind another.
unfoldable pub written : Memory → ℕ → List ℕ → Memory
written m a [] = m
written m a (b ∷ bs) = written (put m a b) (a + 1) bs

write_bytes-written :
    (m : Memory) (a : ℕ) (bs : List ℕ) (t : Access)
    → all_from m.writable a (length bs) ≡ true
    → write_bytes m a bs t ≡ (written m a bs, t)
unfolding write_bytes written all_from
write_bytes-written m a [] t h = refl
write_bytes-written m a (b ∷ bs) t h =
    let e : m.writable a ≡ true = ground arith in
    rw e (write_bytes-written (put m a b) (a + 1) bs t (ground arith))

written-below :
    (m : Memory) (a : ℕ) (bs : List ℕ) (x : ℕ) → x < a → (written m a bs).byte x ≡ m.byte x
unfolding written
written-below m a [] x h = refl
written-below m a (b ∷ bs) x h =
    let e : (x == a) ≡ false = ground arith in
    written-below (put m a b) (a + 1) bs x (omega arith) ∙ rw e refl

readable-written : (m : Memory) (a : ℕ) (bs : List ℕ) → (written m a bs).readable ≡ m.readable
unfolding written
readable-written m a [] = refl
readable-written m a (b ∷ bs) = readable-written (put m a b) (a + 1) bs

bytes_at-written : (m : Memory) (a : ℕ) (bs : List ℕ) → bytes_at (written m a bs) a (length bs) ≡ bs
unfolding bytes_at written
bytes_at-written m a [] = refl
bytes_at-written m a (b ∷ bs) =
    let e : (a == a) ≡ true = ground arith in
    let f : (written (put m a b) (a + 1) bs).byte a ≡ b =
      written-below (put m a b) (a + 1) bs a (omega arith) ∙ rw e refl in
    rw (f, bytes_at-written (put m a b) (a + 1) bs) refl

run_length-all : (ok : ℕ → Bool) (a n : ℕ) → all_from ok a n ≡ true → run_length ok a n ≡ n
unfolding run_length all_from
run_length-all ok a zero h = refl
run_length-all ok a (suc n) h =
    let e : ok a ≡ true = ground arith in rw (e, run_length-all ok (a + 1) n (ground arith)) refl

-- For bytes to an admitted range that is not empty and can be written and read, `copy_to_user`
-- returns 0, and `copy_from_user` of that range then returns 0 and gives the bytes.
pub copy_from_user-copy_to_user :
    (m : Memory) (a : ℕ) (bs buf : List ℕ) (t u : Access)
    → user_range_ok a (length bs) ≡ true
    → 0 < length bs
    → all_from m.writable a (length bs) ≡ true
    → all_from m.readable a (length bs) ≡ true
    → (copy_to_user m a bs (some t) ≡ (true, written m a bs, some (after_access true)))
      × (copy_from_user (written m a bs) buf a (length bs) (some u)
          ≡ (true, bs ++ drop (length bs) buf, some (after_access true)))
unfolding copy_to_user
copy_from_user-copy_to_user m a bs buf t u r p w h =
    let z : (length bs == 0) ≡ false = ground arith in
    let k : all_from (written m a bs).readable a (length bs) ≡ true =
      rw (readable-written m a bs) h in
    (
      rw (r, z, write_bytes-written m a bs (enter_access t) w) refl,
      copy_from_user-bytes (written m a bs) buf a (length bs) u r p
          ∙ rw
              (k, run_length-all (written m a bs).readable a (length bs) k, bytes_at-written m a bs)
              refl,
    )
