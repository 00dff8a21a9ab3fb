-- ===== src/Uaccess.antt =====
-- src/uaccess.c: copies between the kernel and the memory of a program.
pub mod Range
pub mod Copies
pub mod Strings
mod Tests
use computer_os.Prelude.{
  ℕ, zero, suc, ◌+◌, ◌^◌, Bool, true, false, ◌&&◌, ◌||◌, not, Option, none, some, List, [], ◌∷◌,
  ◌++◌, ℤ, negsuc, int_of, ltb, leb, ◌==◌, if◌then◌else◌, length, take, drop, u64,
}

abbrev pub user_limit : ℕ
user_limit = 0x0000800000000000

unfoldable pub user_range_ok : ℕ → ℕ → Bool
user_range_ok a len =
    if leb user_limit a
    then false
    else if len == 0
    then true
    else if ltb (u64 (a + len)) a
    then false
    else if ltb user_limit (u64 (a + len))
    then false
    else true

-- The memory of the program: which addresses can be read and written without a fault.
pub record Memory : Type 0 where
  pub readable : ℕ → Bool
  pub writable : ℕ → Bool
  pub byte : ℕ → ℕ

-- What the task keeps of an access.
pub record Access : Type 0 where
  pub in_user_access : Bool
  pub uaccess_faulted : Bool

-- The start of an access, and its end at `fault_label`.
abbrev pub enter_access : Access → Access
enter_access t = record { in_user_access = true; uaccess_faulted = false }

abbrev pub leave_access : Access → Access
leave_access t = record t { in_user_access = false }

-- `vmm_page_fault` within an access: it goes on at `fault_label`.
abbrev pub fault : Access → Access
fault t = if t.in_user_access then record { in_user_access = false; uaccess_faulted = true } else t

-- -1 after a fault.
abbrev pub status : Access → Bool
status t = not t.uaccess_faulted

-- The bytes that are read before a fault.
unfoldable pub read_bytes : Memory → ℕ → ℕ → Access → List ℕ × Access
read_bytes m a zero t = ([], t)
read_bytes m a (suc n) t =
    let rest = read_bytes m (a + 1) n t in
    if m.readable a then (m.byte a ∷ rest.0, rest.1) else ([], fault t)

abbrev pub put : Memory → ℕ → ℕ → Memory
put m a b = record m { byte = λ x. if x == a then b else m.byte x }

-- The memory after the writes before a fault.
unfoldable pub write_bytes : Memory → ℕ → List ℕ → Access → Memory × Access
write_bytes m a [] t = (m, t)
write_bytes m a (b ∷ bs) t =
    let rest = write_bytes (put m a b) (a + 1) bs t in if m.writable a then rest else (m, fault t)

-- The result 0, the bytes of the destination, and the task.
abbrev pub copied_in : List ℕ → List ℕ × Access → Bool × List ℕ × Option Access
copied_in dst (bs, t) = (status t, bs ++ drop (length bs) dst, some (leave_access t))

unfoldable pub copy_from_user :
    Memory → List ℕ → ℕ → ℕ → Option Access → Bool × List ℕ × Option Access
copy_from_user m dst src len none = (user_range_ok src len && (len == 0), dst, none)
copy_from_user m dst src len (some t) =
    if not (user_range_ok src len)
    then (false, dst, some t)
    else if len == 0
    then (true, dst, some t)
    else copied_in dst (read_bytes m src len (enter_access t))

abbrev pub copied_out : Memory × Access → Bool × Memory × Option Access
copied_out (m, t) = (status t, m, some (leave_access t))

-- `src` are the bytes to write.
unfoldable pub copy_to_user : Memory → ℕ → List ℕ → Option Access → Bool × Memory × Option Access
copy_to_user m dst src none = (user_range_ok dst (length src) && (length src == 0), m, none)
copy_to_user m dst src (some t) =
    if not (user_range_ok dst (length src))
    then (false, m, some t)
    else if length src == 0
    then (true, m, some t)
    else copied_out (write_bytes m dst src (enter_access t))

-- The 0 after that many bytes, a fault, or no 0 among those that may be read.
pub data Scan : Type 0 where
  ends_at : ℕ → Scan
  faults : Scan
  unended : Scan

abbrev pub one_later : Scan → Scan
one_later (ends_at n) = ends_at (suc n)
one_later faults = faults
one_later unended = unended

-- The loop of `strnlen_user`, over `k` more bytes.
unfoldable pub scan_user : Memory → ℕ → ℕ → Scan
scan_user m a zero = unended
scan_user m a (suc k) =
    let rest = scan_user m (a + 1) k in
    if leb user_limit a
    then faults
    else if not (m.readable a)
    then faults
    else if m.byte a == 0
    then ends_at 0
    else one_later rest

-- `return (int)n;`, or -1.
abbrev pub scanned : Scan → ℤ × Option Access
scanned (ends_at n) = (int_of n, some (record { in_user_access = false; uaccess_faulted = false }))
scanned faults = (negsuc 0, some (record { in_user_access = false; uaccess_faulted = true }))
scanned unended = (negsuc 0, some (record { in_user_access = false; uaccess_faulted = false }))

unfoldable pub strnlen_user : Memory → ℕ → ℕ → Option Access → ℤ × Option Access
strnlen_user m a n none = (negsuc 0, none)
strnlen_user m a n (some t) =
    if (n == 0) || not (user_range_ok a 1) then (negsuc 0, some t) else scanned (scan_user m a n)
