-- ===== src/Uaccess/Tests.antt =====
-- Copies of src/uaccess.c, and the theorems at a small memory.
use computer_os.Prelude.{
  ◌≡◌, refl, true, false, ◌&&◌, some, [], ◌∷◌, ltb, leb, ◌==◌, if◌then◌else◌, arith, pos, int_of,
}
use computer_os.Uaccess.{
  user_range_ok, Memory, Access, copy_from_user, copy_to_user, strnlen_user, scan_user,
}
use computer_os.Uaccess.Copies.{
  all_from, bytes_at, run_length, after_access, written, copy_from_user-bytes,
  copy_from_user-copy_to_user,
}
use computer_os.Uaccess.Strings.{Strnlen, strnlen_user-Measured}

-- The bytes 7, 9, 0, 0 at the addresses from 100 to 103; nothing else is mapped.
abbrev small : Memory
small = record {
  readable = λ x. leb 100 x && ltb x 104;
  writable = λ x. leb 100 x && ltb x 104;
  byte = λ x. if x == 100 then 7 else if x == 101 then 9 else 0;
}

abbrev idle : Access
idle = record { in_user_access = false; uaccess_faulted = false }

length_run : strnlen_user small 100 10 (some idle) ≡ (pos 2, some idle)
unfolding strnlen_user scan_user user_range_ok int_of
length_run = refl

-- The third byte behind 102 is not mapped.
copy_from_user-bytes_example :
    copy_from_user small (1 ∷ 2 ∷ 3 ∷ []) 102 3 (some idle)
    ≡ (false, 0 ∷ 0 ∷ 3 ∷ [], some (record { in_user_access = false; uaccess_faulted = true }))
unfolding all_from bytes_at run_length user_range_ok
copy_from_user-bytes_example =
    copy_from_user-bytes small (1 ∷ 2 ∷ 3 ∷ []) 102 3 idle refl (omega arith)

copy_from_user-copy_to_user_example :
    (copy_to_user small 100 (4 ∷ 5 ∷ []) (some idle)
      ≡ (true, written small 100 (4 ∷ 5 ∷ []), some (after_access true)))
    × (copy_from_user (written small 100 (4 ∷ 5 ∷ [])) (1 ∷ 2 ∷ 3 ∷ []) 100 2 (some idle)
        ≡ (true, 4 ∷ 5 ∷ 3 ∷ [], some (after_access true)))
unfolding all_from user_range_ok
copy_from_user-copy_to_user_example =
    copy_from_user-copy_to_user small 100 (4 ∷ 5 ∷ []) (1 ∷ 2 ∷ 3 ∷ []) idle idle refl (omega arith)
      refl refl

strnlen_user-Measured_example : Strnlen small 100 10 (strnlen_user small 100 10 (some idle))
strnlen_user-Measured_example = strnlen_user-Measured small 100 10 idle (omega arith)
