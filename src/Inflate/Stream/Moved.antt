-- ===== src/Inflate/Stream/Moved.antt =====
-- Moving on in the bit stream of src/inflate.c.
use computer_os.Prelude.{ℕ, ◌≤◌, ◌≡◌, refl, ◌∙◌, ◌%◌, arith, ◌^◌}
use native.Mathlib.Nat.{div-le_self}
use computer_os.Inflate.Stream.{BitStream, bs_read, bs_align, bs_read_u16_le}
use computer_os.Inflate.Stream.Fill.{IsValid, unread}
use computer_os.Inflate.Stream.Read.{Dropped, bs_read-lem, bs_align-Dropped}

-- A reader that has moved on over the same input.
pub record Moved (bs bs' : BitStream) : Type 0 where
  pub valid : IsValid bs'
  pub less : unread bs' ≤ unread bs
  pub src : bs'.src ≡ bs.src

pub Moved-refl : {bs : BitStream} → IsValid bs → Moved bs bs
Moved-refl v = record { valid = v; less = omega arith; src = refl }

pub Moved-trans : {a b c : BitStream} → Moved a b → Moved b c → Moved a c
Moved-trans p q = record {
  valid = q.valid;
  less = omega (arith, p.less, q.less);
  src = q.src ∙ p.src;
}

pub Moved-of_Dropped : (n : ℕ) {a b : BitStream} → Dropped n a b → Moved a b
Moved-of_Dropped n {a} d = record {
  valid = d.valid;
  less = omega (arith, d.rest, div-le_self (unread a) (2 ^ n));
  src = d.src;
}

pub bs_read-Moved : (n : ℕ) (bs : BitStream) → IsValid bs → n ≤ 24 → Moved bs (bs_read n bs).1
bs_read-Moved n bs v small = Moved-of_Dropped n (bs_read-lem n bs v small).1

pub u16-Moved : (bs : BitStream) → IsValid bs → Moved bs (bs_read_u16_le bs).1
unfolding bs_read_u16_le
u16-Moved bs v =
    let aligned = Moved-of_Dropped (bs.nbits % 8) (bs_align-Dropped bs v).0 in
    let low = bs_read-Moved 8 (bs_align bs) aligned.valid (omega arith) in
    Moved-trans aligned
      (Moved-trans low (bs_read-Moved 8 (bs_read 8 (bs_align bs)).1 low.valid (omega arith)))
