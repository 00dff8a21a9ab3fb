-- ===== src/Keyboard/Keys.antt =====
-- The keys of src/keyboard.c: modifiers, letters, and what an interrupt adds to the queue.
use computer_os.Prelude.{
  ℕ, ◌-◌, ◌<◌, ◌≤◌, ◌≡◌, refl, Bool, true, false, ◌&&◌, ◌||◌, not, Option, none, some, ltb, ◌==◌,
  if◌then◌else◌, arith, get_or, get_or-beyond, Bool-cases, inl, inr,
}
use computer_os.Prelude.Search.{each_below, each_below_at}
use computer_os.Keyboard.{
  Keyboard, scancode_to_ascii, scancode_to_ascii_shift, is_lower, push_char, translate_extended,
  apply_caps, apply_ctrl, key_char, deliver, release, press_extended, press, keyboard_irq,
}

-- The modifiers and the prefix, apart from the ring.
abbrev Same : Keyboard → Keyboard → Type 0
Same k k' =
    (k'.shift_down ≡ k.shift_down)
    × (k'.caps_lock ≡ k.caps_lock)
    × (k'.ctrl_down ≡ k.ctrl_down)
    × (k'.extended ≡ k.extended)

push_char-Same : (c : ℕ) (k : Keyboard) → Same k (push_char c k)
unfolding push_char
push_char-Same c k = ground arith

deliver-Same : (intr : ℕ → Bool) (c : Option ℕ) (k : Keyboard) → Same k (deliver intr c k)
unfolding deliver
deliver-Same intr none k = (refl, refl, refl, refl)
deliver-Same intr (some c) k = ground (arith, push_char-Same c k)

-- After an interrupt with any byte, shift and control are down if they have just been pressed, or
-- were down and have not just been released; caps lock has changed if its key has just been
-- pressed; none of these does so behind the prefix of an extended key, and the prefix is set
-- exactly if it has just been sent.
pub keyboard_irq-flags :
    (intr : ℕ → Bool) (sc : ℕ) (k : Keyboard)
    → sc < 256
    → let k' = keyboard_irq intr sc k in
      (k'.shift_down ≡ (
        if k.extended
        then k.shift_down
        else ((sc == 0x2a) || (sc == 0x36))
          || (k.shift_down && not ((sc == 0xaa) || (sc == 0xb6)))))
      × (k'.ctrl_down
          ≡ (if k.extended then k.ctrl_down else (sc == 0x1d) || (k.ctrl_down && not (sc == 0x9d))))
      × (k'.caps_lock ≡ (if (sc == 0x3a) && not k.extended then not k.caps_lock else k.caps_lock))
      × (k'.extended ≡ (sc == 0xe0))
unfolding keyboard_irq release press_extended press
keyboard_irq-flags intr sc k byte = ground (
  arith,
  push_char-Same (translate_extended sc) (record k { extended = false }),
  push_char-Same 0x89 k,
  deliver-Same intr (key_char k.shift_down k.caps_lock k.ctrl_down sc) k,
)

-- What a letter key gives, by the modifiers: caps lock and shift undo each other.
abbrev pub typed : Bool → Bool → Bool → ℕ → ℕ
typed shift caps ctrl letter =
    if ctrl
    then letter - 96
    else if (if caps then not shift else shift)
    then letter - 32
    else letter

abbrev pub plain : ℕ → ℕ
plain sc = get_or scancode_to_ascii sc 0

abbrev gives : ℕ → Option ℕ → Bool
gives c none = false
gives c (some d) = d == c

gives-eq : (c : ℕ) (o : Option ℕ) → gives c o ≡ true → o ≡ some c
gives-eq c none h = cc
gives-eq c (some d) h = ground arith

letter_row : Bool → Bool → Bool → ℕ → Bool
letter_row shift caps ctrl sc =
    not (is_lower (plain sc))
    || gives (typed shift caps ctrl (plain sc)) (key_char shift caps ctrl sc)

letter_table : (shift caps ctrl : Bool) → each_below 60 (letter_row shift caps ctrl) ≡ true
unfolding each_below letter_row key_char apply_caps apply_ctrl
letter_table false false false = refl
letter_table false false true = refl
letter_table false true false = refl
letter_table false true true = refl
letter_table true false false = refl
letter_table true false true = refl
letter_table true true false = refl
letter_table true true true = refl

-- For every scancode of a letter and all eight states of the modifiers: control gives its control
-- character, from 1 for a; without control the letter is a capital if exactly one of shift and caps
-- lock is on.
pub key_char-typed :
    (shift caps ctrl : Bool) (sc : ℕ)
    → is_lower (plain sc) ≡ true
    → key_char shift caps ctrl sc ≡ some (typed shift caps ctrl (plain sc))
unfolding letter_row
key_char-typed shift caps ctrl sc letter = elim (Bool-cases (ltb sc 60)) [
  | inl small ↦
      let row =
        each_below_at 60 (letter_row shift caps ctrl) (letter_table shift caps ctrl) sc
          (ground arith) in
      gives-eq (typed shift caps ctrl (plain sc)) (key_char shift caps ctrl sc)
        (ground (arith, row))
  | inr large ↦ absurd (ground (arith, get_or-beyond scancode_to_ascii sc 0 (ground arith)))
]

abbrev pub in_ascii : Option ℕ → Bool
in_ascii none = true
in_ascii (some c) = ltb 0 c && ltb c 128

ascii_row : Bool → Bool → Bool → ℕ → Bool
ascii_row shift caps ctrl sc = in_ascii (key_char shift caps ctrl sc)

ascii_table : (shift caps ctrl : Bool) → each_below 60 (ascii_row shift caps ctrl) ≡ true
unfolding each_below ascii_row key_char apply_caps apply_ctrl
ascii_table false false false = refl
ascii_table false false true = refl
ascii_table false true false = refl
ascii_table false true true = refl
ascii_table true false false = refl
ascii_table true false true = refl
ascii_table true true false = refl
ascii_table true true true = refl

key_char-beyond : (shift caps ctrl : Bool) (sc : ℕ) → 60 ≤ sc → key_char shift caps ctrl sc ≡ none
unfolding key_char
key_char-beyond true caps ctrl sc far = rw (get_or-beyond scancode_to_ascii_shift sc 0 far) refl
key_char-beyond false caps ctrl sc far = rw (get_or-beyond scancode_to_ascii sc 0 far) refl

pub key_char-ascii :
    (shift caps ctrl : Bool) (sc : ℕ) → in_ascii (key_char shift caps ctrl sc) ≡ true
unfolding ascii_row
key_char-ascii shift caps ctrl sc = elim (Bool-cases (ltb sc 60)) [
  | inl small ↦
      each_below_at 60 (ascii_row shift caps ctrl) (ascii_table shift caps ctrl) sc (ground arith)
  | inr large ↦ rw (key_char-beyond shift caps ctrl sc (ground arith)) refl
]
