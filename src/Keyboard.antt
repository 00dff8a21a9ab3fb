-- ===== src/Keyboard.antt =====
-- The keyboard driver of src/keyboard.c: the ring of characters, and the state machine that turns
-- scancodes into characters. The type `char` is a byte.
pub mod Ring
pub mod Keys
pub mod Irq
mod Tests
use computer_os.Prelude.{
  ℕ, zero, suc, ◌+◌, ◌-◌, ◌%◌, ◌^◌, Bool, true, false, ◌&&◌, ◌||◌, not, Option, none, some, List,
  [], ◌∷◌, ltb, leb, ◌==◌, if◌then◌else◌, get_or, set,
}

abbrev pub scancode_to_ascii : List ℕ
scancode_to_ascii =
    0 ∷ 27 ∷ 49 ∷ 50 ∷ 51 ∷ 52 ∷ 53 ∷ 54 ∷ 55 ∷ 56 ∷ 57 ∷ 48 ∷ 45 ∷ 61 ∷ 8 ∷ 9 ∷ 113 ∷ 119 ∷ 101
    ∷ 114 ∷ 116 ∷ 121 ∷ 117 ∷ 105 ∷ 111 ∷ 112 ∷ 91 ∷ 93 ∷ 10 ∷ 0 ∷ 97 ∷ 115 ∷ 100 ∷ 102 ∷ 103 ∷ 104
    ∷ 106 ∷ 107 ∷ 108 ∷ 59 ∷ 39 ∷ 96 ∷ 0 ∷ 92 ∷ 122 ∷ 120 ∷ 99 ∷ 118 ∷ 98 ∷ 110 ∷ 109 ∷ 44 ∷ 46 ∷ 47
    ∷ 0 ∷ 42 ∷ 0 ∷ 32 ∷ 0 ∷ 0 ∷ []

abbrev pub scancode_to_ascii_shift : List ℕ
scancode_to_ascii_shift =
    0 ∷ 27 ∷ 33 ∷ 64 ∷ 35 ∷ 36 ∷ 37 ∷ 94 ∷ 38 ∷ 42 ∷ 40 ∷ 41 ∷ 95 ∷ 43 ∷ 8 ∷ 9 ∷ 81 ∷ 87 ∷ 69 ∷ 82
    ∷ 84 ∷ 89 ∷ 85 ∷ 73 ∷ 79 ∷ 80 ∷ 123 ∷ 125 ∷ 10 ∷ 0 ∷ 65 ∷ 83 ∷ 68 ∷ 70 ∷ 71 ∷ 72 ∷ 74 ∷ 75 ∷ 76
    ∷ 58 ∷ 34 ∷ 126 ∷ 0 ∷ 124 ∷ 90 ∷ 88 ∷ 67 ∷ 86 ∷ 66 ∷ 78 ∷ 77 ∷ 60 ∷ 62 ∷ 63 ∷ 0 ∷ 42 ∷ 0 ∷ 32
    ∷ 0 ∷ 0 ∷ []

abbrev pub buf_size : ℕ
buf_size = 128

-- `buf` has `buf_size` elements.
pub record Keyboard : Type 0 where
  pub buf : List ℕ
  pub buf_head : ℕ
  pub buf_tail : ℕ
  pub shift_down : Bool
  pub caps_lock : Bool
  pub ctrl_down : Bool
  pub extended : Bool

abbrev pub is_lower : ℕ → Bool
is_lower c = leb 97 c && leb c 122

abbrev pub is_upper : ℕ → Bool
is_upper c = leb 65 c && leb c 90

abbrev pub is_letter : ℕ → Bool
is_letter c = is_lower c || is_upper c

pub push_char : ℕ → Keyboard → Keyboard
push_char c k =
    let next = (k.buf_head + 1) % buf_size in
    if next == k.buf_tail then k else record k { buf = set k.buf k.buf_head c; buf_head = next }

pub translate_extended : ℕ → ℕ
translate_extended sc =
    if sc == 0x48
    then 0x80
    else if sc == 0x50
    then 0x81
    else if sc == 0x4b
    then 0x82
    else if sc == 0x4d
    then 0x83
    else if sc == 0x47
    then 0x84
    else if sc == 0x4f
    then 0x85
    else if sc == 0x53
    then 0x86
    else if sc == 0x49
    then 0x87
    else if sc == 0x51
    then 0x88
    else 0

-- Caps lock flips the case of a letter.
pub apply_caps : Bool → ℕ → ℕ
apply_caps shift c =
    if is_letter c
    then (if shift
        then (if is_upper c then c - 65 + 97 else c)
        else (if is_lower c then c - 97 + 65 else c))
    else c

-- Control and a letter are a control character; `none` is a key that is dropped.
pub apply_ctrl : ℕ → Option ℕ
apply_ctrl c =
    let up = if is_lower c then c - 32 else c in if is_upper up then some (up - 65 + 1) else none

-- The character of a key press that is no modifier, from the tables on; `none` for no character.
pub key_char : Bool → Bool → Bool → ℕ → Option ℕ
key_char shift caps ctrl sc =
    let c = get_or (if shift then scancode_to_ascii_shift else scancode_to_ascii) sc 0 in
    if c == 0
    then none
    else (let c' = if caps then apply_caps shift c else c in
        if ctrl then apply_ctrl c' else some c')

-- `intr` is what `tty_intr_char` returns: whether the character has raised a signal.
pub deliver : (ℕ → Bool) → Option ℕ → Keyboard → Keyboard
deliver intr none k = k
deliver intr (some c) k = if intr c then k else push_char c k

pub release : ℕ → Keyboard → Keyboard
release code k = if k.extended then record k { extended = false } else record k {
  ctrl_down = if code == 0x1d then false else k.ctrl_down;
  shift_down = if (code == 0x2a) || (code == 0x36) then false else k.shift_down;
}

pub press_extended : ℕ → Keyboard → Keyboard
press_extended sc k =
    let key = translate_extended sc in
    if not (key == 0)
    then push_char key (record k { extended = false })
    else record k { extended = false }

pub press : (ℕ → Bool) → ℕ → Keyboard → Keyboard
press intr sc k =
    if (sc == 0x2a) || (sc == 0x36)
    then record k { shift_down = true }
    else if sc == 0x1d
    then record k { ctrl_down = true }
    else if sc == 0x3a
    then record k { caps_lock = not k.caps_lock }
    else if leb 128 sc
    then k
    else if (sc == 0x1c) && k.shift_down
    then push_char 0x89 k
    else deliver intr (key_char k.shift_down k.caps_lock k.ctrl_down sc) k

-- `sc` is the byte that the controller sends.
pub keyboard_irq : (ℕ → Bool) → ℕ → Keyboard → Keyboard
keyboard_irq intr sc k =
    if sc == 0xe0
    then record k { extended = true }
    else if leb 128 sc
    then release (sc % 128) k
    else if k.extended
    then press_extended sc k
    else press intr sc k

-- The character and what is left; `none` when there is none.
pub keyboard_try_getchar : Keyboard → Option (ℕ × Keyboard)
keyboard_try_getchar k =
    if k.buf_head == k.buf_tail
    then none
    else some (get_or k.buf k.buf_tail 0, record k { buf_tail = (k.buf_tail + 1) % buf_size })

pub keyboard_has_char : Keyboard → Bool
keyboard_has_char k = not (k.buf_head == k.buf_tail)
