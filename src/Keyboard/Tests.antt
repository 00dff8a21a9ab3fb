-- ===== src/Keyboard/Tests.antt =====
-- Runs of the keyboard driver of src/keyboard.c, and the theorems at concrete states.
use computer_os.Prelude.{ℕ, ◌≡◌, refl, Bool, true, false, [], ◌∷◌, ◌++◌, arith, replicate}
use computer_os.Keyboard.{
  Keyboard, push_char, translate_extended, apply_caps, key_char, deliver, press_extended, press,
  keyboard_irq,
}
use computer_os.Keyboard.Ring.{IsValid, read_from, content}
use computer_os.Keyboard.Irq.{Queued, keyboard_irq-Queued}

-- The ring is about to wrap, and shift is held.
abbrev held : Keyboard
held = record {
  buf = replicate 127 0 ++ (0x61 ∷ []);
  buf_head = 0;
  buf_tail = 127;
  shift_down = true;
  caps_lock = false;
  ctrl_down = false;
  extended = false;
}

held-IsValid : IsValid held
held-IsValid = record { room = refl; head = omega arith; tail = omega arith }

abbrev quiet : ℕ → Bool
quiet c = false

-- "a" waits, and the key "b" is pressed.
press_run : content (keyboard_irq quiet 0x30 held) ≡ 0x61 ∷ 0x42 ∷ []
unfolding content read_from keyboard_irq press key_char apply_caps deliver push_char
press_run = refl

-- The arrow up, by its prefix and its code.
arrow_run : content (keyboard_irq quiet 0x48 (keyboard_irq quiet 0xe0 held)) ≡ 0x61 ∷ 0x80 ∷ []
unfolding content read_from keyboard_irq press_extended translate_extended push_char
arrow_run = refl

keyboard_irq-Queued_example :
    IsValid (keyboard_irq quiet 0x30 held) × Queued held (keyboard_irq quiet 0x30 held)
keyboard_irq-Queued_example = keyboard_irq-Queued quiet 0x30 held held-IsValid
