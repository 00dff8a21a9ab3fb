-- ===== src/Keyboard/Irq.antt =====
-- What an interrupt of src/keyboard.c adds to the queue.
use computer_os.Prelude.{
  ℕ, ◌%◌, ◌<◌, ◌≤◌, ◌≡◌, ◌⊎◌, refl, ap, ◌∙◌, Bool, true, false, ◌&&◌, ◌||◌, not, Option, none, some,
  leb, ◌==◌, if◌then◌else◌, arith, length, Bool-cases, inl, inr,
}
use computer_os.Keyboard.{
  Keyboard, push_char, translate_extended, key_char, deliver, release, press_extended, press,
  keyboard_irq,
}
use computer_os.Keyboard.Ring.{IsValid, content, pushed, push_char-content}
use computer_os.Keyboard.Keys.{in_ascii, key_char-ascii}

-- What one interrupt does to the queue.
pub data Queued (k k' : Keyboard) : Type 0 where
  unchanged : content k' ≡ content k → Queued k k'
  -- A character of ASCII, but never 0.
  character : {c : ℕ} → 0 < c → c < 0x80 → content k' ≡ pushed c (content k) → Queued k k'
  -- A key without a character.
  special : {c : ℕ} → 0x80 ≤ c → c ≤ 0x89 → content k' ≡ pushed c (content k) → Queued k k'

-- The ring of `k` with other modifiers.
abbrev SameRing : Keyboard → Keyboard → Type 0
SameRing k k' = (k'.buf ≡ k.buf) × (k'.buf_head ≡ k.buf_head) × (k'.buf_tail ≡ k.buf_tail)

abbrev Kept : Keyboard → Keyboard → Type 0
Kept k k' = IsValid k' × Queued k k'

SameRing-Kept : {k : Keyboard} (k' : Keyboard) → IsValid k → SameRing k k' → Kept k k'
unfolding content
SameRing-Kept k' v (b, h, t) = (
  record {
    room = ap length b ∙ v.room;
    head = omega (arith, v.head);
    tail = omega (arith, v.tail);
  },
  unchanged (rw (b, h, t) refl),
)

translate_extended-range :
    (sc : ℕ)
    → (translate_extended sc ≡ 0)
      ⊎ ((0x80 ≤ translate_extended sc) × (translate_extended sc ≤ 0x88))
unfolding translate_extended
translate_extended-range sc = ground arith

press_extended-Kept : (sc : ℕ) (k : Keyboard) → IsValid k → Kept k (press_extended sc k)
unfolding press_extended content
press_extended-Kept sc k v = elim (Bool-cases (not (translate_extended sc == 0))) [
  | inr none_such ↦
      rw none_such (record { room = v.room; head = v.head; tail = v.tail }, unchanged refl)
  | inl key ↦
      let calm : IsValid (record k { extended = false }) = record {
        room = v.room;
        head = v.head;
        tail = v.tail;
      } in
      let push = push_char-content (translate_extended sc) (record k { extended = false }) calm in
      let range = translate_extended-range sc in
      rw key (push.0, special (ground arith) (ground arith) push.1)
]

deliver-Kept :
    (intr : ℕ → Bool) (c : Option ℕ) (k : Keyboard)
    → IsValid k
    → in_ascii c ≡ true
    → Kept k (deliver intr c k)
unfolding deliver
deliver-Kept intr none k v range = (v, unchanged refl)
deliver-Kept intr (some c) k v range = elim (Bool-cases (intr c)) [
  | inl signal ↦ rw signal (v, unchanged refl)
  | inr input ↦
      let push = push_char-content c k v in
      rw input (push.0, character (ground arith) (ground arith) push.1)
]

-- Each branch of a test may be looked at alone.
if-Kept : {k x y : Keyboard} (b : Bool) → Kept k x → Kept k y → Kept k (if b then x else y)
if-Kept true kept other = kept
if-Kept false other kept = kept

release-Kept : (code : ℕ) (k : Keyboard) → IsValid k → Kept k (release code k)
unfolding release
release-Kept code k v =
    if-Kept k.extended (SameRing-Kept (record k { extended = false }) v (refl, refl, refl))
      (SameRing-Kept _ v (refl, refl, refl))

newline-Kept : (k : Keyboard) → IsValid k → Kept k (push_char 0x89 k)
newline-Kept k v =
    let push = push_char-content 0x89 k v in (push.0, special (omega arith) (omega arith) push.1)

press-Kept : (intr : ℕ → Bool) (sc : ℕ) (k : Keyboard) → IsValid k → Kept k (press intr sc k)
unfolding press
press-Kept intr sc k v =
    if-Kept ((sc == 0x2a) || (sc == 0x36))
      (SameRing-Kept (record k { shift_down = true }) v (refl, refl, refl))
      (if-Kept (sc == 0x1d) (SameRing-Kept (record k { ctrl_down = true }) v (refl, refl, refl)) (
        if-Kept (sc == 0x3a)
          (SameRing-Kept (record k { caps_lock = not k.caps_lock }) v (refl, refl, refl))
          (if-Kept (leb 128 sc) (v, unchanged refl)
            (if-Kept ((sc == 0x1c) && k.shift_down) (newline-Kept k v) (
              deliver-Kept intr (key_char k.shift_down k.caps_lock k.ctrl_down sc) k v
                (key_char-ascii k.shift_down k.caps_lock k.ctrl_down sc))))))

-- An interrupt with any scancode keeps the ring valid and leaves the queue as it is, or appends one
-- character from 1 to 127 of a key, or one code from 128 to 137 of a key without a character; a
-- full queue drops it.
pub keyboard_irq-Queued :
    (intr : ℕ → Bool) (sc : ℕ) (k : Keyboard)
    → IsValid k
    → IsValid (keyboard_irq intr sc k) × Queued k (keyboard_irq intr sc k)
unfolding keyboard_irq
keyboard_irq-Queued intr sc k v =
    if-Kept (sc == 0xe0) (SameRing-Kept (record k { extended = true }) v (refl, refl, refl)) (
      if-Kept (leb 128 sc) (release-Kept (sc % 128) k v)
        (if-Kept k.extended (press_extended-Kept sc k v) (press-Kept intr sc k v)))
