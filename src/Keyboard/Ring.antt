-- ===== src/Keyboard/Ring.antt =====
-- The ring of src/keyboard.c as a queue of at most 127 characters.
use computer_os.Prelude.{
  ℕ, zero, suc, ◌+◌, ◌-◌, ◌%◌, ◌<◌, ◌≤◌, ◌≡◌, ◌≢◌, refl, ap, ◌∙◌, false, Option, none, some, List,
  [], ◌∷◌, ◌++◌, ◌==◌, if◌then◌else◌, arith, get_or, set, length, length-set, get_or-set,
  Bool-cases, inl, inr,
}
use computer_os.Keyboard.{Keyboard, buf_size, push_char, keyboard_try_getchar}

pub record IsValid (k : Keyboard) : Type 0 where
  pub room : length k.buf ≡ buf_size
  pub head : k.buf_head < buf_size
  pub tail : k.buf_tail < buf_size

-- `n` characters from position `i` on.
unfoldable pub read_from : List ℕ → ℕ → ℕ → List ℕ
read_from buf i zero = []
read_from buf i (suc n) = get_or buf i 0 ∷ read_from buf ((i + 1) % 128) n

-- How far it is from `i` to `h`.
abbrev pub distance : ℕ → ℕ → ℕ
distance i h = (h + 128 - i) % 128

-- The characters that wait, the oldest first.
unfoldable pub content : Keyboard → List ℕ
content k = read_from k.buf k.buf_tail (distance k.buf_tail k.buf_head)

-- A write in front of what is read changes nothing of it.
read_from-set :
    (buf : List ℕ) (h c i n : ℕ)
    → h < length buf
    → h < 128
    → i < 128
    → n ≤ distance i h
    → read_from (set buf h c) i n ≡ read_from buf i n
unfolding read_from
read_from-set buf h c i zero inside lt lt' near = refl
read_from-set buf h c i (suc n) inside lt lt' near =
    let rest = read_from-set buf h c ((i + 1) % 128) n inside lt (omega arith) (omega arith) in
    rw (rest, get_or-set buf h i c 0 inside) (ground arith)

read_from-last :
    (buf : List ℕ) (i n : ℕ)
    → i < 128
    → read_from buf i (suc n) ≡ read_from buf i n ++ (get_or buf ((i + n) % 128) 0 ∷ [])
unfolding read_from
read_from-last buf i zero lt = let e : (i + 0) % 128 ≡ i = omega arith in rw e refl
read_from-last buf i (suc n) lt =
    let rest = read_from-last buf ((i + 1) % 128) n (omega arith) in
    let e : ((i + 1) % 128 + n) % 128 ≡ (i + suc n) % 128 = omega arith in
    ap (λ r. get_or buf i 0 ∷ r) (rw e at rest)

length-read_from : (buf : List ℕ) (i n : ℕ) → length (read_from buf i n) ≡ n
unfolding read_from
length-read_from buf i zero = refl
length-read_from buf i (suc n) = omega (arith, length-read_from buf ((i + 1) % 128) n)

pub length-content : (k : Keyboard) → length (content k) ≡ distance k.buf_tail k.buf_head
unfolding content
length-content k = length-read_from k.buf k.buf_tail (distance k.buf_tail k.buf_head)

-- Where the next character goes.
abbrev pub pushed : ℕ → List ℕ → List ℕ
pushed c queue = if length queue == 127 then queue else queue ++ (c ∷ [])

-- The ring with one character more.
appended : ℕ → Keyboard → Keyboard
appended c k = record k { buf = set k.buf k.buf_head c; buf_head = (k.buf_head + 1) % buf_size }

appended-content :
    (c : ℕ) (k : Keyboard)
    → IsValid k
    → (k.buf_head + 1) % buf_size ≢ k.buf_tail
    → content (appended c k) ≡ content k ++ (c ∷ [])
unfolding content appended
appended-content c k v free =
    let d = distance k.buf_tail k.buf_head in
    let longer : distance k.buf_tail ((k.buf_head + 1) % buf_size) ≡ suc d =
      omega (arith, v.head, v.tail, free) in
    let at_head : (k.buf_tail + d) % 128 ≡ k.buf_head = omega (arith, v.head, v.tail) in
    rw
      (
        longer,
        read_from-last (set k.buf k.buf_head c) k.buf_tail d v.tail,
        at_head,
        read_from-set k.buf k.buf_head c k.buf_tail d (omega (arith, v.room, v.head)) v.head v.tail
            (omega arith),
        get_or-set k.buf k.buf_head k.buf_head c 0 (omega (arith, v.room, v.head)),
      )
      (ground arith)

-- `push_char` on a valid ring appends to the queue of the waiting characters, or drops the
-- character when 127 are waiting, and keeps the ring valid.
pub push_char-content :
    (c : ℕ) (k : Keyboard)
    → IsValid k
    → IsValid (push_char c k) × (content (push_char c k) ≡ pushed c (content k))
unfolding push_char appended
push_char-content c k v = elim (Bool-cases ((k.buf_head + 1) % buf_size == k.buf_tail)) [
  | inl full ↦
      let many : length (content k) ≡ 127 = ground (arith, length-content k, v.head, v.tail) in
      rw (full, many) (v, refl)
  | inr free ↦
      let few : (length (content k) == 127) ≡ false =
        ground (arith, length-content k, v.head, v.tail) in
      rw (free, few)
        (
          record {
            room = length-set k.buf k.buf_head c ∙ v.room;
            head = omega arith;
            tail = v.tail;
          },
          appended-content c k v (ground arith),
        )
]

-- What the consumer sees of a queue.
pub data Taken (k : Keyboard) : Option (ℕ × Keyboard) → Type 0 where
  nothing : content k ≡ [] → Taken k none
  one : {c : ℕ} {k' : Keyboard} → IsValid k' → content k ≡ c ∷ content k' → Taken k (some (c, k'))

-- `keyboard_try_getchar` on a valid ring takes the oldest character off the queue, or returns 0
-- when the queue is empty.
pub keyboard_try_getchar-Taken : {k : Keyboard} → IsValid k → Taken k (keyboard_try_getchar k)
unfolding keyboard_try_getchar content read_from
keyboard_try_getchar-Taken {k} v = elim (Bool-cases (k.buf_head == k.buf_tail)) [
  | inl empty ↦
      let none_left : distance k.buf_tail k.buf_head ≡ 0 = ground (arith, v.head, v.tail) in
      rw empty (nothing (rw none_left refl))
  | inr more ↦
      let step : distance k.buf_tail k.buf_head
          ≡ suc (distance ((k.buf_tail + 1) % 128) k.buf_head) =
        ground (arith, v.head, v.tail) in
      rw more (one (record { room = v.room; head = v.head; tail = omega arith }) (rw step refl))
]
