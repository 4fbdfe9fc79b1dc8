-- ===== src/Pelikan/Keyboard.antt =====
-- pelikanOS/src/keyboard.c: the table of scancodes, the ring buffer between the interrupt handler and
-- the readers, and the handler. `inb` is outside: the byte it reads is an argument.
pub mod Ring
mod Tests
use systems_programming_proj.Prelude.{
  ℕ, zero, suc, ◌+◌, ◌-◌, ◌%◌, Bool, true, false, not, Option, none, some, List, [], ◌∷◌, ◌++◌,
  get_or, set, ◌==◌, if◌then◌else◌,
}
use Prim.Native.Nat.{bit_and}

abbrev pub ringbuf_size : ℕ
ringbuf_size = 256

-- The rest of the 128 entries is 0, which stands for an unprintable character.
abbrev pub scancode_to_ascii : List ℕ
scancode_to_ascii =
    0 ∷ 0 ∷ b'1' ∷ b'2' ∷ b'3' ∷ b'4' ∷ b'5' ∷ b'6' ∷ b'7' ∷ b'8' ∷ b'9' ∷ b'0' ∷ b'-' ∷ b'=' ∷ 8
    ∷ 0 ∷ b'q' ∷ b'w' ∷ b'e' ∷ b'r' ∷ b't' ∷ b'y' ∷ b'u' ∷ b'i' ∷ b'o' ∷ b'p' ∷ b'[' ∷ b']' ∷ 10 ∷ 0
    ∷ b'a' ∷ b's' ∷ b'd' ∷ b'f' ∷ b'g' ∷ b'h' ∷ b'j' ∷ b'k' ∷ b'l' ∷ b';' ∷ 39 ∷ b'`' ∷ 0 ∷ 92
    ∷ b'z' ∷ b'x' ∷ b'c' ∷ b'v' ∷ b'b' ∷ b'n' ∷ b'm' ∷ b',' ∷ b'.' ∷ b'/' ∷ 0 ∷ 0 ∷ 0 ∷ b' ' ∷ 0
    ∷ []

pub record Rb : Type 0 where
  pub data_bytes : List ℕ
  pub head : ℕ
  pub tail : ℕ
  pub len : ℕ

-- The bytes of the array stay as they are.
unfoldable pub ringbuf_init : Rb → Rb
ringbuf_init rb = record rb { head = 0; tail = 0; len = 0 }

unfoldable pub ringbuf_push : ℕ → Rb → Rb
ringbuf_push byte rb = if rb.len == ringbuf_size then rb else record rb {
  data_bytes = set rb.data_bytes rb.head byte;
  head = (rb.head + 1) % ringbuf_size;
  len = rb.len + 1;
}

-- `kbd_getchar`, with the byte when it returns 1.
unfoldable pub ringbuf_pop : Rb → Option ℕ × Rb
ringbuf_pop rb = if rb.len == 0 then (none, rb) else (
  some (get_or rb.data_bytes rb.tail 0),
  record rb { tail = (rb.tail + 1) % ringbuf_size; len = rb.len - 1 },
)

-- The key that a scancode stands for: none for a release (the bit 0x80) or an unmapped key.
unfoldable pub key_of : ℕ → Option ℕ
key_of scancode =
    let key = get_or scancode_to_ascii scancode 0 in
    if bit_and scancode 0x80 == 0 then (if key == 0 then none else some key) else none

unfoldable pub deposit : Option ℕ → Rb → Rb
deposit none rb = rb
deposit (some key) rb = ringbuf_push key rb

unfoldable pub keyboard_handler : ℕ → Rb → Rb
keyboard_handler scancode rb = deposit (key_of scancode) rb

-- An interrupt with its scancode, or a call of `kbd_getchar`.
pub data Event : Type 0 where
  interrupt : ℕ → Event
  getchar : Event

-- What the calls of `kbd_getchar` answer, in any order of interrupts and calls.
unfoldable pub answers : List Event → Rb → List (Option ℕ)
answers [] rb = []
answers (interrupt scancode ∷ events) rb = answers events (keyboard_handler scancode rb)
answers (getchar ∷ events) rb = let (byte, rest) = ringbuf_pop rb in byte ∷ answers events rest
