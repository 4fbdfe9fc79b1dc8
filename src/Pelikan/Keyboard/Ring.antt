-- ===== src/Pelikan/Keyboard/Ring.antt =====
-- The ring buffer of pelikanOS/src/keyboard.c as a queue of at most 256 bytes.
use systems_programming_proj.Prelude.{
  ℕ, ◌+◌, ◌-◌, ◌%◌, ◌<◌, ◌≤◌, true, false, Option, none, some, List, [], ◌∷◌, ◌++◌, length, get_or,
  set, length-append, length-set, get_or-set_self, get_or-set_ne, ◌≡◌, refl, sym, ap, ◌∙◌, ◌≢◌, inl,
  inr, ◌==◌, ==_iff, if◌then◌else◌, Bool-cases, arith,
}
use systems_programming_proj.Pelikan.Keyboard.{
  Rb, ringbuf_size, ringbuf_init, ringbuf_push, ringbuf_pop, key_of, deposit, keyboard_handler,
  Event, interrupt, getchar, answers,
}

-- The bytes of the array from a place on, around its end.
abbrev Window : List ℕ → ℕ → List ℕ → Type 0
Window bytes pos [] = Unit
Window bytes pos (x ∷ xs) = (get_or bytes pos 0 ≡ x) × Window bytes ((pos + 1) % ringbuf_size) xs

-- The buffer holds the bytes of the list, oldest first.
pub record Buffers (rb : Rb) (l : List ℕ) : Type 0 where
  pub sized : length rb.data_bytes ≡ ringbuf_size
  pub len : rb.len ≡ length l
  pub bounded : rb.len ≤ ringbuf_size
  pub tail_inside : rb.tail < ringbuf_size
  pub head : rb.head ≡ (rb.tail + length l) % ringbuf_size
  pub window : Window rb.data_bytes rb.tail l

Window-append :
    (bytes : List ℕ) (pos head byte : ℕ) (l : List ℕ)
    → length bytes ≡ ringbuf_size
    → pos < ringbuf_size
    → length l < ringbuf_size
    → head ≡ (pos + length l) % ringbuf_size
    → Window bytes pos l
    → Window (set bytes head byte) pos (l ++ byte ∷ [])
Window-append bytes pos head byte [] sized inside short e h =
    let same : head ≡ pos = omega arith in
    (
      ap (λ i. get_or (set bytes head byte) i 0) (sym same)
          ∙ get_or-set_self bytes head byte 0 (omega arith),
      tt,
    )
Window-append bytes pos head byte (x ∷ xs) sized inside short e h =
    let ne : head ≢ pos = λ f. omega arith in
    (
      get_or-set_ne bytes head pos byte 0 ne ∙ h.0,
      Window-append bytes ((pos + 1) % ringbuf_size) head byte xs sized (omega arith) (omega arith)
          (omega arith) h.1,
    )

-- The contract: a queue of at most 256 bytes that drops a byte when it is full.
unfoldable pub enqueue : ℕ → List ℕ → List ℕ
enqueue byte l = if length l == ringbuf_size then l else l ++ byte ∷ []

unfoldable pub type_key : Option ℕ → List ℕ → List ℕ
type_key none l = l
type_key (some key) l = enqueue key l

unfoldable pub queue_answers : List Event → List ℕ → List (Option ℕ)
queue_answers [] l = []
queue_answers (interrupt scancode ∷ events) l = queue_answers events (type_key (key_of scancode) l)
queue_answers (getchar ∷ events) [] = none ∷ queue_answers events []
queue_answers (getchar ∷ events) (x ∷ xs) = some x ∷ queue_answers events xs

push_full : (byte : ℕ) (rb : Rb) → (rb.len == ringbuf_size) ≡ true → ringbuf_push byte rb ≡ rb
unfolding ringbuf_push
push_full byte rb e = simp (e) refl

push_room :
    (byte : ℕ) (rb : Rb)
    → (rb.len == ringbuf_size) ≡ false
    → ringbuf_push byte rb ≡ record rb {
      data_bytes = set rb.data_bytes rb.head byte;
      head = (rb.head + 1) % ringbuf_size;
      len = rb.len + 1;
    }
unfolding ringbuf_push
push_room byte rb e = simp (e) refl

ringbuf_push-Buffers :
    (byte : ℕ) (rb : Rb) (l : List ℕ)
    → Buffers rb l
    → Buffers (ringbuf_push byte rb) (enqueue byte l)
unfolding enqueue
ringbuf_push-Buffers byte rb l h = elim (Bool-cases (rb.len == ringbuf_size)) [
  | inl e ↦
      let e' : (length l == ringbuf_size) ≡ true = ap (λ n. n == ringbuf_size) (sym h.len) ∙ e in
      rw (push_full byte rb e, e') h
  | inr e ↦
      let e' : (length l == ringbuf_size) ≡ false = ap (λ n. n == ringbuf_size) (sym h.len) ∙ e in
      let ne : rb.len ≢ ringbuf_size = ground (arith, e) in
      let pushed : Buffers
          (record rb {
            data_bytes = set rb.data_bytes rb.head byte;
            head = (rb.head + 1) % ringbuf_size;
            len = rb.len + 1;
          })
          (l ++ byte ∷ []) =
        record {
          sized = length-set rb.data_bytes rb.head byte ∙ h.sized;
          len = omega (arith, h.len, length-append l (byte ∷ []));
          bounded = omega (arith, h.bounded, ne);
          tail_inside = h.tail_inside;
          head = omega (arith, h.head, length-append l (byte ∷ []));
          window =
              Window-append rb.data_bytes rb.tail rb.head byte l h.sized h.tail_inside
                (omega (arith, h.len, h.bounded, ne)) h.head h.window;
        } in
      rw (push_room byte rb e, e') pushed
]

deposit-Buffers :
    (key : Option ℕ) (rb : Rb) (l : List ℕ)
    → Buffers rb l
    → Buffers (deposit key rb) (type_key key l)
unfolding deposit type_key
deposit-Buffers none rb l h = h
deposit-Buffers (some key) rb l h = ringbuf_push-Buffers key rb l h

pop_empty : (rb : Rb) → Buffers rb [] → ringbuf_pop rb ≡ (none, rb)
unfolding ringbuf_pop
pop_empty rb h = let e : (rb.len == 0) ≡ true = (==_iff rb.len 0).1 h.len in simp (e) refl

abbrev popped : Rb → Rb
popped rb = record rb { tail = (rb.tail + 1) % ringbuf_size; len = rb.len - 1 }

pop_first :
    (rb : Rb) (x : ℕ) (xs : List ℕ) → Buffers rb (x ∷ xs) → ringbuf_pop rb ≡ (some x, popped rb)
unfolding ringbuf_pop
pop_first rb x xs h =
    let ne : rb.len ≢ 0 = λ f. omega (arith, h.len, f) in
    let e : (rb.len == 0) ≡ false = ground (arith, ne) in simp (e, h.window.0) refl

popped-Buffers : (rb : Rb) (x : ℕ) (xs : List ℕ) → Buffers rb (x ∷ xs) → Buffers (popped rb) xs
popped-Buffers rb x xs h = record {
  sized = h.sized;
  len = omega (arith, h.len);
  bounded = omega (arith, h.bounded);
  tail_inside = omega arith;
  head = omega (arith, h.head, h.tail_inside);
  window = h.window.1;
}

same_answers :
    (events : List Event) (rb : Rb) (l : List ℕ)
    → Buffers rb l
    → answers events rb ≡ queue_answers events l
unfolding answers queue_answers keyboard_handler
same_answers [] rb l h = refl
same_answers (interrupt scancode ∷ events) rb l h =
    same_answers events (deposit (key_of scancode) rb) (type_key (key_of scancode) l)
      (deposit-Buffers (key_of scancode) rb l h)
same_answers (getchar ∷ events) rb [] h =
    ap (λ o. o.0 ∷ answers events o.1) (pop_empty rb h)
    ∙ ap (λ a. none ∷ a) (same_answers events rb [] h)
same_answers (getchar ∷ events) rb (x ∷ xs) h =
    ap (λ o. o.0 ∷ answers events o.1) (pop_first rb x xs h)
    ∙ ap (λ a. some x ∷ a) (same_answers events (popped rb) xs (popped-Buffers rb x xs h))

-- After `keyboard_init`, in whatever order key interrupts and calls of `kbd_getchar` come, the calls
-- answer as a first-in first-out queue does that keeps the mapped keys, drops a key when it holds
-- 256 and answers nothing when it is empty; the array has 256 bytes.
pub answers-ringbuf_init :
    (events : List Event) (rb : Rb)
    → length rb.data_bytes ≡ ringbuf_size
    → answers events (ringbuf_init rb) ≡ queue_answers events []
unfolding ringbuf_init
answers-ringbuf_init events rb sized = same_answers events (ringbuf_init rb) [] (record {
  sized = sized;
  len = refl;
  bounded = omega arith;
  tail_inside = omega arith;
  head = refl;
  window = tt;
})
