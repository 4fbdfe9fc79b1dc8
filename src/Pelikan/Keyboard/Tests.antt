-- ===== src/Pelikan/Keyboard/Tests.antt =====
-- The keyboard of pelikanOS/src/keyboard.c at a few keys.
use systems_programming_proj.Prelude.{
  ℕ, List, [], ◌∷◌, none, some, ◌≡◌, refl, replicate, length-replicate,
}
use systems_programming_proj.Pelikan.Keyboard.{
  Rb, ringbuf_size, ringbuf_init, ringbuf_push, ringbuf_pop, key_of, deposit, keyboard_handler,
  Event, interrupt, getchar, answers,
}
use systems_programming_proj.Pelikan.Keyboard.Ring.{queue_answers, answers-ringbuf_init}

abbrev memory : Rb
memory = record { data_bytes = replicate ringbuf_size 0; head = 7; tail = 3; len = 4 }

-- Press and release `a`, press the left shift and `b`, with reads between.
abbrev typing : List Event
typing =
    getchar
    ∷ interrupt 0x1e
    ∷ interrupt 0x9e
    ∷ interrupt 0x2a
    ∷ interrupt 0x30
    ∷ getchar
    ∷ getchar
    ∷ getchar
    ∷ []

typed : answers typing (ringbuf_init memory) ≡ none ∷ some b'a' ∷ some b'b' ∷ none ∷ []
unfolding answers ringbuf_init ringbuf_push ringbuf_pop key_of deposit keyboard_handler
typed = refl

answers-ringbuf_init_example : answers typing (ringbuf_init memory) ≡ queue_answers typing []
answers-ringbuf_init_example =
    answers-ringbuf_init typing memory (length-replicate {A = ℕ} ringbuf_size 0)
