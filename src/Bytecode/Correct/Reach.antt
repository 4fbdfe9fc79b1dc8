-- ===== src/Bytecode/Correct/Reach.antt =====
-- Runs of `Machine` as sequences of steps, and code at an address.
use mathlib.Core.List.{append_assoc, append-nil}
use mathlib.Core.Path.{subst}
use systems_programming_proj.Prelude.{
  ℕ, ◌+◌, ◌≡◌, some, List, [], ◌∷◌, ◌++◌, true, arith, length, length-append, get_elem?,
  get_elem?-append,
}
use systems_programming_proj.Prelude.Int.{ℤ}
use systems_programming_proj.Bytecode.Vm.{Error, ok, err}
use systems_programming_proj.Bytecode.Machine.{Machine, step}

-- The bytes at address `p`.
abbrev pub At : List ℕ → ℕ → List ℕ → Type 0
At code p [] = Unit
At code p (b ∷ bs) = (get_elem? code p ≡ some b) × At code (p + 1) bs

pub At-append :
    (code : List ℕ) (p : ℕ) (xs ys : List ℕ)
    → At code p (xs ++ ys)
    → At code p xs × At code (p + length xs) ys
At-append code p [] ys h = (tt, subst (λ q. At code q ys) (omega arith) h)
At-append code p (x ∷ xs) ys (h, t) =
    let (front, back) = At-append code (p + 1) xs ys t in
    ((h, front), subst (λ q. At code q ys) (omega arith) back)

pub At-here : (pre c post : List ℕ) → At (pre ++ (c ++ post)) (length pre) c
At-here pre [] post = tt
At-here pre (x ∷ c) post = (
  get_elem?-append pre (c ++ post) x,
  subst (λ q. At (pre ++ x ∷ (c ++ post)) q c) (omega (arith, length-append pre (x ∷ [])))
      (rw append_assoc at (At-here (pre ++ x ∷ []) c post)),
)

pub At-whole : (c : List ℕ) → At c 0 c
At-whole c = rw append-nil at (At-here [] c [])

-- A running machine outside any call.
abbrev pub mach : ℕ → List ℤ → List ℤ → List ℤ → Machine
mach p xs g out = record { ip = p; stack = xs; globals = g; calls = []; running = true; out = out }

-- What a sequence of steps leads to: a machine, or an error with the values printed before it.
pub data End : Type 0 where
  at : Machine → End
  dead : Error → List ℤ → End

pub data Goes (code : List ℕ) : Machine → End → Type 0 where
  here : {m : Machine} → Goes code m (at m)
  more :
      {m m' : Machine} {r : End}
      → m.running ≡ true
      → step code m ≡ ok m'
      → Goes code m' r
      → Goes code m r
  fail :
      {m : Machine} {e : Error}
      → m.running ≡ true
      → step code m ≡ err e
      → Goes code m (dead e m.out)

pub Goes-trans :
    {code : List ℕ} {m m' : Machine} {r : End}
    → Goes code m (at m')
    → Goes code m' r
    → Goes code m r
Goes-trans here b = b
Goes-trans (more q s a) b = more q s (Goes-trans a b)
