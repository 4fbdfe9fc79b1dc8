-- ===== src/Bytecode/Refine/Stacks.antt =====
-- A C array with its counter, seen as a list, and results that agree.
use systems_programming_proj.Prelude.{
  ℕ, ◌+◌, ◌-◌, ◌≤◌, ◌≡◌, ◌≢◌, List, [], ◌∷◌, arith, length, get_or, set, length-set,
  get_or-set_self, get_or-set_ne,
}
use systems_programming_proj.Prelude.Int.{ℤ, pos}
use systems_programming_proj.Bytecode.Vm.{Error, Result, ok, err, ◌>>=◌, size}

-- The entries of the array below the counter, topmost first.
abbrev pub Cells : List ℤ → List ℤ → Type 0
Cells arr [] = Unit
Cells arr (x ∷ xs) = (get_or arr (length xs) (pos 0) ≡ x) × Cells arr xs

pub record Holds (arr : List ℤ) (n : ℕ) (xs : List ℤ) : Type 0 where
  pub room : length arr ≡ size
  pub count : n ≡ length xs
  pub small : length xs ≤ size
  pub cells : Cells arr xs

-- A write at or above the counter spares what is below.
Cells-set :
    (arr xs : List ℤ) (i : ℕ) (v : ℤ) → length xs ≤ i → Cells arr xs → Cells (set arr i v) xs
Cells-set arr [] i v h c = tt
Cells-set arr (x ∷ xs) i v h c = (
  rw (get_or-set_ne arr i (length xs) v (pos 0) (omega arith)) c.0,
  Cells-set arr xs i v (omega arith) c.1,
)

pub Holds-push :
    {arr : List ℤ} {n : ℕ} {xs : List ℤ} (v : ℤ)
    → Holds arr n xs
    → length xs ≢ size
    → Holds (set arr n v) (n + 1) (v ∷ xs)
Holds-push {arr} {n} {xs} v h ne = rw h.count (record {
  room = rw length-set h.room;
  count = omega arith;
  small = omega (arith, h.small);
  cells = (
    get_or-set_self arr (length xs) v (pos 0) (omega (arith, h.room, h.small)),
    Cells-set arr xs (length xs) v (omega arith) h.cells,
  );
})

pub Holds-pop :
    {arr : List ℤ} {n : ℕ} {x : ℤ} {xs : List ℤ} → Holds arr n (x ∷ xs) → Holds arr (n - 1) xs
Holds-pop h = record {
  room = h.room;
  count = omega (arith, h.count);
  small = omega (arith, h.small);
  cells = h.cells.1;
}

-- Both results are values that `R` relates, or the same error.
pub data Agree {A B : Type 0} (R : A → B → Type 0) : Result A → Result B → Type 0 where
  oks : {a : A} {b : B} → R a b → Agree R (ok a) (ok b)
  errs : {e : Error} → Agree R (err e) (err e)

pub Agree-bind :
    {A B C D : Type 0} {R : A → B → Type 0} {S : C → D → Type 0} {r : Result A} {r' : Result B}
    {f : A → Result C} {f' : B → Result D}
    → Agree R r r'
    → ((a : A) (b : B) → R a b → Agree S (f a) (f' b))
    → Agree S (r >>= f) (r' >>= f')
Agree-bind (oks h) k = k _ _ h
Agree-bind errs k = errs

-- The second computation goes on to repackage its value.
pub Agree-right :
    {A B C : Type 0} {R : A → B → Type 0} {S : A → C → Type 0} {r : Result A} {r' : Result B}
    (g : B → C)
    → Agree R r r'
    → ((a : A) (b : B) → R a b → S a (g b))
    → Agree S r (r' >>= λ b. ok (g b))
Agree-right g (oks h) k = oks (k _ _ h)
Agree-right g errs k = errs
