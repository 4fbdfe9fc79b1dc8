-- ===== src/Pelikan/Tasks/Chain.antt =====
-- Chains of tasks through one link field.
use systems_programming_proj.Prelude.{
  ℕ, false, List, [], ◌∷◌, ◌++◌, ◌≡◌, refl, sym, ap, ◌∙◌, ◌≢◌, inl, inr, ◌==◌, ==_iff, Bool-cases,
  arith,
}
use systems_programming_proj.Pelikan.Tasks.{Task, Store, update, Link}

pub update_self : (p : ℕ) (f : Task → Task) (tasks : Store) → update p f tasks p ≡ f (tasks p)
unfolding update
update_self p f tasks = rw ((==_iff p p).1 refl) refl

pub update_other :
    (p q : ℕ) (f : Task → Task) (tasks : Store) → p ≢ q → update p f tasks q ≡ tasks q
unfolding update
update_other p q f tasks ne = let e : (p == q) ≡ false = ground (arith, ne) in rw e refl

-- A field that an update of any task leaves.
pub update_field {ℓ} :
    {X : Type ℓ} (field : Task → X) (t : ℕ) (f : Task → Task) (s : Store)
    → ((u : Task) → field (f u) ≡ field u)
    → (x : ℕ) → field (update t f s x) ≡ field (s x)
unfolding update
update_field field t f s keeps x = elim (Bool-cases (t == x)) [
  | inl e ↦ rw e (keeps (s x))
  | inr e ↦ rw e refl
]

-- The task is not in the list.
abbrev pub Absent : ℕ → List ℕ → Type 0
Absent t [] = Unit
Absent t (x ∷ xs) = (t ≢ x) × Absent t xs

abbrev pub Distinct : List ℕ → Type 0
Distinct [] = Unit
Distinct (x ∷ xs) = Absent x xs × Distinct xs

-- The list of the tasks that the links visit from one on, up to the null pointer.
abbrev pub IsChain : Link → Store → ℕ → List ℕ → Type 0
IsChain link tasks p [] = p ≡ 0
IsChain link tasks p (x ∷ xs) = (p ≡ x) × ((x ≢ 0) × IsChain link tasks (link.get (tasks x)) xs)

-- The tail of a queue that holds a list.
abbrev pub IsLast : ℕ → List ℕ → Type 0
IsLast t [] = Unit
IsLast t (x ∷ []) = t ≡ x
IsLast t (x ∷ y ∷ ys) = IsLast t (y ∷ ys)

pub IsChain-head :
    (link : Link) (s : Store) (p q : ℕ) (xs : List ℕ)
    → p ≡ q
    → IsChain link s p xs
    → IsChain link s q xs
IsChain-head link s p q [] e h = sym e ∙ h
IsChain-head link s p q (x ∷ xs) e h = (sym e ∙ h.0, h.1)

-- A task outside the chain is updated.
pub IsChain-Absent :
    (link : Link) (s : Store) (t : ℕ) (f : Task → Task) (p : ℕ) (xs : List ℕ)
    → Absent t xs
    → IsChain link s p xs
    → IsChain link (update t f s) p xs
IsChain-Absent link s t f p [] out h = h
IsChain-Absent link s t f p (x ∷ xs) out h = (
  h.0,
  (
    h.1.0,
    IsChain-Absent link s t f (link.get (update t f s x)) xs out.1
        (IsChain-head link s _ _ xs (ap link.get (sym (update_other t x f s out.0))) h.1.1),
  ),
)

-- The links alone matter.
pub IsChain-same :
    (link : Link) {s s' : Store} (p : ℕ) (xs : List ℕ)
    → ((x : ℕ) → link.get (s' x) ≡ link.get (s x))
    → IsChain link s p xs
    → IsChain link s' p xs
IsChain-same link p [] same h = h
IsChain-same link {s = s} {s' = s'} p (x ∷ xs) same h = (
  h.0,
  (
    h.1.0,
    IsChain-same link (link.get (s' x)) xs same (IsChain-head link s _ _ xs (sym (same x)) h.1.1),
  ),
)

last_differs : (t x : ℕ) (y : ℕ) (ys : List ℕ) → IsLast t (y ∷ ys) → Absent x (y ∷ ys) → t ≢ x
last_differs t x y [] last out e = out.0 (sym e ∙ last)
last_differs t x y (z ∷ zs) last out e = last_differs t x z zs last out.1 e

-- The last task of a chain is linked to a new one, whose own link is null.
pub IsChain-append :
    (link : Link) (s : Store) (tail t : ℕ) (p : ℕ) (x : ℕ) (xs : List ℕ)
    → t ≢ 0
    → link.get (s t) ≡ 0
    → Absent t (x ∷ xs)
    → Distinct (x ∷ xs)
    → IsLast tail (x ∷ xs)
    → IsChain link s p (x ∷ xs)
    → IsChain link (update tail (link.put t) s) p (x ∷ xs ++ t ∷ [])
IsChain-append link s tail t p x [] nonnull ends out distinct last h =
    let here : link.get (update tail (link.put t) s x) ≡ t =
      ap (λ i. link.get (update tail (link.put t) s i)) (sym last)
      ∙ (ap link.get (update_self tail (link.put t) s) ∙ link.get-put t (s tail)) in
    let ne : tail ≢ t = λ e. out.0 (sym e ∙ last) in
    let there : link.get (update tail (link.put t) s t) ≡ 0 =
      ap link.get (update_other tail t (link.put t) s ne) ∙ ends in
    (h.0, (h.1.0, (here, (nonnull, there))))
IsChain-append link s tail t p x (y ∷ ys) nonnull ends out distinct last h = (
  h.0,
  (
    h.1.0,
    IsChain-append link s tail t (link.get (update tail (link.put t) s x)) y ys nonnull ends out.1
        distinct.1 last
        (IsChain-head link s _ _ (y ∷ ys)
          (ap link.get
            (sym (update_other tail x (link.put t) s (last_differs tail x y ys last distinct.0))))
          h.1.1),
  ),
)
