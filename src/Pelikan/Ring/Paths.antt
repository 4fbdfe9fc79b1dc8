-- ===== src/Pelikan/Ring/Paths.antt =====
-- Paths through the links `next` and `prev` of the task ring of pelikanOS/src/scheduler.c.
use systems_programming_proj.Prelude.{ℕ, List, [], ◌∷◌, ◌++◌, ◌≡◌, refl, sym, ◌∙◌, ◌≢◌}
use systems_programming_proj.Pelikan.Tasks.{Store}
use systems_programming_proj.Pelikan.Tasks.Chain.{Absent, Distinct}

-- From a task on, the links lead through the list, and the links back lead back.
abbrev pub IsPath : Store → ℕ → List ℕ → Type 0
IsPath s a [] = Unit
IsPath s a (b ∷ l) = ((s a).next ≡ b) × (((s b).prev ≡ a) × IsPath s b l)

abbrev pub end_of : ℕ → List ℕ → ℕ
end_of a [] = a
end_of a (b ∷ l) = end_of b l

-- The ring that `last` leads to: the tasks of the list in order, from the one behind `last` to `last`
-- itself, none of them twice.
pub record IsRing (s : Store) (last : ℕ) (l : List ℕ) : Type 0 where
  pub path : IsPath s last l
  pub last_end : end_of 0 l ≡ last
  pub distinct : Distinct l
  pub nonnull : last ≢ 0

pub end_of-differs : (a b : ℕ) (l : List ℕ) → Absent a (b ∷ l) → a ≢ end_of b l
end_of-differs a b [] out = out.0
end_of-differs a b (c ∷ l) out = end_of-differs a c l out.1

-- The tasks of a path that have one behind them.
abbrev pub sources : ℕ → List ℕ → List ℕ
sources a [] = []
sources a (b ∷ l) = a ∷ sources b l

pub sources-end : (a : ℕ) (l : List ℕ) → Distinct (a ∷ l) → Absent (end_of a l) (sources a l)
sources-end a [] d = tt
sources-end a (b ∷ l) d = (λ e. end_of-differs a b l d.0 (sym e), sources-end b l d.1)

pub sources-Absent : (y a : ℕ) (l : List ℕ) → Absent y (a ∷ l) → Absent y (sources a l)
sources-Absent y a [] out = tt
sources-Absent y a (b ∷ l) out = (out.0, sources-Absent y b l out.1)

-- A change of the store that writes `next` at `p`, which no step of the path leaves, `prev` at `n`,
-- which no step reaches, and else a task outside the path.
pub IsPath-same :
    (s s' : Store) (t p n a : ℕ) (l : List ℕ)
    → ((y : ℕ) → p ≢ y → t ≢ y → (s' y).next ≡ (s y).next)
    → ((y : ℕ) → n ≢ y → t ≢ y → (s' y).prev ≡ (s y).prev)
    → Absent t (a ∷ l)
    → Absent p (sources a l)
    → Absent n l
    → IsPath s a l
    → IsPath s' a l
IsPath-same s s' t p n a [] nexts prevs out left reached h = tt
IsPath-same s s' t p n a (b ∷ l) nexts prevs out left reached h = (
  nexts a left.0 out.0 ∙ h.0,
  (
    prevs b reached.0 out.1.0 ∙ h.1.0,
    IsPath-same s s' t p n b l nexts prevs out.1 left.1 reached.1 h.1.1,
  ),
)

-- The parts of a list without repetition.
pub Absent-split :
    (y : ℕ) (pre rest : List ℕ) → Absent y (pre ++ rest) → Absent y pre × Absent y rest
Absent-split y [] rest out = (tt, out)
Absent-split y (x ∷ pre) rest out =
    let (front, back) = Absent-split y pre rest out.1 in ((out.0, front), back)

pub Absent-both :
    (y : ℕ) (pre rest : List ℕ) → Absent y pre → Absent y rest → Absent y (pre ++ rest)
Absent-both y [] rest front back = back
Absent-both y (x ∷ pre) rest front back = (front.0, Absent-both y pre rest front.1 back)

pub Distinct-split : (pre rest : List ℕ) → Distinct (pre ++ rest) → Distinct pre × Distinct rest
Distinct-split [] rest d = (tt, d)
Distinct-split (x ∷ pre) rest d =
    let (front, back) = Distinct-split pre rest d.1 in
    (((Absent-split x pre rest d.0).0, front), back)

pub Distinct-drop :
    (pre : List ℕ) (t : ℕ) (rest : List ℕ) → Distinct (pre ++ t ∷ rest) → Distinct (pre ++ rest)
Distinct-drop [] t rest d = d.1
Distinct-drop (x ∷ pre) t rest d =
    let (front, back) = Absent-split x pre (t ∷ rest) d.0 in
    (Absent-both x pre rest front back.1, Distinct-drop pre t rest d.1)

pub head-Absent : (pre : List ℕ) (b : ℕ) (l : List ℕ) → Distinct (pre ++ b ∷ l) → Absent b pre
head-Absent [] b l d = tt
head-Absent (x ∷ pre) b l d =
    (λ e. (Absent-split x pre (b ∷ l) d.0).1.0 (sym e), head-Absent pre b l d.1)

pub end-Absent :
    (pre : List ℕ) (b : ℕ) (l : List ℕ) → Distinct (pre ++ b ∷ l) → Absent (end_of b l) pre
end-Absent [] b l d = tt
end-Absent (x ∷ pre) b l d =
    (λ e. end_of-differs x b l (Absent-split x pre (b ∷ l) d.0).1 (sym e), end-Absent pre b l d.1)

pub end-Absent_rest :
    (x : ℕ) (pre rest : List ℕ) → Distinct (x ∷ pre ++ rest) → Absent (end_of x pre) rest
end-Absent_rest x [] rest d = d.0
end-Absent_rest x (y ∷ pre) rest d = end-Absent_rest y pre rest d.1

pub IsPath-append :
    (s : Store) (a t : ℕ) (l : List ℕ)
    → IsPath s a l
    → (s (end_of a l)).next ≡ t
    → (s t).prev ≡ end_of a l
    → IsPath s a (l ++ t ∷ [])
IsPath-append s a t [] h next prev = (next, (prev, tt))
IsPath-append s a t (b ∷ l) h next prev = (h.0, (h.1.0, IsPath-append s b t l h.1.1 next prev))

-- Two paths in a row.
pub IsPath-split :
    (s : Store) (a : ℕ) (pre : List ℕ) (t : ℕ) (post : List ℕ)
    → IsPath s a (pre ++ t ∷ post)
    → IsPath s a pre
      × (((s (end_of a pre)).next ≡ t) × (((s t).prev ≡ end_of a pre) × IsPath s t post))
IsPath-split s a [] t post h = (tt, h)
IsPath-split s a (b ∷ pre) t post h =
    let (front, rest) = IsPath-split s b pre t post h.1.1 in ((h.0, (h.1.0, front)), rest)

pub IsPath-join :
    (s : Store) (a : ℕ) (pre : List ℕ) (t : ℕ) (post : List ℕ)
    → IsPath s a pre
    → (s (end_of a pre)).next ≡ t
    → (s t).prev ≡ end_of a pre
    → IsPath s t post
    → IsPath s a (pre ++ t ∷ post)
IsPath-join s a [] t post front next prev h = (next, (prev, h))
IsPath-join s a (b ∷ pre) t post front next prev h =
    (front.0, (front.1.0, IsPath-join s b pre t post front.1.1 next prev h))

pub end_of-append : (a t : ℕ) (pre post : List ℕ) → end_of a (pre ++ t ∷ post) ≡ end_of t post
end_of-append a t [] post = refl
end_of-append a t (b ∷ pre) post = end_of-append b t pre post
