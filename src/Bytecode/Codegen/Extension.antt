-- ===== src/Bytecode/Codegen/Extension.antt =====
-- What the variable table of bytecode-vm/compiler.c keeps when a name is looked up or put in.
use mathlib.Core.Path.{subst}
use systems_programming_proj.Prelude.{
  ℕ, ◌≤◌, ◌<◌, ◌≡◌, refl, ◌∙◌, ap, inl, inr, true, none, some, List, [], ◌∷◌, arith, Bool-cases,
  Option-cases, length, length-append, length-set, get_or, get_or-set_ne, set, bytes_eq,
  bytes_eq→eq,
}
use systems_programming_proj.Bytecode.Ast.{Name}
use systems_programming_proj.Bytecode.Scope.{member, nonempty}
use systems_programming_proj.Bytecode.Codegen.{Gen, byte, emit, find, store_slot, patch}
use systems_programming_proj.Bytecode.Codegen.Table.{find-set_self, find-set_ne}
use systems_programming_proj.Bytecode.Codegen.Grow.{SameTable, emit-SameTable}

-- Every assignment takes at least four bytes, so the table has room while the code is short.
pub record IsTable (g : Gen) : Type 0 where
  pub room : length g.names ≡ 256
  pub unused : (k : ℕ) → g.count ≤ k → get_or g.names k [] ≡ []
  pub few : g.count ≤ length g.bytes

abbrev pub Extends : List Name → List Name → Type 0
Extends ys zs = (y : Name) (i : ℕ) → nonempty y ≡ true → find y ys ≡ some i → find y zs ≡ some i

abbrev pub Covers : List Name → List Name → Type 0
Covers scope ys =
    (x : Name) → member x scope ≡ true → (nonempty x ≡ true) × ((i : ℕ) × (find x ys ≡ some i))

pub record Grown (scope : List Name) (g g' : Gen) : Type 0 where
  pub table : IsTable g'
  pub covers : Covers scope g'.names
  pub extends : Extends g.names g'.names

pub SameTable-Grown :
    {scope : List Name} {g g' : Gen}
    → SameTable g g'
    → IsTable g
    → Covers scope g.names
    → Grown scope g g'
SameTable-Grown {scope} {g} {g'} s t c = record {
  table = record {
    room = ap length s.names ∙ t.room;
    unused = λ k h. rw s.names (t.unused k (omega (arith, s.count)));
    few = omega (arith, s.count, s.longer, t.few);
  };
  covers = rw s.names c;
  extends = rw s.names (λ y i n h. h);
}

pub Grown-trans :
    {scope scope' : List Name} {g g' g'' : Gen}
    → Grown scope g g'
    → Grown scope' g' g''
    → Grown scope' g g''
Grown-trans a b = record {
  table = b.table;
  covers = b.covers;
  extends = λ y i n h. b.extends y i n (a.extends y i n h);
}

Covers-cons :
    (scope ys zs : List Name) (x : Name) (i : ℕ)
    → Covers scope ys
    → Extends ys zs
    → nonempty x ≡ true
    → find x zs ≡ some i
    → Covers (x ∷ scope) zs
unfolding member
Covers-cons scope ys zs x i c ext n found y h = elim (Bool-cases (bytes_eq x y)) [
  | inl e ↦
      subst (λ z. (nonempty z ≡ true) × ((j : ℕ) × (find z zs ≡ some j))) (bytes_eq→eq x y e)
        (n, (i, found))
  | inr e ↦ let (ny, (j, old)) = c y (rw e at h) in (ny, (j, ext y j ny old))
]

known-Grown :
    {scope : List Name} (x : Name) (i : ℕ) {g : Gen}
    → IsTable g
    → Covers scope g.names
    → nonempty x ≡ true
    → find x g.names ≡ some i
    → Grown (x ∷ scope) g (emit i g)
unfolding emit
known-Grown {scope} x i {g} t c n h =
    let same : SameTable g (emit i g) =
      emit-SameTable i (record { names = refl; count = refl; longer = omega arith }) in
    let grown = SameTable-Grown same t c in
    record {
      table = grown.table;
      covers = Covers-cons scope g.names g.names x i c grown.extends n h;
      extends = grown.extends;
    }

new-Grown :
    {scope : List Name} (x : Name) {g : Gen}
    → IsTable g
    → Covers scope g.names
    → nonempty x ≡ true
    → find x g.names ≡ none
    → g.count < 256
    → Grown (x ∷ scope) g (store_slot x none g)
unfolding store_slot
new-Grown {scope} x {g} t c n h room = record {
  table = record {
    room = length-set g.names g.count x ∙ t.room;
    unused = λ k le. get_or-set_ne g.names g.count k x [] (omega arith) ∙ t.unused k (omega arith);
    few = omega (arith, t.few, length-append g.bytes (byte g.count ∷ []));
  };
  covers =
      Covers-cons scope g.names (set g.names g.count x) x g.count c keeps n
        (find-set_self x g.names g.count h (omega (arith, t.room)));
  extends = keeps;
}
  where
    keeps : Extends g.names (set g.names g.count x)
    keeps y i ny hy =
        find-set_ne x y g.names g.count i h
          (rw (t.unused g.count (omega arith)) (λ e. cc (ap nonempty e))) hy

pub store_slot-Grown :
    {scope : List Name} (x : Name) {g : Gen}
    → IsTable g
    → Covers scope g.names
    → nonempty x ≡ true
    → g.count < 256
    → Grown (x ∷ scope) g (store_slot x (find x g.names) g)
store_slot-Grown x {g} t c n room = elim (Option-cases (find x g.names)) [
  | inl e ↦ rw e (new-Grown x t c n e room)
  | inr (i, e) ↦ rw e (unfold store_slot in known-Grown x i t c n e)
]

pub patch-Grown :
    {scope : List Name} (i : ℕ) {g g' : Gen} → Grown scope g g' → Grown scope g (patch i g')
unfolding patch
patch-Grown i {g' = g'} h = record {
  table = record {
    room = h.table.room;
    unused = h.table.unused;
    few = omega (arith, h.table.few, length-set g'.bytes i (byte (length g'.bytes)));
  };
  covers = h.covers;
  extends = h.extends;
}
