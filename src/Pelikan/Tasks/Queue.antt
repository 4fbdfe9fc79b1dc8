-- ===== src/Pelikan/Tasks/Queue.antt =====
-- The linked queues of pelikanOS/src/scheduler.c and pelikanOS/src/mutex_lock.c as lists.
use systems_programming_proj.Prelude.{
  ℕ, true, false, List, [], ◌∷◌, ◌++◌, ◌≡◌, refl, sym, ap, ◌∙◌, ◌≢◌, inl, inr, ◌==◌, ==_iff,
  Bool-cases, if◌then◌else◌, arith,
}
use systems_programming_proj.Pelikan.Tasks.{Task, Store, update, Link, Ends, add_task, remove_task}
use systems_programming_proj.Pelikan.Tasks.Chain.{
  Absent, Distinct, IsChain, IsLast, IsChain-Absent, IsChain-same, IsChain-append, update_self,
  update_field,
}

-- The queue holds the tasks of the list, oldest first, each of them once.
pub record Holds (link : Link) (q : Ends) (tasks : Store) (l : List ℕ) : Type 0 where
  pub chain : IsChain link tasks q.head l
  pub last : IsLast q.tail l
  pub distinct : Distinct l

pub Absent-append : (x t : ℕ) (l : List ℕ) → Absent x l → x ≢ t → Absent x (l ++ t ∷ [])
Absent-append x t [] out ne = (ne, tt)
Absent-append x t (y ∷ ys) out ne = (out.0, Absent-append x t ys out.1 ne)

pub Distinct-append : (t : ℕ) (l : List ℕ) → Absent t l → Distinct l → Distinct (l ++ t ∷ [])
Distinct-append t [] out d = (tt, tt)
Distinct-append t (x ∷ xs) out d =
    (Absent-append x t xs d.0 (λ e. out.0 (sym e)), Distinct-append t xs out.1 d.1)

IsLast-append : (t : ℕ) (l : List ℕ) → IsLast t (l ++ t ∷ [])
IsLast-append t [] = refl
IsLast-append t (x ∷ []) = refl
IsLast-append t (x ∷ y ∷ ys) = IsLast-append t (y ∷ ys)

-- A queue behind a change that its chain does not see.
pub Holds-Absent :
    (link : Link) (q : Ends) (s : Store) (l : List ℕ) (t : ℕ) (f : Task → Task)
    → Absent t l
    → Holds link q s l
    → Holds link q (update t f s) l
Holds-Absent link q s l t f out h = record {
  chain = IsChain-Absent link s t f _ l out h.chain;
  last = h.last;
  distinct = h.distinct;
}

pub Holds-same :
    (link : Link) (q : Ends) (l : List ℕ) {s s' : Store}
    → ((x : ℕ) → link.get (s' x) ≡ link.get (s x))
    → Holds link q s l
    → Holds link q s' l
Holds-same link q l same h = record {
  chain = IsChain-same link q.head l same h.chain;
  last = h.last;
  distinct = h.distinct;
}

add_task_empty :
    (link : Link) (q : Ends) (s : Store) (t : ℕ)
    → q.head ≡ 0
    → add_task link t q s ≡ (record { head = t; tail = t }, update t (link.put 0) s)
unfolding add_task
add_task_empty link q s t null =
    let e : (q.head == 0) ≡ true = (==_iff q.head 0).1 null in simp (e) refl

add_task_linked :
    (link : Link) (q : Ends) (s : Store) (t : ℕ)
    → q.head ≢ 0
    → add_task link t q s
      ≡ (record { head = q.head; tail = t }, update q.tail (link.put t) (update t (link.put 0) s))
unfolding add_task
add_task_linked link q s t ne = let e : (q.head == 0) ≡ false = ground (arith, ne) in simp (e) refl

-- `add_task_to_ready_queue`, and likewise for the dead queue and the queue of a mutex: a task that
-- is not in the queue and not null becomes the last one.
pub add_task-Holds :
    (link : Link) (q : Ends) (s : Store) (l : List ℕ) (t : ℕ)
    → t ≢ 0
    → Absent t l
    → Holds link q s l
    → Holds link (add_task link t q s).0 (add_task link t q s).1 (l ++ t ∷ [])
add_task-Holds link q s [] t nonnull out h =
    let null = ap link.get (update_self t (link.put 0) s) ∙ link.get-put 0 (s t) in
    let added : Holds link (record { head = t; tail = t }) (update t (link.put 0) s) (t ∷ []) =
      record { chain = (refl, (nonnull, null)); last = refl; distinct = (tt, tt) } in
    rw (add_task_empty link q s t h.chain) added
add_task-Holds link q s (x ∷ xs) t nonnull out h =
    let null : link.get (update t (link.put 0) s t) ≡ 0 =
      ap link.get (update_self t (link.put 0) s) ∙ link.get-put 0 (s t) in
    let chain = IsChain-Absent link s t (link.put 0) q.head (x ∷ xs) out h.chain in
    let added : Holds link (record { head = q.head; tail = t })
        (update q.tail (link.put t) (update t (link.put 0) s)) (x ∷ xs ++ t ∷ []) =
      record {
        chain = IsChain-append link _ q.tail t q.head x xs nonnull null out h.distinct h.last chain;
        last = IsLast-append t (x ∷ xs);
        distinct = Distinct-append t (x ∷ xs) out h.distinct;
      } in
    rw (add_task_linked link q s t (λ e. h.chain.1.0 (sym h.chain.0 ∙ e))) added

-- A field that the links do not share with the queue.
pub add_task_field {ℓ} :
    {X : Type ℓ} (field : Task → X) (link : Link) (t : ℕ) (q : Ends) (s : Store)
    → ((n : ℕ) (u : Task) → field (link.put n u) ≡ field u)
    → (x : ℕ) → field ((add_task link t q s).1 x) ≡ field (s x)
add_task_field field link t q s keeps x = elim (Bool-cases (q.head == 0)) [
  | inl e ↦
      rw (add_task_empty link q s t ((==_iff q.head 0).0 e))
        (update_field field t (link.put 0) s (keeps 0) x)
  | inr e ↦
      let ne : q.head ≢ 0 = ground (arith, e) in
      rw (add_task_linked link q s t ne) (
        update_field field q.tail (link.put t) _ (keeps t) x
        ∙ update_field field t (link.put 0) s (keeps 0) x)
]

-- What a removal answers: null and no change for an empty queue, otherwise the oldest task, whose
-- link alone is written.
pub data Removes (link : Link) (q : Ends) (s : Store) : List ℕ → ℕ × (Ends × Store) → Type 0 where
  none_left : Removes link q s [] (0, (q, s))
  oldest :
      {q' : Ends} (t : ℕ) (l : List ℕ)
      → t ≢ 0
      → Holds link q' (update t (link.put 0) s) l
      → Removes link q s (t ∷ l) (t, (q', update t (link.put 0) s))

remove_task_empty :
    (link : Link) (q : Ends) (s : Store) → q.head ≡ 0 → remove_task link q s ≡ (0, (q, s))
unfolding remove_task
remove_task_empty link q s null =
    let e : (q.head == 0) ≡ true = (==_iff q.head 0).1 null in simp (e) refl

abbrev after : ℕ → Ends → Ends
after rest q =
    if rest == 0 then record { head = 0; tail = 0 } else record { head = rest; tail = q.tail }

remove_task_linked :
    (link : Link) (q : Ends) (s : Store)
    → q.head ≢ 0
    → remove_task link q s ≡ (q.head, (after (link.get (s q.head)) q, update q.head (link.put 0) s))
unfolding remove_task
remove_task_linked link q s ne = let e : (q.head == 0) ≡ false = ground (arith, ne) in simp (e) refl

after-Holds :
    (link : Link) (q : Ends) (s : Store) (x : ℕ) (xs : List ℕ) (rest : ℕ)
    → IsLast q.tail (x ∷ xs)
    → Distinct xs
    → IsChain link s rest xs
    → Holds link (after rest q) s xs
after-Holds link q s x [] rest last d chain =
    let e : (rest == 0) ≡ true = (==_iff rest 0).1 chain in
    let emptied : Holds link (record { head = 0; tail = 0 }) s [] = record {
      chain = refl;
      last = tt;
      distinct = tt;
    } in
    rw e emptied
after-Holds link q s x (y ∷ ys) rest last d chain =
    let ne : rest ≢ 0 = λ null. chain.1.0 (sym chain.0 ∙ null) in
    let e : (rest == 0) ≡ false = ground (arith, ne) in
    let shorter : Holds link (record { head = rest; tail = q.tail }) s (y ∷ ys) = record {
      chain = chain;
      last = last;
      distinct = d;
    } in
    rw e shorter

-- `remove_task_from_ready_queue`, and likewise for the dead queue and the queue of a mutex: an empty
-- queue gives null and stays as it is; otherwise the oldest task is given, the queue holds the
-- others in their order, and only the link of that task is written, which becomes null.
pub remove_task-Removes :
    (link : Link) (q : Ends) (s : Store) (l : List ℕ)
    → Holds link q s l
    → Removes link q s l (remove_task link q s)
remove_task-Removes link q s [] h = rw (remove_task_empty link q s h.chain) none_left
remove_task-Removes link q s (x ∷ xs) h =
    let rest = IsChain-Absent link s x (link.put 0) (link.get (s x)) xs h.distinct.0 h.chain.1.1 in
    let removed : Removes link q s (x ∷ xs)
        (x, (after (link.get (s x)) q, update x (link.put 0) s)) =
      oldest x xs h.chain.1.0
        (after-Holds link q _ x xs (link.get (s x)) h.last h.distinct.1 rest) in
    let e : remove_task link q s ≡ (x, (after (link.get (s x)) q, update x (link.put 0) s)) =
      remove_task_linked link q s (λ e. h.chain.1.0 (sym h.chain.0 ∙ e))
      ∙ ap (λ i. (i, (after (link.get (s i)) q, update i (link.put 0) s))) h.chain.0 in
    rw e removed
