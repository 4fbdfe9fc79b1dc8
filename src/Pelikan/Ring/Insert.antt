-- ===== src/Pelikan/Ring/Insert.antt =====
-- `insert_task` of pelikanOS/src/scheduler.c.
use mathlib.Core.Path.{subst}
use systems_programming_proj.Prelude.{
  ℕ, false, List, [], ◌∷◌, ◌++◌, ◌≡◌, refl, sym, ap, ◌∙◌, ◌≢◌, ◌==◌, arith,
}
use systems_programming_proj.Pelikan.Tasks.{Task, Store, update}
use systems_programming_proj.Pelikan.Tasks.Chain.{Absent, update_self, update_other, update_field}
use systems_programming_proj.Pelikan.Tasks.Queue.{Distinct-append}
use systems_programming_proj.Pelikan.Ring.{set_next, set_prev, insert_behind, insert_task}
use systems_programming_proj.Pelikan.Ring.Paths.{
  end_of, end_of-differs, IsRing, IsPath-same, sources, sources-end, IsPath-append, end_of-append,
}

abbrev pub next_of : Task → ℕ
next_of u = u.next

abbrev pub prev_of : Task → ℕ
prev_of u = u.prev

-- The links behind the insertion of `t` between `last` and `first`.
module _ (s : Store) (t last first : ℕ) (ne : t ≢ last) (e : (s last).next ≡ first) where
  abbrev s₁ : Store
  s₁ = update t (set_next (s last).next) s

  abbrev s₂ : Store
  s₂ = update t (set_prev last) s₁

  abbrev s₃ : Store
  s₃ = update (s₂ last).next (set_prev t) s₂

  abbrev s₄ : Store
  s₄ = update last (set_next t) s₃

  second : (s₂ last).next ≡ first
  second =
      update_field next_of t (set_prev last) s₁ (λ u. refl) last
      ∙ (ap next_of (update_other t last (set_next (s last).next) s ne) ∙ e)

  insert-next_last : (s₄ last).next ≡ t
  insert-next_last = ap next_of (update_self last (set_next t) s₃)

  insert-next_t : (s₄ t).next ≡ first
  insert-next_t =
      ap next_of (update_other last t (set_next t) s₃ (λ f. ne (sym f)))
      ∙ (update_field next_of (s₂ last).next (set_prev t) s₂ (λ u. refl) t
          ∙ (update_field next_of t (set_prev last) s₁ (λ u. refl) t
              ∙ (ap next_of (update_self t (set_next (s last).next) s) ∙ e)))

  insert-next_other : (y : ℕ) → last ≢ y → t ≢ y → (s₄ y).next ≡ (s y).next
  insert-next_other y n m =
      ap next_of (update_other last y (set_next t) s₃ n)
      ∙ (update_field next_of (s₂ last).next (set_prev t) s₂ (λ u. refl) y
          ∙ (update_field next_of t (set_prev last) s₁ (λ u. refl) y
              ∙ ap next_of (update_other t y (set_next (s last).next) s m)))

  insert-prev_first : (s₄ first).prev ≡ t
  insert-prev_first =
      update_field prev_of last (set_next t) s₃ (λ u. refl) first
      ∙ (ap (λ i. (update i (set_prev t) s₂ first).prev) second
          ∙ ap prev_of (update_self first (set_prev t) s₂))

  insert-prev_t : first ≢ t → (s₄ t).prev ≡ last
  insert-prev_t n =
      update_field prev_of last (set_next t) s₃ (λ u. refl) t
      ∙ (ap (λ i. (update i (set_prev t) s₂ t).prev) second
          ∙ (ap prev_of (update_other first t (set_prev t) s₂ n)
              ∙ ap prev_of (update_self t (set_prev last) s₁)))

  insert-prev_other : (y : ℕ) → first ≢ y → t ≢ y → (s₄ y).prev ≡ (s y).prev
  insert-prev_other y n m =
      update_field prev_of last (set_next t) s₃ (λ u. refl) y
      ∙ (ap (λ i. (update i (set_prev t) s₂ y).prev) second
          ∙ (ap prev_of (update_other first y (set_prev t) s₂ n)
              ∙ (ap prev_of (update_other t y (set_prev last) s₁ m)
                  ∙ update_field prev_of t (set_next (s last).next) s (λ u. refl) y)))

insert_linked :
    (t last : ℕ) (s : Store) → last ≢ 0 → insert_task t last s ≡ (t, insert_behind t last s)
unfolding insert_task
insert_linked t last s ne = let e : (last == 0) ≡ false = ground (arith, ne) in rw e refl

behind-IsRing :
    (s : Store) (t last first : ℕ) (l : List ℕ)
    → t ≢ 0
    → Absent t (first ∷ l)
    → IsRing s last (first ∷ l)
    → IsRing (insert_behind t last s) t (first ∷ l ++ t ∷ [])
unfolding insert_behind
behind-IsRing s t last first l nonnull out ring =
    let next = ring.path.0 in
    let e : end_of first l ≡ last = ring.last_end in
    let ne : t ≢ last = λ f. end_of-differs t first l out (f ∙ sym e) in
    let along =
      IsPath-same s (s₄ s t last first ne next) t last first first l
        (insert-next_other s t last first ne next) (insert-prev_other s t last first ne next) out
        (subst (λ i. Absent i (sources first l)) e (sources-end first l ring.distinct))
        ring.distinct.0 ring.path.1.1 in
    let behind =
      IsPath-append (s₄ s t last first ne next) first t l along
        (ap (λ i. (s₄ s t last first ne next i).next) e ∙ insert-next_last s t last first ne next)
        (insert-prev_t s t last first ne next (λ f. out.0 (sym f)) ∙ sym e) in
    record {
      path = (
        insert-next_t s t last first ne next,
        (insert-prev_first s t last first ne next, behind),
      );
      last_end = end_of-append first t l [];
      distinct = Distinct-append t (first ∷ l) out ring.distinct;
      nonnull = nonnull;
    }

-- The ring of the tasks in a list: null when it is empty.
pub data Rings (s : Store) : ℕ → List ℕ → Type 0 where
  empty_ring : Rings s 0 []
  ring : {last x : ℕ} {l : List ℕ} → IsRing s last (x ∷ l) → Rings s last (x ∷ l)

alone-IsRing :
    (t : ℕ) (s : Store)
    → t ≢ 0
    → IsRing (update t (set_prev t) (update t (set_next t) s)) t (t ∷ [])
alone-IsRing t s ne =
    let s₁ = update t (set_next t) s in
    record {
      path = (
        update_field (λ u. u.next) t (set_prev t) s₁ (λ u. refl) t
            ∙ ap (λ u. u.next) (update_self t (set_next t) s),
        (ap (λ u. u.prev) (update_self t (set_prev t) s₁), tt),
      );
      last_end = refl;
      distinct = (tt, tt);
      nonnull = ne;
    }

-- `insert_task` puts a task that is not null and not in the ring behind the last one: the ring holds
-- the tasks it held, in their order, and then the new one, linked both ways, and `last_inserted`
-- names the new one.
pub insert_task-Rings :
    (t last : ℕ) (s : Store) (l : List ℕ)
    → t ≢ 0
    → Absent t l
    → Rings s last l
    → ((insert_task t last s).0 ≡ t) × Rings (insert_task t last s).1 t (l ++ t ∷ [])
unfolding insert_task
insert_task-Rings t _ s _ nonnull out empty_ring = (refl, ring (alone-IsRing t s nonnull))
insert_task-Rings t last s _ nonnull out (ring {x = x} {l = l} h) =
    subst (λ o. (o.0 ≡ t) × Rings o.1 t (x ∷ l ++ t ∷ [])) (sym (insert_linked t last s h.nonnull))
      (refl, ring (behind-IsRing s t last x l nonnull out h))
