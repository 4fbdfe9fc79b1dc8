-- ===== src/Pelikan/Ring/Unlinked.antt =====
-- What unlinking a task in pelikanOS/src/scheduler.c does to the links of the others.
use systems_programming_proj.Prelude.{
  ℕ, true, false, ◌≡◌, refl, sym, ap, ◌∙◌, ◌≢◌, ◌==◌, ==_iff, arith,
}
use systems_programming_proj.Pelikan.Tasks.{Store, update}
use systems_programming_proj.Pelikan.Tasks.Chain.{update_self, update_other, update_field}
use systems_programming_proj.Pelikan.Ring.{
  set_next, set_prev, unlink, remove_task_from_circular_list,
}
use systems_programming_proj.Pelikan.Ring.Insert.{next_of, prev_of}

-- The links behind the removal of `t` from between `p` and `n`.
module _ (s : Store) (t p n : ℕ) (np : p ≢ t) (nn : n ≢ t) (prev : (s t).prev ≡ p)
    (next : (s t).next ≡ n) where
  abbrev s₁ : Store
  s₁ = update (s t).prev (set_next (s t).next) s

  abbrev s₂ : Store
  s₂ = update (s₁ t).next (set_prev (s₁ t).prev) s₁

  abbrev s₃ : Store
  s₃ = update t (set_next 0) s₂

  abbrev s₄ : Store
  s₄ = update t (set_prev 0) s₃

  kept : s₁ t ≡ s t
  kept = update_other (s t).prev t (set_next (s t).next) s (λ e. np (sym prev ∙ e))

  at_n : (s₁ t).next ≡ n
  at_n = ap next_of kept ∙ next

  unlinked : s₂ ≡ update n (set_prev p) (update p (set_next n) s)
  unlinked =
      ap (λ u. update u.next (set_prev u.prev) s₁) kept
      ∙ (ap (λ i. update i (set_prev (s t).prev) s₁) next
          ∙ (ap (λ i. update n (set_prev i) s₁) prev
              ∙ (ap (λ i. update n (set_prev p) (update i (set_next (s t).next) s)) prev
                  ∙ ap (λ i. update n (set_prev p) (update p (set_next i) s)) next)))

  abbrev m₁ : Store
  m₁ = update p (set_next n) s

  abbrev m₂ : Store
  m₂ = update n (set_prev p) m₁

  outer : (y : ℕ) → t ≢ y → s₄ y ≡ m₂ y
  outer y ne =
      update_other t y (set_prev 0) s₃ ne
      ∙ (update_other t y (set_next 0) s₂ ne ∙ ap (λ (i : Store). i y) unlinked)

  pub remove-next_p : (s₄ p).next ≡ n
  remove-next_p =
      ap next_of (outer p (λ e. np (sym e)))
      ∙ (update_field next_of n (set_prev p) m₁ (λ u. refl) p
          ∙ ap next_of (update_self p (set_next n) s))

  pub remove-prev_n : (s₄ n).prev ≡ p
  remove-prev_n =
      ap prev_of (outer n (λ e. nn (sym e))) ∙ ap prev_of (update_self n (set_prev p) m₁)

  pub remove-next_other : (y : ℕ) → p ≢ y → t ≢ y → (s₄ y).next ≡ (s y).next
  remove-next_other y ne out =
      ap next_of (outer y out)
      ∙ (update_field next_of n (set_prev p) m₁ (λ u. refl) y
          ∙ ap next_of (update_other p y (set_next n) s ne))

  pub remove-prev_other : (y : ℕ) → n ≢ y → t ≢ y → (s₄ y).prev ≡ (s y).prev
  remove-prev_other y ne out =
      ap prev_of (outer y out)
      ∙ (ap prev_of (update_other n y (set_prev p) m₁ ne)
          ∙ update_field prev_of p (set_next n) s (λ u. refl) y)

  -- What the call returns when the task is not alone.
  pub removed : (last : ℕ) → last ≢ t → remove_task_from_circular_list t last s ≡ (last, s₄)
  unfolding remove_task_from_circular_list unlink
  removed last ne =
      let other : ((s t).next == t) ≡ false = ground (arith, nn, next) in
      let stays : (last == t) ≡ false = ground (arith, ne) in rw (other, stays) refl

  pub removed_last : remove_task_from_circular_list t t s ≡ (n, s₄)
  unfolding remove_task_from_circular_list unlink
  removed_last =
      let other : ((s t).next == t) ≡ false = ground (arith, nn, next) in
      let here : (t == t) ≡ true = (==_iff t t).1 refl in
      rw (other, here)
        (ap (λ i. (i, s₄))
          (update_field next_of (s₁ t).next (set_prev (s₁ t).prev) s₁ (λ u. refl) t ∙ at_n))

pub alone-removed :
    (s : Store) (t : ℕ) → (s t).next ≡ t → (remove_task_from_circular_list t t s).0 ≡ 0
unfolding remove_task_from_circular_list
alone-removed s t e = let self : ((s t).next == t) ≡ true = (==_iff _ t).1 e in rw self refl
