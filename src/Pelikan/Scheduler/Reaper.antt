-- ===== src/Pelikan/Scheduler/Reaper.antt =====
-- The invariant of the queues under `reaper_thread` of pelikanOS/src/scheduler.c.
use systems_programming_proj.Prelude.{
  ℕ, false, List, [], ◌∷◌, ◌≡◌, refl, sym, ap, ◌∙◌, ◌≢◌, ◌⊎◌, inl, inr, ◌==◌, arith,
}
use mathlib.Core.Path.{subst}
use systems_programming_proj.Pelikan.Tasks.{
  blocked, ready, running, dead, Store, update, Ends, ready_link, wait_link, dead_link,
}
use systems_programming_proj.Pelikan.Tasks.Chain.{update_self, update_field}
use systems_programming_proj.Pelikan.Scheduler.{Kernel, with_state, set_state, reap, take_corpse}
use systems_programming_proj.Pelikan.Scheduler.States.{
  Queues, Queues-same, remove_none, remove_first, Inv,
}
use systems_programming_proj.Pelikan.Scheduler.Switches.{Runs, set_state-Inv}

pub take_corpse_none :
    (k : Kernel)
    → take_corpse k (0, (k.dead_q, k.tasks))
      ≡ record k { tasks = set_state blocked k.reaper_task k.tasks }
unfolding take_corpse
take_corpse_none k = refl

pub take_corpse_first :
    (k : Kernel) (x : ℕ) (q' : Ends) (s : Store)
    → x ≢ 0
    → take_corpse k (x, (q', s)) ≡ record k { dead_q = q'; tasks = s }
unfolding take_corpse
take_corpse_first k x q' s ne = let e : (x == 0) ≡ false = ground (arith, ne) in rw e refl

-- After the reaper's step either it still runs, or it sleeps and has switched away.
abbrev Reaped : Ends → Kernel → Type 0
Reaped waiting k =
    (Inv k waiting × Runs k) ⊎ (Inv k waiting × ((k.tasks k.current_task).state ≡ blocked))

Reaped-from :
    (k : Kernel) (waiting : Ends) (h : Inv k waiting) (l : List ℕ)
    → k.current_task ≡ k.reaper_task
    → Runs k
    → Queues dead_link dead k.dead_q k.tasks l
    → Reaped waiting (reap k)
unfolding reap
Reaped-from k waiting h [] self runs dead_q =
    let asleep : (k.tasks k.reaper_task).state ≡ running =
      ap (λ i. (k.tasks i).state) (sym self) ∙ runs.state in
    let k' = record k { tasks = set_state blocked k.reaper_task k.tasks } in
    let sleeps : (k'.tasks k.current_task).state ≡ blocked =
      ap (λ i. (k'.tasks i).state) self
      ∙ ap (λ u. u.state) (update_self k.reaper_task (with_state blocked) k.tasks) in
    subst (Reaped waiting)
      (sym (
        ap (take_corpse k) (remove_none dead_link dead k.dead_q k.tasks dead_q)
        ∙ take_corpse_none k))
      (inr (set_state-Inv k waiting h blocked k.reaper_task asleep, sleeps))
Reaped-from k waiting h (x ∷ xs) self runs dead_q =
    let s = k.tasks in
    let s₁ = update x (dead_link.put 0) s in
    let states = update_field (λ u. u.state) x (dead_link.put 0) s (λ u. refl) in
    let (q', (removed, rest)) = remove_first dead_link dead k.dead_q s x xs (λ n u. refl) dead_q in
    let h' : Inv (record k { dead_q = q'; tasks = s₁ }) waiting = record {
      r = h.r;
      d = xs;
      w = h.w;
      ready_q =
          Queues-same ready_link ready k.queue h.r s s₁
            (update_field (λ u. u.ready_next) x (dead_link.put 0) s (λ u. refl)) states h.ready_q;
      dead_q = rest;
      wait_q =
          Queues-same wait_link blocked waiting h.w s s₁
            (update_field (λ u. u.mutex_wait_next) x (dead_link.put 0) s (λ u. refl)) states
            h.wait_q;
      reaper_nonnull = h.reaper_nonnull;
      reaper_apart = h.reaper_apart;
    } in
    let runs' : Runs (record k { dead_q = q'; tasks = s₁ }) = record {
      nonnull = runs.nonnull;
      state = states k.current_task ∙ runs.state;
    } in
    subst (Reaped waiting)
      (sym (ap (take_corpse k) removed ∙ take_corpse_first k x q' s₁ dead_q.holds.chain.1.0))
      (inl (h', runs'))

-- A round of the reaper: a corpse leaves the dead queue, or the reaper sleeps.
pub reap-Inv :
    (k : Kernel) (waiting : Ends)
    → k.current_task ≡ k.reaper_task
    → Inv k waiting
    → Runs k
    → (Inv (reap k) waiting × Runs (reap k))
      ⊎ (Inv (reap k) waiting × (((reap k).tasks (reap k).current_task).state ≡ blocked))
reap-Inv k waiting self h runs = Reaped-from k waiting h h.d self runs h.dead_q
