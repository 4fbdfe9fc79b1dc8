-- ===== src/Pelikan/Ring/Listing.antt =====
-- `scheduler_list_tasks` of pelikanOS/src/scheduler.c ends and lists each task of the ring once.
use mathlib.Core.Path.{subst}
use systems_programming_proj.Prelude.{
  append_assoc, ℕ, zero, suc, ◌≤◌, true, false, some, List, [], ◌∷◌, ◌++◌, ◌≡◌, refl, sym, ap, ◌∙◌,
  ◌==◌, ==_iff, length, length-append, arith,
}
use systems_programming_proj.Pelikan.Tasks.{Store}
use systems_programming_proj.Pelikan.Tasks.Chain.{Absent}
use systems_programming_proj.Pelikan.Vga.{Vga}
use systems_programming_proj.Pelikan.Ring.{list_task, list_from, scheduler_list_tasks}
use systems_programming_proj.Pelikan.Ring.Paths.{
  IsPath, end_of, IsRing, IsPath-split, IsPath-append, end_of-append, Absent-both, Distinct-split,
  head-Absent,
}

-- The tasks of a list, one line for each.
unfoldable pub list_all : Store → List ℕ → Vga → Vga
list_all s [] vga = vga
list_all s (x ∷ xs) vga = list_all s xs (list_task (s x) vga)

IsPath-concat :
    (s : Store) (a : ℕ) (l l' : List ℕ)
    → IsPath s a l
    → IsPath s (end_of a l) l'
    → IsPath s a (l ++ l')
IsPath-concat s a [] l' h rest = rest
IsPath-concat s a (b ∷ l) l' h rest = (h.0, (h.1.0, IsPath-concat s b l l' h.1.1 rest))

-- The loop along a path that ends at the task it began with.
list_from-path :
    (rounds c a : ℕ) (l : List ℕ) (s : Store) (vga : Vga)
    → suc (length l) ≤ rounds
    → Absent c l
    → IsPath s a (l ++ c ∷ [])
    → list_from rounds c a s vga ≡ some (list_all s (a ∷ l) vga)
unfolding list_from list_all
list_from-path zero c a l s vga enough out h = absurd (omega arith)
list_from-path (suc rounds) c a [] s vga enough out h =
    let back : ((s a).next == c) ≡ true = (==_iff _ c).1 h.0 in rw back refl
list_from-path (suc rounds) c a (b ∷ l) s vga enough out h =
    let next = h.0 in
    let on : ((s a).next == c) ≡ false = ground (arith, next, out.0) in
    rw on (
      ap (λ i. list_from rounds c i s (list_task (s a) vga)) next
      ∙ list_from-path rounds c b l s (list_task (s a) vga) (omega arith) out.1 h.1.1)

-- When the current task is in the ring, as many rounds as the ring has tasks are enough for
-- `scheduler_list_tasks`, and it prints each task once: from the current one on in the order of the
-- ring, and then from the beginning up to it.
pub scheduler_list_tasks-list_all :
    (rounds last c : ℕ) (pre post : List ℕ) (s : Store) (vga : Vga)
    → IsRing s last (pre ++ c ∷ post)
    → length (pre ++ c ∷ post) ≤ rounds
    → scheduler_list_tasks rounds last c s vga ≡ some (list_all s (c ∷ post ++ pre) vga)
unfolding scheduler_list_tasks
scheduler_list_tasks-list_all rounds last c pre post s vga h enough =
    let full : (last == 0) ≡ false = ground (arith, h.nonnull) in
    let e : end_of c post ≡ last = sym (end_of-append 0 c pre post) ∙ h.last_end in
    let (front, (next, (prev, back))) = IsPath-split s last pre c post h.path in
    let around = IsPath-append s last c pre front next prev in
    let path =
      IsPath-concat s c post (pre ++ c ∷ []) back
        (subst (λ i. IsPath s i (pre ++ c ∷ [])) (sym e) around) in
    let out =
      Absent-both c post pre (Distinct-split pre (c ∷ post) h.distinct).1.0
        (head-Absent pre c post h.distinct) in
    let sizes : suc (length (post ++ pre)) ≤ rounds =
      omega (arith, enough, length-append pre (c ∷ post), length-append post pre) in
    rw full (
      list_from-path rounds c c (post ++ pre) s vga sizes out
        (subst (IsPath s c) (sym (append_assoc post pre (c ∷ []))) path))
