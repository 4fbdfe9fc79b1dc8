-- ===== src/Pelikan/Vmm/Fill.antt =====
-- The loop of `vmm_init` in pelikanOS/src/vmm.c that fills the first page table.
use systems_programming_proj.Prelude.{
  ℕ, zero, suc, ◌+◌, ◌*◌, ◌<◌, ◌≤◌, ◌≡◌, refl, sym, ap, ◌∙◌, ◌≢◌, ◌⊎◌, inl, inr, ◌==◌, ==_iff,
  Bool-cases, arith,
}
use systems_programming_proj.Pelikan.Vmm.{Words, put_word, present_rw, entry_at, fill_table}
use systems_programming_proj.Pelikan.Vmm.Tables.{put_word_self, put_word_other}

pub fill_table-before :
    (remaining i page : ℕ) (w : Words) (q : ℕ)
    → (q < entry_at page i) ⊎ (entry_at page (i + remaining) ≤ q)
    → fill_table remaining i page w q ≡ w q
unfolding fill_table
fill_table-before zero i page w q out = refl
fill_table-before (suc remaining) i page w q out =
    let ne : entry_at page i ≢ q =
      λ e. elim out [ inl a ↦ omega (arith, a, e) | inr b ↦ omega (arith, b, e) ] in
    fill_table-before remaining (suc i) page (put_word (entry_at page i) (present_rw (i * 4096)) w)
      q (elim out [ inl a ↦ inl (omega (arith, a)) | inr b ↦ inr (omega (arith, b)) ])
    ∙ put_word_other (entry_at page i) q (present_rw (i * 4096)) w ne

-- Each entry of the table names the page of its own number.
pub fill_table-entry :
    (remaining i page : ℕ) (w : Words) (j : ℕ)
    → i ≤ j
    → j < i + remaining
    → fill_table remaining i page w (entry_at page j) ≡ present_rw (j * 4096)
unfolding fill_table
fill_table-entry zero i page w j lo hi = absurd (omega arith)
fill_table-entry (suc remaining) i page w j lo hi = elim (Bool-cases (i == j)) [
  | inl e ↦
      let same : i ≡ j = (==_iff i j).0 e in
      let w₁ = put_word (entry_at page i) (present_rw (i * 4096)) w in
      fill_table-before remaining (suc i) page w₁ (entry_at page j) (inl (omega (arith, same)))
      ∙ (ap (λ k. w₁ (entry_at page k)) (sym same)
          ∙ (put_word_self (entry_at page i) (present_rw (i * 4096)) w
              ∙ ap (λ k. present_rw (k * 4096)) same))
  | inr e ↦ fill_table-entry remaining (suc i) page _ j (ground (arith, e, lo)) (omega arith)
]
