-- ===== src/Pelikan/Vmm/Tables.antt =====
-- The invariant of the page tables of pelikanOS/src/vmm.c.
use systems_programming_proj.Prelude.{
  ℕ, ◌+◌, ◌/◌, ◌%◌, ◌<◌, ◌≤◌, true, false, ◌≡◌, refl, ◌≢◌, ◌⊎◌, inl, inr, ltb, leb, ◌==◌, ==_iff,
  ◌&&◌, arith,
}
use systems_programming_proj.Pelikan.Pmm.{is_used}
use systems_programming_proj.Pelikan.Pmm.Bits.{IsBitmap}
use systems_programming_proj.Pelikan.Vmm.{
  Words, put_word, clear_page, Paging, is_present, page_of, entry_at,
}

pub put_word_self : (a x : ℕ) (w : Words) → put_word a x w a ≡ x
unfolding put_word
put_word_self a x w = rw ((==_iff a a).1 refl) refl

pub put_word_other : (a q x : ℕ) (w : Words) → a ≢ q → put_word a x w q ≡ w q
unfolding put_word
put_word_other a q x w ne = let e : (a == q) ≡ false = ground (arith, ne) in rw e refl

pub clear_page_inside :
    (page q : ℕ) (w : Words) → page ≤ q → q < page + 4096 → clear_page page w q ≡ 0
unfolding clear_page
clear_page_inside page q w lo hi =
    let e : (leb page q && ltb q (page + 4096)) ≡ true = ground arith in rw e refl

pub clear_page_outside :
    (page q : ℕ) (w : Words) → (q < page) ⊎ (page + 4096 ≤ q) → clear_page page w q ≡ w q
unfolding clear_page
clear_page_outside page q w out =
    let e : (leb page q && ltb q (page + 4096)) ≡ false = elim out [
      | inl a ↦ ground (arith, a)
      | inr b ↦ ground (arith, b)
    ] in
    rw e refl

-- An entry of the directory.
abbrev pub slot : Paging → ℕ → ℕ
slot st i = st.words (entry_at st.page_directory i)

-- The directory and the tables of its present entries are pages in used frames, and no two of them
-- are one page.
pub record IsPaging (st : Paging) : Type 0 where
  pub aligned : st.page_directory % 4096 ≡ 0
  pub directory_used : is_used (st.page_directory / 4096) st.frames ≡ true
  pub tables_used :
      (i : ℕ)
      → i < 1024
      → is_present (slot st i) ≡ true
      → is_used (page_of (slot st i) / 4096) st.frames ≡ true
  pub no_directory :
      (i : ℕ) → i < 1024 → is_present (slot st i) ≡ true → page_of (slot st i) ≢ st.page_directory
  pub tables_apart :
      (i j : ℕ)
      → i < 1024
      → j < 1024
      → i ≢ j
      → is_present (slot st i) ≡ true
      → is_present (slot st j) ≡ true
      → page_of (slot st i) ≢ page_of (slot st j)
  pub bitmap : IsBitmap st.frames
  pub first : is_used 0 st.frames ≡ true

-- Entries of different pages stand at different addresses.
pub entries_apart :
    (p q i j : ℕ)
    → p % 4096 ≡ 0
    → q % 4096 ≡ 0
    → i < 1024
    → j < 1024
    → p ≢ q
    → entry_at p i ≢ entry_at q j
entries_apart p q i j hp hq hi hj ne e = ne (omega (arith, hp, hq, e))

pub page_of-aligned : (e : ℕ) → page_of e % 4096 ≡ 0
page_of-aligned e = omega arith
