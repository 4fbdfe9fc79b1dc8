-- ===== src/Pelikan/Vmm/Init.antt =====
-- `vmm_init` of pelikanOS/src/vmm.c: the first 4 MB are mapped to themselves.
use mathlib.Core.Path.{subst}
use systems_programming_proj.Prelude.{
  ℕ, ◌+◌, ◌-◌, ◌*◌, ◌/◌, ◌%◌, ◌<◌, ◌≤◌, ◌^◌, true, false, not, none, some, List, ◌≡◌, refl, sym, ap,
  ◌∙◌, ◌≢◌, ◌⊎◌, inl, inr, ltb, ◌==◌, ==_iff, Bool-cases, arith,
}
use systems_programming_proj.Pelikan.Pmm.{is_used, no_frame, pmm_alloc_frame}
use systems_programming_proj.Pelikan.Pmm.Bits.{IsBitmap}
use systems_programming_proj.Pelikan.Pmm.Fresh.{Fresh, pmm_alloc_frame-Fresh}
use systems_programming_proj.Pelikan.Vmm.{
  Words, put_word, clear_page, Paging, is_present, page_of, present_rw, dir_index, table_index,
  entry_at, dir_entry, fill_table, max_entries, init_table, init_directory, vmm_init, translate,
}
use systems_programming_proj.Pelikan.Vmm.Tables.{
  put_word_self, put_word_other, clear_page_inside, slot, IsPaging, entries_apart,
}
use systems_programming_proj.Pelikan.Vmm.Entry.{via, translate-via, via-absent, via-present}
use systems_programming_proj.Pelikan.Vmm.Fill.{fill_table-before, fill_table-entry}
use systems_programming_proj.Pelikan.Vmm.Grow.{used_page_differs}

-- The tables and the translation after `vmm_init`.
pub record Identity (st : Paging) : Type 0 where
  pub paging : IsPaging st
  pub low : (v : ℕ) → v < 2 ^ 22 → translate v st.page_directory st.words ≡ some v
  pub high : (v : ℕ) → 2 ^ 22 ≤ v → v < 2 ^ 32 → translate v st.page_directory st.words ≡ none

module _ (w : Words) (m m₁ m₂ : List ℕ) (a b : ℕ) (fr₁ : Fresh m a m₁) (fr₂ : Fresh m₁ b m₂)
    (zeroth : is_used 0 m ≡ true) where
  abbrev directory : ℕ
  directory = fr₁.f * 4096

  abbrev table : ℕ
  table = fr₂.f * 4096

  abbrev cleared : Words
  cleared = clear_page directory w

  abbrev filled : Words
  filled = fill_table max_entries 0 table cleared

  abbrev words : Words
  words = put_word (entry_at directory 0) (present_rw table) filled

  abbrev st : Paging
  st = record { page_directory = directory; words = words; frames = m₂ }

  directory-used : is_used (directory / 4096) m₁ ≡ true
  directory-used =
      let e : directory / 4096 ≡ fr₁.f = omega arith in ap (λ g. is_used g m₁) e ∙ fr₁.self

  differ : directory ≢ table
  differ = used_page_differs m₁ fr₂.f directory (omega arith) directory-used fr₂.free

  slot_zero : slot st 0 ≡ present_rw table
  slot_zero = put_word_self (entry_at directory 0) (present_rw table) filled

  slot_zero_page : page_of (slot st 0) ≡ table
  slot_zero_page = ap page_of slot_zero ∙ omega arith

  slot_zero_present : is_present (slot st 0) ≡ true
  slot_zero_present =
      let odd : (table - table % 4 + 3) % 2 ≡ 1 = omega arith in
      ap is_present slot_zero ∙ ap (λ i. not (i == 0)) odd

  directory_outside :
      (i : ℕ)
      → i < 1024
      → (entry_at directory i < entry_at table 0)
        ⊎ (entry_at table (0 + max_entries) ≤ entry_at directory i)
  directory_outside i lt = elim (Bool-cases (ltb directory table)) [
    | inl e ↦ let less : directory < table = ground (arith, e) in inl (omega (arith, less))
    | inr e ↦ let more : table ≤ directory = ground (arith, e) in inr (omega (arith, more, differ))
  ]

  slot_other : (i : ℕ) → 0 < i → i < 1024 → is_present (slot st i) ≡ false
  slot_other i pos lt = ap is_present (
      put_word_other (entry_at directory 0) (entry_at directory i) (present_rw table) filled
        (λ e. omega (arith, e))
      ∙ (fill_table-before max_entries 0 table cleared (entry_at directory i)
            (directory_outside i lt)
          ∙ clear_page_inside directory (entry_at directory i) w (omega arith) (omega arith)))

  only_zero : (i : ℕ) → i < 1024 → is_present (slot st i) ≡ true → i ≡ 0
  only_zero i lt p = elim (Bool-cases (i == 0)) [
    | inl e ↦ (==_iff i 0).0 e
    | inr e ↦
        let clash : true ≡ false = sym p ∙ slot_other i (ground (arith, e)) lt in
        ground (arith, clash)
  ]

  zero_page : (i : ℕ) → i < 1024 → is_present (slot st i) ≡ true → page_of (slot st i) ≡ table
  zero_page i lt p = ap (λ k. page_of (slot st k)) (only_zero i lt p) ∙ slot_zero_page

  st-IsPaging : IsPaging st
  st-IsPaging = record {
    aligned = omega arith;
    directory_used = fr₂.more _ directory-used;
    tables_used = λ i lt p.
        let here : page_of (slot st i) / 4096 ≡ fr₂.f = omega (arith, zero_page i lt p) in
        ap (λ g. is_used g m₂) here ∙ fr₂.self;
    no_directory = λ i lt p e. differ (sym e ∙ zero_page i lt p);
    tables_apart = λ i j li lj ne p q e. ne (only_zero i li p ∙ sym (only_zero j lj q));
    bitmap = fr₂.bitmap;
    first = fr₂.more 0 (fr₁.more 0 zeroth);
  }

  low_translate : (v : ℕ) → v < 2 ^ 22 → translate v directory words ≡ some v
  low_translate v lt =
      let dir : dir_index v ≡ 0 = omega arith in
      let idx = table_index v in
      let d : dir_entry directory v words ≡ slot st 0 = ap (slot st) dir in
      let page : page_of (dir_entry directory v words) ≡ table = ap page_of d ∙ slot_zero_page in
      let entry : words (entry_at (page_of (dir_entry directory v words)) idx)
          ≡ present_rw (idx * 4096) =
        ap (λ i. words (entry_at i idx)) page
        ∙ (put_word_other (entry_at directory 0) (entry_at table idx) (present_rw table) filled (
              entries_apart directory table 0 idx (omega arith) (omega arith) (omega arith)
                (omega arith) differ)
            ∙ fill_table-entry max_entries 0 table cleared idx (omega arith) (omega arith)) in
      let here : is_present (dir_entry directory v words) ≡ true =
        ap is_present d ∙ slot_zero_present in
      let e = present_rw (idx * 4096) in
      let odd : e % 2 ≡ 1 = omega arith in
      let sum : page_of e + v % 4096 ≡ v = omega arith in
      translate-via v directory words
      ∙ (ap (λ i. via (dir_entry directory v words) i v) entry
          ∙ (via-present (dir_entry directory v words) e v here ∙ rw (odd, sum) refl))

  high_translate : (v : ℕ) → 2 ^ 22 ≤ v → v < 2 ^ 32 → translate v directory words ≡ none
  high_translate v lo hi =
      translate-via v directory words
      ∙ via-absent (dir_entry directory v words) _ v
          (slot_other (dir_index v) (omega arith) (omega arith))

  st-Identity : Identity st
  st-Identity = record { paging = st-IsPaging; low = low_translate; high = high_translate }

-- `vmm_init` with two frames free and frame 0 in use, whatever the memory held: the directory and the
-- first table are well formed, the processor translates each address below 4 MB to itself, and
-- faults on each address from there on.
pub vmm_init-Identity :
    (w : Words) (m : List ℕ)
    → IsBitmap m
    → is_used 0 m ≡ true
    → (pmm_alloc_frame m).0 ≢ no_frame
    → (pmm_alloc_frame (pmm_alloc_frame m).1).0 ≢ no_frame
    → Identity (vmm_init w m)
unfolding vmm_init init_table init_directory
vmm_init-Identity w m bitmap first ne₁ ne₂ =
    let fr₁ = pmm_alloc_frame-Fresh m bitmap first ne₁ in
    let m₁ = (pmm_alloc_frame m).1 in
    let fr₂ = pmm_alloc_frame-Fresh m₁ fr₁.bitmap (fr₁.more 0 first) ne₂ in
    let m₂ = (pmm_alloc_frame m₁).1 in
    let at : Identity (init_table (init_directory w (fr₁.f * 4096, m₁)) (fr₂.f * 4096, m₂)) =
      st-Identity w m m₁ m₂ _ _ fr₁ fr₂ first in
    subst (λ i. Identity (init_table (init_directory w (i, m₁)) (pmm_alloc_frame m₁))) (sym fr₁.at)
      (subst (λ i. Identity (init_table (init_directory w (fr₁.f * 4096, m₁)) (i, m₂))) (sym fr₂.at)
        at)
