-- ===== src/Pelikan/Vmm/Entry.antt =====
-- One entry of a page table is written, in pelikanOS/src/vmm.c.
use systems_programming_proj.Prelude.{
  ℕ, ◌+◌, ◌/◌, ◌%◌, ◌<◌, ◌^◌, true, false, Option, none, some, ◌≡◌, refl, sym, ap, ◌∙◌, ◌≢◌, inl,
  inr, ◌==◌, ==_iff, ◌&&◌, if◌then◌else◌, Bool-cases, arith,
}
use systems_programming_proj.Pelikan.Pmm.{is_used}
use systems_programming_proj.Pelikan.Vmm.{
  Words, put_word, Paging, is_present, page_of, dir_index, table_index, entry_at, dir_entry,
  set_entry, translate,
}
use systems_programming_proj.Pelikan.Vmm.Tables.{
  put_word_self, put_word_other, slot, IsPaging, entries_apart, page_of-aligned,
}

-- What the processor makes of the two entries.
abbrev pub via : (directory entry virt_addr : ℕ) → Option ℕ
via directory entry virt_addr =
    if is_present directory && is_present entry
    then some (page_of entry + virt_addr % 4096)
    else none

pub translate-via :
    (u pd : ℕ) (w : Words)
    → translate u pd w
      ≡ via (dir_entry pd u w) (w (entry_at (page_of (dir_entry pd u w)) (table_index u))) u
unfolding translate
translate-via u pd w = refl

-- The entry of a table counts only when its table is there.
pub via-same : (d e e' u : ℕ) → (is_present d ≡ true → e' ≡ e) → via d e' u ≡ via d e u
via-same d e e' u same = elim (Bool-cases (is_present d)) [
  | inl p ↦ ap (λ i. via d i u) (same p)
  | inr p ↦ rw p refl
]

pub via-present :
    (d e u : ℕ)
    → is_present d ≡ true
    → via d e u ≡ (if is_present e then some (page_of e + u % 4096) else none)
via-present d e u p = rw p refl

pub via-absent : (d e u : ℕ) → is_present d ≡ false → via d e u ≡ none
via-absent d e u p = rw p refl

-- The invariant reads the entries of the directory and the frames only.
pub IsPaging-same :
    (st : Paging) (w : Words)
    → ((i : ℕ) → i < 1024 → slot (record st { words = w }) i ≡ slot st i)
    → IsPaging st
    → IsPaging (record st { words = w })
IsPaging-same st w same h =
    let there : (i : ℕ)
        → i < 1024
        → is_present (slot (record st { words = w }) i) ≡ true
        → is_present (slot st i) ≡ true =
      λ i lt p. ap is_present (sym (same i lt)) ∙ p in
    record {
      aligned = h.aligned;
      directory_used = h.directory_used;
      tables_used = λ i lt p.
          ap (λ e. is_used (page_of e / 4096) st.frames) (same i lt)
          ∙ h.tables_used i lt (there i lt p);
      no_directory =
          λ i lt p e. h.no_directory i lt (there i lt p) (ap page_of (sym (same i lt)) ∙ e);
      tables_apart = λ i j li lj ne p q e.
          h.tables_apart i j li lj ne (there i li p) (there j lj q)
            (ap page_of (sym (same i li)) ∙ (e ∙ ap page_of (same j lj)));
      bitmap = h.bitmap;
      first = h.first;
    }

module _ (st : Paging) (h : IsPaging st) (v e : ℕ) (hv : v < 2 ^ 32)
    (there : is_present (dir_entry st.page_directory v st.words) ≡ true) where
  abbrev table : ℕ
  table = page_of (dir_entry st.page_directory v st.words)

  abbrev at : ℕ
  at = entry_at table (table_index v)

  dir_low : dir_index v < 1024
  dir_low = omega arith

  slots_same :
      (i : ℕ) → i < 1024 → slot (record st { words = put_word at e st.words }) i ≡ slot st i
  slots_same i lt = put_word_other at (entry_at st.page_directory i) e st.words (
      entries_apart table st.page_directory (table_index v) i (page_of-aligned _) h.aligned
        (omega arith) lt (h.no_directory (dir_index v) dir_low there))

  pub set_entry-IsPaging : IsPaging (set_entry v e st)
  unfolding set_entry
  set_entry-IsPaging = IsPaging-same st (put_word at e st.words) slots_same h

  -- The page itself.
  pub set_entry-translate :
      translate v st.page_directory (set_entry v e st).words
      ≡ (if is_present e then some (page_of e + v % 4096) else none)
  unfolding set_entry
  set_entry-translate =
      let w = put_word at e st.words in
      let d : dir_entry st.page_directory v w ≡ dir_entry st.page_directory v st.words =
        slots_same (dir_index v) dir_low in
      translate-via v st.page_directory w
      ∙ (ap (λ i. via i (w (entry_at (page_of i) (table_index v))) v) d
          ∙ (ap (λ i. via (dir_entry st.page_directory v st.words) i v)
                (put_word_self at e st.words)
              ∙ via-present _ e v there))

  at_other :
      (u : ℕ)
      → u < 2 ^ 32
      → u / 4096 ≢ v / 4096
      → is_present (dir_entry st.page_directory u st.words) ≡ true
      → at ≢ entry_at (page_of (dir_entry st.page_directory u st.words)) (table_index u)
  at_other u hu ne p f = elim (Bool-cases (dir_index u == dir_index v)) [
    | inl e ↦
        let same : dir_index u ≡ dir_index v = (==_iff _ _).0 e in
        let pages : page_of (dir_entry st.page_directory u st.words) ≡ table =
          ap (λ i. page_of (st.words (entry_at st.page_directory i))) same in
        let indexes : table_index v ≡ table_index u = omega (arith, f, pages) in
        ne (omega (arith, same, indexes))
    | inr e ↦
        let differ : dir_index v ≢ dir_index u = ground (arith, e) in
        entries_apart table (page_of (dir_entry st.page_directory u st.words)) (table_index v)
          (table_index u) (page_of-aligned _) (page_of-aligned _) (omega arith) (omega arith)
          (h.tables_apart (dir_index v) (dir_index u) dir_low (omega arith) differ there p) f
  ]

  -- Every other page.
  pub set_entry-translate_other :
      (u : ℕ)
      → u < 2 ^ 32
      → u / 4096 ≢ v / 4096
      → translate u st.page_directory (set_entry v e st).words
        ≡ translate u st.page_directory st.words
  unfolding set_entry
  set_entry-translate_other u hu ne =
      let w = put_word at e st.words in
      let d : dir_entry st.page_directory u w ≡ dir_entry st.page_directory u st.words =
        slots_same (dir_index u) (omega arith) in
      translate-via u st.page_directory w
      ∙ (ap (λ i. via i (w (entry_at (page_of i) (table_index u))) u) d
          ∙ (via-same (dir_entry st.page_directory u st.words) _ _ u
                (λ p. put_word_other at _ e st.words (at_other u hu ne p))
              ∙ sym (translate-via u st.page_directory st.words)))
