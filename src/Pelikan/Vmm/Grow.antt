-- ===== src/Pelikan/Vmm/Grow.antt =====
-- A new page table, in `vmm_map_page` of pelikanOS/src/vmm.c.
use systems_programming_proj.Prelude.{
  ℕ, ◌+◌, ◌-◌, ◌*◌, ◌/◌, ◌%◌, ◌<◌, ◌≤◌, ◌^◌, true, false, not, none, List, ◌≡◌, refl, sym, ap, ◌∙◌,
  ◌≢◌, ◌⊎◌, inl, inr, ltb, ◌==◌, ==_iff, Bool-cases, arith,
}
use systems_programming_proj.Pelikan.Pmm.{is_used}
use systems_programming_proj.Pelikan.Pmm.Fresh.{Fresh}
use systems_programming_proj.Pelikan.Vmm.{
  Words, put_word, clear_page, Paging, is_present, page_of, present_rw, dir_index, table_index,
  entry_at, dir_entry, translate,
}
use systems_programming_proj.Pelikan.Vmm.Tables.{
  put_word_self, put_word_other, clear_page_inside, clear_page_outside, slot, IsPaging,
  entries_apart, page_of-aligned,
}
use systems_programming_proj.Pelikan.Vmm.Entry.{via, translate-via, via-same, via-absent}

-- A page in a used frame is not the free one.
pub used_page_differs :
    (m : List ℕ) (f page : ℕ)
    → page % 4096 ≡ 0
    → is_used (page / 4096) m ≡ true
    → is_used f m ≡ false
    → page ≢ f * 4096
used_page_differs m f page aligned used free e =
    let same : page / 4096 ≡ f = omega (arith, e) in
    let clash : true ≡ false = sym used ∙ (ap (λ i. is_used i m) same ∙ free) in
    ground (arith, clash)

pub clear_other_page :
    (page other i : ℕ) (w : Words)
    → page % 4096 ≡ 0
    → other % 4096 ≡ 0
    → i < 1024
    → other ≢ page
    → clear_page page w (entry_at other i) ≡ w (entry_at other i)
clear_other_page page other i w hp ho lt ne =
    clear_page_outside page (entry_at other i) w (elim (Bool-cases (ltb other page)) [
      | inl e ↦ let less : other < page = ground (arith, e) in inl (omega (arith, less, hp, ho))
      | inr e ↦ let more : page ≤ other = ground (arith, e) in inr (omega (arith, more, hp, ho, ne))
    ])

module _ (st : Paging) (h : IsPaging st) (v addr : ℕ) (m' : List ℕ) (hv : v < 2 ^ 32)
    (fr : Fresh st.frames addr m')
    (absent : is_present (dir_entry st.page_directory v st.words) ≡ false) where
  abbrev page : ℕ
  page = fr.f * 4096

  abbrev d : ℕ
  d = dir_index v

  abbrev at : ℕ
  at = entry_at st.page_directory d

  abbrev w₁ : Words
  w₁ = clear_page page st.words

  abbrev w₂ : Words
  w₂ = put_word at (present_rw page) w₁

  abbrev st' : Paging
  st' = record st { words = w₂; frames = m' }

  d_low : d < 1024
  d_low = omega arith

  page-aligned : page % 4096 ≡ 0
  page-aligned = omega arith

  directory_differs : st.page_directory ≢ page
  directory_differs =
      used_page_differs st.frames fr.f st.page_directory h.aligned h.directory_used fr.free

  table_differs : (i : ℕ) → i < 1024 → is_present (slot st i) ≡ true → page_of (slot st i) ≢ page
  table_differs i lt p =
      used_page_differs st.frames fr.f (page_of (slot st i)) (page_of-aligned (slot st i))
        (h.tables_used i lt p) fr.free

  pub grown_slot : slot st' d ≡ present_rw page
  grown_slot = put_word_self at (present_rw page) w₁

  grown_slot-page : page_of (slot st' d) ≡ page
  grown_slot-page = ap page_of grown_slot ∙ omega arith

  pub grown_slot_present : is_present (slot st' d) ≡ true
  grown_slot_present =
      let odd : (page - page % 4 + 3) % 2 ≡ 1 = omega arith in
      ap is_present grown_slot ∙ ap (λ i. not (i == 0)) odd

  other_slot : (i : ℕ) → i < 1024 → d ≢ i → slot st' i ≡ slot st i
  other_slot i lt ne =
      put_word_other at (entry_at st.page_directory i) (present_rw page) w₁
        (λ e. ne (omega (arith, e)))
      ∙ clear_other_page page st.page_directory i st.words page-aligned h.aligned lt
          directory_differs

  was_present :
      (i : ℕ) → i < 1024 → d ≢ i → is_present (slot st' i) ≡ true → is_present (slot st i) ≡ true
  was_present i lt ne p = ap is_present (sym (other_slot i lt ne)) ∙ p

  at_d : (i : ℕ) → (d == i) ≡ true → slot st' i ≡ slot st' d
  at_d i e = ap (slot st') (sym ((==_iff d i).0 e))

  grown_table :
      (i : ℕ)
      → i < 1024
      → is_present (slot st' i) ≡ true
      → ((d == i) ≡ true) × (page_of (slot st' i) ≡ page)
        ⊎ ((d ≢ i)
            × ((is_present (slot st i) ≡ true) × (page_of (slot st' i) ≡ page_of (slot st i))))
  grown_table i lt p = elim (Bool-cases (d == i)) [
    | inl e ↦ inl (e, ap page_of (at_d i e) ∙ grown_slot-page)
    | inr e ↦
        let ne : d ≢ i = ground (arith, e) in
        inr (ne, (was_present i lt ne p, ap page_of (other_slot i lt ne)))
  ]

  pub grown-IsPaging : IsPaging st'
  grown-IsPaging = record {
    aligned = h.aligned;
    directory_used = fr.more _ h.directory_used;
    tables_used = λ i lt p. elim (grown_table i lt p) [
      | inl (_, e) ↦
          let here : page_of (slot st' i) / 4096 ≡ fr.f = omega (arith, e) in
          ap (λ g. is_used g m') here ∙ fr.self
      | inr (_, (q, e)) ↦ ap (λ g. is_used (g / 4096) m') e ∙ fr.more _ (h.tables_used i lt q)
    ];
    no_directory = λ i lt p f. elim (grown_table i lt p) [
      | inl (_, e) ↦ directory_differs (sym f ∙ e)
      | inr (_, (q, e)) ↦ h.no_directory i lt q (sym e ∙ f)
    ];
    tables_apart = λ i j li lj ne p q f. elim (grown_table i li p) [
      | inl (a, e) ↦ (elim (grown_table j lj q) [
        | inl (b, _) ↦ ne (sym ((==_iff d i).0 a) ∙ (==_iff d j).0 b)
        | inr (_, (y, g)) ↦ table_differs j lj y (sym g ∙ (sym f ∙ e))
      ])
      | inr (_, (x, e)) ↦ (elim (grown_table j lj q) [
        | inl (_, g) ↦ table_differs i li x (sym e ∙ (f ∙ g))
        | inr (_, (y, g)) ↦ h.tables_apart i j li lj ne x y (sym e ∙ (f ∙ g))
      ])
    ];
    bitmap = fr.bitmap;
    first = fr.more 0 h.first;
  }

  -- The new table is empty, so that no page is translated differently.
  pub grown-translate :
      (u : ℕ)
      → u < 2 ^ 32
      → translate u st.page_directory w₂ ≡ translate u st.page_directory st.words
  grown-translate u hu = elim (Bool-cases (d == dir_index u)) [
    | inl e ↦
        let same : d ≡ dir_index u = (==_iff _ _).0 e in
        let t = page_of (dir_entry st.page_directory u w₂) in
        let t_page : t ≡ page = ap (λ i. page_of (slot st' i)) (sym same) ∙ grown_slot-page in
        let entry : w₂ (entry_at t (table_index u)) ≡ 0 =
          ap (λ i. w₂ (entry_at i (table_index u))) t_page
          ∙ (put_word_other at (entry_at page (table_index u)) (present_rw page) w₁ (
                entries_apart st.page_directory page d (table_index u) h.aligned page-aligned d_low
                  (omega arith) directory_differs)
              ∙ clear_page_inside page (entry_at page (table_index u)) st.words (omega arith)
                  (omega arith)) in
        let d' = dir_entry st.page_directory u w₂ in
        let present : is_present d' ≡ true =
          ap (λ i. is_present (slot st' i)) (sym same) ∙ grown_slot_present in
        let nothing : via d' 0 u ≡ none = rw present refl in
        let absent' : is_present (dir_entry st.page_directory u st.words) ≡ false =
          ap (λ i. is_present (slot st i)) (sym same) ∙ absent in
        translate-via u st.page_directory w₂
        ∙ (ap (λ i. via d' i u) entry
            ∙ (nothing
                ∙ (sym (via-absent (dir_entry st.page_directory u st.words) _ u absent')
                    ∙ sym (translate-via u st.page_directory st.words))))
    | inr e ↦
        let ne : d ≢ dir_index u = ground (arith, e) in
        let low : dir_index u < 1024 = omega arith in
        let same : dir_entry st.page_directory u w₂ ≡ dir_entry st.page_directory u st.words =
          other_slot (dir_index u) low ne in
        let t = page_of (dir_entry st.page_directory u st.words) in
        translate-via u st.page_directory w₂
        ∙ (ap (λ i. via i (w₂ (entry_at (page_of i) (table_index u))) u) same
            ∙ (via-same (dir_entry st.page_directory u st.words) _ _ u (λ p.
                  put_word_other at (entry_at t (table_index u)) (present_rw page) w₁ (
                    entries_apart st.page_directory t d (table_index u) h.aligned
                      (page_of-aligned _) d_low (omega arith)
                      (λ g. h.no_directory (dir_index u) low p (sym g)))
                  ∙ clear_other_page page t (table_index u) st.words page-aligned
                      (page_of-aligned _) (omega arith) (table_differs (dir_index u) low p))
                ∙ sym (translate-via u st.page_directory st.words)))
  ]
