-- ===== src/Pelikan/Vmm/Map.antt =====
-- `vmm_map_page` and `vmm_unmap_page` of pelikanOS/src/vmm.c against the processor's translation.
use mathlib.Core.Path.{subst}
use systems_programming_proj.Prelude.{
  ℕ, ◌+◌, ◌-◌, ◌*◌, ◌/◌, ◌%◌, ◌<◌, ◌^◌, true, false, Option, none, some, List, ◌≡◌, refl, sym, ap,
  ◌∙◌, ◌≢◌, inl, inr, Bool-cases, if◌then◌else◌, arith,
}
use systems_programming_proj.Pelikan.Pmm.{no_frame, pmm_alloc_frame}
use systems_programming_proj.Pelikan.Pmm.Fresh.{Fresh, pmm_alloc_frame-Fresh}
use systems_programming_proj.Pelikan.Vmm.{
  Paging, is_present, page_of, present_rw, dir_entry, new_table, ensure_table, set_entry,
  vmm_map_page, vmm_unmap_page, translate,
}
use systems_programming_proj.Pelikan.Vmm.Tables.{IsPaging}
use systems_programming_proj.Pelikan.Vmm.Entry.{
  set_entry-IsPaging, set_entry-translate, set_entry-translate_other,
}
use systems_programming_proj.Pelikan.Vmm.Grow.{grown_slot_present, grown-IsPaging, grown-translate}

abbrev translated : ℕ → Paging → Option ℕ
translated u st = translate u st.page_directory st.words

-- The table for an address is there, and no translation has changed.
record Ensured (v : ℕ) (st st' : Paging) : Type 0 where
  paging : IsPaging st'
  directory : st'.page_directory ≡ st.page_directory
  present : is_present (dir_entry st'.page_directory v st'.words) ≡ true
  same : (u : ℕ) → u < 2 ^ 32 → translated u st' ≡ translated u st

ensure_present :
    (v : ℕ) (st : Paging)
    → is_present (dir_entry st.page_directory v st.words) ≡ true
    → ensure_table v st ≡ st
unfolding ensure_table
ensure_present v st p = rw p refl

ensure_absent :
    (v : ℕ) (st : Paging)
    → is_present (dir_entry st.page_directory v st.words) ≡ false
    → ensure_table v st ≡ new_table v st (pmm_alloc_frame st.frames)
unfolding ensure_table
ensure_absent v st p = rw p refl

new_table-Ensured :
    (v : ℕ) (st : Paging) (addr : ℕ) (m' : List ℕ)
    → v < 2 ^ 32
    → IsPaging st
    → Fresh st.frames addr m'
    → is_present (dir_entry st.page_directory v st.words) ≡ false
    → Ensured v st (new_table v st (addr, m'))
unfolding new_table
new_table-Ensured v st addr m' hv h fr absent =
    let at_frame : Ensured v st (new_table v st (fr.f * 4096, m')) = record {
      paging = grown-IsPaging st h v addr m' hv fr absent;
      directory = refl;
      present = grown_slot_present st h v addr m' hv fr absent;
      same = grown-translate st h v addr m' hv fr absent;
    } in
    subst (λ i. Ensured v st (new_table v st (i, m'))) (sym fr.at) at_frame

ensure_table-Ensured :
    (v : ℕ) (st : Paging)
    → v < 2 ^ 32
    → IsPaging st
    → (pmm_alloc_frame st.frames).0 ≢ no_frame
    → Ensured v st (ensure_table v st)
ensure_table-Ensured v st hv h ne =
    elim (Bool-cases (is_present (dir_entry st.page_directory v st.words))) [
      | inl p ↦
          let at_st : Ensured v st st = record {
            paging = h;
            directory = refl;
            present = p;
            same = λ u hu. refl;
          } in
          subst (Ensured v st) (sym (ensure_present v st p)) at_st
      | inr p ↦
          subst (Ensured v st) (sym (ensure_absent v st p)) (
            new_table-Ensured v st _ _ hv h (pmm_alloc_frame-Fresh st.frames h.bitmap h.first ne) p)
    ]

-- The page of `v` is translated as given, every other page as before, and the tables are well formed.
pub record Remapped (v : ℕ) (target : Option ℕ) (st st' : Paging) : Type 0 where
  pub here : translate v st'.page_directory st'.words ≡ target
  pub others :
      (u : ℕ)
      → u < 2 ^ 32
      → u / 4096 ≢ v / 4096
      → translate u st'.page_directory st'.words ≡ translate u st.page_directory st.words
  pub paging : IsPaging st'
  pub directory : st'.page_directory ≡ st.page_directory

set_entry-directory :
    (v e : ℕ) (st : Paging) → (set_entry v e st).page_directory ≡ st.page_directory
unfolding set_entry
set_entry-directory v e st = refl

set_entry-Remapped :
    (v e : ℕ) (st : Paging)
    → v < 2 ^ 32
    → IsPaging st
    → is_present (dir_entry st.page_directory v st.words) ≡ true
    → Remapped v (if is_present e then some (page_of e + v % 4096) else none) st (set_entry v e st)
unfolding set_entry-directory set_entry
set_entry-Remapped v e st hv h p = record {
  here = set_entry-translate st h v e hv p;
  others = set_entry-translate_other st h v e hv p;
  paging = set_entry-IsPaging st h v e hv p;
  directory = refl;
}

mapped_entry :
    (phys v : ℕ)
    → phys % 4096 ≡ 0
    → (if is_present (present_rw phys) then some (page_of (present_rw phys) + v % 4096) else none)
      ≡ some (phys + v % 4096)
mapped_entry phys v aligned =
    let odd : (phys - phys % 4 + 3) % 2 ≡ 1 = omega (arith, aligned) in
    let page : page_of (present_rw phys) ≡ phys = omega (arith, aligned) in rw (odd, page) refl

-- `vmm_map_page` of an address of 32 bits to a page-aligned physical address, on well-formed tables
-- and while a frame is free: afterwards the processor translates the address, with its offset in the
-- page, to the physical page, translates every address of another page as before, whether or not a
-- new table was needed, and the tables are well formed.
pub vmm_map_page-Remapped :
    (v phys : ℕ) (st : Paging)
    → v < 2 ^ 32
    → phys % 4096 ≡ 0
    → IsPaging st
    → (pmm_alloc_frame st.frames).0 ≢ no_frame
    → Remapped v (some (phys + v % 4096)) st (vmm_map_page v phys st)
unfolding vmm_map_page
vmm_map_page-Remapped v phys st hv aligned h ne =
    let ensured = ensure_table-Ensured v st hv h ne in
    let st₁ = ensure_table v st in
    let set = set_entry-Remapped v (present_rw phys) st₁ hv ensured.paging ensured.present in
    record {
      here = set.here ∙ mapped_entry phys v aligned;
      others = λ u hu differs. set.others u hu differs ∙ ensured.same u hu;
      paging = set.paging;
      directory = set.directory ∙ ensured.directory;
    }

-- `vmm_unmap_page` of an address of 32 bits whose table is there, on well-formed tables: the processor
-- no longer translates the address, translates every address of another page as before, and the
-- tables are well formed.
pub vmm_unmap_page-Remapped :
    (v : ℕ) (st : Paging)
    → v < 2 ^ 32
    → IsPaging st
    → is_present (dir_entry st.page_directory v st.words) ≡ true
    → Remapped v none st (vmm_unmap_page v st)
unfolding vmm_unmap_page
vmm_unmap_page-Remapped v st hv h p = set_entry-Remapped v 0 st hv h p

-- `vmm_map_page` where the table is there only writes the entry.
pub vmm_map_page_present :
    (v phys : ℕ) (st : Paging)
    → is_present (dir_entry st.page_directory v st.words) ≡ true
    → vmm_map_page v phys st ≡ set_entry v (present_rw phys) st
unfolding vmm_map_page
vmm_map_page_present v phys st p = ap (set_entry v (present_rw phys)) (ensure_present v st p)

pub set_page-Remapped :
    (v phys : ℕ) (st : Paging)
    → v < 2 ^ 32
    → phys % 4096 ≡ 0
    → IsPaging st
    → is_present (dir_entry st.page_directory v st.words) ≡ true
    → Remapped v (some (phys + v % 4096)) st (set_entry v (present_rw phys) st)
set_page-Remapped v phys st hv aligned h p =
    let set = set_entry-Remapped v (present_rw phys) st hv h p in
    record {
      here = set.here ∙ mapped_entry phys v aligned;
      others = set.others;
      paging = set.paging;
      directory = set.directory;
    }
