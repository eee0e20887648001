-- ===== src/Paging/Faults.antt =====
-- map with flags that lack `present`, and map where assertions are not compiled in.
use gloxor.Base.{ℕ, ◌%◌, ◌≡◌, ◌≢◌, refl, ap, sym, ◌∙◌, inl, inr, true, false, some}
use mathlib.Core.Option.{some-injective}
use gloxor.Paging.{
  Tables, Way, PageLevel, Step, entry, present, entry_vaddr, mask_entry, get_physical, set_entry,
  descend, go_down, map_page, translate, translate_single_entry, vmem_mask, PagePrivileges,
  PageCaching, caching_value, vspace_map,
}
use gloxor.Paging.Entries.{present-vmem_mask}
use gloxor.Paging.Walks.{go_down-Taken, set_entry_self, set_entry-others}
use gloxor.Paging.Steps.{IsApart, single-absent, keep}

module _ (off : ℕ) where
  -- map with flags that lack `present`, where the entry of the top table is not present: the four entries
  -- lie apart, and translate answers 0 as before.
  pub map_page-absent :
      (context from to mask : ℕ) (s : Tables) (w : Way)
      → go_down off true context from mask s ≡ some w
      → IsApart w
      → present (s.memory (entry PageLevel.lvl4 context from)) ≡ false
      → present mask ≡ false
      → (s' : Tables) × (map_page off true context from to mask s ≡ some s')
        × (translate context from s'.memory ≡ 0)
  unfolding map_page translate
  map_page-absent context from to mask s w h apart empty p =
      let tk = go_down-Taken off context from mask s w h in
      let new = mask_entry (get_physical to) mask in
      let m = (set_entry w.entry1 new w.tables).memory in
      let k = keep off context from mask s w tk new apart in
      let a4 = entry PageLevel.lvl4 context from in
      let none_there : present (tk.upper.memory a4) ≡ false = elim tk.first.flag [
        | inl (yes_there, e) ↦ absurd (cc (sym yes_there ∙ empty))
        | inr e ↦ e ∙ p
      ] in
      let e4 : translate_single_entry (m a4) ≡ Step.found 0 =
        single-absent (m a4) (ap present k.at4 ∙ none_there) in
      (set_entry w.entry1 new w.tables, (rw (h, map_page) refl), (rw (e4, translate) refl))

  -- VSpace::map with a caching whose number is even (write-back or none), where the entry of the top
  -- table is not present and the four entries lie apart: nothing is mapped, translate answers 0.
  pub vspace_map-absent :
      (context from to : ℕ) (pv : PagePrivileges) (cm : PageCaching) (s : Tables) (w : Way)
      → go_down off true context from (vmem_mask pv cm) s ≡ some w
      → IsApart w
      → present (s.memory (entry PageLevel.lvl4 context from)) ≡ false
      → caching_value cm % 2 ≡ 0
      → (s' : Tables) × (vspace_map off true context from to pv cm s ≡ some s')
        × (translate context from s'.memory ≡ 0)
  unfolding vspace_map
  vspace_map-absent context from to pv cm s w h apart empty even =
      map_page-absent context from to (vmem_mask pv cm) s w h apart empty
        (present-vmem_mask pv cm even)

  -- map where assertions are not compiled in, where the entry of the top table is not present and is not
  -- the one that is written through the tables of absent entries: the entry at the end of the way holds
  -- the target with the flags, no other entry changes, and translate answers 0 afterwards.
  pub map_page-unchecked :
      (context from to mask : ℕ) (s : Tables) (w : Way)
      → go_down off false context from mask s ≡ some w
      → present (s.memory w.entry4) ≡ false
      → w.entry4 ≢ w.entry1
      → (s' : Tables) × (map_page off false context from to mask s ≡ some s')
        × (s'.memory w.entry1 ≡ mask_entry (get_physical to) mask)
        × ((a : ℕ) → a ≢ w.entry1 → s'.memory a ≡ s.memory a)
        × (translate context from s'.memory ≡ 0)
  unfolding map_page go_down descend translate set_entry
  map_page-unchecked context from to mask s w h empty ne =
      let new = mask_entry (get_physical to) mask in
      let a4 = entry PageLevel.lvl4 context from in
      let t3 = entry_vaddr (s.memory a4) in
      let t2 = entry_vaddr (s.memory (entry PageLevel.lvl3 t3 from)) in
      let t1 = entry_vaddr (s.memory (entry PageLevel.lvl2 t2 from)) in
      let way : Way = record {
        entry4 = a4;
        entry3 = entry PageLevel.lvl3 t3 from;
        entry2 = entry PageLevel.lvl2 t2 from;
        entry1 = entry PageLevel.lvl1 t1 from;
        tables = s;
      } in
      let same : way ≡ w = some-injective way w h in
      let m = (set_entry w.entry1 new w.tables).memory in
      let at : a4 ≡ w.entry4 = ap (λ (v : Way). v.entry4) same in
      let left : m a4 ≡ s.memory w.entry4 =
        ap m at
        ∙ set_entry-others w.entry1 w.entry4 new w.tables ne
        ∙ ap (λ (v : Way). v.tables.memory w.entry4) (sym same) in
      let e4 : translate_single_entry (m a4) ≡ Step.found 0 =
        single-absent (m a4) (ap present left ∙ empty) in
      (
        set_entry w.entry1 new w.tables,
        ap (λ (v : Way). some (set_entry v.entry1 new v.tables)) same,
        set_entry_self w.entry1 new w.tables,
        λ a other.
            set_entry-others w.entry1 a new w.tables other
            ∙ ap (λ (v : Way). v.tables.memory a) (sym same),
        (rw (e4, translate) refl),
      )
