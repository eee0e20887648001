-- ===== src/Paging/Maps.antt =====
-- translate after map and map_huge_page: the round trip.
use gloxor.Base.{ℕ, ◌≡◌, ◌≢◌, refl, ap, sym, ◌∙◌, true, false, some, bit_or}
use gloxor.Paging.{
  Tables, Way, PageLevel, Step, entry, present, granul, mask_entry, get_physical, set_entry,
  descend, go_down, map_page, map_huge_page, clear_bit20, translate, translate_single_entry,
  translate_last,
}
use gloxor.Paging.Entries.{
  IsFlags, mask_entry-paddr, mask_entry-present, mask_entry-granul, granul_mask,
}
use gloxor.Paging.Walks.{descend-Descended, go_down-Taken, set_entry_self, set_entry-others}
use gloxor.Paging.Steps.{
  IsApart, HasTables, single-found, last-mask_entry, translate_steps, below_kept, keep,
}

module _ (off : ℕ) where
  -- map with flags that leave the address alone and have `present`, along four entries that lie apart and
  -- of which none stands for a huge page: translate then answers the physical page of `to`.
  pub map_page-translate :
      (context from to mask : ℕ) (s : Tables) (w : Way)
      → go_down off true context from mask s ≡ some w
      → IsApart w
      → HasTables w
      → IsFlags mask
      → present mask ≡ true
      → (s' : Tables) × (map_page off true context from to mask s ≡ some s')
        × (translate context from s'.memory ≡ get_physical to)
  unfolding map_page
  map_page-translate context from to mask s w h apart tables flags p =
      let tk = go_down-Taken off context from mask s w h in
      let new = mask_entry (get_physical to) mask in
      let m = (set_entry w.entry1 new w.tables).memory in
      let k = keep off context from mask s w tk new apart in
      let a4 = entry PageLevel.lvl4 context from in
      let a3 = entry PageLevel.lvl3 tk.t3 from in
      let a2 = entry PageLevel.lvl2 tk.t2 from in
      let huge =
        λ (a b : ℕ) (e : b ≡ a) (g : granul (w.tables.memory b) ≡ false) (ne : a ≢ w.entry1).
          ap granul (set_entry-others w.entry1 a new w.tables ne)
          ∙ ap (λ c. granul (w.tables.memory c)) (sym e)
          ∙ g in
      let e4 =
        below_kept mask a4 tk.t3 s tk.upper m tk.first p k.at4
          (huge a4 w.entry4 tk.at4 tables.no_huge4 (λ e. apart.ne41 (tk.at4 ∙ e))) in
      let e3 =
        below_kept mask a3 tk.t2 tk.upper tk.middle m tk.second p k.at3
          (huge a3 w.entry3 tk.at3 tables.no_huge3 (λ e. apart.ne31 (tk.at3 ∙ e))) in
      let e2 =
        below_kept mask a2 tk.t1 tk.middle w.tables m tk.third p k.at2
          (huge a2 w.entry2 tk.at2 tables.no_huge2 (λ e. apart.ne21 (tk.at2 ∙ e))) in
      let leaf : m (entry PageLevel.lvl1 tk.t1 from) ≡ new =
        ap m (sym tk.at1) ∙ set_entry_self w.entry1 new w.tables in
      (
        set_entry w.entry1 new w.tables,
        (rw (h, map_page) refl),
        translate_steps context from tk.t3 tk.t2 tk.t1 m e4 e3 e2
            ∙ ap translate_last leaf
            ∙ last-mask_entry to mask flags p,
      )

  -- map_huge_page down two levels, with flags that leave the address alone and have `present`, where the
  -- three entries lie apart and the upper ones stand for tables: translate then answers the physical page
  -- of `to` with its bit 20 cleared, and the other bits below the 2 MB of the page kept.
  pub map_huge_page-translate :
      (context from to mask t3 t2 : ℕ) (s s₃ s₂ : Tables)
      → let a4 : ℕ = entry PageLevel.lvl4 context from in
        let a3 : ℕ = entry PageLevel.lvl3 t3 from in
        let a2 : ℕ = entry PageLevel.lvl2 t2 from in
        descend off true a4 mask s ≡ some (t3, s₃)
        → descend off true a3 mask s₃ ≡ some (t2, s₂)
        → a4 ≢ a3
        → a4 ≢ a2
        → a3 ≢ a2
        → granul (s₂.memory a4) ≡ false
        → granul (s₂.memory a3) ≡ false
        → IsFlags mask
        → present mask ≡ true
        → (s' : Tables) × (map_huge_page off true context from to mask s ≡ some s')
          × (translate context from s'.memory ≡ get_physical (clear_bit20 off true to))
  unfolding map_huge_page translate
  map_huge_page-translate context from to mask t3 t2 s s₃ s₂ d₃ d₂ ne43 ne42 ne32 g4 g3 flags p =
      let a4 = entry PageLevel.lvl4 context from in
      let a3 = entry PageLevel.lvl3 t3 from in
      let a2 = entry PageLevel.lvl2 t2 from in
      let to' = clear_bit20 off true to in
      let new = mask_entry to' (bit_or mask 128) in
      let m = (set_entry a2 new s₂).memory in
      let (flags', present', granul') = granul_mask mask flags in
      let first = descend-Descended off mask a4 t3 s s₃ d₃ in
      let second = descend-Descended off mask a3 t2 s₃ s₂ d₂ in
      let keep4 = set_entry-others a2 a4 new s₂ ne42 in
      let keep3 = set_entry-others a2 a3 new s₂ ne32 in
      let e4 =
        below_kept mask a4 t3 s s₃ m first p (keep4 ∙ second.others a4 ne43)
          (ap granul keep4 ∙ g4) in
      let e3 = below_kept mask a3 t2 s₃ s₂ m second p keep3 (ap granul keep3 ∙ g3) in
      let leaf : translate_single_entry (m a2) ≡ Step.found (get_physical to') =
        ap translate_single_entry (set_entry_self a2 new s₂)
        ∙ single-found new (mask_entry-present to' (bit_or mask 128) ∙ present' ∙ p)
            (mask_entry-granul to' (bit_or mask 128) ∙ granul')
        ∙ ap Step.found (mask_entry-paddr to' (bit_or mask 128) flags') in
      (set_entry a2 new s₂, (rw (d₃, map_huge_page, d₂) refl), (rw (e4, translate, e3, leaf) refl))
