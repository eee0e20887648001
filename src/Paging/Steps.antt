-- ===== src/Paging/Steps.antt =====
-- The single steps of translate, and what the way of map keeps at its upper entries.
use gloxor.Base.{ℕ, ◌≡◌, ◌≢◌, refl, ap, sym, ◌∙◌, inl, inr, true, false, arith}
use gloxor.Paging.{
  Tables, Way, PageLevel, Step, entry, present, granul, entry_vaddr, paddr, mask_entry,
  get_physical, set_entry, translate, translate_single_entry, translate_last,
}
use gloxor.Paging.Entries.{IsFlags, mask_entry-paddr, mask_entry-present}
use gloxor.Paging.Walks.{Descended, Taken, set_entry-others}

-- The four entries lie at four addresses.
pub record IsApart (w : Way) : Type 0 where
  pub ne43 : w.entry4 ≢ w.entry3
  pub ne42 : w.entry4 ≢ w.entry2
  pub ne41 : w.entry4 ≢ w.entry1
  pub ne32 : w.entry3 ≢ w.entry2
  pub ne31 : w.entry3 ≢ w.entry1
  pub ne21 : w.entry2 ≢ w.entry1

-- None of the upper entries is that of a huge page.
pub record HasTables (w : Way) : Type 0 where
  pub no_huge4 : granul (w.tables.memory w.entry4) ≡ false
  pub no_huge3 : granul (w.tables.memory w.entry3) ≡ false
  pub no_huge2 : granul (w.tables.memory w.entry2) ≡ false

pub get_physical_self : (a : ℕ) → get_physical (get_physical a) ≡ get_physical a
unfolding get_physical
get_physical_self a = omega arith

pub single-below :
    (e : ℕ)
    → present e ≡ true
    → granul e ≡ false
    → translate_single_entry e ≡ Step.below (entry_vaddr e)
unfolding translate_single_entry
single-below e p g = rw (p, g, translate_single_entry) refl

pub single-found :
    (e : ℕ) → present e ≡ true → granul e ≡ true → translate_single_entry e ≡ Step.found (paddr e)
unfolding translate_single_entry
single-found e p g = rw (p, g, translate_single_entry) refl

pub single-absent : (e : ℕ) → present e ≡ false → translate_single_entry e ≡ Step.found 0
unfolding translate_single_entry
single-absent e p = rw (p, translate_single_entry) refl

-- An entry that was present, or that has the flag of a mask with the flag.
pub kept-present :
    (mask a t : ℕ) (s s' : Tables)
    → Descended mask a t s s'
    → present mask ≡ true
    → present (s'.memory a) ≡ true
kept-present mask a t s s' d h = elim d.flag [ inl (p, e) ↦ ap present e ∙ p | inr e ↦ e ∙ h ]

pub last-mask_entry :
    (to mask : ℕ)
    → IsFlags mask
    → present mask ≡ true
    → translate_last (mask_entry (get_physical to) mask) ≡ get_physical to
unfolding translate_last
last-mask_entry to mask flags p =
    let there = mask_entry-present (get_physical to) mask ∙ p in
    rw (there, translate_last)
      (mask_entry-paddr (get_physical to) mask flags ∙ get_physical_self to)

pub translate_steps :
    (context from t3 t2 t1 : ℕ) (m : ℕ → ℕ)
    → translate_single_entry (m (entry PageLevel.lvl4 context from)) ≡ Step.below t3
    → translate_single_entry (m (entry PageLevel.lvl3 t3 from)) ≡ Step.below t2
    → translate_single_entry (m (entry PageLevel.lvl2 t2 from)) ≡ Step.below t1
    → translate context from m ≡ translate_last (m (entry PageLevel.lvl1 t1 from))
unfolding translate
translate_steps context from t3 t2 t1 m e4 e3 e2 = rw (e4, translate, e3, e2) refl

-- An upper entry that later writes leave leads translate to the table that map went to.
pub below_kept :
    (mask a t : ℕ) (s s' : Tables) (m : ℕ → ℕ)
    → Descended mask a t s s'
    → present mask ≡ true
    → m a ≡ s'.memory a
    → granul (m a) ≡ false
    → translate_single_entry (m a) ≡ Step.below t
below_kept mask a t s s' m d p same g =
    single-below (m a) (ap present same ∙ kept-present mask a t s s' d p) g
    ∙ ap Step.below (ap entry_vaddr same ∙ sym d.table)

module _ (off : ℕ) where
  -- What the way leaves at its three upper entries, whatever is then written at its last.
  pub record Kept (context from mask : ℕ) (s : Tables) (w : Way)
      (tk : Taken off context from mask s w) (new : ℕ) : Type 0 where
    pub at4 :
        (set_entry w.entry1 new w.tables).memory (entry PageLevel.lvl4 context from)
        ≡ tk.upper.memory (entry PageLevel.lvl4 context from)
    pub at3 :
        (set_entry w.entry1 new w.tables).memory (entry PageLevel.lvl3 tk.t3 from)
        ≡ tk.middle.memory (entry PageLevel.lvl3 tk.t3 from)
    pub at2 :
        (set_entry w.entry1 new w.tables).memory (entry PageLevel.lvl2 tk.t2 from)
        ≡ w.tables.memory (entry PageLevel.lvl2 tk.t2 from)

  pub keep :
      (context from mask : ℕ) (s : Tables) (w : Way) (tk : Taken off context from mask s w)
      (new : ℕ)
      → IsApart w
      → Kept context from mask s w tk new
  keep context from mask s w tk new apart =
      let a4 = entry PageLevel.lvl4 context from in
      let a3 = entry PageLevel.lvl3 tk.t3 from in
      let a2 = entry PageLevel.lvl2 tk.t2 from in
      record {
        at4 =
            set_entry-others w.entry1 a4 new w.tables (λ e. apart.ne41 (tk.at4 ∙ e))
            ∙ tk.third.others a4 (λ e. apart.ne42 (tk.at4 ∙ e ∙ sym tk.at2))
            ∙ tk.second.others a4 (λ e. apart.ne43 (tk.at4 ∙ e ∙ sym tk.at3));
        at3 =
            set_entry-others w.entry1 a3 new w.tables (λ e. apart.ne31 (tk.at3 ∙ e))
            ∙ tk.third.others a3 (λ e. apart.ne32 (tk.at3 ∙ e ∙ sym tk.at2));
        at2 = set_entry-others w.entry1 a2 new w.tables (λ e. apart.ne21 (tk.at2 ∙ e));
      }
