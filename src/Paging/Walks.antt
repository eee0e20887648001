-- ===== src/Paging/Walks.antt =====
-- The way of map down the tables, and what translate reads on it afterwards.
use gloxor.Base.{
  ℕ, ◌≡◌, ◌≢◌, refl, ap, sym, ◌∙◌, ◌⊎◌, inl, inr, true, ◌==◌, Option, none, some, arith, Bool-cases,
  List, [], ◌∷◌,
}
use mathlib.Core.Option.{some-injective}
use mathlib.Core.Path.{subst}
use gloxor.Algorithms.{write}
use gloxor.Paging.{
  Tables, Way, PageLevel, entry, present, entry_vaddr, mask_entry, take_page, set_entry,
  get_real_address, alloc_page_if_needed, descend, go_down,
}
use gloxor.Paging.Entries.{mask_entry-present}

Option-cases {ℓ} : {A : Type ℓ} (o : Option A) → (o ≡ none) ⊎ ((a : A) × (o ≡ some a))
Option-cases none = inl refl
Option-cases (some a) = inr (a, refl)

-- What one level of the way down leaves: the entry was present and stays, or has the mask's flag.
pub record Descended (mask a t : ℕ) (s s' : Tables) : Type 0 where
  pub table : t ≡ entry_vaddr (s'.memory a)
  pub flag :
      ((present (s.memory a) ≡ true) × (s'.memory a ≡ s.memory a))
      ⊎ (present (s'.memory a) ≡ present mask)
  pub others : (b : ℕ) → b ≢ a → s'.memory b ≡ s.memory b

take_page-memory : (s : Tables) → (take_page s).1.memory ≡ s.memory
unfolding take_page
take_page-memory s = go s.pages s
  where
    go :
        (l : List ℕ) (s : Tables)
        → (elim l as (λ _. ℕ × Tables) [
          | [] ↦ (0, s)
          | p ∷ ps ↦ (p, record s { pages = ps })
        ]).1.memory
          ≡ s.memory
    go [] s = refl
    go (p ∷ ps) s = refl

pub set_entry_self : (a e : ℕ) (s : Tables) → (set_entry a e s).memory a ≡ e
unfolding set_entry write
set_entry_self a e s = ground arith

pub set_entry-others : (a b e : ℕ) (s : Tables) → b ≢ a → (set_entry a e s).memory b ≡ s.memory b
unfolding set_entry write
set_entry-others a b e s h = ground arith

module _ (off : ℕ) where
  pub descend-Descended :
      (mask a t : ℕ) (s s' : Tables)
      → descend off true a mask s ≡ some (t, s')
      → Descended mask a t s s'
  unfolding descend alloc_page_if_needed
  descend-Descended mask a t s s' h = elim (Bool-cases (present (s.memory a))) [
    | inl p ↦
        let r : ℕ × Tables = (entry_vaddr (s.memory a), s) in
        let e : descend off true a mask s ≡ some r = rw (p, descend, alloc_page_if_needed) refl in
        subst (λ q. Descended mask a q.0 s q.1) (some-injective r (t, s') (sym e ∙ h))
          (record { table = refl; flag = inl (p, refl); others = λ b k. refl })
    | inr p ↦ elim (Bool-cases ((take_page s).0 == 0)) [
      | inl z ↦
          let e : descend off true a mask s ≡ none =
            rw (p, z, descend, alloc_page_if_needed) refl in
          absurd (cc (sym e ∙ h))
      | inr z ↦
          let new = mask_entry (get_real_address off true (take_page s).0) mask in
          let s₁ = set_entry a new (take_page s).1 in
          let r : ℕ × Tables = (entry_vaddr (s₁.memory a), s₁) in
          let e : descend off true a mask s ≡ some r =
            rw (p, z, descend, alloc_page_if_needed) refl in
          subst (λ q. Descended mask a q.0 s q.1) (some-injective r (t, s') (sym e ∙ h))
            (record {
              table = refl;
              flag = inr (
                  ap present (set_entry_self a new (take_page s).1)
                  ∙ mask_entry-present (get_real_address off true (take_page s).0) mask);
              others = λ b k.
                  set_entry-others a b new (take_page s).1 k ∙ ap (λ m. m b) (take_page-memory s);
            })
    ]
  ]

  -- The way that go_down takes, level by level.
  pub record Taken (context from mask : ℕ) (s : Tables) (w : Way) : Type 0 where
    pub upper : Tables
    pub middle : Tables
    pub t3 : ℕ
    pub t2 : ℕ
    pub t1 : ℕ
    pub first : Descended mask (entry PageLevel.lvl4 context from) t3 s upper
    pub second : Descended mask (entry PageLevel.lvl3 t3 from) t2 upper middle
    pub third : Descended mask (entry PageLevel.lvl2 t2 from) t1 middle w.tables
    pub at4 : w.entry4 ≡ entry PageLevel.lvl4 context from
    pub at3 : w.entry3 ≡ entry PageLevel.lvl3 t3 from
    pub at2 : w.entry2 ≡ entry PageLevel.lvl2 t2 from
    pub at1 : w.entry1 ≡ entry PageLevel.lvl1 t1 from

  pub go_down-Taken :
      (context from mask : ℕ) (s : Tables) (w : Way)
      → go_down off true context from mask s ≡ some w
      → Taken context from mask s w
  unfolding go_down
  go_down-Taken context from mask s w h =
      let a4 = entry PageLevel.lvl4 context from in
      elim (Option-cases (descend off true a4 mask s)) [
        | inl e ↦
            let stop : go_down off true context from mask s ≡ none = rw (e, go_down) refl in
            absurd (cc (sym stop ∙ h))
        | inr ((t3, s3), e3) ↦
            let a3 = entry PageLevel.lvl3 t3 from in
            elim (Option-cases (descend off true a3 mask s3)) [
              | inl e ↦
                  let stop : go_down off true context from mask s ≡ none =
                    rw (e3, go_down, e) refl in
                  absurd (cc (sym stop ∙ h))
              | inr ((t2, s2), e2) ↦
                  let a2 = entry PageLevel.lvl2 t2 from in
                  elim (Option-cases (descend off true a2 mask s2)) [
                    | inl e ↦
                        let stop : go_down off true context from mask s ≡ none =
                          rw (e3, go_down, e2, e) refl in
                        absurd (cc (sym stop ∙ h))
                    | inr ((t1, s1), e1) ↦
                        let way : Way = record {
                          entry4 = a4;
                          entry3 = a3;
                          entry2 = a2;
                          entry1 = entry PageLevel.lvl1 t1 from;
                          tables = s1;
                        } in
                        let done : go_down off true context from mask s ≡ some way =
                          rw (e3, go_down, e2, e1) refl in
                        subst (Taken context from mask s) (some-injective way w (sym done ∙ h))
                          (record {
                            upper = s3;
                            middle = s2;
                            t3 = t3;
                            t2 = t2;
                            t1 = t1;
                            first = descend-Descended mask a4 t3 s s3 e3;
                            second = descend-Descended mask a3 t2 s3 s2 e2;
                            third = descend-Descended mask a2 t1 s2 s1 e1;
                            at4 = refl;
                            at3 = refl;
                            at2 = refl;
                            at1 = refl;
                          })
                  ]
            ]
      ]
