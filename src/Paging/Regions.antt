-- ===== src/Paging/Regions.antt =====
-- map_region of kernel/main.cpp: the loop that maps a range of addresses by VSpace::map_huge where 2 MB
-- fit, and by VSpace::map elsewhere.
use gloxor.Base.{
  ℕ, zero, suc, ◌+◌, ◌-◌, ◌%◌, ◌≡◌, ◌≤◌, ◌<◌, refl, ap, sym, ◌∙◌, ◌⊎◌, inl, inr, Bool, true, false,
  ◌==◌, ltb, ◌&&◌, List, [], ◌∷◌, Option, none, some, arith, Bool-cases, if◌then◌else◌,
}
use mathlib.Core.Option.{some-injective}
use gloxor.Paging.{
  Tables, PagePrivileges, PageCaching, vspace_map, vspace_map_huge, map_page, vmem_mask, u64,
}

-- The test for a page of 2 MB.
unfoldable pub fits_huge : ℕ → ℕ → Bool
fits_huge from to = ltb 0x200000 (to - from) && (from % 0x200000 == 0)

-- The pages that map_region hands to map, with their physical addresses.
unfoldable pub region_calls : ℕ → ℕ → ℕ → ℕ → Option (List (ℕ × ℕ))
unfolding fits_huge
region_calls zero from to start = none
region_calls (suc fuel) from to start =
    let size : ℕ = if fits_huge from to then 0x200000 else 0x1000 in
    elim (ltb from to) [
      | false ↦ some []
      | true ↦ elim (region_calls fuel (u64 (from + size)) to (u64 (start + size))) [
        | none ↦ none
        | some calls ↦ some ((from, start) ∷ calls)
      ]
    ]

Option-cases {ℓ} : {A : Type ℓ} (o : Option A) → (o ≡ none) ⊎ ((a : A) × (o ≡ some a))
Option-cases none = inl refl
Option-cases (some a) = inr (a, refl)

bind_cong :
    {f g : Tables → Option Tables} (o : Option Tables)
    → ((s : Tables) → f s ≡ g s)
    → elim o as (λ _. Option Tables) [ none ↦ none | some s ↦ f s ]
      ≡ elim o as (λ _. Option Tables) [ none ↦ none | some s ↦ g s ]
bind_cong none h = refl
bind_cong (some s) h = h s

-- `map_all` is a list of calls of map, in order; `none` is a failed assertion.
module _ (off : ℕ) (asserts : Bool) (kernel_ptable : ℕ) where
  unfoldable pub map_region : ℕ → ℕ → ℕ → ℕ → PagePrivileges → PageCaching → Tables → Option Tables
  unfolding fits_huge
  map_region zero from to start pp pc s = none
  map_region (suc fuel) from to start pp pc s = elim (ltb from to) [
    | false ↦ some s
    | true ↦ elim (fits_huge from to) [
      | true ↦ elim (vspace_map_huge off asserts kernel_ptable from start pp pc s) [
        | none ↦ none
        | some s' ↦ map_region fuel (u64 (from + 0x200000)) to (u64 (start + 0x200000)) pp pc s'
      ]
      | false ↦ elim (vspace_map off asserts kernel_ptable from start pp pc s) [
        | none ↦ none
        | some s' ↦ map_region fuel (u64 (from + 0x1000)) to (u64 (start + 0x1000)) pp pc s'
      ]
    ]
  ]

  unfoldable pub map_all : List (ℕ × ℕ) → ℕ → Tables → Option Tables
  map_all [] mask s = some s
  map_all ((from, to) ∷ calls) mask s = elim (map_page off asserts kernel_ptable from to mask s) [
    | none ↦ none
    | some s' ↦ map_all calls mask s'
  ]

  -- A round of the loop.
  map_region_step :
      (fuel from to start size : ℕ) (pp : PagePrivileges) (pc : PageCaching) (s : Tables)
      → ltb from to ≡ true
      → (if fits_huge from to then 0x200000 else 0x1000) ≡ size
      → map_region (suc fuel) from to start pp pc s
        ≡ elim (map_page off asserts kernel_ptable from start (vmem_mask pp pc) s)
            as (λ _. Option Tables) [
              | none ↦ none
              | some s' ↦ map_region fuel (u64 (from + size)) to (u64 (start + size)) pp pc s'
            ]
  unfolding map_region vspace_map vspace_map_huge
  map_region_step fuel from to start size pp pc s more e =
      let mapped = map_page off asserts kernel_ptable from start (vmem_mask pp pc) s in
      let on =
        λ (n : ℕ) (s' : Tables). map_region fuel (u64 (from + n)) to (u64 (start + n)) pp pc s' in
      elim (Bool-cases (fits_huge from to)) [
        | inl f ↦
            let size' : 0x200000 ≡ size = ground (arith, e, f) in
            rw (more, f, map_region)
              (bind_cong {f = on 0x200000} {g = on size} mapped (λ s'. ap (λ n. on n s') size'))
        | inr f ↦
            let size' : 0x1000 ≡ size = ground (arith, e, f) in
            rw (more, f, map_region)
              (bind_cong {f = on 0x1000} {g = on size} mapped (λ s'. ap (λ n. on n s') size'))
      ]

  -- map_region is a call of map for each page of its list, whichever the size of the page.
  map_region-map_all :
      (fuel from to start : ℕ) (pp : PagePrivileges) (pc : PageCaching) (s : Tables)
      (calls : List (ℕ × ℕ))
      → region_calls fuel from to start ≡ some calls
      → map_region fuel from to start pp pc s ≡ map_all calls (vmem_mask pp pc) s
  unfolding map_region region_calls map_all
  map_region-map_all zero from to start pp pc s calls h = absurd (cc h)
  map_region-map_all (suc fuel) from to start pp pc s calls h = elim (Bool-cases (ltb from to)) [
    | inr done ↦
        let e : region_calls (suc fuel) from to start ≡ some [] = rw (done, region_calls) refl in
        rw (done, map_region, ← some-injective [] calls (sym e ∙ h)) refl
    | inl more ↦
        let size : ℕ = if fits_huge from to then 0x200000 else 0x1000 in
        let rest = region_calls fuel (u64 (from + size)) to (u64 (start + size)) in
        elim (Option-cases rest) [
          | inl e ↦
              let stop : region_calls (suc fuel) from to start ≡ none =
                rw (more, region_calls, e) refl in
              absurd (cc (sym stop ∙ h))
          | inr (l, e) ↦
              let all_calls : region_calls (suc fuel) from to start ≡ some ((from, start) ∷ l) =
                rw (more, region_calls, e) refl in
              let same = some-injective ((from, start) ∷ l) calls (sym all_calls ∙ h) in
              let ih = λ (s' : Tables).
                map_region-map_all fuel (u64 (from + size)) to (u64 (start + size)) pp pc s' l e in
              map_region_step fuel from to start size pp pc s more refl
              ∙ bind_cong (map_page off asserts kernel_ptable from start (vmem_mask pp pc) s) ih
              ∙ ap (λ c. map_all c (vmem_mask pp pc) s) same
        ]
  ]

-- The calls lie 2 MB behind a page or further.
abbrev pub Behind : ℕ → List (ℕ × ℕ) → Type 0
Behind from [] = Unit
Behind from (c ∷ calls) = (from + 0x200000 ≤ c.0) × Behind from calls

calls-Behind :
    (fuel base from to start : ℕ)
    → to + 0x200000 ≤ 18446744073709551616
    → base + 0x200000 ≤ from
    → 0 < fuel
    → to < from + fuel
    → (calls : List (ℕ × ℕ)) × (region_calls fuel from to start ≡ some calls) × Behind base calls
unfolding region_calls
calls-Behind zero base from to start room later pos h = absurd (omega arith)
calls-Behind (suc fuel) base from to start room later pos h = elim (Bool-cases (ltb from to)) [
  | inr done ↦ ([], (rw (done, region_calls) refl), tt)
  | inl more ↦
      let size : ℕ = if fits_huge from to then 0x200000 else 0x1000 in
      let sized : (0x1000 ≤ size) × (size ≤ 0x200000) = ground arith in
      let before : from < to = ground arith in
      let next : u64 (from + size) ≡ from + size = omega (arith, sized, before, room) in
      let (calls, e, behind) =
        calls-Behind fuel base (u64 (from + size)) to (u64 (start + size)) room
          (omega (arith, next, later)) (omega (arith, before, h)) (omega (arith, next, sized, h)) in
      ((from, start) ∷ calls, (rw (more, region_calls, e) refl), (later, behind))
]

-- map_region of a range of more than 2 MB that begins at a multiple of 2 MB, with the end 2 MB below the
-- end of the address space, and fuel for each byte: it is a call of map for the first page of 4 KB, and
-- then only for pages that begin 2 MB behind it or further, so no page in between is mapped.
pub map_region-skips :
    (off : ℕ) (asserts : Bool) (kernel_ptable fuel from to start : ℕ) (pp : PagePrivileges)
    (pc : PageCaching) (s : Tables)
    → from % 0x200000 ≡ 0
    → from + 0x200000 < to
    → to + 0x200000 ≤ 18446744073709551616
    → to < from + fuel
    → (calls : List (ℕ × ℕ)) × (map_region off asserts kernel_ptable
          (suc fuel)
          from
          to
          start
          pp
          pc
          s
        ≡ map_all off asserts kernel_ptable ((from, start) ∷ calls) (vmem_mask pp pc) s)
      × Behind from calls
unfolding region_calls fits_huge
map_region-skips off asserts kernel_ptable fuel from to start pp pc s aligned wide room h =
    let huge : fits_huge from to ≡ true = ground arith in
    let more : ltb from to ≡ true = ground arith in
    let next : u64 (from + 0x200000) ≡ from + 0x200000 = omega arith in
    let (calls, e, behind) =
      calls-Behind fuel from (u64 (from + 0x200000)) to (u64 (start + 0x200000)) room
        (omega (arith, next)) (omega arith) (omega (arith, next, h)) in
    let all_calls : region_calls (suc fuel) from to start ≡ some ((from, start) ∷ calls) =
      rw (more, region_calls, huge, e) refl in
    (
      calls,
      map_region-map_all off asserts kernel_ptable (suc fuel) from to start pp pc s
          ((from, start) ∷ calls) all_calls,
      behind,
    )
