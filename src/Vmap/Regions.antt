-- ===== src/Vmap/Regions.antt =====
-- What vmap_iomem and vunmap_iomem do to the sequence of regions.
use gloxor.Base.{
  ℕ, ◌<◌, ◌≡◌, ◌≢◌, refl, sym, ap, List, ◌∷◌, ◌++◌, length, inl, inr, Bool-cases, true, false, ◌==◌,
  if◌then◌else◌, arith, some,
}
use mathlib.Core.Path.{subst}
use gloxor.Algorithms.{write}
use gloxor.IntrusiveList.{end, insert, erase}
use gloxor.IntrusiveList.Chain.{Fresh, Circle, Represents, Fresh-parts}
use gloxor.IntrusiveList.Splice.{erase-size}
use gloxor.IntrusiveList.Walk.{first_or}
use gloxor.IntrusiveList.Finds.{
  put_before, drop_first, any, find_cases, found-begin, put_before-Represents,
}
use gloxor.Vmap.{VmapRegion, Vmap, vmap_iomem, vunmap_iomem, has_room, is_at, is_dup, is_there_dup}

-- vmap_iomem of a list of regions ends and answers the null pointer. Where gx::alloc gives no node,
-- nothing changes; where it gives a node that is not in the list, the list has it before the first region
-- that leaves room, or at the end, and the new region lies at 0xdeadbeef.
pub vmap_iomem-null :
    (fuel newptr base len pc : ℕ) (s : Vmap) (xs : List ℕ)
    → Represents s.vmap_list s.links xs
    → (newptr ≢ 0 → Fresh newptr (s.vmap_list.sentinel ∷ xs))
    → length xs < fuel
    → (s' : Vmap) × (vmap_iomem fuel newptr base len pc s ≡ some (0, s'))
      × (newptr ≡ 0 → s' ≡ s)
      × (newptr ≢ 0
          → Represents s'.vmap_list s'.links (put_before (has_room len s) newptr xs)
            × (s'.regions newptr
                ≡ record { phys_base = base; virt_base = 0xdeadbeef; len = len; flags = pc }))
unfolding vmap_iomem write end insert
vmap_iomem-null fuel newptr base len pc s xs r fresh h =
    let fn = has_room len s in
    let l = s.vmap_list in
    let place = first_or fn xs l.sentinel in
    let region : VmapRegion = record {
      phys_base = base;
      virt_base = 0xdeadbeef;
      len = len;
      flags = pc;
    } in
    let found = found-begin fuel fn l s.links xs r.circle h in
    let made = insert place newptr l s.links in
    elim (Bool-cases (newptr == 0)) [
      | inl nil ↦
          let null : newptr ≡ 0 = ground arith in
          (s, (rw (found, nil, vmap_iomem) refl), λ _. refl, λ some_ptr. absurd (some_ptr null))
      | inr given ↦
          let some_ptr : newptr ≢ 0 = ground (arith, given) in
          (
            record s {
              vmap_list = made.1;
              links = made.2;
              regions = write s.regions newptr region;
            },
            (rw (found, given, vmap_iomem) refl),
            λ nil. absurd (some_ptr nil),
            λ _. (put_before-Represents fn newptr l s.links xs r (fresh some_ptr), ground arith),
          )
    ]

-- vunmap_iomem takes out the first region at the address and hands its node back, or leaves all as it is
-- where no region is there; the count of the list stays in both cases.
pub vunmap_iomem-drops :
    (fuel addr : ℕ) (s : Vmap) (xs : List ℕ)
    → Represents s.vmap_list s.links xs
    → length xs < fuel
    → (s' : Vmap) × (vunmap_iomem fuel addr s ≡ some s')
      × Circle s.vmap_list.sentinel s'.links (drop_first (is_at addr s) xs)
      × (s'.vmap_list ≡ s.vmap_list)
      × (s'.freed
          ≡ (if any (is_at addr s) xs then first_or (is_at addr s) xs 0 ∷ s.freed else s.freed))
unfolding vunmap_iomem write end erase
vunmap_iomem-drops fuel addr s xs r h =
    let fn = is_at addr s in
    let l = s.vmap_list in
    let found = found-begin fuel fn l s.links xs r.circle h in
    elim (find_cases fn 0 l.sentinel xs) [
      | inl miss_all ↦
          let missed : (first_or fn xs l.sentinel == l.sentinel) ≡ true =
            ground (arith, miss_all.first) in
          (
            s,
            (rw (found, missed, vunmap_iomem) refl),
            subst (Circle l.sentinel s.links) (sym miss_all.dropped) r.circle,
            refl,
            (rw miss_all.no_hit refl),
          )
      | inr (y, left, right, hit) ↦
          let r' : Represents l s.links (left ++ y ∷ right) =
            subst (Represents l s.links) hit.cut r in
          let (circle, _, _) = erase-size y l s.links left right r' in
          let (_, apart) = Fresh-parts l.sentinel left (y ∷ right) r'.circle.1.0 in
          let inside : (y == l.sentinel) ≡ false = ground (arith, apart.0) in
          let made = erase y l s.links in
          (
            record s { vmap_list = made.1; links = made.2; freed = y ∷ s.freed },
            (rw (found, hit.first, inside, vunmap_iomem) refl),
            subst (Circle l.sentinel made.2) (sym hit.dropped) circle,
            refl,
            (rw hit.some_hit (ap (λ z. z ∷ s.freed) (sym hit.here))),
          )
    ]

-- is_there_dup of a list of regions ends, and says whether one of them overlaps the range.
pub is_there_dup-any :
    (fuel base len : ℕ) (s : Vmap) (xs : List ℕ)
    → Represents s.vmap_list s.links xs
    → length xs < fuel
    → is_there_dup fuel base len s ≡ some (any (is_dup base len s) xs)
unfolding is_there_dup end
is_there_dup-any fuel base len s xs r h =
    let fn = is_dup base len s in
    let l = s.vmap_list in
    let found = found-begin fuel fn l s.links xs r.circle h in
    elim (find_cases fn 0 l.sentinel xs) [
      | inl miss_all ↦
          let missed : (first_or fn xs l.sentinel == l.sentinel) ≡ true =
            ground (arith, miss_all.first) in
          rw (found, missed, miss_all.no_hit, is_there_dup) refl
      | inr (y, left, right, hit) ↦
          let r' : Represents l s.links (left ++ y ∷ right) =
            subst (Represents l s.links) hit.cut r in
          let (_, apart) = Fresh-parts l.sentinel left (y ∷ right) r'.circle.1.0 in
          let inside : (y == l.sentinel) ≡ false = ground (arith, apart.0) in
          rw (found, hit.first, inside, hit.some_hit, is_there_dup) refl
    ]
