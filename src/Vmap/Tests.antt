-- ===== src/Vmap/Tests.antt =====
-- Runs of vmap_iomem and vunmap_iomem, and their properties at a list of two regions.
use gloxor.Base.{ℕ, ◌≡◌, ◌≢◌, refl, [], ◌∷◌, some, arith, if◌then◌else◌}
use gloxor.Algorithms.{write}
use gloxor.IntrusiveList.Chain.{Circle, Represents}
use gloxor.IntrusiveList.Walk.{first_or}
use gloxor.IntrusiveList.Finds.{put_before, drop_first, any}
use gloxor.Vmap.{VmapRegion, Vmap, vmap_iomem, vunmap_iomem, has_room, is_at, is_dup, is_there_dup}
use gloxor.Vmap.Regions.{vmap_iomem-null, vunmap_iomem-drops, is_there_dup-any}

abbrev region : ℕ → ℕ → VmapRegion
region phys virt = record { phys_base = phys; virt_base = virt; len = 100; flags = 0 }

-- Regions at the nodes 10 and 20 in the list of the sentinel 1.
abbrev two : Vmap
two = record {
  vmap_list = record { sentinel = 1; list_size = 2 };
  links = record {
    next = write (write (write (λ a. 0) 1 10) 10 20) 20 1;
    prev = write (write (write (λ a. 0) 1 20) 10 1) 20 10;
  };
  regions = write (write (λ a. region 0 0) 10 (region 1000 5000)) 20 (region 2000 9000);
  freed = [];
}

two-Represents : Represents two.vmap_list two.links (10 ∷ 20 ∷ [])
unfolding write
two-Represents = record { circle = omega arith; counted = refl }

abbrev new_node : ℕ
new_node = 30

vmap_iomem-null_example :
    (s' : Vmap) × (vmap_iomem 3 new_node 3000 50 2 two ≡ some (0, s'))
    × (new_node ≡ 0 → s' ≡ two)
    × (new_node ≢ 0
        → Represents s'.vmap_list s'.links (put_before (has_room 50 two) new_node (10 ∷ 20 ∷ []))
          × (s'.regions new_node
              ≡ record { phys_base = 3000; virt_base = 0xdeadbeef; len = 50; flags = 2 }))
vmap_iomem-null_example =
    vmap_iomem-null 3 new_node 3000 50 2 two (10 ∷ 20 ∷ []) two-Represents (λ _. omega arith)
      (omega arith)

-- There is room after the first region.
run_has_room : put_before (has_room 50 two) 30 (10 ∷ 20 ∷ []) ≡ 30 ∷ 10 ∷ 20 ∷ []
unfolding put_before has_room write
run_has_room = refl

vunmap_iomem-drops_run :
    (s' : Vmap) × (vunmap_iomem 3 9000 two ≡ some s')
    × Circle 1 s'.links (drop_first (is_at 9000 two) (10 ∷ 20 ∷ []))
    × (s'.vmap_list ≡ two.vmap_list)
    × (s'.freed ≡ (
        if any (is_at 9000 two) (10 ∷ 20 ∷ [])
        then first_or (is_at 9000 two) (10 ∷ 20 ∷ []) 0 ∷ two.freed
        else two.freed))
vunmap_iomem-drops_run = vunmap_iomem-drops 3 9000 two (10 ∷ 20 ∷ []) two-Represents (omega arith)

run_dropped : drop_first (is_at 9000 two) (10 ∷ 20 ∷ []) ≡ 10 ∷ []
unfolding drop_first is_at write
run_dropped = refl

run_dup : is_there_dup 3 2050 10 two ≡ some (any (is_dup 2050 10 two) (10 ∷ 20 ∷ []))
run_dup = is_there_dup-any 3 2050 10 two (10 ∷ 20 ∷ []) two-Represents (omega arith)
