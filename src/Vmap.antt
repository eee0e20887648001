-- ===== src/Vmap.antt =====
-- The mapped regions of kernel/memory/virtmem.cpp, on the intrusive list of IntrusiveList. A region is
-- found by the address of its node; where an iterator stands at the sentinel, the region "there" is what
-- the memory around it holds, which is part of the state like any other.
pub mod Regions
mod Tests
use gloxor.Base.{
  ℕ, zero, suc, ◌+◌, ◌%◌, List, [], ◌∷◌, Bool, true, false, not, ltb, leb, ◌==◌, ◌&&◌,
  if◌then◌else◌, Option, none, some,
}
use gloxor.Algorithms.{write}
use gloxor.IntrusiveList.{Links, IntrusiveList, find_if, insert, erase, begin, end}

-- VmapRegion, less its links.
pub record VmapRegion : Type 0 where
  pub phys_base : ℕ
  pub virt_base : ℕ
  pub len : ℕ
  pub flags : ℕ

-- vmapList with its links, the regions, and the nodes that gx::dealloc has had back.
pub record Vmap : Type 0 where
  pub vmap_list : IntrusiveList
  pub links : Links
  pub regions : ℕ → VmapRegion
  pub freed : List ℕ

-- The arithmetic of 64-bit addresses.
abbrev pub u64 : ℕ → ℕ
u64 n = n % 18446744073709551616

unfoldable pub is_overlapping : ℕ → ℕ → ℕ → ℕ → Bool
is_overlapping base back obase oback = leb base oback && leb obase back

-- The loop of is_there_dup asks each region for this.
unfoldable pub is_dup : ℕ → ℕ → Vmap → ℕ → Bool
unfolding is_overlapping
is_dup base len s it =
    let r = s.regions it in
    is_overlapping r.phys_base (u64 (r.phys_base + r.len)) base (u64 (base + len))

unfoldable pub is_there_dup : ℕ → ℕ → ℕ → Vmap → Option Bool
unfolding is_dup find_if begin end
is_there_dup fuel base len s =
    let l = s.vmap_list in
    elim (find_if fuel (is_dup base len s) (begin l s.links) (end l) s.links) [
      | none ↦ none
      | some it ↦ some (not (it == end l))
    ]

-- The test of vmap_iomem: the room between a region and the next one.
unfoldable pub has_room : ℕ → Vmap → ℕ → Bool
has_room len s it =
    let r = s.regions it in
    ltb (u64 (r.virt_base + r.len + len)) (s.regions (s.links.next it)).virt_base

-- vmap_iomem, with the answer of gx::alloc, 0 for the null pointer.
unfoldable pub vmap_iomem : ℕ → ℕ → ℕ → ℕ → ℕ → Vmap → Option (ℕ × Vmap)
unfolding find_if has_room begin end insert write
vmap_iomem fuel newptr base len pc s =
    let l = s.vmap_list in
    elim (find_if fuel (has_room len s) (begin l s.links) (end l) s.links) [
      | none ↦ none
      | some nvmap ↦
          if newptr == 0
          then some (0, s)
          else (let region : VmapRegion = record {
            phys_base = base;
            virt_base = 0xdeadbeef;
            len = len;
            flags = pc;
          } in
              let r = insert nvmap newptr l s.links in
              some (
                0,
                record s { vmap_list = r.1; links = r.2; regions = write s.regions newptr region },
              ))
    ]

unfoldable pub is_at : ℕ → Vmap → ℕ → Bool
is_at addr s it = (s.regions it).virt_base == addr

unfoldable pub vunmap_iomem : ℕ → ℕ → Vmap → Option Vmap
unfolding find_if is_at begin end erase
vunmap_iomem fuel addr s =
    let l = s.vmap_list in
    elim (find_if fuel (is_at addr s) (begin l s.links) (end l) s.links) [
      | none ↦ none
      | some res ↦
          if res == end l
          then some s
          else (let r = erase res l s.links in
              some (record s { vmap_list = r.1; links = r.2; freed = res ∷ s.freed }))
    ]
