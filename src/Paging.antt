-- ===== src/Paging.antt =====
-- The page tables: kernel/arch/x86/src/paging.cpp, the entries and tables of
-- kernel/arch/x86/interface/asm/paging.cppm, the flags of kernel/arch/x86/interface/arch/paging.cppm,
-- the addresses of kernel/arch/x86/interface/arch/addrspace.cppm, VSpace of kernel/memory/virtmem.cpp
-- and map_region of kernel/main.cpp. The memory gives the entry at each address; a page keeps there what
-- it held when page_alloc hands it out, since page_alloc does not clear it. The answers of page_alloc are
-- a list, 0 for the null pointer and when it is used up. kernelMappingOffset, which the boot protocol
-- sets, and whether assertions are compiled in are parameters: without them the argument of gloxAssert
-- is not evaluated.
pub mod Entries
pub mod Walks
pub mod Steps
pub mod Maps
pub mod Faults
pub mod Regions
mod Tests
use gloxor.Base.{
  ℕ, zero, suc, ◌+◌, ◌-◌, ◌*◌, ◌/◌, ◌%◌, List, [], ◌∷◌, Bool, true, false, not, ltb, leb, ◌==◌,
  ◌&&◌, ◌||◌, if◌then◌else◌, Option, none, some, bit_or,
}
use gloxor.Algorithms.{write}

-- The arithmetic of 64-bit words.
abbrev pub u64 : ℕ → ℕ
u64 n = n % 18446744073709551616

abbrev pub physical_mem_base : ℕ
physical_mem_base = 0xffff800000000000

abbrev pub kernel_mem_base : ℕ
kernel_mem_base = 0xffffffff80000000

-- entry & present
unfoldable pub present : ℕ → Bool
present entry = entry % 2 == 1

-- entry & granul
unfoldable pub granul : ℕ → Bool
granul entry = entry / 128 % 2 == 1

-- entry & 0x000ffffffffff000
unfoldable pub get_physical : ℕ → ℕ
get_physical entry = entry / 4096 % 1099511627776 * 4096

unfoldable pub mask_entry : ℕ → ℕ → ℕ
unfolding get_physical
mask_entry phys_addr mask = bit_or (get_physical phys_addr) mask

-- PageEntry::paddr and PageEntry::vaddr.
unfoldable pub paddr : ℕ → ℕ
paddr entry = entry / 4096 % 1099511627776 * 4096

unfoldable pub entry_vaddr : ℕ → ℕ
unfolding paddr
entry_vaddr entry =
    let realaddr = paddr entry in
    if ltb entry physical_mem_base then u64 (realaddr + physical_mem_base) else realaddr

-- The level of a table.
pub data PageLevel : Type 0 where
  lvl1 : PageLevel
  lvl2 : PageLevel
  lvl3 : PageLevel
  lvl4 : PageLevel

-- PageTable::index, `(addr >> (lvl * 9 + 3)) & 0x1ff`.
unfoldable pub index : PageLevel → ℕ → ℕ
index PageLevel.lvl1 addr = addr / 4096 % 512
index PageLevel.lvl2 addr = addr / 2097152 % 512
index PageLevel.lvl3 addr = addr / 1073741824 % 512
index PageLevel.lvl4 addr = addr / 549755813888 % 512

-- PageTable::entry: the address of the entry, of 8 bytes, in the table.
unfoldable pub entry : PageLevel → ℕ → ℕ → ℕ
unfolding index
entry lvl table addr = table + 8 * index lvl addr

-- The entries, and the answers of page_alloc, which are a parameter here.
pub record Tables : Type 0 where
  pub memory : ℕ → ℕ
  pub pages : List ℕ

-- The next answer of gx::page_alloc, whose own model is Pmm; 0, the null pointer, where none is left.
unfoldable pub take_page : Tables → ℕ × Tables
take_page s = elim s.pages [ [] ↦ (0, s) | p ∷ ps ↦ (p, record s { pages = ps }) ]

unfoldable pub set_entry : ℕ → ℕ → Tables → Tables
unfolding write
set_entry a e s = record s { memory = write s.memory a e }

-- PagePrivileges and PageCaching, with their values.
pub data PagePrivileges : Type 0 where
  read_only : PagePrivileges
  write_only : PagePrivileges
  exec_only : PagePrivileges
  all : PagePrivileges

pub data PageCaching : Type 0 where
  write_back : PageCaching
  write_through : PageCaching
  cache_disable : PageCaching
  write_combine : PageCaching

unfoldable pub privileges_value : PagePrivileges → ℕ
privileges_value PagePrivileges.read_only = 9223372036854775808
privileges_value PagePrivileges.write_only = 9223372036854775810
privileges_value PagePrivileges.exec_only = 0
privileges_value PagePrivileges.all = 2

unfoldable pub caching_value : PageCaching → ℕ
caching_value PageCaching.write_back = 0
caching_value PageCaching.write_through = 1
caching_value PageCaching.cache_disable = 2
caching_value PageCaching.write_combine = 3

unfoldable pub vmem_mask : PagePrivileges → PageCaching → ℕ
unfolding privileges_value caching_value
vmem_mask pv cm = bit_or (privileges_value pv) (caching_value cm)

-- translate_single_entry: the table below, or the address that ends the translation.
pub data Step : Type 0 where
  below : ℕ → Step
  found : ℕ → Step

unfoldable pub translate_single_entry : ℕ → Step
unfolding present granul paddr entry_vaddr
translate_single_entry e =
    if not (present e)
    then Step.found 0
    else if granul e
    then Step.found (paddr e)
    else Step.below (entry_vaddr e)

-- The last step of translate.
unfoldable pub translate_last : ℕ → ℕ
unfolding present paddr
translate_last e = if not (present e) then 0 else paddr e

unfoldable pub translate : ℕ → ℕ → (ℕ → ℕ) → ℕ
unfolding translate_single_entry entry translate_last
translate pt from m = elim (translate_single_entry (m (entry PageLevel.lvl4 pt from))) [
  | found a ↦ a
  | below t3 ↦ elim (translate_single_entry (m (entry PageLevel.lvl3 t3 from))) [
    | found a ↦ a
    | below t2 ↦ elim (translate_single_entry (m (entry PageLevel.lvl2 t2 from))) [
      | found a ↦ a
      | below t1 ↦ translate_last (m (entry PageLevel.lvl1 t1 from))
    ]
  ]
]

-- The addresses of the entries that map goes through, the last that it writes, and the tables then.
pub record Way : Type 0 where
  pub entry4 : ℕ
  pub entry3 : ℕ
  pub entry2 : ℕ
  pub entry1 : ℕ
  pub tables : Tables

module _ (kernel_mapping_offset : ℕ) (asserts : Bool) where
  -- get_real_address, with get_real_kernel_addr and get_real_data_addr, whose assertions hold here.
  unfoldable pub get_real_address : ℕ → ℕ
  get_real_address virt =
      if leb kernel_mem_base virt
      then u64 (virt + kernel_mapping_offset)
      else if leb physical_mem_base virt
      then virt - physical_mem_base
      else virt

  -- alloc_page_if_needed for the entry at an address.
  unfoldable pub alloc_page_if_needed : ℕ → ℕ → Tables → Bool × Tables
  unfolding present take_page set_entry mask_entry get_real_address
  alloc_page_if_needed a mask s =
      if present (s.memory a)
      then (true, s)
      else (let r = take_page s in
          if r.0 == 0
          then (false, r.1)
          else (true, set_entry a (mask_entry (get_real_address r.0) mask) r.1))

  -- One level of the way down: the assertion, which may fail, and the table below.
  unfoldable pub descend : ℕ → ℕ → Tables → Option (ℕ × Tables)
  unfolding alloc_page_if_needed entry_vaddr
  descend a mask s =
      let r : Bool × Tables = if asserts then alloc_page_if_needed a mask s else (true, s) in
      if r.0 then some (entry_vaddr (r.1.memory a), r.1) else none

  unfoldable pub go_down : ℕ → ℕ → ℕ → Tables → Option Way
  unfolding descend entry
  go_down context from mask s =
      let a4 = entry PageLevel.lvl4 context from in
      elim (descend a4 mask s) [
        | none ↦ none
        | some (t3, s3) ↦
            let a3 = entry PageLevel.lvl3 t3 from in
            elim (descend a3 mask s3) [
              | none ↦ none
              | some (t2, s2) ↦
                  let a2 = entry PageLevel.lvl2 t2 from in
                  elim (descend a2 mask s2) [
                    | none ↦ none
                    | some (t1, s1) ↦ some (record {
                      entry4 = a4;
                      entry3 = a3;
                      entry2 = a2;
                      entry1 = entry PageLevel.lvl1 t1 from;
                      tables = s1;
                    })
                  ]
            ]
      ]

  -- map, which returns true; `none` is a failed assertion.
  unfoldable pub map_page : ℕ → ℕ → ℕ → ℕ → Tables → Option Tables
  unfolding go_down set_entry mask_entry get_physical
  map_page context from to mask s = elim (go_down context from mask s) [
    | none ↦ none
    | some w ↦ some (set_entry w.entry1 (mask_entry (get_physical to) mask) w.tables)
  ]

  -- `to & ~0x100000`
  unfoldable pub clear_bit20 : ℕ → ℕ
  clear_bit20 to = to - to / 1048576 % 2 * 1048576

  -- map_huge_page stops a level higher, and sets `granul` there.
  unfoldable pub map_huge_page : ℕ → ℕ → ℕ → ℕ → Tables → Option Tables
  unfolding descend entry set_entry mask_entry clear_bit20
  map_huge_page context from to mask s = elim (descend (entry PageLevel.lvl4 context from) mask s) [
    | none ↦ none
    | some (t3, s3) ↦ elim (descend (entry PageLevel.lvl3 t3 from) mask s3) [
      | none ↦ none
      | some (t2, s2) ↦ some (
          set_entry (entry PageLevel.lvl2 t2 from) (mask_entry (clear_bit20 to) (bit_or mask 128))
            s2)
    ]
  ]

  -- VSpace::map and VSpace::map_huge: both call map, on the tables of the kernel.
  unfoldable pub vspace_map : ℕ → ℕ → ℕ → PagePrivileges → PageCaching → Tables → Option Tables
  unfolding map_page vmem_mask
  vspace_map kernel_ptable from to pv cm s = map_page kernel_ptable from to (vmem_mask pv cm) s

  unfoldable pub vspace_map_huge : ℕ → ℕ → ℕ → PagePrivileges → PageCaching → Tables → Option Tables
  unfolding map_page vmem_mask
  vspace_map_huge kernel_ptable from to pv cm s = map_page kernel_ptable from to (vmem_mask pv cm) s
