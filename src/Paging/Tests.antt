-- ===== src/Paging/Tests.antt =====
-- Runs of map and translate, and their properties on empty tables.
use gloxor.Base.{ℕ, ◌+◌, ◌≡◌, ◌≢◌, refl, List, [], ◌∷◌, true, false, none, some, arith, ◌%◌}
use gloxor.Algorithms.{write}
use gloxor.Paging.{
  Tables, Way, PageLevel, entry, present, granul, go_down, descend, map_page, map_huge_page,
  translate, vspace_map, vspace_map_huge, vmem_mask, PagePrivileges, PageCaching, caching_value,
  get_physical, clear_bit20, mask_entry,
}
use gloxor.Paging.Steps.{IsApart, HasTables}
use gloxor.Paging.Maps.{map_page-translate, map_huge_page-translate}
use gloxor.Paging.Faults.{vspace_map-absent, map_page-unchecked}
use gloxor.Paging.Regions.{Behind, map_region, map_all, map_region-skips}

abbrev context : ℕ
context = 0xffff800000100000

-- The entries 1, 2, 3 and 4 from the top table down.
abbrev from : ℕ
from = 0x8080604000

abbrev empty : Tables
empty = record {
  memory = λ a. 0;
  pages = 0xffff800000001000 ∷ 0xffff800000002000 ∷ 0xffff800000003000 ∷ [];
}

-- The way down empty tables, by the flags of the mask.
abbrev way : ℕ → Way
way mask = record {
  entry4 = 0xffff800000100008;
  entry3 = 0xffff800000001010;
  entry2 = 0xffff800000002018;
  entry1 = 0xffff800000003020;
  tables = record {
    memory =
        write
          (write (write (λ a. 0) 0xffff800000100008 (0x1000 + mask)) 0xffff800000001010
            (0x2000 + mask))
          0xffff800000002018 (0x3000 + mask);
    pages = [];
  };
}

way-IsApart : (mask : ℕ) → IsApart (way mask)
way-IsApart mask = record {
  ne43 = omega arith;
  ne42 = omega arith;
  ne41 = omega arith;
  ne32 = omega arith;
  ne31 = omega arith;
  ne21 = omega arith;
}

go_down_3 : go_down 0 true context from 3 empty ≡ some (way 3)
unfolding go_down write
go_down_3 = refl

way_3-HasTables : HasTables (way 3)
unfolding granul write
way_3-HasTables = record { no_huge4 = refl; no_huge3 = refl; no_huge2 = refl }

present_3 : present 3 ≡ true
unfolding present
present_3 = refl

map_page-translate_example :
    (s' : Tables) × (map_page 0 true context from 0x7000 3 empty ≡ some s')
    × (translate context from s'.memory ≡ get_physical 0x7000)
map_page-translate_example =
    map_page-translate 0 context from 0x7000 3 empty (way 3) go_down_3 (way-IsApart 3)
      way_3-HasTables (omega arith) present_3

-- Write-back: the mask is `writable` alone.
go_down_2 :
    go_down 0 true context from (vmem_mask PagePrivileges.all PageCaching.write_back) empty
    ≡ some (way 2)
unfolding go_down vmem_mask write
go_down_2 = refl

empty_top : present (empty.memory (entry PageLevel.lvl4 context from)) ≡ false
unfolding present
empty_top = refl

write_back_even : caching_value PageCaching.write_back % 2 ≡ 0
unfolding caching_value
write_back_even = refl

vspace_map-absent_example :
    (s' : Tables) × (vspace_map 0 true context from 0x7000 PagePrivileges.all PageCaching.write_back
        empty
      ≡ some s')
    × (translate context from s'.memory ≡ 0)
vspace_map-absent_example =
    vspace_map-absent 0 context from 0x7000 PagePrivileges.all PageCaching.write_back empty (way 2)
      go_down_2 (way-IsApart 2) empty_top write_back_even

-- Without assertions the tables of absent entries all lie at the start of the physical memory.
abbrev unchecked_way : Way
unchecked_way = record {
  entry4 = 0xffff800000100008;
  entry3 = 0xffff800000000010;
  entry2 = 0xffff800000000018;
  entry1 = 0xffff800000000020;
  tables = empty;
}

go_down_unchecked : go_down 0 false context from 3 empty ≡ some unchecked_way
unfolding go_down
go_down_unchecked = refl

unchecked_top : present (empty.memory unchecked_way.entry4) ≡ false
unfolding present
unchecked_top = refl

map_page-unchecked_example :
    (s' : Tables) × (map_page 0 false context from 0x7000 3 empty ≡ some s')
    × (s'.memory 0xffff800000000020 ≡ mask_entry (get_physical 0x7000) 3)
    × ((a : ℕ) → a ≢ 0xffff800000000020 → s'.memory a ≡ empty.memory a)
    × (translate context from s'.memory ≡ 0)
map_page-unchecked_example =
    map_page-unchecked 0 context from 0x7000 3 empty unchecked_way go_down_unchecked unchecked_top
      (omega arith)

-- The tables after one and two levels.
abbrev after4 : Tables
after4 = record {
  memory = write (λ a. 0) 0xffff800000100008 0x1003;
  pages = 0xffff800000002000 ∷ 0xffff800000003000 ∷ [];
}

abbrev after3 : Tables
after3 = record {
  memory = write (write (λ a. 0) 0xffff800000100008 0x1003) 0xffff800000001010 0x2003;
  pages = 0xffff800000003000 ∷ [];
}

descend_4 :
    descend 0 true (entry PageLevel.lvl4 context from) 3 empty ≡ some (0xffff800000001000, after4)
unfolding descend entry write
descend_4 = refl

descend_3 :
    descend 0 true (entry PageLevel.lvl3 0xffff800000001000 from) 3 after4
    ≡ some (0xffff800000002000, after3)
unfolding descend entry write
descend_3 = refl

ne_43 : entry PageLevel.lvl4 context from ≢ entry PageLevel.lvl3 0xffff800000001000 from
unfolding entry
ne_43 = omega arith

ne_42 : entry PageLevel.lvl4 context from ≢ entry PageLevel.lvl2 0xffff800000002000 from
unfolding entry
ne_42 = omega arith

ne_32 : entry PageLevel.lvl3 0xffff800000001000 from ≢ entry PageLevel.lvl2 0xffff800000002000 from
unfolding entry
ne_32 = omega arith

table_4 : granul (after3.memory (entry PageLevel.lvl4 context from)) ≡ false
unfolding granul entry write
table_4 = refl

table_3 : granul (after3.memory (entry PageLevel.lvl3 0xffff800000001000 from)) ≡ false
unfolding granul entry write
table_3 = refl

map_huge_page-translate_example :
    (s' : Tables) × (map_huge_page 0 true context from 0x305000 3 empty ≡ some s')
    × (translate context from s'.memory ≡ get_physical (clear_bit20 0 true 0x305000))
map_huge_page-translate_example =
    map_huge_page-translate 0 context from 0x305000 3 0xffff800000001000 0xffff800000002000 empty
      after4 after3 descend_4 descend_3 ne_43 ne_42 ne_32 table_4 table_3 (omega arith) present_3

-- The bits below 2 MB, but for bit 20, are in the address.
run_huge : get_physical (clear_bit20 0 true 0x305000) ≡ 0x205000
unfolding get_physical clear_bit20
run_huge = refl

-- Pages for the tables of two ranges of 2 MB.
abbrev supplied : Tables
supplied = record {
  memory = λ a. 0;
  pages = 0xffff800000001000 ∷ 0xffff800000002000 ∷ 0xffff800000003000 ∷ 0xffff800000004000 ∷ [];
}

-- The page that the second call finds at the start of the second range, and the gap behind the first page.
run_region :
    elim (map_region 0 true context 10 0 0x201000 0x100000 PagePrivileges.all
        PageCaching.write_through supplied)
      as (λ _. List ℕ) [
        | none ↦ []
        | some s ↦
            translate context 0 s.memory
            ∷ translate context 0x1000 s.memory
            ∷ translate context 0x200000 s.memory
            ∷ []
      ]
    ≡ 0x100000 ∷ 0 ∷ 0x300000 ∷ []
unfolding map_region translate write vspace_map_huge vspace_map
run_region = refl

map_region-skips_example :
    (calls : List (ℕ × ℕ)) × (map_region 0 true context 0x201002 0 0x201000 0x100000
        PagePrivileges.all PageCaching.write_through supplied
      ≡ map_all 0 true context
          ((0, 0x100000) ∷ calls)
          (vmem_mask PagePrivileges.all PageCaching.write_through)
          supplied)
    × Behind 0 calls
map_region-skips_example =
    map_region-skips 0 true context 0x201001 0 0x201000 0x100000 PagePrivileges.all
      PageCaching.write_through supplied refl (omega arith) (omega arith) (omega arith)
