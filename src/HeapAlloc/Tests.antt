-- ===== src/HeapAlloc/Tests.antt =====
-- Runs of heap_allocator, and its properties at concrete states.
use gloxor.Base.{
  ℕ, ◌+◌, ◌≤◌, ◌≡◌, ◌≢◌, ◌<◌, inl, refl, ap, sym, Option, some, List, [], ◌∷◌, true, false, ◌==◌,
  if◌then◌else◌, arith,
}
use gloxor.Base.Bits.{pow2}
use gloxor.HeapAlloc.{
  PageHeader, State, page_size, has_single_bit, align_up, get_bucket_index, small_from,
  get_page_header, alloc, alloc_small, alloc_large, palloc_alloc, usable_size,
}
use mathlib.Core.Option.{some-injective}
use gloxor.HeapAlloc.Regrow.{Keeps, repaged, grow, shrink, grow-Keeps, shrink-Keeps}
use gloxor.HeapAlloc.Sizes.{alloc-enough}
use gloxor.HeapAlloc.Sweep.{alloc_small-released, alloc_large-lost}

abbrev header : List ℕ → ℕ → PageHeader
header cross used = record {
  cross_thread_free = cross;
  used_count = used;
  total_blocks = 100;
  owning_thread_id = 1;
  bucket_idx = 3;
  block_size = 32;
  is_large = false;
}

-- Two pages in bucket 3; another thread has freed the only block in use of the second.
abbrev shared : State
shared = record {
  local_free = λ b. [];
  pages = λ b. if b == 3 then 65536 ∷ 131072 ∷ [] else [];
  headers = λ p. if p == 131072 then header (133120 ∷ []) 1 else header [] 5;
  supply = 262144 ∷ [];
  released = [];
}

local_block : State
local_block = record shared { local_free = λ b. 67584 ∷ [] }

some_block : (alloc 30 (pow2 3) 1 local_block).0.0 ≢ 0
unfolding local_block alloc has_single_bit align_up get_bucket_index alloc_small small_from
some_block = omega arith

alloc-enough_run : 30 ≤ (alloc 30 (pow2 3) 1 local_block).0.1
alloc-enough_run = alloc-enough 30 3 1 local_block (omega arith) (omega arith) some_block

alloc_small-released_example :
    ((alloc_small 3 1 shared).0.0 ≡ 133120)
    × ((alloc_small 3 1 shared).1.released ≡ (131072, page_size) ∷ [])
alloc_small-released_example =
    alloc_small-released 3 65536 131072 133120 [] shared refl refl (omega arith) refl refl refl
      (omega arith) (omega arith) 1

alloc_large-lost_run :
    (((alloc_large 100 page_size 1 shared).1.headers 262144).is_large ≡ true)
    × (get_page_header (alloc_large 100 page_size 1 shared).0.0 ≡ 262144 + page_size)
alloc_large-lost_run = alloc_large-lost 100 1 262144 [] shared refl (omega arith) (omega arith)

-- A page allocator that grows and shrinks in place.
abbrev in_place : ℕ → ℕ → ℕ → (ℕ → ℕ) → Option (ℕ × (ℕ → ℕ))
in_place page old req m = some (page, m)

in_place-keeps :
    (page old req p : ℕ) (m moved : ℕ → ℕ)
    → in_place page old req m ≡ some (p, moved)
    → (i : ℕ) → i < old
    → i < req
    → moved (p + i) ≡ m (page + i)
in_place-keeps page old req p m moved e i l l' =
    ap (λ (x : ℕ × (ℕ → ℕ)). x.1 (x.0 + i)) (sym (some-injective (page, m) (p, moved) e))

-- A large block of two pages, 64 bytes behind its header, and no further page.
abbrev large_block : State
large_block = record {
  local_free = λ b. [];
  pages = λ b. [];
  headers = λ p. record (header [] 0) { block_size = 131072; is_large = true };
  supply = [];
  released = [];
}

abbrev block : ℕ
block = 65600

no_memory : (alloc 200000 (pow2 3) 1 large_block).0.0 ≡ 0
unfolding alloc has_single_bit align_up alloc_large palloc_alloc
no_memory = refl

grown : (grow in_place block 200000 (pow2 3) 1 (λ q. q) large_block).ptr ≡ 65600
unfolding grow usable_size get_page_header repaged
grown = refl

grow-Keeps_example :
    Keeps
      (usable_size block large_block)
      block
      200000
      (λ q. q)
      (grow in_place block 200000 (pow2 3) 1 (λ q. q) large_block)
unfolding get_page_header
grow-Keeps_example =
    grow-Keeps in_place block 200000 3 1 (λ q. q) large_block (omega arith) (omega arith)
      (omega arith) (omega arith) in_place-keeps (omega arith) (λ l. omega arith)
      (inl (omega (arith, no_memory))) (omega (arith, grown))

held : 1000 ≤ usable_size block large_block
unfolding usable_size get_page_header
held = omega arith

shrink-Keeps_example :
    Keeps 1000 block 1000 (λ q. q) (shrink in_place block 1000 1 (λ q. q) large_block)
unfolding get_page_header
shrink-Keeps_example =
    shrink-Keeps in_place block 1000 1 (λ q. q) large_block (omega arith) (omega arith) held
      (omega arith) in_place-keeps (omega arith) (λ l. omega arith)
