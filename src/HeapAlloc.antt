-- ===== src/HeapAlloc.antt =====
-- heap_allocator of libraries/libglox/include/glox/heap_alloc.hpp, with its defaults: buckets of 8
-- bytes up to 2048, pages of 65536 bytes. One thread's cache is modelled, with the identity of the
-- running thread as an argument. A list of free blocks is the list of their addresses, a header is
-- found by the address of its page, and what the page allocator answers is a list of addresses, 0 for
-- the null pointer and empty where memory is out; what is handed back to it is kept in a list.
pub mod Sizes
pub mod Regrow
pub mod Sweep
mod Tests
use gloxor.Base.{
  ℕ, zero, suc, ◌+◌, ◌-◌, ◌*◌, ◌/◌, ◌%◌, ◌^◌, List, [], ◌∷◌, ◌++◌, Option, none, some, Bool, true,
  false, not, ◌&&◌, ◌||◌, ltb, leb, ◌==◌, if◌then◌else◌, bit_and, length, max,
}
use gloxor.Algorithms.{write}

abbrev pub max_small_size : ℕ
max_small_size = 2048

abbrev pub granularity : ℕ
granularity = 8

abbrev pub page_size : ℕ
page_size = 65536

-- sizeof(page_header).
abbrev pub header_size : ℕ
header_size = 56

-- The arithmetic of size_t.
abbrev pub size_t : ℕ → ℕ
size_t n = n % 18446744073709551616

-- The arithmetic of uint32_t.
abbrev pub u32 : ℕ → ℕ
u32 n = n % 4294967296

pub record PageHeader : Type 0 where
  pub cross_thread_free : List ℕ
  pub used_count : ℕ
  pub total_blocks : ℕ
  pub owning_thread_id : ℕ
  pub bucket_idx : ℕ
  pub block_size : ℕ
  pub is_large : Bool

-- thread_cache, by bucket, the headers of the pages, and the page allocator.
pub record State : Type 0 where
  pub local_free : ℕ → List ℕ
  pub pages : ℕ → List ℕ
  pub headers : ℕ → PageHeader
  pub supply : List ℕ
  pub released : List (ℕ × ℕ)

unfoldable pub align_up : ℕ → ℕ → ℕ
align_up value alignment =
    bit_and (size_t (value + alignment + 18446744073709551616 - 1))
      (18446744073709551616 - alignment)

unfoldable pub get_bucket_index : ℕ → ℕ
get_bucket_index size = if size == 0 then 0 else (size - 1) / granularity

unfoldable pub get_block_size : ℕ → ℕ
get_block_size bucket_idx = (bucket_idx + 1) * granularity

unfoldable pub get_page_header : ℕ → ℕ
get_page_header ptr = ptr - ptr % page_size

-- The part of a round of collect_and_sweep that takes the blocks other threads have freed.
unfoldable pub steal_blocks : ℕ → ℕ → State → List ℕ → State
unfolding write
steal_blocks bucket page s [] = s
steal_blocks bucket page s (n ∷ ns) =
    let h = s.headers page in
    record s {
      local_free = write s.local_free bucket ((n ∷ ns) ++ s.local_free bucket);
      headers = write s.headers page (record h {
        cross_thread_free = [];
        used_count = u32 (h.used_count + 4294967296 - length (n ∷ ns));
      });
    }

unfoldable pub steal : ℕ → ℕ → State → State
steal bucket page s = steal_blocks bucket page s (s.headers page).cross_thread_free

-- The other part: a page with no block in use is given back, unless it is the first.
unfoldable pub is_unused : ℕ → ℕ → State → Bool
is_unused head page s = ((s.headers page).used_count == 0) && not (page == head)

-- The loop of collect_and_sweep: the pages that stay, in their order, and the state. `head` is the
-- first page of the bucket, which is never given back.
unfoldable pub sweep : ℕ → ℕ → List ℕ → State → List ℕ × State
sweep bucket head [] s = ([], s)
sweep bucket head (page ∷ rest) s =
    let s' = steal bucket page s in
    let unused = is_unused head page s' in
    let released = if unused then (page, page_size) ∷ s'.released else s'.released in
    let (kept, s'') = sweep bucket head rest (record s' { released = released }) in
    ((if unused then kept else page ∷ kept), s'')

unfoldable pub sweep_pages : ℕ → State → List ℕ → State
unfolding write
sweep_pages bucket s [] = s
sweep_pages bucket s (head ∷ rest) =
    let (kept, s') = sweep bucket head (head ∷ rest) s in
    record s' { pages = write s'.pages bucket kept }

unfoldable pub collect_and_sweep : ℕ → State → State
collect_and_sweep bucket s = sweep_pages bucket s (s.pages bucket)

-- The first block of the local list.
unfoldable pub pop_local : ℕ → ℕ → List ℕ → State → State
unfolding write get_page_header
pop_local bucket block rest s =
    let page = get_page_header block in
    let h = s.headers page in
    record s {
      local_free = write s.local_free bucket rest;
      headers = write s.headers page (record h { used_count = u32 (h.used_count + 1) });
    }

-- The loop that links the blocks of a fresh page, on fuel.
unfoldable pub carve : ℕ → ℕ → ℕ → ℕ → List ℕ
carve zero page block_size offset = []
carve (suc fuel) page block_size offset = elim (leb (offset + block_size) page_size) [
  | true ↦ (page + offset) ∷ carve fuel page block_size (offset + block_size)
  | false ↦ []
]

-- palloc.alloc.
unfoldable pub palloc_alloc : State → ℕ × State
palloc_alloc s = elim s.supply [ [] ↦ (0, s) | p ∷ ps ↦ (p, record s { supply = ps }) ]

-- The part of allocate_slow_path that sets up a fresh page; the block handed out is its first.
unfoldable pub fresh_page : ℕ → ℕ → ℕ → State → ℕ × State
unfolding write align_up get_block_size carve
fresh_page bucket tid page s =
    let block_size = get_block_size bucket in
    let offset = align_up header_size max_small_size in
    let free_blocks = carve page_size page block_size (offset + block_size) in
    let header : PageHeader = record {
      cross_thread_free = [];
      used_count = 1;
      total_blocks = u32 (1 + length free_blocks);
      owning_thread_id = tid;
      bucket_idx = bucket;
      block_size = block_size;
      is_large = false;
    } in
    (
      page + offset,
      record s {
        headers = write s.headers page header;
        pages = write s.pages bucket (page ∷ s.pages bucket);
        local_free = write s.local_free bucket free_blocks;
      },
    )

-- allocate_slow_path after the sweep, by the local list; 0 is the null pointer.
unfoldable pub slow_from : ℕ → ℕ → State → List ℕ → ℕ × State
slow_from bucket tid s (block ∷ rest) = (block, pop_local bucket block rest s)
slow_from bucket tid s [] =
    let (page, s') = palloc_alloc s in if page == 0 then (0, s') else fresh_page bucket tid page s'

unfoldable pub allocate_slow_path : ℕ → ℕ → State → ℕ × State
allocate_slow_path bucket tid s =
    let s' = collect_and_sweep bucket s in slow_from bucket tid s' (s'.local_free bucket)

unfoldable pub has_single_bit : ℕ → Bool
has_single_bit n = not (n == 0) && (bit_and n (n - 1) == 0)

unfoldable pub hand_out : ℕ → ℕ × State → (ℕ × ℕ) × State
unfolding get_block_size
hand_out bucket (ptr, s) = if ptr == 0 then ((0, 0), s) else ((ptr, get_block_size bucket), s)

-- The small path of alloc, by the local list.
unfoldable pub small_from : ℕ → ℕ → State → List ℕ → (ℕ × ℕ) × State
small_from bucket tid s (block ∷ rest) =
    ((block, get_block_size bucket), pop_local bucket block rest s)
small_from bucket tid s [] = hand_out bucket (allocate_slow_path bucket tid s)

unfoldable pub alloc_small : ℕ → ℕ → State → (ℕ × ℕ) × State
alloc_small bucket tid s = small_from bucket tid s (s.local_free bucket)

unfoldable pub alloc_large : ℕ → ℕ → ℕ → State → (ℕ × ℕ) × State
unfolding write
alloc_large n alignment tid s =
    let offset = align_up header_size (max alignment 8) in
    let page_req = align_up (size_t (n + offset)) page_size in
    let (page, s') = palloc_alloc s in
    if page == 0
    then ((0, 0), s')
    else (let header : PageHeader = record {
      cross_thread_free = [];
      used_count = 0;
      total_blocks = 0;
      owning_thread_id = tid;
      bucket_idx = 0;
      block_size = page_req;
      is_large = true;
    } in
        (
          (page + offset, size_t (page_req + 18446744073709551616 - offset)),
          record s' { headers = write s'.headers page header },
        ))

-- The pointer and the size of the block.
unfoldable pub alloc : ℕ → ℕ → ℕ → State → (ℕ × ℕ) × State
alloc n alignment tid s =
    if not (has_single_bit alignment) || ltb page_size alignment
    then ((0, 0), s)
    else (let alignment' = max alignment granularity in
        let aligned_n = align_up (align_up n alignment') granularity in
        if ltb max_small_size aligned_n || ltb max_small_size alignment'
        then alloc_large n alignment' tid s
        else alloc_small (get_bucket_index aligned_n) tid s)

unfoldable pub usable_size : ℕ → State → ℕ
unfolding get_page_header
usable_size ptr s =
    let page = get_page_header ptr in
    let h = s.headers page in
    if ptr == 0
    then 0
    else (if h.is_large
        then size_t (h.block_size + 18446744073709551616 - (ptr - page))
        else h.block_size)

unfoldable pub dealloc : ℕ → ℕ → State → State
unfolding get_page_header write
dealloc ptr tid s =
    let page = get_page_header ptr in
    let h = s.headers page in
    if ptr == 0
    then s
    else (if h.is_large
        then record s { released = (page, h.block_size) ∷ s.released }
        else (if h.owning_thread_id == tid
            then record s {
              local_free = write s.local_free h.bucket_idx (ptr ∷ s.local_free h.bucket_idx);
              headers =
                  write s.headers page
                    (record h { used_count = u32 (h.used_count + 4294967296 - 1) });
            }
            else record s {
              headers =
                  write s.headers page (record h { cross_thread_free = ptr ∷ h.cross_thread_free });
            }))

-- Also shrink_inplace.
unfoldable pub grow_inplace : ℕ → ℕ → State → ℕ
unfolding usable_size
grow_inplace ptr new_size s =
    if ptr == 0 then 0 else (if leb new_size (usable_size ptr s) then ptr else 0)
