-- ===== src/Slab.antt =====
-- The slab allocator of kernel/memory/alloc.cpp: size classes, the chunks of one page each with their
-- free lists, and the metadata pages that hold the chunk headers. An address is a number, 0 is the
-- null pointer. Free lists live in a memory that gives the `next` of the free block at an address.
-- What gx::page_alloc answers is a list of addresses, empty where memory is out; the pages handed to
-- gx::page_dealloc are kept in a list. `headers` is what a new metadata page holds where the chunk
-- headers stand; its next pointer is taken to be null, which the code relies on.
pub mod Buckets
pub mod Chunks
mod Tests
use gloxor.Base.{
  ℕ, zero, suc, ◌+◌, ◌-◌, ◌*◌, ◌/◌, List, [], ◌∷◌, Option, none, some, Bool, true, false, not, ◌||◌,
  ltb, leb, ◌==◌, if◌then◌else◌, get_or, set,
}
use gloxor.Algorithms.{write}
use gloxor.Math.{align}

abbrev pub page_size : ℕ
page_size = 4096

abbrev pub tiny_buckets : List ℕ
tiny_buckets = 16 ∷ 32 ∷ 64 ∷ 128 ∷ 256 ∷ 512 ∷ 1024 ∷ 2048 ∷ []

pub record ChunkPtr : Type 0 where
  pub bytes_used : ℕ
  pub list : ℕ

unfoldable pub is_full : ChunkPtr → Bool
is_full c = c.bytes_used == page_size

-- The chunk headers of one metadata page.
abbrev pub Metadata : Type 0
Metadata = List ChunkPtr

-- globalHeap, a list of metadata pages for each bucket, with the memory around it.
pub record Heap : Type 0 where
  pub buckets : List (List Metadata)
  pub next : ℕ → ℕ
  pub pages : List ℕ
  pub released : List ℕ

unfoldable pub align_up_pow2 : (ℕ → ℕ) → ℕ → ℕ
align_up_pow2 clz x = if x == 1 then 1 else 64 - clz (x - 1)

-- `none` is the failed assertion.
unfoldable pub size2bucket : (ℕ → ℕ) → ℕ → Option ℕ
unfolding align_up_pow2
size2bucket clz size =
    if size == 0 then none else (if leb size 16 then some 0 else some (align_up_pow2 clz size - 4))

-- gx::page_alloc().
unfoldable pub take_page : Heap → ℕ × Heap
take_page h = elim h.pages [ [] ↦ (0, h) | p ∷ ps ↦ (p, record h { pages = ps }) ]

-- The loop of init_chunk, and the write behind it; `fuel` rounds at most.
unfoldable pub link_blocks : ℕ → ℕ → ℕ → ℕ → (ℕ → ℕ) → ℕ → ℕ
unfolding write
link_blocks zero bucket_size i addr next = write next addr 0
link_blocks (suc fuel) bucket_size i addr next = elim (ltb i page_size) [
  | true ↦
      link_blocks fuel bucket_size (i + bucket_size) (addr + bucket_size)
        (write next addr (addr + bucket_size))
  | false ↦ write next addr 0
]

-- The chunk, and whether there was a page for it.
unfoldable pub init_chunk : ChunkPtr → ℕ → Heap → (ChunkPtr × Bool) × Heap
unfolding take_page
init_chunk c bucket_size h =
    let (page, h') = take_page h in
    if page == 0 then ((c, false), h') else (
      (record { bytes_used = 0; list = page }, true),
      record h' { next = link_blocks page_size bucket_size 0 page h'.next },
    )

-- A chunk that has no list gets one.
unfoldable pub ready : ChunkPtr → ℕ → Heap → (ChunkPtr × Bool) × Heap
unfolding init_chunk
ready c bucket_size h = if c.list == 0 then init_chunk c bucket_size h else ((c, true), h)

-- The rest of a round of alloc_from_chunk, with the search among the chunks behind.
unfoldable pub take_block :
    (Heap → (ℕ × Bool) × Metadata × Heap)
    → Metadata
    → ℕ
    → (ChunkPtr × Bool) × Heap
    → (ℕ × Bool) × Metadata × Heap
unfolding is_full
take_block later cs bucket_size ((c, false), h) = ((0, true), c ∷ cs, h)
take_block later cs bucket_size ((c, true), h) = elim (is_full c) [
  | false ↦ (
    (c.list, true),
    record { bytes_used = c.bytes_used + bucket_size; list = h.next c.list } ∷ cs,
    h,
  )
  | true ↦ let (r, cs', h') = later h in (r, c ∷ cs', h')
]

-- The pointer, whether the search is over, the chunks and the heap.
unfoldable pub alloc_from_chunk : Metadata → ℕ → Heap → (ℕ × Bool) × Metadata × Heap
unfolding ready take_block
alloc_from_chunk [] bucket_size h = ((0, false), [], h)
alloc_from_chunk (c ∷ cs) bucket_size h =
    take_block (λ h'. alloc_from_chunk cs bucket_size h') cs bucket_size (ready c bucket_size h)

-- What follows the loop of alloc_mem: a new page is linked behind the last one, and the last one is
-- asked again.
unfoldable pub alloc_last : (ℕ → Metadata) → Metadata → ℕ → Heap → ℕ × List Metadata × Heap
unfolding alloc_from_chunk take_page
alloc_last headers meta bucket_size h =
    let (page, h') = take_page h in
    if page == 0
    then (0, meta ∷ [], h')
    else (let (r, meta', h'') = alloc_from_chunk meta bucket_size h' in
        (r.0, meta' ∷ headers page ∷ [], h''))

-- The loop over the metadata pages.
unfoldable pub alloc_pages : (ℕ → Metadata) → List Metadata → ℕ → Heap → ℕ × List Metadata × Heap
unfolding alloc_from_chunk alloc_last
alloc_pages headers [] bucket_size h = (0, [], h)
alloc_pages headers (meta ∷ []) bucket_size h =
    let (r, meta', h') = alloc_from_chunk meta bucket_size h in
    if r.1 then (r.0, meta' ∷ [], h') else alloc_last headers meta' bucket_size h'
alloc_pages headers (meta ∷ m ∷ ms) bucket_size h =
    let (r, meta', h') = alloc_from_chunk meta bucket_size h in
    let (p, ms', h'') = alloc_pages headers (m ∷ ms) bucket_size h' in
    if r.1 then (r.0, meta' ∷ m ∷ ms, h') else (p, meta' ∷ ms', h'')

-- The first metadata page of a bucket.
unfoldable pub first_page : (ℕ → Metadata) → List Metadata → Heap → List Metadata × Heap
unfolding take_page
first_page headers [] h =
    let (page, h') = take_page h in if page == 0 then ([], h') else (headers page ∷ [], h')
first_page headers (meta ∷ ms) h = (meta ∷ ms, h)

-- alloc_mem for the sizes of the buckets; larger ones go to the page allocator. `none` is a failed
-- assertion.
unfoldable pub alloc_mem : (ℕ → ℕ) → (ℕ → Metadata) → ℕ → Heap → Option (ℕ × Heap)
unfolding size2bucket first_page alloc_pages take_page
alloc_mem clz headers size h =
    if size == 0
    then some (0, h)
    else (if ltb 2048 size then some (take_page h) else elim (size2bucket clz size) [
      | none ↦ none
      | some index ↦
          let (ms, h') = first_page headers (get_or h.buckets index []) h in
          let (p, ms', h'') = alloc_pages headers ms (get_or tiny_buckets index 0) h' in
          some (p, record h'' { buckets = set h''.buckets index ms' })
    ])

-- The chunk keeps its list also where its page is released.
unfoldable pub free_chunk : ChunkPtr → ℕ → ℕ → Heap → ChunkPtr × Heap
unfolding write align
free_chunk c ptr size h =
    if c.bytes_used == size
    then (
      record { bytes_used = 0; list = c.list },
      record h { released = align c.list page_size ∷ h.released },
    )
    else (
      record { bytes_used = c.bytes_used - size; list = ptr },
      record h { next = write h.next ptr c.list },
    )

-- The inner loop of free_mem.
unfoldable pub free_in : Metadata → ℕ → ℕ → Heap → Bool × Metadata × Heap
unfolding free_chunk align
free_in [] ptr size h = (false, [], h)
free_in (c ∷ cs) ptr size h = elim (align ptr page_size == align c.list page_size) [
  | true ↦ let (c', h') = free_chunk c ptr size h in (true, c' ∷ cs, h')
  | false ↦ let (done, cs', h') = free_in cs ptr size h in (done, c ∷ cs', h')
]

-- The outer loop.
unfoldable pub free_pages : List Metadata → ℕ → ℕ → Heap → Bool × List Metadata × Heap
unfolding free_in
free_pages [] ptr size h = (false, [], h)
free_pages (m ∷ ms) ptr size h =
    let (done, m', h') = free_in m ptr size h in
    elim done [
      | true ↦ (true, m' ∷ ms, h')
      | false ↦ let (later, ms', h'') = free_pages ms ptr size h' in (later, m' ∷ ms', h'')
    ]

-- Whether a place for the block was found, and the heap.
unfoldable pub free_mem : (ℕ → ℕ) → ℕ → ℕ → Heap → Option (Bool × Heap)
unfolding size2bucket free_pages
free_mem clz ptr size h =
    if (ptr == 0) || (size == 0)
    then some (false, h)
    else (if ltb 2048 size
        then some (true, record h { released = ptr ∷ h.released })
        else elim (size2bucket clz size) [
          | none ↦ none
          | some index ↦
              let (done, ms, h') =
                free_pages (get_or h.buckets index []) ptr (get_or tiny_buckets index 0) h in
              some (done, record h' { buckets = set h'.buckets index ms })
        ])
