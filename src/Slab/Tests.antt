-- ===== src/Slab/Tests.antt =====
-- Runs of the slab allocator, and its properties at concrete chunks.
use gloxor.Base.{
  ℕ, ◌+◌, ◌-◌, ◌*◌, ◌^◌, ◌≤◌, ◌<◌, ◌≡◌, ◌⊎◌, refl, [], ◌∷◌, some, Bool, true, get_or, arith,
}
use gloxor.Math.Zeros.{leading_zeros, leading_zeros-IsClz}
use gloxor.Slab.{
  page_size, tiny_buckets, ChunkPtr, Metadata, Heap, size2bucket, is_full, take_page, ready,
  take_block, init_chunk, alloc_from_chunk, alloc_pages, free_chunk,
}
use gloxor.Slab.Buckets.{size2bucket-fits}
use gloxor.Slab.Chunks.{init_chunk-links, free_chunk-wrong_page, alloc_last-null}

abbrev two_pages : Heap
two_pages = record { buckets = []; next = λ q. 7; pages = 8192 ∷ 16384 ∷ []; released = [] }

abbrev unused : ChunkPtr
unused = record { bytes_used = 0; list = 0 }

abbrev full : ChunkPtr
full = record { bytes_used = 4096; list = 12288 }

alloc_run : (alloc_from_chunk (unused ∷ []) 1024 two_pages).0 ≡ (8192, true)
unfolding alloc_from_chunk ready take_block is_full init_chunk take_page
alloc_run = refl

init_chunk-links_run :
    let r : (ChunkPtr × Bool) × Heap = init_chunk unused 1024 two_pages in
    (r.0 ≡ (record { bytes_used = 0; list = 8192 }, true))
    × (r.1.pages ≡ 16384 ∷ [])
    × ((k : ℕ) → k < 4 → r.1.next (8192 + k * 1024) ≡ 8192 + (k + 1) * 1024)
    × (r.1.next (8192 + page_size) ≡ 0)
    × ((q : ℕ) → q < 8192 → r.1.next q ≡ 7)
init_chunk-links_run =
    init_chunk-links unused 1024 4 8192 (16384 ∷ []) two_pages (omega arith) refl (omega arith) refl

-- The chunk of a page at 6 GiB.
abbrev far : ChunkPtr
far = record { bytes_used = 64; list = 6442450944 }

free_chunk-wrong_page_run :
    let freed : ChunkPtr × Heap = free_chunk far 6442451008 64 two_pages in
    (page : ℕ) × (freed.1.released ≡ page ∷ [])
    × (page < 2 ^ 32)
    × ((alloc_from_chunk (freed.0 ∷ []) 64 freed.1).0 ≡ (6442450944, true))
free_chunk-wrong_page_run = free_chunk-wrong_page far 6442451008 64 [] two_pages refl (omega arith)

abbrev zeroed : ℕ → Metadata
zeroed page = unused ∷ []

alloc_last-null_run :
    alloc_pages zeroed ((full ∷ []) ∷ []) 64 two_pages
    ≡ (0, (full ∷ []) ∷ (unused ∷ []) ∷ [], record two_pages { pages = 16384 ∷ [] })
alloc_last-null_run =
    alloc_last-null zeroed (full ∷ []) 64 8192 (16384 ∷ []) two_pages (omega arith) refl
      (omega arith)

size2bucket_run : size2bucket (leading_zeros 64) 100 ≡ some 3
unfolding size2bucket
size2bucket_run = refl

size2bucket-fits_run :
    (j : ℕ) × (size2bucket (leading_zeros 64) 100 ≡ some j)
    × (j < 8)
    × (100 ≤ get_or tiny_buckets j 0)
    × ((j ≡ 0) ⊎ (get_or tiny_buckets (j - 1) 0 < 100))
size2bucket-fits_run = size2bucket-fits (leading_zeros-IsClz 64) 100 (omega arith) (omega arith)
