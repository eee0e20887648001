-- ===== src/Slab/Chunks.antt =====
-- The chunks of kernel/memory/alloc.cpp: the free list that init_chunk writes, and what becomes of a
-- chunk that is full or empty.
use gloxor.Base.{
  ℕ, zero, suc, ◌+◌, ◌-◌, ◌*◌, ◌%◌, ◌^◌, ◌<◌, ◌≡◌, refl, sym, ap, ◌∙◌, List, [], ◌∷◌, Bool, true,
  false, ltb, ◌==◌, Bool-cases, inl, inr, arith,
}
use native.Mathlib.Nat.{add-mul, mul-le-mul_left}
use gloxor.Base.Bits.{bit_and-le}
use gloxor.Algorithms.{write}
use gloxor.Math.{align, not32}
use gloxor.Slab.{
  page_size, ChunkPtr, is_full, Metadata, Heap, take_page, link_blocks, init_chunk, ready,
  take_block, alloc_from_chunk, alloc_last, alloc_pages, free_chunk,
}

-- Addresses below the blocks that are left keep their links.
link_blocks-below :
    (fuel b i a q : ℕ) (next : ℕ → ℕ) → q < a → link_blocks fuel b i a next q ≡ next q
unfolding link_blocks write
link_blocks-below zero b i a q next h = let other : (q == a) ≡ false = ground arith in rw other refl
link_blocks-below (suc fuel) b i a q next h =
    let other : (q == a) ≡ false = ground arith in
    elim (Bool-cases (ltb i page_size)) [
      | inl more ↦
          rw (more, link_blocks)
            (link_blocks-below fuel b (i + b) (a + b) q (write next a (a + b)) (omega arith)
              ∙ rw other refl)
      | inr done ↦ rw (done, link_blocks) (rw other refl)
    ]

-- Every block of the page links the block behind it, up to the block behind the page.
link_blocks-chain :
    (fuel b i a n k : ℕ) (next : ℕ → ℕ)
    → 0 < b
    → i + n * b ≡ page_size
    → n < fuel
    → k < n
    → link_blocks fuel b i a next (a + k * b) ≡ a + (k + 1) * b
unfolding link_blocks write
link_blocks-chain fuel b i a zero k next pos e f h = absurd (omega arith)
link_blocks-chain zero b i a (suc n) k next pos e f h = absurd (omega arith)
link_blocks-chain (suc fuel) b i a (suc n) zero next pos e f h =
    let more : ltb i page_size ≡ true = ground (arith, add-mul 1 n b) in
    let here : a + 0 * b ≡ a = omega arith in
    let there : a + 1 * b ≡ a + b = omega arith in
    let self : (a == a) ≡ true = ground arith in
    rw (more, link_blocks, here, there)
      (link_blocks-below fuel b (i + b) (a + b) a (write next a (a + b)) (omega arith)
        ∙ rw self refl)
link_blocks-chain (suc fuel) b i a (suc n) (suc k) next pos e f h =
    let more : ltb i page_size ≡ true = ground (arith, add-mul 1 n b) in
    let ih =
      link_blocks-chain fuel b (i + b) (a + b) n k (write next a (a + b)) pos
        (omega (arith, add-mul 1 n b)) (omega arith) (omega arith) in
    let here : a + suc k * b ≡ a + b + k * b = omega (arith, add-mul 1 k b) in
    let there : a + (suc k + 1) * b ≡ a + b + (k + 1) * b = omega (arith, add-mul 1 (k + 1) b) in
    rw (more, link_blocks, here, there) ih

link_blocks-end :
    (fuel b i a n : ℕ) (next : ℕ → ℕ)
    → i + n * b ≡ page_size
    → 0 < b
    → n < fuel
    → link_blocks fuel b i a next (a + n * b) ≡ 0
unfolding link_blocks write
link_blocks-end zero b i a n next e pos f = absurd (omega arith)
link_blocks-end (suc fuel) b i a zero next e pos f =
    let done : ltb i page_size ≡ false = ground arith in
    let self : ((a + 0 * b) == a) ≡ true = ground arith in rw (done, link_blocks) (rw self refl)
link_blocks-end (suc fuel) b i a (suc n) next e pos f =
    let more : ltb i page_size ≡ true = ground (arith, add-mul 1 n b) in
    let here : a + suc n * b ≡ a + b + n * b = omega (arith, add-mul 1 n b) in
    rw (more, link_blocks, here)
      (link_blocks-end fuel b (i + b) (a + b) n (write next a (a + b))
        (omega (arith, add-mul 1 n b)) pos (omega arith))

-- init_chunk with a page at hand and blocks of more than one byte that fill the page exactly: the
-- chunk starts at the page with nothing used, every block links the one behind it, and the last links
-- the address behind the page. There, in memory that is not the chunk's, a null link is written over
-- what stands there.
pub init_chunk-links :
    (c : ChunkPtr) (b n page : ℕ) (ps : List ℕ) (h : Heap)
    → 1 < b
    → n * b ≡ page_size
    → 0 < page
    → h.pages ≡ page ∷ ps
    → let r : (ChunkPtr × Bool) × Heap = init_chunk c b h in
      (r.0 ≡ (record { bytes_used = 0; list = page }, true))
      × (r.1.pages ≡ ps)
      × ((k : ℕ) → k < n → r.1.next (page + k * b) ≡ page + (k + 1) * b)
      × (r.1.next (page + page_size) ≡ 0)
      × ((q : ℕ) → q < page → r.1.next q ≡ h.next q)
unfolding init_chunk take_page
init_chunk-links c b n page ps h wide e pos p =
    let some_page : (page == 0) ≡ false = ground arith in
    let few : n < page_size = omega (arith, e, mul-le-mul_left {m = 2} {n = b} n wide) in
    rw (p, some_page)
      (
        refl,
        refl,
        λ k l.
            link_blocks-chain page_size b 0 page n k h.next (omega arith) (omega (arith, e)) few l,
        ap (λ (d : ℕ). link_blocks page_size b 0 page h.next (page + d)) (sym e)
            ∙ link_blocks-end page_size b 0 page n h.next (omega (arith, e)) (omega arith) few,
        λ q l. link_blocks-below page_size b 0 page q h.next l,
      )

-- align gives back 32 bits.
align-below : (x to : ℕ) → align x to < 2 ^ 32
unfolding align
align-below x to =
    omega (arith, bit_and-le (x % 2 ^ 32) (not32 ((to % 2 ^ 32 + 2 ^ 32 - 1) % 2 ^ 32)))

-- A chunk with a list and nothing used hands out the first block of the list.
unused-hands_out :
    (l b : ℕ) (cs : Metadata) (h : Heap)
    → 0 < l
    → (alloc_from_chunk (record { bytes_used = 0; list = l } ∷ cs) b h).0 ≡ (l, true)
unfolding alloc_from_chunk ready take_block is_full
unused-hands_out l b cs h pos = let some_list : (l == 0) ≡ false = ground arith in rw some_list refl

-- The last block of a chunk whose page lies above 4 GiB is given back: the page that is handed to
-- page_dealloc is not the page of the chunk, nor any page above 4 GiB. The chunk keeps its free list,
-- and the next allocation that asks it hands out the first block of that list, although the chunk was
-- given up.
pub free_chunk-wrong_page :
    (c : ChunkPtr) (ptr b : ℕ) (cs : Metadata) (h : Heap)
    → c.bytes_used ≡ b
    → 0 < c.list
    → let freed : ChunkPtr × Heap = free_chunk c ptr b h in
      (page : ℕ) × (freed.1.released ≡ page ∷ h.released)
      × (page < 2 ^ 32)
      × ((alloc_from_chunk (freed.0 ∷ cs) b freed.1).0 ≡ (c.list, true))
unfolding free_chunk
free_chunk-wrong_page c ptr b cs h e pos =
    let same : (c.bytes_used == b) ≡ true = ground arith in
    (
      align c.list page_size,
      rw same refl,
      align-below c.list page_size,
      rw same (
          unused-hands_out c.list b cs (record h { released = align c.list page_size ∷ h.released })
            pos),
    )

-- A chunk that has a list and no room.
abbrev Exhausted : Metadata → Type 0
Exhausted [] = Unit {0}
Exhausted (c ∷ cs) = (0 < c.list) × (c.bytes_used ≡ page_size) × Exhausted cs

pass_on :
    (later : Heap → (ℕ × Bool) × Metadata × Heap) (c : ChunkPtr) (cs : Metadata) (b : ℕ) (h : Heap)
    → (c.bytes_used == page_size) ≡ true
    → take_block later cs b ((c, true), h) ≡ ((later h).0, c ∷ (later h).1, (later h).2)
unfolding take_block is_full
pass_on later c cs b h full = rw (full, take_block) refl

exhausted_lem :
    (cs : Metadata) (b : ℕ) (h : Heap)
    → Exhausted cs
    → alloc_from_chunk cs b h ≡ ((0, false), cs, h)
unfolding alloc_from_chunk ready take_block is_full
exhausted_lem [] b h e = refl
exhausted_lem (c ∷ cs) b h (l, f, e) =
    let some_list : (c.list == 0) ≡ false = ground arith in
    let full : (c.bytes_used == page_size) ≡ true = ground arith in
    rw some_list (
      pass_on (λ h'. alloc_from_chunk cs b h') c cs b h full
      ∙ ap (λ s. (s.0, c ∷ s.1, s.2)) (exhausted_lem cs b h e))

-- Where every chunk of the last metadata page is full and page_alloc gives another page, that page is
-- linked, but the allocation answers with the null pointer: the full page is asked again.
pub alloc_last-null :
    (headers : ℕ → Metadata) (meta : Metadata) (b page : ℕ) (ps : List ℕ) (h : Heap)
    → Exhausted meta
    → h.pages ≡ page ∷ ps
    → 0 < page
    → alloc_pages headers (meta ∷ []) b h ≡ (0, meta ∷ headers page ∷ [], record h { pages = ps })
unfolding alloc_pages alloc_last take_page
alloc_last-null headers meta b page ps h e p pos =
    let some_page : (page == 0) ≡ false = ground arith in
    rw (exhausted_lem meta b h e, p, some_page, exhausted_lem meta b (record h { pages = ps }) e)
      refl
