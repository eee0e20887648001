-- ===== src/HeapAlloc/Sweep.antt =====
-- collect_and_sweep of libraries/libglox/include/glox/heap_alloc.hpp, and large blocks: what alloc
-- hands out of a page that is given back, and a header that is not found again.
use gloxor.Base.{
  ℕ, ◌+◌, ◌-◌, ◌%◌, ◌<◌, ◌≡◌, ◌≢◌, refl, ap, ◌∙◌, List, [], ◌∷◌, true, false, ◌==◌, length, arith,
}
use mathlib.Core.List.{append-nil}
use gloxor.Algorithms.{write}
use gloxor.HeapAlloc.{
  State, get_page_header, page_size, align_up, steal_blocks, steal, is_unused, sweep, sweep_pages,
  collect_and_sweep, pop_local, palloc_alloc, slow_from, allocate_slow_path, get_block_size,
  hand_out, small_from, alloc_small, alloc_large,
}

module _ (bucket head page block : ℕ) (others : List ℕ) (s : State)
    (e : s.pages bucket ≡ head ∷ page ∷ []) (l : s.local_free bucket ≡ []) (d : head ≢ page)
    (c : (s.headers head).cross_thread_free ≡ [])
    (x : (s.headers page).cross_thread_free ≡ block ∷ others)
    (u : (s.headers page).used_count ≡ length (block ∷ others))
    (few : length (block ∷ others) < 4294967296) where
  -- After the blocks of the second page are taken.
  stolen : State
  stolen = steal_blocks bucket page s (block ∷ others)

  steal-head : steal bucket head s ≡ s
  unfolding steal steal_blocks
  steal-head = rw c refl

  steal-page : steal bucket page s ≡ stolen
  unfolding steal stolen
  steal-page = rw x refl

  page_unused : is_unused head page stolen ≡ true
  unfolding is_unused stolen steal_blocks write
  page_unused =
      let self : (page == page) ≡ true = ground arith in
      let other : (page == head) ≡ false = ground arith in
      let count : ((s.headers page).used_count + 4294967296 - length (block ∷ others)) % 4294967296
          ≡ 0 =
        omega (arith, u) in
      rw (self, other) (rw count refl)

  head_kept : is_unused head head s ≡ false
  unfolding is_unused
  head_kept = let self : (head == head) ≡ true = ground arith in rw self (ground arith)

  swept :
      sweep bucket head (head ∷ page ∷ []) s
      ≡ (head ∷ [], record stolen { released = (page, page_size) ∷ stolen.released })
  unfolding sweep
  swept = rw (steal-head, head_kept, steal-page, page_unused) refl

  -- The state after the sweep.
  cleared : State
  cleared = sweep_pages bucket s (head ∷ page ∷ [])

  cleared-eq : cleared ≡ record stolen {
    pages = write stolen.pages bucket (head ∷ []);
    released = (page, page_size) ∷ s.released;
  }
  unfolding cleared sweep_pages stolen steal_blocks
  cleared-eq = rw (swept, sweep_pages) refl

  blocks_taken : cleared.local_free bucket ≡ block ∷ others
  unfolding stolen steal_blocks write
  blocks_taken =
      let self : (bucket == bucket) ≡ true = ground arith in
      ap (λ (t : State). t.local_free bucket) cleared-eq
      ∙ rw self (rw l (append-nil (block ∷ others)))

  slow :
      (tid : ℕ) → allocate_slow_path bucket tid s ≡ (block, pop_local bucket block others cleared)
  unfolding allocate_slow_path collect_and_sweep slow_from cleared
  slow tid = rw (e, allocate_slow_path) (ap (λ b. slow_from bucket tid cleared b) blocks_taken)

  handed_out :
      (tid : ℕ)
      → 0 < block
      → alloc_small bucket tid s
        ≡ ((block, get_block_size bucket), pop_local bucket block others cleared)
  unfolding alloc_small small_from hand_out
  handed_out tid pos =
      let some_block : (block == 0) ≡ false = ground arith in
      rw (l, alloc_small) (ap (λ r. hand_out bucket r) (slow tid) ∙ rw (some_block, hand_out) refl)

  -- A bucket with two pages and no local block, where other threads have freed every block in use of
  -- the second page and none of the first: the sweep that alloc starts takes these blocks into the
  -- local list and gives the second page back to the page allocator, and alloc hands out the first of
  -- the blocks, a block of the page that was given back.
  pub alloc_small-released :
      0 < block
      → (tid : ℕ)
      → ((alloc_small bucket tid s).0.0 ≡ block)
        × ((alloc_small bucket tid s).1.released ≡ (page, page_size) ∷ s.released)
  unfolding pop_local
  alloc_small-released pos tid = (
    ap (λ (r : (ℕ × ℕ) × State). r.0.0) (handed_out tid pos),
    ap (λ (r : (ℕ × ℕ) × State). r.1.released) (handed_out tid pos)
        ∙ ap (λ (t : State). t.released) cleared-eq,
  )

page_offset : align_up 56 65536 ≡ 65536
unfolding align_up
page_offset = refl

-- A large block with the alignment of a page, which alloc admits: where the page allocator answers with
-- a page at a multiple of the page size, the block begins a page later, and the header that dealloc,
-- usable_size and grow look up for it is not the one that alloc has written.
pub alloc_large-lost :
    (n tid page : ℕ) (rest : List ℕ) (s : State)
    → s.supply ≡ page ∷ rest
    → 0 < page
    → page % page_size ≡ 0
    → let r : (ℕ × ℕ) × State = alloc_large n page_size tid s in
      ((r.1.headers page).is_large ≡ true) × (get_page_header r.0.0 ≡ page + page_size)
unfolding alloc_large palloc_alloc get_page_header write
alloc_large-lost n tid page rest s e pos aligned =
    let some_page : (page == 0) ≡ false = ground arith in
    let self : (page == page) ≡ true = ground arith in
    let off : align_up 56 65536 ≡ 65536 = page_offset in
    rw (e, some_page, self) (refl, rw off (omega (arith, aligned)))
