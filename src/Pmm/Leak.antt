-- ===== src/Pmm/Leak.antt =====
-- `prepend_chunk` of llallocator.cppm leaves the `prev` pointer of the old front as it was: null. An
-- allocation that takes the whole of that chunk then drops everything in front of it.
use gloxor.Base.{
  ℕ, suc, ◌+◌, ◌*◌, ◌%◌, ◌^◌, ◌<◌, ◌≡◌, refl, ◌∷◌, arith, true, false, ltb, ◌==◌, ◌∙◌,
}
use gloxor.Pmm.{
  alloc_from_chunk, Ptr, null, Pmm, ok, update, add64, chunk_size, to_virt, link_chunk,
  prepend_chunk, pmm_add_chunk, page_alloc, alloc_loop, carve, ◌>>=◌,
}
use gloxor.Pmm.Spec.{Ranges, Sorted-weaken}
use gloxor.Pmm.Chain.{Chain, Chain-frame, IsValid, Returns}
use gloxor.Pmm.Alloc.{carve_whole}
use gloxor.Pmm.Writes.{backed, nexted, set_prev-ok, set_next-ok, load-ok}
use gloxor.Pmm.Append.{headed, write_header-ok, last_base-le}

-- The state after a chunk has been put in front without a join.
abbrev prepended : Pmm → Ptr → Pmm
prepended s c = record s { mem = backed (nexted s.mem c s.front) c null; front = c }

prepend_chunk-ok :
    (c k : ℕ) (s : Pmm)
    → 0 < c
    → c + k < s.front
    → s.front < 2 ^ 64
    → prepend_chunk c k s ≡ ok (prepended s c)
unfolding prepend_chunk
prepend_chunk-ok c k s pos lt top =
    let apart : (add64 c k == s.front) ≡ false = ground arith in
    rw (apart, set_next-ok c s.front s pos, set_prev-ok c null _ pos) refl

-- What holds of the state then: the node of `c` leads to the old list, whose first node has no `prev`.
record Hidden (c k a n : ℕ) (r : Ranges) (s : Pmm) : Type 0 where
  front : s.front ≡ c
  size : (s.mem c).size ≡ k
  next : (s.mem c).next ≡ a
  chain : Chain s.mem null a ((a, n) ∷ r)

prepended-Hidden :
    (s : Pmm) (c k a n : ℕ) (r : Ranges)
    → IsValid s ((a, n) ∷ r)
    → c < a
    → Hidden c k a n r (prepended (headed s c k) c)
unfolding update
prepended-Hidden s c k a n r v lt = record {
  front = refl;
  size = ground arith;
  next = ground (arith, v.chain);
  chain = tail;
}
  where
    s' : Pmm
    s' = prepended (headed s c k) c

    tail : Chain s'.mem null a ((a, n) ∷ r)
    tail =
        Chain-frame s.mem s'.mem c null a ((a, n) ∷ r) (lt, v.sorted.1, v.sorted.2, v.sorted.3)
          (λ q h. ground arith) (refl, v.chain.1, v.chain.2, v.chain.3)

add-prepended :
    (fuel base k a n : ℕ) (r : Ranges) (s : Pmm)
    → IsValid s ((a, n) ∷ r)
    → k % chunk_size ≡ 0
    → 0 < to_virt base
    → to_virt base + k < a
    → pmm_add_chunk fuel base k s ≡ ok (prepended (headed s (to_virt base) k) (to_virt base))
unfolding pmm_add_chunk link_chunk
add-prepended fuel base k a n r s v whole posc lt =
    let c = to_virt base in
    let last = last_base-le 0 0 a n r v.sorted in
    let nonempty : (s.front == null) ≡ false = ground (arith, v.chain, v.sorted) in
    let behind : ltb s.back c ≡ false = rw v.last (ground (arith, last)) in
    let above : ltb c s.front ≡ true = ground (arith, v.chain) in
    rw
      (
        whole,
        write_header-ok c k s posc,
        nonempty,
        behind,
        above,
        prepend_chunk-ok c k (headed s c k) posc (rw v.chain.0 lt)
            (rw v.chain.0 (omega (arith, v.sorted))),
      )
      refl

-- The search passes the new chunk and stops at the old front.
alloc_loop-Hidden :
    (fuel c k a n : ℕ) (r : Ranges) (s : Pmm)
    → Hidden c k a n r s
    → 0 < c
    → 0 < a
    → k < n
    → alloc_loop (suc (suc fuel)) n s.front s ≡ carve a n s
unfolding alloc_loop
alloc_loop-Hidden fuel c k a n r s h posc posa small =
    ground (arith, h.front, h.size, h.next, h.chain.1, load-ok c s posc, load-ok a s posa)

page_alloc-loop :
    (fuel pages : ℕ) (s : Pmm)
    → page_alloc fuel pages s ≡ alloc_loop fuel ((chunk_size * pages) % 2 ^ 64) s.front s
unfolding page_alloc alloc_from_chunk
page_alloc-loop fuel pages s = refl

page_alloc-Hidden :
    (fuel c k a n pages : ℕ) (r : Ranges) (s : Pmm)
    → Hidden c k a n r s
    → 0 < c
    → 0 < a
    → k < n
    → n ≡ pages * chunk_size
    → n < 2 ^ 64
    → page_alloc (suc (suc fuel)) pages s ≡ carve a n s
page_alloc-Hidden fuel c k a n pages r s h posc posa small exact top =
    let size : (chunk_size * pages) % 2 ^ 64 ≡ n = omega arith in
    rw (page_alloc-loop (suc (suc fuel)) pages s, size)
      (alloc_loop-Hidden fuel c k a n r s h posc posa small)

-- A chunk of whole pages in front of a represented list, that does not touch it and is smaller than
-- the old front chunk, is lost by the allocation of exactly that front chunk: the allocation skips
-- the new chunk, which is too small, and afterwards the list holds neither of the two.
pub page_alloc-leaks :
    (fuel base k pages a n : ℕ) (r : Ranges) (s : Pmm)
    → IsValid s ((a, n) ∷ r)
    → 0 < k
    → k % chunk_size ≡ 0
    → 0 < to_virt base
    → to_virt base + k < a
    → k < n
    → n ≡ pages * chunk_size
    → Returns
        (pmm_add_chunk fuel base k s >>= page_alloc (suc (suc fuel)) pages)
        (λ (p, s'). (p ≡ a) × IsValid s' r)
page_alloc-leaks fuel base k pages a n r s v pos whole posc lt small exact =
    let c = to_virt base in
    let s' = prepended (headed s c k) c in
    let h = prepended-Hidden s c k a n r v (omega arith) in
    let (out, run, (addr, rest)) =
      carve_whole s' n null a n r (omega (arith, v.sorted)) (omega arith) (omega (arith, v.sorted))
        v.sorted.2 h.chain v.sorted.3 refl in
    (
      out,
      rw (add-prepended fuel base k a n r s v whole posc lt) (
          page_alloc-Hidden fuel c k a n pages r s' h posc (omega (arith, v.sorted)) small exact
            (omega (arith, v.sorted))
          ∙ run),
      (
        addr,
        record {
          chain = rest.chain;
          sorted = Sorted-weaken (a + n) 0 r (omega arith) v.sorted.3;
          last = rest.last v.last;
        },
      ),
    )
