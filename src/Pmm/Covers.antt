-- ===== src/Pmm/Covers.antt =====
-- `page_alloc` and `pmm_add_chunk` by the set of free addresses that a free list stands for.
use gloxor.Base.{ℕ, ◌+◌, ◌*◌, ◌%◌, ◌^◌, ◌<◌, ◌≡◌, ◌≢◌, false, ◌&&◌, ◌||◌, arith, length}
use gloxor.Pmm.{Pmm, chunk_size, page_alloc, pmm_add_chunk, to_virt}
use gloxor.Pmm.Spec.{
  Ranges, Apart, covers, within, first_fit, insert_range, first_fit-covers, insert_range-covers,
}
use gloxor.Pmm.Chain.{IsValid, Returns}
use gloxor.Pmm.Alloc.{page_alloc-first_fit}
use gloxor.Pmm.Add.{pmm_add_chunk-insert_range}

-- On a represented free list, for a page count above 0 whose size fits 64 bits, and with more fuel
-- than chunks, `page_alloc` ends with no fault and a represented list. If it returns an address
-- above 0, the free addresses before are those of the block and those free afterwards, and no
-- address is in both.
pub page_alloc-covers :
    (fuel pages : ℕ) (s : Pmm) (xs : Ranges)
    → IsValid s xs
    → 0 < pages
    → pages * chunk_size < 2 ^ 64
    → length xs < fuel
    → Returns (page_alloc fuel pages s) (λ (p, s').
      (ys : Ranges) × IsValid s' ys
      × (0 < p
          → (q : ℕ)
          → (covers q xs ≡ (within q p (pages * chunk_size) || covers q ys))
            × ((within q p (pages * chunk_size) && covers q ys) ≡ false)))
page_alloc-covers fuel pages s xs v pos small enough =
    let k : ℕ = pages * chunk_size in
    let (out, run, (addr, valid)) = page_alloc-first_fit fuel pages s xs v pos small enough in
    (
      out,
      run,
      (
        (first_fit k xs).1,
        valid,
        λ found q. rw addr (first_fit-covers k 0 q xs (omega arith) v.sorted (rw addr at found)),
      ),
    )

-- On a represented list, with more fuel than chunks, for a chunk of whole pages within 64 bits
-- that lies above the front, meets no free chunk and does not end where the last one begins:
-- `pmm_add_chunk` ends with no fault and a represented list whose addresses are those of the new
-- chunk and those that were free before.
pub pmm_add_chunk-covers :
    (fuel base k : ℕ) (s : Pmm) (xs : Ranges)
    → IsValid s xs
    → 0 < k
    → k % chunk_size ≡ 0
    → to_virt base + k < 2 ^ 64
    → Apart (to_virt base) k xs
    → s.front < to_virt base
    → to_virt base + k ≢ s.back
    → length xs < fuel
    → Returns (pmm_add_chunk fuel base k s) (λ s'.
      (ys : Ranges) × IsValid s' ys
      × ((q : ℕ) → covers q ys ≡ (within q (to_virt base) k || covers q xs)))
pmm_add_chunk-covers fuel base k s xs v pos whole top apart front ne enough =
    let (s', run, valid) =
      pmm_add_chunk-insert_range fuel base k s xs v pos whole top apart front ne enough in
    (
      s',
      run,
      (
        insert_range (to_virt base) k xs,
        valid,
        λ q. insert_range-covers (to_virt base) k 0 q xs v.sorted apart,
      ),
    )
