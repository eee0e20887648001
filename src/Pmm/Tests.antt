-- ===== src/Pmm/Tests.antt =====
-- Two free chunks at the higher half of the address space, runs of pmm.cpp on them, and the
-- theorems at these inputs.
use gloxor.Base.{
  ℕ, ◌*◌, ◌<◌, ◌≤◌, ◌≡◌, refl, inl, inr, [], ◌∷◌, arith, false, ◌==◌, if◌then◌else◌, ◌||◌, ◌&&◌,
}
use gloxor.Pmm.{
  Ptr, null, Pmm, null_deref, chunk_size, physical_mem_base, ◌>>=◌, to_virt, page_alloc,
  page_dealloc, pmm_add_chunk,
}
use gloxor.Pmm.Spec.{Ranges, Sorted, covers, within, first_fit, insert_range}
use gloxor.Pmm.Chain.{IsValid, Returns}
use gloxor.Pmm.GiveBack.{page_dealloc-page_alloc}
use gloxor.Pmm.Covers.{page_alloc-covers, pmm_add_chunk-covers}
use gloxor.Pmm.Alloc.{page_alloc-first_fit}
use gloxor.Pmm.Add.{pmm_add_chunk-insert_range}
use gloxor.Pmm.Faults.{pmm_add_chunk-faults}
use gloxor.Pmm.Leak.{page_alloc-leaks}

abbrev low : Ptr
low = 0xffff800000010000

abbrev high : Ptr
high = 0xffff800000020000

abbrev two_ranges : Ranges
two_ranges = (low, 0x2000) ∷ (high, 0x3000) ∷ []

abbrev two_chunks : Pmm
two_chunks = record {
  mem = λ q.
      if q == low
      then record { size = 0x2000; prev = null; next = high }
      else if q == high
      then record { size = 0x3000; prev = low; next = null }
      else record { size = 0; prev = null; next = null };
  front = low;
  back = high;
  memory_size = 0x5000;
}

two_ranges-Sorted : Sorted 0 two_ranges
two_ranges-Sorted =
    (omega arith, omega arith, omega arith, (omega arith, omega arith, omega arith, tt))

two_chunks-IsValid : IsValid two_chunks two_ranges
two_chunks-IsValid = record {
  chain = (refl, refl, refl, (refl, refl, refl, refl));
  sorted = two_ranges-Sorted;
  last = refl;
}

page_alloc-first_fit_example :
    Returns (page_alloc 3 3 two_chunks) (λ (p, s').
      (p ≡ (first_fit 0x3000 two_ranges).0) × IsValid s' (first_fit 0x3000 two_ranges).1)
page_alloc-first_fit_example =
    page_alloc-first_fit 3 3 two_chunks two_ranges two_chunks-IsValid (omega arith) (omega arith)
      (omega arith)

page_alloc-covers_run : Returns (page_alloc 3 3 two_chunks) (λ (p, s').
    (ys : Ranges) × IsValid s' ys
    × (0 < p
        → (q : ℕ)
        → (covers q two_ranges ≡ (within q p (3 * chunk_size) || covers q ys))
          × ((within q p (3 * chunk_size) && covers q ys) ≡ false)))
page_alloc-covers_run =
    page_alloc-covers 3 3 two_chunks two_ranges two_chunks-IsValid (omega arith) (omega arith)
      (omega arith)

above_front : two_chunks.front < (first_fit 0x3000 two_ranges).0
unfolding first_fit
above_front = omega arith

in_mapping : physical_mem_base ≤ (first_fit 0x3000 two_ranges).0
unfolding first_fit
in_mapping = omega arith

page_dealloc-page_alloc_example : Returns (page_alloc 3 3 two_chunks) (λ (p, s').
    Returns
      (page_dealloc 3 p 3 s')
      (λ s''. (zs : Ranges) × IsValid s'' zs × ((q : ℕ) → covers q zs ≡ covers q two_ranges)))
page_dealloc-page_alloc_example =
    page_dealloc-page_alloc 3 3 two_chunks two_ranges two_chunks-IsValid (omega arith) (omega arith)
      (omega arith) above_front in_mapping

pmm_add_chunk-insert_range_example :
    Returns
      (pmm_add_chunk 3 0x12000 0x1000 two_chunks)
      (λ s'. IsValid s' (insert_range (to_virt 0x12000) 0x1000 two_ranges))
unfolding to_virt
pmm_add_chunk-insert_range_example =
    pmm_add_chunk-insert_range 3 0x12000 0x1000 two_chunks two_ranges two_chunks-IsValid
      (omega arith) refl (omega arith) (inr (omega arith), (inl (omega arith), tt)) (omega arith)
      (omega arith) (omega arith)

pmm_add_chunk-covers_run : Returns (pmm_add_chunk 3 0x12000 0x1000 two_chunks) (λ s'.
    (ys : Ranges) × IsValid s' ys
    × ((q : ℕ) → covers q ys ≡ (within q (to_virt 0x12000) 0x1000 || covers q two_ranges)))
unfolding to_virt
pmm_add_chunk-covers_run =
    pmm_add_chunk-covers 3 0x12000 0x1000 two_chunks two_ranges two_chunks-IsValid (omega arith)
      refl (omega arith) (inr (omega arith), (inl (omega arith), tt)) (omega arith) (omega arith)
      (omega arith)

pmm_add_chunk-faults_example : pmm_add_chunk 3 0x1f000 0x1000 two_chunks ≡ null_deref
unfolding to_virt
pmm_add_chunk-faults_example =
    pmm_add_chunk-faults 2 0x1f000 0x1000 low 0x2000 ((high, 0x3000) ∷ []) two_chunks
      two_chunks-IsValid (omega arith) refl (omega arith) refl
      (inr (omega arith), (inl (omega arith), tt)) (omega arith)

page_alloc-leaks_example :
    Returns
      (pmm_add_chunk 5 0x1000 0x1000 two_chunks >>= page_alloc 7 2)
      (λ (p, s'). (p ≡ low) × IsValid s' ((high, 0x3000) ∷ []))
unfolding to_virt
page_alloc-leaks_example =
    page_alloc-leaks 5 0x1000 0x1000 2 low 0x2000 ((high, 0x3000) ∷ []) two_chunks
      two_chunks-IsValid (omega arith) refl (omega arith) (omega arith) (omega arith) (omega arith)
