-- ===== src/Pmm/GiveBack.antt =====
-- page_dealloc after page_alloc: a block that is given back.
use gloxor.Base.{
  ℕ, ◌+◌, ◌-◌, ◌*◌, ◌%◌, ◌^◌, ◌≤◌, ◌<◌, ◌≡◌, ◌≢◌, sym, ap, ◌∙◌, inl, inr, [], ◌∷◌, false, ltb, ◌==◌,
  arith, length, Bool-cases,
}
use gloxor.Pmm.{
  Pmm, null, chunk_size, page_alloc, page_dealloc, pmm_add_chunk, to_virt, physical_mem_base,
}
use gloxor.Pmm.Spec.{
  Ranges, Sorted, Apart, covers, first_fit, insert_range, last_base, first_fit-covers,
  insert_range-covers,
}
use gloxor.Pmm.Chain.{Chain, IsValid, Returns}
use gloxor.Pmm.Append.{last_base-le}
use gloxor.Pmm.Alloc.{page_alloc-first_fit}
use gloxor.Pmm.Add.{pmm_add_chunk-insert_range}

-- A block that ends below some ranges meets none of them, and does not end where the last begins.
Apart-below : (c k lo : ℕ) (r : Ranges) → Sorted lo r → c + k ≤ lo → Apart c k r
Apart-below c k lo [] s h = tt
Apart-below c k lo ((a, n) ∷ r) s h =
    (inl (omega arith), Apart-below c k (a + n) r s.3 (omega arith))

ne-last_base_below : (e d : ℕ) (r : Ranges) → Sorted e r → d < e → e ≢ last_base d r
ne-last_base_below e d [] s h = omega arith
ne-last_base_below e d ((a, n) ∷ r) s h = omega (arith, last_base-le d e a n r s)

-- How first fit's block lies to the ranges that it leaves.
record Freed (k lo d p : ℕ) (ys : Ranges) : Type 0 where
  above : lo < p
  top : p + k < 2 ^ 64
  apart : Apart p k ys
  ne_last : p + k ≢ last_base d ys

first_fit-Freed :
    (k lo d : ℕ) (xs : Ranges)
    → 0 < k
    → d ≤ lo
    → Sorted lo xs
    → 0 < (first_fit k xs).0
    → Freed k lo d (first_fit k xs).0 (first_fit k xs).1
unfolding first_fit
first_fit-Freed k lo d [] pos le s h = absurd (omega arith)
first_fit-Freed k lo d ((a, n) ∷ r) pos le s h = elim (Bool-cases (ltb n k)) [
  | inl small ↦
      let found : 0 < (first_fit k r).0 = (rw small at h) in
      let rest = first_fit-Freed k (a + n) a r pos (omega arith) s.3 found in
      rw small (record {
        above = omega (arith, rest.above);
        top = rest.top;
        apart = (inr (omega (arith, rest.above)), rest.apart);
        ne_last = rest.ne_last;
      })
  | inr large ↦ elim (Bool-cases (n == k)) [
    | inl same ↦
        let e : n ≡ k = ground (arith, same) in
        let e' : a + k ≡ a + n = omega (arith, e) in
        rw (large, same)
          (record {
            above = omega arith;
            top = omega (arith, e);
            apart = Apart-below a k (a + n) r s.3 (omega (arith, e));
            ne_last = rw e' (ne-last_base_below (a + n) d r s.3 (omega arith));
          })
    | inr other ↦
        let more : k < n = ground (arith, large, other) in
        let e : a + (n - k) + k ≡ a + n = omega (arith, more) in
        rw (large, other)
          (record {
            above = omega arith;
            top = omega (arith, more);
            apart = (
              inr (omega arith),
              Apart-below (a + (n - k)) k (a + n) r s.3 (omega (arith, more)),
            );
            ne_last = rw e (ne-last_base_below (a + n) a r s.3 (omega arith));
          })
  ]
]

length-first_fit : (k : ℕ) (xs : Ranges) → length (first_fit k xs).1 ≤ length xs
unfolding first_fit
length-first_fit k [] = omega arith
length-first_fit k ((a, n) ∷ r) = ground (arith, length-first_fit k r)

-- A block that lies above the front leaves the front.
front-first_fit :
    (k : ℕ) (xs : Ranges) (s s' : Pmm)
    → IsValid s xs
    → IsValid s' (first_fit k xs).1
    → s.front < (first_fit k xs).0
    → s'.front ≡ s.front
unfolding first_fit
front-first_fit k [] s s' v w h = absurd (omega arith)
front-first_fit k ((a, n) ∷ r) s s' v w h = elim (Bool-cases (ltb n k)) [
  | inl small ↦
      let chain = w.chain in
      let chain' : Chain s'.mem null s'.front ((a, n) ∷ (first_fit k r).1) = (rw small at chain) in
      chain'.0 ∙ sym v.chain.0
  | inr large ↦ elim (Bool-cases (n == k)) [
    | inl same ↦
        let h' : s.front < a = (rw (large, same) at h) in absurd (omega (arith, h', v.chain.0))
    | inr other ↦
        let chain = w.chain in
        let chain' : Chain s'.mem null s'.front ((a, n - k) ∷ r) = (rw (large, other) at chain) in
        chain'.0 ∙ sym v.chain.0
  ]
]

to_virt-mapped : (a : ℕ) → physical_mem_base ≤ a → to_virt a ≡ a
unfolding to_virt
to_virt-mapped a h = ground arith

-- On a represented list, for a page count above 0 whose size fits 64 bits, with more fuel than chunks,
-- and where first fit finds a block that lies above the front and in the mapping of the physical memory:
-- page_alloc and then page_dealloc of its block end with no fault, and the free addresses are those from
-- before.
pub page_dealloc-page_alloc :
    (fuel pages : ℕ) (s : Pmm) (xs : Ranges)
    → IsValid s xs
    → 0 < pages
    → pages * chunk_size < 2 ^ 64
    → length xs < fuel
    → s.front < (first_fit (pages * chunk_size) xs).0
    → physical_mem_base ≤ (first_fit (pages * chunk_size) xs).0
    → Returns (page_alloc fuel pages s) (λ (p, s').
      Returns
        (page_dealloc fuel p pages s')
        (λ s''. (zs : Ranges) × IsValid s'' zs × ((q : ℕ) → covers q zs ≡ covers q xs)))
unfolding page_dealloc
page_dealloc-page_alloc fuel pages s xs v pos small enough front mapped =
    let k = pages * chunk_size in
    let base = (first_fit k xs).0 in
    let ys = (first_fit k xs).1 in
    let ((p, s'), run, (addr, w)) = page_alloc-first_fit fuel pages s xs v pos small enough in
    let freed =
      first_fit-Freed k 0 0 xs (omega arith) (omega arith) v.sorted (omega (arith, front)) in
    let virt : to_virt base ≡ base = to_virt-mapped base mapped in
    let size : (chunk_size * pages) % 2 ^ 64 ≡ k = omega (arith, small) in
    let some_block : (p == null) ≡ false = ground (arith, addr, freed.above) in
    let below : s'.front < to_virt base =
      omega (arith, front-first_fit k xs s s' v w front, front, virt) in
    let last : to_virt base + k ≢ s'.back = rw (virt, w.last) freed.ne_last in
    let (s'', given, valid) =
      pmm_add_chunk-insert_range fuel base k s' ys w (omega arith) (omega arith) (rw virt freed.top)
        (rw virt freed.apart) below last (omega (arith, length-first_fit k xs, enough)) in
    let here : page_dealloc fuel p pages s' ≡ pmm_add_chunk fuel base k s' =
      rw (some_block, size) (ap (λ a. pmm_add_chunk fuel a k s') addr) in
    (
      (p, s'),
      run,
      (
        s'',
        here ∙ given,
        (
          insert_range (to_virt base) k ys,
          valid,
          λ q.
              rw virt (insert_range-covers base k 0 q ys w.sorted freed.apart)
              ∙ sym (first_fit-covers k 0 q xs (omega arith) v.sorted (omega (arith, front))).0,
        ),
      ),
    )
