-- ===== src/Pmm/Add.antt =====
-- `pmm_add_chunk` of kernel/memory/pmm.cpp on a represented free list, for a chunk that does not
-- lie in front of the list.
use gloxor.Base.{
  ℕ, zero, suc, ◌+◌, ◌%◌, ◌^◌, ◌<◌, ◌≡◌, refl, inl, inr, [], ◌∷◌, arith, true, false, ltb, ◌==◌,
  Bool-cases, length, ◌≢◌, ◌∙◌, sym,
}
use gloxor.Pmm.{
  Ptr, null, Pmm, update, chunk_size, to_virt, insert_chunk, insert_loop, link_chunk, pmm_add_chunk,
}
use gloxor.Pmm.Spec.{Ranges, insert_range, insert_range-Sorted, Apart, last_base}
use gloxor.Pmm.Chain.{Chain, IsValid, Returns}
use gloxor.Pmm.Writes.{backed, set_prev-ok}
use gloxor.Pmm.Loop.{insert_loop-Inserted}
use gloxor.Pmm.Append.{
  headed, write_header-ok, headed-Chain, append-Chain, appended, ne-last_base, appended-below,
  appended-front, append_chunk-ok, append-last, next-last, size-last, last_base-le,
  last_base-insert_range,
}

-- Into an empty list.
add_empty :
    (fuel c k : ℕ) (s : Pmm)
    → 0 < c
    → 0 < k
    → c + k < 2 ^ 64
    → IsValid s []
    → Returns (link_chunk fuel c k (headed s c k)) (λ s'. IsValid s' ((c, k) ∷ []))
unfolding link_chunk
add_empty fuel c k s pos posk top v =
    let t : (s.front == null) ≡ true = ground (arith, v.chain) in
    (
      record (headed s c k) { mem = backed (headed s c k).mem c null; front = c; back = c },
      rw (t, set_prev-ok c null _ pos) refl,
      record {
        chain = unfold update in (refl, ground arith, ground arith, ground arith);
        sorted = (pos, posk, top, tt);
        last = refl;
      },
    )

module _ (fuel c k a n : ℕ) (r : Ranges) (s : Pmm) (v : IsValid s ((a, n) ∷ r)) (posk : 0 < k)
    (top : c + k < 2 ^ 64) (apart : Apart c k ((a, n) ∷ r)) (lt : a < c) where
  chain' : Chain (headed s c k).mem null s.front ((a, n) ∷ r)
  chain' = headed-Chain s c k ((a, n) ∷ r) posk v apart

  header : ((headed s c k).mem c).size ≡ k
  unfolding update
  header = ground arith

  header_next : ((headed s c k).mem c).next ≡ null
  unfolding update
  header_next = ground arith

  nonempty : (s.front == null) ≡ false
  nonempty = ground (arith, v.chain, v.sorted)

  add_behind :
      s.back < c
      → Returns
          (link_chunk fuel c k (headed s c k))
          (λ s'. IsValid s' (insert_range c k ((a, n) ∷ r)))
  unfolding link_chunk
  add_behind h =
      let h' : ltb s.back c ≡ true = ground arith in
      let s₁ = headed s c k in
      let b = last_base a r in
      let bound : b < c = rw (← v.last) h in
      let posb : 0 < s.back =
        rw v.last (omega (arith, v.sorted, last_base-le 0 0 a n r v.sorted)) in
      let size = size-last s₁.mem c k 0 null s.front a n r posk bound v.sorted apart chain' in
      let next = next-last s₁.mem 0 null s.front a n r chain' in
      let (chain, last) =
        append-Chain s₁.mem (appended s₁ c k).mem c k 0 0 null s.front a n b (appended s₁ c k).back
          r v.sorted chain' refl bound posk apart
          (λ q below. appended-below s₁ c k q h (rw v.last below))
          (λ d l pr le size back.
            append-last s₁ b c k l d pr v.last posk bound le size back next header header_next) in
      (
        appended s₁ c k,
        rw (nonempty, h', append_chunk-ok c k s₁ posb h (rw v.last size) top) refl,
        record {
          chain = rw appended-front chain;
          sorted = insert_range-Sorted c k 0 ((a, n) ∷ r) (omega arith) posk top v.sorted apart;
          last = sym last;
        },
      )

  -- The loop from the front, whose address the state holds under another name.
  loop_from :
      (p : Ptr)
      → p ≡ a
      → c < last_base a r
      → c + k ≢ last_base a r
      → length r < fuel
      → Returns (insert_loop (suc fuel) p c k (headed s c k)) (λ s'.
        Chain s'.mem null p (insert_range c k ((a, n) ∷ r))
        × (s'.front ≡ s.front)
        × (s'.back ≡ s.back))
  loop_from p e before ne enough =
      let here : Chain (headed s c k).mem null a ((a, n) ∷ r) =
        (refl, chain'.1, chain'.2, chain'.3) in
      let (s', run, done) =
        insert_loop-Inserted fuel c k 0 null a n r (headed s c k) posk lt before ne v.sorted apart
          here header enough in
      rw e (s', run, (done.chain, done.front, done.back))

  add_inside :
      c < s.back
      → c + k ≢ s.back
      → length r < fuel
      → Returns
          (link_chunk (suc fuel) c k (headed s c k))
          (λ s'. IsValid s' (insert_range c k ((a, n) ∷ r)))
  unfolding link_chunk insert_chunk
  add_inside before ne enough =
      let behind : ltb s.back c ≡ false = ground arith in
      let above : ltb c s.front ≡ false = ground (arith, v.chain) in
      let before' : c < last_base a r = rw (← v.last) before in
      let ne' : c + k ≢ last_base a r = rw (← v.last) ne in
      let (s', run, (chain, front, back)) = loop_from s.front v.chain.0 before' ne' enough in
      (
        s',
        rw (nonempty, behind, above) run,
        record {
          chain = rw front chain;
          sorted = insert_range-Sorted c k 0 ((a, n) ∷ r) (omega arith) posk top v.sorted apart;
          last =
              back
              ∙ v.last
              ∙ sym (last_base-insert_range c k 0 a n 0 r lt before' ne' v.sorted apart);
        },
      )

-- A chunk of whole pages within 64 bits, above the front of a represented list, that meets none of
-- its chunks and does not end where the last one begins, is put in its place: the call ends with no
-- fault, given more fuel than chunks, and the list is represented again with the range inserted and
-- joined with its neighbours.
pub pmm_add_chunk-insert_range :
    (fuel base k : ℕ) (s : Pmm) (xs : Ranges)
    → IsValid s xs
    → 0 < k
    → k % chunk_size ≡ 0
    → to_virt base + k < 2 ^ 64
    → Apart (to_virt base) k xs
    → s.front < to_virt base
    → to_virt base + k ≢ s.back
    → length xs < fuel
    → Returns (pmm_add_chunk fuel base k s) (λ s'. IsValid s' (insert_range (to_virt base) k xs))
unfolding pmm_add_chunk
pmm_add_chunk-insert_range fuel base k s xs v pos whole top apart front ne enough =
    let header = write_header-ok (to_virt base) k s (omega arith) in
    rw (whole, header) (link fuel xs v apart enough)
  where
    link :
        (fuel : ℕ) (xs : Ranges)
        → IsValid s xs
        → Apart (to_virt base) k xs
        → length xs < fuel
        → Returns
            (link_chunk fuel (to_virt base) k (headed s (to_virt base) k))
            (λ s'. IsValid s' (insert_range (to_virt base) k xs))
    link zero xs v apart enough = absurd (omega arith)
    link (suc f) [] v apart enough =
        unfold insert_range in (add_empty (suc f) (to_virt base) k s (omega arith) pos top v)
    link (suc f) ((a, n) ∷ r) v apart enough = elim (Bool-cases (ltb s.back (to_virt base))) [
      | inl h ↦
          add_behind (suc f) (to_virt base) k a n r s v pos top apart (ground (arith, v.chain))
            (ground arith)
      | inr h ↦
          let other : s.back ≢ to_virt base =
            rw v.last (ne-last_base (to_virt base) k 0 a n r pos v.sorted apart) in
          let inside : to_virt base < s.back = ground arith in
          add_inside f (to_virt base) k a n r s v pos top apart (ground (arith, v.chain)) inside ne
            (omega arith)
    ]
