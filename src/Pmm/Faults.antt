-- ===== src/Pmm/Faults.antt =====
-- Two ways in which llallocator.cppm fails on a list that is represented: a chunk that ends where
-- the last chunk begins, and a chunk in front of the list.
use gloxor.Base.{
  ℕ, zero, suc, ◌+◌, ◌%◌, ◌^◌, ◌<◌, ◌≡◌, refl, inl, inr, [], ◌∷◌, arith, true, false, ltb, ◌==◌,
  Bool-cases, length, ◌≢◌, ◌∙◌,
}
use gloxor.Pmm.{
  Ptr, null, Pmm, null_deref, set_prev, add64, chunk_size, to_virt, insert_chunk, insert_loop,
  join_back, insert_before, link_chunk, pmm_add_chunk,
}
use gloxor.Pmm.Spec.{Ranges, Sorted, Apart, last_base}
use gloxor.Pmm.Chain.{Chain, IsValid}
use gloxor.Pmm.Writes.{load-ok, set_size-ok, update_self, update_ne}
use gloxor.Pmm.Loop.{step_join, step_next, step_before}
use gloxor.Pmm.Append.{headed, write_header-ok, headed-Chain, last_base-le}

set_prev-null : (v : Ptr) (s : Pmm) → set_prev null v s ≡ null_deref
unfolding set_prev
set_prev-null v s = refl

join_back-faults :
    (s : Pmm) (a n c k b m : ℕ)
    → 0 < a
    → a < b
    → a + n + k + m < 2 ^ 64
    → (s.mem a).size ≡ n
    → (s.mem a).next ≡ b
    → (s.mem b).size ≡ m
    → (s.mem b).next ≡ null
    → a + (n + k) ≡ b
    → join_back a c k s ≡ null_deref
unfolding join_back
join_back-faults s a n c k b m pos lt top size next size' next' e =
    let sum : add64 n k ≡ n + k = omega arith in
    let sum' : add64 (n + k) m ≡ n + k + m = omega arith in
    let end : (add64 a (n + k) == b) ≡ true = ground arith in
    let far : b ≢ a = omega arith in
    rw
      (
        load-ok a s pos,
        size,
        sum,
        set_size-ok a (n + k) s pos,
        load-ok a _ pos,
        update_self,
        next,
        end,
        load-ok b _ (omega arith),
        update_ne _ a b _ far,
        size',
        next',
        sum',
        set_size-ok a (n + k + m) _ pos,
        set_prev-null,
      )
      refl

insert_before-faults :
    (s : Pmm) (c k b : ℕ)
    → 0 < c
    → c < b
    → c + k < 2 ^ 64
    → (s.mem b).next ≡ null
    → c + k ≡ b
    → insert_before b c k s ≡ null_deref
unfolding insert_before
insert_before-faults s c k b pos lt top next e =
    let end : (add64 c k == b) ≡ true = ground arith in
    let ne_c : b ≢ c = omega arith in
    rw
      (
        end,
        load-ok b s (omega arith),
        load-ok c s pos,
        set_size-ok c _ s pos,
        load-ok b _ (omega arith),
        update_ne _ c b _ ne_c,
        next,
        set_prev-null,
      )
      refl

insert_loop-faults :
    (fuel c k lo prev a n : ℕ) (r : Ranges) (s : Pmm)
    → a < c
    → c < last_base a r
    → c + k ≡ last_base a r
    → Sorted lo ((a, n) ∷ r)
    → Apart c k ((a, n) ∷ r)
    → Chain s.mem prev a ((a, n) ∷ r)
    → length r < fuel
    → insert_loop (suc fuel) a c k s ≡ null_deref
insert_loop-faults zero c k lo prev a n r s lt before e sorted apart chain enough =
    absurd (omega arith)
insert_loop-faults (suc fuel) c k lo prev a n [] s lt before e sorted apart chain enough =
    absurd (omega arith)
insert_loop-faults (suc fuel) c k lo prev a n ((b, m) ∷ []) s lt before e sorted apart chain
      enough =
    elim (Bool-cases (a + n == c)) [
      | inl t ↦
          let e' : a + n ≡ c = ground arith in
          step_join (suc fuel) a c k n b s (omega arith) chain.1 lt e' (omega arith)
          ∙ join_back-faults s a n c k b m (omega arith) (omega arith) (omega arith) chain.1
              chain.3.0 chain.3.1 chain.3.3 (omega arith)
      | inr t ↦
          step_next (suc fuel) a c k n b s (omega arith) chain.1 lt (omega arith) (ground arith)
            chain.3.0
          ∙ step_before fuel b c k s (omega arith)
          ∙ insert_before-faults s c k b (omega arith) (omega arith) (omega arith) chain.3.3 e
    ]
insert_loop-faults (suc fuel) c k lo prev a n ((b, m) ∷ (d, l) ∷ r) s lt before e sorted apart chain
      enough =
    let far = last_base-le b (b + m) d l r sorted.3.3 in
    let up : b < c = ground (arith, far) in
    step_next (suc fuel) a c k n b s (omega arith) chain.1 lt (omega arith) (omega arith) chain.3.0
    ∙ insert_loop-faults fuel c k (a + n) a b m ((d, l) ∷ r) s up before e sorted.3 apart.1
        (refl, chain.3.1, chain.3.2, chain.3.3) (omega arith)

-- A chunk of whole pages above the front of a represented list, that meets none of its chunks and
-- ends exactly where the last chunk begins, makes `pmm_add_chunk` dereference the null pointer behind
-- that chunk, given as much fuel as chunks.
pub pmm_add_chunk-faults :
    (fuel base k a n : ℕ) (r : Ranges) (s : Pmm)
    → IsValid s ((a, n) ∷ r)
    → 0 < k
    → k % chunk_size ≡ 0
    → a < to_virt base
    → to_virt base + k ≡ s.back
    → Apart (to_virt base) k ((a, n) ∷ r)
    → length r < fuel
    → pmm_add_chunk (suc fuel) base k s ≡ null_deref
unfolding pmm_add_chunk link_chunk insert_chunk
pmm_add_chunk-faults fuel base k a n r s v pos whole lt e apart enough =
    let c = to_virt base in
    let chain = headed-Chain s c k ((a, n) ∷ r) pos v apart in
    let below : c < last_base a r = rw (← v.last) (omega arith) in
    let nonempty : (s.front == null) ≡ false = ground (arith, v.chain, v.sorted) in
    let behind : ltb s.back c ≡ false = ground arith in
    let above : ltb c s.front ≡ false = ground (arith, v.chain) in
    rw (whole, write_header-ok c k s (omega arith), nonempty, behind, above)
      (from s.front v.chain.0)
  where
    from :
        (p : Ptr)
        → p ≡ a
        → insert_loop (suc fuel) p (to_virt base) k (headed s (to_virt base) k) ≡ null_deref
    from p at =
        let c = to_virt base in
        let chain = headed-Chain s c k ((a, n) ∷ r) pos v apart in
        let below : c < last_base a r = rw (← v.last) (omega arith) in
        rw at (
          insert_loop-faults fuel c k 0 null a n r (headed s c k) lt below (e ∙ v.last) v.sorted
            apart (refl, chain.1, chain.2, chain.3) enough)
