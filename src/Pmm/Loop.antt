-- ===== src/Pmm/Loop.antt =====
-- The loop of `insert_chunk` in llallocator.cppm: it finds the place, and joins what touches.
use gloxor.Base.{
  ℕ, zero, suc, ◌+◌, ◌^◌, ◌≤◌, ◌<◌, ◌≡◌, refl, inl, inr, [], ◌∷◌, arith, ltb, ◌==◌, Bool-cases,
  length, ◌≢◌, ◌∙◌,
}
use gloxor.Pmm.{Pmm, join_back, insert_before, insert_loop}
use gloxor.Pmm.Spec.{Ranges, Sorted, Apart, last_base, insert_range_after}
use gloxor.Pmm.Chain.{Chain, Returns}
use gloxor.Pmm.Writes.{
  load-ok, join_back_below, join_back_both, insert_before_between, insert_before_above,
}
use gloxor.Pmm.Insert.{Inserted, below-Inserted, both-Inserted, between-Inserted, above-Inserted}

module _ (fuel a c k n next : ℕ) (s : Pmm) (pos : 0 < a) (size : (s.mem a).size ≡ n) where
  pub step_join :
      a < c → a + n ≡ c → c < 2 ^ 64 → insert_loop (suc fuel) a c k s ≡ join_back a c k s
  unfolding insert_loop
  step_join lt e top = ground (arith, load-ok a s pos)

  pub step_next :
      a < c
      → a + n < 2 ^ 64
      → a + n ≢ c
      → (s.mem a).next ≡ next
      → insert_loop (suc fuel) a c k s ≡ insert_loop fuel next c k s
  unfolding insert_loop
  step_next lt top e f = ground (arith, load-ok a s pos)

pub step_before :
    (fuel b c k : ℕ) (s : Pmm) → c < b → insert_loop (suc fuel) b c k s ≡ insert_before b c k s
unfolding insert_loop
step_before fuel b c k s lt = ground arith

-- A chunk that lies below the new one, and does not touch it, stays in front.
after-Inserted :
    (a n b m c k prev : ℕ) (r : Ranges) (s s' : Pmm)
    → a < c
    → a + n ≢ c
    → a < b
    → Chain s.mem prev a ((a, n) ∷ (b, m) ∷ r)
    → Inserted b c k a ((b, m) ∷ r) s s'
    → Inserted a c k prev ((a, n) ∷ (b, m) ∷ r) s s'
after-Inserted a n b m c k prev r s s' lt ne lt' chain i = record {
  chain = rw (insert_range_after a n c k ((b, m) ∷ r) lt ne) (
    refl,
    ground (arith, i.below a lt', chain.1),
    ground (arith, i.below a lt', chain.2),
    rw next i.chain,
  );
  below = λ q h. i.below q (omega arith);
  front = i.front;
  back = i.back;
}
  where
    next : (s'.mem a).next ≡ b
    next = ground (arith, i.below a lt', chain.3.0)

-- Between two chunks: four cases.
place :
    (fuel c k lo prev a n b m : ℕ) (r : Ranges) (s : Pmm)
    → 0 < k
    → 0 < a
    → a < c
    → c + k ≤ b
    → a + n ≤ c
    → c + k ≢ last_base b r
    → Sorted lo ((a, n) ∷ (b, m) ∷ r)
    → Chain s.mem prev a ((a, n) ∷ (b, m) ∷ r)
    → (s.mem c).size ≡ k
    → Returns (insert_loop (suc (suc fuel)) a c k s) (Inserted a c k prev ((a, n) ∷ (b, m) ∷ r) s)
place fuel c k lo prev a n b m [] s pos posa lt le le' ne sorted chain size =
    elim (Bool-cases (a + n == c)) [
      | inl t ↦
          let e : a + n ≡ c = ground arith in
          (
            _,
            step_join (suc fuel) a c k n b s posa chain.1 lt e (omega arith)
                ∙ join_back_below s a n c k b posa (omega arith) chain.1 chain.3.0 (omega arith),
            below-Inserted s a n c k lo prev b m [] lt sorted chain e (omega arith),
          )
      | inr f ↦
          let e : a + n < c = ground arith in
          (
            _,
            step_next (suc fuel) a c k n b s posa chain.1 lt (omega arith) (omega arith) chain.3.0
                ∙ step_before fuel b c k s (omega arith)
                ∙ insert_before_between s a c k b posa lt (omega arith) (omega arith) chain.3.2 ne,
            between-Inserted s a n c k lo prev b m [] lt sorted chain e (omega arith) size,
          )
    ]
place fuel c k lo prev a n b m ((d, l) ∷ r) s pos posa lt le le' ne sorted chain size =
    elim (Bool-cases (a + n == c)) [
      | inl t ↦
          let e : a + n ≡ c = ground arith in
          let joined = step_join (suc fuel) a c k n b s posa chain.1 lt e (omega arith) in
          elim (Bool-cases (c + k == b)) [
            | inl u ↦
                let f : c + k ≡ b = ground arith in
                (
                  _,
                  joined
                      ∙ join_back_both s a n c k b m d posa (omega arith) (omega arith)
                          (omega arith) chain.1 chain.3.0 chain.3.1 chain.3.3.0 (omega arith),
                  both-Inserted s a n c k lo prev b m d l r lt sorted chain e f,
                )
            | inr u ↦
                let f : c + k < b = ground arith in
                (
                  _,
                  joined
                      ∙ join_back_below s a n c k b posa (omega arith) chain.1 chain.3.0
                          (omega arith),
                  below-Inserted s a n c k lo prev b m ((d, l) ∷ r) lt sorted chain e f,
                )
          ]
      | inr t ↦
          let e : a + n < c = ground arith in
          let reached =
            step_next (suc fuel) a c k n b s posa chain.1 lt (omega arith) (omega arith) chain.3.0
            ∙ step_before fuel b c k s (omega arith) in
          elim (Bool-cases (c + k == b)) [
            | inl u ↦
                let f : c + k ≡ b = ground arith in
                (
                  _,
                  reached
                      ∙ insert_before_above s a c k b m d posa lt (omega arith) (omega arith)
                          (omega arith) size chain.3.1 chain.3.2 chain.3.3.0 f,
                  above-Inserted s a n c k lo prev b m d l r lt sorted chain e f (omega arith),
                )
            | inr u ↦
                let f : c + k < b = ground arith in
                (
                  _,
                  reached
                      ∙ insert_before_between s a c k b posa lt (omega arith) (omega arith)
                          chain.3.2 (omega arith),
                  between-Inserted s a n c k lo prev b m ((d, l) ∷ r) lt sorted chain e f size,
                )
          ]
    ]

-- The loop from a chunk below the new one, which does not lie behind the last chunk and does not end
-- where the last chunk begins.
pub insert_loop-Inserted :
    (fuel c k lo prev a n : ℕ) (r : Ranges) (s : Pmm)
    → 0 < k
    → a < c
    → c < last_base a r
    → c + k ≢ last_base a r
    → Sorted lo ((a, n) ∷ r)
    → Apart c k ((a, n) ∷ r)
    → Chain s.mem prev a ((a, n) ∷ r)
    → (s.mem c).size ≡ k
    → length r < fuel
    → Returns (insert_loop (suc fuel) a c k s) (Inserted a c k prev ((a, n) ∷ r) s)
insert_loop-Inserted fuel c k lo prev a n [] s pos lt before ne sorted apart chain size enough =
    absurd (omega arith)
insert_loop-Inserted zero c k lo prev a n r s pos lt before ne sorted apart chain size enough =
    absurd (omega arith)
insert_loop-Inserted (suc fuel) c k lo prev a n ((b, m) ∷ r) s pos lt before ne sorted apart chain
      size enough =
    elim (Bool-cases (ltb b c)) [
      | inl up ↦
          let up' : b < c = ground arith in
          let (s', run, done) =
            insert_loop-Inserted fuel c k (a + n) a b m r s pos up' before ne sorted.3 apart.1
              (refl, chain.3.1, chain.3.2, chain.3.3) size (omega arith) in
          (
            s',
            step_next (suc fuel) a c k n b s (omega arith) chain.1 lt (omega arith) (omega arith)
                  chain.3.0
                ∙ run,
            after-Inserted a n b m c k prev r s s' lt (omega arith) (omega arith) chain done,
          )
      | inr here ↦
          place fuel c k lo prev a n b m r s pos (omega arith) lt (ground arith) (ground arith) ne
            sorted chain size
    ]
