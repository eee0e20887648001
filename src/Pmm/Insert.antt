-- ===== src/Pmm/Insert.antt =====
-- `insert_chunk` of llallocator.cppm between two chunks of a represented list.
use gloxor.Base.{ℕ, ◌+◌, ◌<◌, ◌≡◌, refl, ◌∷◌, arith}
use gloxor.Pmm.{Ptr, Node, Pmm, update}
use gloxor.Pmm.Spec.{
  Ranges, Sorted, insert_range, insert_range_below, insert_range_both, insert_range_between,
  insert_range_above,
}
use gloxor.Pmm.Chain.{Chain, Chain-frame}
use gloxor.Pmm.Writes.{sized, backed, nexted}

-- A list with `c` put in after `prev`: what changes lies at or above `prev`'s successor.
pub record Inserted (a c k prev : ℕ) (xs : Ranges) (s s' : Pmm) : Type 0 where
  pub chain : Chain s'.mem prev a (insert_range c k xs)
  pub below : (q : ℕ) → q < a → s'.mem q ≡ s.mem q
  pub front : s'.front ≡ s.front
  pub back : s'.back ≡ s.back

module _ (s : Pmm) (a n c k lo prev b m : ℕ) (r : Ranges) (lt : a < c)
    (sorted : Sorted lo ((a, n) ∷ (b, m) ∷ r))
    (chain : Chain s.mem prev a ((a, n) ∷ (b, m) ∷ r)) where
  -- `c` continues `a` and ends below `b`.
  pub below-Inserted :
      a + n ≡ c
      → c + k < b
      → Inserted a c k prev ((a, n) ∷ (b, m) ∷ r) s (record s { mem = sized s.mem a (n + k) })
  unfolding update
  below-Inserted e h = record {
    chain = rw (insert_range_below a n b m c k r sorted.1 e h) (
      refl,
      ground arith,
      ground (arith, chain.2),
      rw next (
          Chain-frame s.mem (sized s.mem a (n + k)) (a + n) a (s.mem a).next ((b, m) ∷ r) sorted.3
            (λ q g. ground arith) chain.3),
    );
    below = ground arith;
    front = refl;
    back = refl;
  }
    where
      next : (sized s.mem a (n + k) a).next ≡ (s.mem a).next
      next = ground arith

  -- `c` stands apart from both.
  pub between-Inserted :
      a + n < c
      → c + k < b
      → (s.mem c).size ≡ k
      → let m' = backed (nexted (backed (nexted s.mem a c) b c) c b) c a in
        Inserted a c k prev ((a, n) ∷ (b, m) ∷ r) s (record s { mem = m' })
  unfolding update
  between-Inserted e h size = record {
    chain = rw (insert_range_between a n b m c k r sorted.1 e (omega arith) h) (
      refl,
      ground (arith, chain.1),
      ground (arith, chain.2),
      (
        ground arith,
        ground arith,
        ground arith,
        (ground arith, ground (arith, chain.3.1), ground arith, rw next tail),
      ),
    );
    below = ground arith;
    front = refl;
    back = refl;
  }
    where
      m' : Ptr → Node
      m' = backed (nexted (backed (nexted s.mem a c) b c) c b) c a

      next : (m' b).next ≡ (s.mem b).next
      next = ground arith

      tail : Chain m' b (s.mem b).next r
      tail =
          Chain-frame s.mem m' (b + m) b (s.mem b).next r sorted.3.3 (λ q g. ground arith) chain.3.3

module _ (s : Pmm) (a n c k lo prev b m d l : ℕ) (r : Ranges) (lt : a < c)
    (sorted : Sorted lo ((a, n) ∷ (b, m) ∷ (d, l) ∷ r))
    (chain : Chain s.mem prev a ((a, n) ∷ (b, m) ∷ (d, l) ∷ r)) where
  -- `c` fills the room between `a` and `b`, and `d` follows.
  pub both-Inserted :
      a + n ≡ c
      → c + k ≡ b
      → let m' = nexted (backed (sized (sized s.mem a (n + k)) a (n + k + m)) d a) a d in
        Inserted a c k prev ((a, n) ∷ (b, m) ∷ (d, l) ∷ r) s (record s { mem = m' })
  unfolding update
  both-Inserted e h = record {
    chain = rw (insert_range_both a n b m c k ((d, l) ∷ r) sorted.1 e h) (
      refl,
      ground arith,
      ground (arith, chain.2),
      (ground arith, ground (arith, chain.3.3.1), ground arith, rw next tail),
    );
    below = ground arith;
    front = refl;
    back = refl;
  }
    where
      m' : Ptr → Node
      m' = nexted (backed (sized (sized s.mem a (n + k)) a (n + k + m)) d a) a d

      next : (m' d).next ≡ (s.mem d).next
      next = ground arith

      tail : Chain m' d (s.mem d).next r
      tail =
          Chain-frame s.mem m' (d + l) d (s.mem d).next r sorted.3.3.3 (λ q g. ground arith)
            chain.3.3.3

  -- `c` ends where `b` begins, and `d` follows.
  pub above-Inserted :
      a + n < c
      → c + k ≡ b
      → c < b
      → let m' = nexted (backed (nexted (backed (sized s.mem c (k + m)) d c) c d) c a) a c in
        Inserted a c k prev ((a, n) ∷ (b, m) ∷ (d, l) ∷ r) s (record s { mem = m' })
  unfolding update
  above-Inserted e h f = record {
    chain = rw (insert_range_above a n b m c k ((d, l) ∷ r) sorted.1 e f h) (
      refl,
      ground (arith, chain.1),
      ground (arith, chain.2),
      (
        ground arith,
        ground arith,
        ground arith,
        (ground arith, ground (arith, chain.3.3.1), ground arith, rw next tail),
      ),
    );
    below = ground arith;
    front = refl;
    back = refl;
  }
    where
      m' : Ptr → Node
      m' = nexted (backed (nexted (backed (sized s.mem c (k + m)) d c) c d) c a) a c

      next : (m' d).next ≡ (s.mem d).next
      next = ground arith

      tail : Chain m' d (s.mem d).next r
      tail =
          Chain-frame s.mem m' (d + l) d (s.mem d).next r sorted.3.3.3 (λ q g. ground arith)
            chain.3.3.3
