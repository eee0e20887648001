-- ===== src/HashMap/Laws.antt =====
-- The operations of hash_map.hpp as those of a finite map: each keeps the map in order, and changes
-- what is found under its own key alone.
use mathlib.Core.Option.{some-ne-none}
use gloxor.Base.{
  ℕ, ◌+◌, ◌≤◌, ◌<◌, ◌^◌, ◌≡◌, ◌↔◌, refl, sym, ap, ◌∙◌, List, [], ◌∷◌, Option, none, some, Bool,
  true, false, if◌then◌else◌, length, set, inr, arith, length-set,
}
use gloxor.HashMap.{Chain, HashMap, ok, bucket, index_of_key, find_node, push, find, insert_new}
use gloxor.HashMap.Chains.{index_of_key-lt, total-set, find_node-set, set-InOrder}
use gloxor.HashMap.Rehash.{push-find_node, push-InOrder, push-length, push-total}
use gloxor.HashMap.Grow.{IsValid, grow_if_needed-Grown}
use gloxor.HashMap.Writes.{Changed}

module _ {K V : Type 0} (hash : K → ℕ) (eq : K → K → Bool)
    (decides : (a b : K) → (eq a b ≡ true) ↔ (a ≡ b)) where
  -- `m'` is in order, and differs from `m` in what is found under `k`, which is `r`.
  pub record Updated (k : K) (r : Option V) (m m' : HashMap K V) : Type 0 where
    pub valid : IsValid hash eq m'
    pub finds : (k' : K) → find hash eq k' m' ≡ (if eq k k' then r else find hash eq k' m)

  -- A map in which a key is found has buckets.
  pub found-pos :
      (bs : List (Chain K V)) (k : K) (v : V) → find_node hash eq k bs ≡ some v → 0 < length bs
  unfolding find_node
  found-pos [] k v h = absurd (some-ne-none v (sym h))
  found-pos (b ∷ bs) k v h = omega arith

  -- A changed chain in the bucket of `k`.
  pub set-Updated :
      (k : K) (r : Option V) (m : HashMap K V) (c : Chain K V) (size : ℕ)
      → IsValid hash eq m
      → 0 < length m.buckets
      → let i : ℕ = index_of_key hash k (length m.buckets) in
        Changed hash eq decides k r (bucket m.buckets i) c
        → size + length (bucket m.buckets i) ≡ m.size + length c
        → size ≤ length m.buckets
        → Updated k r m (record { buckets = set m.buckets i c; size = size })
  unfolding find
  set-Updated k r m c size v pos ch count load =
      let bs = m.buckets in
      let i = index_of_key hash k (length bs) in
      let lt = index_of_key-lt hash k (length bs) pos in
      record {
        valid = record {
          in_order =
              set-InOrder hash eq decides bs i c v.in_order
                (ch.placed (length bs) i (v.in_order.placed i))
                (ch.distinct (v.in_order.distinct i)) lt;
          count = omega (arith, total-set bs i c lt, v.count);
          shape = rw (length-set bs i c) v.shape;
          load = rw (length-set bs i c) load;
        };
        finds = find_node-set hash eq decides bs k c r pos ch.finds;
      }

  -- The lines that the inserting calls share, for a key that is not there.
  pub insert_new-Updated :
      (k : K) (v : V) (m : HashMap K V)
      → IsValid hash eq m
      → m.size < 2 ^ 63
      → find_node hash eq k m.buckets ≡ none
      → (m' : HashMap K V) × (insert_new hash eq false k v m ≡ ok m')
        × Updated k (some v) m m'
        × (m'.size ≡ m.size + 1)
  unfolding insert_new find
  insert_new-Updated k v m valid small new =
      let (g, run, grown) = grow_if_needed-Grown hash eq decides m valid small in
      let pos : 0 < length g.buckets = omega (arith, grown.room) in
      let len = push-length hash eq decides g.buckets k v in
      (
        record { buckets = push hash eq k v g.buckets; size = g.size + 1 },
        rw run refl,
        record {
          valid = record {
            in_order =
                push-InOrder hash eq decides g.buckets k v pos (grown.finds k ∙ new) grown.in_order;
            count =
                omega
                  (arith, push-total hash eq decides g.buckets k v pos, grown.count, grown.size);
            shape = rw len (inr grown.shape);
            load = rw len (omega (arith, grown.room, grown.size));
          };
          finds =
              λ k'. push-find_node hash eq decides g.buckets k v pos k' ∙ rw (grown.finds k') refl;
        },
        ap (λ n. n + 1) grown.size,
      )
