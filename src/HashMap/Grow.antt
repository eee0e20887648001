-- ===== src/HashMap/Grow.antt =====
-- A map in order, and the growth of its bucket array, which keeps it so.
use gloxor.Base.{
  ℕ, suc, ◌+◌, ◌-◌, ◌*◌, ◌%◌, ◌^◌, ◌≤◌, ◌<◌, ◌≡◌, ◌↔◌, ◌⊎◌, refl, ◌∙◌, List, [], ◌∷◌, Option, none,
  some, Bool, true, false, ◌==◌, ltb, length, replicate, Bool-cases, inl, inr, arith,
  length-replicate,
}
use gloxor.Base.Bits.{pow2}
use gloxor.HashMap.{
  Chain, HashMap, ok, bucket, index_of_key, find_in, find_node, rehash, grow_if_needed,
  initial_buckets,
}
use gloxor.HashMap.Chains.{bucket-replicate, total, total-replicate, InOrder, replicate-InOrder}
use gloxor.HashMap.Rehash.{first_of, found_from, move_all-Moved}

module _ {K V : Type 0} (hash : K → ℕ) (eq : K → K → Bool) where
  -- Every pair in the bucket of its key, no key twice, `size` the number of pairs, the number of
  -- buckets 0 or a power of two, and no more pairs than buckets.
  pub record IsValid (m : HashMap K V) : Type 0 where
    pub in_order : InOrder hash eq m.buckets
    pub count : total m.buckets ≡ m.size
    pub shape : (length m.buckets ≡ 0) ⊎ ((j : ℕ) × (length m.buckets ≡ pow2 j))
    pub load : m.size ≤ length m.buckets

  module _ (decides : (a b : K) → (eq a b ≡ true) ↔ (a ≡ b)) where
    first_of-none : (o : Option V) → first_of o none ≡ o
    first_of-none none = refl
    first_of-none (some v) = refl

    find_node-found_from :
        (bs : List (Chain K V)) (k : K)
        → first_of (found_from hash eq decides (length bs) 0 bs k) none ≡ find_node hash eq k bs
    unfolding find_node find_in
    find_node-found_from [] k =
        let i = index_of_key hash k 0 in let low : ltb i 0 ≡ false = ground arith in rw low refl
    find_node-found_from (b ∷ bs) k =
        let n = length (b ∷ bs) in
        let i = index_of_key hash k n in
        let low : ltb i 0 ≡ false = ground arith in
        let off : i - 0 ≡ i = omega arith in
        let some_bucket : (n == 0) ≡ false = ground arith in
        rw (low, off, some_bucket) (first_of-none (find_in hash eq k (bucket (b ∷ bs) i)))

    find_node-replicate :
        (n : ℕ) (k : K) → find_node hash eq k (replicate {A = Chain K V} n []) ≡ none
    unfolding find_node find_in
    find_node-replicate n k = elim (Bool-cases (length (replicate {A = Chain K V} n []) == 0)) [
      | inl e ↦ rw e refl
      | inr e ↦
          rw
            (
              e,
              bucket-replicate {K = K} {V = V} n
                  (index_of_key hash k (length (replicate {A = Chain K V} n []))),
            )
            refl
    ]

    -- The map with its pairs moved to `n` buckets.
    pub record Rehashed (n : ℕ) (m m' : HashMap K V) : Type 0 where
      pub in_order : InOrder hash eq m'.buckets
      pub count : total m'.buckets ≡ total m.buckets
      pub buckets : length m'.buckets ≡ n
      pub size : m'.size ≡ m.size
      pub finds : (k : K) → find_node hash eq k m'.buckets ≡ find_node hash eq k m.buckets

    rehash-Rehashed :
        (n : ℕ) (m : HashMap K V)
        → 0 < n
        → InOrder hash eq m.buckets
        → (m' : HashMap K V) × (rehash hash eq false n m ≡ ok m') × Rehashed n m m'
    unfolding rehash
    rehash-Rehashed n m pos o =
        let nb = replicate {A = Chain K V} n [] in
        let size : length nb ≡ n = length-replicate n [] in
        let (nb', run, moved) =
          move_all-Moved hash eq decides (length m.buckets) 0 m.buckets nb (rw size pos)
            (replicate-InOrder hash eq n)
            (λ j. let e : 0 + j ≡ j = omega arith in rw e (o.placed j)) o.distinct
            (λ k. inr (find_node-replicate n k)) in
        (
          record m { buckets = nb' },
          rw run refl,
          record {
            in_order = moved.in_order;
            count = omega (arith, moved.count, total-replicate K V n);
            buckets = moved.size ∙ size;
            size = refl;
            finds = λ k.
                moved.finds k ∙ rw (find_node-replicate n k) (find_node-found_from m.buckets k);
          },
        )

    -- What `grow_if_needed` gives: room for one more pair, and the same found under every key.
    pub record Grown (m m' : HashMap K V) : Type 0 where
      pub in_order : InOrder hash eq m'.buckets
      pub count : total m'.buckets ≡ m.size
      pub shape : (j : ℕ) × (length m'.buckets ≡ pow2 j)
      pub size : m'.size ≡ m.size
      pub room : m.size < length m'.buckets
      pub finds : (k : K) → find_node hash eq k m'.buckets ≡ find_node hash eq k m.buckets

    pub grow_if_needed-Grown :
        (m : HashMap K V)
        → IsValid m
        → m.size < 2 ^ 63
        → (m' : HashMap K V) × (grow_if_needed hash eq false m ≡ ok m') × Grown m m'
    unfolding grow_if_needed
    grow_if_needed-Grown m v small = elim (Bool-cases (length m.buckets == 0)) [
      | inl e ↦
          let (m', run, r) = rehash-Rehashed initial_buckets m (omega arith) v.in_order in
          (m', rw e run, grown m' initial_buckets r (4, refl) (ground (arith, v.load)))
      | inr ne ↦ elim (Bool-cases (ltb (length m.buckets) (m.size + 1))) [
        | inl full ↦
            let e : (length m.buckets * 2) % 2 ^ 64 ≡ length m.buckets * 2 =
              ground (arith, v.load) in
            let (m', run, r) = rehash-Rehashed (length m.buckets * 2) m (ground arith) v.in_order in
            (
              m',
              rw (ne, full, e) run,
              grown m' (length m.buckets * 2) r (doubled (ground arith) v.shape)
                  (ground (arith, v.load)),
            )
        | inr free ↦ (
          m,
          rw (ne, free) refl,
          record {
            in_order = v.in_order;
            count = v.count;
            shape = nonempty (ground arith) v.shape;
            size = refl;
            room = ground arith;
            finds = λ k. refl;
          },
        )
      ]
    ]
      where
        grown :
            (m' : HashMap K V) (n : ℕ)
            → Rehashed n m m'
            → ((j : ℕ) × (n ≡ pow2 j))
            → m.size < n
            → Grown m m'
        grown m' n r (j, e) lt = record {
          in_order = r.in_order;
          count = r.count ∙ v.count;
          shape = (j, r.buckets ∙ e);
          size = r.size;
          room = rw r.buckets lt;
          finds = r.finds;
        }

        nonempty : {n : ℕ} → 0 < n → (n ≡ 0) ⊎ ((j : ℕ) × (n ≡ pow2 j)) → (j : ℕ) × (n ≡ pow2 j)
        nonempty pos (inl e) = absurd (omega arith)
        nonempty pos (inr s) = s

        doubled : {n : ℕ} → 0 < n → (n ≡ 0) ⊎ ((j : ℕ) × (n ≡ pow2 j)) → (j : ℕ) × (n * 2 ≡ pow2 j)
        doubled pos (inl e) = absurd (omega arith)
        doubled pos (inr (j, e)) = (suc j, omega arith)
