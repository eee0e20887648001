-- ===== src/HashMap/Chains.antt =====
-- The buckets of hash_map.hpp: which ones are in order, and what a new chain in one bucket changes.
use gloxor.Base.{
  ℕ, zero, suc, ◌+◌, ◌-◌, ◌≤◌, ◌<◌, ◌≡◌, ◌≢◌, ◌↔◌, refl, sym, ap, ◌∙◌, List, [], ◌∷◌, Option, none,
  Bool, true, false, ◌==◌, if◌then◌else◌, length, set, replicate, Bool-cases, inl, inr, arith,
  length-set,
}
use gloxor.Base.Bits.{bit_and-le}
use gloxor.HashMap.{Chain, bucket, index_of, index_of_key, find_in, find_node}

pub index_of_key-lt :
    {K : Type 0} (hash : K → ℕ) (k : K) (n : ℕ) → 0 < n → index_of_key hash k n < n
unfolding index_of_key index_of
index_of_key-lt hash k n pos = omega (arith, bit_and-le (hash k) (n - 1))

module _ {K V : Type 0} where
  pub bucket-set_self :
      (bs : List (Chain K V)) (i : ℕ) (c : Chain K V) → i < length bs → bucket (set bs i c) i ≡ c
  bucket-set_self [] i c h = absurd (omega arith)
  bucket-set_self (b ∷ bs) zero c h = refl
  bucket-set_self (b ∷ bs) (suc i) c h = bucket-set_self bs i c (omega arith)

  pub bucket-set_ne :
      (bs : List (Chain K V)) (i j : ℕ) (c : Chain K V)
      → i ≢ j
      → bucket (set bs i c) j ≡ bucket bs j
  bucket-set_ne [] i j c h = refl
  bucket-set_ne (b ∷ bs) zero zero c h = absurd (h refl)
  bucket-set_ne (b ∷ bs) zero (suc j) c h = refl
  bucket-set_ne (b ∷ bs) (suc i) zero c h = refl
  bucket-set_ne (b ∷ bs) (suc i) (suc j) c h = bucket-set_ne bs i j c (λ e. h (ap suc e))

  pub bucket-replicate : (n i : ℕ) → bucket {K = K} {V = V} (replicate n []) i ≡ []
  bucket-replicate zero i = refl
  bucket-replicate (suc n) zero = refl
  bucket-replicate (suc n) (suc i) = bucket-replicate n i

  -- The number of pairs.
  abbrev pub total : List (Chain K V) → ℕ
  total [] = 0
  total (b ∷ bs) = length b + total bs

  pub total-set :
      (bs : List (Chain K V)) (i : ℕ) (c : Chain K V)
      → i < length bs
      → total (set bs i c) + length (bucket bs i) ≡ total bs + length c
  total-set [] i c h = absurd (omega arith)
  total-set (b ∷ bs) zero c h = omega arith
  total-set (b ∷ bs) (suc i) c h = omega (arith, total-set bs i c (omega arith))

pub length-total : {K V : Type 0} (bs : List (Chain K V)) (i : ℕ) → length (bucket bs i) ≤ total bs
length-total [] i = omega arith
length-total (b ∷ bs) zero = omega arith
length-total (b ∷ bs) (suc i) = omega (arith, length-total bs i)

pub total-replicate : (K V : Type 0) (n : ℕ) → total {K = K} {V = V} (replicate n []) ≡ 0
total-replicate K V zero = refl
total-replicate K V (suc n) = omega (arith, total-replicate K V n)

-- Equal keys have one index.
pub index-ne_lem :
    {K : Type 0} (hash : K → ℕ) (eq : K → K → Bool)
    → ((a b : K) → (eq a b ≡ true) ↔ (a ≡ b))
    → (n : ℕ) (a b : K) → index_of_key hash a n ≢ index_of_key hash b n
    → eq a b ≡ false
index-ne_lem hash eq decides n a b ne = elim (Bool-cases (eq a b)) [
  | inl e ↦ absurd (ne (ap (λ k. index_of_key hash k n) ((decides a b).0 e)))
  | inr d ↦ d
]

module _ {K V : Type 0} (hash : K → ℕ) (eq : K → K → Bool) where
  -- No key twice.
  abbrev pub Distinct : Chain K V → Type 0
  Distinct [] = Unit {0}
  Distinct ((k, v) ∷ c) = (find_in hash eq k c ≡ none) × Distinct c

  -- Every key belongs to bucket `i` of `n`.
  abbrev pub Placed : ℕ → ℕ → Chain K V → Type 0
  Placed n i [] = Unit {0}
  Placed n i ((k, v) ∷ c) = (index_of_key hash k n ≡ i) × Placed n i c

  pub record InOrder (bs : List (Chain K V)) : Type 0 where
    pub placed : (i : ℕ) → Placed (length bs) i (bucket bs i)
    pub distinct : (i : ℕ) → Distinct (bucket bs i)

  pub replicate-InOrder : (n : ℕ) → InOrder (replicate n [])
  replicate-InOrder n = record {
    placed = λ i. rw (bucket-replicate {K = K} {V = V} n i) tt;
    distinct = λ i. rw (bucket-replicate {K = K} {V = V} n i) tt;
  }

  module _ (decides : (a b : K) → (eq a b ≡ true) ↔ (a ≡ b)) where
    pub find_in-Placed :
        (n i : ℕ) (c : Chain K V) (k : K)
        → Placed n i c
        → index_of_key hash k n ≢ i
        → find_in hash eq k c ≡ none
    unfolding find_in
    find_in-Placed n i [] k p ne = refl
    find_in-Placed n i ((key, v) ∷ c) k (here, p) ne =
        rw (index-ne_lem hash eq decides n key k (λ e. ne (sym e ∙ here)))
          (find_in-Placed n i c k p ne)

    -- A new chain in the bucket of `k` that changes what is found under `k` alone.
    pub find_node-set :
        (bs : List (Chain K V)) (k : K) (c : Chain K V) (r : Option V)
        → 0 < length bs
        → let i : ℕ = index_of_key hash k (length bs) in
          ((k' : K)
            → find_in hash eq k' c ≡ (if eq k k' then r else find_in hash eq k' (bucket bs i)))
          → (k' : K)
          → find_node hash eq k' (set bs i c) ≡ (if eq k k' then r else find_node hash eq k' bs)
    unfolding find_node
    find_node-set bs k c r pos new k' =
        let n = length bs in
        let i = index_of_key hash k n in
        let i' = index_of_key hash k' n in
        let some_bucket : (n == 0) ≡ false = ground arith in
        let in_range = index_of_key-lt hash k n pos in
        rw (length-set bs i c, some_bucket)
          (elim (Bool-cases (i == i')) [
            | inl same ↦
                let e : i' ≡ i = ground arith in rw (e, bucket-set_self bs i c in_range) (new k')
            | inr other ↦
                let ne : i ≢ i' = ground arith in
                rw (index-ne_lem hash eq decides n k k' ne, bucket-set_ne bs i i' c ne) refl
          ])

    -- A new chain in order keeps the buckets in order.
    pub set-InOrder :
        (bs : List (Chain K V)) (i : ℕ) (c : Chain K V)
        → InOrder bs
        → Placed (length bs) i c
        → Distinct c
        → i < length bs
        → InOrder (set bs i c)
    set-InOrder bs i c o p d lt = record {
      placed = λ j. rw (length-set bs i c) (elim (Bool-cases (i == j)) [
        | inl same ↦ let e : j ≡ i = ground arith in rw (e, bucket-set_self bs i c lt) p
        | inr other ↦ let ne : i ≢ j = ground arith in rw (bucket-set_ne bs i j c ne) (o.placed j)
      ]);
      distinct = λ j. elim (Bool-cases (i == j)) [
        | inl same ↦ let e : j ≡ i = ground arith in rw (e, bucket-set_self bs i c lt) d
        | inr other ↦ let ne : i ≢ j = ground arith in rw (bucket-set_ne bs i j c ne) (o.distinct j)
      ];
    }
