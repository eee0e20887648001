-- ===== src/HashMap/Rehash.antt =====
-- `rehash` and `grow_if_needed` of hash_map.hpp: they keep what is found under every key.
use mathlib.Core.Option.{some-ne-none}
use gloxor.Base.{
  ℕ, suc, ◌+◌, ◌-◌, ◌<◌, ◌≡◌, ◌≢◌, ◌↔◌, ◌⊎◌, refl, sym, ◌∙◌, List, [], ◌∷◌, Option, none, some,
  Bool, true, false, ◌==◌, ltb, if◌then◌else◌, length, Bool-cases, inl, inr, arith, length-set,
}
use gloxor.HashMap.{
  Chain, ok, bucket, index_of_key, find_in, find_node, push, move_chain, move_all, reset_bucket,
}
use gloxor.HashMap.Chains.{
  index_of_key-lt, total, total-set, Distinct, Placed, InOrder, find_in-Placed, find_node-set,
  set-InOrder,
}

-- The first of two results that is there.
abbrev pub first_of : {A : Type 0} → Option A → Option A → Option A
first_of none o = o
first_of (some a) o = some a

module _ {K V : Type 0} (hash : K → ℕ) (eq : K → K → Bool)
    (decides : (a b : K) → (eq a b ≡ true) ↔ (a ≡ b)) where
  -- A new key at the front of its chain.
  pub push-find_node :
      (bs : List (Chain K V)) (k : K) (v : V)
      → 0 < length bs
      → (k' : K)
      → find_node hash eq k' (push hash eq k v bs)
        ≡ (if eq k k' then some v else find_node hash eq k' bs)
  unfolding push find_in
  push-find_node bs k v pos = find_node-set hash eq decides bs k _ (some v) pos (λ k'. refl)

  pub find_node-bucket :
      (bs : List (Chain K V)) (k : K)
      → 0 < length bs
      → find_node hash eq k bs ≡ find_in hash eq k (bucket bs (index_of_key hash k (length bs)))
  unfolding find_node
  find_node-bucket bs k pos = let e : (length bs == 0) ≡ false = ground arith in rw e refl

  pub push-InOrder :
      (bs : List (Chain K V)) (k : K) (v : V)
      → 0 < length bs
      → find_node hash eq k bs ≡ none
      → InOrder hash eq bs
      → InOrder hash eq (push hash eq k v bs)
  unfolding push
  push-InOrder bs k v pos new o =
      let i = index_of_key hash k (length bs) in
      set-InOrder hash eq decides bs i _ o (refl, o.placed i)
        (sym (find_node-bucket bs k pos) ∙ new, o.distinct i)
        (index_of_key-lt hash k (length bs) pos)

  pub push-length :
      (bs : List (Chain K V)) (k : K) (v : V) → length (push hash eq k v bs) ≡ length bs
  unfolding push
  push-length bs k v = length-set bs _ _

  pub push-total :
      (bs : List (Chain K V)) (k : K) (v : V)
      → 0 < length bs
      → total (push hash eq k v bs) ≡ suc (total bs)
  unfolding push
  push-total bs k v pos = omega (
    arith,
    total-set bs (index_of_key hash k (length bs))
        ((k, v) ∷ bucket bs (index_of_key hash k (length bs)))
        (index_of_key-lt hash k (length bs) pos),
  )

  -- What moving a chain, or all chains, into `nb` gives, where `found` is what they hold.
  pub record Moved (found : K → Option V) (n : ℕ) (nb nb' : List (Chain K V)) : Type 0 where
    pub in_order : InOrder hash eq nb'
    pub count : total nb' ≡ n + total nb
    pub size : length nb' ≡ length nb
    pub finds : (k : K) → find_node hash eq k nb' ≡ first_of (found k) (find_node hash eq k nb)

  -- A chain of distinct keys that `nb` does not have.
  move_chain-Moved :
      (c : Chain K V) (nb : List (Chain K V))
      → 0 < length nb
      → InOrder hash eq nb
      → Distinct hash eq c
      → ((k : K) → (find_in hash eq k c ≡ none) ⊎ (find_node hash eq k nb ≡ none))
      → Moved (λ k. find_in hash eq k c) (length c) nb (move_chain hash eq c nb)
  unfolding move_chain find_in
  move_chain-Moved [] nb pos o d apart = record {
    in_order = o;
    count = omega arith;
    size = refl;
    finds = λ k. refl;
  }
  move_chain-Moved ((k, v) ∷ c) nb pos o (new, d) apart =
      let nb₁ = push hash eq k v nb in
      let size = push-length nb k v in
      let found : find_in hash eq k ((k, v) ∷ c) ≡ some v = rw ((decides k k).1 refl) refl in
      let absent : find_node hash eq k nb ≡ none = elim (apart k) [
        | inl e ↦ absurd (some-ne-none v (sym found ∙ e))
        | inr e ↦ e
      ] in
      let later : (k' : K) → eq k k' ≡ true → find_in hash eq k' c ≡ none =
        λ k' e. rw (← (decides k k').0 e) new in
      let m = move_chain-Moved c nb₁ (rw size pos) (push-InOrder nb k v pos absent o) d (λ k'.
        elim (Bool-cases (eq k k')) [
          | inl e ↦ inl (later k' e)
          | inr ne ↦ elim (apart k') [
            | inl h ↦ inl (rw ne at h)
            | inr h ↦ inr (push-find_node nb k v pos k' ∙ rw ne h)
          ]
        ]) in
      record {
        in_order = m.in_order;
        count = omega (arith, m.count, push-total nb k v pos);
        size = m.size ∙ size;
        finds = λ k'.
            m.finds k'
            ∙ rw (push-find_node nb k v pos k') (elim (Bool-cases (eq k k')) [
              | inl e ↦ rw (e, later k' e) refl
              | inr ne ↦ rw ne refl
            ]);
      }

  -- What the buckets from `i` on hold, with the indices that `n` buckets give.
  abbrev pub found_from : ℕ → ℕ → List (Chain K V) → K → Option V
  found_from n i bs k =
      let j = index_of_key hash k n in
      if ltb j i then none else find_in hash eq k (bucket bs (j - i))

  -- The chain of bucket `i`, taken from the front.
  found_step :
      (n i : ℕ) (b : Chain K V) (bs : List (Chain K V)) (k : K) (rest : Option V)
      → Placed hash eq n i b
      → first_of (found_from n (suc i) bs k) (first_of (find_in hash eq k b) rest)
        ≡ first_of (found_from n i (b ∷ bs) k) rest
  found_step n i b bs k rest p =
      let j = index_of_key hash k n in
      elim (Bool-cases (j == i)) [
        | inl same ↦
            let e : j ≡ i = ground arith in
            let zero_off : i - i ≡ 0 = omega arith in
            let early : ltb i (suc i) ≡ true = ground arith in
            let late : ltb i i ≡ false = ground arith in rw (e, early, late, zero_off) refl
        | inr other ↦
            let ne : j ≢ i = ground arith in
            let absent = find_in-Placed hash eq decides n i b k p ne in
            elim (Bool-cases (ltb j i)) [
              | inl low ↦
                  let low' : ltb j (suc i) ≡ true = ground arith in rw (low, low', absent) refl
              | inr high ↦
                  let high' : ltb j (suc i) ≡ false = ground arith in
                  let off : j - i ≡ suc (j - suc i) = ground arith in
                  rw (high, high', off, absent) refl
            ]
      ]

  pub move_all-Moved :
      (n i : ℕ) (bs nb : List (Chain K V))
      → 0 < length nb
      → InOrder hash eq nb
      → ((j : ℕ) → Placed hash eq n (i + j) (bucket bs j))
      → ((j : ℕ) → Distinct hash eq (bucket bs j))
      → ((k : K) → (index_of_key hash k n < i) ⊎ (find_node hash eq k nb ≡ none))
      → (nb' : List (Chain K V)) × (move_all hash eq false bs nb ≡ ok nb')
        × Moved (found_from n i bs) (total bs) nb nb'
  unfolding move_all reset_bucket find_in
  move_all-Moved n i [] nb pos o placed distinct earlier = (
    nb,
    refl,
    record { in_order = o; count = omega arith; size = refl; finds = λ k. none_found k },
  )
    where
      none_found :
          (k : K) → find_node hash eq k nb ≡ first_of (found_from n i [] k) (find_node hash eq k nb)
      none_found k = elim (Bool-cases (ltb (index_of_key hash k n) i)) [
        | inl e ↦ rw e refl
        | inr e ↦ rw e refl
      ]
  move_all-Moved n i (b ∷ bs) nb pos o placed distinct earlier =
      let here : i + 0 ≡ i = omega arith in
      let p : Placed hash eq n i b = rw here at (placed 0) in
      let absent : (k : K) → index_of_key hash k n ≢ i → find_in hash eq k b ≡ none =
        λ k ne. find_in-Placed hash eq decides n i b k p ne in
      let m =
        move_chain-Moved b nb pos o (distinct 0)
          (λ k. elim (earlier k) [ inl lt ↦ inl (absent k (λ e. omega arith)) | inr h ↦ inr h ]) in
      let (nb', run, rest) =
        move_all-Moved n (suc i) bs (move_chain hash eq b nb) (rw m.size pos) m.in_order
          (λ j. let e : i + suc j ≡ suc i + j = omega arith in rw e at (placed (suc j)))
          (λ j. distinct (suc j))
          (λ k. elim (Bool-cases (ltb (index_of_key hash k n) (suc i))) [
            | inl lt ↦ inl (ground arith)
            | inr ge ↦ elim (earlier k) [
              | inl lt ↦ inl (omega arith)
              | inr h ↦ inr (m.finds k ∙ rw (absent k (λ e. ground arith), h) refl)
            ]
          ]) in
      (
        nb',
        run,
        record {
          in_order = rest.in_order;
          count = omega (arith, rest.count, m.count);
          size = rest.size ∙ m.size;
          finds = λ k. rest.finds k ∙ rw (m.finds k) (found_step n i b bs k _ p);
        },
      )
