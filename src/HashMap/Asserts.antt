-- ===== src/HashMap/Asserts.antt =====
-- `rehash` of hash_map.hpp with assertions compiled in.
use gloxor.Base.{
  ℕ, zero, suc, ◌+◌, ◌-◌, ◌*◌, ◌%◌, ◌<◌, ◌^◌, ◌≡◌, refl, List, [], ◌∷◌, Bool, true, false, ◌==◌,
  ltb, length, Bool-cases, inl, inr, arith, bit_and, replicate,
}
use gloxor.HashMap.{
  Chain, HashMap, assert_failed, bucket, grow_if_needed, rehash, move_all, reset_bucket, move_chain,
}

module _ {K V : Type 0} (hash : K → ℕ) (eq : K → K → Bool) where
  move_all-asserts :
      (bs nb : List (Chain K V)) (i : ℕ)
      → i < length bs
      → bucket bs i ≡ []
      → move_all hash eq true bs nb ≡ assert_failed
  unfolding move_all reset_bucket
  move_all-asserts [] nb i lt empty = absurd (omega arith)
  move_all-asserts (b ∷ bs) nb zero lt empty = rw empty refl
  move_all-asserts ([] ∷ bs) nb (suc i) lt empty = refl
  move_all-asserts ((e ∷ c) ∷ bs) nb (suc i) lt empty =
      move_all-asserts bs (move_chain hash eq (e ∷ c) nb) i (omega arith) empty

  rehash-asserts :
      (n : ℕ) (m : HashMap K V) (i : ℕ)
      → i < length m.buckets
      → bucket m.buckets i ≡ []
      → rehash hash eq true n m ≡ assert_failed
  unfolding rehash
  rehash-asserts n m i lt empty = elim (Bool-cases (bit_and n (n - 1) == 0)) [
    | inl e ↦ rw (e, move_all-asserts m.buckets (replicate n []) i lt empty) refl
    | inr ne ↦ rw ne refl
  ]

  -- With assertions compiled in, a map that has to grow and has an empty bucket stops: `rehash`
  -- assigns to every old bucket, and the assignment asserts that it was not empty.
  pub grow_if_needed-asserts :
      (m : HashMap K V) (i : ℕ)
      → i < length m.buckets
      → bucket m.buckets i ≡ []
      → length m.buckets < m.size + 1
      → grow_if_needed hash eq true m ≡ assert_failed
  unfolding grow_if_needed
  grow_if_needed-asserts m i lt empty full =
      let some_bucket : (length m.buckets == 0) ≡ false = ground arith in
      let over : ltb (length m.buckets) (m.size + 1) ≡ true = ground arith in
      rw (grow_if_needed, some_bucket, over)
        (rehash-asserts ((length m.buckets * 2) % 2 ^ 64) m i lt empty)
