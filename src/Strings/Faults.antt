-- ===== src/Strings/Faults.antt =====
-- What the seven bits of the capacity, and string(size_t), do to long strings.
use gloxor.Base.{
  ℕ, ◌≡◌, ◌≢◌, ◌<◌, ◌≤◌, refl, inl, inr, List, ◌++◌, arith, length, take, drop, set, Option, none,
  some, true, false, ltb, leb, length-set, replicate,
}
use gloxor.Strings.{
  Repr, size, bytes, capacity, push_back, ensure_can_fit, enlarge, grow, cap_field, next_capacity,
  put_at, store, set_bytes, set_size, sized, reserve,
}
use gloxor.Strings.Pushes.{IsSized, Option-cases, copy_bytes-some, store-some}
use gloxor.Strings.Blocks.{length-copy}

abbrev zeros : List ℕ
zeros = replicate 23 0

store-none : (i c : ℕ) (d : List ℕ) → length d ≤ i → store i c d ≡ none
unfolding store
store-none i c d h = let a : ltb i (length d) ≡ false = ground arith in rw a refl

module _ (malloc : ℕ → Option (List ℕ)) where
  -- A string whose 108 places are all taken, with a CAP_FACTOR of 1 and aligned_alloc never refusing: the
  -- next push_back stores a capacity of 162 as 34, and the one after it moves the string into a block of
  -- 51 bytes and writes its character at the place 109, outside the block.
  pub push_back-outside :
      (c e : ℕ) (d : List ℕ)
      → IsSized malloc
      → ((n : ℕ) → malloc n ≢ none)
      → length d ≡ 108
      → (s : Repr) × (push_back malloc 1 c (Repr.big 108 108 d) ≡ some (true, s))
        × (push_back malloc 1 e s ≡ none)
  unfolding push_back ensure_can_fit enlarge grow capacity size cap_field next_capacity put_at bytes
      set_bytes set_size
  push_back-outside c e d sized giving h = elim (Option-cases (malloc 162)) [
    | inl none_left ↦ absurd (giving 162 none_left)
    | inr (new, e₁) ↦ elim (Option-cases (malloc 51)) [
      | inl none_left ↦ absurd (giving 51 none_left)
      | inr (less, e₂) ↦
          let size₁ = sized 162 new e₁ in
          let size₂ = sized 51 less e₂ in
          let d₁ = take 108 d ++ drop 108 new in
          let copied = copy_bytes-some 108 d new (omega (arith, h)) (omega (arith, size₁)) in
          let long = length-copy 108 d new (omega (arith, h)) (omega (arith, size₁)) in
          let put = store-some 108 c d₁ (omega (arith, long, size₁)) in
          let d₂ = set d₁ 108 c in
          let long₂ = length-set {0} d₁ 108 c in
          let copied₂ =
            copy_bytes-some 34 d₂ less (omega (arith, long, long₂, size₁)) (omega (arith, size₂)) in
          let short =
            length-copy 34 d₂ less (omega (arith, long, long₂, size₁)) (omega (arith, size₂)) in
          let out = store-none 109 e (take 34 d₂ ++ drop 34 less) (omega (arith, short, size₂)) in
          (
            Repr.big 34 109 d₂,
            (rw (e₁, push_back, ensure_can_fit, enlarge, grow, copied, put_at, put) refl),
            (rw (e₂, push_back, ensure_can_fit, enlarge, grow, copied₂, put_at, out) refl),
          )
    ]
  ]

  -- string(size_t) of more than 23, where aligned_alloc never refuses, has the size 0 and room for 32.
  pub sized-empty :
      (n : ℕ)
      → IsSized malloc
      → ((k : ℕ) → malloc k ≢ none)
      → 23 < n
      → (s : Repr) × (sized malloc 1 n ≡ some s) × (size s ≡ 0) × (capacity malloc 1 s ≡ 32)
  unfolding sized reserve ensure_can_fit enlarge capacity size cap_field next_capacity
  sized-empty n full giving h = elim (Option-cases (malloc 32)) [
    | inl none_left ↦ absurd (giving 32 none_left)
    | inr (new, e) ↦
        let more : ltb 23 n ≡ true = ground arith in
        let large : leb n 23 ≡ false = ground arith in
        let copied = copy_bytes-some 0 zeros new (omega arith) (omega arith) in
        (
          Repr.big 32 0 (take 0 zeros ++ drop 0 new),
          (rw (large, sized, more, reserve, ensure_can_fit, e, enlarge, copied) refl),
          refl,
          refl,
        )
  ]
