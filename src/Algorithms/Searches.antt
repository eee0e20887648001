-- ===== src/Algorithms/Searches.antt =====
-- What the searching algorithms find.
use gloxor.Base.{
  ℕ, zero, suc, ◌+◌, ◌≤◌, ◌<◌, ◌≡◌, Bool, true, false, ltb, ◌==◌, if◌then◌else◌, Bool-cases, inl,
  inr, arith,
}
use gloxor.Algorithms.{find_if, max_loop, max_element}

module _ {A : Type 0} (m : ℕ → A) where
  -- `find_if` gives the first address of the range that passes the test, or the end if none does.
  pub find_if-first :
      (fn : A → Bool) (n a : ℕ)
      → (a ≤ find_if n a fn m)
        × (find_if n a fn m ≤ a + n)
        × ((q : ℕ) → a ≤ q → q < find_if n a fn m → fn (m q) ≡ false)
        × (find_if n a fn m < a + n → fn (m (find_if n a fn m)) ≡ true)
  unfolding find_if
  find_if-first fn zero a =
      (omega arith, omega arith, λ q h₁ h₂. absurd (omega arith), λ h. absurd (omega arith))
  find_if-first fn (suc n) a =
      let (low, high, before, hit) = find_if-first fn n (a + 1) in
      elim (Bool-cases (fn (m a))) [
        | inl here ↦ rw here (omega arith, omega arith, λ q h₁ h₂. absurd (omega arith), λ h. here)
        | inr miss ↦ rw miss (
          omega arith,
          omega arith,
          λ q h₁ h₂. elim (Bool-cases (q == a)) [
            | inl e ↦ let same : q ≡ a = ground arith in rw same miss
            | inr ne ↦ before q (ground arith) h₂
          ],
          λ h. hit (omega arith),
        )
      ]

  module _ (key : A → ℕ) where
    -- `r` is the first of the greatest in the range from `a` to `end`.
    pub record IsFirstMax (a end r : ℕ) : Type 0 where
      pub from : a ≤ r
      pub below : r < end
      pub greatest : (q : ℕ) → a ≤ q → q < end → key (m q) ≤ key (m r)
      pub first : (q : ℕ) → a ≤ q → q < r → key (m q) < key (m r)

    -- One turn of the loop.
    next_IsFirstMax :
        (a cur largest : ℕ)
        → IsFirstMax a cur largest
        → IsFirstMax a (cur + 1) (if ltb (key (m largest)) (key (m cur)) then cur else largest)
    next_IsFirstMax a cur largest h = elim (Bool-cases (ltb (key (m largest)) (key (m cur)))) [
      | inl more ↦ rw more (record {
        from = omega (arith, h.from, h.below);
        below = omega arith;
        greatest = λ q h₁ h₂. elim (Bool-cases (q == cur)) [
          | inl e ↦ let same : q ≡ cur = ground arith in rw same (omega arith)
          | inr ne ↦ ground (arith, h.greatest q h₁)
        ];
        first = λ q h₁ h₂. ground (arith, h.greatest q h₁ h₂);
      })
      | inr not_more ↦ rw not_more (record {
        from = h.from;
        below = omega (arith, h.below);
        greatest = λ q h₁ h₂. elim (Bool-cases (q == cur)) [
          | inl e ↦ let same : q ≡ cur = ground arith in rw same (ground arith)
          | inr ne ↦ ground (arith, h.greatest q h₁)
        ];
        first = h.first;
      })
    ]

    max_loop-IsFirstMax :
        (n a cur largest : ℕ)
        → IsFirstMax a cur largest
        → IsFirstMax a (cur + n) (max_loop (λ x y. ltb (key x) (key y)) n cur largest m)
    unfolding max_loop
    max_loop-IsFirstMax zero a cur largest h = let e : cur + 0 ≡ cur = omega arith in rw e h
    max_loop-IsFirstMax (suc n) a cur largest h =
        let e : cur + suc n ≡ cur + 1 + n = omega arith in
        rw e (max_loop-IsFirstMax n a (cur + 1) _ (next_IsFirstMax a cur largest h))

    -- `max_element` with a comparison by a key gives, on a range that is not empty, the first of the
    -- addresses whose key is greatest; on an empty range it gives the end.
    pub max_element-IsFirstMax :
        (n a : ℕ)
        → (IsFirstMax a (a + suc n) (max_element (λ x y. ltb (key x) (key y)) (suc n) a m))
          × (max_element (λ x y. ltb (key x) (key y)) 0 a m ≡ a + 0)
    unfolding max_element
    max_element-IsFirstMax n a =
        let e : a + suc n ≡ a + 1 + n = omega arith in
        let start : IsFirstMax a (a + 1) a = record {
          from = omega arith;
          below = omega arith;
          greatest = λ q h₁ h₂. let same : q ≡ a = omega arith in rw same (omega arith);
          first = λ q h₁ h₂. absurd (omega arith);
        } in
        (rw e (max_loop-IsFirstMax n a (a + 1) a start), omega arith)
