-- ===== src/Algorithms/Copies.antt =====
-- What the writing algorithms leave in memory.
use gloxor.Base.{
  ℕ, zero, suc, ◌+◌, ◌-◌, ◌≤◌, ◌<◌, ◌≡◌, ◌⊎◌, refl, Bool, true, false, leb, ltb, ◌==◌, ◌&&◌,
  if◌then◌else◌, Bool-cases, inl, inr, arith,
}
use gloxor.Algorithms.{write, copy, copy_backwards, copy_overlapped, memmove, set_range, reverse}

abbrev pub within : ℕ → ℕ → ℕ → Bool
within q a n = leb a q && ltb q (a + n)

next_round :
    (n from to : ℕ)
    → (to < from) ⊎ (from + suc n ≤ to)
    → (to + 1 < from + 1) ⊎ (from + 1 + n ≤ to + 1)
next_round n from to (inl h) = inl (omega arith)
next_round n from to (inr h) = inr (omega arith)

module _ {A : Type 0} where
  pub copy-at :
      (n from to q : ℕ) (m : ℕ → A)
      → (to < from) ⊎ (from + n ≤ to)
      → copy n from to m q ≡ (if within q to n then m (from + (q - to)) else m q)
  unfolding copy write
  copy-at zero from to q m lt = let out : within q to 0 ≡ false = ground arith in rw out refl
  copy-at (suc n) from to q m lt =
      let ih = copy-at n (from + 1) (to + 1) q (write m to (m from)) (next_round n from to lt) in
      elim (Bool-cases (within q (to + 1) n)) [
        | inl later ↦
            let src : from + 1 + (q - (to + 1)) ≡ from + (q - to) = ground arith in
            let off : (from + (q - to) == to) ≡ false = ground arith in
            let inside : within q to (suc n) ≡ true = ground arith in
            rw (ih, later, inside, src, off) refl
        | inr rest ↦ elim (Bool-cases (q == to)) [
          | inl here ↦
              let src : from + (q - to) ≡ from = ground arith in
              let inside : within q to (suc n) ≡ true = ground arith in
              rw (ih, rest, inside, src, here) refl
          | inr off ↦
              let outside : within q to (suc n) ≡ false = ground arith in
              rw (ih, rest, outside, off) refl
        ]
      ]

  copy_backwards-at :
      (n from to q : ℕ) (m : ℕ → A)
      → from ≤ to
      → copy_backwards n from to m q ≡ (if within q to n then m (from + (q - to)) else m q)
  unfolding copy_backwards write
  copy_backwards-at zero from to q m le =
      let out : within q to 0 ≡ false = ground arith in rw out refl
  copy_backwards-at (suc n) from to q m le =
      let ih = copy_backwards-at n from to q (write m (to + n) (m (from + n))) le in
      elim (Bool-cases (within q to n)) [
        | inl before ↦
            let off : (from + (q - to) == to + n) ≡ false = ground arith in
            let inside : within q to (suc n) ≡ true = ground arith in
            rw (ih, before, inside, off) refl
        | inr rest ↦ elim (Bool-cases (q == to + n)) [
          | inl here ↦
              let src : from + (q - to) ≡ from + n = ground arith in
              let inside : within q to (suc n) ≡ true = ground arith in
              rw (ih, rest, inside, src, here) refl
          | inr off ↦
              let outside : within q to (suc n) ≡ false = ground arith in
              rw (ih, rest, outside, off) refl
        ]
      ]

  -- `copy_overlapped` and `memmove` copy as if through a second buffer, however the two ranges
  -- overlap: every address of the target range gets what was at its source before the call, and the
  -- others keep what they had.
  pub copy_overlapped-at :
      (n from to q : ℕ) (m : ℕ → A)
      → (copy_overlapped n from to m q ≡ (if within q to n then m (from + (q - to)) else m q))
        × (memmove to from n m q ≡ (if within q to n then m (from + (q - to)) else m q))
  unfolding copy_overlapped memmove
  copy_overlapped-at n from to q m = elim (Bool-cases (ltb to from)) [
    | inl lower ↦
        let at = copy-at n from to q m (ground arith) in
        rw (copy_overlapped, memmove, lower) (at, at)
    | inr upper ↦
        let at = copy_backwards-at n from to q m (ground arith) in
        rw (copy_overlapped, memmove, upper) (at, at)
  ]

  -- `set_range` gives its value to every address of the range and leaves the others.
  pub set_range-at :
      (n beg q : ℕ) (a : A) (m : ℕ → A)
      → set_range n beg a m q ≡ (if within q beg n then a else m q)
  unfolding set_range write
  set_range-at zero beg q a m = let out : within q beg 0 ≡ false = ground arith in rw out refl
  set_range-at (suc n) beg q a m =
      let ih = set_range-at n (beg + 1) q a (write m beg a) in
      elim (Bool-cases (within q (beg + 1) n)) [
        | inl later ↦
            let inside : within q beg (suc n) ≡ true = ground arith in rw (ih, later, inside) refl
        | inr rest ↦ elim (Bool-cases (q == beg)) [
          | inl here ↦
              let inside : within q beg (suc n) ≡ true = ground arith in
              rw (ih, rest, inside, here) refl
          | inr off ↦
              let outside : within q beg (suc n) ≡ false = ground arith in
              rw (ih, rest, outside, off) refl
        ]
      ]

  -- `reverse` mirrors a range and leaves the addresses around it.
  pub reverse-at :
      (n a q : ℕ) (m : ℕ → A)
      → reverse n a m q ≡ (if within q a n then m (a + (a + n - 1) - q) else m q)
  unfolding reverse write
  reverse-at zero a q m = let out : within q a 0 ≡ false = ground arith in rw out refl
  reverse-at (suc zero) a q m = elim (Bool-cases (within q a 1)) [
    | inl here ↦ let same : a + (a + 1 - 1) - q ≡ q = ground arith in rw (here, same) refl
    | inr off ↦ rw off refl
  ]
  reverse-at (suc (suc n)) a q m =
      let last = a + suc n in
      let ih = reverse-at n (a + 1) q (write (write m a (m last)) last (m a)) in
      elim (Bool-cases (within q (a + 1) n)) [
        | inl inner ↦
            let inside : within q a (suc (suc n)) ≡ true = ground arith in
            let src : a + 1 + (a + 1 + n - 1) - q ≡ a + (a + suc (suc n) - 1) - q = ground arith in
            let off₁ : (a + (a + suc (suc n) - 1) - q == last) ≡ false = ground arith in
            let off₂ : (a + (a + suc (suc n) - 1) - q == a) ≡ false = ground arith in
            rw (ih, inner, inside, src, off₁, off₂) refl
        | inr rest ↦ elim (Bool-cases (q == last)) [
          | inl here ↦
              let inside : within q a (suc (suc n)) ≡ true = ground arith in
              let src : a + (a + suc (suc n) - 1) - q ≡ a = ground arith in
              rw (ih, rest, inside, src, here) refl
          | inr off ↦ elim (Bool-cases (q == a)) [
            | inl here ↦
                let inside : within q a (suc (suc n)) ≡ true = ground arith in
                let src : a + (a + suc (suc n) - 1) - q ≡ last = ground arith in
                rw (ih, rest, inside, src, off, here) refl
            | inr off' ↦
                let outside : within q a (suc (suc n)) ≡ false = ground arith in
                rw (ih, rest, outside, off, off') refl
          ]
        ]
      ]
