-- ===== src/Math/Digits.antt =====
-- `log2` and `log10` of math.hpp: bit length, and the number of decimal digits.
use native.Mathlib.Nat.{pow-suc}
use gloxor.Base.{
  ℕ, zero, suc, ◌+◌, ◌-◌, ◌*◌, ◌^◌, ◌≤◌, ◌<◌, ◌≡◌, refl, arith, Bool, true, ◌&&◌, ltb, leb, ◌==◌,
  if◌then◌else◌, length, get_or, Bool-cases, inl, inr,
}
use gloxor.Base.Bits.{pow2}
use gloxor.Math.{IsClz, table, powers_of_ten, log2, log10}

-- A test at every number below `n`.
unfoldable pub holds_up_to : (ℕ → Bool) → ℕ → Bool
holds_up_to test zero = true
holds_up_to test (suc n) = holds_up_to test n && test n

holds-at : (test : ℕ → Bool) (n k : ℕ) → k < n → holds_up_to test n ≡ true → test k ≡ true
unfolding holds_up_to
holds-at test zero k lt h = absurd (omega arith)
holds-at test (suc n) k lt h = let before = holds-at test n k in ground (arith, before)

-- What `log10` needs of its tables at the bit length `k + 1`: with `t` from the table, every number
-- of that many bits lies between `10 ^ (t - 1)` and `10 ^ (t + 1)`, and the second table holds `10 ^ t`.
abbrev entry : ℕ → ℕ
entry k = get_or table (suc k) 0

fits : ℕ → Bool
fits k =
    leb (10 ^ entry k) (10 * pow2 k)
    && leb (2 * pow2 k) (10 ^ (entry k + 1))
    && (get_or powers_of_ten (entry k) 0 == 10 ^ entry k)
    && ltb (entry k) (length powers_of_ten)

tables_fit : holds_up_to fits 64 ≡ true
unfolding holds_up_to fits
tables_fit = refl

record Fits (k : ℕ) : Type 0 where
  low : 10 ^ entry k ≤ 10 * pow2 k
  high : 2 * pow2 k ≤ 10 ^ (entry k + 1)
  power : get_or powers_of_ten (entry k) 0 ≡ 10 ^ entry k

Fits-below : (k : ℕ) → k < 64 → Fits k
unfolding fits
Fits-below k h = ground (arith, holds-at fits 64 k h tables_fit)

-- The choice between `t` and `t + 1` digits.
digits_choice :
    (t x p lo hi : ℕ)
    → p ≡ 10 ^ t
    → 0 < x
    → p ≤ 10 * lo
    → lo ≤ x
    → x < hi
    → hi ≤ 10 ^ (t + 1)
    → let d : ℕ = t + (if leb p x then 1 else 0) in (0 < d) × (10 ^ (d - 1) ≤ x) × (x < 10 ^ d)
digits_choice t x p lo hi e pos h₁ h₂ h₃ h₄ = elim (Bool-cases (leb p x)) [
  | inl big ↦ rw big (omega arith, rw tidy (ground arith), omega arith)
  | inr small ↦ rw small (low t e (ground arith))
]
  where
    tidy : t + 1 - 1 ≡ t
    tidy = omega arith

    low : (u : ℕ) → p ≡ 10 ^ u → x < p → (0 < u + 0) × (10 ^ (u + 0 - 1) ≤ x) × (x < 10 ^ (u + 0))
    low zero q g = absurd (omega arith)
    low (suc u) q g =
        let v : suc u + 0 ≡ suc u = omega arith in
        let w : suc u - 1 ≡ u = omega arith in
        let r : 10 ^ suc u ≡ 10 ^ u * 10 = pow-suc 10 u in
        rw (v, w) (omega arith, omega arith, omega arith)

module _ {clz : ℕ → ℕ} (c : IsClz 64 clz) (x : ℕ) (pos : 0 < x) (lt : x < pow2 64) where
  log2-clz : log2 clz x ≡ 64 - clz x
  unfolding log2
  log2-clz = ground arith

  -- The bit length: `2 ^ (log2 x - 1) ≤ x < 2 ^ log2 x`.
  pub log2_bounds :
      (0 < log2 clz x) × (log2 clz x ≤ 64) × (pow2 (log2 clz x - 1) ≤ x) × (x < pow2 (log2 clz x))
  log2_bounds =
      rw log2-clz
        (omega (arith, c.below x pos lt), omega arith, c.least x pos lt, c.greatest x pos lt)

  -- For `x` above 0 of 64 bits, and a count of leading zeros that meets `IsClz`: `log10` counts
  -- decimal digits, that is `10 ^ (log10 x - 1) ≤ x < 10 ^ log10 x`.
  pub log10_digits : (0 < log10 clz x) × (10 ^ (log10 clz x - 1) ≤ x) × (x < 10 ^ log10 clz x)
  unfolding log10
  log10_digits = at_length (log2 clz x) log2_bounds
    where
      at_length :
          (n : ℕ)
          → (0 < n) × (n ≤ 64) × (pow2 (n - 1) ≤ x) × (x < pow2 n)
          → let t : ℕ = get_or table n 0 in
            let d : ℕ = t + (if leb (get_or powers_of_ten t 0) x then 1 else 0) in
            (0 < d) × (10 ^ (d - 1) ≤ x) × (x < 10 ^ d)
      at_length zero h = absurd (omega arith)
      at_length (suc k) h =
          let f = Fits-below k (omega arith) in
          let e : suc k - 1 ≡ k = omega arith in
          digits_choice (entry k) x _ (pow2 k) (2 * pow2 k) f.power pos (rw f.power f.low)
            (rw e at (h.2)) h.3 f.high
