-- ===== src/Math/Powers.antt =====
-- `next_pow2` of math.hpp: where it rounds up, and where its `int` shift goes wrong.
use native.Mathlib.Nat.{mod-eq_of_lt, add-mod_right}
use gloxor.Base.{
  ℕ, zero, suc, ◌+◌, ◌-◌, ◌*◌, ◌%◌, ◌^◌, ◌≤◌, ◌<◌, ◌≡◌, refl, arith, leb, if◌then◌else◌, none, some,
  Bool-cases, inl, inr,
}
use gloxor.Base.Bits.{pow2, pow2-pow, lt_of_pow2-lt}
use gloxor.Math.{IsClz, shl_int, next_pow2}

-- `x - 1` on an unsigned width.
pred_wrap : (m x : ℕ) → 0 < x → x < m → (x + m - 1) % m ≡ x - 1
pred_wrap m x pos lt =
    let e : x + m - 1 ≡ x - 1 + m = omega arith in
    rw (e, add-mod_right) (mod-eq_of_lt (omega arith))

double_pred : (n : ℕ) → 0 < n → pow2 n ≡ 2 * pow2 (n - 1)
double_pred zero h = absurd (omega arith)
double_pred (suc n) h = let e : suc n - 1 ≡ n = omega arith in rw e refl

module _ {clz : ℕ → ℕ} {width : ℕ} (c : IsClz width clz) (x : ℕ) (big : 1 < x)
    (lt : x < pow2 width) where
  -- The shift count.
  abbrev pub count : ℕ
  count = width - clz (x - 1)

  -- The power above `x`.
  pub count_bounds : (0 < count) × (pow2 (count - 1) < x) × (x ≤ pow2 count)
  count_bounds =
      let below = c.below (x - 1) (omega arith) (omega arith) in
      let least = c.least (x - 1) (omega arith) (omega arith) in
      let greatest = c.greatest (x - 1) (omega arith) (omega arith) in
      (omega arith, omega arith, omega arith)

  next_pow2-shl_int : next_pow2 clz width x ≡ shl_int clz width count
  unfolding next_pow2
  next_pow2-shl_int = rw (pow2-pow width, pred_wrap (pow2 width) x (omega arith) lt) (ground arith)

  pub count-lt : (n : ℕ) → x ≤ pow2 n → count ≤ n
  count-lt n h =
      omega (arith, count_bounds, lt_of_pow2-lt (count - 1) n (omega (arith, count_bounds)))

  pub lt-count : (n : ℕ) → pow2 n < x → n < count
  lt-count n h = lt_of_pow2-lt n count (omega (arith, count_bounds))

  -- For `1 < x`, a width that holds `x` and a count of leading zeros that meets `IsClz`: up to
  -- `2 ^ 30` the result is a power of two that is not below `x` and is less than `2 * x`.
  pub next_pow2_rounds :
      x ≤ 2 ^ 30 → (k : ℕ) × (next_pow2 clz width x ≡ some (2 ^ k)) × (x ≤ 2 ^ k) × (2 ^ k < 2 * x)
  unfolding shl_int
  next_pow2_rounds h =
      let few : count ≤ 30 = count-lt 30 h in
      let (one, two, three) = count_bounds in
      let double : pow2 count ≡ 2 * pow2 (count - 1) = double_pred count one in
      (
        count,
        rw next_pow2-shl_int (ground arith),
        rw pow2-pow three,
        rw (pow2-pow count) (omega arith),
      )

  -- For `1 < x`, a width that holds `x` and a count of leading zeros that meets `IsClz`: above
  -- `2 ^ 30` the shift leaves `int`. Up to `2 ^ 31` the result is bit 31 with its sign extended to the
  -- width, and from there on the shift is undefined.
  pub next_pow2_wide :
      2 ^ 30 < x
      → next_pow2 clz width x ≡ (if leb x (2 ^ 31) then some (2 ^ width - 2 ^ 31) else none)
  unfolding shl_int
  next_pow2_wide h =
      let many : 30 < count = lt-count 30 h in
      rw next_pow2-shl_int (elim (Bool-cases (leb x (2 ^ 31))) [
        | inl small ↦
            let exact : count ≡ 31 = omega (arith, count-lt 31 (ground arith)) in
            rw (small, exact) refl
        | inr large ↦ let over : 31 < count = lt-count 31 (ground arith) in rw large (ground arith)
      ])
