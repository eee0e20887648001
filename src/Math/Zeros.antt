-- ===== src/Math/Zeros.antt =====
-- A count of leading zeros that meets `IsClz`, for runs of math.hpp and of what stands on it.
use gloxor.Base.{
  ℕ, zero, suc, ◌-◌, ◌*◌, ◌/◌, ◌≤◌, ◌<◌, ◌≡◌, refl, arith, ◌==◌, if◌then◌else◌, Bool-cases, inl,
  inr, false,
}
use gloxor.Base.Bits.{pow2}
use gloxor.Math.{IsClz}

-- The bit length, on as much fuel as the width.
abbrev pub bit_length : ℕ → ℕ → ℕ
bit_length zero x = 0
bit_length (suc f) x = if x == 0 then 0 else suc (bit_length f (x / 2))

bit_length-le : (f x : ℕ) → bit_length f x ≤ f
bit_length-le zero x = omega arith
bit_length-le (suc f) x = ground (arith, bit_length-le f (x / 2))

lt-bit_length : (f x : ℕ) → x < pow2 f → x < pow2 (bit_length f x)
lt-bit_length zero x h = h
lt-bit_length (suc f) x h = ground (arith, lt-bit_length f (x / 2))

bit_length-zero : (f : ℕ) → bit_length f 0 ≡ 0
bit_length-zero zero = refl
bit_length-zero (suc f) = refl

pow2-bit_length : (f x : ℕ) → 0 < x → x < pow2 f → pow2 (bit_length f x) ≤ 2 * x
pow2-bit_length zero x pos h = absurd (omega arith)
pow2-bit_length (suc f) x pos h = elim (Bool-cases (x / 2 == 0)) [
  | inl e ↦
      let half : x / 2 ≡ 0 = ground arith in
      let some_bit : (x == 0) ≡ false = ground arith in
      rw (some_bit, half, bit_length-zero f) (omega arith)
  | inr n ↦
      let some_bit : (x == 0) ≡ false = ground arith in
      let ih = pow2-bit_length f (x / 2) (ground arith) (omega arith) in rw some_bit (omega arith)
]

bit_length_least :
    (f x : ℕ) → 0 < x → x < pow2 f → (0 < bit_length f x) × (pow2 (bit_length f x - 1) ≤ x)
bit_length_least zero x pos h = absurd (omega arith)
bit_length_least (suc f) x pos h =
    let some_bit : (x == 0) ≡ false = ground arith in
    let len : bit_length (suc f) x ≡ suc (bit_length f (x / 2)) = rw some_bit in
    let all = rw len at (pow2-bit_length (suc f) x pos h) in
    let tidy : suc (bit_length f (x / 2)) - 1 ≡ bit_length f (x / 2) = omega arith in
    rw (len, tidy) (omega arith, omega arith)

abbrev pub leading_zeros : ℕ → ℕ → ℕ
leading_zeros width x = width - bit_length width x

pub leading_zeros-IsClz : (width : ℕ) → IsClz width (leading_zeros width)
leading_zeros-IsClz width = record {
  below = λ x pos lt. omega (arith, bit_length_least width x pos lt, bit_length-le width x);
  least = λ x pos lt. rw (back x) (bit_length_least width x pos lt).1;
  greatest = λ x pos lt. rw (back x) (lt-bit_length width x lt);
}
  where
    back : (x : ℕ) → width - (width - bit_length width x) ≡ bit_length width x
    back x = omega (arith, bit_length-le width x)
