-- ===== src/Math/Align.antt =====
-- `align` and `align_up` of math.hpp against division by the alignment.
use native.Mathlib.Nat.{mod-eq_of_lt, add-div_right}
use gloxor.Base.{ℕ, suc, ◌+◌, ◌-◌, ◌*◌, ◌/◌, ◌%◌, ◌^◌, ◌<◌, ◌≡◌, ap, ◌∙◌, arith, bit_and}
use gloxor.Base.Bits.{pow2, pow2-pow, pow2_pos, pow2-split, pow2-lt, bit_and-mask}
use gloxor.Math.{not32, align, align_up}

-- The mask of an alignment `p`, a divisor of the word.
not32-divisor :
    (p v : ℕ)
    → 0 < p
    → p < 2 ^ 32
    → p * suc v ≡ 2 ^ 32
    → not32 ((p % 2 ^ 32 + 2 ^ 32 - 1) % 2 ^ 32) ≡ p * v
unfolding not32
not32-divisor p v hp lt e = omega arith

-- On a value of 32 bits the mask of `2 ^ k` clears the low `k` bits.
mask32 :
    (k x : ℕ)
    → k < 32
    → x < 2 ^ 32
    → bit_and x (not32 ((pow2 k % 2 ^ 32 + 2 ^ 32 - 1) % 2 ^ 32)) ≡ pow2 k * (x / pow2 k)
mask32 k x hk hx =
    let whole : pow2 k * pow2 (32 - k) ≡ 2 ^ 32 = pow2-split k (32 - k) 32 (omega arith) in
    let some_high : 0 < pow2 (32 - k) = pow2_pos (32 - k) in
    let lt : pow2 k < 2 ^ 32 = pow2-lt k 32 hk in
    let high : pow2 (32 - k) ≡ suc (pow2 (32 - k) - 1) = omega arith in
    rw (not32-divisor (pow2 k) (pow2 (32 - k) - 1) (pow2_pos k) lt (rw high at whole))
      (bit_and-mask k (32 - k) x (omega arith))

-- `align` rounds a 32-bit value down to a multiple of the alignment, any power of two that a
-- `uint32_t` holds.
pub align-div : (k x : ℕ) → k < 32 → x < 2 ^ 32 → align x (2 ^ k) ≡ 2 ^ k * (x / 2 ^ k)
unfolding align
align-div k x hk hx = rw (pow2-pow k, mod-eq_of_lt hx) (mask32 k x hk hx)

-- `align_up` goes to the next multiple above, also from a value that is a multiple already, if the
-- sum of value and alignment fits 32 bits and the alignment is a power of two.
pub align_up-div :
    (k x : ℕ) → k < 32 → x + 2 ^ k < 2 ^ 32 → align_up x (2 ^ k) ≡ 2 ^ k * (x / 2 ^ k) + 2 ^ k
unfolding align_up
align_up-div k x hk h =
    let p_lt : pow2 k < 2 ^ 32 = pow2-lt k 32 hk in
    let sum_lt : x + pow2 k < 2 ^ 32 = rw (pow2-pow k) at h in
    let sum_eq : (x % 2 ^ 32 + pow2 k % 2 ^ 32) % 2 ^ 32 ≡ x + pow2 k = omega arith in
    rw (pow2-pow k, sum_eq)
      (mask32 k (x + pow2 k) hk sum_lt
        ∙ ap (λ (m : ℕ). pow2 k * m) (add-div_right x (pow2_pos k))
        ∙ omega arith)
