-- ===== src/Math/Tests.antt =====
-- Runs of math.hpp, and the theorems at inputs.
use gloxor.Base.{
  ℕ, ◌+◌, ◌-◌, ◌*◌, ◌/◌, ◌^◌, ◌≤◌, ◌<◌, ◌≡◌, refl, arith, leb, if◌then◌else◌, none, some,
}
use gloxor.Math.{align, align_up, log10, next_pow2}
use gloxor.Math.Align.{align-div, align_up-div}
use gloxor.Math.Digits.{log10_digits}
use gloxor.Math.Zeros.{leading_zeros, leading_zeros-IsClz}
use gloxor.Math.Powers.{next_pow2_rounds, next_pow2_wide}

align_runs : align 0x12345 0x1000 ≡ 0x12000
unfolding align
align_runs = refl

next_pow2_runs : next_pow2 (leading_zeros 64) 64 1000 ≡ some 1024
unfolding next_pow2
next_pow2_runs = refl

align-div_run : align 0x12345 (2 ^ 12) ≡ 2 ^ 12 * (0x12345 / 2 ^ 12)
align-div_run = align-div 12 0x12345 (omega arith) (omega arith)

align_up-div_run : align_up 0x12000 (2 ^ 12) ≡ 2 ^ 12 * (0x12000 / 2 ^ 12) + 2 ^ 12
align_up-div_run = align_up-div 12 0x12000 (omega arith) (omega arith)

log10_digits_example :
    let d : ℕ = log10 (leading_zeros 64) 1000 in (0 < d) × (10 ^ (d - 1) ≤ 1000) × (1000 < 10 ^ d)
log10_digits_example = log10_digits (leading_zeros-IsClz 64) 1000 (omega arith) (omega arith)

next_pow2_rounds_run :
    (k : ℕ) × (next_pow2 (leading_zeros 64) 64 1000 ≡ some (2 ^ k))
    × (1000 ≤ 2 ^ k)
    × (2 ^ k < 2 * 1000)
next_pow2_rounds_run =
    next_pow2_rounds (leading_zeros-IsClz 64) 1000 (omega arith) (omega arith) (omega arith)

next_pow2_wide_run :
    next_pow2 (leading_zeros 64) 64 0x60000000
    ≡ (if leb 0x60000000 (2 ^ 31) then some (2 ^ 64 - 2 ^ 31) else none)
next_pow2_wide_run =
    next_pow2_wide (leading_zeros-IsClz 64) 0x60000000 (omega arith) (omega arith) (omega arith)
