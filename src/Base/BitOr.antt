-- ===== src/Base/BitOr.antt =====
-- Facts about `|`: its digits above and below a power of two.
use Prim.Native.Nat.{
  ℕ, zero, suc, ◌+◌, ◌*◌, ◌/◌, ◌%◌, ◌≤◌, ◌<◌, max, bit_or, digits, bit_or-bitwise,
}
use mathlib.Core.Path.{◌≡◌, refl, ap, sym, ◌∙◌}
use native.Mathlib.Nat.{div-div-eq-div-mul}
use native.Mathlib.Omega.{arith}
use gloxor.Base.Bits.{pow2}

-- `|` runs through the binary digits on as much fuel as its first argument.
abbrev disjoin : ℕ → ℕ → ℕ → ℕ
disjoin fuel x y = digits (λ y. y) max fuel x y

disjoin-none : (fuel y : ℕ) → disjoin fuel zero y ≡ y
disjoin-none zero y = refl
disjoin-none (suc fuel) y = refl

-- Spare fuel changes nothing.
disjoin_spare : (y x less more : ℕ) → x ≤ less → less ≤ more → disjoin more x y ≡ disjoin less x y
disjoin_spare y zero less more h₁ h₂ = rw (disjoin-none more y, disjoin-none less y) refl
disjoin_spare y (suc x) zero more h₁ h₂ = absurd (omega arith)
disjoin_spare y (suc x) (suc less) zero h₁ h₂ = absurd (omega arith)
disjoin_spare y (suc x) (suc less) (suc more) h₁ h₂ =
    let halves = disjoin_spare (y / 2) (suc x / 2) less more (omega arith) (omega arith) in
    omega (arith, halves)

pub zero-bit_or : (y : ℕ) → bit_or zero y ≡ y
zero-bit_or y = bit_or-bitwise zero y

-- The lowest digit of a disjunction, and the others.
pub bit_or_step : (x y : ℕ) → bit_or x y ≡ max (x % 2) (y % 2) + 2 * bit_or (x / 2) (y / 2)
bit_or_step zero y = omega (arith, zero-bit_or (y / 2), zero-bit_or y)
bit_or_step (suc x) y =
    let half = suc x / 2 in
    let spare = disjoin_spare (y / 2) half half x (omega arith) (omega arith) in
    omega (arith, spare, bit_or-bitwise half (y / 2), bit_or-bitwise (suc x) y)

bit_or-half : (x y : ℕ) → bit_or x y / 2 ≡ bit_or (x / 2) (y / 2)
bit_or-half x y = omega (arith, bit_or_step x y)

-- The digits from the k-th on are those of the operands.
pub bit_or-div : (k x y : ℕ) → bit_or x y / pow2 k ≡ bit_or (x / pow2 k) (y / pow2 k)
bit_or-div zero x y =
    let a : bit_or x y / 1 ≡ bit_or x y = omega arith in
    let b : x / 1 ≡ x = omega arith in let c : y / 1 ≡ y = omega arith in rw (a, b, c) refl
bit_or-div (suc k) x y =
    sym (div-div-eq-div-mul (bit_or x y) 2 (pow2 k))
    ∙ ap (λ n. n / pow2 k) (bit_or-half x y)
    ∙ bit_or-div k (x / 2) (y / 2)
    ∙ rw (div-div-eq-div-mul x 2 (pow2 k), div-div-eq-div-mul y 2 (pow2 k)) refl

pub bit_or-odd : (x y : ℕ) → bit_or x y % 2 ≡ max (x % 2) (y % 2)
bit_or-odd x y = omega (arith, bit_or_step x y)

-- Operands with no digit in common place: one below `2 ^ k`, the other a multiple of it.
pub bit_or-disjoint : (k x h : ℕ) → x < pow2 k → bit_or x (pow2 k * h) ≡ x + pow2 k * h
bit_or-disjoint zero zero h lt = omega (arith, zero-bit_or (1 * h))
bit_or-disjoint zero (suc x) h lt = absurd (omega arith)
bit_or-disjoint (suc k) x h lt =
    let half : (pow2 (suc k) * h) / 2 ≡ pow2 k * h = omega arith in
    let even : (pow2 (suc k) * h) % 2 ≡ 0 = omega arith in
    omega (
      arith,
      bit_or_step x (pow2 (suc k) * h),
      ap (λ (m : ℕ). bit_or (x / 2) m) half,
      even,
      bit_or-disjoint k (x / 2) h (omega arith),
    )

bit_or-zero_fuel : (n x : ℕ) → x ≤ n → bit_or x 0 ≡ x
bit_or-zero_fuel zero zero h = zero-bit_or 0
bit_or-zero_fuel zero (suc x) h = absurd (omega arith)
bit_or-zero_fuel (suc n) zero h = zero-bit_or 0
bit_or-zero_fuel (suc n) (suc x) h =
    omega (arith, bit_or_step (suc x) 0, bit_or-zero_fuel n (suc x / 2) (omega arith))

pub bit_or-zero : (x : ℕ) → bit_or x 0 ≡ x
bit_or-zero x = bit_or-zero_fuel x x (omega arith)
