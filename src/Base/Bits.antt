-- ===== src/Base/Bits.antt =====
-- Facts about `&` with the masks that the sources build from powers of two.
use Prim.Native.Nat.{
  ℕ, zero, suc, ◌+◌, ◌-◌, ◌*◌, ◌/◌, ◌%◌, ◌^◌, ◌≤◌, ◌<◌, min, bit_and, digits, bit_and-bitwise,
}
use mathlib.Core.Path.{◌≡◌, refl, ap}
use native.Mathlib.Nat.{pow-suc, div-div-eq-div-mul}
use native.Mathlib.Omega.{arith}

-- `2 ^ k` by recursion, which tactics compute at `suc k`.
abbrev pub pow2 : ℕ → ℕ
pow2 zero = 1
pow2 (suc k) = 2 * pow2 k

pub pow2-pow : (k : ℕ) → 2 ^ k ≡ pow2 k
pow2-pow zero = refl
pow2-pow (suc k) = omega (arith, pow-suc 2 k, pow2-pow k)

pub pow2_pos : (k : ℕ) → 0 < pow2 k
pow2_pos zero = omega arith
pow2_pos (suc k) = omega (arith, pow2_pos k)

-- `&` runs through the binary digits on as much fuel as its first argument.
abbrev conjoin : ℕ → ℕ → ℕ → ℕ
conjoin fuel x y = digits (λ y. zero) min fuel x y

conjoin-none : (fuel y : ℕ) → conjoin fuel zero y ≡ zero
conjoin-none zero y = refl
conjoin-none (suc fuel) y = refl

-- Spare fuel changes nothing.
conjoin_spare : (y x less more : ℕ) → x ≤ less → less ≤ more → conjoin more x y ≡ conjoin less x y
conjoin_spare y zero less more h₁ h₂ = rw (conjoin-none more y, conjoin-none less y) refl
conjoin_spare y (suc x) zero more h₁ h₂ = absurd (omega arith)
conjoin_spare y (suc x) (suc less) zero h₁ h₂ = absurd (omega arith)
conjoin_spare y (suc x) (suc less) (suc more) h₁ h₂ =
    let halves = conjoin_spare (y / 2) (suc x / 2) less more (omega arith) (omega arith) in
    omega (arith, halves)

pub zero-bit_and : (y : ℕ) → bit_and zero y ≡ zero
zero-bit_and y = bit_and-bitwise zero y

-- The lowest digit of a conjunction, and the others.
pub bit_and_step : (x y : ℕ) → bit_and x y ≡ min (x % 2) (y % 2) + 2 * bit_and (x / 2) (y / 2)
bit_and_step zero y = let none = zero-bit_and (y / 2) in omega (arith, none, zero-bit_and y)
bit_and_step (suc x) y =
    let half = suc x / 2 in
    let spare = conjoin_spare (y / 2) half half x (omega arith) (omega arith) in
    omega (arith, spare, bit_and-bitwise half (y / 2), bit_and-bitwise (suc x) y)

-- A conjunction is at most its second argument.
bit_and-le_fuel : (n a b : ℕ) → a ≤ n → bit_and a b ≤ b
bit_and-le_fuel zero zero b h = omega (arith, zero-bit_and b)
bit_and-le_fuel zero (suc a) b h = absurd (omega arith)
bit_and-le_fuel (suc n) zero b h = omega (arith, zero-bit_and b)
bit_and-le_fuel (suc n) (suc a) b h =
    omega (arith, bit_and_step (suc a) b, bit_and-le_fuel n (suc a / 2) (b / 2) (omega arith))

pub bit_and-le : (a b : ℕ) → bit_and a b ≤ b
bit_and-le a b = bit_and-le_fuel a a b (omega arith)

pub bit_and-zero : (a : ℕ) → bit_and a 0 ≡ 0
bit_and-zero a = omega (arith, bit_and-le a 0)

-- All ones: the identity below the width.
pub bit_and-ones : (w a : ℕ) → a < pow2 w → bit_and a (pow2 w - 1) ≡ a
bit_and-ones zero zero h = zero-bit_and 0
bit_and-ones zero (suc a) h = absurd (omega arith)
bit_and-ones (suc w) a h = omega (
  arith,
  pow2_pos w,
  bit_and_step a (pow2 (suc w) - 1),
  ap (λ (m : ℕ). bit_and (a / 2) m) half,
  bit_and-ones w (a / 2) (omega arith),
)
  where
    half : (pow2 (suc w) - 1) / 2 ≡ pow2 w - 1
    half = omega (arith, pow2_pos w)

-- `x & ~(2 ^ k - 1)` at width `k + w` clears the low `k` bits.
pub bit_and-mask :
    (k w x : ℕ) → x < pow2 k * pow2 w → bit_and x (pow2 k * (pow2 w - 1)) ≡ pow2 k * (x / pow2 k)
bit_and-mask zero w x h =
    omega (arith, ap (λ (m : ℕ). bit_and x m) one, bit_and-ones w x (omega arith))
  where
    one : 1 * (pow2 w - 1) ≡ pow2 w - 1
    one = omega arith
bit_and-mask (suc k) w x h = omega (
  arith,
  bit_and_step x (pow2 (suc k) * (pow2 w - 1)),
  ap (λ (m : ℕ). bit_and (x / 2) m) half,
  bit_and-mask k w (x / 2) small,
  ap (λ (m : ℕ). pow2 k * m) (div-div-eq-div-mul x 2 (pow2 k)),
  even,
)
  where
    half : (pow2 (suc k) * (pow2 w - 1)) / 2 ≡ pow2 k * (pow2 w - 1)
    half = omega arith

    even : (pow2 (suc k) * (pow2 w - 1)) % 2 ≡ 0
    even = omega arith

    small : x / 2 < pow2 k * pow2 w
    small = omega arith

pub pow2-split : (k w n : ℕ) → k + w ≡ n → pow2 k * pow2 w ≡ pow2 n
pow2-split zero w n e = let e' : w ≡ n = omega arith in rw e' (omega arith)
pow2-split (suc k) w zero e = absurd (omega arith)
pow2-split (suc k) w (suc n) e = let ih = pow2-split k w n (omega arith) in omega arith

pub pow2-lt : (k n : ℕ) → k < n → pow2 k < pow2 n
pow2-lt k zero h = absurd (omega arith)
pow2-lt zero (suc n) h = omega (arith, pow2_pos n)
pow2-lt (suc k) (suc n) h = omega (arith, pow2-lt k n (omega arith))

-- The exponents are ordered as the powers.
pub lt_of_pow2-lt : (k n : ℕ) → pow2 k < pow2 n → k < n
lt_of_pow2-lt k zero h = absurd (omega (arith, pow2_pos k))
lt_of_pow2-lt zero (suc n) h = omega arith
lt_of_pow2-lt (suc k) (suc n) h = omega (arith, lt_of_pow2-lt k n (omega arith))
