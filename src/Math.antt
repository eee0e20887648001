-- ===== src/Math.antt =====
-- libraries/libglox/include/glox/math.hpp: alignment, bit lengths, decimal digit counts and the
-- next power of two. `__builtin_clz` and `__builtin_clzll` belong to the compiler: they are the
-- parameter `clz`, of which `IsClz` states what the compiler documents for an argument above 0.
pub mod Align
pub mod Digits
pub mod Powers
pub mod Zeros
mod Tests
use gloxor.Base.{
  ℕ, ◌+◌, ◌-◌, ◌*◌, ◌%◌, ◌^◌, ◌≤◌, ◌<◌, List, [], ◌∷◌, bit_and, ◌==◌, leb, ltb, if◌then◌else◌,
  get_or, Option, none, some,
}
use gloxor.Base.Bits.{pow2}

-- `~(to - 1)` and `& ` on `uint32_t`.
unfoldable pub not32 : ℕ → ℕ
not32 x = 2 ^ 32 - 1 - x

-- The arguments are converted to `uint32_t` by the call.
unfoldable pub align_up : ℕ → ℕ → ℕ
unfolding not32
align_up x to =
    let x' = x % 2 ^ 32 in
    let to' = to % 2 ^ 32 in bit_and ((x' + to') % 2 ^ 32) (not32 ((to' + 2 ^ 32 - 1) % 2 ^ 32))

unfoldable pub align : ℕ → ℕ → ℕ
unfolding not32
align x to =
    let x' = x % 2 ^ 32 in let to' = to % 2 ^ 32 in bit_and x' (not32 ((to' + 2 ^ 32 - 1) % 2 ^ 32))

-- What the compiler documents of `__builtin_clz` at `width` bits: the number of leading zero bits.
pub record IsClz (width : ℕ) (clz : ℕ → ℕ) : Type 0 where
  pub below : (x : ℕ) → 0 < x → x < pow2 width → clz x < width
  pub least : (x : ℕ) → 0 < x → x < pow2 width → pow2 (width - clz x - 1) ≤ x
  pub greatest : (x : ℕ) → 0 < x → x < pow2 width → x < pow2 (width - clz x)

-- The two tables of `log10`.
abbrev pub table : List ℕ
table =
    0 ∷ 0 ∷ 0 ∷ 0 ∷ 1 ∷ 1 ∷ 1 ∷ 2 ∷ 2 ∷ 2 ∷ 3 ∷ 3 ∷ 3 ∷ 3 ∷ 4 ∷ 4 ∷ 4 ∷ 5 ∷ 5 ∷ 5 ∷ 6 ∷ 6 ∷ 6 ∷ 6
    ∷ 7 ∷ 7 ∷ 7 ∷ 8 ∷ 8 ∷ 8 ∷ 9 ∷ 9 ∷ 9 ∷ 9 ∷ 10 ∷ 10 ∷ 10 ∷ 11 ∷ 11 ∷ 11 ∷ 12 ∷ 12 ∷ 12 ∷ 12 ∷ 13
    ∷ 13 ∷ 13 ∷ 14 ∷ 14 ∷ 14 ∷ 15 ∷ 15 ∷ 15 ∷ 15 ∷ 16 ∷ 16 ∷ 16 ∷ 17 ∷ 17 ∷ 17 ∷ 18 ∷ 18 ∷ 18 ∷ 18
    ∷ 19 ∷ []

abbrev pub powers_of_ten : List ℕ
powers_of_ten =
    1 ∷ 10 ∷ 100 ∷ 1000 ∷ 10000 ∷ 100000 ∷ 1000000 ∷ 10000000 ∷ 100000000 ∷ 1000000000 ∷ 10000000000
    ∷ 100000000000 ∷ 1000000000000 ∷ 10000000000000 ∷ 100000000000000 ∷ 1000000000000000
    ∷ 10000000000000000 ∷ 100000000000000000 ∷ 1000000000000000000 ∷ 10000000000000000000 ∷ []

module _ (clz : ℕ → ℕ) where
  -- `clz` is `__builtin_clzll`.
  unfoldable pub log2 : ℕ → ℕ
  log2 x = if x == 0 then 0 else 64 - clz x

  -- A read outside a table would give 0.
  unfoldable pub log10 : ℕ → ℕ
  log10 x =
      let digits = get_or table (log2 x) 0 in
      digits + (if leb (get_or powers_of_ten digits 0) x then 1 else 0)

  -- `1 << n` is an `int`, then converted to `width` unsigned bits: bit 31 is its sign, and a shift
  -- by 32 or more is undefined (`none`).
  shl_int : ℕ → ℕ → Option ℕ
  shl_int width n =
      if ltb n 31 then some (2 ^ n) else if n == 31 then some (2 ^ width - 2 ^ 31) else none

  -- Both overloads: `width` is 32 with `__builtin_clz`, and 64 with `__builtin_clzll`.
  unfoldable pub next_pow2 : ℕ → ℕ → Option ℕ
  unfolding shl_int
  next_pow2 width x =
      if x == 1 then some 1 else shl_int width (width - clz ((x + 2 ^ width - 1) % 2 ^ width))
