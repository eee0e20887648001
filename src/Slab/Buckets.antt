-- ===== src/Slab/Buckets.antt =====
-- The size classes of kernel/memory/alloc.cpp: the bucket of a size is the smallest that holds it.
use gloxor.Base.{
  ℕ, zero, suc, ◌+◌, ◌-◌, ◌≤◌, ◌<◌, ◌≡◌, ◌⊎◌, refl, some, false, leb, ◌==◌, get_or, Bool-cases, inl,
  inr, arith,
}
use mathlib.Core.Path.{subst}
use gloxor.Base.Bits.{pow2}
use gloxor.Math.{IsClz}
use gloxor.Math.Powers.{count, count_bounds, lt-count, count-lt}
use gloxor.Slab.{tiny_buckets, align_up_pow2, size2bucket}

-- The table holds the powers of two from 16 on.
bucket-pow2 : (j : ℕ) → j < 8 → get_or tiny_buckets j 0 ≡ pow2 (j + 4)
bucket-pow2 zero h = refl
bucket-pow2 (suc zero) h = refl
bucket-pow2 (suc (suc zero)) h = refl
bucket-pow2 (suc (suc (suc zero))) h = refl
bucket-pow2 (suc (suc (suc (suc zero)))) h = refl
bucket-pow2 (suc (suc (suc (suc (suc zero))))) h = refl
bucket-pow2 (suc (suc (suc (suc (suc (suc zero)))))) h = refl
bucket-pow2 (suc (suc (suc (suc (suc (suc (suc zero))))))) h = refl
bucket-pow2 (suc (suc (suc (suc (suc (suc (suc (suc j)))))))) h = absurd (omega arith)

-- With a 64-bit count of leading zeros that meets `IsClz`: every size from 1 to 2048 has a bucket, the
-- blocks of the bucket hold the size, and those of the bucket before it, if there is one, do not.
pub size2bucket-fits :
    {clz : ℕ → ℕ}
    → IsClz 64 clz
    → (size : ℕ) → 0 < size
    → size ≤ 2048
    → (j : ℕ) × (size2bucket clz size ≡ some j)
      × (j < 8)
      × (size ≤ get_or tiny_buckets j 0)
      × ((j ≡ 0) ⊎ (get_or tiny_buckets (j - 1) 0 < size))
unfolding size2bucket align_up_pow2
size2bucket-fits {clz} c size pos small = elim (Bool-cases (leb size 16)) [
  | inl tiny ↦
      let some_size : (size == 0) ≡ false = ground arith in
      (0, rw (some_size, tiny) refl, omega arith, ground arith, inl refl)
  | inr big ↦
      let some_size : (size == 0) ≡ false = ground arith in
      let not_one : (size == 1) ≡ false = ground arith in
      let above : 16 < size = ground arith in
      let wide : size < pow2 64 = omega arith in
      let k = count c size (omega arith) wide in
      let (k_pos, lower, upper) = count_bounds c size (omega arith) wide in
      let five : 4 < k = lt-count c size (omega arith) wide 4 (omega arith) in
      let eleven : k ≤ 11 = count-lt c size (omega arith) wide 11 (omega arith) in
      let e : k ≡ k - 4 + 4 = omega arith in
      let e' : k - 1 ≡ k - 4 - 1 + 4 = omega arith in
      (
        k - 4,
        rw (some_size, big, not_one) refl,
        omega arith,
        rw (bucket-pow2 (k - 4) (omega arith)) (subst (λ n. size ≤ pow2 n) e upper),
        inr (rw (bucket-pow2 (k - 4 - 1) (omega arith)) (subst (λ n. pow2 n < size) e' lower)),
      )
]
