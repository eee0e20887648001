-- ===== src/HeapAlloc/Sizes.antt =====
-- The sizes of libraries/libglox/include/glox/heap_alloc.hpp: what alloc gives is as large as asked.
use gloxor.Base.{
  ℕ, zero, suc, ◌+◌, ◌-◌, ◌*◌, ◌/◌, ◌%◌, ◌≤◌, ◌<◌, ◌≡◌, ◌≢◌, refl, ap, ◌∙◌, List, [], ◌∷◌, true,
  false, ◌||◌, ltb, ◌==◌, Bool-cases, inl, inr, bit_and, max, arith,
}
use native.Mathlib.Nat.{div-add-mod, mod-lt, mul-add}
use gloxor.Base.Bits.{pow2, pow2_pos, pow2-split, pow2-lt, bit_and-mask, bit_and_step, bit_and-zero}
use gloxor.HeapAlloc.{
  State, align_up, get_bucket_index, get_block_size, page_size, has_single_bit, allocate_slow_path,
  hand_out, small_from, palloc_alloc, alloc_small, alloc_large, alloc,
}

align_up-mask :
    (k v : ℕ)
    → k < 64
    → v + pow2 k ≤ 18446744073709551616
    → align_up v (pow2 k) ≡ pow2 k * ((v + pow2 k - 1) / pow2 k)
unfolding align_up
align_up-mask k v hk h =
    let p = pow2_pos k in
    let whole : pow2 k * pow2 (64 - k) ≡ pow2 64 = pow2-split k (64 - k) 64 (omega arith) in
    let sum : (v + pow2 k + 18446744073709551616 - 1) % 18446744073709551616 ≡ v + pow2 k - 1 =
      omega arith in
    let high : pow2 (64 - k) ≡ pow2 (64 - k) - 1 + 1 = omega (arith, pow2_pos (64 - k)) in
    let mask : 18446744073709551616 - pow2 k ≡ pow2 k * (pow2 (64 - k) - 1) =
      omega
        (arith, whole, ap (λ (n : ℕ). pow2 k * n) high, mul-add (pow2 k) (pow2 (64 - k) - 1) 1) in
    rw (sum, mask) (bit_and-mask k (64 - k) (v + pow2 k - 1) (omega arith))

-- Rounding up loses nothing and adds less than the alignment.
pub align_up_bounds :
    (k v : ℕ)
    → k < 64
    → v + pow2 k ≤ 18446744073709551616
    → (v ≤ align_up v (pow2 k)) × (align_up v (pow2 k) < v + pow2 k)
align_up_bounds k v hk h =
    let d = div-add-mod (v + pow2 k - 1) (pow2 k) in
    let r = mod-lt (v + pow2 k - 1) (pow2_pos k) in
    rw (align_up-mask k v hk h) (omega arith, omega arith)

-- A size fits the blocks of its bucket, with less than a granule to spare.
pub bucket_bounds :
    (s : ℕ)
    → 0 < s
    → (s ≤ get_block_size (get_bucket_index s)) × (get_block_size (get_bucket_index s) < s + 8)
unfolding get_block_size get_bucket_index
bucket_bounds s pos =
    let some_size : (s == 0) ≡ false = ground arith in rw some_size (omega arith, omega arith)

single_lem : (k : ℕ) → bit_and (pow2 k) (pow2 k - 1) ≡ 0
single_lem zero = bit_and-zero 1
single_lem (suc k) =
    let half : (2 * pow2 k - 1) / 2 ≡ pow2 k - 1 = omega (arith, pow2_pos k) in
    let whole : 2 * pow2 k / 2 ≡ pow2 k = omega arith in
    bit_and_step (2 * pow2 k) (2 * pow2 k - 1) ∙ rw (half, whole) (omega (arith, single_lem k))

pub has_single_bit-pow2 : (k : ℕ) → has_single_bit (pow2 k) ≡ true
unfolding has_single_bit
has_single_bit-pow2 k =
    let some_bit : (pow2 k == 0) ≡ false = ground (arith, pow2_pos k) in
    rw (some_bit, single_lem k) refl

hand_out-size :
    (bucket : ℕ) (r : ℕ × State)
    → (hand_out bucket r).0.0 ≢ 0
    → (hand_out bucket r).0.1 ≡ get_block_size bucket
unfolding hand_out
hand_out-size bucket (ptr, s) h = elim (Bool-cases (ptr == 0)) [
  | inl nil ↦ absurd (h (rw (nil, hand_out) refl))
  | inr some_ptr ↦ rw (some_ptr, hand_out) refl
]

small_from-size :
    (bucket tid : ℕ) (s : State) (l : List ℕ)
    → (small_from bucket tid s l).0.0 ≢ 0
    → (small_from bucket tid s l).0.1 ≡ get_block_size bucket
unfolding small_from
small_from-size bucket tid s [] h = hand_out-size bucket (allocate_slow_path bucket tid s) h
small_from-size bucket tid s (block ∷ rest) h = refl

-- The alignment that alloc goes on with.
at_least_granule : (k : ℕ) → k ≤ 16 → (j : ℕ) × (max (pow2 k) 8 ≡ pow2 j) × (j ≤ 16)
at_least_granule zero h = (3, refl, omega arith)
at_least_granule (suc zero) h = (3, refl, omega arith)
at_least_granule (suc (suc zero)) h = (3, refl, omega arith)
at_least_granule (suc (suc (suc k))) h = (suc (suc (suc k)), omega (arith, pow2_pos k), h)

pow2-le : (j : ℕ) → j ≤ 16 → pow2 j ≤ 65536
pow2-le j h = elim (Bool-cases (j == 16)) [
  | inl e ↦ let e' : j ≡ 16 = ground arith in rw e' (omega arith)
  | inr n ↦ let l : j < 16 = ground arith in omega (arith, pow2-lt j 16 l)
]

alloc_large-size :
    (n j tid : ℕ) (s : State)
    → j ≤ 16
    → 8 ≤ pow2 j
    → n + 200000 ≤ 18446744073709551616
    → (alloc_large n (pow2 j) tid s).0.0 ≢ 0
    → n ≤ (alloc_large n (pow2 j) tid s).0.1
unfolding alloc_large
alloc_large-size n j tid s hj wide small h =
    let top = pow2-le j hj in
    let same : max (pow2 j) 8 ≡ pow2 j = omega arith in
    let offset = align_up 56 (max (pow2 j) 8) in
    let low : offset < 56 + pow2 j = rw same (align_up_bounds j 56 (omega arith) (omega arith)).1 in
    let sum : (n + offset) % 18446744073709551616 ≡ n + offset = omega arith in
    let (up, room) = align_up_bounds 16 (n + offset) (omega arith) (omega arith) in
    elim (Bool-cases ((palloc_alloc s).0 == 0)) [
      | inl nil ↦ absurd (h (rw (nil, alloc_large) refl))
      | inr page ↦ rw (page, sum, alloc_large) (omega arith)
    ]

alloc_small-enough :
    (n aligned tid : ℕ) (s : State)
    → n ≤ aligned
    → (alloc_small (get_bucket_index aligned) tid s).0.0 ≢ 0
    → n ≤ (alloc_small (get_bucket_index aligned) tid s).0.1
unfolding alloc_small
alloc_small-enough n aligned tid s h some_ptr =
    let bucket = get_bucket_index aligned in
    let size = small_from-size bucket tid s (s.local_free bucket) some_ptr in
    rw size (elim (Bool-cases (aligned == 0)) [
      | inl nil ↦ let small : n ≡ 0 = ground arith in rw small (omega arith)
      | inr pos ↦
          let some_size : 0 < aligned = ground arith in
          omega (arith, h, bucket_bounds aligned some_size)
    ])

-- alloc with an alignment that is a power of two up to the size of a page, and a size that leaves room
-- in 64 bits: where it gives a block, the block is at least as large as asked.
pub alloc-enough :
    (n k tid : ℕ) (s : State)
    → k ≤ 16
    → n + 200000 ≤ 18446744073709551616
    → (alloc n (pow2 k) tid s).0.0 ≢ 0
    → n ≤ (alloc n (pow2 k) tid s).0.1
unfolding alloc
alloc-enough n k tid s hk small h =
    let (j, e, hj) = at_least_granule k hk in
    let top = pow2-le k hk in
    let fits : ltb page_size (pow2 k) ≡ false = ground arith in
    let single = has_single_bit-pow2 k in
    let wide : 8 ≤ pow2 j = omega arith in
    let aligned = align_up (align_up n (max (pow2 k) 8)) 8 in
    let a1 : (n ≤ align_up n (max (pow2 k) 8)) × (align_up n (max (pow2 k) 8) < n + pow2 j) =
      rw e (align_up_bounds j n (omega arith) (omega (arith, pow2-le j hj))) in
    let a2 =
      align_up_bounds 3 (align_up n (max (pow2 k) 8)) (omega arith)
        (omega (arith, a1, pow2-le j hj)) in
    let ups : n ≤ aligned = omega (arith, a1, a2) in
    elim (Bool-cases (ltb 2048 aligned || ltb 2048 (max (pow2 k) 8))) [
      | inl large ↦
          let g : alloc n (pow2 k) tid s ≡ alloc_large n (pow2 j) tid s =
            rw (single, fits, large, e, alloc) refl in
          rw g (alloc_large-size n j tid s hj wide small (rw g at h))
      | inr bucket ↦
          let g : alloc n (pow2 k) tid s ≡ alloc_small (get_bucket_index aligned) tid s =
            rw (single, fits, bucket, alloc) refl in
          rw g (alloc_small-enough n aligned tid s ups (rw g at h))
    ]
