-- ===== src/Pmm/Spec.antt =====
-- What the page allocator promises: a free list is a sequence of ranges in ascending order, none
-- touching the next, and its operations cut a block out of the first range that is large enough, or
-- put a range in and join it with its neighbours. `Covers` is the abstract view: a set of addresses.
use gloxor.Base.{
  ℕ, ◌+◌, ◌-◌, ◌≤◌, ◌<◌, ◌^◌, ◌≡◌, ◌⊎◌, inl, inr, refl, List, [], ◌∷◌, Bool, ltb, leb, ◌==◌,
  if◌then◌else◌, ◌&&◌, ◌||◌, false, true, arith, Bool-cases, suc, ◌∙◌, ◌≢◌,
}
use mathlib.Core.Bool.{or_assoc}

-- A range: its base and its size.
abbrev pub Ranges : Type 0
Ranges = List (ℕ × ℕ)

-- Ascending above `lo`, not empty, apart from one another, and below `2 ^ 64`.
abbrev pub Sorted : ℕ → Ranges → Type 0
Sorted lo [] = Unit {0}
Sorted lo ((a, n) ∷ r) = (lo < a) × (0 < n) × (a + n < 2 ^ 64) × Sorted (a + n) r

abbrev pub within : ℕ → ℕ → ℕ → Bool
within q a n = leb a q && ltb q (a + n)

-- The addresses of the ranges.
unfoldable pub covers : ℕ → Ranges → Bool
covers q [] = false
covers q ((a, n) ∷ r) = within q a n || covers q r

-- First fit: the base of the block, 0 if there is none, and the ranges that are left.
unfoldable pub first_fit : ℕ → Ranges → ℕ × Ranges
first_fit k [] = (0, [])
first_fit k ((a, n) ∷ r) =
    if ltb n k
    then ((first_fit k r).0, (a, n) ∷ (first_fit k r).1)
    else if n == k
    then (a, r)
    else (a + (n - k), (a, n - k) ∷ r)

-- The range `(a, n)` in front of `r`, joined with the first of `r` if they touch.
unfoldable pub join : ℕ → ℕ → Ranges → Ranges
join a n [] = (a, n) ∷ []
join a n ((b, m) ∷ r) = if a + n == b then (a, n + m) ∷ r else (a, n) ∷ (b, m) ∷ r

-- A range put in its place.
unfoldable pub insert_range : ℕ → ℕ → Ranges → Ranges
insert_range c k [] = (c, k) ∷ []
insert_range c k ((a, n) ∷ r) =
    if ltb c a
    then join c k ((a, n) ∷ r)
    else if a + n == c
    then join a (n + k) r
    else (a, n) ∷ insert_range c k r

-- The range `(c, k)` meets none of the ranges.
abbrev pub Apart : ℕ → ℕ → Ranges → Type 0
Apart c k [] = Unit {0}
Apart c k ((a, n) ∷ r) = ((c + k ≤ a) ⊎ (a + n ≤ c)) × Apart c k r

-- The base of the last range.
abbrev pub last_base : ℕ → Ranges → ℕ
last_base d [] = d
last_base d ((a, n) ∷ r) = last_base a r

pub Sorted-weaken : (lo lo' : ℕ) (xs : Ranges) → lo' ≤ lo → Sorted lo xs → Sorted lo' xs
Sorted-weaken lo lo' [] h s = tt
Sorted-weaken lo lo' ((a, n) ∷ r) h s = (omega arith, s.1, s.2, s.3)

-- Nothing below the bound is covered.
pub covers-above : (q lo : ℕ) (xs : Ranges) → Sorted lo xs → q ≤ lo → covers q xs ≡ false
unfolding covers
covers-above q lo [] s h = refl
covers-above q lo ((a, n) ∷ r) s h = ground (arith, covers-above q (a + n) r s.3)

-- First fit keeps the ranges in order.
pub first_fit-Sorted :
    (k lo : ℕ) (xs : Ranges) → 0 < k → Sorted lo xs → Sorted lo (first_fit k xs).1
unfolding first_fit
first_fit-Sorted k lo [] h s = tt
first_fit-Sorted k lo ((a, n) ∷ r) h s =
    let rest = first_fit-Sorted k (a + n) r h s.3 in
    let wider = Sorted-weaken (a + n) lo r (omega arith) s.3 in
    let moved : n - k + k ≡ n → Sorted (a + (n - k)) r =
      λ _. Sorted-weaken (a + n) (a + (n - k)) r (omega arith) s.3 in
    ground (arith, rest, wider, moved)

-- Cut and rest together are what was free, and they do not overlap.
pub first_fit-covers :
    (k lo q : ℕ) (xs : Ranges)
    → 0 < k
    → Sorted lo xs
    → 0 < (first_fit k xs).0
    → (covers q xs ≡ (within q (first_fit k xs).0 k || covers q (first_fit k xs).1))
      × ((within q (first_fit k xs).0 k && covers q (first_fit k xs).1) ≡ false)
unfolding first_fit covers
first_fit-covers k lo q [] h s found = absurd (omega arith)
first_fit-covers k lo q ((a, n) ∷ r) h s found =
    ground (arith, first_fit-covers k (a + n) q r h s.3, covers-above q (a + n) r s.3)

join-Sorted :
    (a n lo : ℕ) (r : Ranges)
    → lo < a
    → 0 < n
    → a + n < 2 ^ 64
    → (e : ℕ) → a + n ≤ suc e
    → Sorted e r
    → Sorted lo (join a n r)
unfolding join
join-Sorted a n lo [] h₁ h₂ h₃ e h₄ s = (h₁, h₂, h₃, tt)
join-Sorted a n lo ((b, m) ∷ r) h₁ h₂ h₃ e h₄ s = elim (Bool-cases (a + n == b)) [
  | inl touch ↦
      let tail = Sorted-weaken (b + m) (a + (n + m)) r (ground arith) s.3 in
      rw touch (h₁, omega arith, ground arith, tail)
  | inr free ↦ rw free (h₁, h₂, h₃, (ground arith, s.1, s.2, s.3))
]

within-add : (q a n m : ℕ) → (within q a n || within q (a + n) m) ≡ within q a (n + m)
within-add q a n m = ground arith

or_shuffle : (x y z : Bool) → (x || (y || z)) ≡ (y || (x || z))
or_shuffle true true z = refl
or_shuffle true false z = refl
or_shuffle false true z = refl
or_shuffle false false z = refl

join-covers : (a n q : ℕ) (r : Ranges) → covers q (join a n r) ≡ (within q a n || covers q r)
unfolding join covers
join-covers a n q [] = refl
join-covers a n q ((b, m) ∷ r) = elim (Bool-cases (a + n == b)) [
  | inl touch ↦
      let e : a + n ≡ b = ground arith in
      rw touch
        (rw (← e, ← within-add q a n m) (or_assoc (within q a n) (within q (a + n) m) (covers q r)))
  | inr free ↦ rw free refl
]

Sorted-Apart : (c k lo : ℕ) (r : Ranges) → Sorted lo r → c ≤ lo → Apart c k r → Sorted (c + k - 1) r
Sorted-Apart c k lo [] s h a = tt
Sorted-Apart c k lo ((b, m) ∷ r) s h (apart, more) = (ground arith, s.1, s.2, s.3)

pub insert_range-Sorted :
    (c k lo : ℕ) (xs : Ranges)
    → lo < c
    → 0 < k
    → c + k < 2 ^ 64
    → Sorted lo xs
    → Apart c k xs
    → Sorted lo (insert_range c k xs)
unfolding insert_range
insert_range-Sorted c k lo [] h₁ h₂ h₃ s a = (h₁, h₂, h₃, tt)
insert_range-Sorted c k lo ((a, n) ∷ r) h₁ h₂ h₃ s (apart, more) =
    let below : c < a → Sorted lo (join c k ((a, n) ∷ r)) = λ h.
      join-Sorted c k lo ((a, n) ∷ r) h₁ h₂ h₃ (a - 1) (ground arith)
        (omega arith, s.1, s.2, s.3) in
    let joined : a + n ≡ c → Sorted lo (join a (n + k) r) = λ e.
      join-Sorted a (n + k) lo r s.0 (omega arith) (omega arith) (a + n + k - 1) (omega arith) (
        let apart' : Sorted (c + k - 1) r = Sorted-Apart c k (a + n) r s.3 (omega arith) more in
        rw e apart') in
    ground (arith, insert_range-Sorted c k (a + n) r, below, joined)

pub insert_range-covers :
    (c k lo q : ℕ) (xs : Ranges)
    → Sorted lo xs
    → Apart c k xs
    → covers q (insert_range c k xs) ≡ (within q c k || covers q xs)
unfolding insert_range covers
insert_range-covers c k lo q [] s a = refl
insert_range-covers c k lo q ((a, n) ∷ r) s (apart, more) = elim (Bool-cases (ltb c a)) [
  | inl low ↦ rw (low, join-covers c k q ((a, n) ∷ r)) refl
  | inr high ↦ elim (Bool-cases (a + n == c)) [
    | inl touch ↦
        let e : a + n ≡ c = ground arith in
        rw (high, touch, join-covers a (n + k) q r, ← within-add q a n k, ← e)
          (or_assoc (within q a n) (within q (a + n) k) (covers q r)
            ∙ or_shuffle (within q a n) (within q (a + n) k) (covers q r))
    | inr free ↦
        rw (high, free, insert_range-covers c k (a + n) q r s.3 more)
          (or_shuffle (within q a n) (within q c k) (covers q r))
  ]
]

-- The shapes that `insert_range` takes, one for each way of touching the neighbours.
module _ (a n b m c k : ℕ) (r : Ranges) (pos : 0 < n) where
  pub insert_range_below :
      a + n ≡ c → c + k < b → insert_range c k ((a, n) ∷ (b, m) ∷ r) ≡ (a, n + k) ∷ (b, m) ∷ r
  unfolding insert_range join
  insert_range_below e h = ground arith

  pub insert_range_both :
      a + n ≡ c → c + k ≡ b → insert_range c k ((a, n) ∷ (b, m) ∷ r) ≡ (a, n + k + m) ∷ r
  unfolding insert_range join
  insert_range_both e h = ground arith

  pub insert_range_between :
      a + n < c
      → c < b
      → c + k < b
      → insert_range c k ((a, n) ∷ (b, m) ∷ r) ≡ (a, n) ∷ (c, k) ∷ (b, m) ∷ r
  unfolding insert_range join
  insert_range_between e f h = ground arith

  pub insert_range_above :
      a + n < c
      → c < b
      → c + k ≡ b
      → insert_range c k ((a, n) ∷ (b, m) ∷ r) ≡ (a, n) ∷ (c, k + m) ∷ r
  unfolding insert_range join
  insert_range_above e f h = ground arith

pub insert_range_after :
    (a n c k : ℕ) (r : Ranges)
    → a < c
    → a + n ≢ c
    → insert_range c k ((a, n) ∷ r) ≡ (a, n) ∷ insert_range c k r
unfolding insert_range
insert_range_after a n c k r lt ne = ground arith
