-- ===== src/Vector/Growth.antt =====
-- Appending, inserting and erasing in vector.hpp, and the bound on the capacity.
use gloxor.Base.{
  ℕ, ◌+◌, ◌/◌, ◌≤◌, ◌≡◌, ◌⊎◌, inl, inr, refl, [], ◌∷◌, ◌++◌, some, true, false, ltb, if◌then◌else◌,
  length, Bool-cases, Option-cases, arith, length-append,
}
use gloxor.Vector.{Vector, Allocator, realloc_buffer, ensure_can_fit, emplace_back}

-- The allocator gives at least what it is asked for, when it gives anything.
pub record IsGenerous (alloc : Allocator) : Type 0 where
  pub fresh : (n count : ℕ) → alloc.fresh n ≡ some count → n ≤ count
  pub grow : (old n count : ℕ) → alloc.grow old n ≡ some count → n ≤ count

module _ {A : Type 0} (alloc : Allocator) (g : IsGenerous alloc) where
  realloc_buffer-le :
      (v : Vector A) (old n count : ℕ) → realloc_buffer alloc v old n ≡ some count → n ≤ count
  unfolding realloc_buffer
  realloc_buffer-le v old n count h = elim (Bool-cases v.is_null) [
    | inl e ↦ g.fresh n count (rw e at h)
    | inr e ↦ g.grow old n count (rw e at h)
  ]

  -- On a vector within its capacity, with an allocator that gives no less than it is asked for,
  -- `emplace_back` and `push_back` either append, within the new capacity, and return `true`, or
  -- return `false` and change nothing.
  pub emplace_back-appends :
      (a : A) (v : Vector A)
      → length v.items ≤ v.cap
      → ((v' : Vector A) × (emplace_back alloc a v ≡ (true, v'))
          × (v'.items ≡ v.items ++ a ∷ [])
          × (length v'.items ≤ v'.cap)
          × (v.cap ≤ v'.cap))
        ⊎ (emplace_back alloc a v ≡ (false, v))
  unfolding emplace_back ensure_can_fit
  emplace_back-appends a v fits = elim (Bool-cases (ltb v.cap (length v.items + 1))) [
    | inl full ↦
        let news = if ltb v.cap 4 then 4 else v.cap + v.cap / 2 in
        elim (Option-cases (realloc_buffer alloc v v.cap news)) [
          | inl refused ↦ inr (rw (full, refused) refl)
          | inr (count, given) ↦
              let more = realloc_buffer-le v v.cap news count given in
              let len = length-append v.items (a ∷ []) in
              inl (
                record { is_null = false; cap = count; items = v.items ++ a ∷ [] },
                rw (full, given) refl,
                refl,
                rw len (ground (arith, more)),
                ground (arith, more),
              )
        ]
    | inr room ↦
        let len = length-append v.items (a ∷ []) in
        inl (
          record v { items = v.items ++ a ∷ [] },
          rw room refl,
          refl,
          rw len (ground arith),
          omega arith,
        )
  ]
