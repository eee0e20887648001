-- ===== src/Strings/Blocks.antt =====
-- Prefixes of blocks under writes and copies, and the bounds of the capacity's field.
use gloxor.Base.{
  ℕ, zero, suc, ◌+◌, ◌*◌, ◌/◌, ◌%◌, ◌≤◌, ◌<◌, ◌≡◌, refl, ap, ◌⊎◌, inl, inr, List, [], ◌∷◌, ◌++◌,
  arith, length, take, drop, set, length-append, length-take, length-drop,
}

pub take-set-suc :
    (i c : ℕ) (d : List ℕ) → i < length d → take (suc i) (set d i c) ≡ take i d ++ c ∷ []
take-set-suc i c [] h = absurd (omega arith)
take-set-suc zero c (x ∷ d) h = refl
take-set-suc (suc i) c (x ∷ d) h = ap (λ l. x ∷ l) (take-set-suc i c d (omega arith))

-- A prefix of a prefix, whatever follows that.
pub take-take_append :
    (k n : ℕ) (from rest : List ℕ)
    → k ≤ n
    → n ≤ length from
    → take k (take n from ++ rest) ≡ take k from
take-take_append zero n from rest h g = refl
take-take_append (suc k) zero from rest h g = absurd (omega arith)
take-take_append (suc k) (suc n) [] rest h g = absurd (omega arith)
take-take_append (suc k) (suc n) (x ∷ from) rest h g =
    ap (λ l. x ∷ l) (take-take_append k n from rest (omega arith) (omega arith))

pub length-copy :
    (n : ℕ) (from to : List ℕ)
    → n ≤ length from
    → n ≤ length to
    → length (take n from ++ drop n to) ≡ length to
length-copy n from to h g = omega (
  arith,
  length-append {0} (take n from) (drop n to),
  length-take {0} n from,
  length-drop {0} n to,
)

-- What the seven bits of the field keep of a count, for both values of CAP_FACTOR.
pub field_bounds :
    (n factor : ℕ)
    → (factor ≡ 1) ⊎ (factor ≡ 2)
    → n / factor < 128
    → 32 ≤ n
    → (n / factor % 128 * factor ≤ n)
      × (n ≤ n / factor % 128 * factor + 1)
      × (32 ≤ n / factor % 128 * factor)
field_bounds n factor (inl e) h wide =
    let h' : n / 1 < 128 = (rw e at h) in rw e (omega arith, omega arith, omega arith)
field_bounds n factor (inr e) h wide =
    let h' : n / 2 < 128 = (rw e at h) in rw e (omega arith, omega arith, omega arith)

pub div-lt_field : (n factor : ℕ) → (factor ≡ 1) ⊎ (factor ≡ 2) → n ≤ 126 → n / factor < 128
div-lt_field n factor (inl e) h = rw e (omega (arith, h))
div-lt_field n factor (inr e) h = rw e (omega (arith, h))
