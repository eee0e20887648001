-- ===== src/Custom/Tests.antt =====
-- The moves of blocks at concrete sizes.
use gloxor.Base.{ℕ, ◌+◌, ◌≤◌, ◌<◌, ◌≡◌, refl, [], ◌∷◌, none, some, inr, arith}
use gloxor.Custom.{Bytes, grow, grow_zeroed, shrink}
use gloxor.Custom.Moves.{grow-keeps, shrink-loses}

-- Byte `k` holds `k`.
abbrev ramp : Bytes
ramp = record { at = λ k. k; freed = [] }

shrink_assertion : shrink 100 10 2 3 4 ramp ≡ none
unfolding shrink
shrink_assertion = refl

grow-keeps_run :
    (m₁ m₂ : Bytes) × (grow 100 10 2 3 4 ramp ≡ some (record { ptr = 100; count = 3 }, m₁))
    × (grow_zeroed 100 10 2 3 4 ramp ≡ some (record { ptr = 100; count = 3 }, m₂))
    × ((k : ℕ) → k < 8 → (m₁.at (100 + k) ≡ 10 + k) × (m₂.at (100 + k) ≡ 10 + k))
    × ((k : ℕ) → 8 ≤ k → k < 12 → m₂.at (100 + k) ≡ 0)
    × (m₁.freed ≡ (10, 8) ∷ [])
    × (m₂.freed ≡ (10, 8) ∷ [])
grow-keeps_run = grow-keeps 100 10 2 3 4 ramp (omega arith) (omega arith) (inr (omega arith))

-- Of two objects of four bytes, two bytes arrive.
shrink-loses_run :
    (m' : Bytes) × (shrink 100 10 3 2 4 ramp ≡ some (record { ptr = 100; count = 2 }, m'))
    × ((k : ℕ) → k < 2 → m'.at (100 + k) ≡ 10 + k)
    × ((k : ℕ) → 2 ≤ k → k < 8 → m'.at (100 + k) ≡ 100 + k)
    × (m'.freed ≡ (10, 12) ∷ [])
shrink-loses_run = shrink-loses 100 10 3 2 4 ramp (omega arith) (omega arith) (inr (omega arith))
