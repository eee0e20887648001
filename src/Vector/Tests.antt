-- ===== src/Vector/Tests.antt =====
-- The theorems on vector.hpp at inputs.
use mathlib.Core.Option.{some-injective}
use gloxor.Base.{
  ℕ, ◌+◌, ◌-◌, ◌≤◌, ◌≡◌, ◌⊎◌, refl, arith, [], ◌∷◌, ◌++◌, none, some, true, false, length, take,
  drop,
}
use gloxor.Vector.{Vector, Allocator, emplace_back, insert, erase}
use gloxor.Vector.Growth.{IsGenerous, emplace_back-appends}
use gloxor.Vector.Positions.{erase-at, insert-at, insert-length}

abbrev exact : Allocator
exact = record { fresh = λ n. some n; grow = λ old n. some n }

abbrev refusing : Allocator
refusing = record { fresh = λ n. none; grow = λ old n. none }

exact-IsGenerous : IsGenerous exact
exact-IsGenerous = record {
  fresh = λ n count h. let same = some-injective n count h in omega arith;
  grow = λ old n count h. let same = some-injective n count h in omega arith;
}

abbrev full : Vector ℕ
full = record { is_null = false; cap = 3; items = 5 ∷ 6 ∷ 7 ∷ [] }

emplace_back-appends_run :
    ((v' : Vector ℕ) × (emplace_back exact 8 full ≡ (true, v'))
      × (v'.items ≡ full.items ++ 8 ∷ [])
      × (length v'.items ≤ v'.cap)
      × (full.cap ≤ v'.cap))
    ⊎ (emplace_back exact 8 full ≡ (false, full))
emplace_back-appends_run = emplace_back-appends exact exact-IsGenerous 8 full (omega arith)

erase-at_run :
    erase 0 1 full ≡ some (record full { items = take 1 full.items ++ drop (1 + 1) full.items })
erase-at_run = erase-at 0 1 full (omega arith)

insert-at_run : (insert exact 0 1 9 full).items ≡ take 1 full.items ++ 9 ∷ drop 1 full.items
unfolding emplace_back
insert-at_run = insert-at exact 0 1 9 full (omega arith) refl

insert-length_run :
    ((insert refusing 0 1 9 full).items
      ≡ take 1 full.items ++ 9 ∷ take (length full.items - 1 - 1) (drop 1 full.items))
    × (length (insert refusing 0 1 9 full).items ≡ length full.items)
unfolding emplace_back
insert-length_run = insert-length refusing 0 1 9 full (omega arith) refl
