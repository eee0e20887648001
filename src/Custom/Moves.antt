-- ===== src/Custom/Moves.antt =====
-- grow, grow_zeroed and shrink of glox::custom in kernel/memory/alloc.cpp: which bytes the new block
-- holds.
use gloxor.Base.{
  ℕ, zero, suc, ◌+◌, ◌-◌, ◌*◌, ◌≤◌, ◌<◌, ◌≡◌, ◌⊎◌, refl, ap, ◌∙◌, ◌∷◌, some, true, false, ltb, ◌==◌,
  inr, arith,
}
use native.Mathlib.Nat.{mul-add}
use gloxor.Algorithms.{copy, set_range}
use gloxor.Algorithms.Copies.{within, copy-at, set_range-at}
use gloxor.Custom.{Bytes, dealloc, grow, grow_zeroed, shrink}

-- Two ranges that do not meet.
abbrev pub Apart : ℕ → ℕ → ℕ → ℕ → Type 0
Apart p n q k = (p + n ≤ q) ⊎ (q + k ≤ p)

-- A copy between ranges apart.
copied :
    (n from to k : ℕ) (m : ℕ → ℕ)
    → Apart to n from n
    → k < n
    → copy n from to m (to + k) ≡ m (from + k)
copied n from to k m apart l =
    let inside : within (to + k) to n ≡ true = ground arith in
    let off : from + ((to + k) - to) ≡ from + k = omega arith in
    let order : (to < from) ⊎ (from + n ≤ to) = ground arith in
    copy-at n from to (to + k) m order ∙ rw (inside, off) refl

uncopied :
    (n from to q : ℕ) (m : ℕ → ℕ)
    → Apart to n from n
    → (q < to) ⊎ (to + n ≤ q)
    → copy n from to m q ≡ m q
unfolding copy
uncopied zero from to q m apart l = refl
uncopied (suc n) from to q m apart l =
    let outside : within q to (suc n) ≡ false = ground arith in
    let order : (to < from) ⊎ (from + suc n ≤ to) = ground arith in
    copy-at (suc n) from to q m order ∙ rw outside refl

-- grow and grow_zeroed of a block to at least its count, where memalloc answers with a block apart from
-- it: both give the new block, which begins with the bytes of the old one, and give the old block back
-- with its size; grow_zeroed fills the rest of the new block with zeros.
pub grow-keeps :
    (answer old_ptr old_count new_count objsize : ℕ) (m : Bytes)
    → 0 < answer
    → old_count ≤ new_count
    → Apart answer (objsize * new_count) old_ptr (objsize * old_count)
    → (m₁ m₂ : Bytes) × (grow answer old_ptr old_count new_count objsize m
        ≡ some (record { ptr = answer; count = new_count }, m₁))
      × (grow_zeroed answer old_ptr old_count new_count objsize m
          ≡ some (record { ptr = answer; count = new_count }, m₂))
      × ((k : ℕ)
          → k < objsize * old_count
          → (m₁.at (answer + k) ≡ m.at (old_ptr + k)) × (m₂.at (answer + k) ≡ m.at (old_ptr + k)))
      × ((k : ℕ) → objsize * old_count ≤ k → k < objsize * new_count → m₂.at (answer + k) ≡ 0)
      × (m₁.freed ≡ (old_ptr, objsize * old_count) ∷ m.freed)
      × (m₂.freed ≡ (old_ptr, objsize * old_count) ∷ m.freed)
unfolding grow grow_zeroed dealloc
grow-keeps answer old_ptr old_count new_count objsize m memory h apart =
    let some_memory : (answer == 0) ≡ false = ground arith in
    let ok : ltb new_count old_count ≡ false = ground arith in
    let size = objsize * old_count in
    let split : new_count ≡ old_count + (new_count - old_count) = omega arith in
    let rest : objsize * new_count ≡ size + objsize * (new_count - old_count) =
      ap (λ (n : ℕ). objsize * n) split ∙ mul-add objsize old_count (new_count - old_count) in
    let near : Apart answer size old_ptr size = ground (arith, rest) in
    let moved = copy size old_ptr answer m.at in
    let m₁ : Bytes = dealloc old_ptr old_count objsize (record m { at = moved }) in
    let m₂ : Bytes =
      dealloc old_ptr old_count objsize
        (record m { at = set_range (objsize * (new_count - old_count)) (answer + size) 0 moved }) in
    (
      m₁,
      m₂,
      rw (ok, some_memory) refl,
      rw (ok, some_memory) refl,
      λ k l.
          let before : within (answer + k) (answer + size) (objsize * (new_count - old_count))
              ≡ false =
            ground arith in
          let same = copied size old_ptr answer k m.at near l in
          (
            same,
            set_range-at (objsize * (new_count - old_count)) (answer + size) (answer + k) 0 moved
                ∙ rw before same,
          ),
      λ k l g.
          let behind : within (answer + k) (answer + size) (objsize * (new_count - old_count))
              ≡ true =
            ground (arith, rest) in
          set_range-at (objsize * (new_count - old_count)) (answer + size) (answer + k) 0 moved
          ∙ rw behind refl,
      refl,
      refl,
    )

-- shrink, where memalloc answers with a block apart from the old one, copies as many bytes as there are
-- objects and not as the objects take: behind these the new block holds what stood there before, though
-- the objects go on. The old block is given back.
pub shrink-loses :
    (answer old_ptr old_count new_count objsize : ℕ) (m : Bytes)
    → 0 < answer
    → new_count ≤ old_count
    → Apart answer new_count old_ptr new_count
    → (m' : Bytes) × (shrink answer old_ptr old_count new_count objsize m
        ≡ some (record { ptr = answer; count = new_count }, m'))
      × ((k : ℕ) → k < new_count → m'.at (answer + k) ≡ m.at (old_ptr + k))
      × ((k : ℕ) → new_count ≤ k → k < objsize * new_count → m'.at (answer + k) ≡ m.at (answer + k))
      × (m'.freed ≡ (old_ptr, objsize * old_count) ∷ m.freed)
unfolding shrink dealloc
shrink-loses answer old_ptr old_count new_count objsize m memory h apart =
    let some_memory : (answer == 0) ≡ false = ground arith in
    let ok : ltb old_count new_count ≡ false = ground arith in
    (
      dealloc old_ptr old_count objsize (record m { at = copy new_count old_ptr answer m.at }),
      rw (ok, some_memory) refl,
      λ k l. copied new_count old_ptr answer k m.at apart l,
      λ k l g. uncopied new_count old_ptr answer (answer + k) m.at apart (inr (omega arith)),
      refl,
    )
