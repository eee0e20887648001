-- ===== src/HashMap/Iterate.antt =====
-- The iterators of hash_map.hpp: from `begin()` to `end()` they pass every pair once.
use mathlib.Core.List.{cons≢nil}
use gloxor.Base.{
  ℕ, zero, suc, ◌+◌, ◌≤◌, ◌<◌, ◌≡◌, refl, sym, ◌∙◌, List, [], ◌∷◌, ◌++◌, false, ltb, ◌==◌,
  if◌then◌else◌, length, drop, Bool-cases, inl, inr, arith, Option, none, some,
}
use gloxor.HashMap.{Chain, bucket}

-- `iter_base`: the bucket, and the node as the chain that starts there.
pub record Iter (K V : Type 0) : Type 0 where
  pub idx : ℕ
  pub node : Chain K V

module _ {K V : Type 0} where
  -- `settle()`; the fuel is the number of buckets that are left.
  unfoldable pub settle : ℕ → List (Chain K V) → Iter K V → Iter K V
  settle zero bs it = it
  settle (suc fuel) bs it =
      let rest = settle fuel bs (record { idx = it.idx + 1; node = bucket bs (it.idx + 1) }) in
      elim it.node [ [] ↦ if ltb (it.idx + 1) (length bs) then rest else it | e ∷ c ↦ it ]

  unfoldable pub begin : List (Chain K V) → Iter K V
  unfolding settle
  begin bs =
      if length bs == 0
      then record { idx = 0; node = [] }
      else settle (length bs) bs (record { idx = 0; node = bucket bs 0 })

  -- `operator++` on an iterator that is not at the end.
  unfoldable pub next : List (Chain K V) → Iter K V → Iter K V
  unfolding settle
  next bs it = settle (length bs) bs (record it { node = drop 1 it.node })

  -- `it == end()` compares the nodes; the loop `for (auto& p : map)` on `fuel` steps.
  unfoldable pub visit : ℕ → List (Chain K V) → Iter K V → Option (List (K × V))
  unfolding next
  visit zero bs it = elim it.node [ [] ↦ some [] | e ∷ c ↦ none ]
  visit (suc fuel) bs it =
      let rest = visit fuel bs (next bs it) in
      elim it.node [ [] ↦ some [] | e ∷ c ↦ elim rest [ none ↦ none | some es ↦ some (e ∷ es) ] ]

  -- All pairs, bucket by bucket.
  abbrev pub all_pairs : List (Chain K V) → List (K × V)
  all_pairs [] = []
  all_pairs (b ∷ bs) = b ++ all_pairs bs

  -- The pairs from an iterator on.
  abbrev ahead : List (Chain K V) → Iter K V → List (K × V)
  ahead bs it = it.node ++ all_pairs (drop (it.idx + 1) bs)

  drop-bucket :
      (bs : List (Chain K V)) (i : ℕ)
      → i < length bs
      → all_pairs (drop i bs) ≡ bucket bs i ++ all_pairs (drop (i + 1) bs)
  drop-bucket [] i lt = absurd (omega arith)
  drop-bucket (b ∷ bs) zero lt = refl
  drop-bucket (b ∷ bs) (suc i) lt =
      let e : suc i + 1 ≡ suc (i + 1) = omega arith in rw e (drop-bucket bs i (omega arith))

  drop-end : (bs : List (Chain K V)) (i : ℕ) → length bs ≤ i → all_pairs (drop i bs) ≡ []
  drop-end [] zero le = refl
  drop-end [] (suc i) le = refl
  drop-end (b ∷ bs) zero le = absurd (omega arith)
  drop-end (b ∷ bs) (suc i) le = drop-end bs i (omega arith)

  -- Moving to the next chain that is not empty loses no pair.
  settle-ahead :
      (fuel : ℕ) (bs : List (Chain K V)) (i : ℕ) (c : Chain K V)
      → let it : Iter K V = record { idx = i; node = c } in
        ahead bs (settle fuel bs it) ≡ ahead bs it
  unfolding settle
  settle-ahead zero bs i c = refl
  settle-ahead (suc fuel) bs i (e ∷ c) = refl
  settle-ahead (suc fuel) bs i [] = elim (Bool-cases (ltb (i + 1) (length bs))) [
    | inl more ↦ rw more (
        settle-ahead fuel bs (i + 1) (bucket bs (i + 1))
        ∙ sym (drop-bucket bs (i + 1) (ground arith)))
    | inr last ↦ rw last refl
  ]

  -- An iterator without a node is at the end.
  abbrev Settled : List (Chain K V) → Iter K V → Type 0
  Settled bs it = it.node ≡ [] → ahead bs it ≡ []

  settle-Settled :
      (fuel : ℕ) (bs : List (Chain K V)) (i : ℕ) (c : Chain K V)
      → length bs ≤ i + 1 + fuel
      → Settled bs (settle fuel bs (record { idx = i; node = c }))
  unfolding settle
  settle-Settled zero bs i c enough = λ h. rw h (drop-end bs (i + 1) (omega arith))
  settle-Settled (suc fuel) bs i (e ∷ c) enough = λ h. absurd (cons≢nil h)
  settle-Settled (suc fuel) bs i [] enough = elim (Bool-cases (ltb (i + 1) (length bs))) [
    | inl more ↦ rw more (settle-Settled fuel bs (i + 1) (bucket bs (i + 1)) (omega arith))
    | inr last ↦ rw last (λ h. drop-end bs (i + 1) (ground arith))
  ]

  visit-ahead :
      (fuel : ℕ) (bs : List (Chain K V)) (i : ℕ) (c : Chain K V)
      → let it : Iter K V = record { idx = i; node = c } in
        Settled bs it → length (ahead bs it) ≤ fuel → visit fuel bs it ≡ some (ahead bs it)
  unfolding visit next
  visit-ahead zero bs i [] settled enough = rw (settled refl) refl
  visit-ahead (suc fuel) bs i [] settled enough = rw (settled refl) refl
  visit-ahead zero bs i (e ∷ c) settled enough = absurd (omega arith)
  visit-ahead (suc fuel) bs i (e ∷ c) settled enough =
      let it = settle (length bs) bs (record { idx = i; node = c }) in
      let same = settle-ahead (length bs) bs i c in
      let rest =
        visit-ahead fuel bs it.idx it.node (settle-Settled (length bs) bs i c (omega arith))
          (rw same (omega arith)) in
      rw (rest, same) refl

  -- From `begin()`, with as many steps as there are pairs, the loop over a map ends at the end and
  -- passes every pair once, bucket by bucket.
  pub visit-all_pairs :
      (bs : List (Chain K V)) → visit (length (all_pairs bs)) bs (begin bs) ≡ some (all_pairs bs)
  unfolding begin visit
  visit-all_pairs [] = refl
  visit-all_pairs (b ∷ bs) =
      let n = length (b ∷ bs) in
      let some_bucket : (n == 0) ≡ false = ground arith in
      let it = settle n (b ∷ bs) (record { idx = 0; node = b }) in
      let same : ahead (b ∷ bs) it ≡ all_pairs (b ∷ bs) = settle-ahead n (b ∷ bs) 0 b in
      let start : begin (b ∷ bs) ≡ it = rw some_bucket refl in
      let all =
        visit-ahead (length (all_pairs (b ∷ bs))) (b ∷ bs) it.idx it.node
          (settle-Settled n (b ∷ bs) 0 b (omega arith)) (rw same (omega arith)) in
      rw start (all ∙ rw same refl)
