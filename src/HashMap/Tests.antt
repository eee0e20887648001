-- ===== src/HashMap/Tests.antt =====
-- Runs of hash_map.hpp with numbers as keys and the identity as the hash, and the theorems at inputs.
use gloxor.Base.{
  ℕ, zero, suc, ◌+◌, ◌≡◌, refl, arith, [], ◌∷◌, Option, none, some, Bool, true, false, not, ◌==◌,
  if◌then◌else◌, length, ==_iff, inr,
}
use gloxor.HashMap.{
  index_of_key, HashMap, ok, assert_failed, ◌>>=◌, bucket, find_in, find, contains,
  insert_or_assign, insert, subscript, erase, clear, grow_if_needed,
}
use gloxor.HashMap.Chains.{Distinct, Placed}
use gloxor.HashMap.Grow.{IsValid}
use gloxor.HashMap.Laws.{Updated}
use gloxor.HashMap.Map.{insert_or_assign-map, insert-map, erase-map, clear-map, kept}
use gloxor.HashMap.Iterate.{begin, visit, all_pairs, visit-all_pairs}
use gloxor.HashMap.Asserts.{grow_if_needed-asserts}

abbrev self : ℕ → ℕ
self k = k

abbrev same : ℕ → ℕ → Bool
same a b = a == b

-- Two buckets, with two pairs in the second.
abbrev crowded : HashMap ℕ ℕ
crowded = record { buckets = [] ∷ ((3, 30) ∷ (1, 10) ∷ []) ∷ []; size = 2 }

crowded-Placed : (i : ℕ) → Placed self same 2 i (bucket crowded.buckets i)
unfolding index_of_key
crowded-Placed zero = tt
crowded-Placed (suc zero) = (refl, (refl, tt))
crowded-Placed (suc (suc i)) = tt

crowded-Distinct : (i : ℕ) → Distinct self same (bucket crowded.buckets i)
unfolding find_in
crowded-Distinct zero = tt
crowded-Distinct (suc zero) = (refl, (refl, tt))
crowded-Distinct (suc (suc i)) = tt

crowded-IsValid : IsValid self same crowded
crowded-IsValid = record {
  in_order = record { placed = crowded-Placed; distinct = crowded-Distinct };
  count = refl;
  shape = inr (1, refl);
  load = omega arith;
}

-- Two pairs in two buckets leave no room: a third makes the bucket array grow.
grow_runs :
    (insert_or_assign self same false 5 50 crowded >>= λ out. ok (length out.1.buckets)) ≡ ok 4
unfolding insert_or_assign
grow_runs = refl

insert_or_assign-map_example :
    let b : Bool = not (contains self same 5 crowded) in
    (m' : HashMap ℕ ℕ) × (insert_or_assign self same false 5 50 crowded ≡ ok (b, m'))
    × Updated self same ==_iff 5 (some 50) crowded m'
    × (m'.size ≡ crowded.size + (if b then 1 else 0))
insert_or_assign-map_example =
    insert_or_assign-map self same ==_iff 5 50 crowded crowded-IsValid (omega arith)

insert-map_example :
    let old : Option ℕ = find self same 3 crowded in
    (m' : HashMap ℕ ℕ) × (insert self same false 3 99 crowded ≡ ok (old, m'))
    × (subscript self same false 99 3 crowded ≡ ok (kept 99 old, m'))
    × Updated self same ==_iff 3 (some (kept 99 old)) crowded m'
    × (m'.size ≡ crowded.size + (if contains self same 3 crowded then 0 else 1))
insert-map_example = insert-map self same ==_iff 3 99 crowded crowded-IsValid (omega arith)

erase-map_example :
    let b : Bool = contains self same 1 crowded in
    (m' : HashMap ℕ ℕ) × (erase self same 1 crowded ≡ (b, m'))
    × Updated self same ==_iff 1 none crowded m'
    × (m'.size + (if b then 1 else 0) ≡ crowded.size)
erase-map_example = erase-map self same ==_iff 1 crowded crowded-IsValid

clear-map_run :
    IsValid self same (clear crowded)
    × (length (clear crowded).buckets ≡ length crowded.buckets)
    × ((k : ℕ) → find self same k (clear crowded) ≡ none)
clear-map_run = clear-map self same ==_iff crowded crowded-IsValid

grow_if_needed-asserts_run : grow_if_needed self same true crowded ≡ assert_failed
grow_if_needed-asserts_run =
    grow_if_needed-asserts self same crowded 0 (omega arith) refl (omega arith)

visit-all_pairs_run :
    visit (length (all_pairs crowded.buckets)) crowded.buckets (begin crowded.buckets)
    ≡ some (all_pairs crowded.buckets)
visit-all_pairs_run = visit-all_pairs crowded.buckets
