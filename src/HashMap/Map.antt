-- ===== src/HashMap/Map.antt =====
-- What each operation of hash_map.hpp promises of the finite map that the buckets stand for.
use gloxor.Base.{
  ℕ, zero, suc, ◌+◌, ◌-◌, ◌<◌, ◌^◌, ◌≡◌, ◌↔◌, refl, sym, ◌∙◌, List, [], ◌∷◌, Option, none, some,
  Bool, true, false, not, ◌==◌, if◌then◌else◌, length, set, map, Bool-cases, Option-cases, inl, inr,
  arith, length-map,
}
use gloxor.HashMap.{
  Chain, HashMap, ok, bucket, index_of_key, find_in, find_node, write_node, find, contains,
  insert_or_assign, insert, subscript, erase, erase_in, clear,
}
use gloxor.HashMap.Chains.{length-total, total}
use gloxor.HashMap.Rehash.{find_node-bucket}
use gloxor.HashMap.Grow.{IsValid}
use gloxor.HashMap.Writes.{write_in-Changed, erase_in-Changed, erase_in-none, erase_in-some}
use gloxor.HashMap.Laws.{Updated, set-Updated, found-pos, insert_new-Updated}

-- The value that is there, or the new one.
abbrev pub kept : {V : Type 0} → V → Option V → V
kept v none = v
kept v (some old) = old

module _ {K V : Type 0} (hash : K → ℕ) (eq : K → K → Bool)
    (decides : (a b : K) → (eq a b ≡ true) ↔ (a ≡ b)) where
  -- A map is itself with what is found under `k`.
  same-Updated :
      (k : K) (r : Option V) (m : HashMap K V)
      → IsValid hash eq m
      → find_node hash eq k m.buckets ≡ r
      → Updated hash eq decides k r m m
  unfolding find
  same-Updated k r m v h = record {
    valid = v;
    finds = λ k'. elim (Bool-cases (eq k k')) [
      | inl e ↦ rw (e, ← (decides k k').0 e) h
      | inr ne ↦ rw ne refl
    ];
  }

  find_node-empty :
      (bs : List (Chain K V)) (k : K) → (length bs == 0) ≡ true → find_node hash eq k bs ≡ none
  unfolding find_node
  find_node-empty bs k e = rw e refl

  assign-Updated :
      (k : K) (v old : V) (m : HashMap K V)
      → IsValid hash eq m
      → find_node hash eq k m.buckets ≡ some old
      → Updated hash eq decides k
          (some v)
          m
          (record m { buckets = write_node hash eq k v m.buckets })
  unfolding write_node
  assign-Updated k v old m valid h =
      let pos = found-pos hash eq decides m.buckets k old h in
      let found = sym (find_node-bucket hash eq decides m.buckets k pos) ∙ h in
      let (ch, len) = write_in-Changed hash eq decides k v old _ found in
      set-Updated hash eq decides k (some v) m _ m.size valid pos ch (omega arith) valid.load

  -- On a map in order of fewer than `2 ^ 63` pairs, without assertions: `insert_or_assign` ends,
  -- keeps the map in order, and changes what is found under its key alone, to the new value. It
  -- returns `true` just if the key was not there, and then the size is one more.
  pub insert_or_assign-map :
      (k : K) (v : V) (m : HashMap K V)
      → IsValid hash eq m
      → m.size < 2 ^ 63
      → let b : Bool = not (contains hash eq k m) in
        (m' : HashMap K V) × (insert_or_assign hash eq false k v m ≡ ok (b, m'))
        × Updated hash eq decides k (some v) m m'
        × (m'.size ≡ m.size + (if b then 1 else 0))
  unfolding insert_or_assign contains
  insert_or_assign-map k v m valid small = elim (Option-cases (find_node hash eq k m.buckets)) [
    | inl new ↦
        let (m', run, up, size) = insert_new-Updated hash eq decides k v m valid small new in
        rw (insert_or_assign, contains, new) (m', rw run refl, up, size)
    | inr (old, h) ↦
        rw (insert_or_assign, contains, h)
          (
            record m { buckets = write_node hash eq k v m.buckets },
            refl,
            assign-Updated k v old m valid h,
            omega arith,
          )
  ]

  -- On a map in order of fewer than `2 ^ 63` pairs, without assertions: `insert` and `operator[]` end, keep
  -- the map in order, and find under
  -- their key the value that was there, or the new one if there was none (for `operator[]` the
  -- default); nothing changes under other keys. `insert` returns what was found before, and
  -- `operator[]` the value that is there now. The size is one more just if the key was not there.
  pub insert-map :
      (k : K) (v : V) (m : HashMap K V)
      → IsValid hash eq m
      → m.size < 2 ^ 63
      → let old : Option V = find hash eq k m in
        (m' : HashMap K V) × (insert hash eq false k v m ≡ ok (old, m'))
        × (subscript hash eq false v k m ≡ ok (kept v old, m'))
        × Updated hash eq decides k (some (kept v old)) m m'
        × (m'.size ≡ m.size + (if contains hash eq k m then 0 else 1))
  unfolding insert subscript contains find
  insert-map k v m valid small = elim (Option-cases (find_node hash eq k m.buckets)) [
    | inl new ↦
        let (m', run, up, size) = insert_new-Updated hash eq decides k v m valid small new in
        rw (insert, subscript, contains, find, new) (m', rw run refl, rw run refl, up, size)
    | inr (old, h) ↦
        rw (insert, subscript, contains, find, h)
          (m, refl, refl, same-Updated k (some old) m valid h, omega arith)
  ]

  -- On a map in order `erase` keeps it in order, finds nothing under its key afterwards, changes
  -- nothing under other keys, returns whether the key was there, and takes one off the size just
  -- then.
  pub erase-map :
      (k : K) (m : HashMap K V)
      → IsValid hash eq m
      → let b : Bool = contains hash eq k m in
        (m' : HashMap K V) × (erase hash eq k m ≡ (b, m'))
        × Updated hash eq decides k none m m'
        × (m'.size + (if b then 1 else 0) ≡ m.size)
  unfolding erase contains
  erase-map k m valid = elim (Bool-cases (length m.buckets == 0)) [
    | inl e ↦
        let new = find_node-empty m.buckets k e in
        rw (erase, contains, new, e) (m, refl, same-Updated k none m valid new, omega arith)
    | inr ne ↦
        let i = index_of_key hash k (length m.buckets) in
        let pos : 0 < length m.buckets = ground arith in
        let here = find_node-bucket hash eq decides m.buckets k pos in
        elim (Option-cases (erase_in hash eq k (bucket m.buckets i))) [
          | inl gone ↦
              let new = here ∙ erase_in-none hash eq decides k _ gone in
              rw (erase, contains, new, ne, gone)
                (m, refl, same-Updated k none m valid new, omega arith)
          | inr (c, h) ↦
              let (v, found) = erase_in-some hash eq decides k _ c h in
              let (ch, len) =
                erase_in-Changed hash eq decides k _ c (valid.in_order.distinct i) h in
              let some_pair : 0 < m.size = omega (arith, length-total m.buckets i, valid.count) in
              rw (erase, contains, here ∙ found, ne, h)
                (
                  record { buckets = set m.buckets i c; size = m.size - 1 },
                  refl,
                  set-Updated hash eq decides k none m c (m.size - 1) valid pos ch (omega arith)
                      (omega (arith, valid.load)),
                  omega arith,
                )
        ]
  ]

  -- `clear` keeps a map in order and its number of buckets, and nothing is found afterwards.
  pub clear-map :
      (m : HashMap K V)
      → IsValid hash eq m
      → IsValid hash eq (clear m)
        × (length (clear m).buckets ≡ length m.buckets)
        × ((k : K) → find hash eq k (clear m) ≡ none)
  unfolding clear find find_node find_in
  clear-map m v = (
    record {
      in_order = record {
        placed = λ i. rw (no_chain m.buckets i) tt;
        distinct = λ i. rw (no_chain m.buckets i) tt;
      };
      count = nothing m.buckets;
      shape = rw (length-map m.buckets (λ c. [])) v.shape;
      load = omega arith;
    },
    length-map m.buckets (λ c. []),
    absent (map (λ c. []) m.buckets) (no_chain m.buckets),
  )
    where
      no_chain : (bs : List (Chain K V)) (i : ℕ) → bucket {K = K} {V = V} (map (λ c. []) bs) i ≡ []
      no_chain [] i = refl
      no_chain (b ∷ bs) zero = refl
      no_chain (b ∷ bs) (suc i) = no_chain bs i

      absent :
          (bs : List (Chain K V))
          → ((i : ℕ) → bucket bs i ≡ [])
          → (k : K) → find_node hash eq k bs ≡ none
      absent bs gone k = elim (Bool-cases (length bs == 0)) [
        | inl e ↦ rw e refl
        | inr ne ↦ rw (ne, gone (index_of_key hash k (length bs))) refl
      ]

      nothing : (bs : List (Chain K V)) → total {K = K} {V = V} (map (λ c. []) bs) ≡ 0
      nothing [] = refl
      nothing (b ∷ bs) = omega (arith, nothing bs)
