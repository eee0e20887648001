-- ===== src/HashMap.antt =====
-- `glox::hash_map` of libraries/libglox/include/glox/hash_map.hpp over the chains of
-- intrusive_fwd_list.hpp. The hash and the key equality are template arguments, hence parameters. A
-- chain is the list of its pairs, so a pointer to a node is what it leads to. `debug` says whether
-- assertions are compiled in.
pub mod Chains
pub mod Rehash
pub mod Grow
pub mod Writes
pub mod Laws
pub mod Map
pub mod Iterate
pub mod Asserts
mod Tests
use gloxor.Base.{
  ℕ, zero, suc, ◌+◌, ◌-◌, ◌*◌, ◌%◌, ◌^◌, List, [], ◌∷◌, Option, none, some, Bool, true, false,
  bit_and, ltb, ◌==◌, ◌&&◌, if◌then◌else◌, length, set, get_or, replicate, map,
}

abbrev pub Chain : Type 0 → Type 0 → Type 0
Chain K V = List (K × V)

pub record HashMap (K V : Type 0) : Type 0 where
  pub buckets : List (Chain K V)
  pub size : ℕ

abbrev pub initial_buckets : ℕ
initial_buckets = 16

pub data Checked (A : Type 0) : Type 0 where
  ok : A → Checked A
  assert_failed : Checked A

infixl 5 ◌>>=◌
abbrev pub ◌>>=◌ : {A B : Type 0} → Checked A → (A → Checked B) → Checked B
ok a >>= f = f a
assert_failed >>= f = assert_failed

-- A mask, as the bucket count is a power of two.
unfoldable pub index_of : ℕ → ℕ → ℕ
index_of h bucket_count = bit_and h (bucket_count - 1)

module _ {K V : Type 0} where
  -- The chain of a bucket.
  abbrev pub bucket : List (Chain K V) → ℕ → Chain K V
  bucket bs i = get_or bs i []

  unfoldable pub empty_map : HashMap K V
  empty_map = record { buckets = []; size = 0 }

  -- `buckets_[i] = bucket { }` after the chain of `i` is moved. The assignment asserts that the
  -- bucket it overwrites is not empty, and its pointer still shows the first node there was.
  unfoldable pub reset_bucket : Bool → Chain K V → Checked (Unit {0})
  reset_bucket false c = ok tt
  reset_bucket true [] = assert_failed
  reset_bucket true (e ∷ c) = ok tt

  -- `free_all()`, `clear()` and the destructor: the bucket count stays.
  unfoldable pub clear : HashMap K V → HashMap K V
  clear m = record { buckets = map (λ c. []) m.buckets; size = 0 }

unfoldable pub index_of_key : {K : Type 0} → (K → ℕ) → K → ℕ → ℕ
unfolding index_of
index_of_key hash k bucket_count = index_of (hash k) bucket_count

module _ {K V : Type 0} (hash : K → ℕ) (eq : K → K → Bool) where
  -- The loop of `find_node` over a chain.
  unfoldable pub find_in : K → Chain K V → Option V
  find_in k [] = none
  find_in k ((key, value) ∷ c) = if eq key k then some value else find_in k c

  unfoldable pub find_node : K → List (Chain K V) → Option V
  unfolding index_of_key find_in
  find_node k bs =
      if length bs == 0 then none else find_in k (bucket bs (index_of_key hash k (length bs)))

  -- A write through the pointer that `find_node` gives.
  unfoldable pub write_in : K → V → Chain K V → Chain K V
  write_in k v [] = []
  write_in k v ((key, value) ∷ c) = if eq key k then (key, v) ∷ c else (key, value) ∷ write_in k v c

  unfoldable pub write_node : K → V → List (Chain K V) → List (Chain K V)
  unfolding index_of_key write_in
  write_node k v bs =
      let i = index_of_key hash k (length bs) in set bs i (write_in k v (bucket bs i))

  -- `buckets_[index_of_key(...)].push_front(n)`
  unfoldable pub push : K → V → List (Chain K V) → List (Chain K V)
  unfolding index_of_key
  push k v bs = let i = index_of_key hash k (length bs) in set bs i ((k, v) ∷ bucket bs i)

  -- The inner loop of `rehash`.
  unfoldable pub move_chain : Chain K V → List (Chain K V) → List (Chain K V)
  unfolding push
  move_chain [] nb = nb
  move_chain ((k, v) ∷ c) nb = move_chain c (push k v nb)

  -- The outer loop.
  unfoldable pub move_all : Bool → List (Chain K V) → List (Chain K V) → Checked (List (Chain K V))
  unfolding move_chain reset_bucket
  move_all debug [] nb = ok nb
  move_all debug (b ∷ bs) nb = do _ ← reset_bucket debug b; move_all debug bs (move_chain b nb)

  unfoldable pub rehash : Bool → ℕ → HashMap K V → Checked (HashMap K V)
  unfolding move_all
  rehash debug new_count m = if debug && not_pow2 new_count then assert_failed else (do
    nb ← move_all debug m.buckets (replicate new_count [])
    ok (record m { buckets = nb }))
    where
      not_pow2 : ℕ → Bool
      not_pow2 n = if bit_and n (n - 1) == 0 then false else true

  unfoldable pub grow_if_needed : Bool → HashMap K V → Checked (HashMap K V)
  unfolding rehash
  grow_if_needed debug m =
      if length m.buckets == 0
      then rehash debug initial_buckets m
      else if ltb (length m.buckets) (m.size + 1)
      then rehash debug ((length m.buckets * 2) % 2 ^ 64) m
      else ok m

  -- The four lines that `insert`, `insert_or_assign` and `operator[]` share.
  unfoldable pub insert_new : Bool → K → V → HashMap K V → Checked (HashMap K V)
  unfolding grow_if_needed push
  insert_new debug k v m = do
    m ← grow_if_needed debug m
    ok (record { buckets = push k v m.buckets; size = m.size + 1 })

  unfoldable pub find : K → HashMap K V → Option V
  unfolding find_node
  find k m = find_node k m.buckets

  -- Both overloads of `at`.
  unfoldable pub at : K → HashMap K V → Option V
  unfolding find_node
  at k m = elim (find_node k m.buckets) [ none ↦ none | some v ↦ some v ]

  unfoldable pub contains : K → HashMap K V → Bool
  unfolding find_node
  contains k m = elim (find_node k m.buckets) [ none ↦ false | some v ↦ true ]

  unfoldable pub insert_or_assign : Bool → K → V → HashMap K V → Checked (Bool × HashMap K V)
  unfolding find_node write_node insert_new
  insert_or_assign debug k v m = elim (find_node k m.buckets) [
    | some old ↦ ok (false, record m { buckets = write_node k v m.buckets })
    | none ↦ do m ← insert_new debug k v m; ok (true, m)
  ]

  unfoldable pub insert : Bool → K → V → HashMap K V → Checked (Option V × HashMap K V)
  unfolding find_node insert_new
  insert debug k v m = elim (find_node k m.buckets) [
    | some old ↦ ok (some old, m)
    | none ↦ do m ← insert_new debug k v m; ok (none, m)
  ]

  -- `operator[]`: the value that the reference it returns leads to; `zero_value` is `Value { }`.
  unfoldable pub subscript : Bool → V → K → HashMap K V → Checked (V × HashMap K V)
  unfolding find_node insert_new
  subscript debug zero_value k m = elim (find_node k m.buckets) [
    | some old ↦ ok (old, m)
    | none ↦ do m ← insert_new debug k zero_value m; ok (zero_value, m)
  ]

  -- The loop of `erase` over a chain: the chain without the first match, if there is one.
  unfoldable pub erase_in : K → Chain K V → Option (Chain K V)
  erase_in k [] = none
  erase_in k ((key, value) ∷ c) =
      let rest = erase_in k c in
      if eq key k then some c else elim rest [ none ↦ none | some c' ↦ some ((key, value) ∷ c') ]

  unfoldable pub erase : K → HashMap K V → Bool × HashMap K V
  unfolding index_of_key erase_in
  erase k m =
      let i = index_of_key hash k (length m.buckets) in
      if length m.buckets == 0 then (false, m) else elim (erase_in k (bucket m.buckets i)) [
        | none ↦ (false, m)
        | some c ↦ (true, record { buckets = set m.buckets i c; size = m.size - 1 })
      ]
