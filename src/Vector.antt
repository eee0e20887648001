-- ===== src/Vector.antt =====
-- `glox::vector` of libraries/libglox/include/glox/vector.hpp: whether there is a buffer, its capacity,
-- and the elements that are alive in it. The allocator is a parameter: what it answers to a request
-- is the capacity it gives, or nothing. Growing keeps the elements.
pub mod Growth
pub mod Positions
mod Tests
use gloxor.Base.{
  ℕ, zero, suc, ◌+◌, ◌-◌, ◌/◌, List, [], ◌∷◌, ◌++◌, Option, none, some, Bool, true, false, ltb,
  ◌==◌, if◌then◌else◌, length, take, drop, replicate, get_elem?,
}

pub record Vector (A : Type 0) : Type 0 where
  pub is_null : Bool
  pub cap : ℕ
  pub items : List A

-- `alloc_uninitialized` by the request, and `grow_alloc` by the old capacity and the request.
pub record Allocator : Type 0 where
  pub fresh : ℕ → Option ℕ
  pub grow : ℕ → ℕ → Option ℕ

module _ {A : Type 0} where
  unfoldable pub empty_vector : Vector A
  empty_vector = record { is_null = true; cap = 0; items = [] }

  -- `vector(size_t reserve)`
  unfoldable pub reserved : Allocator → ℕ → Vector A
  unfolding empty_vector
  reserved alloc n = elim (alloc.fresh n) [
    | none ↦ empty_vector
    | some count ↦ record { is_null = false; cap = count; items = [] }
  ]

  unfoldable pub with_capacity : Allocator → ℕ → Option (Vector A)
  unfolding reserved
  with_capacity alloc n = let v = reserved alloc n in if v.is_null then none else some v

  -- `vector(const T& val, size_t size)`
  unfoldable pub filled : Allocator → A → ℕ → Vector A
  unfolding empty_vector
  filled alloc a n = elim (alloc.fresh n) [
    | none ↦ empty_vector
    | some count ↦ record { is_null = false; cap = count; items = replicate n a }
  ]

  -- The copy constructor keeps the other's capacity, whatever the allocator gave.
  unfoldable pub copied : Allocator → Vector A → Vector A
  unfolding empty_vector
  copied alloc other = elim (alloc.fresh other.cap) [
    | none ↦ empty_vector
    | some count ↦ record { is_null = false; cap = other.cap; items = other.items }
  ]

  -- The move constructor: the new vector, and what is left of the other.
  unfoldable pub moved : Vector A → Vector A × Vector A
  unfolding empty_vector
  moved other = (other, empty_vector)

  unfoldable pub clear_vector : Vector A → Vector A
  unfolding empty_vector
  clear_vector v = empty_vector

  unfoldable pub realloc_buffer : Allocator → Vector A → ℕ → ℕ → Option ℕ
  realloc_buffer alloc v old news = if v.is_null then alloc.fresh news else alloc.grow old news

  unfoldable pub ensure_can_fit : Allocator → ℕ → Vector A → Bool × Vector A
  unfolding realloc_buffer
  ensure_can_fit alloc new_size v =
      if ltb v.cap new_size
      then (elim (realloc_buffer alloc v v.cap (if ltb v.cap 4 then 4 else v.cap + v.cap / 2)) [
        | none ↦ (false, v)
        | some count ↦ (true, record v { is_null = false; cap = count })
      ])
      else (true, v)

  -- `emplace_back` and `push_back`.
  unfoldable pub emplace_back : Allocator → A → Vector A → Bool × Vector A
  unfolding ensure_can_fit
  emplace_back alloc a v =
      let (fits, v') = ensure_can_fit alloc (length v.items + 1) v in
      if fits then (true, record v' { items = v'.items ++ a ∷ [] }) else (false, v')

  unfoldable pub reserve : Allocator → ℕ → Vector A → Bool × Vector A
  unfolding realloc_buffer
  reserve alloc new_cap v =
      if ltb v.cap new_cap
      then (elim (realloc_buffer alloc v v.cap new_cap) [
        | none ↦ (false, v)
        | some count ↦ (true, record v { is_null = false; cap = count })
      ])
      else (true, v)

  -- `pop_back()`; the assertion stops on an empty vector.
  unfoldable pub pop_back : Vector A → Option (Vector A)
  pop_back v =
      if ltb 0 (length v.items)
      then some (record v { items = take (length v.items - 1) v.items })
      else none

  -- `operator[]`; the assertion stops beyond the end.
  unfoldable pub subscript : ℕ → Vector A → Option A
  subscript i v = get_elem? v.items i

  -- `insert`, at an index: behind the end it appends. Elsewhere it appends a default element, moves
  -- the elements from the index on up by one, and writes; whether appending worked is not asked.
  unfoldable pub insert : Allocator → A → ℕ → A → Vector A → Vector A
  unfolding emplace_back
  insert alloc default i a v =
      if i == length v.items
      then (emplace_back alloc a v).1
      else (let v' = (emplace_back alloc default v).1 in
          record v' {
            items = take i v'.items ++ a ∷ take (length v'.items - 1 - i) (drop i v'.items);
          })

  -- `erase`, at an index: the elements behind it move down by one, and the last one is popped. What
  -- is left in the last place before that is the moved-from element.
  unfoldable pub erase : A → ℕ → Vector A → Option (Vector A)
  unfolding pop_back
  erase moved_from i v =
      pop_back (record v { items = take i v.items ++ drop (i + 1) v.items ++ moved_from ∷ [] })
