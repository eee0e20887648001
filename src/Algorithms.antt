-- ===== src/Algorithms.antt =====
-- The algorithms of libraries/libglox/include/glox/utilalgs.hpp on pointers, and the memory functions
-- of kernel/string.cpp, over a memory that is a function of the address. Iterators are addresses. A
-- range is its first address and its length, which is what `b - a` is for the loops that run from
-- `a` to `b`.
pub mod Copies
pub mod Searches
mod Tests
use gloxor.Base.{
  ℕ, zero, suc, ◌+◌, ◌-◌, Bool, true, false, ltb, ◌==◌, if◌then◌else◌, Option, none, some,
}

module _ {A : Type 0} where
  unfoldable pub write : (ℕ → A) → ℕ → A → ℕ → A
  write m p a q = if q == p then a else m q

  -- `copy`, and the loop of `memcpy` and of `memmove` to a lower address.
  unfoldable pub copy : ℕ → ℕ → ℕ → (ℕ → A) → ℕ → A
  unfolding write
  copy zero from to m = m
  copy (suc n) from to m = copy n (from + 1) (to + 1) (write m to (m from))

  -- `copy_backwards`, here with the first addresses, and the other loop of `memmove`.
  unfoldable pub copy_backwards : ℕ → ℕ → ℕ → (ℕ → A) → ℕ → A
  unfolding write
  copy_backwards zero from to m = m
  copy_backwards (suc n) from to m = copy_backwards n from to (write m (to + n) (m (from + n)))

  unfoldable pub copy_overlapped : ℕ → ℕ → ℕ → (ℕ → A) → ℕ → A
  unfolding copy copy_backwards
  copy_overlapped n from to m = if ltb to from then copy n from to m else copy_backwards n from to m

  -- `memmove` of kernel/string.cpp.
  unfoldable pub memmove : ℕ → ℕ → ℕ → (ℕ → A) → ℕ → A
  unfolding copy copy_backwards
  memmove to from len m = if ltb to from then copy len from to m else copy_backwards len from to m

  -- `set_range`, and `memset` of kernel/string.cpp.
  unfoldable pub set_range : ℕ → ℕ → A → (ℕ → A) → ℕ → A
  unfolding write
  set_range zero beg a m = m
  set_range (suc n) beg a m = set_range n (beg + 1) a (write m beg a)

  -- `reverse(a, b)`: both ends move inwards and swap, until they meet. `n` is `b - a`: the test
  -- `a != b` fails at 0 and `a != --b` at 1.
  unfoldable pub reverse : ℕ → ℕ → (ℕ → A) → ℕ → A
  unfolding write
  reverse zero a m = m
  reverse (suc zero) a m = m
  reverse (suc (suc n)) a m =
      let last = a + suc n in reverse n (a + 1) (write (write m a (m last)) last (m a))

  -- `find_if`, and `find` for the test against a value: the address of the first hit, or the end.
  unfoldable pub find_if : ℕ → ℕ → (A → Bool) → (ℕ → A) → ℕ
  find_if zero a fn m = a
  find_if (suc n) a fn m = let rest = find_if n (a + 1) fn m in if fn (m a) then a else rest

  -- The loop of `max_element` with a comparison, after its first step; `first` has `n` steps to go.
  unfoldable pub max_loop : (A → A → Bool) → ℕ → ℕ → ℕ → (ℕ → A) → ℕ
  max_loop comp zero first largest m = largest
  max_loop comp (suc n) first largest m =
      max_loop comp n (first + 1) (if comp (m largest) (m first) then first else largest) m

  unfoldable pub max_element : (A → A → Bool) → ℕ → ℕ → (ℕ → A) → ℕ
  unfolding max_loop
  max_element comp zero first m = first
  max_element comp (suc n) first m = max_loop comp n (first + 1) first m

  -- `min_element` runs the same loop with the arguments of the comparison the other way round.
  unfoldable pub min_element : (A → A → Bool) → ℕ → ℕ → (ℕ → A) → ℕ
  unfolding max_element
  min_element comp n first m = max_element (λ x y. comp y x) n first m
