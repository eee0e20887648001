-- ===== src/Strings.antt =====
-- string of libraries/libglox/include/glox/string.hpp, over default_allocator of alloc.hpp. A block is the
-- list of its bytes, `none` is a use of memory outside its block. aligned_alloc is a parameter, `malloc`:
-- for each size the block that it answers with, or nothing. CAP_FACTOR, which depends on a macro, is a
-- parameter too; in both cases the field of the capacity has the seven bits that big_str leaves it.
pub mod Blocks
pub mod Pushes
pub mod Texts
pub mod Erases
pub mod Faults
mod Tests
use gloxor.Base.{
  ℕ, zero, suc, ◌+◌, ◌-◌, ◌*◌, ◌/◌, ◌%◌, List, [], ◌∷◌, ◌++◌, Bool, true, false, ltb, leb, ◌==◌,
  ◌&&◌, if◌then◌else◌, Option, none, some, length, take, drop, set, get_or, replicate,
}

-- repr: the size and the bytes of a short string; the field `cap`, the size and the block of a big one.
pub data Repr : Type 0 where
  short : ℕ → List ℕ → Repr
  big : ℕ → ℕ → List ℕ → Repr

abbrev pub minimal_cap : ℕ
minimal_cap = 23

-- A byte written at a place of a block.
unfoldable pub store : ℕ → ℕ → List ℕ → Option (List ℕ)
store i c block = if ltb i (length block) then some (set block i c) else none

-- memcpy of `n` bytes to the front of a block.
unfoldable pub copy_bytes : ℕ → List ℕ → List ℕ → Option (List ℕ)
copy_bytes n from to =
    if leb n (length from) && leb n (length to) then some (take n from ++ drop n to) else none

unfoldable pub is_big : Repr → Bool
is_big (Repr.short n d) = false
is_big (Repr.big cap n d) = true

unfoldable pub size : Repr → ℕ
size (Repr.short n d) = n
size (Repr.big cap n d) = n

unfoldable pub bytes : Repr → List ℕ
bytes (Repr.short n d) = d
bytes (Repr.big cap n d) = d

-- view
unfoldable pub view : Repr → List ℕ
unfolding size bytes
view s = take (size s) (bytes s)

unfoldable pub empty : Repr → Bool
unfolding size
empty s = size s == 0

-- operator[]; `none` is the failed assertion, or a place outside the block.
unfoldable pub at : ℕ → Repr → Option ℕ
unfolding size bytes
at i s = if ltb i (size s) && ltb i (length (bytes s)) then some (get_or (bytes s) i 0) else none

-- set_size; the field of a short string has seven bits.
unfoldable pub set_size : ℕ → Repr → Repr
set_size n (Repr.short m d) = Repr.short (n % 128) d
set_size n (Repr.big cap m d) = Repr.big cap n d

unfoldable pub set_bytes : List ℕ → Repr → Repr
set_bytes d (Repr.short n e) = Repr.short n d
set_bytes d (Repr.big cap n e) = Repr.big cap n d

-- string(): a short string of size 0.
abbrev pub new_string : Repr
new_string = Repr.short 0 (replicate 23 0)

module _ (malloc : ℕ → Option (List ℕ)) (cap_factor : ℕ) where
  unfoldable pub capacity : Repr → ℕ
  capacity (Repr.short n d) = minimal_cap
  capacity (Repr.big cap n d) = cap * cap_factor

  -- default_allocator::grow of bytes: the block, or nothing where aligned_alloc refuses. Its assertion
  -- that the count does not shrink is the caller's.
  unfoldable pub grow : List ℕ → ℕ → ℕ → Option (Option (List ℕ))
  unfolding copy_bytes
  grow old old_count new_count = elim (malloc new_count) [
    | none ↦ some none
    | some new ↦ elim (copy_bytes old_count old new) [ none ↦ none | some d ↦ some (some d) ]
  ]

  -- The count of the field `cap`.
  unfoldable pub cap_field : ℕ → ℕ
  cap_field count = count / cap_factor % 128

  -- The part of ensure_can_fit that takes a larger buffer, by the kind of the string.
  unfoldable pub enlarge : ℕ → Repr → Option (Bool × Repr)
  unfolding grow cap_field copy_bytes
  enlarge new_size (Repr.short n d) = elim (malloc new_size) [
    | none ↦ some (false, Repr.short n d)
    | some new ↦ elim (copy_bytes n d new) [
      | none ↦ none
      | some e ↦ some (true, Repr.big (cap_field new_size) n e)
    ]
  ]
  enlarge new_size (Repr.big cap n d) = elim (grow d (cap * cap_factor) new_size) [
    | none ↦ none
    | some none ↦ some (false, Repr.big cap n d)
    | some (some e) ↦ some (true, Repr.big (cap_field new_size) n e)
  ]

  unfoldable pub next_capacity : ℕ → ℕ
  next_capacity cap = if ltb cap 32 then 32 else cap + cap / 2

  unfoldable pub ensure_can_fit : ℕ → Repr → Option (Bool × Repr)
  unfolding enlarge next_capacity capacity
  ensure_can_fit new_size s =
      if ltb (capacity s) new_size then enlarge (next_capacity (capacity s)) s else some (true, s)

  unfoldable pub reserve : ℕ → Repr → Option Repr
  unfolding ensure_can_fit
  reserve n s = elim (ensure_can_fit n s) [ none ↦ none | some (ok, s') ↦ some s' ]

  -- push_back after ensure_can_fit.
  unfoldable pub put_at : ℕ → ℕ → Repr → Option (Bool × Repr)
  unfolding store bytes set_bytes set_size
  put_at siz c s = elim (store siz c (bytes s)) [
    | none ↦ none
    | some d ↦ some (true, set_size (siz + 1) (set_bytes d s))
  ]

  unfoldable pub push_back : ℕ → Repr → Option (Bool × Repr)
  unfolding ensure_can_fit put_at size
  push_back c s = elim (ensure_can_fit (size s + 1) s) [
    | none ↦ none
    | some (false, s') ↦ some (false, s')
    | some (true, s') ↦ put_at (size s) c s'
  ]

  -- The loops over the characters, which go on when push_back fails.
  unfoldable pub push_all : List ℕ → Repr → Option Repr
  unfolding push_back
  push_all [] s = some s
  push_all (c ∷ cs) s = elim (push_back c s) [ none ↦ none | some (ok, s') ↦ push_all cs s' ]

  -- string(const char*) and string(std::string_view).
  unfoldable pub from_chars : List ℕ → Option Repr
  unfolding reserve push_all
  from_chars cs = elim (reserve (length cs) new_string) [ none ↦ none | some s ↦ push_all cs s ]

  unfoldable pub append : List ℕ → Repr → Option Repr
  unfolding reserve push_all capacity
  append cs s = elim (reserve (capacity s + length cs) s) [ none ↦ none | some s' ↦ push_all cs s' ]

  -- string(size_t): init.
  unfoldable pub sized : ℕ → Option Repr
  unfolding reserve
  sized n =
      if leb n minimal_cap
      then some (Repr.short (n % 128) (replicate 23 0))
      else reserve n new_string

-- pop_back; `none` is the failed assertion.
unfoldable pub pop_back : Repr → Option Repr
unfolding size set_size
pop_back s = if ltb 0 (size s) then some (set_size (size s - 1) s) else none

-- move_range of `n` bytes from behind the place `i` to it.
unfoldable pub move_down : ℕ → ℕ → List ℕ → List ℕ
move_down zero i d = d
move_down (suc n) i d = move_down n (i + 1) (set d i (get_or d (i + 1) 0))

-- erase of the character at a place.
unfoldable pub erase : ℕ → Repr → Option Repr
unfolding pop_back move_down size bytes set_bytes
erase i s = pop_back (set_bytes (move_down (size s - i - 1) i (bytes s)) s)
