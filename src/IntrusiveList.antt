-- ===== src/IntrusiveList.antt =====
-- intrusive_list of libraries/libglox/include/glox/intrusive_list.hpp. A node is its address, and the
-- links of all nodes, the sentinels among them, are two functions of the address. A list is the
-- address of its sentinel and its count; `list_node` converts to the element that holds it, so an
-- element is its node. The loops run on fuel, a round for each node.
pub mod Chain
pub mod Splice
pub mod Clear
pub mod Walk
pub mod Moves
pub mod Finds
pub mod Runs
mod Tests
use gloxor.Base.{
  ℕ, zero, suc, ◌+◌, List, [], ◌∷◌, Bool, true, false, ◌==◌, if◌then◌else◌, Option, none, some,
}
use gloxor.Algorithms.{write}

-- list_node, by address.
pub record Links : Type 0 where
  pub next : ℕ → ℕ
  pub prev : ℕ → ℕ

-- list_node::remove of the node `a`.
unfoldable pub remove : ℕ → Links → Links
unfolding write
remove a m =
    let n = m.next a in
    let p = m.prev a in record { next = write m.next p n; prev = write m.prev n p }

-- list_node::insert of `new_current` before the node `a`, write by write.
unfoldable pub insert_node : ℕ → ℕ → Links → Links
unfolding write
insert_node a new_current m =
    let next₁ = write m.next new_current a in
    let prev₁ = write m.prev new_current (m.prev a) in
    let next₂ = write next₁ (prev₁ a) new_current in
    record { next = next₂; prev = write prev₁ a new_current }

-- intrusive_list.
pub record IntrusiveList : Type 0 where
  pub sentinel : ℕ
  pub list_size : ℕ

-- The constructor: a list_node points to itself.
unfoldable pub init : ℕ → Links → IntrusiveList × Links
unfolding write
init s m = (
  record { sentinel = s; list_size = 0 },
  record { next = write m.next s s; prev = write m.prev s s },
)

-- The move constructor at a new sentinel `s`, from `other`.
unfoldable pub move_from : ℕ → IntrusiveList → Links → (IntrusiveList × IntrusiveList) × Links
unfolding write
move_from s other m =
    let o = other.sentinel in
    let next₁ = write m.next s (m.next o) in
    let prev₁ = write m.prev s (m.prev o) in
    (
      (record { sentinel = s; list_size = other.list_size }, record other { list_size = 0 }),
      record { next = write next₁ o s; prev = write prev₁ o s },
    )

-- The move assignment; `none` is the failed assertion.
unfoldable pub move_assign :
    IntrusiveList → IntrusiveList → Links → Option ((IntrusiveList × IntrusiveList) × Links)
unfolding move_from
move_assign l other m = if other.list_size == 0 then none else some (move_from l.sentinel other m)

unfoldable pub size : IntrusiveList → ℕ
size l = l.list_size

unfoldable pub is_empty : IntrusiveList → Bool
is_empty l = l.list_size == 0

unfoldable pub begin : IntrusiveList → Links → ℕ
begin l m = m.next l.sentinel

unfoldable pub end : IntrusiveList → ℕ
end l = l.sentinel

unfoldable pub front : IntrusiveList → Links → ℕ
front l m = m.next l.sentinel

unfoldable pub back : IntrusiveList → Links → ℕ
back l m = m.prev l.sentinel

unfoldable pub impl_insert : ℕ → ℕ → IntrusiveList → Links → IntrusiveList × Links
unfolding insert_node
impl_insert new_next new_current l m =
    (record l { list_size = l.list_size + 1 }, insert_node new_next new_current m)

unfoldable pub push_back : ℕ → IntrusiveList → Links → IntrusiveList × Links
unfolding impl_insert
push_back node l m = impl_insert l.sentinel node l m

unfoldable pub push_front : ℕ → IntrusiveList → Links → IntrusiveList × Links
unfolding impl_insert
push_front node l m = impl_insert (m.next l.sentinel) node l m

-- The iterator to the new node comes with it.
unfoldable pub insert : ℕ → ℕ → IntrusiveList → Links → ℕ × IntrusiveList × Links
unfolding impl_insert
insert iter node l m = let r = impl_insert iter node l m in (node, r.0, r.1)

-- The iterator that was given comes back.
unfoldable pub erase : ℕ → IntrusiveList → Links → ℕ × IntrusiveList × Links
unfolding remove
erase iter l m = (iter, l, remove iter m)

-- The loop of `clear`, from `tmp` towards the sentinel.
unfoldable pub clear_loop : ℕ → ℕ → ℕ → Links → Option Links
unfolding remove
clear_loop zero s tmp m = none
clear_loop (suc fuel) s tmp m = elim (tmp == s) [
  | true ↦ some m
  | false ↦ clear_loop fuel s (m.prev tmp) (remove tmp m)
]

unfoldable pub clear : ℕ → IntrusiveList → Links → Option (IntrusiveList × Links)
unfolding clear_loop write
clear fuel l m = elim (clear_loop fuel l.sentinel (m.prev l.sentinel) m) [
  | none ↦ none
  | some m' ↦ some (
    record l { list_size = 0 },
    record {
      next = write m'.next l.sentinel l.sentinel;
      prev = write m'.prev l.sentinel l.sentinel;
    },
  )
]

-- `for (auto& it : list)`, and find_if of utilalgs.hpp: the first node from `it` on that passes the
-- test, or `end`.
unfoldable pub find_if : ℕ → (ℕ → Bool) → ℕ → ℕ → Links → Option ℕ
find_if zero fn it end m = none
find_if (suc fuel) fn it end m = elim (it == end) [
  | true ↦ some end
  | false ↦ elim (fn it) [ true ↦ some it | false ↦ find_if fuel fn (m.next it) end m ]
]

-- The nodes that a loop with `++` visits from `it` to `end`.
unfoldable pub forwards : ℕ → ℕ → ℕ → Links → Option (List ℕ)
forwards zero it end m = none
forwards (suc fuel) it end m = elim (it == end) [
  | true ↦ some []
  | false ↦ elim (forwards fuel (m.next it) end m) [ none ↦ none | some l ↦ some (it ∷ l) ]
]

-- The nodes that a loop with `--` visits.
unfoldable pub backwards : ℕ → ℕ → ℕ → Links → Option (List ℕ)
backwards zero it end m = none
backwards (suc fuel) it end m = elim (it == end) [
  | true ↦ some []
  | false ↦ elim (backwards fuel (m.prev it) end m) [ none ↦ none | some l ↦ some (it ∷ l) ]
]
