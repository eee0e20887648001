-- ===== src/RbTree/Dict.antt =====
-- rb_tree_map of libraries/libglox/include/glox/intrusive_rb_tree.hpp over the tree. The comparison
-- of keys is a parameter, and so is whether the allocator gives memory for an entry.
pub mod Sorted
pub mod Laws
pub mod Emplace
pub mod Assign
pub mod Erase
use gloxor.Base.{
  ℕ, zero, suc, ◌+◌, ◌-◌, ◌≡◌, List, [], ◌∷◌, Option, none, some, Bool, true, false, not, ◌==◌,
  if◌then◌else◌,
}
use gloxor.RbTree.{Tree, leaf, node, Ancestors, plug, link_node}
use gloxor.RbTree.Removal.{unlink}
use gloxor.RbTree.Search.{
  Position, at_end, at_node, InsertPos, vacant, existing, find_insert_pos, find_node,
}

pub data InsertResult : Type 0 where
  success : InsertResult
  key_exists : InsertResult
  alloc_error : InsertResult

-- The tree of the entries. The two ends that the sentinel keeps, which no function here reads, are in
-- RbTree/Ends, where an element is the address of its node.
pub record RbTreeMap (K V : Type 0) : Type 0 where
  pub root : Tree (K × V)
  pub tree_size : ℕ

module _ {K V : Type 0} where
  -- link_entry of intrusive_rb_tree.
  unfoldable pub link_entry : RbTreeMap K V → K × V → Ancestors (K × V) → Option (RbTreeMap K V)
  unfolding link_node
  link_entry m e p = elim (link_node e p) [
    | none ↦ none
    | some t ↦ some (record { root = t; tree_size = m.tree_size + 1 })
  ]

  -- erase of intrusive_rb_tree at a node, less the two ends: `none` also where its assertion on the size
  -- fails; the root of a last element is reset.
  unfoldable pub unlink_entry : RbTreeMap K V → Position (K × V) → Option (RbTreeMap K V)
  unfolding unlink
  unlink_entry m at_end = none
  unlink_entry m (at_node c l x r p) = elim (unlink c l x r p) [
    | none ↦ none
    | some t ↦
        if m.tree_size == 0
        then none
        else some
            (record { root = if m.tree_size == 1 then leaf else t; tree_size = m.tree_size - 1 })
  ]

  -- The entry under an iterator, `none` for end().
  unfoldable pub entry : Position (K × V) → Option (K × V)
  entry at_end = none
  entry (at_node c l x r p) = some x

  -- it != end().
  unfoldable pub found : Position (K × V) → Bool
  found at_end = false
  found (at_node c l x r p) = true

  unfoldable pub second : Option (K × V) → Option V
  second none = none
  second (some (k, v)) = some v

  unfoldable pub erase_found : RbTreeMap K V → Position (K × V) → Option (RbTreeMap K V × ℕ)
  unfolding unlink_entry
  erase_found m at_end = some (m, 0)
  erase_found m (at_node c l x r p) = elim (unlink_entry m (at_node c l x r p)) [
    | none ↦ none
    | some n ↦ some (n, 1)
  ]

module _ {K V : Type 0} (comp : K → K → Bool) where
  -- entry_compare.
  unfoldable pub less : K → K × V → Bool
  less key (k, v) = comp k key

  unfoldable pub more : K → K × V → Bool
  more key (k, v) = comp key k

  unfoldable pub find : K → RbTreeMap K V → Position (K × V)
  unfolding less more find_node
  find key m = find_node (less key) (more key) m.root

  unfoldable pub at : K → RbTreeMap K V → Option V
  unfolding find entry second
  at key m = second (entry (find key m))

  unfoldable pub contains : K → RbTreeMap K V → Bool
  unfolding find found
  contains key m = found (find key m)

  unfoldable pub count : K → RbTreeMap K V → ℕ
  unfolding contains
  count key m = if contains key m then 1 else 0

  unfoldable pub emplace_at :
      RbTreeMap K V
      → K
      → V
      → Bool
      → InsertPos (K × V)
      → Option (RbTreeMap K V × Option (K × V) × InsertResult)
  unfolding link_entry
  emplace_at m key v memory (existing c l x r p) = some (m, some x, key_exists)
  emplace_at m key v memory (vacant p) = elim memory [
    | false ↦ some (m, none, alloc_error)
    | true ↦ elim (link_entry m (key, v) p) [
      | none ↦ none
      | some n ↦ some (n, some (key, v), success)
    ]
  ]

  -- The map, the entry under the iterator that is returned, and the result; `memory` tells whether
  -- the allocation of an entry succeeds.
  unfoldable pub try_emplace :
      RbTreeMap K V → K → V → Bool → Option (RbTreeMap K V × Option (K × V) × InsertResult)
  unfolding less more find_insert_pos emplace_at
  try_emplace m key v memory =
      emplace_at m key v memory (find_insert_pos (less key) (more key) m.root [])

  unfoldable pub assign_at :
      RbTreeMap K V
      → K
      → V
      → Bool
      → InsertPos (K × V)
      → Option (RbTreeMap K V × Option (K × V) × InsertResult)
  unfolding emplace_at plug
  assign_at m key v memory (existing c l (k, old) r p) = some (
    record { root = plug (node c l (k, v) r) p; tree_size = m.tree_size },
    some (k, v),
    key_exists,
  )
  assign_at m key v memory (vacant p) = emplace_at m key v memory (vacant p)

  unfoldable pub insert_or_assign :
      RbTreeMap K V → K → V → Bool → Option (RbTreeMap K V × Option (K × V) × InsertResult)
  unfolding less more find_insert_pos assign_at
  insert_or_assign m key v memory =
      assign_at m key v memory (find_insert_pos (less key) (more key) m.root [])

  -- erase by key: the map and the number of entries erased.
  unfoldable pub erase : RbTreeMap K V → K → Option (RbTreeMap K V × ℕ)
  unfolding find erase_found
  erase m key = erase_found m (find key m)
