-- ===== src/RbTree.antt =====
-- The red-black tree of libraries/libglox/include/glox/intrusive_rb_tree.hpp: the nodes and the
-- functions of namespace detail; RbTree/Ends has insert_at and erase of intrusive_rb_tree, RbTree/Iterate its
-- iterators and RbTree/Checks verify.
-- A node pointer is a position: the subtree under it and the path of its ancestors, which the
-- parent pointers of the source lead along. `link` is a side, so that the code that is written once
-- for both directions stays written once. `none` is the dereference of a null pointer.
pub mod Shape
pub mod Insert
pub mod Removal
pub mod Search
pub mod Rounds
pub mod Erase
pub mod Unlink
pub mod Verify
pub mod Checks
pub mod Accepts
pub mod Clear
pub mod Orders
pub mod Iterate
pub mod Ends
pub mod Steps
pub mod Loop
pub mod Runs
pub mod Dict
mod Tests
use gloxor.Base.{
  ℕ, zero, suc, ◌+◌, ◌≡◌, List, [], ◌∷◌, ◌++◌, Option, none, some, Bool, true, false, not, ◌&&◌,
  ◌||◌, ◌==◌, if◌then◌else◌,
}

pub data Color : Type 0 where
  red : Color
  black : Color

-- link_left and link_right.
pub data Side : Type 0 where
  left : Side
  right : Side

unfoldable pub opposite : Side → Side
opposite left = right
opposite right = left

unfoldable pub same_side : Side → Side → Bool
same_side left left = true
same_side left right = false
same_side right left = false
same_side right right = true

-- A null pointer, or a node with its colour, its children and its element.
pub data Tree (A : Type 0) : Type 0 where
  leaf : Tree A
  node : Color → Tree A → A → Tree A → Tree A

-- The parent of a position: the side the position is on, the parent's colour and element, and its
-- child on the opposite side.
pub data Frame (A : Type 0) : Type 0 where
  frame : Side → Color → A → Tree A → Frame A

-- The ancestors, the parent first, the root last.
abbrev pub Ancestors : Type 0 → Type 0
Ancestors A = List (Frame A)

module _ {A : Type 0} where
  -- A node with `a` as its child on the side and `b` on the opposite one.
  unfoldable pub build : Side → Color → Tree A → A → Tree A → Tree A
  build left c a x b = node c a x b
  build right c a x b = node c b x a

  -- The whole tree around a position: the writes of transplant to the parent's links.
  unfoldable pub plug : Tree A → Ancestors A → Tree A
  plug t [] = t
  plug t (frame s c x b ∷ p) = plug (build s c t x b) p

  unfoldable pub is_red : Tree A → Bool
  is_red leaf = false
  is_red (node red l x r) = true
  is_red (node black l x r) = false

  unfoldable pub is_black : Tree A → Bool
  unfolding is_red
  is_black t = not (is_red t)

  -- n->node_color = c, where n is not null.
  unfoldable pub set_color : Color → Tree A → Tree A
  set_color c leaf = leaf
  set_color c (node d l x r) = node c l x r

  -- x->*side, of a node.
  unfoldable pub child : Side → Tree A → Tree A
  child s leaf = leaf
  child left (node c l x r) = l
  child right (node c l x r) = r

  -- Rotates x down toward the side, its opposite child takes its place.
  unfoldable pub rotate : Side → Tree A → Option (Tree A)
  rotate dir leaf = none
  rotate left (node c a x leaf) = none
  rotate left (node c a x (node d b y e)) = some (node d (node c a x b) y e)
  rotate right (node c leaf x a) = none
  rotate right (node c (node d e y b) x a) = some (node d e y (node c b x a))

  -- The colour of the root is set black at the end.
  unfoldable pub finish : Option (Tree A) → Ancestors A → Option (Tree A)
  unfolding set_color plug
  finish none p = none
  finish (some t) p = some (set_color black (plug t p))

  -- The branch of insert_fixup where the uncle is black: z is on side `s` of the red p, p on side
  -- `dir` of g. An inner z is rotated up first, p then being its parent.
  unfoldable pub raise_inner : Side → Side → Tree A → Option (Tree A)
  unfolding same_side opposite rotate
  raise_inner s dir p = if same_side s (opposite dir) then rotate dir p else some p

  unfoldable pub rotate_up : Side → Option (Tree A) → A → Tree A → Option (Tree A)
  unfolding set_color build opposite rotate
  rotate_up dir none gx uncle = none
  rotate_up dir (some p) gx uncle =
      rotate (opposite dir) (build dir red (set_color black p) gx uncle)

  -- The loop at z, which is red. A red p that is the root has no real g.
  unfoldable pub fixup : Tree A → Ancestors A → Option (Tree A)
  unfolding set_color build plug is_red raise_inner rotate_up finish
  fixup z [] = some (set_color black z)
  fixup z (frame s black px sib ∷ path) =
      some (set_color black (plug z (frame s black px sib ∷ path)))
  fixup z (frame s red px sib ∷ []) = none
  fixup z (frame s red px sib ∷ frame dir gc gx uncle ∷ path) =
      let p = build s red z px sib in
      let above = fixup (build dir red (set_color black p) gx (set_color black uncle)) path in
      if is_red uncle then above else finish (rotate_up dir (raise_inner s dir p) gx uncle) path

  unfoldable pub insert_fixup : Tree A → Ancestors A → Option (Tree A)
  unfolding set_color fixup
  insert_fixup z path = fixup (set_color red z) path

  -- n->left = n->right = nullptr, linked at a null link of the tree.
  unfoldable pub link_node : A → Ancestors A → Option (Tree A)
  unfolding insert_fixup
  link_node x path = insert_fixup (node red leaf x leaf) path
