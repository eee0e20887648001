-- ===== src/RbTree/Tests.antt =====
-- Runs of the red-black tree and of rb_tree_map, and the properties at concrete trees.
use gloxor.Base.{ℕ, ◌≡◌, ◌↔◌, refl, [], ◌∷◌, Option, none, some, true, false, not, ltb, arith}
use gloxor.RbTree.{
  is_red, red, black, left, right, Tree, leaf, node, Ancestors, frame, build, plug, link_node,
}
use gloxor.RbTree.Clear.{clear_loop, clear_loop-postorder}
use gloxor.RbTree.Iterate.{Position, next, prev}
use gloxor.RbTree.Ends.{
  IntrusiveRbTree, InShape, insert_at, insert_at-InShape, erase_at, erase_left, erase_right,
}
use gloxor.RbTree.Steps.{erase_at-InShape}
use gloxor.RbTree.Runs.{empty, Reached, start, inserted, erased, visit_all-run}
use gloxor.RbTree.Loop.{visit_all, visit_all-order, prev-next}
use gloxor.RbTree.Insert.{Rebuilt, link_node-Rebuilt}
use gloxor.RbTree.Removal.{unlink}
use gloxor.RbTree.Unlink.{unlink-Rebuilt}
use gloxor.RbTree.Verify.{passes}
use gloxor.RbTree.Checks.{
  null, linked, LinkedTree, is_red_color, verify_subtree, minimum, maximum, is_sentinel,
  verify_nonempty, verify,
}
use gloxor.RbTree.Accepts.{IsSound, verify-IsSound}
use gloxor.RbTree.Search.{at_end, bound_node, bound_node-first, Splits}
use gloxor.RbTree.Dict.{RbTreeMap, more, at, try_emplace, insert_or_assign, erase, contains}
use gloxor.RbTree.Dict.Sorted.{Order}
use gloxor.RbTree.Dict.Laws.{InOrder}
use gloxor.RbTree.Dict.Emplace.{Emplaced, try_emplace-Emplaced}
use gloxor.RbTree.Dict.Assign.{Assigned, insert_or_assign-Assigned}
use gloxor.RbTree.Dict.Erase.{Erased, erase-Erased}

-- 1 red under 2 black, 3 red.
abbrev three : Tree ℕ
three = node black (node red leaf 1 leaf) 2 (node red leaf 3 leaf)

abbrev below_three : Ancestors ℕ
below_three = frame right red 3 leaf ∷ frame right black 2 (node red leaf 1 leaf) ∷ []

link_node_run :
    link_node 4 below_three
    ≡ some (node black (node black leaf 1 leaf) 2 (node black leaf 3 (node red leaf 4 leaf)))
unfolding link_node
link_node_run = refl

link_node-Rebuilt_example : Rebuilt (1 ∷ 2 ∷ 3 ∷ 4 ∷ []) (link_node 4 below_three)
unfolding plug is_red build
link_node-Rebuilt_example = link_node-Rebuilt 4 below_three (ground arith)

-- A black leaf leaves a black root: two rotations of the sibling's inner child.
abbrev root_two : Ancestors ℕ
root_two = frame left black 2 (node black (node red leaf 3 leaf) 4 leaf) ∷ []

unlink_run :
    unlink black leaf 1 leaf root_two
    ≡ some (node black (node black leaf 2 leaf) 3 (node black leaf 4 leaf))
unfolding unlink
unlink_run = refl

unlink-Rebuilt_example : Rebuilt (2 ∷ 3 ∷ 4 ∷ []) (unlink black leaf 1 leaf root_two)
unfolding plug is_red build
unlink-Rebuilt_example = unlink-Rebuilt black leaf 1 leaf root_two (ground arith)

-- The nodes 1 and 2 under 2; the parent pointer of 1 is an argument.
abbrev two_nodes : Option ℕ → LinkedTree
two_nodes parent = record {
  root = linked black none (linked red parent null 1 null) 2 null;
  sentinel_left = some 1;
  sentinel_right = some 2;
  sentinel_color = red;
  tree_size = 2;
}

verify_run : verify (two_nodes (some 2)) ≡ true
unfolding verify verify_nonempty is_red_color passes verify_subtree minimum maximum is_sentinel
verify_run = refl

verify_wrong_parent : verify (two_nodes (some 3)) ≡ false
unfolding verify verify_nonempty is_red_color passes verify_subtree minimum maximum is_sentinel
verify_wrong_parent = refl

verify_stale_end : verify (record (two_nodes (some 2)) { sentinel_left = some 2 }) ≡ false
unfolding verify verify_nonempty is_red_color passes verify_subtree minimum maximum is_sentinel
verify_stale_end = refl

verify-IsSound_example : (verify (two_nodes (some 2)) ≡ true) ↔ IsSound (two_nodes (some 2))
verify-IsSound_example = verify-IsSound (two_nodes (some 2))

bound_node-first_example :
    Splits (λ n. not (ltb n 2)) three (bound_node (λ n. not (ltb n 2)) three [] at_end)
bound_node-first_example = bound_node-first (λ n. not (ltb n 2)) three (ground arith)

clear_loop-postorder_example : clear_loop 7 three [] [] ≡ some (1 ∷ 3 ∷ 2 ∷ [])
clear_loop-postorder_example = clear_loop-postorder three 7 (omega arith)

ltb-Order : Order ltb
ltb-Order = record {
  irreflexive = λ a. ground arith;
  transitive = λ a b c p q. ground arith;
  total = λ a b p q. ground arith;
}

abbrev numbers : RbTreeMap ℕ ℕ
numbers = record {
  root = node black (node red leaf (1, 10) leaf) (2, 20) (node red leaf (3, 30) leaf);
  tree_size = 3;
}

numbers-InOrder : InOrder ltb numbers
unfolding is_red more
numbers-InOrder = record { valid = ground arith; sorted = ground arith; counted = refl }

try_emplace-Emplaced_example :
    Emplaced ltb ltb-Order numbers 4 40 true (try_emplace ltb numbers 4 40 true)
try_emplace-Emplaced_example = try_emplace-Emplaced ltb ltb-Order numbers 4 40 true numbers-InOrder

insert_or_assign-Assigned_example :
    Assigned ltb ltb-Order numbers 2 21 true (insert_or_assign ltb numbers 2 21 true)
insert_or_assign-Assigned_example =
    insert_or_assign-Assigned ltb ltb-Order numbers 2 21 true numbers-InOrder

erase-Erased_example : Erased ltb ltb-Order numbers 1 (erase ltb numbers 1) (contains ltb 1 numbers)
erase-Erased_example = erase-Erased ltb ltb-Order numbers 1 numbers-InOrder

at_run : at ltb 3 numbers ≡ some 30
unfolding at
at_run = refl

abbrev tree_three : IntrusiveRbTree
tree_three = record { root = three; sentinel_left = some 1; sentinel_right = some 3; tree_size = 3 }

tree_three-InShape : InShape tree_three (1 ∷ 2 ∷ 3 ∷ [])
unfolding is_red
tree_three-InShape = record {
  valid = ground arith;
  order = refl;
  distinct = omega arith;
  first = refl;
  last = refl;
  size = refl;
}

visit_all-order_run : visit_all 4 tree_three ≡ some (1 ∷ 2 ∷ 3 ∷ [])
visit_all-order_run = visit_all-order 4 tree_three (1 ∷ 2 ∷ 3 ∷ []) tree_three-InShape (omega arith)

abbrev first_of_three : Position
first_of_three = Position.at red leaf 1 leaf (frame left black 2 (node red leaf 3 leaf) ∷ [])

prev-next_example :
    (prev (some 1) (some 3) (next (some 3) first_of_three) ≡ some first_of_three)
    × ((pos : Position) × (prev (some 1) (some 3) (Position.end three) ≡ some pos)
        × (next (some 3) pos ≡ Position.end three))
unfolding plug build
prev-next_example =
    prev-next tree_three (1 ∷ 2 ∷ 3 ∷ []) red leaf 1 leaf
      (frame left black 2 (node red leaf 3 leaf) ∷ []) tree_three-InShape refl

insert_at-InShape_run :
    (m' : IntrusiveRbTree) × (insert_at tree_three 4 below_three ≡ some m')
    × InShape m' (1 ∷ 2 ∷ 3 ∷ 4 ∷ [])
unfolding plug build
insert_at-InShape_run =
    insert_at-InShape tree_three 4 below_three tree_three-InShape refl (omega arith)

erase_at-InShape_example :
    (m' : IntrusiveRbTree) × (erase_at tree_three first_of_three ≡ some m')
    × InShape m' (2 ∷ 3 ∷ [])
unfolding plug build
erase_at-InShape_example =
    erase_at-InShape tree_three red leaf 1 leaf (frame left black 2 (node red leaf 3 leaf) ∷ [])
      tree_three-InShape refl

abbrev one_node : IntrusiveRbTree
one_node = record {
  root = node black leaf 5 leaf;
  sentinel_left = some 5;
  sentinel_right = some 5;
  tree_size = 1;
}

abbrev two_in_tree : IntrusiveRbTree
two_in_tree = record {
  root = node black (node red leaf 3 leaf) 5 leaf;
  sentinel_left = some 3;
  sentinel_right = some 5;
  tree_size = 2;
}

abbrev one_left : IntrusiveRbTree
one_left = record {
  root = node black leaf 3 leaf;
  sentinel_left = some 3;
  sentinel_right = some 3;
  tree_size = 1;
}

inserted_5 : insert_at empty 5 [] ≡ some one_node
unfolding insert_at link_node
inserted_5 = refl

inserted_3 : insert_at one_node 3 (frame left black 5 leaf ∷ []) ≡ some two_in_tree
unfolding insert_at link_node
inserted_3 = refl

erased_5 : erase_at two_in_tree (Position.at black (node red leaf 3 leaf) 5 leaf []) ≡ some one_left
unfolding erase_at erase_left erase_right unlink gloxor.RbTree.Orders.points_to prev
    gloxor.RbTree.Iterate.is_sentinel gloxor.RbTree.Iterate.step_back gloxor.RbTree.Iterate.address
erased_5 = refl

run_of_three : Reached one_left (3 ∷ [])
unfolding plug build
run_of_three =
    erased two_in_tree one_left black (node red leaf 3 leaf) 5 leaf []
      (inserted one_node two_in_tree 3 (frame left black 5 leaf ∷ [])
        (inserted empty one_node 5 [] start refl tt inserted_5) refl (omega arith) inserted_3)
      refl erased_5

visit_all-run_example : visit_all 2 one_left ≡ some (3 ∷ [])
visit_all-run_example = visit_all-run 2 one_left (3 ∷ []) run_of_three (omega arith)
