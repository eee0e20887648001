-- ===== src/RbTree/Iterate.antt =====
-- Iterators of intrusive_rb_tree: next and prev of namespace detail, begin and end. An element is the
-- address of its node, and the sentinel is the position `end` of the whole tree; what its fields left and
-- right point to are arguments. That its field parent is the root, and that a child is no ancestor, holds
-- by construction.
use gloxor.Base.{
  ℕ, zero, suc, ◌<◌, ◌≡◌, refl, ap, sym, ◌∙◌, List, [], ◌∷◌, ◌++◌, Option, none, some, Bool, true,
  false, not, ◌==◌, if◌then◌else◌, Bool-cases, inl, inr, length, arith,
}
use mathlib.Core.List.{append_assoc}
use gloxor.RbTree.{Color, red, black, left, right, Tree, leaf, node, Ancestors, frame}
use gloxor.RbTree.Shape.{inorder, after}
use gloxor.RbTree.Orders.{points_to}

-- What an iterator points to: a node with its colour, its children and its ancestors, or the sentinel.
pub data Position : Type 0 where
  end : Tree ℕ → Position
  at : Color → Tree ℕ → ℕ → Tree ℕ → Ancestors ℕ → Position

-- A pointer to it; `none` points to the sentinel.
unfoldable pub address : Position → Option ℕ
address (Position.end t) = none
address (Position.at c l x r p) = some x

-- The node at an address, for a pointer that is followed: a search of the tree.
unfoldable pub locate : ℕ → Tree ℕ → Ancestors ℕ → Option Position
locate a leaf p = none
locate a (node c l x r) p = elim (locate a l (frame left c x r ∷ p)) [
  | some q ↦ some q
  | none ↦ if a == x then some (Position.at c l x r p) else locate a r (frame right c x l ∷ p)
]

unfoldable pub follow : Option ℕ → Tree ℕ → Option Position
unfolding locate
follow none t = some (Position.end t)
follow (some a) t = locate a t []

unfoldable pub is_sentinel : Position → Bool
is_sentinel (Position.end leaf) = false
is_sentinel (Position.end (node c l x r)) = true
is_sentinel (Position.at red l x r []) = true
is_sentinel (Position.at black l x r []) = false
is_sentinel (Position.at c l x r (f ∷ p)) = false

unfoldable pub minimum : Color → Tree ℕ → ℕ → Tree ℕ → Ancestors ℕ → Position
minimum c leaf x r p = Position.at c leaf x r p
minimum c (node d l y b) x r p = minimum d l y b (frame left c x r ∷ p)

unfoldable pub maximum : Color → Tree ℕ → ℕ → Tree ℕ → Ancestors ℕ → Position
maximum c l x leaf p = Position.at c l x leaf p
maximum c l x (node d a y b) p = maximum d a y b (frame right c x l ∷ p)

-- The end of next where x is the root and y the sentinel. Where the root is the right child of the
-- sentinel, the loop has one more round, after which x is the sentinel and y the root, and the test
-- `x->right != y` keeps x from going back to the root. In all other cases the test holds.
unfoldable pub leave_root : Option ℕ → Tree ℕ → Position
unfolding points_to
leave_root last leaf = Position.end leaf
leave_root last (node c l x r) =
    if points_to last x
    then (if not (points_to last x) then Position.at c l x r [] else Position.end (node c l x r))
    else Position.end (node c l x r)

-- The loop of next, from the subtree under x and its ancestors.
unfoldable pub climb_next : Option ℕ → Tree ℕ → Ancestors ℕ → Position
unfolding leave_root
climb_next last t [] = leave_root last t
climb_next last t (frame left c x b ∷ p) = Position.at c t x b p
climb_next last t (frame right c x b ∷ p) = climb_next last (node c b x t) p

-- The end of prev where x is the root and y the sentinel: where the root is the left child of the
-- sentinel, the loop has one more round, after which y is the root.
unfoldable pub enter_root : Option ℕ → Tree ℕ → Position
unfolding points_to
enter_root first leaf = Position.end leaf
enter_root first (node c l x r) =
    if points_to first x then Position.at c l x r [] else Position.end (node c l x r)

-- The loop of prev.
unfoldable pub climb_prev : Option ℕ → Tree ℕ → Ancestors ℕ → Position
unfolding enter_root
climb_prev first t [] = enter_root first t
climb_prev first t (frame right c x b ∷ p) = Position.at c b x t p
climb_prev first t (frame left c x b ∷ p) = climb_prev first (node c t x b) p

-- next and operator++; not to be called at the end.
unfoldable pub next : Option ℕ → Position → Position
unfolding minimum climb_next
next last (Position.end t) = Position.end t
next last (Position.at c l x leaf p) = climb_next last (node c l x leaf) p
next last (Position.at c l x (node d a y b) p) = minimum d a y b (frame right c x l ∷ p)

-- x->right, `none` for a null pointer and for a pointer that leads to no node of the tree.
unfoldable pub right_of : Option ℕ → Position → Option Position
unfolding follow
right_of last (Position.end t) = follow last t
right_of last (Position.at c l x leaf p) = none
right_of last (Position.at c l x (node d a y b) p) =
    some (Position.at d a y b (frame right c x l ∷ p))

-- prev of a node; the sentinel of an empty tree has no predecessor.
unfoldable pub step_back : Option ℕ → Position → Option Position
unfolding maximum climb_prev
step_back first (Position.end t) = none
step_back first (Position.at c leaf x r p) = some (climb_prev first (node c leaf x r) p)
step_back first (Position.at c (node d a y b) x r p) = some (maximum d a y b (frame left c x r ∷ p))

-- prev and operator--.
unfoldable pub prev : Option ℕ → Option ℕ → Position → Option Position
prev first last pos = if is_sentinel pos then right_of last pos else step_back first pos

-- The elements that a loop with `++` visits up to the end, on fuel.
unfoldable pub visit : Option ℕ → ℕ → Position → Option (List ℕ)
unfolding next
visit last zero pos = none
visit last (suc fuel) (Position.end t) = some []
visit last (suc fuel) (Position.at c l x r p) =
    elim (visit last fuel (next last (Position.at c l x r p))) [
      | none ↦ none
      | some xs ↦ some (x ∷ xs)
    ]

-- The elements from a position on.
abbrev pub rest : Position → List ℕ
rest (Position.end t) = []
rest (Position.at c l x r p) = x ∷ (inorder r ++ after p)

pub leave_root-end : (last : Option ℕ) (t : Tree ℕ) → leave_root last t ≡ Position.end t
unfolding leave_root
leave_root-end last leaf = refl
leave_root-end last (node c l x r) = elim (Bool-cases (points_to last x)) [
  | inl yes_there ↦ rw yes_there refl
  | inr other ↦ rw other refl
]

rest-climb_next :
    (last : Option ℕ) (t : Tree ℕ) (p : Ancestors ℕ) → rest (climb_next last t p) ≡ after p
unfolding climb_next
rest-climb_next last t [] = ap rest (leave_root-end last t)
rest-climb_next last t (frame left c x b ∷ p) = refl
rest-climb_next last t (frame right c x b ∷ p) = rest-climb_next last (node c b x t) p

pub rest-minimum :
    (c : Color) (l : Tree ℕ) (x : ℕ) (r : Tree ℕ) (p : Ancestors ℕ)
    → rest (minimum c l x r p) ≡ inorder (node c l x r) ++ after p
unfolding minimum
rest-minimum c leaf x r p = refl
rest-minimum c (node d a y b) x r p =
    rest-minimum d a y b (frame left c x r ∷ p)
    ∙ sym (append_assoc (inorder (node d a y b)) (x ∷ inorder r) (after p))

pub rest-next :
    (last : Option ℕ) (c : Color) (l : Tree ℕ) (x : ℕ) (r : Tree ℕ) (p : Ancestors ℕ)
    → rest (next last (Position.at c l x r p)) ≡ inorder r ++ after p
unfolding next
rest-next last c l x leaf p = rest-climb_next last (node c l x leaf) p
rest-next last c l x (node d a y b) p = rest-minimum d a y b (frame right c x l ∷ p)

pub visit-rest :
    (last : Option ℕ) (fuel : ℕ) (pos : Position)
    → length (rest pos) < fuel
    → visit last fuel pos ≡ some (rest pos)
unfolding visit
visit-rest last zero pos h = elim h [ ]
visit-rest last (suc fuel) (Position.end t) h = refl
visit-rest last (suc fuel) (Position.at c l x r p) h =
    let on = rest-next last c l x r p in
    let ih =
      visit-rest last fuel (next last (Position.at c l x r p)) (omega (arith, ap length on, h)) in
    rw (ih, visit) (ap (λ xs. some (x ∷ xs)) on)
