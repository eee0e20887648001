-- ===== src/RbTree/Loop.antt =====
-- Loops over an intrusive_rb_tree from begin() to end(), and `++` after `--`.
use gloxor.Base.{
  ℕ, ◌<◌, ◌≡◌, ◌≢◌, refl, ap, sym, ◌∙◌, List, [], ◌∷◌, ◌++◌, Option, none, some, true, false, ◌==◌,
  length, length-append, arith,
}
use mathlib.Core.List.{append_assoc, append-nil}
use mathlib.Core.Option.{some-injective}
use mathlib.Core.Path.{subst}
use gloxor.RbTree.{
  Side, Color, red, black, left, right, Tree, leaf, node, Ancestors, frame, plug, build, is_red,
}
use gloxor.RbTree.Shape.{inorder}
use gloxor.RbTree.Orders.{
  first_of, last_of, Absent, Distinct, last_of-append, last_of-cons, Distinct-right,
  Distinct-last_of, Absent-last_of, Absent-left, Absent-right,
}
use gloxor.RbTree.Iterate.{
  Position, locate, follow, is_sentinel, minimum, maximum, climb_next, climb_prev, next, right_of,
  step_back, prev, visit, rest-minimum, visit-rest, leave_root-end,
}
use gloxor.RbTree.Ends.{IntrusiveRbTree, InShape}
use gloxor.RbTree.Steps.{last_of-node, is_sentinel-node}

unfoldable pub begin : IntrusiveRbTree → Option Position
unfolding follow
begin m = follow m.sentinel_left m.root

-- A loop from begin(), on fuel.
unfoldable pub visit_all : ℕ → IntrusiveRbTree → Option (List ℕ)
unfolding begin visit
visit_all fuel m = elim (begin m) [ none ↦ none | some pos ↦ visit m.sentinel_right fuel pos ]

locate-minimum :
    (c : Color) (l : Tree ℕ) (x : ℕ) (r : Tree ℕ) (p : Ancestors ℕ) (ws : List ℕ) (a : ℕ)
    → first_of (inorder (node c l x r) ++ ws) ≡ some a
    → locate a (node c l x r) p ≡ some (minimum c l x r p)
unfolding locate minimum
locate-minimum c leaf x r p ws a e =
    let here : (a == x) ≡ true = ground (arith, some-injective x a e) in rw here refl
locate-minimum c (node d s y b) x r p ws a e =
    let ih =
      locate-minimum d s y b (frame left c x r ∷ p) (x ∷ (inorder r ++ ws)) a
        (ap first_of (sym (append_assoc (inorder (node d s y b)) (x ∷ inorder r) ws)) ∙ e) in
    rw (locate, ih) refl

locate-Absent : (a : ℕ) (t : Tree ℕ) (p : Ancestors ℕ) → Absent a (inorder t) → locate a t p ≡ none
unfolding locate
locate-Absent a leaf p h = refl
locate-Absent a (node c l x r) p h =
    let l' =
      locate-Absent a l (frame left c x r ∷ p) (Absent-left a (inorder l) (x ∷ inorder r) h) in
    let (ne, h') = Absent-right a (inorder l) (x ∷ inorder r) h in
    let r' = locate-Absent a r (frame right c x l ∷ p) h' in
    let other : (a == x) ≡ false = ground (arith, ne) in rw (l', other, r') refl

locate-maximum :
    (c : Color) (l : Tree ℕ) (x : ℕ) (r : Tree ℕ) (p : Ancestors ℕ) (a : ℕ)
    → Distinct (inorder (node c l x r))
    → last_of (inorder (node c l x r)) ≡ some a
    → locate a (node c l x r) p ≡ some (maximum c l x r p)
unfolding locate maximum
locate-maximum c l x leaf p a d e =
    let same : x ≡ a = some-injective x a (sym (last_of-append (inorder l) (x ∷ []) x refl) ∙ e) in
    let here : (a == x) ≡ true = ground (arith, same) in
    let l' =
      locate-Absent a l (frame left c x leaf ∷ p)
        (Distinct-last_of (inorder l) (x ∷ []) a d (ap some same)) in
    rw (l', here) refl
locate-maximum c l x (node k s y b) p a d e =
    let r : Tree ℕ = node k s y b in
    let (a', f, _) = last_of-node k s y b [] in
    let f' = last_of-cons x (inorder r) a' f in
    let same : a' ≡ a =
      some-injective a' a (sym (last_of-append (inorder l) (x ∷ inorder r) a' f') ∙ e) in
    let (absent, d') = Distinct-right (inorder l) (x ∷ inorder r) d in
    let other : (a == x) ≡ false =
      ground (arith, Absent-last_of x a (inorder r) absent (f ∙ ap some same)) in
    let l' =
      locate-Absent a l (frame left c x r ∷ p)
        (Distinct-last_of (inorder l) (x ∷ inorder r) a d (f' ∙ ap some same)) in
    rw (l', other) (locate-maximum k s y b (frame right c x l ∷ p) a d' (f ∙ ap some same))

first_of-node :
    (c : Color) (l : Tree ℕ) (x : ℕ) (r : Tree ℕ) (ws : List ℕ)
    → (a : ℕ) × (first_of (inorder (node c l x r) ++ ws) ≡ some a)
first_of-node c leaf x r ws = (x, refl)
first_of-node c (node d s y b) x r ws =
    let (a, e) = first_of-node d s y b (x ∷ (inorder r ++ ws)) in
    (a, ap first_of (append_assoc (inorder (node d s y b)) (x ∷ inorder r) ws) ∙ e)

from_root :
    (last : Option ℕ) (fuel : ℕ) (t : Tree ℕ)
    → length (inorder t) < fuel
    → (pos : Position) × (follow (first_of (inorder t)) t ≡ some pos)
      × (visit last fuel pos ≡ some (inorder t))
unfolding follow
from_root last fuel leaf h = (Position.end leaf, refl, visit-rest last fuel (Position.end leaf) h)
from_root last fuel (node c l x r) h =
    let (a, e) = first_of-node c l x r [] in
    let e' : first_of (inorder (node c l x r)) ≡ some a =
      ap first_of (sym (append-nil (inorder (node c l x r)))) ∙ e in
    let all = rest-minimum c l x r [] ∙ append-nil (inorder (node c l x r)) in
    (
      minimum c l x r [],
      (rw (e', follow) (locate-minimum c l x r [] [] a e)),
      visit-rest last fuel (minimum c l x r []) (omega (arith, ap length all, h)) ∙ ap some all,
    )

-- A loop from begin() to end() of a tree in shape ends and visits the elements in their order, with more
-- fuel than elements.
pub visit_all-order :
    (fuel : ℕ) (m : IntrusiveRbTree) (xs : List ℕ)
    → InShape m xs
    → length xs < fuel
    → visit_all fuel m ≡ some xs
unfolding visit_all begin
visit_all-order fuel m xs s h =
    let (pos, e, v) =
      from_root m.sentinel_right fuel m.root (omega (arith, ap length s.order, h)) in
    let e' : follow m.sentinel_left m.root ≡ some pos =
      ap (λ o. follow o m.root) (s.first ∙ ap first_of (sym s.order)) ∙ e in
    rw (visit_all, begin, e') (v ∙ ap some s.order)

-- The last node of a tree.
last_position : Tree ℕ → Position
last_position leaf = Position.end leaf
last_position (node c l x r) = maximum c l x r []

follow-last_position :
    (t : Tree ℕ) → Distinct (inorder t) → follow (last_of (inorder t)) t ≡ some (last_position t)
unfolding follow last_position
follow-last_position leaf d = refl
follow-last_position (node c l x r) d =
    let (a, e, _) = last_of-node c l x r [] in rw (e, follow) (locate-maximum c l x r [] a d e)

next-maximum :
    (last : Option ℕ) (c : Color) (l : Tree ℕ) (x : ℕ) (r : Tree ℕ) (p : Ancestors ℕ)
    → next last (maximum c l x r p) ≡ climb_next last (node c l x r) p
unfolding maximum next climb_next
next-maximum last c l x leaf p = refl
next-maximum last c l x (node d a y b) p = next-maximum last d a y b (frame right c x l ∷ p)

module _ (first last : Option ℕ) where
  prev-climb_next :
      (c : Color) (l : Tree ℕ) (x : ℕ) (r : Tree ℕ) (p : Ancestors ℕ)
      → is_red (plug (node c l x r) p) ≡ false
      → follow last (plug (node c l x r) p) ≡ some (last_position (plug (node c l x r) p))
      → prev first last (climb_next last (node c l x r) p) ≡ some (maximum c l x r p)
  unfolding climb_next prev maximum plug build is_sentinel step_back right_of last_position
  prev-climb_next c l x r [] b e = rw (leave_root-end last (node c l x r)) e
  prev-climb_next c l x r (frame left d y u ∷ q) b e =
      let real = is_sentinel-node d (node c l x r) y u q b in rw (prev, real) refl
  prev-climb_next c l x r (frame right d y u ∷ q) b e = prev-climb_next d u y (node c l x r) q b e

  prev-minimum :
      (c : Color) (l : Tree ℕ) (x : ℕ) (r : Tree ℕ) (d : Color) (y : ℕ) (u : Tree ℕ)
      (p : Ancestors ℕ) (side : Side)
      → prev first last (minimum c l x r (frame side d y u ∷ p))
        ≡ some (climb_prev first (node c l x r) (frame side d y u ∷ p))
  unfolding minimum prev climb_prev is_sentinel step_back
  prev-minimum red leaf x r d y u p side = refl
  prev-minimum black leaf x r d y u p side = refl
  prev-minimum c (node k s z b) x r d y u p side =
      prev-minimum k s z b c x r (frame side d y u ∷ p) left

back :
    (first last : Option ℕ) (c : Color) (l : Tree ℕ) (x : ℕ) (r : Tree ℕ) (p : Ancestors ℕ)
    → is_red (plug (node c l x r) p) ≡ false
    → follow last (plug (node c l x r) p) ≡ some (last_position (plug (node c l x r) p))
    → prev first last (next last (Position.at c l x r p)) ≡ some (Position.at c l x r p)
unfolding next climb_prev maximum
back first last c l x leaf p b e = prev-climb_next first last c l x leaf p b e
back first last c l x (node d a y u) p b e = prev-minimum first last d a y u c x l p right

no_node : (us : List ℕ) (x : ℕ) (vs : List ℕ) → us ++ x ∷ vs ≢ []
no_node us x vs e =
    let n : length (us ++ x ∷ vs) ≡ 0 = ap length e in omega (arith, n, length-append us (x ∷ vs))

some_node :
    (c : Color) (l : Tree ℕ) (x : ℕ) (r : Tree ℕ) (p : Ancestors ℕ) (t : Tree ℕ)
    → plug (node c l x r) p ≡ t
    → inorder t ≢ []
unfolding plug build
some_node c l x r [] t e = λ h. no_node (inorder l) x (inorder r) (ap inorder e ∙ h)
some_node c l x r (frame left d y u ∷ p) t e = some_node d (node c l x r) y u p t e
some_node c l x r (frame right d y u ∷ p) t e = some_node d u y (node c l x r) p t e

from_end :
    (first last : Option ℕ) (t : Tree ℕ)
    → inorder t ≢ []
    → follow last t ≡ some (last_position t)
    → (pos : Position) × (prev first last (Position.end t) ≡ some pos)
      × (next last pos ≡ Position.end t)
unfolding prev is_sentinel right_of last_position climb_next
from_end first last leaf h e = absurd (h refl)
from_end first last (node c l x r) h e =
    (maximum c l x r [], e, next-maximum last c l x r [] ∙ leave_root-end last (node c l x r))

-- From every node of a tree in shape, `++` and then `--` lead back to it; and `--` from the end leads to a
-- node from which `++` leads back to the end.
pub prev-next :
    (m : IntrusiveRbTree) (xs : List ℕ) (c : Color) (l : Tree ℕ) (x : ℕ) (r : Tree ℕ)
    (p : Ancestors ℕ)
    → InShape m xs
    → plug (node c l x r) p ≡ m.root
    → (prev m.sentinel_left m.sentinel_right (next m.sentinel_right (Position.at c l x r p))
        ≡ some (Position.at c l x r p))
      × ((pos : Position) × (prev m.sentinel_left m.sentinel_right (Position.end m.root) ≡ some pos)
          × (next m.sentinel_right pos ≡ Position.end m.root))
prev-next m xs c l x r p s e =
    let black_root : is_red (plug (node c l x r) p) ≡ false = ap is_red e ∙ s.valid.0 in
    let distinct = subst Distinct (sym s.order) s.distinct in
    let found : follow m.sentinel_right m.root ≡ some (last_position m.root) =
      ap (λ o. follow o m.root) (s.last ∙ ap last_of (sym s.order))
      ∙ follow-last_position m.root distinct in
    let found' : follow m.sentinel_right (plug (node c l x r) p)
        ≡ some (last_position (plug (node c l x r) p)) =
      rw e found in
    (
      back m.sentinel_left m.sentinel_right c l x r p black_root found',
      from_end m.sentinel_left m.sentinel_right m.root (some_node c l x r p m.root e) found,
    )
