-- ===== src/RbTree/Runs.antt =====
-- Trees that insert_at and erase of intrusive_rb_tree make from the empty one, and loops over them.
use gloxor.Base.{ℕ, ◌<◌, ◌≡◌, refl, sym, ◌∙◌, List, [], ◌∷◌, ◌++◌, none, some, length}
use mathlib.Core.Path.{subst}
use mathlib.Core.Option.{some-injective}
use gloxor.RbTree.{Color, Tree, leaf, node, Ancestors, plug, is_red}
use gloxor.RbTree.Shape.{inorder, before, after}
use gloxor.RbTree.Orders.{Absent}
use gloxor.RbTree.Iterate.{Position}
use gloxor.RbTree.Ends.{IntrusiveRbTree, InShape, insert_at, insert_at-InShape, erase_at}
use gloxor.RbTree.Steps.{erase_at-InShape}
use gloxor.RbTree.Loop.{visit_all, visit_all-order}

-- The tree after reset_sentinel.
abbrev pub empty : IntrusiveRbTree
empty = record { root = leaf; sentinel_left = none; sentinel_right = none; tree_size = 0 }

-- The tree that a run of insertions of new nodes and of erasures leaves, with the sequence of its nodes.
pub data Reached : IntrusiveRbTree → List ℕ → Type 0 where
  start : Reached empty []
  inserted :
      (m m' : IntrusiveRbTree) (n : ℕ) (p : Ancestors ℕ)
      → Reached m (before p ++ after p)
      → plug leaf p ≡ m.root
      → Absent n (before p ++ after p)
      → insert_at m n p ≡ some m'
      → Reached m' (before p ++ n ∷ after p)
  erased :
      (m m' : IntrusiveRbTree) (c : Color) (l : Tree ℕ) (x : ℕ) (r : Tree ℕ) (p : Ancestors ℕ)
      → Reached m ((before p ++ inorder l) ++ x ∷ (inorder r ++ after p))
      → plug (node c l x r) p ≡ m.root
      → erase_at m (Position.at c l x r p) ≡ some m'
      → Reached m' ((before p ++ inorder l) ++ (inorder r ++ after p))

empty-InShape : InShape empty []
unfolding is_red
empty-InShape = record {
  valid = (refl, tt);
  order = refl;
  distinct = tt;
  first = refl;
  last = refl;
  size = refl;
}

pub Reached-InShape : (m : IntrusiveRbTree) (xs : List ℕ) → Reached m xs → InShape m xs
Reached-InShape _ _ start = empty-InShape
Reached-InShape _ _ (inserted m m' n p run at_link fresh e) =
    let (m₂, e₂, s) =
      insert_at-InShape m n p (Reached-InShape m (before p ++ after p) run) at_link fresh in
    subst (λ k. InShape k (before p ++ n ∷ after p)) (some-injective m₂ m' (sym e₂ ∙ e)) s
Reached-InShape _ _ (erased m m' c l x r p run there e) =
    let before_it = Reached-InShape m ((before p ++ inorder l) ++ x ∷ (inorder r ++ after p)) run in
    let (m₂, e₂, s) = erase_at-InShape m c l x r p before_it there in
    subst (λ k. InShape k ((before p ++ inorder l) ++ (inorder r ++ after p)))
      (some-injective m₂ m' (sym e₂ ∙ e)) s

-- After any run of insert_at, of new nodes at null links, and of erase, from the empty tree: a loop from
-- begin() to end(), with more fuel than elements, ends and visits the nodes in the order of their links.
pub visit_all-run :
    (fuel : ℕ) (m : IntrusiveRbTree) (xs : List ℕ)
    → Reached m xs
    → length xs < fuel
    → visit_all fuel m ≡ some xs
visit_all-run fuel m xs run h = visit_all-order fuel m xs (Reached-InShape m xs run) h
