-- ===== src/RbTree/Dict/Laws.antt =====
-- rb_tree_map of libraries/libglox/include/glox/intrusive_rb_tree.hpp: what each operation makes of
-- the entries that are found by key.
use gloxor.Base.{
  ◌≡◌, refl, sym, ap, ◌∙◌, List, [], ◌∷◌, ◌++◌, Bool, true, false, not, ◌&&◌, Bool-cases, inl, inr,
  length, arith,
}
use mathlib.Core.List.{append_assoc, append-nil}
use mathlib.Core.Path.{subst}
use gloxor.RbTree.{Color, Tree, node, Ancestors, plug}
use gloxor.RbTree.Shape.{inorder, before, after, inorder-plug, Valid}
use gloxor.RbTree.Search.{
  Position, at_end, at_node, bound_node, lower_bound_node, if_equivalent, find_node, Every, Splits,
  bound_node-first,
}
use gloxor.RbTree.Dict.{RbTreeMap, entry, second, less, more, find, at}
use gloxor.RbTree.Dict.Sorted.{
  Order, Sorted, Sorted-right, lookup, Every-more, Sorted-lower, lookup-skip, lookup-above,
}

-- A red-black tree with ascending keys, and the right size.
pub record InOrder {K V : Type 0} (comp : K → K → Bool) (m : RbTreeMap K V) : Type 0 where
  pub valid : Valid m.root
  pub sorted : Sorted comp (inorder m.root)
  pub counted : m.tree_size ≡ length (inorder m.root)

abbrev pub same : {K : Type 0} → (K → K → Bool) → K → K → Bool
same comp a b = not (comp a b) && not (comp b a)

module _ {K V : Type 0} (comp : K → K → Bool) (o : Order comp) where
  pub Every-less-from :
      (xs : List (K × V)) (key : K)
      → Every (λ e. not (less comp key e)) false xs
      → Every (less comp key) true xs
  Every-less-from [] key e = tt
  Every-less-from (x ∷ xs) key (h, e) = (ground arith, Every-less-from xs key e)

  -- The elements of a tree around a node.
  pub inorder-at :
      (t : Tree (K × V)) (c : Color) (l : Tree (K × V)) (x : K × V) (r : Tree (K × V))
      (p : Ancestors (K × V))
      → plug (node c l x r) p ≡ t
      → inorder t ≡ (before p ++ inorder l) ++ (x ∷ (inorder r ++ after p))
  inorder-at t c l x r p e = ap inorder (sym e) ∙ inorder-plug (node c l x r) p ∙ simp append_assoc

  pub found-lookup :
      (t : Tree (K × V)) (key : K) (q : Position (K × V))
      → Sorted comp (inorder t)
      → Splits (λ e. not (less comp key e)) t q
      → second (entry (if_equivalent (more comp key) q)) ≡ lookup comp key (inorder t)
  unfolding if_equivalent entry second more less
  found-lookup t key at_end s e = sym (
      ap (λ l. lookup comp key l) (sym (append-nil (inorder t)))
      ∙ lookup-skip comp o (inorder t) [] key (Every-less-from (inorder t) key e))
  found-lookup t key (at_node c l (k, v) r p) s (e, b, h, a) =
      let i = inorder-at t c l (k, v) r p e in
      let rest : List (K × V) = inorder r ++ after p in
      let h' : comp k key ≡ false = ground arith in
      let skip =
        lookup-skip comp o (before p ++ inorder l) ((k, v) ∷ rest) key
          (Every-less-from (before p ++ inorder l) key b) in
      let above =
        (Sorted-right comp (before p ++ inorder l) ((k, v) ∷ rest)
          (subst (λ xs. Sorted comp xs) i s)).0 in
      elim (Bool-cases (comp key k)) [
        | inl g ↦
            rw (i, skip, h', g)
              (sym (lookup-above comp o rest key (Every-more comp o rest key k g above)))
        | inr g ↦ rw (i, skip, h', g) refl
      ]

  -- The tree search finds what a search through the sorted entries would.
  pub at-lookup :
      (m : RbTreeMap K V) (key : K)
      → Sorted comp (inorder m.root)
      → at comp key m ≡ lookup comp key (inorder m.root)
  unfolding at find find_node lower_bound_node
  at-lookup m key s =
      found-lookup m.root key (bound_node (λ e. not (less comp key e)) m.root [] at_end) s
        (bound_node-first (λ e. not (less comp key e)) m.root (Sorted-lower comp o m.root key s))
