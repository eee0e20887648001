-- ===== src/RbTree/Ends.antt =====
-- intrusive_rb_tree with the two ends that its sentinel keeps: insert_at and erase, and what they keep.
use gloxor.Base.{
  ℕ, ◌+◌, ◌-◌, ◌≡◌, refl, ap, sym, ◌∙◌, List, [], ◌∷◌, ◌++◌, Option, none, some, ◌==◌,
  if◌then◌else◌, length, length-append, arith,
}
use gloxor.RbTree.{left, right, Tree, leaf, Ancestors, frame, plug, link_node}
use gloxor.RbTree.Shape.{inorder, before, after, Valid}
use gloxor.RbTree.Insert.{link_node-Rebuilt}
use gloxor.RbTree.Removal.{unlink}
use gloxor.RbTree.Orders.{
  points_to, first_of, last_of, Absent, Distinct, last_of-append, last_of-some, Distinct-insert,
  first_of-insert, first_of-keep, last_of-insert,
}
use gloxor.RbTree.Iterate.{Position, address, next, prev}

-- The fields parent, left and right of the sentinel, and the size.
pub record IntrusiveRbTree : Type 0 where
  pub root : Tree ℕ
  pub sentinel_left : Option ℕ
  pub sentinel_right : Option ℕ
  pub tree_size : ℕ

-- The ends after a node is linked at a place under these ancestors.
unfoldable pub insert_left : Option ℕ → ℕ → Ancestors ℕ → Option ℕ
unfolding points_to
insert_left first n [] = some n
insert_left first n (frame left c x b ∷ p) = if points_to first x then some n else first
insert_left first n (frame right c x b ∷ p) = first

unfoldable pub insert_right : Option ℕ → ℕ → Ancestors ℕ → Option ℕ
unfolding points_to
insert_right last n [] = some n
insert_right last n (frame left c x b ∷ p) = last
insert_right last n (frame right c x b ∷ p) = if points_to last x then some n else last

-- insert_at, with `none` for a null pointer that is followed.
unfoldable pub insert_at : IntrusiveRbTree → ℕ → Ancestors ℕ → Option IntrusiveRbTree
unfolding insert_left insert_right
insert_at m n p = elim (link_node n p) [
  | none ↦ none
  | some t ↦ some (record {
    root = t;
    sentinel_left = insert_left m.sentinel_left n p;
    sentinel_right = insert_right m.sentinel_right n p;
    tree_size = m.tree_size + 1;
  })
]

-- newLeft and newRight in the fields of the sentinel; a null newRight leaves the field.
unfoldable pub erase_left : IntrusiveRbTree → ℕ → Position → Option ℕ
erase_left m x pos =
    if points_to m.sentinel_left x then address (next m.sentinel_right pos) else m.sentinel_left

unfoldable pub erase_right : IntrusiveRbTree → ℕ → Position → Option ℕ
erase_right m x pos =
    if points_to m.sentinel_right x
    then elim (prev m.sentinel_left m.sentinel_right pos) [
      | none ↦ m.sentinel_right
      | some q ↦ address q
    ]
    else m.sentinel_right

-- erase, `none` also where its assertion fails.
unfoldable pub erase_at : IntrusiveRbTree → Position → Option IntrusiveRbTree
erase_at m (Position.end t) = none
erase_at m (Position.at c l x r p) = if m.tree_size == 0 then none else elim (unlink c l x r p) [
  | none ↦ none
  | some t ↦
      if m.tree_size == 1
      then some (record { root = leaf; sentinel_left = none; sentinel_right = none; tree_size = 0 })
      else some (record {
        root = t;
        sentinel_left = erase_left m x (Position.at c l x r p);
        sentinel_right = erase_right m x (Position.at c l x r p);
        tree_size = m.tree_size - 1;
      })
]

-- A red-black tree of nodes at different addresses, with its ends and its size.
pub record InShape (m : IntrusiveRbTree) (xs : List ℕ) : Type 0 where
  pub valid : Valid m.root
  pub order : inorder m.root ≡ xs
  pub distinct : Distinct xs
  pub first : m.sentinel_left ≡ first_of xs
  pub last : m.sentinel_right ≡ last_of xs
  pub size : m.tree_size ≡ length xs

insert_left-first_of :
    (n : ℕ) (p : Ancestors ℕ)
    → Distinct (before p ++ after p)
    → insert_left (first_of (before p ++ after p)) n p ≡ first_of (before p ++ n ∷ after p)
unfolding insert_left points_to
insert_left-first_of n [] d = refl
insert_left-first_of n (frame left c x b ∷ p) d =
    first_of-insert n x (before p) (inorder b ++ after p) d
insert_left-first_of n (frame right c x b ∷ p) d =
    first_of-keep n x (before p) (inorder b) (after p)

insert_right-last_of :
    (n : ℕ) (p : Ancestors ℕ)
    → Distinct (before p ++ after p)
    → insert_right (last_of (before p ++ after p)) n p ≡ last_of (before p ++ n ∷ after p)
unfolding insert_right points_to
insert_right-last_of n [] d = refl
insert_right-last_of n (frame left c x b ∷ p) d =
    let (y, e) = last_of-some x (inorder b ++ after p) in
    last_of-append (before p) (x ∷ (inorder b ++ after p)) y e
    ∙ sym (last_of-append (before p) (n ∷ x ∷ (inorder b ++ after p)) y e)
insert_right-last_of n (frame right c x b ∷ p) d =
    last_of-insert n x (before p ++ (inorder b ++ (x ∷ []))) (after p)
      (last_of-append (before p) (inorder b ++ (x ∷ [])) x
        (last_of-append (inorder b) (x ∷ []) x refl))
      d

-- insert_at of a new address at a null link: it ends without a null pointer, and the tree is in shape with
-- the address between those before and those after the link, the ends of the sentinel included.
pub insert_at-InShape :
    (m : IntrusiveRbTree) (n : ℕ) (p : Ancestors ℕ)
    → InShape m (before p ++ after p)
    → plug leaf p ≡ m.root
    → Absent n (before p ++ after p)
    → (m' : IntrusiveRbTree) × (insert_at m n p ≡ some m') × InShape m' (before p ++ n ∷ after p)
unfolding insert_at
insert_at-InShape m n p s e fresh =
    let (t, ok, io, v) = link_node-Rebuilt n p (rw e s.valid) in
    let m' : IntrusiveRbTree = record {
      root = t;
      sentinel_left = insert_left m.sentinel_left n p;
      sentinel_right = insert_right m.sentinel_right n p;
      tree_size = m.tree_size + 1;
    } in
    (
      m',
      (rw (ok, insert_at) refl),
      record {
        valid = v;
        order = io;
        distinct = Distinct-insert (before p) (after p) n s.distinct fresh;
        first = ap (λ f. insert_left f n p) s.first ∙ insert_left-first_of n p s.distinct;
        last = ap (λ f. insert_right f n p) s.last ∙ insert_right-last_of n p s.distinct;
        size = omega (
          arith,
          s.size,
          length-append (before p) (after p),
          length-append (before p) (n ∷ after p),
        );
      },
    )
