-- ===== src/RbTree/Search.antt =====
-- The searches of ordered_intrusive_rb_tree in
-- libraries/libglox/include/glox/intrusive_rb_tree.hpp. The comparison with the key is a parameter:
-- `less x` for comp(x, key) and `more x` for comp(key, x).
use gloxor.Base.{
  ◌≡◌, refl, sym, ◌∙◌, List, [], ◌∷◌, ◌++◌, Bool, true, false, not, if◌then◌else◌, Bool-cases, inl,
  inr,
}
use mathlib.Core.List.{append_assoc}
use mathlib.Core.Path.{subst}
use gloxor.RbTree.{Color, left, right, Tree, leaf, node, frame, Ancestors, build, plug}
use gloxor.RbTree.Shape.{inorder, before, after, inorder-plug}

-- The sentinel, or a node.
pub data Position (A : Type 0) : Type 0 where
  at_end : Position A
  at_node : Color → Tree A → A → Tree A → Ancestors A → Position A

-- A null link, or the node that has an equivalent element.
pub data InsertPos (A : Type 0) : Type 0 where
  vacant : Ancestors A → InsertPos A
  existing : Color → Tree A → A → Tree A → Ancestors A → InsertPos A

module _ {A : Type 0} (less more : A → Bool) where
  unfoldable pub find_insert_pos : Tree A → Ancestors A → InsertPos A
  find_insert_pos leaf p = vacant p
  find_insert_pos (node c l x r) p = elim (more x) [
    | true ↦ find_insert_pos l (frame left c x r ∷ p)
    | false ↦ elim (less x) [
      | true ↦ find_insert_pos r (frame right c x l ∷ p)
      | false ↦ existing c l x r p
    ]
  ]

module _ {A : Type 0} (test : A → Bool) where
  -- The loop of lower_bound_node with `test x` for !comp(x, key), of upper_bound_node with
  -- `test x` for comp(key, x).
  unfoldable pub bound_node : Tree A → Ancestors A → Position A → Position A
  bound_node leaf p result = result
  bound_node (node c l x r) p result = elim (test x) [
    | true ↦ bound_node l (frame left c x r ∷ p) (at_node c l x r p)
    | false ↦ bound_node r (frame right c x l ∷ p) result
  ]

module _ {A : Type 0} where
  unfoldable pub lower_bound_node : (A → Bool) → Tree A → Position A
  unfolding bound_node
  lower_bound_node less root = bound_node (λ x. not (less x)) root [] at_end

  unfoldable pub upper_bound_node : (A → Bool) → Tree A → Position A
  unfolding bound_node
  upper_bound_node more root = bound_node more root [] at_end

  -- The end of find_node.
  unfoldable pub if_equivalent : (A → Bool) → Position A → Position A
  if_equivalent more at_end = at_end
  if_equivalent more (at_node c l x r p) = if not (more x) then at_node c l x r p else at_end

  unfoldable pub find_node : (A → Bool) → (A → Bool) → Tree A → Position A
  unfolding if_equivalent lower_bound_node
  find_node less more root = if_equivalent more (lower_bound_node less root)

module _ {A : Type 0} where
  -- The test has this value at every element.
  abbrev pub Every : (A → Bool) → Bool → List A → Type 0
  Every f b [] = Unit {0}
  Every f b (x ∷ xs) = (f x ≡ b) × Every f b xs

  pub Every-append :
      (f : A → Bool) (b : Bool) (xs ys : List A)
      → Every f b xs
      → Every f b ys
      → Every f b (xs ++ ys)
  Every-append f b [] ys ex ey = ey
  Every-append f b (x ∷ xs) ys (h, ex) ey = (h, Every-append f b xs ys ex ey)

  pub Every-left : (f : A → Bool) (b : Bool) (xs ys : List A) → Every f b (xs ++ ys) → Every f b xs
  Every-left f b [] ys e = tt
  Every-left f b (x ∷ xs) ys (h, e) = (h, Every-left f b xs ys e)

  pub Every-right : (f : A → Bool) (b : Bool) (xs ys : List A) → Every f b (xs ++ ys) → Every f b ys
  Every-right f b [] ys e = e
  Every-right f b (x ∷ xs) ys (h, e) = Every-right f b xs ys e

  -- Once the test holds, it holds of everything later.
  abbrev pub Rising : (A → Bool) → Tree A → Type 0
  Rising f leaf = Unit {0}
  Rising f (node c l x r) =
      (f x ≡ false → Every f false (inorder l))
      × (f x ≡ true → Every f true (inorder r))
      × Rising f l
      × Rising f r

  -- A position that splits the tree `t`: the test fails at all elements before it, and holds at its
  -- own and at those after it.
  abbrev pub Splits : (A → Bool) → Tree A → Position A → Type 0
  Splits f t at_end = Every f false (inorder t)
  Splits f t (at_node c l x r p) =
      (plug (node c l x r) p ≡ t)
      × Every f false (before p ++ inorder l)
      × (f x ≡ true)
      × Every f true (inorder r ++ after p)

  -- The state of the loop at a subtree: the result is the node that follows the subtree.
  Follows : (A → Bool) → Tree A → Ancestors A → Position A → Type 0
  Follows f t p at_end = after p ≡ []
  Follows f t p (at_node c l x r q) =
      (plug (node c l x r) q ≡ plug t p)
      × (before q ++ inorder l ≡ before p ++ inorder t)
      × (f x ≡ true)
      × (after p ≡ x ∷ (inorder r ++ after q))

  Follows-right :
      (f : A → Bool) (c : Color) (l : Tree A) (x : A) (u : Tree A) (p : Ancestors A)
      (q : Position A)
      → Follows f (node c l x u) p q
      → Follows f u (frame right c x l ∷ p) q
  unfolding Follows plug build
  Follows-right f c l x u p at_end w = w
  Follows-right f c l x u p (at_node d k y v q) (e, i, h, w) = (e, i ∙ simp append_assoc, h, w)

  -- The loop started at any subtree.
  bound_node-Splits :
      (f : A → Bool) (t : Tree A) (p : Ancestors A) (q : Position A)
      → Rising f t
      → Every f false (before p)
      → Every f true (after p)
      → Follows f t p q
      → Splits f (plug t p) (bound_node f t p q)
  unfolding bound_node Follows plug build
  bound_node-Splits f leaf p at_end r b a w =
      rw (inorder-plug leaf p, w) (Every-append f false (before p) [] b tt)
  bound_node-Splits f leaf p (at_node c l x u q) r b a (e, i, h, w) = (
    e,
    subst (λ s. Every f false s) (sym i) (Every-append f false (before p) [] b tt),
    h,
    (subst (λ s. Every f true s) w a).1,
  )
  bound_node-Splits f (node c l x u) p q (rl, ru, rl', ru') b a w = elim (Bool-cases (f x)) [
    | inl h ↦
        rw (h, bound_node)
          (bound_node-Splits f l (frame left c x u ∷ p) (at_node c l x u p) rl' b
            (h, Every-append f true (inorder u) (after p) (ru h) a) (refl, refl, h, refl))
    | inr h ↦
        rw (h, bound_node)
          (bound_node-Splits f u (frame right c x l ∷ p) q ru'
            (Every-append f false (before p) (inorder l ++ (x ∷ [])) b
              (Every-append f false (inorder l) (x ∷ []) (rl h) (h, tt)))
            a (Follows-right f c l x u p q w))
  ]

  -- The loop at the root: where the test rises along the tree, it ends at the first node at which
  -- the test holds.
  pub bound_node-first :
      (f : A → Bool) (t : Tree A) → Rising f t → Splits f t (bound_node f t [] at_end)
  unfolding Follows plug
  bound_node-first f t r = bound_node-Splits f t [] at_end r tt tt refl

  -- A null link where an element would stand in order, or a node that compares equal.
  abbrev pub Placed : (A → Bool) → (A → Bool) → Tree A → InsertPos A → Type 0
  Placed less more t (vacant p) =
      (plug leaf p ≡ t) × Every less true (before p) × Every more true (after p)
  Placed less more t (existing c l x r p) =
      (plug (node c l x r) p ≡ t) × (less x ≡ false) × (more x ≡ false)

  -- Where the keys below come first.
  abbrev pub Falling : (A → Bool) → Tree A → Type 0
  Falling f leaf = Unit {0}
  Falling f (node c l x r) = (f x ≡ true → Every f true (inorder l)) × Falling f l × Falling f r

  find_insert_pos_lem :
      (less more : A → Bool) (t : Tree A) (p : Ancestors A)
      → Falling less t
      → Rising more t
      → Every less true (before p)
      → Every more true (after p)
      → Placed less more (plug t p) (find_insert_pos less more t p)
  unfolding find_insert_pos plug build
  find_insert_pos_lem less more leaf p fa ri b a = (refl, b, a)
  find_insert_pos_lem less more (node c l x r) p (fx, fl, fr) (rx, ru, rl, rr) b a =
      elim (Bool-cases (more x)) [
        | inl m ↦
            rw (m, find_insert_pos)
              (find_insert_pos_lem less more l (frame left c x r ∷ p) fl rl b
                (m, Every-append more true (inorder r) (after p) (ru m) a))
        | inr m ↦ elim (Bool-cases (less x)) [
          | inl h ↦
              rw (m, h, find_insert_pos)
                (find_insert_pos_lem less more r (frame right c x l ∷ p) fr rr
                  (Every-append less true (before p) (inorder l ++ (x ∷ [])) b
                    (Every-append less true (inorder l) (x ∷ []) (fx h) (h, tt)))
                  a)
          | inr h ↦ rw (m, h, find_insert_pos) (refl, h, m)
        ]
      ]

  -- The loop of find_insert_pos at the root of a tree that is in order for the key.
  pub find_insert_pos-Placed :
      (less more : A → Bool) (t : Tree A)
      → Falling less t
      → Rising more t
      → Placed less more t (find_insert_pos less more t [])
  unfolding plug
  find_insert_pos-Placed less more t f r = find_insert_pos_lem less more t [] f r tt tt
