-- ===== src/RbTree/Verify.antt =====
-- What the recursion of verify_subtree in intrusive_rb_tree.hpp measures on a tree, apart from its test of
-- the parent pointers.
use gloxor.Base.{
  ℕ, ◌+◌, ◌≡◌, refl, sym, ap, ◌∷◌, Option, none, some, Bool, true, false, ◌&&◌, ◌||◌, ◌==◌,
  if◌then◌else◌, Bool-cases, inl, inr, length, length-append, arith,
}
use mathlib.Core.Option.{some-ne-none, some-injective}
use gloxor.RbTree.{Color, red, black, Tree, leaf, node, is_red}
use gloxor.RbTree.Shape.{inorder, height, weight, Even}

-- The end of verify_subtree, `none` for -1.
unfoldable pub join : Color → Option ℕ → Option ℕ → Option ℕ
join c none r = none
join c (some l) none = none
join red (some l) (some r) = if l == r then some l else none
join black (some l) (some r) = if l == r then some (l + 1) else none

unfoldable pub passes : Option ℕ × ℕ → ℕ → Bool
passes (none, count) tree_size = false
passes (some h, count) tree_size = count == tree_size

pub passes_lem :
    (s : Option ℕ × ℕ) (size : ℕ) → passes s size ≡ true → (h : ℕ) × (s.0 ≡ some h) × (s.1 ≡ size)
unfolding passes
passes_lem (none, count) size e = absurd (cc)
passes_lem (some h, count) size e = (h, refl, ground arith)

-- What join needs to give a height.
join-some :
    (c : Color) (l r : Option ℕ) (h : ℕ)
    → join c l r ≡ some h
    → (k : ℕ) × (l ≡ some k) × (r ≡ some k) × (h ≡ k + weight c)
unfolding join
join-some c none r h e = absurd (some-ne-none h (sym e))
join-some c (some l) none h e = absurd (some-ne-none h (sym e))
join-some red (some l) (some r) h e = (l, refl, ground arith, ground arith)
join-some black (some l) (some r) h e = (l, refl, ground arith, ground arith)

module _ {A : Type 0} where
  -- The black height, or `none`, and the count of the nodes.
  unfoldable pub measure : Tree A → ℕ → Option ℕ × ℕ
  unfolding is_red join
  measure leaf count = (some 1, count)
  measure (node c l x r) count =
      let left_part = measure l (count + 1) in
      let right_part = measure r left_part.1 in
      if is_red (node c l x r) && (is_red l || is_red r)
      then (none, count + 1)
      else (join c left_part.0 right_part.0, right_part.1)

  pub Even-measure :
      (t : Tree A) (n : ℕ) → Even t → measure t n ≡ (some (height t), n + length (inorder t))
  unfolding measure join is_red
  Even-measure leaf n e = ap (λ m. (some 1, m)) (omega arith)
  Even-measure (node red l x r) n (a, b, h, el, er) =
      let el' = Even-measure l (n + 1) el in
      let er' = Even-measure r (n + 1 + length (inorder l)) er in
      rw (el', er') (ground (arith, length-append (inorder l) (x ∷ inorder r)))
  Even-measure (node black l x r) n (h, el, er) =
      let el' = Even-measure l (n + 1) el in
      let er' = Even-measure r (n + 1 + length (inorder l)) er in
      rw (el', er') (ground (arith, length-append (inorder l) (x ∷ inorder r)))

  pub measure-Even : (t : Tree A) (n h : ℕ) → (measure t n).0 ≡ some h → Even t × (height t ≡ h)
  unfolding measure join is_red
  measure-Even leaf n h e = (tt, some-injective 1 h e)
  measure-Even (node red l x r) n h e = elim (Bool-cases (is_red l || is_red r)) [
    | inl two ↦ absurd (some-ne-none h (sym (rw two at e)))
    | inr one ↦
        let (k, el, er, w) =
          join-some red (measure l (n + 1)).0 (measure r (measure l (n + 1)).1).0 h (rw one at e) in
        let (l', hl) = measure-Even l (n + 1) k el in
        let (r', hr) = measure-Even r (measure l (n + 1)).1 k er in
        ((ground arith, ground arith, omega (arith, hl, hr), l', r'), omega (arith, hl, w))
  ]
  measure-Even (node black l x r) n h e =
      let (k, el, er, w) =
        join-some black (measure l (n + 1)).0 (measure r (measure l (n + 1)).1).0 h e in
      let (l', hl) = measure-Even l (n + 1) k el in
      let (r', hr) = measure-Even r (measure l (n + 1)).1 k er in
      ((omega (arith, hl, hr), l', r'), omega (arith, hl, w))
