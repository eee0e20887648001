-- ===== src/RbTree/Accepts.antt =====
-- What verify of intrusive_rb_tree.hpp accepts.
use gloxor.Base.{
  ℕ, ◌+◌, ◌≡◌, ◌≢◌, ◌↔◌, refl, sym, ap, ◌∙◌, List, [], ◌∷◌, ◌++◌, Option, none, some, true, false,
  ◌==◌, Bool-cases, inl, inr, length, length-append, arith,
}
use mathlib.Core.List.{append_assoc, append-nil}
use gloxor.RbTree.{Color, red, black, is_red}
use gloxor.RbTree.Shape.{inorder, Valid}
use gloxor.RbTree.Orders.{first_of, last_of, last_of-append, last_of-cons, length_zero}
use gloxor.RbTree.Verify.{passes, passes_lem, Even-measure, measure-Even}
use gloxor.RbTree.Checks.{
  Linked, null, linked, LinkedTree, same, is_red_color, verify_subtree, minimum, maximum,
  is_sentinel, verify_nonempty, is_null, verify, tree_of, AreLinked, same_eq, same_self,
  is_red_color-tree, verify_subtree-measure, verify_subtree-AreLinked,
}

-- What verify is to check.
pub record IsSound (m : LinkedTree) : Type 0 where
  pub parents : AreLinked m.root none
  pub valid : Valid (tree_of m.root)
  pub size : m.tree_size ≡ length (inorder (tree_of m.root))
  pub first : m.sentinel_left ≡ first_of (inorder (tree_of m.root))
  pub last : m.sentinel_right ≡ last_of (inorder (tree_of m.root))
  pub color : m.tree_size ≢ 0 → m.sentinel_color ≡ red

first_of-minimum :
    (c : Color) (q : Option ℕ) (l : Linked) (x : ℕ) (r : Linked) (ws : List ℕ)
    → minimum (linked c q l x r) ≡ first_of (inorder (tree_of (linked c q l x r)) ++ ws)
unfolding minimum
first_of-minimum c q null x r ws = refl
first_of-minimum c q (linked d q' a y b) x r ws =
    first_of-minimum d q' a y b (x ∷ (inorder (tree_of r) ++ ws))
    ∙ ap first_of
        (sym (append_assoc (inorder (tree_of (linked d q' a y b))) (x ∷ inorder (tree_of r)) ws))

last_of-maximum :
    (c : Color) (q : Option ℕ) (l : Linked) (x : ℕ) (r : Linked)
    → (a : ℕ) × (maximum (linked c q l x r) ≡ some a)
      × (last_of (inorder (tree_of (linked c q l x r))) ≡ some a)
unfolding maximum
last_of-maximum c q l x null = (x, refl, last_of-append (inorder (tree_of l)) (x ∷ []) x refl)
last_of-maximum c q l x (linked d q' a y b) =
    let (z, e, f) = last_of-maximum d q' a y b in
    (
      z,
      e,
      last_of-append (inorder (tree_of l)) (x ∷ inorder (tree_of (linked d q' a y b))) z
          (last_of-cons x (inorder (tree_of (linked d q' a y b))) z f),
    )

same-true : (p q : Option ℕ) → p ≡ q → same p q ≡ true
same-true p q e = ap (λ o. same o q) e ∙ same_self q

red_color : (c : Color) → is_red_color c ≡ true → c ≡ red
unfolding is_red_color
red_color red h = refl
red_color black h = absurd (cc h)

is_red_color-red : is_red_color red ≡ true
unfolding is_red_color
is_red_color-red = refl

module _ (m : LinkedTree) (c : Color) (q : Option ℕ) (l : Linked) (x : ℕ) (r : Linked)
    (root : m.root ≡ linked c q l x r) where
  n : Linked
  n = linked c q l x r

  checks :
      verify_nonempty m n ≡ true
      → (is_red_color c ≡ false)
        × (passes (verify_subtree n none 0) m.tree_size ≡ true)
        × (same m.sentinel_left (minimum n) ≡ true)
        × (same m.sentinel_right (maximum n) ≡ true)
        × (same q none ≡ true)
        × (is_red_color m.sentinel_color ≡ true)
  unfolding n verify_nonempty is_sentinel
  checks e = (ground arith, ground arith, ground arith, ground arith, ground arith, ground arith)

  nonempty-IsSound : verify_nonempty m n ≡ true → IsSound m
  unfolding n
  nonempty-IsSound e =
      let (black_root, pass, f, g, top, shade) = checks e in
      let (h, ok, count) = passes_lem (verify_subtree n none 0) m.tree_size pass in
      let parents = verify_subtree-AreLinked n none 0 h ok in
      let measured = verify_subtree-measure n none 0 parents in
      let (even, w) = measure-Even (tree_of n) 0 h (ap (λ s. s.0) (sym measured) ∙ ok) in
      let (z, e', f') = last_of-maximum c q l x r in
      rw root (record {
        parents = parents;
        valid = (is_red_color-tree c (tree_of l) x (tree_of r) ∙ black_root, even);
        size =
            sym count
            ∙ ap (λ s. s.1) measured
            ∙ ap (λ s. s.1) (Even-measure (tree_of n) 0 even)
            ∙ omega arith;
        first =
            same_eq m.sentinel_left (minimum n) f
            ∙ first_of-minimum c q l x r []
            ∙ ap first_of (append-nil (inorder (tree_of n)));
        last = same_eq m.sentinel_right (maximum n) g ∙ e' ∙ sym f';
        color = λ _. red_color m.sentinel_color shade;
      })

  IsSound-nonempty : IsSound m → verify_nonempty m n ≡ true
  unfolding n verify_nonempty is_sentinel passes
  IsSound-nonempty s =
      let parents : AreLinked n none = rw root at s.parents in
      let valid : Valid (tree_of n) = rw root at s.valid in
      let size : m.tree_size ≡ length (inorder (tree_of n)) = rw root at s.size in
      let measured = verify_subtree-measure n none 0 parents ∙ Even-measure (tree_of n) 0 valid.1 in
      let black_root : is_red_color c ≡ false =
        sym (is_red_color-tree c (tree_of l) x (tree_of r)) ∙ valid.0 in
      let (z, e', f') = last_of-maximum c q l x r in
      let first : m.sentinel_left ≡ first_of (inorder (tree_of n)) = rw root at s.first in
      let last : m.sentinel_right ≡ last_of (inorder (tree_of n)) = rw root at s.last in
      let f = same-true m.sentinel_left (minimum n) (
        first
        ∙ ap first_of (sym (append-nil (inorder (tree_of n))))
        ∙ sym (first_of-minimum c q l x r [])) in
      let g = same-true m.sentinel_right (maximum n) (last ∙ f' ∙ sym e') in
      let some_size : m.tree_size ≢ 0 =
        omega (arith, size, length-append (inorder (tree_of l)) (x ∷ inorder (tree_of r))) in
      let shade : is_red_color m.sentinel_color ≡ true =
        ap is_red_color (s.color some_size) ∙ is_red_color-red in
      let count : (0 + length (inorder (tree_of n)) == m.tree_size) ≡ true = ground (arith, size) in
      let pass : passes (verify_subtree n none 0) m.tree_size ≡ true =
        ap (λ p. passes p m.tree_size) measured ∙ count in
      rw (black_root, pass, f, g, same-true q none parents.0, shade) refl

by_root :
    (m : LinkedTree) (n : Linked)
    → m.root ≡ n
    → (verify_nonempty m n ≡ true → IsSound m)
      × (IsSound m → m.tree_size ≢ 0 → verify_nonempty m n ≡ true)
unfolding verify_nonempty n
by_root m null e = (
  λ h. absurd (cc h),
  λ s some_size. absurd (some_size (s.size ∙ ap (λ n. length (inorder (tree_of n))) e)),
)
by_root m (linked c q l x r) e =
    (nonempty-IsSound m c q l x r e, λ s some_size. IsSound-nonempty m c q l x r e s)

empty_root :
    (m : LinkedTree) (n : Linked)
    → m.root ≡ n
    → (is_null n ≡ true → m.root ≡ null) × (length (inorder (tree_of n)) ≡ 0 → is_null n ≡ true)
unfolding is_null
empty_root m null e = (λ h. e, λ h. refl)
empty_root m (linked c q l x r) e = (
  λ h. absurd (cc h),
  λ h. absurd (omega (arith, h, length-append (inorder (tree_of l)) (x ∷ inorder (tree_of r)))),
)

empty-IsSound :
    (m : LinkedTree)
    → m.tree_size ≡ 0
    → m.root ≡ null
    → m.sentinel_left ≡ none
    → m.sentinel_right ≡ none
    → IsSound m
unfolding is_red
empty-IsSound m size root first last = rw root (record {
  parents = tt;
  valid = (refl, tt);
  size = size;
  first = first;
  last = last;
  color = λ some_size. absurd (some_size size);
})

-- verify accepts exactly the trees in which every parent pointer leads to the parent, that are red-black
-- with as many nodes as the size says, whose sentinel points to the first and to the last node, or to
-- itself where there is none, and whose sentinel is red where the size is not 0.
pub verify-IsSound : (m : LinkedTree) → (verify m ≡ true) ↔ IsSound m
unfolding verify
verify-IsSound m = elim (Bool-cases (m.tree_size == 0)) [
  | inr some_size ↦
      let big : m.tree_size ≢ 0 = ground (arith, some_size) in
      let (there, back) = by_root m m.root refl in rw some_size (there, λ s. back s big)
  | inl nil ↦
      let size : m.tree_size ≡ 0 = ground (arith, nil) in
      let (there, back) = empty_root m m.root refl in
      rw nil (
        λ e.
            empty-IsSound m size (there (ground arith))
              (same_eq m.sentinel_left none (ground arith))
              (same_eq m.sentinel_right none (ground arith)),
        λ s.
            let none_there : length (inorder (tree_of m.root)) ≡ 0 = omega (arith, s.size, size) in
            let empty = length_zero (inorder (tree_of m.root)) none_there in
            let root = back none_there in
            let first = same-true m.sentinel_left none (s.first ∙ ap first_of empty) in
            let last = same-true m.sentinel_right none (s.last ∙ ap last_of empty) in
            rw (root, first, last) refl,
      )
]
