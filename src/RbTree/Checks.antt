-- ===== src/RbTree/Checks.antt =====
-- verify_subtree and verify of intrusive_rb_tree.hpp, on nodes with parent pointers that may be wrong. A
-- pointer is the address of a node, and `none` is the address of the sentinel.
use gloxor.Base.{
  ℕ, ◌+◌, ◌≡◌, refl, sym, ap, Option, none, some, Bool, true, false, not, ◌&&◌, ◌||◌, ◌==◌,
  if◌then◌else◌, Bool-cases, inl, inr, arith,
}
use mathlib.Core.Option.{some-ne-none}
use gloxor.RbTree.{Color, red, black, Tree, leaf, node, is_red}
use gloxor.RbTree.Verify.{join, passes, measure}

-- A null pointer, or a node with its colour, its parent pointer, its children and its address.
pub data Linked : Type 0 where
  null : Linked
  linked : Color → Option ℕ → Linked → ℕ → Linked → Linked

-- The fields of the sentinel, and the size.
pub record LinkedTree : Type 0 where
  pub root : Linked
  pub sentinel_left : Option ℕ
  pub sentinel_right : Option ℕ
  pub sentinel_color : Color
  pub tree_size : ℕ

-- The equality of pointers.
unfoldable pub same : Option ℕ → Option ℕ → Bool
same none none = true
same none (some b) = false
same (some a) none = false
same (some a) (some b) = a == b

unfoldable pub is_red_color : Color → Bool
is_red_color red = true
is_red_color black = false

unfoldable pub is_red_node : Linked → Bool
is_red_node null = false
is_red_node (linked c q l x r) = is_red_color c

-- The black height, or `none` for -1, and the count.
unfoldable pub verify_subtree : Linked → Option ℕ → ℕ → Option ℕ × ℕ
unfolding is_red_node join same
verify_subtree null parent count = (some 1, count)
verify_subtree (linked c q l x r) parent count =
    let left_part = verify_subtree l (some x) (count + 1) in
    let right_part = verify_subtree r (some x) left_part.1 in
    if not (same q parent)
    then (none, count + 1)
    else (if is_red_color c && (is_red_node l || is_red_node r)
        then (none, count + 1)
        else (join c left_part.0 right_part.0, right_part.1))

-- minimum and maximum, of a node.
unfoldable pub minimum : Linked → Option ℕ
minimum null = none
minimum (linked c q null x r) = some x
minimum (linked c q (linked d q' a y b) x r) = minimum (linked d q' a y b)

unfoldable pub maximum : Linked → Option ℕ
maximum null = none
maximum (linked c q l x null) = some x
maximum (linked c q l x (linked d q' a y b)) = maximum (linked d q' a y b)

-- is_sentinel of the sentinel.
unfoldable pub is_sentinel : LinkedTree → Linked → Bool
is_sentinel m null = false
is_sentinel m (linked c q l x r) = is_red_color m.sentinel_color && same q none

-- The checks of verify where the size is not 0.
unfoldable pub verify_nonempty : LinkedTree → Linked → Bool
verify_nonempty m null = false
verify_nonempty m (linked c q l x r) =
    not (is_red_color c)
    && (passes (verify_subtree (linked c q l x r) none 0) m.tree_size
        && (same m.sentinel_left (minimum (linked c q l x r))
            && (same m.sentinel_right (maximum (linked c q l x r))
                && (same q none && is_sentinel m (linked c q l x r)))))

unfoldable pub is_null : Linked → Bool
is_null null = true
is_null (linked c q l x r) = false

unfoldable pub verify : LinkedTree → Bool
verify m =
    if m.tree_size == 0
    then is_null m.root && (same m.sentinel_left none && same m.sentinel_right none)
    else verify_nonempty m m.root

-- The tree without its parent pointers.
abbrev pub tree_of : Linked → Tree ℕ
tree_of null = leaf
tree_of (linked c q l x r) = node c (tree_of l) x (tree_of r)

-- Every parent pointer leads to the parent.
abbrev pub AreLinked : Linked → Option ℕ → Type 0
AreLinked null parent = Unit
AreLinked (linked c q l x r) parent = (q ≡ parent) × AreLinked l (some x) × AreLinked r (some x)

pub same_eq : (p q : Option ℕ) → same p q ≡ true → p ≡ q
unfolding same
same_eq none none h = refl
same_eq none (some b) h = absurd (cc h)
same_eq (some a) none h = absurd (cc h)
same_eq (some a) (some b) h = ap some (ground arith)

pub same_self : (p : Option ℕ) → same p p ≡ true
unfolding same
same_self none = refl
same_self (some a) = ground arith

pub is_red_color-tree :
    (c : Color) (l : Tree ℕ) (x : ℕ) (r : Tree ℕ) → is_red (node c l x r) ≡ is_red_color c
unfolding is_red is_red_color
is_red_color-tree red l x r = refl
is_red_color-tree black l x r = refl

is_red-tree_of : (n : Linked) → is_red (tree_of n) ≡ is_red_node n
unfolding is_red is_red_node
is_red-tree_of null = refl
is_red-tree_of (linked c q l x r) = is_red_color-tree c (tree_of l) x (tree_of r)

pub verify_subtree-measure :
    (n : Linked) (parent : Option ℕ) (count : ℕ)
    → AreLinked n parent
    → verify_subtree n parent count ≡ measure (tree_of n) count
unfolding verify_subtree measure
verify_subtree-measure null parent count h = refl
verify_subtree-measure (linked c q l x r) parent count (e, hl, hr) =
    let l' = verify_subtree-measure l (some x) (count + 1) hl in
    let r' = verify_subtree-measure r (some x) (measure (tree_of l) (count + 1)).1 hr in
    rw
      (
        e,
        same_self parent,
        l',
        r',
        is_red_color-tree c (tree_of l) x (tree_of r),
        is_red-tree_of l,
        is_red-tree_of r,
      )
      refl

join_parts :
    (c : Color) (l r : Option ℕ) (h : ℕ)
    → join c l r ≡ some h
    → ((k : ℕ) × (l ≡ some k)) × ((k : ℕ) × (r ≡ some k))
unfolding join
join_parts c none r h e = absurd (some-ne-none h (sym e))
join_parts c (some l) none h e = absurd (some-ne-none h (sym e))
join_parts c (some l) (some r) h e = ((l, refl), (r, refl))

pub verify_subtree-AreLinked :
    (n : Linked) (parent : Option ℕ) (count h : ℕ)
    → (verify_subtree n parent count).0 ≡ some h
    → AreLinked n parent
unfolding verify_subtree
verify_subtree-AreLinked null parent count h e = tt
verify_subtree-AreLinked (linked c q l x r) parent count h e = elim (Bool-cases (same q parent)) [
  | inr other ↦ absurd (some-ne-none h (sym (rw other at e)))
  | inl there ↦ elim (Bool-cases (is_red_color c && (is_red_node l || is_red_node r))) [
    | inl two ↦ absurd (some-ne-none h (sym (rw (there, two) at e)))
    | inr one ↦
        let (k, i) =
          join_parts c (verify_subtree l (some x) (count + 1)).0
            (verify_subtree r (some x) (verify_subtree l (some x) (count + 1)).1).0 h
            (rw (there, one) at e) in
        (
          same_eq q parent there,
          verify_subtree-AreLinked l (some x) (count + 1) k.0 k.1,
          verify_subtree-AreLinked r (some x) (verify_subtree l (some x) (count + 1)).1 i.0 i.1,
        )
  ]
]
