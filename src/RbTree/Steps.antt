-- ===== src/RbTree/Steps.antt =====
-- The steps back of iterators of intrusive_rb_tree, and erase of a tree with the ends of its sentinel.
use gloxor.Base.{
  ℕ, ◌+◌, ◌-◌, ◌≡◌, ◌≢◌, refl, ap, sym, ◌∙◌, List, [], ◌∷◌, ◌++◌, Option, none, some, true, false,
  ◌==◌, Bool-cases, inl, inr, length, length-append, arith,
}
use mathlib.Core.List.{append_assoc, append-nil}
use mathlib.Core.Option.{some-ne-none}
use gloxor.RbTree.{Color, red, black, left, right, Tree, leaf, node, Ancestors, frame, plug, is_red}
use gloxor.RbTree.Shape.{inorder, before, after}
use gloxor.RbTree.Unlink.{unlink-Rebuilt}
use gloxor.RbTree.Orders.{
  points_to, first_of, last_of, Distinct, last_of-append, last_of-cons, last_of-some,
  Absent-last_of, length_zero, Distinct-delete, first_of-delete, last_of-delete,
}
use gloxor.RbTree.Iterate.{
  Position, address, is_sentinel, maximum, climb_prev, next, step_back, prev, rest, rest-next,
}
use gloxor.RbTree.Ends.{IntrusiveRbTree, erase_left, erase_right, erase_at, InShape}

address-rest : (pos : Position) → address pos ≡ first_of (rest pos)
unfolding address
address-rest (Position.end t) = refl
address-rest (Position.at c l x r p) = refl

pub last_of-node :
    (c : Color) (l : Tree ℕ) (x : ℕ) (r : Tree ℕ) (p : Ancestors ℕ)
    → (a : ℕ) × (last_of (inorder (node c l x r)) ≡ some a) × (address (maximum c l x r p) ≡ some a)
unfolding maximum address
last_of-node c l x leaf p = (x, last_of-append (inorder l) (x ∷ []) x refl, refl)
last_of-node c l x (node d s y b) p =
    let (a, e, m) = last_of-node d s y b (frame right c x l ∷ p) in
    (
      a,
      last_of-append (inorder l) (x ∷ inorder (node d s y b)) a
          (last_of-cons x (inorder (node d s y b)) a e),
      m,
    )

-- In a tree with a black root no node passes for the sentinel.
pub is_sentinel-node :
    (c : Color) (l : Tree ℕ) (x : ℕ) (r : Tree ℕ) (p : Ancestors ℕ)
    → is_red (plug (node c l x r) p) ≡ false
    → is_sentinel (Position.at c l x r p) ≡ false
unfolding is_sentinel plug is_red
is_sentinel-node red l x r [] h = absurd (cc h)
is_sentinel-node black l x r [] h = refl
is_sentinel-node red l x r (f ∷ p) h = refl
is_sentinel-node black l x r (f ∷ p) h = refl

climb_prev-last_of :
    (first : Option ℕ) (t : Tree ℕ) (p : Ancestors ℕ) (a : ℕ)
    → last_of (before p) ≡ some a
    → address (climb_prev first t p) ≡ some a
unfolding climb_prev address
climb_prev-last_of first t [] a e = absurd (some-ne-none a (sym e))
climb_prev-last_of first t (frame right c x b ∷ p) a e =
    sym (
      last_of-append (before p) (inorder b ++ (x ∷ [])) x
        (last_of-append (inorder b) (x ∷ []) x refl))
    ∙ e
climb_prev-last_of first t (frame left c x b ∷ p) a e =
    climb_prev-last_of first (node c t x b) p a e

step_back-last_of :
    (first : Option ℕ) (c : Color) (l : Tree ℕ) (x : ℕ) (r : Tree ℕ) (p : Ancestors ℕ) (a : ℕ)
    → last_of (before p ++ inorder l) ≡ some a
    → (q : Position) × (step_back first (Position.at c l x r p) ≡ some q) × (address q ≡ some a)
unfolding step_back
step_back-last_of first c leaf x r p a e = (
  climb_prev first (node c leaf x r) p,
  refl,
  climb_prev-last_of first (node c leaf x r) p a (ap last_of (sym (append-nil (before p))) ∙ e),
)
step_back-last_of first c (node d s y b) x r p a e =
    let (a', f, m) = last_of-node d s y b (frame left c x r ∷ p) in
    (
      maximum d s y b (frame left c x r ∷ p),
      refl,
      m ∙ sym (last_of-append (before p) (inorder (node d s y b)) a' f) ∙ e,
    )

-- What a list without its last element has of one that has two elements or more.
last_of-two :
    (us vs : List ℕ) (x : ℕ)
    → length (us ++ x ∷ vs) ≢ 1
    → points_to (last_of (us ++ x ∷ vs)) x ≡ true
    → Distinct (us ++ x ∷ vs)
    → (a : ℕ) × (last_of us ≡ some a)
unfolding points_to
last_of-two (u ∷ us) vs x long h d = last_of-some u us
last_of-two [] [] x long h d = absurd (long refl)
last_of-two [] (v ∷ vs) x long h (absent, d) =
    let (b, e) = last_of-some v vs in
    let ne = Absent-last_of x b (v ∷ vs) absent e in
    let other : (x == b) ≡ false = ground (arith, ne) in
    let no : points_to (last_of (v ∷ vs)) x ≡ false = rw (e, points_to) other in
    absurd (cc (sym no ∙ h))

erase_left-first_of :
    (m : IntrusiveRbTree) (us vs : List ℕ) (x : ℕ) (pos : Position)
    → m.sentinel_left ≡ first_of (us ++ x ∷ vs)
    → address (next m.sentinel_right pos) ≡ first_of vs
    → Distinct (us ++ x ∷ vs)
    → erase_left m x pos ≡ first_of (us ++ vs)
unfolding erase_left
erase_left-first_of m us vs x pos e f d = rw (f, e, erase_left) (first_of-delete us vs x d)

erase_right-last_of :
    (m : IntrusiveRbTree) (us vs : List ℕ) (x : ℕ) (pos : Position)
    → m.sentinel_right ≡ last_of (us ++ x ∷ vs)
    → Distinct (us ++ x ∷ vs)
    → (points_to (last_of (us ++ x ∷ vs)) x ≡ true
        → (q : Position) × (prev m.sentinel_left m.sentinel_right pos ≡ some q)
          × (address q ≡ last_of us))
    → erase_right m x pos ≡ last_of (us ++ vs)
unfolding erase_right
erase_right-last_of m us vs x pos e d back =
    let end_of = last_of-delete us vs x d in
    elim (Bool-cases (points_to (last_of (us ++ x ∷ vs)) x)) [
      | inl here ↦
          let (q, f, g) = back here in
          let here' = ap (λ o. points_to o x) e ∙ here in
          rw (here', f, erase_right) (g ∙ (rw here at end_of))
      | inr other ↦
          let other' = ap (λ o. points_to o x) e ∙ other in
          rw (other', erase_right) (e ∙ (rw other at end_of))
    ]

-- erase at a node of a tree in shape: it ends without a null pointer or a failed assertion, and the tree is
-- in shape without the node, the ends of the sentinel included.
pub erase_at-InShape :
    (m : IntrusiveRbTree) (c : Color) (l : Tree ℕ) (x : ℕ) (r : Tree ℕ) (p : Ancestors ℕ)
    → InShape m ((before p ++ inorder l) ++ x ∷ (inorder r ++ after p))
    → plug (node c l x r) p ≡ m.root
    → (m' : IntrusiveRbTree) × (erase_at m (Position.at c l x r p) ≡ some m')
      × InShape m' ((before p ++ inorder l) ++ (inorder r ++ after p))
unfolding erase_at erase_left erase_right prev is_red
erase_at-InShape m c l x r p s e =
    let us = before p ++ inorder l in
    let vs = inorder r ++ after p in
    let pos = Position.at c l x r p in
    let (t, ok, io, v) = unlink-Rebuilt c l x r p (rw e s.valid) in
    let many : length (us ++ x ∷ vs) ≡ length (us ++ vs) + 1 =
      omega (arith, length-append us (x ∷ vs), length-append us vs) in
    let some_size : (m.tree_size == 0) ≡ false = ground (arith, s.size, many) in
    let io' : inorder t ≡ us ++ vs = io ∙ sym (append_assoc (before p) (inorder l) vs) in
    let d' = Distinct-delete us vs x s.distinct in
    elim (Bool-cases (m.tree_size == 1)) [
      | inl one ↦
          let none_left : length (us ++ vs) ≡ 0 = ground (arith, one, s.size, many) in
          let nil = length_zero (us ++ vs) none_left in
          (
            record { root = leaf; sentinel_left = none; sentinel_right = none; tree_size = 0 },
            (rw (some_size, ok, one, erase_at) refl),
            record {
              valid = (refl, tt);
              order = sym nil;
              distinct = d';
              first = ap first_of (sym nil);
              last = ap last_of (sym nil);
              size = sym none_left;
            },
          )
      | inr more ↦
          let long : length (us ++ x ∷ vs) ≢ 1 = ground (arith, more, s.size) in
          let m' : IntrusiveRbTree = record {
            root = t;
            sentinel_left = erase_left m x pos;
            sentinel_right = erase_right m x pos;
            tree_size = m.tree_size - 1;
          } in
          (
            m',
            (rw (some_size, ok, more, erase_at) refl),
            record {
              valid = v;
              order = io';
              distinct = d';
              first =
                  erase_left-first_of m us vs x pos s.first
                    (address-rest (next m.sentinel_right pos)
                      ∙ ap first_of (rest-next m.sentinel_right c l x r p))
                    s.distinct;
              last = erase_right-last_of m us vs x pos s.last s.distinct (λ h.
                  let (a, f) = last_of-two us vs x long h s.distinct in
                  let (q, g, k) = step_back-last_of m.sentinel_left c l x r p a f in
                  let real = is_sentinel-node c l x r p (ap is_red e ∙ s.valid.0) in
                  (q, (rw (real, prev) g), k ∙ sym f));
              size = omega (arith, s.size, many);
            },
          )
    ]
