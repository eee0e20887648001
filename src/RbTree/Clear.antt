-- ===== src/RbTree/Clear.antt =====
-- clear of intrusive_rb_tree in libraries/libglox/include/glox/intrusive_rb_tree.hpp: the unlinking
-- loop without recursion, and the elements that it hands to dispose.
use gloxor.Base.{
  ℕ, zero, suc, ◌+◌, ◌-◌, ◌*◌, ◌<◌, ◌≡◌, refl, ap, ◌∙◌, List, [], ◌∷◌, ◌++◌, Option, none, some,
  length, length-append, arith,
}
use mathlib.Core.List.{append_assoc}
use gloxor.RbTree.{Side, left, right, Color, Tree, leaf, node, Ancestors, frame, build}
use gloxor.RbTree.Shape.{inorder}

module _ {A : Type 0} where
  -- n is the root of the subtree, its parents are the path; `none` where the fuel runs out.
  unfoldable pub clear_loop : ℕ → Tree A → Ancestors A → List A → Option (List A)
  unfolding build
  clear_loop zero n p disposed = none
  clear_loop (suc fuel) leaf p disposed = some disposed
  clear_loop (suc fuel) (node c (node d a y b) x r) p disposed =
      clear_loop fuel (node d a y b) (frame left c x r ∷ p) disposed
  clear_loop (suc fuel) (node c leaf x (node d a y b)) p disposed =
      clear_loop fuel (node d a y b) (frame right c x leaf ∷ p) disposed
  clear_loop (suc fuel) (node c leaf x leaf) [] disposed =
      clear_loop fuel leaf [] (disposed ++ (x ∷ []))
  clear_loop (suc fuel) (node c leaf x leaf) (frame s d y b ∷ p) disposed =
      clear_loop fuel (build s d leaf y b) p (disposed ++ (x ∷ []))

  -- The elements, each after those under it.
  abbrev pub postorder : Tree A → List A
  postorder leaf = []
  postorder (node c l x r) = postorder l ++ (postorder r ++ (x ∷ []))

  -- The fuel before the rounds at a subtree, with the one that goes down to it, from the fuel after
  -- them; then the same without that one.
  abbrev down : Tree A → ℕ → ℕ
  down leaf k = k
  down (node c l x r) k = suc (down l (down r (suc k)))

  down-length : (t : Tree A) (k : ℕ) → down t k ≡ 2 * length (inorder t) + k
  down-length leaf k = omega arith
  down-length (node c l x r) k = omega (
    arith,
    down-length l (down r (suc k)),
    down-length r (suc k),
    length-append (inorder l) (x ∷ inorder r),
  )

  abbrev inside : Tree A → ℕ → ℕ
  inside leaf k = k
  inside (node c l x r) k = down l (down r (suc k))

  abbrev IsNode : Tree A → Type 0
  IsNode leaf = ⊥
  IsNode (node c l x r) = Unit {0}

  -- The rounds that start at a node of the tree and end at its parent, its link nulled.
  subtree :
      (t : Tree A) (s : Side) (d : Color) (y : A) (b : Tree A) (p : Ancestors A) (disposed : List A)
      (k : ℕ)
      → IsNode t
      → clear_loop (inside t k) t (frame s d y b ∷ p) disposed
        ≡ clear_loop k (build s d leaf y b) p (disposed ++ postorder t)
  unfolding clear_loop build
  subtree leaf s d y b p done k t = elim t [ ]
  subtree (node c leaf x leaf) s d y b p done k t = refl
  subtree (node c leaf x (node e a z f)) s d y b p done k t =
      subtree (node e a z f) right c x leaf (frame s d y b ∷ p) done (suc k) tt ∙ simp append_assoc
  subtree (node c (node e a z f) x leaf) s d y b p done k t =
      subtree (node e a z f) left c x leaf (frame s d y b ∷ p) done (suc k) tt ∙ simp append_assoc
  subtree (node c (node e a z f) x (node e' a' z' f')) s d y b p done k t =
      subtree (node e a z f) left c x (node e' a' z' f') (frame s d y b ∷ p) done
        (suc (inside (node e' a' z' f') (suc k))) tt
      ∙ subtree (node e' a' z' f') right c x leaf (frame s d y b ∷ p)
          (done ++ postorder (node e a z f)) (suc k) tt
      ∙ simp append_assoc

  at_root :
      (c : Color) (l : Tree A) (x : A) (r : Tree A) (k : ℕ)
      → clear_loop (down l (down r (suc (suc k)))) (node c l x r) [] []
        ≡ some (postorder (node c l x r))
  unfolding clear_loop build
  at_root c leaf x leaf k = refl
  at_root c leaf x (node e a z f) k =
      subtree (node e a z f) right c x leaf [] [] (suc (suc k)) tt ∙ simp append_assoc
  at_root c (node e a z f) x leaf k =
      subtree (node e a z f) left c x leaf [] [] (suc (suc k)) tt ∙ simp append_assoc
  at_root c (node e a z f) x (node e' a' z' f') k =
      subtree (node e a z f) left c x (node e' a' z' f') [] []
        (suc (inside (node e' a' z' f') (suc (suc k)))) tt
      ∙ subtree (node e' a' z' f') right c x leaf [] (postorder (node e a z f)) (suc (suc k)) tt
      ∙ simp append_assoc

  -- The loop of clear, at the root of any tree and with more fuel than twice the number of its nodes,
  -- ends and hands every element to dispose once, each after all those that stand under it.
  pub clear_loop-postorder :
      (t : Tree A) (fuel : ℕ)
      → 2 * length (inorder t) < fuel
      → clear_loop fuel t [] [] ≡ some (postorder t)
  unfolding clear_loop
  clear_loop-postorder leaf zero h = absurd (omega arith)
  clear_loop-postorder leaf (suc fuel) h = refl
  clear_loop-postorder (node c l x r) fuel h =
      let k = fuel - (2 * length (inorder (node c l x r))) in
      let e : fuel ≡ down l (down r (suc (suc k))) = omega (
        arith,
        down-length l (down r (suc (suc k))),
        down-length r (suc (suc k)),
        length-append (inorder l) (x ∷ inorder r),
      ) in
      ap (λ n. clear_loop n (node c l x r) [] []) e ∙ at_root c l x r k
