-- ===== src/RbTree/Insert.antt =====
-- insert_fixup of intrusive_rb_tree.hpp: it ends, keeps the order and restores the colours.
use gloxor.Base.{
  ℕ, suc, ◌≡◌, refl, sym, ◌∙◌, List, [], ◌∷◌, ◌++◌, Option, some, Bool, true, false, Bool-cases,
  inl, inr, arith,
}
use mathlib.Core.List.{append_assoc}
use mathlib.Core.Path.{subst}
use gloxor.RbTree.{
  red, black, Side, left, right, opposite, same_side, Tree, leaf, node, frame, Ancestors, build,
  plug, is_red, set_color, rotate, finish, raise_inner, rotate_up, fixup, insert_fixup, link_node,
}
use gloxor.RbTree.Shape.{
  inorder, before, after, inorder-plug, inorder-plug-congr, inorder-set_color, height, Even, Fits,
  Valid, plug-Valid, Valid-plug,
}

module _ {A : Type 0} where
  -- The result is the tree that has the elements `xs` in order, and is a red-black tree.
  abbrev pub Rebuilt : List A → Option (Tree A) → Type 0
  Rebuilt xs r = (t : Tree A) × (r ≡ some t) × (inorder t ≡ xs) × Valid t

  blacken-Valid : (t : Tree A) → Even t → Valid (set_color black t)
  unfolding is_red set_color
  blacken-Valid leaf e = (refl, tt)
  blacken-Valid (node red l x r) (a, b, h, el, er) = (refl, (h, el, er))
  blacken-Valid (node black l x r) e = (refl, e)

  -- A black tree in its surroundings, the root set black.
  pub finish-Rebuilt :
      (t : Tree A) (p : Ancestors A)
      → Even t
      → Fits p (is_red t) (height t)
      → Rebuilt (inorder (plug t p)) (finish (some t) p)
  unfolding finish
  finish-Rebuilt t p e f = (
    set_color black (plug t p),
    refl,
    inorder-set_color black (plug t p),
    blacken-Valid (plug t p) (plug-Valid t p e f).1,
  )

  -- An even tree of this redness and this height.
  abbrev pub Coloured : Tree A → Bool → ℕ → Type 0
  Coloured t r h = Even t × (is_red t ≡ r) × (height t ≡ h)

  -- The rotations of the branch with the black uncle.
  rotate_up_lem :
      (s dir : Side) (z : Tree A) (px : A) (sib : Tree A) (gx : A) (uncle : Tree A)
      → Even z
      → is_red z ≡ true
      → Even sib
      → is_red sib ≡ false
      → height sib ≡ height z
      → Even uncle
      → is_red uncle ≡ false
      → height uncle ≡ height z
      → (t : Tree A) × (rotate_up dir (raise_inner s dir (build s red z px sib)) gx uncle ≡ some t)
        × (inorder t ≡ inorder (build dir black (build s red z px sib) gx uncle))
        × Coloured t false (suc (height z))
  unfolding rotate_up raise_inner rotate build opposite same_side set_color is_red
  rotate_up_lem s dir leaf px sib gx uncle ez rz es rs hs eu ru hu = absurd (cc)
  rotate_up_lem s dir (node black a x b) px sib gx uncle ez rz es rs hs eu ru hu = absurd (cc)
  rotate_up_lem left left (node red a x b) px sib gx uncle ez rz es rs hs eu ru hu = (
    node black (node red a x b) px (node red sib gx uncle),
    refl,
    simp (append_assoc),
    ground arith,
  )
  rotate_up_lem right left (node red a x b) px sib gx uncle ez rz es rs hs eu ru hu = (
    node black (node red sib px a) x (node red b gx uncle),
    refl,
    simp (append_assoc),
    ground arith,
  )
  rotate_up_lem right right (node red a x b) px sib gx uncle ez rz es rs hs eu ru hu = (
    node black (node red uncle gx sib) px (node red a x b),
    refl,
    simp (append_assoc),
    ground arith,
  )
  rotate_up_lem left right (node red a x b) px sib gx uncle ez rz es rs hs eu ru hu = (
    node black (node red uncle gx a) x (node red b px sib),
    refl,
    simp (append_assoc),
    ground arith,
  )

  -- The branch with the red uncle: g turns red over black children.
  recolour_lem :
      (s dir : Side) (z : Tree A) (px : A) (sib : Tree A) (gx : A) (uncle : Tree A)
      → Even z
      → Even sib
      → height sib ≡ height z
      → Even uncle
      → is_red uncle ≡ true
      → height uncle ≡ height z
      → let g : Tree A =
          build dir red (set_color black (build s red z px sib)) gx (set_color black uncle) in
        (inorder g ≡ inorder (build dir black (build s red z px sib) gx uncle))
        × Coloured g true (suc (height z))
  unfolding build set_color is_red
  recolour_lem s dir z px sib gx leaf ez es hs eu ru hu = absurd (cc)
  recolour_lem s dir z px sib gx (node black a x b) ez es hs eu ru hu = absurd (cc)
  recolour_lem left left z px sib gx (node red a x b) ez es hs eu ru hu = (refl, ground arith)
  recolour_lem left right z px sib gx (node red a x b) ez es hs eu ru hu = (refl, ground arith)
  recolour_lem right left z px sib gx (node red a x b) ez es hs eu ru hu = (refl, ground arith)
  recolour_lem right right z px sib gx (node red a x b) ez es hs eu ru hu = (refl, ground arith)

  -- The loop of insert_fixup at a red z whose surroundings take a black tree of its height.
  pub fixup-Rebuilt :
      (z : Tree A) (p : Ancestors A)
      → Even z
      → is_red z ≡ true
      → Fits p false (height z)
      → Rebuilt (inorder (plug z p)) (fixup z p)
  unfolding fixup plug finish
  fixup-Rebuilt z [] e r f = (set_color black z, refl, inorder-set_color black z, blacken-Valid z e)
  fixup-Rebuilt z (frame s black px sib ∷ p) e r (hs, es, f) =
      finish-Rebuilt z (frame s black px sib ∷ p) e (hs, es, f)
  fixup-Rebuilt z (frame s red px sib ∷ []) e r (c, rs, hs, es, f) = absurd (cc)
  fixup-Rebuilt z (frame s red px sib ∷ frame dir red gx uncle ∷ p) e r
        (c, rs, hs, es, (f, f0, f1, f2, f3)) =
      absurd (cc)
  fixup-Rebuilt z (frame s red px sib ∷ frame dir black gx uncle ∷ p) e r
        (c, rs, hs, es, (hu, eu, f)) =
      elim (Bool-cases (is_red uncle)) [
        | inl ru ↦
            let (same, (eg, rg, hg)) = recolour_lem s dir z px sib gx uncle e es hs eu ru hu in
            let g : Tree A =
              build dir red (set_color black (build s red z px sib)) gx (set_color black uncle) in
            let (t, ok, io, v) = fixup-Rebuilt g p eg rg (subst (λ n. Fits p false n) (sym hg) f) in
            rw ru (
              t,
              ok,
              io ∙ inorder-plug-congr g (build dir black (build s red z px sib) gx uncle) p same,
              v,
            )
        | inr ru ↦
            let (u, ok, same, (eu', ru', hu')) =
              rotate_up_lem s dir z px sib gx uncle e r es rs hs eu ru hu in
            let (t, ok', io, v) = finish-Rebuilt u p eu' (rw (ru', hu') f) in
            rw (ru, ok)
              (
                t,
                ok',
                io ∙ inorder-plug-congr u (build dir black (build s red z px sib) gx uncle) p same,
                v,
              )
      ]

  -- An element linked at a null link of a red-black tree: the loop of insert_fixup ends without a
  -- null pointer, and the result is a red-black tree with the element between those before and
  -- those after the link.
  pub link_node-Rebuilt :
      (x : A) (p : Ancestors A)
      → Valid (plug leaf p)
      → Rebuilt (before p ++ (x ∷ after p)) (link_node x p)
  unfolding link_node insert_fixup set_color is_red
  link_node-Rebuilt x p v =
      let z : Tree A = node red leaf x leaf in
      let (e, f) = Valid-plug leaf p v in
      let (t, ok, io, v') = fixup-Rebuilt z p (refl, refl, refl, tt, tt) refl f in
      (t, ok, io ∙ inorder-plug z p, v')
