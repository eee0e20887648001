-- ===== src/RbTree/Unlink.antt =====
-- The unlinking of a node of intrusive_rb_tree.hpp: which element leaves, and what stays.
use gloxor.Base.{ℕ, suc, ◌+◌, ◌≡◌, refl, sym, ap, ◌∙◌, [], ◌∷◌, ◌++◌, Bool, true, false, arith}
use mathlib.Core.List.{append_assoc, append-nil}
use mathlib.Core.Path.{subst}
use gloxor.RbTree.{
  Color, red, black, Side, left, right, Tree, leaf, node, frame, Ancestors, build, plug, is_red,
  set_color,
}
use gloxor.RbTree.Shape.{
  inorder, before, after, inorder-plug, height, weight, Even, Fits, Valid, plug-Valid, Valid-plug,
  Fits-black,
}
use gloxor.RbTree.Insert.{Rebuilt}
use gloxor.RbTree.Removal.{minimum, fix_hole, replace, unlink}
use gloxor.RbTree.Erase.{erase_fixup-Rebuilt}
use gloxor.RbTree.Rounds.{red_color}

module _ {A : Type 0} where
  -- A child that its parent's colour admits.
  abbrev Under : Color → Tree A → Type 0
  Under red x = is_red x ≡ false
  Under black x = Unit {0}

  blacken-Even : (x : Tree A) → Even x → Even (set_color black x)
  unfolding set_color
  blacken-Even leaf e = tt
  blacken-Even (node red l y b) (r0, r1, h, el, eb) = (h, el, eb)
  blacken-Even (node black l y b) e = e

  fix_hole-Rebuilt :
      (c : Color) (x : Tree A) (p : Ancestors A)
      → Even x
      → Under c x
      → Fits p (red_color c) (height x + weight c)
      → Rebuilt (before p ++ (inorder x ++ after p)) (fix_hole c x p)
  unfolding fix_hole
  fix_hole-Rebuilt red x p e u f = (
    plug x p,
    refl,
    inorder-plug x p,
    plug-Valid x p e (rw u (Fits-black p (height x) (subst (λ n. Fits p true n) (omega arith) f))),
  )
  fix_hole-Rebuilt black x p e u f =
      erase_fixup-Rebuilt x p (blacken-Even x e) (subst (λ n. Fits p false n) (omega arith) f)

  plug-append : (t : Tree A) (q p : Ancestors A) → plug t (q ++ p) ≡ plug (plug t q) p
  unfolding plug
  plug-append t [] p = refl
  plug-append t (frame s c x b ∷ q) p = plug-append (build s c t x b) q p

  before-append : (q p : Ancestors A) → before (q ++ p) ≡ before p ++ before q
  before-append [] p = sym (append-nil (before p))
  before-append (frame left c x b ∷ q) p = before-append q p
  before-append (frame right c x b ∷ q) p =
      rw (before-append q p) (append_assoc (before p) (before q) _)

  after-append : (q p : Ancestors A) → after (q ++ p) ≡ after q ++ after p
  after-append [] p = refl
  after-append (frame left c x b ∷ q) p = simp (after-append q p, append_assoc)
  after-append (frame right c x b ∷ q) p = after-append q p

  -- The element of an ancestor is of no account.
  Fits-item :
      (q p : Ancestors A) (s : Side) (c : Color) (x y : A) (b : Tree A) (r : Bool) (h : ℕ)
      → Fits (q ++ (frame s c x b ∷ p)) r h
      → Fits (q ++ (frame s c y b ∷ p)) r h
  Fits-item [] p s red x y b r h f = f
  Fits-item [] p s black x y b r h f = f
  Fits-item (frame s' red x' b' ∷ q) p s c x y b r h (f0, f1, f2, f3, f) =
      (f0, f1, f2, f3, Fits-item q p s c x y b true h f)
  Fits-item (frame s' black x' b' ∷ q) p s c x y b r h (f0, f1, f) =
      (f0, f1, Fits-item q p s c x y b false (suc h) f)

  -- What minimum finds in a node: the leftmost element and what hangs under it.
  Leftmost : Tree A → Ancestors A → Color × A × Tree A × Ancestors A → Type 0
  Leftmost t p (c, x, r, q) = (plug (node c leaf x r) q ≡ plug t p) × (before q ≡ before p)

  minimum-Leftmost :
      (c : Color) (l : Tree A) (x : A) (r : Tree A) (p : Ancestors A)
      → Leftmost (node c l x r) p (minimum c l x r p)
  unfolding minimum Leftmost plug build
  minimum-Leftmost c leaf x r p = (refl, refl)
  minimum-Leftmost c (node d l y b) x r p = minimum-Leftmost d l y b (frame left c x r ∷ p)

  node-Under :
      (c : Color) (l r : Tree A) (x : A)
      → Even (node c l x r)
      → Under c l × Under c r × Even l × Even r × (height l ≡ height r)
  node-Under red l r x (a, b, h, el, er) = (a, b, el, er, h)
  node-Under black l r x (h, el, er) = (tt, tt, el, er, h)

  is_red-color : (c : Color) (l r : Tree A) (x : A) → is_red (node c l x r) ≡ red_color c
  unfolding is_red
  is_red-color red l r x = refl
  is_red-color black l r x = refl

  replace-Rebuilt :
      (zc : Color) (zl : Tree A) (z : A) (r : Tree A) (p : Ancestors A)
      (m : Color × A × Tree A × Ancestors A)
      → Leftmost r [] m
      → Valid (plug (node zc zl z r) p)
      → Rebuilt (before p ++ (inorder zl ++ (inorder r ++ after p))) (replace zc zl p m)
  unfolding replace Leftmost plug build
  replace-Rebuilt zc zl z r p (yc, y, yr, q) (e, b) v =
      let whole : plug (node yc leaf y yr) (q ++ (frame right zc z zl ∷ p))
          ≡ plug (node zc zl z r) p =
        plug-append (node yc leaf y yr) q (frame right zc z zl ∷ p)
        ∙ ap (λ t. plug (node zc zl z t) p) e in
      let (ey, f) = Valid-plug (node yc leaf y yr) (q ++ (frame right zc z zl ∷ p)) (rw whole v) in
      let (u0, u, e0, er, h) = node-Under yc leaf yr y ey in
      let f' = Fits-item q p right zc z y zl (is_red (node yc leaf y yr)) (1 + weight yc) f in
      let (t, ok, io, v') = fix_hole-Rebuilt yc yr (q ++ (frame right zc y zl ∷ p)) er u (
        rw (sym h) (
          subst (λ c. Fits (q ++ (frame right zc y zl ∷ p)) c (1 + weight yc))
            (is_red-color yc leaf yr y) f')) in
      let ir : inorder r ≡ y ∷ (inorder yr ++ after q) =
        ap inorder (sym e)
        ∙ inorder-plug (node yc leaf y yr) q
        ∙ ap (λ l. l ++ (y ∷ (inorder yr ++ after q))) b in
      (
        t,
        ok,
        io
            ∙ rw
                (
                  before-append q (frame right zc y zl ∷ p),
                  after-append q (frame right zc y zl ∷ p),
                  b,
                  ir,
                )
                (simp (append_assoc, append-nil)),
        v',
      )

  -- erase at a node z of a red-black tree: erase_fixup meets no null pointer, and the result is a
  -- red-black tree of the same elements in the same order without that of z.
  pub unlink-Rebuilt :
      (zc : Color) (zl : Tree A) (z : A) (zr : Tree A) (p : Ancestors A)
      → Valid (plug (node zc zl z zr) p)
      → Rebuilt (before p ++ (inorder zl ++ (inorder zr ++ after p))) (unlink zc zl z zr p)
  unfolding unlink
  unlink-Rebuilt zc leaf z zr p v =
      let (e, f) = Valid-plug (node zc leaf z zr) p v in
      let (u0, u, e0, er, h) = node-Under zc leaf zr z e in
      fix_hole-Rebuilt zc zr p er u
        (rw (sym h) (subst (λ c. Fits p c (1 + weight zc)) (is_red-color zc leaf zr z) f))
  unlink-Rebuilt zc (node c l x r) z leaf p v =
      let zl : Tree A = node c l x r in
      let (e, f) = Valid-plug (node zc zl z leaf) p v in
      let (u, u0, el, e0, h) = node-Under zc zl leaf z e in
      fix_hole-Rebuilt zc zl p el u
        (subst (λ c. Fits p c (height zl + weight zc)) (is_red-color zc zl leaf z) f)
  unlink-Rebuilt zc (node c l x r) z (node d a y b) p v =
      replace-Rebuilt zc (node c l x r) z (node d a y b) p (minimum d a y b [])
        (minimum-Leftmost d a y b []) v
