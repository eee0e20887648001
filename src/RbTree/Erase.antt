-- ===== src/RbTree/Erase.antt =====
-- erase of intrusive_rb_tree.hpp: it ends, keeps the order of the other elements and restores the
-- colours.
use gloxor.Base.{
  ℕ, suc, ◌+◌, ◌≡◌, refl, sym, ap, ◌∙◌, List, [], ◌∷◌, ◌++◌, Option, some, true, false, Bool-cases,
  inl, inr, arith,
}
use mathlib.Core.List.{append_assoc, append-nil}
use mathlib.Core.Path.{subst}
use gloxor.RbTree.{
  Color, red, black, Side, left, right, Tree, leaf, node, frame, Ancestors, build, plug, is_red,
  set_color, finish,
}
use gloxor.RbTree.Shape.{
  inorder, before, after, inorder-plug, inorder-set_color, height, Even, Fits, plug-Valid,
  Fits-black,
}
use gloxor.RbTree.Insert.{Rebuilt, finish-Rebuilt}
use gloxor.RbTree.Removal.{Round, go_on, over, after_red, red_sibling, next_round, erase_fixup}
use gloxor.RbTree.Rounds.{RoundKeeps, black_sibling_lem, red_color}

module _ {A : Type 0} where
  -- A red node that turns black.
  blacken_lem :
      (t : Tree A)
      → is_red t ≡ true
      → (is_red (set_color black t) ≡ false) × (height (set_color black t) ≡ suc (height t))
  unfolding is_red set_color
  blacken_lem leaf r = absurd (cc)
  blacken_lem (node red l x b) r = (refl, omega arith)
  blacken_lem (node black l x b) r = absurd (cc)

  plug_black-Rebuilt :
      (t : Tree A) (p : Ancestors A)
      → is_red t ≡ true
      → Even (set_color black t)
      → Fits p false (suc (height t))
      → Rebuilt (before p ++ (inorder t ++ after p)) (some (plug (set_color black t) p))
  plug_black-Rebuilt t p r e f =
      let (b, h) = blacken_lem t r in
      let v = plug-Valid (set_color black t) p e (rw (b, h) f) in
      (
        plug (set_color black t) p,
        refl,
        inorder-plug (set_color black t) p
            ∙ ap (λ l. before p ++ (l ++ after p)) (inorder-set_color black t),
        v,
      )

  -- A round under a red sibling ends the loop.
  after_red_lem :
      (r : Round A) (xs : List A) (n : ℕ) (p : Ancestors A)
      → RoundKeeps xs red n r
      → Fits p true (suc n)
      → Rebuilt (before p ++ (xs ++ after p)) (after_red (some r) p)
  unfolding after_red finish
  after_red_lem (go_on t) xs n p (io, r, e, h) f =
      let (u, ok, io', v) = plug_black-Rebuilt t p r e (rw h (Fits-black p (suc n) f)) in
      (u, ok, io' ∙ ap (λ l. before p ++ (l ++ after p)) io, v)
  after_red_lem (over t) xs n p (io, r, e, h) f =
      let (u, ok, io', v) = finish-Rebuilt t p e (rw (r, h) f) in
      (u, ok, io' ∙ inorder-plug t p ∙ ap (λ l. before p ++ (l ++ after p)) io, v)

  red_sibling_lem :
      (dir : Side) (x : Tree A) (px : A) (w : Tree A) (p : Ancestors A)
      → Even x
      → Even w
      → is_red w ≡ true
      → height w ≡ suc (height x)
      → Fits p false (suc (suc (height x)))
      → Rebuilt
          (before p ++ (inorder (build dir black x px w) ++ after p))
          (red_sibling dir x px w p)
  unfolding red_sibling build is_red
  red_sibling_lem dir x px leaf p ex ew r h f = absurd (cc)
  red_sibling_lem dir x px (node black wl wx wr) p ex ew r h f = absurd (cc)
  red_sibling_lem left x px (node red wl wx wr) p ex (rl, rr, hs, el, er) r h f =
      let (o, ok, keeps) = black_sibling_lem left red x px wl ex el rl (omega (arith, h)) in
      let (t, ok', io, v) =
        after_red_lem o (inorder x ++ (px ∷ inorder wl)) (height x + 0) (frame left black wx wr ∷ p)
          keeps (omega (arith, h, hs), er, subst (λ n. Fits p false n) (omega arith) f) in
      rw ok (t, ok', io ∙ simp (append_assoc), v)
  red_sibling_lem right x px (node red wl wx wr) p ex (rl, rr, hs, el, er) r h f =
      let (o, ok, keeps) = black_sibling_lem right red x px wr ex er rr (omega (arith, h, hs)) in
      let (t, ok', io, v) =
        after_red_lem o (inorder wr ++ (px ∷ inorder x)) (height x + 0)
          (frame right black wx wl ∷ p) keeps
          (omega (arith, h, hs), el, subst (λ n. Fits p false n) (omega arith) f) in
      rw ok (t, ok', io ∙ simp (append_assoc), v)

  inorder-frame :
      (x : Tree A) (dir : Side) (c : Color) (y : A) (w : Tree A) (p : Ancestors A)
      → before p ++ (inorder (build dir c x y w) ++ after p)
        ≡ before (frame dir c y w ∷ p) ++ (inorder x ++ after (frame dir c y w ∷ p))
  unfolding plug
  inorder-frame x dir c y w p =
      sym (inorder-plug (build dir c x y w) p) ∙ inorder-plug x (frame dir c y w ∷ p)

  -- The surroundings after a round, as the colour of the parent has it.
  abbrev Takes : Ancestors A → Color → ℕ → Type 0
  Takes p red n = Fits p true (suc n)
  Takes p black n = Fits p false (suc n)

  Takes-red : (p : Ancestors A) (c : Color) (n : ℕ) → Takes p c n → Fits p false (suc n)
  Takes-red p red n f = Fits-black p (suc n) f
  Takes-red p black n f = f

  Takes-Fits : (p : Ancestors A) (c : Color) (n : ℕ) → Takes p c n → Fits p (red_color c) (suc n)
  Takes-Fits p red n f = f
  Takes-Fits p black n f = f

  next_round_lem :
      (loop : Tree A → Option (Tree A)) (p : Ancestors A)
      → ((t : Tree A)
          → Even (set_color black t)
          → Fits p false (suc (height t))
          → Rebuilt (before p ++ (inorder t ++ after p)) (loop t))
      → (xs : List A) (c : Color) (n : ℕ) (r : Round A) → RoundKeeps xs c n r
      → Takes p c n
      → Rebuilt (before p ++ (xs ++ after p)) (next_round loop p (some r))
  unfolding next_round finish
  next_round_lem loop p ih xs c n (go_on t) (io, r, e, h) f =
      let (u, ok, io', v) = ih t e (rw h (Takes-red p c n f)) in
      (u, ok, io' ∙ ap (λ l. before p ++ (l ++ after p)) io, v)
  next_round_lem loop p ih xs c n (over t) (io, r, e, h) f =
      let (u, ok, io', v) = finish-Rebuilt t p e (rw (r, h) (Takes-Fits p c n f)) in
      (u, ok, io' ∙ inorder-plug t p ∙ ap (λ l. before p ++ (l ++ after p)) io, v)

  black-Even : (x : Tree A) → is_red x ≡ false → Even (set_color black x) → Even x
  unfolding is_red set_color
  black-Even leaf r e = tt
  black-Even (node red l y b) r e = absurd (cc)
  black-Even (node black l y b) r e = e

  black_root : (x : Tree A) → is_red (set_color black x) ≡ false
  unfolding is_red set_color
  black_root leaf = refl
  black_root (node c l y b) = refl

  -- The loop of erase_fixup at an x that is one black short.
  pub erase_fixup-Rebuilt :
      (x : Tree A) (p : Ancestors A)
      → Even (set_color black x)
      → Fits p false (suc (height x))
      → Rebuilt (before p ++ (inorder x ++ after p)) (erase_fixup x p)
  unfolding erase_fixup
  erase_fixup-Rebuilt x [] e f = (
    set_color black x,
    refl,
    inorder-set_color black x ∙ sym (append-nil (inorder x)),
    (black_root x, e),
  )
  erase_fixup-Rebuilt x (frame dir red px w ∷ p) e (c, rw', hw, ew, f) =
      elim (Bool-cases (is_red x)) [
        | inl rx ↦
            rw (rx, erase_fixup)
              (plug_black-Rebuilt x (frame dir red px w ∷ p) rx e (c, rw', hw, ew, f))
        | inr rx ↦
            let (r, ok, keeps) = black_sibling_lem dir red x px w (black-Even x rx e) ew rw' hw in
            let (t, ok', io, v) =
              next_round_lem (λ t. erase_fixup t p) p (λ t. erase_fixup-Rebuilt t p)
                (inorder (build dir red x px w)) red (height x + 0) r keeps
                (subst (λ n. Fits p true (suc n)) (omega arith) f) in
            rw (rx, rw', ok, erase_fixup) (t, ok', io ∙ inorder-frame x dir red px w p, v)
      ]
  erase_fixup-Rebuilt x (frame dir black px w ∷ p) e (hw, ew, f) = elim (Bool-cases (is_red x)) [
    | inl rx ↦
        rw (rx, erase_fixup) (plug_black-Rebuilt x (frame dir black px w ∷ p) rx e (hw, ew, f))
    | inr rx ↦ elim (Bool-cases (is_red w)) [
      | inl rw' ↦
          let (t, ok, io, v) = red_sibling_lem dir x px w p (black-Even x rx e) ew rw' hw f in
          rw (rx, rw', erase_fixup) (t, ok, io ∙ inorder-frame x dir black px w p, v)
      | inr rw' ↦
          let (r, ok, keeps) = black_sibling_lem dir black x px w (black-Even x rx e) ew rw' hw in
          let (t, ok', io, v) =
            next_round_lem (λ t. erase_fixup t p) p (λ t. erase_fixup-Rebuilt t p)
              (inorder (build dir black x px w)) black (height x + 1) r keeps
              (subst (λ n. Fits p false (suc n)) (omega arith) f) in
          rw (rx, rw', ok, erase_fixup) (t, ok', io ∙ inorder-frame x dir black px w p, v)
    ]
  ]
