-- ===== src/RbTree/Shape.antt =====
-- What the red-black tree keeps: the order of the elements, the colours and the black heights, of a
-- tree and of the surroundings of a position.
use gloxor.Base.{ℕ, suc, ◌+◌, ◌≡◌, refl, sym, List, [], ◌∷◌, ◌++◌, Bool, true, false, arith}
use mathlib.Core.List.{append_assoc, append-nil}
use mathlib.Core.Path.{subst}
use gloxor.RbTree.{
  Color, red, black, left, right, Tree, leaf, node, frame, Ancestors, build, plug, is_red,
  set_color,
}

abbrev pub weight : Color → ℕ
weight red = 0
weight black = 1

module _ {A : Type 0} where
  abbrev pub inorder : Tree A → List A
  inorder leaf = []
  inorder (node c l x r) = inorder l ++ (x ∷ inorder r)

  -- The elements before and after a position.
  abbrev pub before : Ancestors A → List A
  before [] = []
  before (frame left c x b ∷ p) = before p
  before (frame right c x b ∷ p) = before p ++ (inorder b ++ (x ∷ []))

  abbrev pub after : Ancestors A → List A
  after [] = []
  after (frame left c x b ∷ p) = x ∷ (inorder b ++ after p)
  after (frame right c x b ∷ p) = after p

  pub inorder-plug :
      (t : Tree A) (p : Ancestors A) → inorder (plug t p) ≡ before p ++ (inorder t ++ after p)
  unfolding plug build
  inorder-plug t [] = simp (append-nil)
  inorder-plug t (frame left c x b ∷ p) = simp (inorder-plug (node c t x b) p, append_assoc)
  inorder-plug t (frame right c x b ∷ p) = simp (inorder-plug (node c b x t) p, append_assoc)

  pub inorder-set_color : (c : Color) (t : Tree A) → inorder (set_color c t) ≡ inorder t
  unfolding set_color
  inorder-set_color c leaf = refl
  inorder-set_color c (node d l x r) = refl

  -- The black nodes on the way to the leftmost null pointer, which counts too.
  abbrev pub height : Tree A → ℕ
  height leaf = 1
  height (node c l x r) = height l + weight c

  -- No red node over a red one, and equal black heights.
  abbrev pub Even : Tree A → Type 0
  Even leaf = Unit {0}
  Even (node red l x r) =
      (is_red l ≡ false) × (is_red r ≡ false) × (height l ≡ height r) × Even l × Even r
  Even (node black l x r) = (height l ≡ height r) × Even l × Even r

  -- The surroundings take a tree of this redness and this black height.
  abbrev pub Fits : Ancestors A → Bool → ℕ → Type 0
  Fits [] r h = r ≡ false
  Fits (frame s red x b ∷ p) r h =
      (r ≡ false) × (is_red b ≡ false) × (height b ≡ h) × Even b × Fits p true h
  Fits (frame s black x b ∷ p) r h = (height b ≡ h) × Even b × Fits p false (suc h)

  -- A red-black tree.
  abbrev pub Valid : Tree A → Type 0
  Valid t = (is_red t ≡ false) × Even t

  pub plug-Valid :
      (t : Tree A) (p : Ancestors A) → Even t → Fits p (is_red t) (height t) → Valid (plug t p)
  unfolding plug build is_red
  plug-Valid t [] e f = (f, e)
  plug-Valid t (frame left red x b ∷ p) e (a, c, h, eb, f) =
      plug-Valid (node red t x b) p (a, c, sym h, e, eb)
        (subst (λ n. Fits p true n) (omega (arith, h)) f)
  plug-Valid t (frame right red x b ∷ p) e (a, c, h, eb, f) =
      plug-Valid (node red b x t) p (c, a, h, eb, e)
        (subst (λ n. Fits p true n) (omega (arith, h)) f)
  plug-Valid t (frame left black x b ∷ p) e (h, eb, f) =
      plug-Valid (node black t x b) p (sym h, e, eb)
        (subst (λ n. Fits p false n) (omega (arith, h)) f)
  plug-Valid t (frame right black x b ∷ p) e (h, eb, f) =
      plug-Valid (node black b x t) p (h, eb, e) (subst (λ n. Fits p false n) (omega (arith, h)) f)

  -- Where a red tree fits, a black one does.
  pub Fits-black : (p : Ancestors A) (h : ℕ) → Fits p true h → Fits p false h
  Fits-black [] h f = refl
  Fits-black (frame s red x b ∷ p) h (r, f0, f1, f2, f3) = (refl, f0, f1, f2, f3)
  Fits-black (frame s black x b ∷ p) h f = f

  -- In a red-black tree every position is even, and its surroundings take what stands there.
  pub Valid-plug :
      (t : Tree A) (p : Ancestors A) → Valid (plug t p) → Even t × Fits p (is_red t) (height t)
  unfolding plug build is_red
  Valid-plug t [] (r, e) = (e, r)
  Valid-plug t (frame left red x b ∷ p) v =
      let ((c, d, h, et, eb), f) = Valid-plug (node red t x b) p v in
      (et, (c, d, sym h, eb, subst (λ n. Fits p true n) (omega arith) f))
  Valid-plug t (frame right red x b ∷ p) v =
      let ((d, c, h, eb, et), f) = Valid-plug (node red b x t) p v in
      (et, (c, d, h, eb, subst (λ n. Fits p true n) (omega (arith, h)) f))
  Valid-plug t (frame left black x b ∷ p) v =
      let ((h, et, eb), f) = Valid-plug (node black t x b) p v in
      (et, (sym h, eb, subst (λ n. Fits p false n) (omega arith) f))
  Valid-plug t (frame right black x b ∷ p) v =
      let ((h, eb, et), f) = Valid-plug (node black b x t) p v in
      (et, (h, eb, subst (λ n. Fits p false n) (omega (arith, h)) f))

  -- The same elements in the same surroundings.
  pub inorder-plug-congr :
      (t u : Tree A) (p : Ancestors A)
      → inorder t ≡ inorder u
      → inorder (plug t p) ≡ inorder (plug u p)
  inorder-plug-congr t u p e = rw (inorder-plug t p, inorder-plug u p, e) refl
