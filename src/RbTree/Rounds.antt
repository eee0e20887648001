-- ===== src/RbTree/Rounds.antt =====
-- One round of erase_fixup of intrusive_rb_tree.hpp where the sibling is black.
use gloxor.Base.{
  ℕ, suc, ◌+◌, ◌<◌, ◌≡◌, refl, List, some, Bool, true, false, not, ◌&&◌, Bool-cases, inl, inr,
  arith,
}
use mathlib.Core.List.{append_assoc}
use gloxor.RbTree.{
  Color, red, black, Side, left, right, Tree, leaf, node, build, is_red, is_black, set_color,
  rotate,
}
use gloxor.RbTree.Shape.{inorder, height, weight, Even}
use gloxor.RbTree.Removal.{
  Round, go_on, over, last_rotation, turn_sibling, end_round, done, black_sibling,
}

abbrev pub red_color : Color → Bool
red_color red = true
red_color black = false

and_false : (b : Bool) → (b && false) ≡ false
and_false true = refl
and_false false = refl

module _ {A : Type 0} where
  -- What a round leaves for a subtree of the elements `xs` that should have the black height
  -- `suc n` under a colour of the parent: one black too few, or all of them.
  abbrev pub RoundKeeps : List A → Color → ℕ → Round A → Type 0
  RoundKeeps xs pc n (go_on t) =
      (inorder t ≡ xs) × (is_red t ≡ red_color pc) × Even (set_color black t) × (height t ≡ n)
  RoundKeeps xs pc n (over t) =
      (inorder t ≡ xs) × (is_red t ≡ red_color pc) × Even t × (height t ≡ suc n)

  -- What a round of erase_fixup leaves when the sibling w is a black node: x is black, and the black
  -- heights under the parent differ by one.
  abbrev pub RoundAt : Side → Color → Tree A → A → Tree A → Type 0
  RoundAt dir pc x px w =
      (r : Round A) × (black_sibling dir pc x px w ≡ some r)
      × RoundKeeps (inorder (build dir pc x px w)) pc (height x + weight pc) r

  is_red-node : (c : Color) (l r : Tree A) (x : A) → is_red (node c l x r) ≡ red_color c
  unfolding is_red
  is_red-node red l r x = refl
  is_red-node black l r x = refl

  Even-node :
      (c : Color) (l r : Tree A) (x : A)
      → is_red l ≡ false
      → is_red r ≡ false
      → height l ≡ height r
      → Even l
      → Even r
      → Even (node c l x r)
  Even-node red l r x a b h el er = (a, b, h, el, er)
  Even-node black l r x a b h el er = (h, el, er)

  pub height-pos : (t : Tree A) → 0 < height t
  height-pos leaf = omega arith
  height-pos (node c l x r) = omega (arith, height-pos l)

  both_black :
      (dir : Side) (pc : Color) (x : Tree A) (px : A) (wl : Tree A) (wx : A) (wr : Tree A)
      → Even x
      → Even wl
      → Even wr
      → height wl ≡ height x
      → height wr ≡ height x
      → is_red wl ≡ false
      → is_red wr ≡ false
      → RoundAt dir pc x px (node black wl wx wr)
  unfolding black_sibling build set_color is_black
  both_black left pc x px wl wx wr ex el er hl hr rl rr = (
    go_on (node pc x px (node red wl wx wr)),
    rw (rl, rr) refl,
    (refl, is_red-node pc x (node red wl wx wr) px, ground arith, omega arith),
  )
  both_black right pc x px wl wx wr ex el er hl hr rl rr = (
    go_on (node pc (node red wl wx wr) px x),
    rw (rl, rr) refl,
    (refl, is_red-node pc (node red wl wx wr) x px, ground arith, omega (arith, hl)),
  )

  outer_red :
      (pc : Color) (x : Tree A) (px : A) (inner : Tree A) (wx : A) (outer : Tree A)
      → Even x
      → Even inner
      → Even outer
      → height inner ≡ height x
      → height outer ≡ height x
      → is_red outer ≡ true
      → RoundAt left pc x px (node black inner wx outer)
        × RoundAt right pc x px (node black outer wx inner)
  unfolding black_sibling build set_color is_black is_red turn_sibling end_round last_rotation
      rotate done
  outer_red pc x px w wx leaf ex el er hl hr r = absurd (cc)
  outer_red pc x px w wx (node black a y b) ex el er hl hr r = absurd (cc)
  outer_red pc x px w wx (node red a y b) ex el er hl hr r =
      let c : Tree A = node black a y b in
      (
        (
          over (node pc (node black x px w) wx c),
          rw (and_false (not (is_red w))) refl,
          (
            simp (append_assoc),
            is_red-node pc (node black x px w) c wx,
            Even-node pc (node black x px w) c wx refl refl (omega (arith, hr)) (ground arith)
                (ground arith),
            omega arith,
          ),
        ),
        (
          over (node pc c wx (node black w px x)),
          refl,
          (
            simp (append_assoc),
            is_red-node pc c (node black w px x) wx,
            Even-node pc c (node black w px x) wx refl refl (omega (arith, hr, hl)) (ground arith)
                (ground arith),
            omega (arith, hr),
          ),
        ),
      )

  inner_red :
      (pc : Color) (x : Tree A) (px : A) (inner : Tree A) (wx : A) (outer : Tree A)
      → Even x
      → Even inner
      → Even outer
      → height inner ≡ height x
      → height outer ≡ height x
      → is_red inner ≡ true
      → is_red outer ≡ false
      → RoundAt left pc x px (node black inner wx outer)
        × RoundAt right pc x px (node black outer wx inner)
  unfolding black_sibling build set_color is_black is_red turn_sibling end_round last_rotation
      rotate done
  inner_red pc x px leaf wx w ex el er hl hr r ro = absurd (cc)
  inner_red pc x px (node black a y b) wx w ex el er hl hr r ro = absurd (cc)
  inner_red pc x px (node red a y b) wx w ex el er hl hr r ro =
      let p : Tree A = node black x px a in
      let q : Tree A = node black b wx w in
      let p' : Tree A = node black w wx a in
      let q' : Tree A = node black b px x in
      (
        (
          over (node pc p y q),
          rw ro refl,
          (
            simp (append_assoc),
            is_red-node pc p q y,
            Even-node pc p q y refl refl (omega (arith, hl, el)) (ground arith) (ground arith),
            omega arith,
          ),
        ),
        (
          over (node pc p' y q'),
          rw ro refl,
          (
            simp (append_assoc),
            is_red-node pc p' q' y,
            Even-node pc p' q' y refl refl (omega (arith, hr, hl, el)) (ground arith)
                (ground arith),
            omega (arith, hr),
          ),
        ),
      )

  pub black_sibling_lem :
      (dir : Side) (pc : Color) (x : Tree A) (px : A) (w : Tree A)
      → Even x
      → Even w
      → is_red w ≡ false
      → height w ≡ suc (height x)
      → RoundAt dir pc x px w
  unfolding is_red
  black_sibling_lem dir pc x px leaf ex ew rw' hw = absurd (omega (arith, height-pos x, hw))
  black_sibling_lem dir pc x px (node red wl wx wr) ex ew rw' hw = absurd (cc)
  black_sibling_lem left pc x px (node black wl wx wr) ex (hs, el, er) rw' hw =
      let hl : height wl ≡ height x = omega (arith, hw) in
      let hr : height wr ≡ height x = omega (arith, hw, hs) in
      elim (Bool-cases (is_red wr)) [
        | inl r ↦ (outer_red pc x px wl wx wr ex el er hl hr r).0
        | inr r ↦ elim (Bool-cases (is_red wl)) [
          | inl l ↦ (inner_red pc x px wl wx wr ex el er hl hr l r).0
          | inr l ↦ both_black left pc x px wl wx wr ex el er hl hr l r
        ]
      ]
  black_sibling_lem right pc x px (node black wl wx wr) ex (hs, el, er) rw' hw =
      let hl : height wl ≡ height x = omega (arith, hw) in
      let hr : height wr ≡ height x = omega (arith, hw, hs) in
      elim (Bool-cases (is_red wl)) [
        | inl l ↦ (outer_red pc x px wr wx wl ex er el hr hl l).1
        | inr l ↦ elim (Bool-cases (is_red wr)) [
          | inl r ↦ (inner_red pc x px wr wx wl ex er el hr hl r l).1
          | inr r ↦ both_black right pc x px wl wx wr ex el er hl hr l r
        ]
      ]
