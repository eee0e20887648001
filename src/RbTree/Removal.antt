-- ===== src/RbTree/Removal.antt =====
-- erase of namespace detail in intrusive_rb_tree.hpp: the unlinking of a node and erase_fixup.
use gloxor.Base.{[], ◌∷◌, ◌++◌, Option, none, some, true, false, ◌&&◌, if◌then◌else◌}
use gloxor.RbTree.{
  Color, red, black, Side, left, right, opposite, Tree, leaf, node, frame, Ancestors, build, plug,
  is_red, is_black, set_color, child, rotate,
}

-- What a round of erase_fixup leaves of the parent's subtree: the loop goes on with x = parent, or
-- the rotations have ended it.
pub data Round (A : Type 0) : Type 0 where
  go_on : Tree A → Round A
  over : Tree A → Round A

module _ {A : Type 0} where
  -- The last rotation of erase_fixup: w takes the parent's colour, the parent and w's outer child
  -- turn black.
  unfoldable pub last_rotation : Side → Color → Tree A → A → Tree A → Option (Tree A)
  unfolding build opposite set_color child rotate
  last_rotation dir pc x px leaf = none
  last_rotation left pc x px (node wc wl wx wr) =
      rotate left (node black x px (node pc wl wx (set_color black wr)))
  last_rotation right pc x px (node wc wl wx wr) =
      rotate right (node black (node pc (set_color black wl) wx wr) px x)

  -- An inner red child of the sibling is rotated up first.
  unfoldable pub turn_sibling : Side → Tree A → Option (Tree A)
  unfolding is_black is_red set_color rotate
  turn_sibling dir leaf = none
  turn_sibling left (node wc wl wx wr) =
      if is_black wr
      then rotate right (node red (set_color black wl) wx wr)
      else some (node wc wl wx wr)
  turn_sibling right (node wc wl wx wr) =
      if is_black wl
      then rotate left (node red wl wx (set_color black wr))
      else some (node wc wl wx wr)

  unfoldable pub done : Option (Tree A) → Option (Round A)
  done none = none
  done (some t) = some (over t)

  unfoldable pub end_round : Side → Color → Tree A → A → Option (Tree A) → Option (Round A)
  unfolding last_rotation done
  end_round dir pc x px none = none
  end_round dir pc x px (some w) = done (last_rotation dir pc x px w)

  -- The rest of a round where the sibling w is black.
  unfoldable pub black_sibling : Side → Color → Tree A → A → Tree A → Option (Round A)
  unfolding is_black is_red build set_color turn_sibling end_round
  black_sibling dir pc x px leaf = none
  black_sibling dir pc x px (node wc wl wx wr) =
      if is_black wl && is_black wr
      then some (go_on (build dir pc x px (node red wl wx wr)))
      else end_round dir pc x px (turn_sibling dir (node wc wl wx wr))

  -- After a round under a red sibling the parent is red: where the loop would go on with it, it ends
  -- and the parent turns black.
  unfoldable pub after_red : Option (Round A) → Ancestors A → Option (Tree A)
  unfolding set_color plug
  after_red none p = none
  after_red (some (go_on t)) p = some (plug (set_color black t) p)
  after_red (some (over t)) p = some (set_color black (plug t p))

  -- A red sibling turns black and is rotated up, the parent turns red; the black inner child is
  -- the new sibling.
  unfoldable pub red_sibling : Side → Tree A → A → Tree A → Ancestors A → Option (Tree A)
  unfolding child opposite black_sibling after_red
  red_sibling dir x px leaf path = none
  red_sibling left x px (node wc wl wx wr) path =
      after_red (black_sibling left red x px wl) (frame left black wx wr ∷ path)
  red_sibling right x px (node wc wl wx wr) path =
      after_red (black_sibling right red x px wr) (frame right black wx wl ∷ path)

  -- The loop goes on with x = parent, or the root turns black.
  unfoldable pub next_round :
      (Tree A → Option (Tree A)) → Ancestors A → Option (Round A) → Option (Tree A)
  unfolding set_color plug
  next_round loop path none = none
  next_round loop path (some (go_on t)) = loop t
  next_round loop path (some (over t)) = some (set_color black (plug t path))

  -- x carries an extra black.
  unfoldable pub erase_fixup : Tree A → Ancestors A → Option (Tree A)
  unfolding set_color is_red plug black_sibling red_sibling next_round
  erase_fixup x [] = some (set_color black x)
  erase_fixup x (frame dir pc px w ∷ path) = elim (is_red x) [
    | true ↦ some (plug (set_color black x) (frame dir pc px w ∷ path))
    | false ↦ elim (is_red w) [
      | true ↦ red_sibling dir x px w path
      | false ↦ next_round (λ t. erase_fixup t path) path (black_sibling dir pc x px w)
    ]
  ]

  -- The leftmost node: its colour, its element, its right child and its ancestors.
  unfoldable pub minimum :
      Color → Tree A → A → Tree A → Ancestors A → Color × A × Tree A × Ancestors A
  minimum c leaf x r p = (c, x, r, p)
  minimum c (node d l y b) x r p = minimum d l y b (frame left c x r ∷ p)

  -- x takes the place of an unlinked node of this colour.
  unfoldable pub fix_hole : Color → Tree A → Ancestors A → Option (Tree A)
  unfolding erase_fixup plug
  fix_hole red x path = some (plug x path)
  fix_hole black x path = erase_fixup x path

  -- The successor of z, found under its right child, takes the place and the colour of z.
  unfoldable pub replace :
      Color → Tree A → Ancestors A → Color × A × Tree A × Ancestors A → Option (Tree A)
  unfolding fix_hole
  replace zc zl path (yc, y, yr, q) = fix_hole yc yr (q ++ (frame right zc y zl ∷ path))

  -- The node z with its colour and its children, and its ancestors.
  unfoldable pub unlink : Color → Tree A → A → Tree A → Ancestors A → Option (Tree A)
  unfolding fix_hole minimum replace
  unlink zc leaf z zr path = fix_hole zc zr path
  unlink zc (node c l x r) z leaf path = fix_hole zc (node c l x r) path
  unlink zc (node c l x r) z (node d a y b) path =
      replace zc (node c l x r) path (minimum d a y b [])
