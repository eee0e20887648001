-- ===== src/IntrusiveList/Clear.antt =====
-- clear of intrusive_list ends with an empty circle.
use gloxor.Base.{
  ℕ, zero, suc, ◌<◌, ◌≡◌, refl, ◌∙◌, ap, List, [], ◌∷◌, ◌++◌, length, ◌⊎◌, inl, inr, true, false,
  ◌==◌, arith, length-append, some,
}
use mathlib.Core.List.{append-nil}
use gloxor.Algorithms.{write}
use gloxor.IntrusiveList.{Links, IntrusiveList, remove, clear_loop, clear}
use gloxor.IntrusiveList.Chain.{Circle, Represents, last, prev-Seg, Seg-split, Fresh-parts}
use gloxor.IntrusiveList.Splice.{remove-Circle}

-- A list is empty or has a last node.
pub snoc_cases : (xs : List ℕ) → (xs ≡ []) ⊎ ((ys : List ℕ) × (y : ℕ) × (xs ≡ ys ++ y ∷ []))
snoc_cases [] = inl refl
snoc_cases (x ∷ xs) = elim (snoc_cases xs) [
  | inl e ↦ inr ([], x, ap (λ l. x ∷ l) e)
  | inr (ys, y, e) ↦ inr (x ∷ ys, y, ap (λ l. x ∷ l) e)
]

pub last-append : (a y : ℕ) (xs : List ℕ) → last a (xs ++ y ∷ []) ≡ y
last-append a y [] = refl
last-append a y (x ∷ xs) = last-append x y xs

-- The loop of clear takes the nodes out from the back, and ends when all are out.
pub clear_loop-Circle :
    (fuel s tmp : ℕ) (m : Links) (xs : List ℕ)
    → Circle s m xs
    → tmp ≡ last s xs
    → length xs < fuel
    → (m' : Links) × (clear_loop fuel s tmp m ≡ some m') × Circle s m' []
unfolding clear_loop
clear_loop-Circle zero s tmp m xs c t h = elim h [ ]
clear_loop-Circle (suc fuel) s tmp m xs c t h = elim (snoc_cases xs) [
  | inl e ↦
      let here : (tmp == s) ≡ true = let t' : tmp ≡ s = t ∙ ap (last s) e in ground arith in
      (m, (rw (here, clear_loop) refl), rw e at c)
  | inr (ys, y, e) ↦
      let c' : Circle s m (ys ++ y ∷ []) = (rw e at c) in
      let top : tmp ≡ y = t ∙ ap (last s) e ∙ last-append s y ys in
      let (left, right) = Seg-split m s y s ys [] c'.0 in
      let (_, other) = Fresh-parts s ys (y ∷ []) c'.1.0 in
      let more : (tmp == s) ≡ false = ground (arith, top, other.0) in
      let before : m.prev tmp ≡ last s ys = rw top (prev-Seg m s y ys left) in
      let fewer : length ys < fuel = omega (arith, h, ap length e, length-append {0} ys (y ∷ [])) in
      let out : Circle s (remove tmp m) ys =
        rw (top, ← append-nil ys) (remove-Circle s y m ys [] c') in
      let (m', done, empty) =
        clear_loop-Circle fuel s (m.prev tmp) (remove tmp m) ys out before fewer in
      (m', (rw (more, clear_loop) done), empty)
]

-- clear of a list of `xs` ends within a round for each node, with an empty list.
pub clear-Represents :
    (fuel : ℕ) (l : IntrusiveList) (m : Links) (xs : List ℕ)
    → Circle l.sentinel m xs
    → length xs < fuel
    → (r : IntrusiveList × Links) × (clear fuel l m ≡ some r)
      × (r.0.sentinel ≡ l.sentinel)
      × Represents r.0 r.1 []
unfolding clear write
clear-Represents fuel l m xs c h =
    let s = l.sentinel in
    let (m', done, empty) = clear_loop-Circle fuel s (m.prev s) m xs c (prev-Seg m s s xs c.0) h in
    (
      (record l { list_size = 0 }, record { next = write m'.next s s; prev = write m'.prev s s }),
      (rw (done, clear) refl),
      refl,
      record { circle = ((ground arith, ground arith), (tt, tt)); counted = refl },
    )
