-- ===== src/IntrusiveList/Walk.antt =====
-- Loops over a list with iterators: the nodes they visit and find.
use gloxor.Base.{
  ℕ, zero, suc, ◌<◌, ◌≡◌, refl, sym, ap, List, [], ◌∷◌, length, reverse, inl, inr, Bool, true,
  false, ◌==◌, if◌then◌else◌, arith, length-append, some, Bool-cases,
}
use mathlib.Core.Path.{subst}
use mathlib.Core.List.{reverse-append}
use gloxor.IntrusiveList.{Links, IntrusiveList, find_if, forwards, backwards, begin, end, back}
use gloxor.IntrusiveList.Chain.{Fresh, Seg, Circle, Seg-split, Fresh-parts}
use gloxor.IntrusiveList.Clear.{snoc_cases}

-- The links by which iterators go forwards.
abbrev pub Nexts : Links → ℕ → List ℕ → ℕ → Type 0
Nexts m a [] b = m.next a ≡ b
Nexts m a (x ∷ xs) b = (m.next a ≡ x) × Nexts m x xs b

pub Seg-Nexts : (m : Links) (a b : ℕ) (xs : List ℕ) → Seg m a xs b → Nexts m a xs b
Seg-Nexts m a b [] s = s.0
Seg-Nexts m a b (x ∷ xs) s = (s.0, Seg-Nexts m x b xs s.2)

-- A loop with `++` visits the nodes of a chain in their order.
pub forwards-Nexts :
    (fuel a b : ℕ) (m : Links) (xs : List ℕ)
    → Nexts m a xs b
    → Fresh b xs
    → length xs < fuel
    → forwards fuel (m.next a) b m ≡ some xs
unfolding forwards
forwards-Nexts zero a b m xs s f h = elim h [ ]
forwards-Nexts (suc fuel) a b m [] s f h =
    let here : (m.next a == b) ≡ true = ground arith in rw (here, forwards) refl
forwards-Nexts (suc fuel) a b m (x ∷ xs) s f h =
    let more : (m.next a == b) ≡ false = ground (arith, s.0, f.0) in
    let rest : forwards fuel (m.next (m.next a)) b m ≡ some xs =
      rw s.0 (forwards-Nexts fuel x b m xs s.1 f.1 (omega arith)) in
    rw (more, forwards, rest) (ap (λ y. some (y ∷ xs)) s.0)

-- A loop with `--` visits them from the back.
pub backwards-Seg :
    (fuel a b : ℕ) (m : Links) (xs : List ℕ)
    → Seg m a xs b
    → Fresh a xs
    → length xs < fuel
    → backwards fuel (m.prev b) a m ≡ some (reverse xs)
unfolding backwards
backwards-Seg zero a b m xs s f h = elim h [ ]
backwards-Seg (suc fuel) a b m xs s f h = elim (snoc_cases xs) [
  | inl e ↦
      let s' : Seg m a [] b = (rw e at s) in
      let here : (m.prev b == a) ≡ true = ground (arith, s'.1) in rw (here, backwards, e) refl
  | inr (ys, y, e) ↦
      let (left, right) = Seg-split m a y b ys [] (rw e at s) in
      let (before, other) = Fresh-parts a ys (y ∷ []) (rw e at f) in
      let more : (m.prev b == a) ≡ false = ground (arith, right.1, other.0) in
      let fewer : length ys < fuel = omega (arith, h, ap length e, length-append {0} ys (y ∷ [])) in
      let rest : backwards fuel (m.prev (m.prev b)) a m ≡ some (reverse ys) =
        rw right.1 (backwards-Seg fuel a y m ys left before fewer) in
      rw (more, backwards, rest, e, reverse-append) (ap (λ z. some (z ∷ reverse ys)) right.1)
]

-- From begin() to end() a loop visits the nodes of the list in their order, and from the back to the
-- front in the other.
pub forwards-backwards :
    (fuel : ℕ) (l : IntrusiveList) (m : Links) (xs : List ℕ)
    → Circle l.sentinel m xs
    → length xs < fuel
    → (forwards fuel (begin l m) (end l) m ≡ some xs)
      × (backwards fuel (back l m) (end l) m ≡ some (reverse xs))
unfolding begin end back
forwards-backwards fuel l m xs c h =
    let s = l.sentinel in
    (
      forwards-Nexts fuel s s m xs (Seg-Nexts m s s xs c.0) c.1.0 h,
      backwards-Seg fuel s s m xs c.0 c.1.0 h,
    )

-- The first of some nodes that passes a test, or another.
unfoldable pub first_or : (ℕ → Bool) → List ℕ → ℕ → ℕ
first_or fn [] d = d
first_or fn (x ∷ xs) d = if fn x then x else first_or fn xs d

pub find_if-Nexts :
    (fuel a b : ℕ) (fn : ℕ → Bool) (m : Links) (xs : List ℕ)
    → Nexts m a xs b
    → Fresh b xs
    → length xs < fuel
    → find_if fuel fn (m.next a) b m ≡ some (first_or fn xs b)
unfolding find_if first_or
find_if-Nexts zero a b fn m xs s f h = elim h [ ]
find_if-Nexts (suc fuel) a b fn m [] s f h =
    let here : (m.next a == b) ≡ true = ground arith in rw (here, find_if) refl
find_if-Nexts (suc fuel) a b fn m (x ∷ xs) s f h =
    let more : (x == b) ≡ false = ground (arith, f.0) in
    let rest = find_if-Nexts fuel x b fn m xs s.1 f.1 (omega arith) in
    let here : find_if (suc fuel) fn x b m ≡ some (first_or fn (x ∷ xs) b) =
      elim (Bool-cases (fn x)) [
        | inl hit ↦ rw (more, hit, find_if, first_or) refl
        | inr miss ↦ rw (more, miss, find_if, first_or) rest
      ] in
    subst (λ i. find_if (suc fuel) fn i b m ≡ some (first_or fn (x ∷ xs) b)) (sym s.0) here
