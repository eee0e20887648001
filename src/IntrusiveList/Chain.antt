-- ===== src/IntrusiveList/Chain.antt =====
-- Which links represent which sequence of nodes: a chain from a node through others to an end, and the
-- circle through the sentinel; how a chain is cut, joined, and kept by writes elsewhere.
use gloxor.Base.{ℕ, ◌≡◌, ◌≢◌, sym, ◌∙◌, List, [], ◌∷◌, ◌++◌, length}
use gloxor.IntrusiveList.{Links, IntrusiveList}

-- The node is none of the list's.
abbrev pub Fresh : ℕ → List ℕ → Type 0
Fresh a [] = Unit
Fresh a (x ∷ xs) = (a ≢ x) × Fresh a xs

abbrev pub Distinct : List ℕ → Type 0
Distinct [] = Unit
Distinct (x ∷ xs) = Fresh x xs × Distinct xs

-- Both links of each step from `a` through the list to `b`.
abbrev pub Seg : Links → ℕ → List ℕ → ℕ → Type 0
Seg m a [] b = (m.next a ≡ b) × (m.prev b ≡ a)
Seg m a (x ∷ xs) b = (m.next a ≡ x) × (m.prev x ≡ a) × Seg m x xs b

-- The circle of a list through its sentinel, with no node twice.
abbrev pub Circle : ℕ → Links → List ℕ → Type 0
Circle s m xs = Seg m s xs s × Distinct (s ∷ xs)

-- The list and its count.
pub record Represents (l : IntrusiveList) (m : Links) (xs : List ℕ) : Type 0 where
  pub circle : Circle l.sentinel m xs
  pub counted : l.list_size ≡ length xs

abbrev pub last : ℕ → List ℕ → ℕ
last a [] = a
last a (x ∷ xs) = last x xs

pub Fresh-append : (a : ℕ) (xs ys : List ℕ) → Fresh a xs → Fresh a ys → Fresh a (xs ++ ys)
Fresh-append a [] ys f g = g
Fresh-append a (x ∷ xs) ys f g = (f.0, Fresh-append a xs ys f.1 g)

pub Fresh-parts : (a : ℕ) (xs ys : List ℕ) → Fresh a (xs ++ ys) → Fresh a xs × Fresh a ys
Fresh-parts a [] ys f = (tt, f)
Fresh-parts a (x ∷ xs) ys f = let r = Fresh-parts a xs ys f.1 in ((f.0, r.0), r.1)

-- Every node of a list differs from those after it.
pub Distinct-middle :
    (xs ys : List ℕ) (y : ℕ)
    → Distinct (xs ++ y ∷ ys)
    → Fresh y xs × Fresh y ys × Distinct xs × Distinct ys × Distinct (xs ++ ys)
Distinct-middle [] ys y d = (tt, d.0, tt, d.1, d.1)
Distinct-middle (x ∷ xs) ys y d =
    let (before, after, left, right, both) = Distinct-middle xs ys y d.1 in
    let parts = Fresh-parts x xs (y ∷ ys) d.0 in
    (
      ((λ e. parts.1.0 (sym e)), before),
      after,
      (parts.0, left),
      right,
      (Fresh-append x xs ys parts.0 parts.1.1, both),
    )

-- A fresh node may be put anywhere.
pub Distinct-insert :
    (n : ℕ) (xs ys : List ℕ) → Distinct (xs ++ ys) → Fresh n (xs ++ ys) → Distinct (xs ++ n ∷ ys)
Distinct-insert n [] ys d f = (f, d)
Distinct-insert n (x ∷ xs) ys d f =
    let parts = Fresh-parts x xs ys d.0 in
    (
      Fresh-append x xs (n ∷ ys) parts.0 ((λ e. f.0 (sym e)), parts.1),
      Distinct-insert n xs ys d.1 f.1,
    )

-- The last node of a chain is the one before its end, and a node before the chain is another.
pub prev-Seg : (m : Links) (a b : ℕ) (xs : List ℕ) → Seg m a xs b → m.prev b ≡ last a xs
prev-Seg m a b [] s = s.1
prev-Seg m a b (x ∷ xs) s = prev-Seg m x b xs s.2

pub ne-last : (a x : ℕ) (xs : List ℕ) → a ≢ x → Fresh a xs → a ≢ last x xs
ne-last a x [] h f = h
ne-last a x (y ∷ ys) h f = ne-last a y ys f.0 f.1

pub Seg-split :
    (m : Links) (a y b : ℕ) (xs ys : List ℕ)
    → Seg m a (xs ++ y ∷ ys) b
    → Seg m a xs y × Seg m y ys b
Seg-split m a y b [] ys s = ((s.0, s.1), s.2)
Seg-split m a y b (x ∷ xs) ys s = let r = Seg-split m x y b xs ys s.2 in ((s.0, s.1, r.0), r.1)

pub Seg-join :
    (m : Links) (a y b : ℕ) (xs ys : List ℕ)
    → Seg m a xs y
    → Seg m y ys b
    → Seg m a (xs ++ y ∷ ys) b
Seg-join m a y b [] ys s t = (s.0, s.1, t)
Seg-join m a y b (x ∷ xs) ys s t = (s.0, s.1, Seg-join m x y b xs ys s.2 t)

pub Fresh-last : (a : ℕ) (xs ys : List ℕ) → Distinct (a ∷ (xs ++ ys)) → Fresh (last a xs) ys
Fresh-last a [] ys d = d.0
Fresh-last a (x ∷ xs) ys d = Fresh-last x xs ys d.1

-- A chain keeps its links but for the last step, which now leads to `n`. The links may also differ at
-- `k`, which is not on the chain.
pub Seg-relink :
    (m m' : Links) (a y n k : ℕ) (xs : List ℕ)
    → ((i : ℕ) → i ≢ last a xs → i ≢ k → m'.next i ≡ m.next i)
    → ((i : ℕ) → i ≢ y → i ≢ n → m'.prev i ≡ m.prev i)
    → m'.next (last a xs) ≡ n
    → m'.prev n ≡ last a xs
    → Distinct (a ∷ xs)
    → Fresh k (a ∷ xs)
    → Fresh y xs
    → Fresh n xs
    → Seg m a xs y
    → Seg m' a xs n
Seg-relink m m' a y n k [] next prev e f d hk hy hn s = (e, f)
Seg-relink m m' a y n k (x ∷ xs) next prev e f d hk hy hn s = (
  next a (ne-last a x xs d.0.0 d.0.1) (λ h. hk.0 (sym h)) ∙ s.0,
  prev x (λ h. hy.0 (sym h)) (λ h. hn.0 (sym h)) ∙ s.1,
  Seg-relink m m' x y n k xs next prev e f d.1 hk.1 hy.1 hn.1 s.2,
)

-- Links that agree at the nodes of a chain: they may differ after `p` and `q`, and before `u` and `v`.
pub Seg-agree :
    (m m' : Links) (a b p q u v : ℕ) (xs : List ℕ)
    → ((i : ℕ) → i ≢ p → i ≢ q → m'.next i ≡ m.next i)
    → ((i : ℕ) → i ≢ u → i ≢ v → m'.prev i ≡ m.prev i)
    → Fresh p (a ∷ xs)
    → Fresh q (a ∷ xs)
    → Fresh u (b ∷ xs)
    → Fresh v (b ∷ xs)
    → Seg m a xs b
    → Seg m' a xs b
Seg-agree m m' a b p q u v [] next prev hp hq hu hv s = (
  next a (λ h. hp.0 (sym h)) (λ h. hq.0 (sym h)) ∙ s.0,
  prev b (λ h. hu.0 (sym h)) (λ h. hv.0 (sym h)) ∙ s.1,
)
Seg-agree m m' a b p q u v (x ∷ xs) next prev hp hq hu hv s = (
  next a (λ h. hp.0 (sym h)) (λ h. hq.0 (sym h)) ∙ s.0,
  prev x (λ h. hu.1.0 (sym h)) (λ h. hv.1.0 (sym h)) ∙ s.1,
  Seg-agree m m' x b p q u v xs next prev hp.1 hq.1 (hu.0, hu.1.1) (hv.0, hv.1.1) s.2,
)
