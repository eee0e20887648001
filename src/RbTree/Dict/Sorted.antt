-- ===== src/RbTree/Dict/Sorted.antt =====
-- Entries in the order of their keys: what rb_tree_map of
-- libraries/libglox/include/glox/intrusive_rb_tree.hpp keeps, as lists.
use gloxor.Base.{
  ◌≡◌, refl, sym, ap, ◌∙◌, List, [], ◌∷◌, ◌++◌, ◌⊎◌, Option, none, some, Bool, true, false, not,
  if◌then◌else◌, Bool-cases, inl, inr, arith,
}
use gloxor.RbTree.{Tree, leaf, node}
use gloxor.RbTree.Shape.{inorder}
use gloxor.RbTree.Search.{Every, Every-append, Every-left, Every-right, Rising, Falling}
use gloxor.RbTree.Dict.{less, more}

-- What a comparison of keys must be: irreflexive, transitive, and total up to equality.
pub record Order {K : Type 0} (comp : K → K → Bool) : Type 0 where
  pub irreflexive : (a : K) → comp a a ≡ false
  pub transitive : (a b c : K) → comp a b ≡ true → comp b c ≡ true → comp a c ≡ true
  pub total : (a b : K) → comp a b ≡ false → comp b a ≡ false → a ≡ b

module _ {K V : Type 0} (comp : K → K → Bool) where
  -- Keys strictly ascend.
  abbrev pub Sorted : List (K × V) → Type 0
  Sorted [] = Unit {0}
  Sorted ((k, v) ∷ xs) = Every (more comp k) true xs × Sorted xs

  pub Sorted-left : (xs ys : List (K × V)) → Sorted (xs ++ ys) → Sorted xs
  Sorted-left [] ys s = tt
  Sorted-left ((k, v) ∷ xs) ys (e, s) = (Every-left (more comp k) true xs ys e, Sorted-left xs ys s)

  pub Sorted-right : (xs ys : List (K × V)) → Sorted (xs ++ ys) → Sorted ys
  Sorted-right [] ys s = s
  Sorted-right ((k, v) ∷ xs) ys (e, s) = Sorted-right xs ys s

  -- What a list looked up by key gives.
  abbrev pub lookup : K → List (K × V) → Option V
  lookup key [] = none
  lookup key ((k, v) ∷ xs) =
      if comp k key then lookup key xs else (if comp key k then lookup key xs else some v)

  pub Sorted-insert :
      (xs ys : List (K × V)) (key : K) (v : V)
      → Sorted (xs ++ ys)
      → Every (less comp key) true xs
      → Every (more comp key) true ys
      → Sorted (xs ++ ((key, v) ∷ ys))
  unfolding less more
  Sorted-insert [] ys key v s l m = (m, s)
  Sorted-insert ((k, w) ∷ xs) ys key v (e, s) (h, l) m = (
    Every-append (more comp k) true xs ((key, v) ∷ ys) (Every-left (more comp k) true xs ys e)
        (h, Every-right (more comp k) true xs ys e),
    Sorted-insert xs ys key v s l m,
  )

  pub Sorted-delete :
      (xs ys : List (K × V)) (key : K) (v : V) → Sorted (xs ++ ((key, v) ∷ ys)) → Sorted (xs ++ ys)
  unfolding more
  Sorted-delete [] ys key v (e, s) = s
  Sorted-delete ((k, w) ∷ xs) ys key v (e, s) = (
    Every-append (more comp k) true xs ys (Every-left (more comp k) true xs ((key, v) ∷ ys) e)
        (Every-right (more comp k) true xs ((key, v) ∷ ys) e).1,
    Sorted-delete xs ys key v s,
  )

  pub Sorted-update :
      (xs ys : List (K × V)) (key : K) (v w : V)
      → Sorted (xs ++ ((key, v) ∷ ys))
      → Sorted (xs ++ ((key, w) ∷ ys))
  unfolding more
  Sorted-update [] ys key v w s = s
  Sorted-update ((k, u) ∷ xs) ys key v w (e, s) = (
    Every-append (more comp k) true xs ((key, w) ∷ ys)
        (Every-left (more comp k) true xs ((key, v) ∷ ys) e)
        (Every-right (more comp k) true xs ((key, v) ∷ ys) e),
    Sorted-update xs ys key v w s,
  )

not_both : {b : Bool} → b ≡ true → b ≡ false → ⊥
not_both t f = absurd (cc)

module _ {K V : Type 0} (comp : K → K → Bool) (o : Order comp) where
  -- What lies above a key lies above all keys below it.
  pub Every-more :
      (xs : List (K × V)) (a b : K)
      → comp a b ≡ true
      → Every (more comp b) true xs
      → Every (more comp a) true xs
  unfolding more
  Every-more [] a b h e = tt
  Every-more ((k, v) ∷ xs) a b h (g, e) = (o.transitive a b k h g, Every-more xs a b h e)

  pub Every-less-before :
      (xs : List (K × V)) (k : K) (v : V) (ys : List (K × V))
      → Sorted comp (xs ++ ((k, v) ∷ ys))
      → Every (less comp k) true xs
  unfolding more less
  Every-less-before [] k v ys s = tt
  Every-less-before ((k', v') ∷ xs) k v ys (e, s) =
      ((Every-right (more comp k') true xs ((k, v) ∷ ys) e).0, Every-less-before xs k v ys s)

  Every-less :
      (xs : List (K × V)) (a b : K)
      → comp a b ≡ true
      → Every (less comp a) true xs
      → Every (less comp b) true xs
  unfolding less
  Every-less [] a b h e = tt
  Every-less ((k, v) ∷ xs) a b h (g, e) = (o.transitive k a b g h, Every-less xs a b h e)

  -- What lies below a key that is not above another is not above the other.
  Every-not-more :
      (xs : List (K × V)) (k key : K)
      → comp key k ≡ false
      → Every (less comp k) true xs
      → Every (more comp key) false xs
  unfolding less more
  Every-not-more [] k key h e = tt
  Every-not-more ((a, v) ∷ xs) k key h (g, e) = (
    elim (Bool-cases (comp key a)) [
      | inl q ↦ absurd (not_both (o.transitive key a k q g) h)
      | inr q ↦ q
    ],
    Every-not-more xs k key h e,
  )

  Every-not-less :
      (xs : List (K × V)) (k key : K)
      → comp k key ≡ false
      → Every (more comp k) true xs
      → Every (λ e. not (less comp key e)) true xs
  unfolding less more
  Every-not-less [] k key h e = tt
  Every-not-less ((a, v) ∷ xs) k key h (g, e) = (
    elim (Bool-cases (comp a key)) [
      | inl q ↦ absurd (not_both (o.transitive k a key g q) h)
      | inr q ↦ ap not q
    ],
    Every-not-less xs k key h e,
  )

  Every-not :
      (f : K × V → Bool) (xs : List (K × V)) → Every f true xs → Every (λ e. not (f e)) false xs
  Every-not f [] e = tt
  Every-not f (x ∷ xs) (h, e) = (ap not h, Every-not f xs e)

  pub Sorted-lower :
      (t : Tree (K × V)) (key : K) → Sorted comp (inorder t) → Rising (λ e. not (less comp key e)) t
  unfolding less
  Sorted-lower leaf key s = tt
  Sorted-lower (node c l (k, v) r) key s =
      let (above, sr) = Sorted-right comp (inorder l) ((k, v) ∷ inorder r) s in
      let sl = Sorted-left comp (inorder l) ((k, v) ∷ inorder r) s in
      (
        λ h. Every-not (less comp key) (inorder l) (
            Every-less (inorder l) k key (ground arith)
              (Every-less-before (inorder l) k v (inorder r) s)),
        λ h. Every-not-less (inorder r) k key (ground arith) above,
        Sorted-lower l key sl,
        Sorted-lower r key sr,
      )

  -- A tree in order is in order for every key.
  pub Sorted-Rising :
      (t : Tree (K × V)) (key : K) → Sorted comp (inorder t) → Rising (more comp key) t
  unfolding more
  Sorted-Rising leaf key s = tt
  Sorted-Rising (node c l (k, v) r) key s =
      let (above, sr) = Sorted-right comp (inorder l) ((k, v) ∷ inorder r) s in
      let sl = Sorted-left comp (inorder l) ((k, v) ∷ inorder r) s in
      (
        λ h. Every-not-more (inorder l) k key h (Every-less-before (inorder l) k v (inorder r) s),
        λ h. Every-more (inorder r) key k h above,
        Sorted-Rising l key sl,
        Sorted-Rising r key sr,
      )

  pub Sorted-Falling :
      (t : Tree (K × V)) (key : K) → Sorted comp (inorder t) → Falling (less comp key) t
  unfolding less
  Sorted-Falling leaf key s = tt
  Sorted-Falling (node c l (k, v) r) key s =
      let (above, sr) = Sorted-right comp (inorder l) ((k, v) ∷ inorder r) s in
      let sl = Sorted-left comp (inorder l) ((k, v) ∷ inorder r) s in
      (
        λ h. Every-less (inorder l) k key h (Every-less-before (inorder l) k v (inorder r) s),
        Sorted-Falling l key sl,
        Sorted-Falling r key sr,
      )

  -- Keys below the one looked up are passed over.
  pub lookup-skip :
      (xs ys : List (K × V)) (key : K)
      → Every (less comp key) true xs
      → lookup comp key (xs ++ ys) ≡ lookup comp key ys
  unfolding less
  lookup-skip [] ys key e = refl
  lookup-skip ((k, v) ∷ xs) ys key (h, e) = rw h (lookup-skip xs ys key e)

  pub lookup-above :
      (xs : List (K × V)) (key : K) → Every (more comp key) true xs → lookup comp key xs ≡ none
  unfolding more
  lookup-above [] key e = refl
  lookup-above ((k, v) ∷ xs) key (h, e) = rw h (elim (Bool-cases (comp k key)) [
    | inl q ↦ rw q (lookup-above xs key e)
    | inr q ↦ rw q (lookup-above xs key e)
  ])

  other :
      (xs ys : List (K × V)) (k key : K) (v : V)
      → (comp k key ≡ true) ⊎ (comp key k ≡ true)
      → lookup comp key (xs ++ ((k, v) ∷ ys)) ≡ lookup comp key (xs ++ ys)
  other [] ys k key v (inl h) = rw h refl
  other [] ys k key v (inr h) = elim (Bool-cases (comp k key)) [
    | inl g ↦ rw g refl
    | inr g ↦ rw (g, h) refl
  ]
  other ((a, w) ∷ xs) ys k key v d = rw (other xs ys k key v d) refl

  -- A key of its own is found, any other is not touched.
  pub lookup-insert :
      (xs ys : List (K × V)) (k key : K) (v : V)
      → Sorted comp (xs ++ ((k, v) ∷ ys))
      → lookup comp key (xs ++ ((k, v) ∷ ys)) ≡ (
          if comp k key
          then lookup comp key (xs ++ ys)
          else (if comp key k then lookup comp key (xs ++ ys) else some v))
  lookup-insert xs ys k key v s = elim (Bool-cases (comp k key)) [
    | inl h ↦ rw h (other xs ys k key v (inl h))
    | inr h ↦ elim (Bool-cases (comp key k)) [
      | inl g ↦ rw (h, g) (other xs ys k key v (inr g))
      | inr g ↦
          let e = o.total k key h g in
          rw (h, g)
            (lookup-skip xs ((k, v) ∷ ys) key (rw (sym e) (Every-less-before xs k v ys s))
              ∙ rw (h, g) refl)
    ]
  ]
