-- ===== src/RbTree/Orders.antt =====
-- Sequences of node addresses: their first and their last one, and addresses that occur once.
use gloxor.Base.{
  ℕ, ◌≡◌, ◌≢◌, refl, sym, ap, ◌∙◌, List, [], ◌∷◌, ◌++◌, Option, none, some, Bool, true, false, ◌==◌,
  if◌then◌else◌, length, arith,
}
use mathlib.Core.List.{append-nil}
use mathlib.Core.Option.{some-ne-none, some-injective}

-- A pointer to the node at the address; `none` points to the sentinel.
unfoldable pub points_to : Option ℕ → ℕ → Bool
points_to none a = false
points_to (some b) a = a == b

abbrev pub first_of : List ℕ → Option ℕ
first_of [] = none
first_of (x ∷ xs) = some x

abbrev pub last_of : List ℕ → Option ℕ
last_of [] = none
last_of (x ∷ []) = some x
last_of (x ∷ y ∷ ys) = last_of (y ∷ ys)

abbrev pub Absent : ℕ → List ℕ → Type 0
Absent a [] = Unit
Absent a (x ∷ xs) = (a ≢ x) × Absent a xs

abbrev pub Distinct : List ℕ → Type 0
Distinct [] = Unit
Distinct (x ∷ xs) = Absent x xs × Distinct xs

pub last_of-cons : (x : ℕ) (ys : List ℕ) (y : ℕ) → last_of ys ≡ some y → last_of (x ∷ ys) ≡ some y
last_of-cons x [] y e = absurd (some-ne-none y (sym e))
last_of-cons x (z ∷ ys) y e = e

pub last_of-append : (xs ys : List ℕ) (y : ℕ) → last_of ys ≡ some y → last_of (xs ++ ys) ≡ some y
last_of-append [] ys y e = e
last_of-append (x ∷ xs) ys y e = last_of-cons x (xs ++ ys) y (last_of-append xs ys y e)

-- A list that is not empty has a last element.
pub last_of-some : (x : ℕ) (xs : List ℕ) → (y : ℕ) × (last_of (x ∷ xs) ≡ some y)
last_of-some x [] = (x, refl)
last_of-some x (y ∷ ys) = last_of-some y ys

pub Absent-right : (a : ℕ) (xs ys : List ℕ) → Absent a (xs ++ ys) → Absent a ys
Absent-right a [] ys h = h
Absent-right a (x ∷ xs) ys (ne, h) = Absent-right a xs ys h

pub Absent-left : (a : ℕ) (xs ys : List ℕ) → Absent a (xs ++ ys) → Absent a xs
Absent-left a [] ys h = tt
Absent-left a (x ∷ xs) ys (ne, h) = (ne, Absent-left a xs ys h)

Absent-join : (a : ℕ) (xs ys : List ℕ) → Absent a xs → Absent a ys → Absent a (xs ++ ys)
Absent-join a [] ys h k = k
Absent-join a (x ∷ xs) ys (ne, h) k = (ne, Absent-join a xs ys h k)

pub Absent-last_of : (a b : ℕ) (ys : List ℕ) → Absent a ys → last_of ys ≡ some b → b ≢ a
Absent-last_of a b [] h e = absurd (some-ne-none b (sym e))
Absent-last_of a b (y ∷ []) (ne, h) e = λ same. ne (sym (some-injective y b e ∙ same))
Absent-last_of a b (y ∷ z ∷ ys) (ne, h) e = Absent-last_of a b (z ∷ ys) h e

pub Distinct-right : (xs ys : List ℕ) → Distinct (xs ++ ys) → Distinct ys
Distinct-right [] ys d = d
Distinct-right (x ∷ xs) ys (h, d) = Distinct-right xs ys d

pub Distinct-left : (xs ys : List ℕ) → Distinct (xs ++ ys) → Distinct xs
Distinct-left [] ys d = tt
Distinct-left (x ∷ xs) ys (h, d) = (Absent-left x xs ys h, Distinct-left xs ys d)

-- The last one of the second part does not occur in the first.
pub Distinct-last_of :
    (xs ys : List ℕ) (a : ℕ) → Distinct (xs ++ ys) → last_of ys ≡ some a → Absent a xs
Distinct-last_of [] ys a d e = tt
Distinct-last_of (x ∷ xs) ys a (h, d) e =
    (Absent-last_of x a ys (Absent-right x xs ys h) e, Distinct-last_of xs ys a d e)

-- A new address keeps a sequence distinct, and so does taking one out.
pub Distinct-insert :
    (xs ys : List ℕ) (n : ℕ) → Distinct (xs ++ ys) → Absent n (xs ++ ys) → Distinct (xs ++ n ∷ ys)
Distinct-insert [] ys n d h = (h, d)
Distinct-insert (x ∷ xs) ys n (k, d) (ne, h) = (
  Absent-join x xs (n ∷ ys) (Absent-left x xs ys k) ((λ e. ne (sym e)), Absent-right x xs ys k),
  Distinct-insert xs ys n d h,
)

pub Distinct-delete : (xs ys : List ℕ) (n : ℕ) → Distinct (xs ++ n ∷ ys) → Distinct (xs ++ ys)
Distinct-delete [] ys n (h, d) = d
Distinct-delete (x ∷ xs) ys n (h, d) = (
  Absent-join x xs ys (Absent-left x xs (n ∷ ys) h) (Absent-right x xs (n ∷ ys) h).1,
  Distinct-delete xs ys n d,
)

-- The first of what is left where x is taken out, by the test that erase makes.
pub first_of-delete :
    (xs ys : List ℕ) (x : ℕ)
    → Distinct (xs ++ x ∷ ys)
    → (if points_to (first_of (xs ++ x ∷ ys)) x then first_of ys else first_of (xs ++ x ∷ ys))
      ≡ first_of (xs ++ ys)
unfolding points_to
first_of-delete [] ys x d = let same : (x == x) ≡ true = ground arith in rw same refl
first_of-delete (z ∷ xs) ys x (h, d) =
    let other : (x == z) ≡ false = ground (arith, (Absent-right z xs (x ∷ ys) h).0) in rw other refl

pub last_of-delete :
    (xs ys : List ℕ) (x : ℕ)
    → Distinct (xs ++ x ∷ ys)
    → (if points_to (last_of (xs ++ x ∷ ys)) x then last_of xs else last_of (xs ++ x ∷ ys))
      ≡ last_of (xs ++ ys)
unfolding points_to
last_of-delete xs [] x d =
    let same : (x == x) ≡ true = ground arith in
    rw (last_of-append xs (x ∷ []) x refl, same) (ap last_of (sym (append-nil xs)))
last_of-delete xs (y ∷ ys) x d =
    let (b, e) = last_of-some y ys in
    let ne = Absent-last_of x b (y ∷ ys) (Distinct-right xs (x ∷ y ∷ ys) d).0 e in
    let other : (x == b) ≡ false = ground (arith, ne) in
    rw (last_of-append xs (x ∷ y ∷ ys) b e, other) (sym (last_of-append xs (y ∷ ys) b e))

-- The ends where n is put in just before x or just behind it, by the tests that insert_at makes.
pub first_of-insert :
    (n x : ℕ) (us vs : List ℕ)
    → Distinct (us ++ x ∷ vs)
    → (if points_to (first_of (us ++ x ∷ vs)) x then some n else first_of (us ++ x ∷ vs))
      ≡ first_of (us ++ n ∷ x ∷ vs)
unfolding points_to
first_of-insert n x [] vs d = let same : (x == x) ≡ true = ground arith in rw same refl
first_of-insert n x (u ∷ us) vs (h, d) =
    let other : (x == u) ≡ false = ground (arith, (Absent-right u us (x ∷ vs) h).0) in rw other refl

pub first_of-keep :
    (n x : ℕ) (us vs ws : List ℕ)
    → first_of ((us ++ (vs ++ x ∷ [])) ++ ws) ≡ first_of ((us ++ (vs ++ x ∷ [])) ++ n ∷ ws)
first_of-keep n x [] [] ws = refl
first_of-keep n x [] (v ∷ vs) ws = refl
first_of-keep n x (u ∷ us) vs ws = refl

pub last_of-insert :
    (n x : ℕ) (us vs : List ℕ)
    → last_of us ≡ some x
    → Distinct (us ++ vs)
    → (if points_to (last_of (us ++ vs)) x then some n else last_of (us ++ vs))
      ≡ last_of (us ++ n ∷ vs)
unfolding points_to
last_of-insert n x us [] e d =
    let same : (x == x) ≡ true = ground arith in
    rw (ap last_of (append-nil us) ∙ e, same) (sym (last_of-append us (n ∷ []) n refl))
last_of-insert n x us (v ∷ vs) e d =
    let (b, f) = last_of-some v vs in
    let other : (x == b) ≡ false =
      ground (arith, Absent-last_of b x us (Distinct-last_of us (v ∷ vs) b d f) e) in
    rw (last_of-append us (v ∷ vs) b f, other) (sym (last_of-append us (n ∷ v ∷ vs) b f))

pub length_zero : (xs : List ℕ) → length xs ≡ 0 → xs ≡ []
length_zero [] h = refl
length_zero (x ∷ xs) h = absurd (omega (arith, h))
