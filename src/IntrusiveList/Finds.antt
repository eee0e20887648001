-- ===== src/IntrusiveList/Finds.antt =====
-- Loops that look for the first node that passes a test, and what is done at the place it stands.
use gloxor.Base.{
  ℕ, ◌<◌, ◌≡◌, refl, sym, ap, List, [], ◌∷◌, ◌++◌, length, ◌⊎◌, inl, inr, Bool, true, false,
  if◌then◌else◌, some, Bool-cases,
}
use mathlib.Core.Path.{subst}
use gloxor.IntrusiveList.{IntrusiveList, Links, begin, end, find_if, insert, push_back}
use gloxor.IntrusiveList.Chain.{Fresh, Circle, Represents}
use gloxor.IntrusiveList.Splice.{insert-Represents, push_back-Represents}
use gloxor.IntrusiveList.Walk.{first_or, find_if-Nexts, Seg-Nexts}

-- A node put before the first that passes a test, or at the end.
unfoldable pub put_before : (ℕ → Bool) → ℕ → List ℕ → List ℕ
put_before fn n [] = n ∷ []
put_before fn n (x ∷ xs) = if fn x then n ∷ x ∷ xs else x ∷ put_before fn n xs

-- The first node that passes taken out.
unfoldable pub drop_first : (ℕ → Bool) → List ℕ → List ℕ
drop_first fn [] = []
drop_first fn (x ∷ xs) = if fn x then xs else x ∷ drop_first fn xs

unfoldable pub any : (ℕ → Bool) → List ℕ → Bool
any fn [] = false
any fn (x ∷ xs) = if fn x then true else any fn xs

-- Either no node passes, or the list is cut at the first that does.
pub record Found (fn : ℕ → Bool) (n d y : ℕ) (xs left right : List ℕ) : Type 0 where
  pub cut : xs ≡ left ++ y ∷ right
  pub first : first_or fn xs d ≡ y
  pub here : first_or fn xs 0 ≡ y
  pub put : put_before fn n xs ≡ left ++ n ∷ y ∷ right
  pub dropped : drop_first fn xs ≡ left ++ right
  pub passes : fn y ≡ true
  pub some_hit : any fn xs ≡ true

pub record Missed (fn : ℕ → Bool) (n d : ℕ) (xs : List ℕ) : Type 0 where
  pub first : first_or fn xs d ≡ d
  pub put : put_before fn n xs ≡ xs ++ n ∷ []
  pub dropped : drop_first fn xs ≡ xs
  pub no_hit : any fn xs ≡ false

pub find_cases :
    (fn : ℕ → Bool) (n d : ℕ) (xs : List ℕ)
    → Missed fn n d xs
      ⊎ ((y : ℕ) × (left : List ℕ) × (right : List ℕ) × Found fn n d y xs left right)
unfolding first_or put_before drop_first any
find_cases fn n d [] = inl (record { first = refl; put = refl; dropped = refl; no_hit = refl })
find_cases fn n d (x ∷ xs) = elim (Bool-cases (fn x)) [
  | inl hit ↦ inr (
    x,
    [],
    xs,
    record {
      cut = refl;
      first = rw (hit, first_or) refl;
      here = rw (hit, first_or) refl;
      put = rw (hit, put_before) refl;
      dropped = rw (hit, drop_first) refl;
      passes = hit;
      some_hit = rw (hit, any) refl;
    },
  )
  | inr miss ↦ elim (find_cases fn n d xs) [
    | inl miss_all ↦ inl (record {
      first = rw (miss, first_or) miss_all.first;
      put = rw (miss, put_before) (ap (λ l. x ∷ l) miss_all.put);
      dropped = rw (miss, drop_first) (ap (λ l. x ∷ l) miss_all.dropped);
      no_hit = rw (miss, any) miss_all.no_hit;
    })
    | inr (y, left, right, f) ↦ inr (
      y,
      x ∷ left,
      right,
      record {
        cut = ap (λ l. x ∷ l) f.cut;
        first = rw (miss, first_or) f.first;
        here = rw (miss, first_or) f.here;
        put = rw (miss, put_before) (ap (λ l. x ∷ l) f.put);
        dropped = rw (miss, drop_first) (ap (λ l. x ∷ l) f.dropped);
        passes = f.passes;
        some_hit = rw (miss, any) f.some_hit;
      },
    )
  ]
]

pub found-begin :
    (fuel : ℕ) (fn : ℕ → Bool) (l : IntrusiveList) (m : Links) (xs : List ℕ)
    → Circle l.sentinel m xs
    → length xs < fuel
    → find_if fuel fn (begin l m) (end l) m ≡ some (first_or fn xs l.sentinel)
unfolding begin end
found-begin fuel fn l m xs c h =
    let s = l.sentinel in find_if-Nexts fuel s s fn m xs (Seg-Nexts m s s xs c.0) c.1.0 h

pub put_before-Represents :
    (fn : ℕ → Bool) (n : ℕ) (l : IntrusiveList) (m : Links) (xs : List ℕ)
    → Represents l m xs
    → Fresh n (l.sentinel ∷ xs)
    → let r : ℕ × IntrusiveList × Links = insert (first_or fn xs l.sentinel) n l m in
      Represents r.1 r.2 (put_before fn n xs)
unfolding insert push_back
put_before-Represents fn n l m xs r f =
    let at : ℕ → List ℕ → Type 0 = λ y ys. Represents (insert y n l m).1 (insert y n l m).2 ys in
    elim (find_cases fn n l.sentinel xs) [
      | inl miss_all ↦
          subst (λ y. at y (put_before fn n xs)) (sym miss_all.first)
            (subst (at l.sentinel) (sym miss_all.put) (push_back-Represents n l m xs r f))
      | inr (y, left, right, hit) ↦
          let r' : Represents l m (left ++ y ∷ right) = subst (Represents l m) hit.cut r in
          let f' : Fresh n (l.sentinel ∷ (left ++ y ∷ right)) =
            subst (λ ys. Fresh n (l.sentinel ∷ ys)) hit.cut f in
          subst (λ y. at y (put_before fn n xs)) (sym hit.first)
            (subst (at y) (sym hit.put) (insert-Represents n y l m left right r' f'))
    ]
