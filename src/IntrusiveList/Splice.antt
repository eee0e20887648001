-- ===== src/IntrusiveList/Splice.antt =====
-- What insert_node and remove do to the circle of a list, and the operations of intrusive_list as those
-- of a sequence.
use gloxor.Base.{ℕ, ◌+◌, ◌≡◌, ◌≢◌, refl, sym, List, [], ◌∷◌, ◌++◌, length, arith, length-append}
use mathlib.Core.Path.{subst}
use mathlib.Core.List.{append-nil}
use gloxor.Algorithms.{write}
use gloxor.IntrusiveList.{
  Links, IntrusiveList, insert_node, remove, push_back, push_front, insert, erase, size,
}
use gloxor.IntrusiveList.Chain.{
  Fresh, Circle, Represents, last, Fresh-parts, Fresh-append, Distinct-middle, Distinct-insert,
  prev-Seg, ne-last, Fresh-last, Seg-split, Seg-join, Seg-relink, Seg-agree,
}

pub write-ne : (f : ℕ → ℕ) (p a q : ℕ) → q ≢ p → write f p a q ≡ f q
unfolding write
write-ne f p a q h = ground arith

pub write_self : (f : ℕ → ℕ) (p a : ℕ) → write f p a p ≡ a
unfolding write
write_self f p a = ground arith

-- insert_node before `y`, for a node that is neither of the chain nor its ends.
pub insert_node-links :
    (n y p : ℕ) (m : Links)
    → n ≢ y
    → m.prev y ≡ p
    → n ≢ p
    → ((i : ℕ) → i ≢ p → i ≢ n → (insert_node y n m).next i ≡ m.next i)
      × ((i : ℕ) → i ≢ y → i ≢ n → (insert_node y n m).prev i ≡ m.prev i)
      × ((insert_node y n m).next p ≡ n)
      × ((insert_node y n m).prev n ≡ p)
      × ((insert_node y n m).next n ≡ y)
      × ((insert_node y n m).prev y ≡ n)
unfolding insert_node write
insert_node-links n y p m hy e hp = (
  (λ i h k. ground arith),
  (λ i h k. ground arith),
  ground arith,
  ground arith,
  ground arith,
  ground arith,
)

pub remove-links :
    (y p q : ℕ) (m : Links)
    → m.prev y ≡ p
    → m.next y ≡ q
    → ((i : ℕ) → i ≢ p → (remove y m).next i ≡ m.next i)
      × ((i : ℕ) → i ≢ q → (remove y m).prev i ≡ m.prev i)
      × ((remove y m).next p ≡ q)
      × ((remove y m).prev q ≡ p)
unfolding remove write
remove-links y p q m e f =
    ((λ i h. ground arith), (λ i h. ground arith), ground arith, ground arith)

-- insert_node before a node of the list puts the new node there.
pub insert_node-Circle :
    (s n y : ℕ) (m : Links) (xs ys : List ℕ)
    → Circle s m (xs ++ y ∷ ys)
    → Fresh n (s ∷ (xs ++ y ∷ ys))
    → Circle s (insert_node y n m) (xs ++ n ∷ y ∷ ys)
insert_node-Circle s n y m xs ys (circle, d) f =
    let m' = insert_node y n m in
    let p = last s xs in
    let (left, right) = Seg-split m s y s xs ys circle in
    let (before, after, dl, dr, both) = Distinct-middle xs ys y d.1 in
    let (sl, sr) = Fresh-parts s xs (y ∷ ys) d.0 in
    let (nl, nr) = Fresh-parts n xs (y ∷ ys) f.1 in
    let (next, prev, e, g, e', g') =
      insert_node-links n y p m nr.0 (prev-Seg m s y xs left) (ne-last n s xs f.0 nl) in
    let left' = Seg-relink m m' s y n n xs next prev e g (sl, dl) (f.0, nl) before nl left in
    let right' =
      Seg-agree m m' y s p n y n ys next prev (Fresh-last s xs (y ∷ ys) d) nr
        ((λ h. sr.0 (sym h)), after) (f.0, nr.1) right in
    (
      Seg-join m' s n s xs (y ∷ ys) left' (e', g', right'),
      (
        Fresh-append s xs (n ∷ y ∷ ys) sl ((λ h. f.0 (sym h)), sr),
        Distinct-insert n xs (y ∷ ys) d.1 f.1,
      ),
    )

-- insert_node before the sentinel puts it at the end.
pub insert_node-sentinel :
    (s n : ℕ) (m : Links) (xs : List ℕ)
    → Circle s m xs
    → Fresh n (s ∷ xs)
    → Circle s (insert_node s n m) (xs ++ n ∷ [])
insert_node-sentinel s n m xs (circle, d) f =
    let m' = insert_node s n m in
    let (next, prev, e, g, e', g') =
      insert_node-links n s (last s xs) m f.0 (prev-Seg m s s xs circle) (ne-last n s xs f.0 f.1) in
    let left' = Seg-relink m m' s s n n xs next prev e g d f d.0 f.1 circle in
    (
      Seg-join m' s n s xs [] left' (e', g'),
      (
        Fresh-append s xs (n ∷ []) d.0 ((λ h. f.0 (sym h)), tt),
        Distinct-insert n xs [] (rw (append-nil xs) d.1) (rw (append-nil xs) f.1),
      ),
    )

-- remove takes a node out of the circle.
pub remove-Circle :
    (s y : ℕ) (m : Links) (xs ys : List ℕ)
    → Circle s m (xs ++ y ∷ ys)
    → Circle s (remove y m) (xs ++ ys)
remove-Circle s y m xs [] (circle, d) =
    let (left, right) = Seg-split m s y s xs [] circle in
    let (before, after, dl, dr, both) = Distinct-middle xs [] y d.1 in
    let (sl, sr) = Fresh-parts s xs (y ∷ []) d.0 in
    let (next, prev, e, g) = remove-links y (last s xs) s m (prev-Seg m s y xs left) right.0 in
    rw (append-nil xs) (
      Seg-relink m (remove y m) s y s y xs (λ i h k. next i h) (λ i h k. prev i k) e g (sl, dl)
          ((λ h. sr.0 (sym h)), before) before sl left,
      (sl, dl),
    )
remove-Circle s y m xs (z ∷ zs) (circle, d) =
    let m' = remove y m in
    let p = last s xs in
    let (left, right) = Seg-split m s y s xs (z ∷ zs) circle in
    let (before, after, dl, dr, both) = Distinct-middle xs (z ∷ zs) y d.1 in
    let (zl, zr, _, _, _) = Distinct-middle xs zs z both in
    let (sl, sr) = Fresh-parts s xs (y ∷ z ∷ zs) d.0 in
    let (next, prev, e, g) = remove-links y p z m (prev-Seg m s y xs left) right.0 in
    let left' =
      Seg-relink m m' s y z y xs (λ i h k. next i h) (λ i h k. prev i k) e g (sl, dl)
        ((λ h. sr.0 (sym h)), before) before zl left in
    let off : Fresh p (z ∷ zs) = (Fresh-last s xs (y ∷ z ∷ zs) d).1 in
    let here : Fresh z (s ∷ zs) = ((λ h. sr.1.0 (sym h)), zr) in
    let right' =
      Seg-agree m m' z s p p z z zs (λ i h k. next i h) (λ i h k. prev i h) off off here here
        right.2 in
    (Seg-join m' s z s xs zs left' right', (Fresh-append s xs (z ∷ zs) sl sr.1, both))

-- push_back adds the node at the end and counts it.
pub push_back-Represents :
    (n : ℕ) (l : IntrusiveList) (m : Links) (xs : List ℕ)
    → Represents l m xs
    → Fresh n (l.sentinel ∷ xs)
    → Represents (push_back n l m).0 (push_back n l m).1 (xs ++ n ∷ [])
unfolding push_back
push_back-Represents n l m xs r f = record {
  circle = insert_node-sentinel l.sentinel n m xs r.circle f;
  counted = omega (arith, r.counted, length-append {0} xs (n ∷ []));
}

-- push_front adds the node at the front and counts it.
pub push_front-Represents :
    (n : ℕ) (l : IntrusiveList) (m : Links) (xs : List ℕ)
    → Represents l m xs
    → Fresh n (l.sentinel ∷ xs)
    → Represents (push_front n l m).0 (push_front n l m).1 (n ∷ xs)
unfolding push_front
push_front-Represents n l m [] r f = record {
  circle =
      subst (λ a. Circle l.sentinel (insert_node a n m) (n ∷ [])) (sym r.circle.0.0)
        (insert_node-sentinel l.sentinel n m [] r.circle f);
  counted = omega (arith, r.counted);
}
push_front-Represents n l m (x ∷ xs) r f = record {
  circle =
      subst (λ a. Circle l.sentinel (insert_node a n m) (n ∷ x ∷ xs)) (sym r.circle.0.0)
        (insert_node-Circle l.sentinel n x m [] xs r.circle f);
  counted = omega (arith, r.counted);
}

-- insert before a node of the list adds the new node there and counts it.
pub insert-Represents :
    (n y : ℕ) (l : IntrusiveList) (m : Links) (xs ys : List ℕ)
    → Represents l m (xs ++ y ∷ ys)
    → Fresh n (l.sentinel ∷ (xs ++ y ∷ ys))
    → Represents (insert y n l m).1 (insert y n l m).2 (xs ++ n ∷ y ∷ ys)
unfolding insert
insert-Represents n y l m xs ys r f = record {
  circle = insert_node-Circle l.sentinel n y m xs ys r.circle f;
  counted =
      omega (arith, r.counted, length-append {0} xs (y ∷ ys), length-append {0} xs (n ∷ y ∷ ys));
}

-- erase of a node takes it out of the circle, but the count stays, so size() is one too large, and the
-- iterator that comes back is the node that was taken out.
pub erase-size :
    (y : ℕ) (l : IntrusiveList) (m : Links) (xs ys : List ℕ)
    → Represents l m (xs ++ y ∷ ys)
    → Circle l.sentinel (erase y l m).2 (xs ++ ys)
      × (size (erase y l m).1 ≡ length (xs ++ ys) + 1)
      × ((erase y l m).0 ≡ y)
unfolding erase size
erase-size y l m xs ys r = (
  remove-Circle l.sentinel y m xs ys r.circle,
  omega (arith, r.counted, length-append {0} xs (y ∷ ys), length-append {0} xs ys),
  refl,
)
