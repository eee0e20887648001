-- ===== src/Strings/Erases.antt =====
-- erase takes one character out and moves those behind it down.
use gloxor.Base.{
  ℕ, zero, suc, ◌+◌, ◌-◌, ◌%◌, ◌≤◌, ◌<◌, ◌≡◌, refl, ap, sym, ◌∙◌, List, [], ◌∷◌, ◌++◌, arith,
  length, take, drop, set, get_or, some, true, ltb, length-set,
}
use mathlib.Core.List.{append_assoc, append-nil}
use gloxor.Strings.{Repr, size, bytes, view, set_size, set_bytes, pop_back, move_down, erase}
use gloxor.Strings.Blocks.{take-set-suc}
use gloxor.Strings.Pushes.{IsValid}

drop-set : (n i c : ℕ) (d : List ℕ) → i < n → drop n (set d i c) ≡ drop n d
drop-set zero i c d h = absurd (omega arith)
drop-set (suc n) i c [] h = refl
drop-set (suc n) zero c (x ∷ d) h = refl
drop-set (suc n) (suc i) c (x ∷ d) h = drop-set n i c d (omega arith)

take-drop-suc :
    (n i : ℕ) (d : List ℕ)
    → i < length d
    → take (suc n) (drop i d) ≡ get_or d i 0 ∷ take n (drop (suc i) d)
take-drop-suc n i [] h = absurd (omega arith)
take-drop-suc n zero (x ∷ d) h = refl
take-drop-suc n (suc i) (x ∷ d) h = take-drop-suc n i d (omega arith)

-- The loop moves `n` bytes down by one.
move_down-take :
    (n i : ℕ) (d : List ℕ)
    → i + n < length d
    → take (i + n) (move_down n i d) ≡ take i d ++ take n (drop (suc i) d)
unfolding move_down
move_down-take zero i d h = let e : i + 0 ≡ i = omega arith in rw (e, append-nil) refl
move_down-take (suc n) i d h =
    let c = get_or d (i + 1) 0 in
    let d' = set d i c in
    let a : i + suc n ≡ i + 1 + n = omega arith in
    let b : i + 1 ≡ suc i = omega arith in
    let ih = move_down-take n (i + 1) d' (omega (arith, length-set {0} d i c)) in
    ap (λ k. take k (move_down n (i + 1) d')) a
    ∙ ih
    ∙ ap (λ k. take k d' ++ take n (drop (suc k) d')) b
    ∙ ap (λ l. l ++ take n (drop (suc (suc i)) d')) (take-set-suc i c d (omega arith))
    ∙ append_assoc (take i d) (c ∷ []) (take n (drop (suc (suc i)) d'))
    ∙ ap (λ l. take i d ++ c ∷ take n l) (drop-set (suc (suc i)) i c d (omega arith))
    ∙ ap (λ k. take i d ++ get_or d k 0 ∷ take n (drop (suc (suc i)) d)) b
    ∙ ap (λ l. take i d ++ l) (sym (take-drop-suc n (suc i) d (omega arith)))

length-move_down : (n i : ℕ) (d : List ℕ) → length (move_down n i d) ≡ length d
unfolding move_down
length-move_down zero i d = refl
length-move_down (suc n) i d =
    length-move_down n (i + 1) (set d i (get_or d (i + 1) 0))
    ∙ length-set {0} d i (get_or d (i + 1) 0)

take-take : (i n : ℕ) (d : List ℕ) → i ≤ n → take i (take n d) ≡ take i d
take-take zero n d h = refl
take-take (suc i) zero d h = absurd (omega arith)
take-take (suc i) (suc n) [] h = refl
take-take (suc i) (suc n) (x ∷ d) h = ap (λ l. x ∷ l) (take-take i n d (omega arith))

drop-take : (i n m : ℕ) (d : List ℕ) → n ≡ i + m → drop i (take n d) ≡ take m (drop i d)
drop-take zero n m d e = let e' : n ≡ m = omega arith in rw e' refl
drop-take (suc i) zero m d e = absurd (omega arith)
drop-take (suc i) (suc n) zero [] e = refl
drop-take (suc i) (suc n) (suc m) [] e = refl
drop-take (suc i) (suc n) m (x ∷ d) e = drop-take i n m d (omega arith)

erased_text :
    (i n : ℕ) (d : List ℕ)
    → i < n
    → n ≤ length d
    → take (n - 1) (move_down (n - i - 1) i d) ≡ take i (take n d) ++ drop (suc i) (take n d)
erased_text i n d h g =
    let m = n - i - 1 in
    let e : n - 1 ≡ i + m = omega arith in
    ap (λ k. take k (move_down m i d)) e
    ∙ move_down-take m i d (omega arith)
    ∙ ap (λ l. l ++ take m (drop (suc i) d)) (sym (take-take i n d (omega arith)))
    ∙ ap (λ l. take i (take n d) ++ l) (sym (drop-take (suc i) n m d (omega arith)))

-- erase of a place in a string in order: the string stays in order, and has the characters before the
-- place and those behind it.
pub erase-view :
    (factor i : ℕ) (s : Repr)
    → IsValid factor s
    → i < size s
    → (s' : Repr) × (erase i s ≡ some s')
      × IsValid factor s'
      × (view s' ≡ take i (view s) ++ drop (suc i) (view s))
unfolding erase size bytes view set_bytes set_size pop_back
erase-view factor i (Repr.short n d) v h =
    let d' = move_down (n - i - 1) i d in
    let some_char : ltb 0 n ≡ true = ground (arith, h) in
    let seven : (n - 1) % 128 ≡ n - 1 = omega (arith, v) in
    (
      Repr.short ((n - 1) % 128) d',
      (rw some_char refl),
      (omega (arith, v), length-move_down (n - i - 1) i d ∙ v.1),
      ap (λ k. take k d') seven ∙ erased_text i n d h (omega (arith, v)),
    )
erase-view factor i (Repr.big k n d) v h =
    let d' = move_down (n - i - 1) i d in
    let some_char : ltb 0 n ≡ true = ground (arith, h) in
    (
      Repr.big k (n - 1) d',
      (rw some_char refl),
      (omega (arith, v), omega (arith, v, length-move_down (n - i - 1) i d), v.2),
      erased_text i n d h (omega (arith, v)),
    )
