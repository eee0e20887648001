-- ===== src/Vector/Positions.antt =====
-- Inserting and erasing at a position in vector.hpp.
use gloxor.Base.{
  Bool-cases, Option-cases, inl, inr, ◌/◌, ℕ, zero, suc, ◌+◌, ◌-◌, ◌≤◌, ◌<◌, ◌≡◌, refl, ap, ◌∙◌,
  List, [], ◌∷◌, ◌++◌, some, true, false, ltb, ◌==◌, if◌then◌else◌, length, take, drop, arith,
  length-append, length-take, length-drop,
}
use gloxor.Vector.{
  Vector, Allocator, ensure_can_fit, realloc_buffer, emplace_back, pop_back, insert, erase,
}

module _ {A : Type 0} where
  take-append_length : (xs ys : List A) → take (length xs) (xs ++ ys) ≡ xs
  take-append_length [] ys = refl
  take-append_length (x ∷ xs) ys = ap (λ l. x ∷ l) (take-append_length xs ys)

  take-append_le : (i : ℕ) (xs ys : List A) → i ≤ length xs → take i (xs ++ ys) ≡ take i xs
  take-append_le zero xs ys le = refl
  take-append_le (suc i) [] ys le = absurd (omega arith)
  take-append_le (suc i) (x ∷ xs) ys le = ap (λ l. x ∷ l) (take-append_le i xs ys (omega arith))

  drop-append_le : (i : ℕ) (xs ys : List A) → i ≤ length xs → drop i (xs ++ ys) ≡ drop i xs ++ ys
  drop-append_le zero xs ys le = refl
  drop-append_le (suc i) [] ys le = absurd (omega arith)
  drop-append_le (suc i) (x ∷ xs) ys le = drop-append_le i xs ys (omega arith)

  -- `erase` at a position of the vector takes that element out and keeps the others in order.
  pub erase-at :
      (moved_from : A) (i : ℕ) (v : Vector A)
      → i < length v.items
      → erase moved_from i v ≡ some (record v { items = take i v.items ++ drop (i + 1) v.items })
  unfolding erase pop_back
  erase-at moved_from i v lt =
      let kept = take i v.items ++ drop (i + 1) v.items in
      let len : length (kept ++ moved_from ∷ []) ≡ length kept + 1 =
        length-append kept (moved_from ∷ []) in
      let less : length kept + 1 - 1 ≡ length kept = omega arith in
      let some_item : ltb 0 (length kept + 1) ≡ true = ground arith in
      rw (len, some_item, less, take-append_length kept (moved_from ∷ [])) refl

  -- What `emplace_back` returns says whether it appended.
  emplace_back-items :
      (alloc : Allocator) (a : A) (v : Vector A)
      → (emplace_back alloc a v).1.items
        ≡ (if (emplace_back alloc a v).0 then v.items ++ a ∷ [] else v.items)
  unfolding emplace_back ensure_can_fit
  emplace_back-items alloc a v = elim (Bool-cases (ltb v.cap (length v.items + 1))) [
    | inl full ↦
        let news = if ltb v.cap 4 then 4 else v.cap + v.cap / 2 in
        elim (Option-cases (realloc_buffer alloc v v.cap news)) [
          | inl refused ↦ rw (full, refused) refl
          | inr (count, given) ↦ rw (full, given) refl
        ]
    | inr room ↦ rw room refl
  ]

  module _ (alloc : Allocator) (default : A) (i : ℕ) (a : A) (v : Vector A)
      (lt : i < length v.items) where
    inside : (i == length v.items) ≡ false
    inside = ground arith

    -- `insert` at a position of the vector, when appending the default element works: the new
    -- element stands at the position, and the others keep their order.
    pub insert-at :
        (emplace_back alloc default v).0 ≡ true
        → (insert alloc default i a v).items ≡ take i v.items ++ a ∷ drop i v.items
    unfolding insert
    insert-at works =
        let out : (emplace_back alloc default v).1.items ≡ v.items ++ default ∷ [] =
          emplace_back-items alloc default v ∙ rw works refl in
        let behind = drop-append_le i v.items (default ∷ []) (omega arith) in
        let len = length-append v.items (default ∷ []) in
        let rest : length v.items + 1 - 1 - i ≡ length (drop i v.items) =
          omega (arith, length-drop i v.items) in
        rw
          (
            insert,
            inside,
            out,
            len,
            take-append_le i v.items (default ∷ []) (omega arith),
            behind,
            rest,
            take-append_length (drop i v.items) (default ∷ []),
          )
          refl

    -- `insert` at a position of the vector, when appending fails: the length stays as it was
    -- although the new element is written, so one of the others is lost.
    pub insert-length :
        (emplace_back alloc default v).0 ≡ false
        → ((insert alloc default i a v).items
            ≡ take i v.items ++ a ∷ take (length v.items - 1 - i) (drop i v.items))
          × (length (insert alloc default i a v).items ≡ length v.items)
    unfolding insert
    insert-length fails =
        let out : (emplace_back alloc default v).1.items ≡ v.items =
          emplace_back-items alloc default v ∙ rw fails refl in
        rw (insert, inside, out)
          (
            refl,
            length-append (take i v.items) _
                ∙ omega (
                  arith,
                  length-take i v.items,
                  length-drop i v.items,
                  length-take (length v.items - 1 - i) (drop i v.items),
                ),
          )
