-- ===== src/RbTree/Dict/Assign.antt =====
-- insert_or_assign of rb_tree_map in libraries/libglox/include/glox/intrusive_rb_tree.hpp.
use gloxor.Base.{
  ◌≡◌, refl, sym, ap, ◌∙◌, [], ◌∷◌, ◌++◌, ◌⊎◌, Option, none, some, Bool, true, false, if◌then◌else◌,
  Bool-cases, inl, inr, length, length-append,
}
use mathlib.Core.Path.{subst}
use gloxor.RbTree.{Color, red, black, is_red, Tree, node, Ancestors, plug}
use gloxor.RbTree.Shape.{inorder, before, after, Valid, Valid-plug, plug-Valid}
use gloxor.RbTree.Search.{InsertPos, vacant, existing, find_insert_pos, Placed}
use gloxor.RbTree.Dict.{
  InsertResult, success, key_exists, alloc_error, RbTreeMap, less, more, at, emplace_at,
}
use gloxor.RbTree.Dict.Sorted.{Order, Sorted, lookup, lookup-insert}
use gloxor.RbTree.Dict.{assign_at, insert_or_assign}
use gloxor.RbTree.Dict.Sorted.{Sorted-update}
use gloxor.RbTree.Dict.Laws.{InOrder, same, inorder-at, at-lookup}
use gloxor.RbTree.Dict.Emplace.{if-same, at-vacant, emplace_new, placed}

module _ {K V : Type 0} (comp : K → K → Bool) (o : Order comp) where
  -- What insert_or_assign may leave.
  pub Assigned :
      RbTreeMap K V → K → V → Bool → Option (RbTreeMap K V × Option (K × V) × InsertResult) → Type 0
  Assigned m key v memory result =
      ((at comp key m ≡ none) × (memory ≡ false) × (result ≡ some (m, none, alloc_error)))
      ⊎ ((n : RbTreeMap K V) × (r : InsertResult) × (result ≡ some (n, some (key, v), r))
          × InOrder comp n
          × ((k : K) → at comp k n ≡ (if same comp key k then some v else at comp k m)))

  Valid-item :
      (c : Color) (l : Tree (K × V)) (x y : K × V) (r : Tree (K × V)) (p : Ancestors (K × V))
      → Valid (plug (node c l x r) p)
      → Valid (plug (node c l y r) p)
  unfolding is_red
  Valid-item red l x y r p v =
      let (e, f) = Valid-plug (node red l x r) p v in plug-Valid (node red l y r) p e f
  Valid-item black l x y r p v =
      let (e, f) = Valid-plug (node black l x r) p v in plug-Valid (node black l y r) p e f

  -- A new value under a key that is there.
  assign_old :
      (m : RbTreeMap K V) (key : K) (v : V) (c : Color) (l : Tree (K × V)) (w : V)
      (r : Tree (K × V)) (p : Ancestors (K × V))
      → InOrder comp m
      → plug (node c l (key, w) r) p ≡ m.root
      → let n : RbTreeMap K V = record {
        root = plug (node c l (key, v) r) p;
        tree_size = m.tree_size;
      } in
        InOrder comp n × ((k : K) → at comp k n ≡ (if same comp key k then some v else at comp k m))
  assign_old m key v c l w r p i e =
      let xs = before p ++ inorder l in
      let ys = inorder r ++ after p in
      let n : RbTreeMap K V = record {
        root = plug (node c l (key, v) r) p;
        tree_size = m.tree_size;
      } in
      let io = inorder-at comp o m.root c l (key, w) r p e in
      let io' = inorder-at comp o n.root c l (key, v) r p refl in
      let s = subst (λ l. Sorted comp l) io i.sorted in
      let s' = Sorted-update comp xs ys key w v s in
      let i' : InOrder comp n = record {
        valid = Valid-item c l (key, w) (key, v) r p (rw e i.valid);
        sorted = rw io' s';
        counted =
            i.counted
            ∙ ap length io
            ∙ (length-append xs ((key, w) ∷ ys) ∙ sym (length-append xs ((key, v) ∷ ys)))
            ∙ sym (ap length io');
      } in
      let old : (k : K)
          → at comp k m ≡ (if same comp key k then some w else lookup comp k (xs ++ ys)) =
        λ k.
          at-lookup comp o m k i.sorted
          ∙ ap (λ l. lookup comp k l) io
          ∙ lookup-insert comp o xs ys key k w s
          ∙ if-same comp key k (lookup comp k (xs ++ ys)) (some w) in
      let kept : (k : K)
          → (if same comp key k then some v else lookup comp k (xs ++ ys))
            ≡ (if same comp key k then some v else at comp k m) =
        λ k.
          rw (old k)
            (elim (Bool-cases (same comp key k)) [ inl q ↦ rw q refl | inr q ↦ rw q refl ]) in
      (
        i',
        λ k.
            at-lookup comp o n k i'.sorted
            ∙ ap (λ xs. lookup comp k xs) io'
            ∙ lookup-insert comp o xs ys key k v s'
            ∙ if-same comp key k (lookup comp k (xs ++ ys)) (some v)
            ∙ kept k,
      )

  assign_at-Assigned :
      (m : RbTreeMap K V) (key : K) (v : V) (memory : Bool) (q : InsertPos (K × V))
      → InOrder comp m
      → Placed (less comp key) (more comp key) m.root q
      → Assigned m key v memory (assign_at comp m key v memory q)
  unfolding assign_at Assigned less more emplace_at
  assign_at-Assigned m key v memory (existing c l (k, w) r p) i (e, h, g) =
      let same_key = o.total k key h g in
      let (i', found) = assign_old m key v c l w r p i (rw (sym same_key) e) in
      inr (
        record { root = plug (node c l (key, v) r) p; tree_size = m.tree_size },
        key_exists,
        ap
            (λ a. some (
              record { root = plug (node c l (a, v) r) p; tree_size = m.tree_size },
              some (a, v),
              key_exists,
            ))
            same_key,
        i',
        found,
      )
  assign_at-Assigned m key v false (vacant p) i (e, b, a) =
      inl (at-vacant comp o m key p i.sorted e b a, refl, refl)
  assign_at-Assigned m key v true (vacant p) i pl =
      let (n, ok, i', size, found) = emplace_new comp o m key v p i pl in
      inr (n, success, ok, i', found)

  -- insert_or_assign of a map in order ends without a null pointer: the map, still in order, finds the
  -- new value under the key and what it found before under any other; only where the key is absent
  -- and the allocation fails is the map as it was, with the result alloc_error.
  pub insert_or_assign-Assigned :
      (m : RbTreeMap K V) (key : K) (v : V) (memory : Bool)
      → InOrder comp m
      → Assigned m key v memory (insert_or_assign comp m key v memory)
  unfolding insert_or_assign
  insert_or_assign-Assigned m key v memory i =
      assign_at-Assigned m key v memory (find_insert_pos (less comp key) (more comp key) m.root [])
        i (placed comp o m key i)
