-- ===== src/RbTree/Dict/Emplace.antt =====
-- try_emplace of rb_tree_map in libraries/libglox/include/glox/intrusive_rb_tree.hpp.
use gloxor.Base.{
  ◌+◌, ◌≡◌, refl, sym, ap, ◌∙◌, [], ◌∷◌, ◌++◌, ◌⊎◌, Option, none, some, Bool, true, false,
  if◌then◌else◌, Bool-cases, inl, inr, length, length-append, arith,
}
use mathlib.Core.Path.{subst}
use gloxor.RbTree.{Color, Tree, leaf, node, Ancestors, plug}
use gloxor.RbTree.Shape.{inorder, before, after, inorder-plug}
use gloxor.RbTree.Insert.{link_node-Rebuilt}
use gloxor.RbTree.Search.{
  InsertPos, vacant, existing, find_insert_pos, Every, Placed, find_insert_pos-Placed,
}
use gloxor.RbTree.Dict.{
  InsertResult, success, key_exists, alloc_error, RbTreeMap, link_entry, less, more, at, emplace_at,
  try_emplace,
}
use gloxor.RbTree.Dict.Sorted.{
  Order, Sorted, lookup, Sorted-insert, Sorted-Rising, Sorted-Falling, lookup-skip, lookup-above,
  lookup-insert,
}
use gloxor.RbTree.Dict.Laws.{InOrder, same, inorder-at, at-lookup}

pub if-same :
    {K A : Type 0} (comp : K → K → Bool) (k key : K) (a b : A)
    → (if comp k key then a else (if comp key k then a else b)) ≡ (if same comp k key then b else a)
if-same comp k key a b = elim (Bool-cases (comp k key)) [
  | inl h ↦ rw h refl
  | inr h ↦ elim (Bool-cases (comp key k)) [ inl g ↦ rw (h, g) refl | inr g ↦ rw (h, g) refl ]
]

module _ {K V : Type 0} (comp : K → K → Bool) (o : Order comp) where
  -- A new entry at a null link of a map in order.
  link_entry-InOrder :
      (m : RbTreeMap K V) (key : K) (v : V) (p : Ancestors (K × V))
      → InOrder comp m
      → plug leaf p ≡ m.root
      → Every (less comp key) true (before p)
      → Every (more comp key) true (after p)
      → (n : RbTreeMap K V) × (link_entry m (key, v) p ≡ some n)
        × InOrder comp n
        × (n.tree_size ≡ m.tree_size + 1)
        × (inorder n.root ≡ before p ++ ((key, v) ∷ after p))
  unfolding link_entry
  link_entry-InOrder m key v p i e b a =
      let (t, ok, io, valid) = link_node-Rebuilt (key, v) p (rw e i.valid) in
      let parts : inorder m.root ≡ before p ++ after p = ap inorder (sym e) ∙ inorder-plug leaf p in
      let n : RbTreeMap K V = record { root = t; tree_size = m.tree_size + 1 } in
      (
        n,
        rw (ok, link_entry) refl,
        record {
          valid = valid;
          sorted = rw io (
              Sorted-insert comp (before p) (after p) key v
                (subst (λ l. Sorted comp l) parts i.sorted) b a);
          counted = rw io (
              omega (
                arith,
                i.counted,
                ap length parts,
                length-append (before p) (after p),
                length-append (before p) ((key, v) ∷ after p),
              ));
        },
        refl,
        io,
      )

  -- The key of a node that compares equal is found there.
  pub at-existing :
      (m : RbTreeMap K V) (key : K) (c : Color) (l : Tree (K × V)) (k : K) (w : V)
      (r : Tree (K × V)) (p : Ancestors (K × V))
      → Sorted comp (inorder m.root)
      → plug (node c l (k, w) r) p ≡ m.root
      → comp k key ≡ false
      → comp key k ≡ false
      → at comp key m ≡ some w
  at-existing m key c l k w r p s e h g =
      let i = inorder-at comp o m.root c l (k, w) r p e in
      at-lookup comp o m key s
      ∙ ap (λ xs. lookup comp key xs) i
      ∙ lookup-insert comp o (before p ++ inorder l) (inorder r ++ after p) k key w
          (subst (λ xs. Sorted comp xs) i s)
      ∙ rw (h, g) refl

  -- A key with a null link for it is not found.
  pub at-vacant :
      (m : RbTreeMap K V) (key : K) (p : Ancestors (K × V))
      → Sorted comp (inorder m.root)
      → plug leaf p ≡ m.root
      → Every (less comp key) true (before p)
      → Every (more comp key) true (after p)
      → at comp key m ≡ none
  at-vacant m key p s e b a =
      at-lookup comp o m key s
      ∙ ap (λ xs. lookup comp key xs) (ap inorder (sym e) ∙ inorder-plug leaf p)
      ∙ lookup-skip comp o (before p) (after p) key b
      ∙ lookup-above comp o (after p) key a

  -- What try_emplace may leave: the entry that is there, a failed allocation, or a new entry.
  pub Emplaced :
      RbTreeMap K V → K → V → Bool → Option (RbTreeMap K V × Option (K × V) × InsertResult) → Type 0
  Emplaced m key v memory result =
      ((w : V) × (at comp key m ≡ some w) × (result ≡ some (m, some (key, w), key_exists)))
      ⊎ ((at comp key m ≡ none) × (memory ≡ false) × (result ≡ some (m, none, alloc_error)))
      ⊎ ((at comp key m ≡ none)
          × (memory ≡ true)
          × (n : RbTreeMap K V) × (result ≡ some (n, some (key, v), success))
          × InOrder comp n
          × (n.tree_size ≡ m.tree_size + 1)
          × ((k : K) → at comp k n ≡ (if same comp key k then some v else at comp k m)))

  -- The branch that inserts.
  pub emplace_new :
      (m : RbTreeMap K V) (key : K) (v : V) (p : Ancestors (K × V))
      → InOrder comp m
      → Placed (less comp key) (more comp key) m.root (vacant p)
      → (n : RbTreeMap K V) × (emplace_at comp m key v true (vacant p)
          ≡ some (n, some (key, v), success))
        × InOrder comp n
        × (n.tree_size ≡ m.tree_size + 1)
        × ((k : K) → at comp k n ≡ (if same comp key k then some v else at comp k m))
  unfolding emplace_at
  emplace_new m key v p i (e, b, a) =
      let (n, ok, i', size, io) = link_entry-InOrder m key v p i e b a in
      let parts : inorder m.root ≡ before p ++ after p = ap inorder (sym e) ∙ inorder-plug leaf p in
      (
        n,
        rw (ok, emplace_at) refl,
        i',
        size,
        λ k.
            at-lookup comp o n k i'.sorted
            ∙ ap (λ xs. lookup comp k xs) io
            ∙ lookup-insert comp o (before p) (after p) key k v
                (subst (λ xs. Sorted comp xs) io i'.sorted)
            ∙ if-same comp key k (lookup comp k (before p ++ after p)) (some v)
            ∙ ap (λ a. if same comp key k then some v else a)
                (sym (at-lookup comp o m k i.sorted ∙ ap (λ xs. lookup comp k xs) parts)),
      )

  emplace_at-Emplaced :
      (m : RbTreeMap K V) (key : K) (v : V) (memory : Bool) (q : InsertPos (K × V))
      → InOrder comp m
      → Placed (less comp key) (more comp key) m.root q
      → Emplaced m key v memory (emplace_at comp m key v memory q)
  unfolding emplace_at Emplaced less more
  emplace_at-Emplaced m key v memory (existing c l (k, w) r p) i (e, h, g) = inl (
    w,
    at-existing m key c l k w r p i.sorted e h g,
    ap (λ a. some (m, some (a, w), key_exists)) (o.total k key h g),
  )
  emplace_at-Emplaced m key v false (vacant p) i (e, b, a) =
      inr (inl (at-vacant m key p i.sorted e b a, refl, refl))
  emplace_at-Emplaced m key v true (vacant p) i (e, b, a) =
      let (n, ok, i', size, found) = emplace_new m key v p i (e, b, a) in
      inr (inr (at-vacant m key p i.sorted e b a, refl, n, ok, i', size, found))

  pub placed :
      (m : RbTreeMap K V) (key : K)
      → InOrder comp m
      → Placed
          (less comp key)
          (more comp key)
          m.root
          (find_insert_pos (less comp key) (more comp key) m.root [])
  placed m key i =
      find_insert_pos-Placed (less comp key) (more comp key) m.root
        (Sorted-Falling comp o m.root key i.sorted) (Sorted-Rising comp o m.root key i.sorted)

  -- try_emplace of a map in order ends without a null pointer. A key that is there keeps its value and
  -- the result is key_exists; where the allocation fails the map is as it was and the result is
  -- alloc_error; else the map, still in order, has one more entry, and a lookup of the key finds the
  -- new value and of any other key what it found before.
  pub try_emplace-Emplaced :
      (m : RbTreeMap K V) (key : K) (v : V) (memory : Bool)
      → InOrder comp m
      → Emplaced m key v memory (try_emplace comp m key v memory)
  unfolding try_emplace
  try_emplace-Emplaced m key v memory i =
      emplace_at-Emplaced m key v memory (find_insert_pos (less comp key) (more comp key) m.root [])
        i (placed m key i)
