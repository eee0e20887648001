-- ===== src/RbTree/Dict/Erase.antt =====
-- erase by key, contains and count of rb_tree_map in
-- libraries/libglox/include/glox/intrusive_rb_tree.hpp.
use gloxor.Base.{
  ℕ, ◌+◌, ◌-◌, ◌<◌, ◌≡◌, refl, sym, ap, ◌∙◌, List, [], ◌∷◌, ◌++◌, Option, none, some, Bool, false,
  not, ◌==◌, if◌then◌else◌, Bool-cases, inl, inr, length, length-append, arith,
}
use mathlib.Core.List.{append_assoc, append-nil}
use mathlib.Core.Path.{subst}
use gloxor.RbTree.{is_red, Tree, leaf, node, plug}
use gloxor.RbTree.Shape.{inorder, before, after, Valid}
use gloxor.RbTree.Search.{
  Position, at_end, at_node, bound_node, lower_bound_node, if_equivalent, find_node, Splits,
  bound_node-first,
}
use gloxor.RbTree.Dict.{
  RbTreeMap, entry, second, less, more, find, at, unlink_entry, erase_found, erase, contains, found,
}
use gloxor.RbTree.Dict.Sorted.{
  Order, Sorted, Sorted-right, lookup, Sorted-delete, Sorted-lower, lookup-skip, Every-less-before,
  lookup-above, lookup-insert,
}
use gloxor.RbTree.Unlink.{unlink-Rebuilt}
use gloxor.RbTree.Dict.Laws.{InOrder, same, inorder-at, at-lookup, found-lookup, Every-less-from}

short : {A : Type 0} (xs : List A) → length xs ≡ 0 → xs ≡ []
short [] e = refl
short (x ∷ xs) e = absurd (omega (arith, e))

module _ {K V : Type 0} (comp : K → K → Bool) (o : Order comp) where
  -- What a lookup position says of a key: not there, or its node.
  Located : RbTreeMap K V → K → Position (K × V) → Type 0
  Located m key at_end = at comp key m ≡ none
  Located m key (at_node c l (k, w) r p) =
      (k ≡ key) × (plug (node c l (k, w) r) p ≡ m.root) × (at comp key m ≡ some w)

  if_equivalent-Located :
      (m : RbTreeMap K V) (key : K) (q : Position (K × V))
      → InOrder comp m
      → Splits (λ e. not (less comp key e)) m.root q
      → Located m key (if_equivalent (more comp key) q)
  unfolding if_equivalent Located less more second entry
  if_equivalent-Located m key at_end i e =
      at-lookup comp o m key i.sorted
      ∙ ap (λ l. lookup comp key l) (sym (append-nil (inorder m.root)))
      ∙ lookup-skip comp o (inorder m.root) [] key (Every-less-from comp o (inorder m.root) key e)
  if_equivalent-Located m key (at_node c l (k, w) r p) i (e, b, h, a) =
      let q : Position (K × V) = at_node c l (k, w) r p in
      let value =
        at-lookup comp o m key i.sorted
        ∙ sym (found-lookup comp o m.root key q i.sorted (e, b, h, a)) in
      elim (Bool-cases (comp key k)) [
        | inl g ↦ rw g (value ∙ rw (g, if_equivalent) refl)
        | inr g ↦ rw g (o.total k key (ground arith) g, e, value ∙ rw (g, if_equivalent) refl)
      ]

  find-Located : (m : RbTreeMap K V) (key : K) → InOrder comp m → Located m key (find comp key m)
  unfolding find find_node lower_bound_node
  find-Located m key i =
      if_equivalent-Located m key (bound_node (λ e. not (less comp key e)) m.root [] at_end) i (
        bound_node-first (λ e. not (less comp key e)) m.root
          (Sorted-lower comp o m.root key i.sorted))

  -- The reset of the sentinel loses nothing.
  reset_lem :
      (t : Tree (K × V)) (size : ℕ)
      → Valid t
      → length (inorder t) ≡ size - 1
      → 0 < size
      → let u : Tree (K × V) = if size == 1 then leaf else t in Valid u × (inorder u ≡ inorder t)
  unfolding is_red
  reset_lem t size v e pos = elim (Bool-cases (size == 1)) [
    | inl q ↦ rw q ((refl, tt), sym (short (inorder t) (ground arith)))
    | inr q ↦ rw q (v, refl)
  ]

  -- Without the entry of a key the key is gone.
  lookup-gone :
      (xs ys : List (K × V)) (k : K) (w : V)
      → Sorted comp (xs ++ ((k, w) ∷ ys))
      → lookup comp k (xs ++ ys) ≡ none
  lookup-gone xs ys k w s =
      lookup-skip comp o xs ys k (Every-less-before comp o xs k w ys s)
      ∙ lookup-above comp o ys k (Sorted-right comp xs ((k, w) ∷ ys) s).0

  lookup-delete :
      (xs ys : List (K × V)) (k key : K) (w : V)
      → Sorted comp (xs ++ ((k, w) ∷ ys))
      → lookup comp key (xs ++ ys)
        ≡ (if same comp k key then none else lookup comp key (xs ++ ((k, w) ∷ ys)))
  lookup-delete xs ys k key w s =
      rw (lookup-insert comp o xs ys k key w s) (elim (Bool-cases (comp k key)) [
        | inl h ↦ rw h refl
        | inr h ↦ elim (Bool-cases (comp key k)) [
          | inl g ↦ rw (h, g) refl
          | inr g ↦
              rw (h, g)
                (ap (λ a. lookup comp a (xs ++ ys)) (sym (o.total k key h g))
                  ∙ lookup-gone xs ys k w s)
        ]
      ])

  -- What erase of a key leaves.
  pub Erased : RbTreeMap K V → K → Option (RbTreeMap K V × ℕ) → Bool → Type 0
  Erased m key result there =
      (n : RbTreeMap K V) × (result ≡ some (n, if there then 1 else 0))
      × InOrder comp n
      × (n.tree_size + (if there then 1 else 0) ≡ m.tree_size)
      × ((k : K) → at comp k n ≡ (if same comp key k then none else at comp k m))

  erase_found-Erased :
      (m : RbTreeMap K V) (key : K) (q : Position (K × V))
      → InOrder comp m
      → Located m key q
      → Erased m key (erase_found m q) (found q)
  unfolding erase_found Located Erased found
  erase_found-Erased m key at_end i e = (
    m,
    refl,
    i,
    omega arith,
    λ k. elim (Bool-cases (same comp key k)) [
      | inl q ↦
          let same_key = o.total key k (ground arith) (ground arith) in
          rw q (ap (λ a. at comp a m) (sym same_key) ∙ e)
      | inr q ↦ rw q refl
    ],
  )
  erase_found-Erased m key (at_node c l (k, w) r p) i (same_key, e, v) =
      let (t, ok, io, valid) = unlink-Rebuilt c l (k, w) r p (rw e i.valid) in
      let xs = before p ++ inorder l in
      let ys = inorder r ++ after p in
      let old = inorder-at comp o m.root c l (k, w) r p e in
      let count_old = i.counted ∙ ap length old ∙ length-append xs ((k, w) ∷ ys) in
      let io' : inorder t ≡ xs ++ ys = io ∙ simp append_assoc in
      let (valid', same_entries) =
        reset_lem t m.tree_size valid (omega (arith, count_old, ap length io', length-append xs ys))
          (omega (arith, count_old)) in
      let n : RbTreeMap K V = record {
        root = if m.tree_size == 1 then leaf else t;
        tree_size = m.tree_size - 1;
      } in
      let s = subst (λ l. Sorted comp l) old i.sorted in
      let i' : InOrder comp n = record {
        valid = valid';
        sorted = rw (same_entries ∙ io') (Sorted-delete comp xs ys k w s);
        counted = omega (arith, count_old, ap length (same_entries ∙ io'), length-append xs ys);
      } in
      let some_size : (m.tree_size == 0) ≡ false = ground (arith, count_old) in
      (
        n,
        rw (ok, some_size, erase_found, unlink_entry) refl,
        i',
        omega (arith, count_old),
        λ k'.
            at-lookup comp o n k' i'.sorted
            ∙ ap (λ l. lookup comp k' l) (same_entries ∙ io')
            ∙ lookup-delete xs ys k k' w s
            ∙ ap (λ a. if same comp a k' then none else lookup comp k' (xs ++ ((k, w) ∷ ys)))
                same_key
            ∙ ap (λ a. if same comp key k' then none else a)
                (sym (at-lookup comp o m k' i.sorted ∙ ap (λ l. lookup comp k' l) old)),
      )

  -- erase by key of a map in order ends without a null pointer or a failed assertion: it gives
  -- back 1 where contains(key) holds and 0 where not, the size shrinks by that, the map stays in order,
  -- the key is not found any more, and any other key finds what it found before.
  pub erase-Erased :
      (m : RbTreeMap K V) (key : K)
      → InOrder comp m
      → Erased m key (erase comp m key) (contains comp key m)
  unfolding erase contains
  erase-Erased m key i = erase_found-Erased m key (find comp key m) i (find-Located m key i)
