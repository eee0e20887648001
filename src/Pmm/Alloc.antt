-- ===== src/Pmm/Alloc.antt =====
-- `page_alloc` on a represented free list: first fit, with no fault, and a represented result.
use gloxor.Base.{
  ℕ, zero, suc, ◌+◌, ◌-◌, ◌*◌, ◌%◌, ◌^◌, ◌≤◌, ◌<◌, ◌≡◌, refl, inl, inr, [], ◌∷◌, arith, ltb, ◌==◌,
  if◌then◌else◌, Bool-cases, length, ◌≢◌, ◌∙◌, lt→ltb,
}
use gloxor.Pmm.{Ptr, null, Pmm, ok, chunk_size, update, unlink, carve, alloc_loop, page_alloc}
use gloxor.Pmm.Spec.{Ranges, Sorted, first_fit, first_fit-Sorted, last_base}
use gloxor.Pmm.Chain.{Chain, Chain-frame, IsValid, Returns, link, Kept}

-- The list after `prev` holds `ys`, and the rest is as in `s`.
pub record Rest (prev : Ptr) (xs ys : Ranges) (s s' : Pmm) : Type 0 where
  pub kept : Kept prev s s'
  pub chain : Chain s'.mem prev (link s' prev) ys
  pub last : s.back ≡ last_base prev xs → s'.back ≡ last_base prev ys

-- The two writes of the unlinking branch.
abbrev relink : Pmm → Ptr → Ptr → Pmm
relink s p q =
    if p == null
    then record s { front = q }
    else record s { mem = update s.mem p (record (s.mem p) { next = q }) }

abbrev reback : Pmm → Ptr → Ptr → Pmm
reback s p q =
    if q == null
    then record s { back = p }
    else record s { mem = update s.mem q (record (s.mem q) { prev = p }) }

unlink-ok :
    (s : Pmm) (a prev next : ℕ)
    → 0 < a
    → (s.mem a).prev ≡ prev
    → (s.mem a).next ≡ next
    → unlink a s ≡ ok (reback (relink s prev next) prev next)
unfolding unlink
unlink-ok s a prev next pos e f = ground arith

relink-Rest :
    (s : Pmm) (prev a n next : ℕ) (r : Ranges)
    → prev < a
    → 0 < n
    → Chain s.mem a next r
    → Sorted (a + n) r
    → Rest prev ((a, n) ∷ r) r s (reback (relink s prev next) prev next)
unfolding update
relink-Rest s prev a n next [] lt pos rest sorted = record {
  kept = record {
    below = ground arith;
    size = ground arith;
    back = ground arith;
    front = ground arith;
  };
  chain = ground arith;
  last = ground arith;
}
relink-Rest s prev a n next ((b, m) ∷ r) lt pos (e, size, back, rest) sorted = record {
  kept = record {
    below = ground arith;
    size = ground arith;
    back = ground arith;
    front = ground arith;
  };
  chain = (
    ground arith,
    ground arith,
    ground arith,
    rw stays (Chain-frame s.mem s'.mem (b + m) b _ r sorted.3 same rest),
  );
  last = ground arith;
}
  where
    s' : Pmm
    s' = reback (relink s prev next) prev next

    stays : (s'.mem b).next ≡ (s.mem b).next
    stays = ground arith

    same : (q : ℕ) → b + m < q → s'.mem q ≡ s.mem q
    same q h = ground arith

-- The state after the size has been written.
abbrev shrunk : Pmm → Ptr → ℕ → Pmm
shrunk s a v = record s { mem = update s.mem a (record (s.mem a) { size = v }) }

shrunk-Chain :
    (s : Pmm) (a n v : ℕ) (r : Ranges)
    → 0 < n
    → Sorted (a + n) r
    → Chain s.mem a (s.mem a).next r
    → Chain (shrunk s a v).mem a ((shrunk s a v).mem a).next r
unfolding update
shrunk-Chain s a n v r pos sorted rest =
    let stays : ((shrunk s a v).mem a).next ≡ (s.mem a).next = ground arith in
    rw stays (Chain-frame s.mem (shrunk s a v).mem (a + n) a _ r sorted (λ q h. ground arith) rest)

shrunk-Rest :
    (s s' : Pmm) (prev a v : ℕ) (xs ys : Ranges)
    → prev < a
    → Rest prev xs ys (shrunk s a v) s'
    → Rest prev xs ys s s'
unfolding update
shrunk-Rest s s' prev a v xs ys lt r = record {
  kept = record {
    below = λ q h. ground (arith, r.kept.below q h);
    size = ground (arith, r.kept.size);
    back = ground (arith, r.kept.back);
    front = r.kept.front;
  };
  chain = r.chain;
  last = r.last;
}

module _ (s : Pmm) (k prev a n : ℕ) (r : Ranges) (pos : 0 < k) (le : k ≤ n) (lt : prev < a)
    (top : a + n < 2 ^ 64) (c : Chain s.mem prev a ((a, n) ∷ r)) (sorted : Sorted (a + n) r) where
  pub carve_whole :
      n ≡ k → Returns (carve a k s) (λ (p, s'). (p ≡ a) × Rest prev ((a, n) ∷ r) r s s')
  unfolding carve
  carve_whole e =
      let next = (s.mem a).next in
      let s₁ = shrunk s a ((s.mem a).size - k) in
      let s' = reback (relink s₁ prev next) prev next in
      let pointers : ((s₁.mem a).prev ≡ prev) × ((s₁.mem a).next ≡ next) =
        unfold update in (ground arith) in
      let done = unlink-ok s₁ a prev next (omega arith) pointers.0 pointers.1 in
      let tail = shrunk-Chain s a n ((s.mem a).size - k) r (omega arith) sorted c.3 in
      (
        (a, s'),
        ground (arith, done),
        (
          refl,
          shrunk-Rest s s' prev a ((s.mem a).size - k) _ _ lt
              (relink-Rest s₁ prev a n next r lt (omega arith) (rw pointers.1 at tail) sorted),
        ),
      )

  carve_part :
      n ≢ k
      → link s prev ≡ a
      → Returns
          (carve a k s)
          (λ (p, s'). (p ≡ a + (n - k)) × Rest prev ((a, n) ∷ r) ((a, n - k) ∷ r) s s')
  unfolding carve update
  carve_part ne at =
      let v = (s.mem a).size - k in
      (
        (a + (n - k), shrunk s a v),
        ground arith,
        (
          refl,
          record {
            kept = record {
              below = ground arith;
              size = ground arith;
              back = ground arith;
              front = λ _. refl;
            };
            chain = (
              ground arith,
              ground arith,
              ground arith,
              shrunk-Chain s a n v r (omega arith) sorted c.3,
            );
            last = λ h. h;
          },
        ),
      )

first_fit-skip :
    (k a n : ℕ) (r : Ranges)
    → n < k
    → first_fit k ((a, n) ∷ r) ≡ ((first_fit k r).0, (a, n) ∷ (first_fit k r).1)
unfolding first_fit
first_fit-skip k a n r h = rw (lt→ltb n k h)

first_fit-whole : (k a n : ℕ) (r : Ranges) → n ≡ k → first_fit k ((a, n) ∷ r) ≡ (a, r)
unfolding first_fit
first_fit-whole k a n r h = ground arith

first_fit-part :
    (k a n : ℕ) (r : Ranges) → k < n → first_fit k ((a, n) ∷ r) ≡ (a + (n - k), (a, n - k) ∷ r)
unfolding first_fit
first_fit-part k a n r h = ground arith

-- What a search from `it` does, for a search after `prev`.
abbrev Allocates : ℕ → Ptr → Ranges → Pmm → Ptr × Pmm → Type 0
Allocates k prev xs s (p, s') = (p ≡ (first_fit k xs).0) × Rest prev xs (first_fit k xs).1 s s'

-- A chunk that is too small stays in front of what the rest of the search leaves.
skip-Rest :
    (k prev a n : ℕ) (r ys : Ranges) (s s' : Pmm)
    → prev < a
    → Chain s.mem prev a ((a, n) ∷ r)
    → link s prev ≡ a
    → Rest a r ys s s'
    → Rest prev ((a, n) ∷ r) ((a, n) ∷ ys) s s'
skip-Rest k prev a n r ys s s' lt c at rest = record {
  kept = record {
    below = λ q h. rest.kept.below q (omega arith);
    size = ground (arith, rest.kept.below prev lt);
    back = ground (arith, rest.kept.below prev lt);
    front = λ h. rest.kept.front (omega arith);
  };
  chain = (
    ground (arith, rest.kept.below prev lt, rest.kept.front (omega arith)),
    rest.kept.size ∙ c.1,
    rest.kept.back ∙ c.2,
    (let e : link s' a ≡ (s'.mem a).next = ground arith in rw e at (rest.chain)),
  );
  last = rest.last;
}

alloc_loop-Allocates :
    (fuel k lo prev it : ℕ) (xs : Ranges) (s : Pmm)
    → 0 < k
    → length xs < fuel
    → prev ≤ lo
    → Sorted lo xs
    → Chain s.mem prev it xs
    → link s prev ≡ it
    → Returns (alloc_loop fuel k it s) (Allocates k prev xs s)
unfolding alloc_loop
alloc_loop-Allocates zero k lo prev it xs s pos enough le sorted c at = absurd (omega arith)
alloc_loop-Allocates (suc fuel) k lo prev it [] s pos enough le sorted c at = (
  (null, s),
  ground arith,
  (
    unfold first_fit in refl,
    record {
      kept = record { below = λ q h. refl; size = refl; back = refl; front = λ h. refl };
      chain = unfold first_fit in at ∙ c;
      last = unfold first_fit in λ h. h;
    },
  ),
)
alloc_loop-Allocates (suc fuel) k lo prev it ((a, n) ∷ r) s pos enough le sorted c at =
    let lt : prev < a = omega arith in
    let c' : Chain s.mem prev a ((a, n) ∷ r) = (refl, c.1, c.2, c.3) in
    let at' : link s prev ≡ a = at ∙ c.0 in
    rw c.0 (elim (Bool-cases (ltb n k)) [
      | inl small ↦
          let (out, run, (addr, rest)) =
            alloc_loop-Allocates fuel k (a + n) a (s.mem a).next r s pos (omega arith) (omega arith)
              sorted.3 c.3 (ground arith) in
          (
            out,
            ground arith,
            rw (first_fit-skip k a n r (ground arith))
                (addr, skip-Rest k prev a n r _ s out.1 lt c' at' rest),
          )
      | inr fits ↦ elim (Bool-cases (n == k)) [
        | inl whole ↦
            let (out, run, done) =
              carve_whole s k prev a n r pos (ground arith) lt sorted.2 c' sorted.3
                (ground arith) in
            (out, ground arith, rw (first_fit-whole k a n r (ground arith)) done)
        | inr part ↦
            let (out, run, done) =
              carve_part s k prev a n r pos (ground arith) lt sorted.2 c' sorted.3 (ground arith)
                at' in
            (out, ground arith, rw (first_fit-part k a n r (ground arith)) done)
      ]
    ])

-- `page_alloc` on a represented free list, for a page count above 0 whose size fits 64 bits, ends with
-- no fault, given more fuel than chunks. It returns the base that first fit takes (the null pointer
-- if no chunk is large enough), and the list that first fit leaves is represented again.
pub page_alloc-first_fit :
    (fuel pages : ℕ) (s : Pmm) (xs : Ranges)
    → IsValid s xs
    → 0 < pages
    → pages * chunk_size < 2 ^ 64
    → length xs < fuel
    → let k : ℕ = pages * chunk_size in
      Returns
        (page_alloc fuel pages s)
        (λ (p, s'). (p ≡ (first_fit k xs).0) × IsValid s' (first_fit k xs).1)
unfolding page_alloc
page_alloc-first_fit fuel pages s xs v pos small enough =
    let k : ℕ = pages * chunk_size in
    let (out, run, (addr, rest)) =
      alloc_loop-Allocates fuel k 0 null s.front xs s (omega arith) enough (omega arith) v.sorted
        v.chain refl in
    let size : (chunk_size * pages) % 2 ^ 64 ≡ k = omega arith in
    (
      out,
      rw size run,
      (
        addr,
        record {
          chain = rest.chain;
          sorted = first_fit-Sorted k 0 xs (omega arith) v.sorted;
          last = rest.last v.last;
        },
      ),
    )
