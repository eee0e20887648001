-- ===== src/Pmm/Chain.antt =====
-- The doubly linked list of llallocator.cppm as ranges: which memory represents which free list.
use gloxor.Base.{ℕ, ◌+◌, ◌<◌, ◌≡◌, [], ◌∷◌, arith, ◌==◌, if◌then◌else◌}
use gloxor.Pmm.{Ptr, null, Node, Pmm, Run, ok}
use gloxor.Pmm.Spec.{Ranges, Sorted, last_base}

-- From `p` the nodes for `xs` follow one another; the first has `prev` behind it.
abbrev pub Chain : (Ptr → Node) → Ptr → Ptr → Ranges → Type 0
Chain m prev p [] = p ≡ 0
Chain m prev p ((a, n) ∷ r) =
    (p ≡ a) × ((m a).size ≡ n) × ((m a).prev ≡ prev) × Chain m a (m a).next r

-- `s` represents the free list `xs`.
pub record IsValid (s : Pmm) (xs : Ranges) : Type 0 where
  pub chain : Chain s.mem null s.front xs
  pub sorted : Sorted 0 xs
  pub last : s.back ≡ last_base 0 xs

-- The run ends, with no fault and with fuel to spare, in a value that satisfies `P`.
abbrev pub Returns : {A : Type 0} → Run A → (A → Type 0) → Type 0
Returns {A} r P = (a : A) × (r ≡ ok a) × P a

-- A chain does not see what happens at or below its lower bound.
pub Chain-frame :
    (m m' : Ptr → Node) (lo prev p : ℕ) (xs : Ranges)
    → Sorted lo xs
    → ((q : ℕ) → lo < q → m' q ≡ m q)
    → Chain m prev p xs
    → Chain m' prev p xs
Chain-frame m m' lo prev p [] s same c = c
Chain-frame m m' lo prev p ((a, n) ∷ r) s same (e, size, back, rest) =
    let here = same a s.0 in
    rw here (
      e,
      size,
      back,
      Chain-frame m m' (a + n) a (m a).next r s.3 (λ q h. same q (omega arith)) rest,
    )

-- The pointer through which the list reaches the node after `prev`.
abbrev pub link : Pmm → Ptr → Ptr
link s prev = if prev == null then s.front else (s.mem prev).next

-- What stays when only the list after `prev` changes.
pub record Kept (prev : Ptr) (s s' : Pmm) : Type 0 where
  pub below : (q : ℕ) → q < prev → s'.mem q ≡ s.mem q
  pub size : (s'.mem prev).size ≡ (s.mem prev).size
  pub back : (s'.mem prev).prev ≡ (s.mem prev).prev
  pub front : 0 < prev → s'.front ≡ s.front
