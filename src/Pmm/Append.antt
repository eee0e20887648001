-- ===== src/Pmm/Append.antt =====
-- The header that `pmm_add_chunk` writes, and `append_chunk` of llallocator.cppm, on chains.
use gloxor.Base.{
  ℕ, ◌+◌, ◌^◌, ◌≤◌, ◌<◌, ◌≡◌, refl, inl, inr, [], ◌∷◌, arith, true, false, ◌==◌, if◌then◌else◌,
  Bool-cases, ◌≢◌,
}
use gloxor.Pmm.{Ptr, null, Node, Pmm, ok, update, add64, append_chunk, write_header}
use gloxor.Pmm.Spec.{Ranges, Sorted, insert_range, Apart, last_base, insert_range_after, join}
use gloxor.Pmm.Chain.{Chain, IsValid}
use gloxor.Pmm.Writes.{sized, backed, nexted, load-ok, set_size-ok, set_prev-ok, set_next-ok}

-- A range apart from the list is not the base of one of its chunks.
pub Chain-apart :
    (m m' : Ptr → Node) (c k lo prev p : ℕ) (xs : Ranges)
    → 0 < k
    → Sorted lo xs
    → Apart c k xs
    → ((q : ℕ) → q ≢ c → m' q ≡ m q)
    → Chain m prev p xs
    → Chain m' prev p xs
Chain-apart m m' c k lo prev p [] pos s apart same ch = ch
Chain-apart m m' c k lo prev p ((a, n) ∷ r) pos s (aside, more) same (e, size, back, rest) =
    rw (same a (ground arith))
      (e, size, back, Chain-apart m m' c k (a + n) a (m a).next r pos s.3 more same rest)

pub last_base-le :
    (d lo a n : ℕ) (r : Ranges) → Sorted lo ((a, n) ∷ r) → a ≤ last_base d ((a, n) ∷ r)
last_base-le d lo a n [] s = omega arith
last_base-le d lo a n ((b, m) ∷ r) s = omega (arith, last_base-le a (a + n) b m r s.3)

-- A range that lies before the last one, and does not end where that begins, leaves its base.
pub last_base-insert_range :
    (c k d a n lo : ℕ) (r : Ranges)
    → a < c
    → c < last_base a r
    → c + k ≢ last_base a r
    → Sorted lo ((a, n) ∷ r)
    → Apart c k ((a, n) ∷ r)
    → last_base d (insert_range c k ((a, n) ∷ r)) ≡ last_base a r
unfolding insert_range join
last_base-insert_range c k d a n lo [] lt before ne s apart = absurd (omega arith)
last_base-insert_range c k d a n lo ((b, m) ∷ []) lt before ne s apart = ground arith
last_base-insert_range c k d a n lo ((b, m) ∷ (e, l) ∷ r) lt before ne s apart =
    ground (arith, last_base-insert_range c k a b m (a + n) ((e, l) ∷ r))

-- The state after the header has been written.
abbrev pub headed : Pmm → Ptr → ℕ → Pmm
headed s c k = record s {
  mem = sized (nexted s.mem c null) c k;
  memory_size = add64 s.memory_size k;
}

pub write_header-ok : (c k : ℕ) (s : Pmm) → 0 < c → write_header c k s ≡ ok (headed s c k)
unfolding write_header
write_header-ok c k s pos = rw (set_next-ok c null s pos, set_size-ok c k _ pos) refl

pub headed-Chain :
    (s : Pmm) (c k : ℕ) (xs : Ranges)
    → 0 < k
    → IsValid s xs
    → Apart c k xs
    → Chain (headed s c k).mem null s.front xs
unfolding update
headed-Chain s c k xs pos v apart =
    Chain-apart s.mem (headed s c k).mem c k 0 null s.front xs pos v.sorted apart
      (λ q h. ground arith) v.chain

-- Behind the last chunk: the list up to the last chunk `b` stays, and what becomes of `b` decides.
pub append-Chain :
    (m m' : Ptr → Node) (c k lo d prev p a n b end : ℕ) (r : Ranges)
    → Sorted lo ((a, n) ∷ r)
    → Chain m prev p ((a, n) ∷ r)
    → last_base a r ≡ b
    → b < c
    → 0 < k
    → Apart c k ((a, n) ∷ r)
    → ((q : ℕ) → q < b → m' q ≡ m q)
    → ((d l pr : ℕ)
        → b + l ≤ c
        → (m b).size ≡ l
        → (m b).prev ≡ pr
        → Chain m' pr b (insert_range c k ((b, l) ∷ []))
          × (last_base d (insert_range c k ((b, l) ∷ [])) ≡ end))
    → Chain m' prev p (insert_range c k ((a, n) ∷ r))
      × (last_base d (insert_range c k ((a, n) ∷ r)) ≡ end)
append-Chain m m' c k lo d prev p a n b end [] sorted (e, size, back, rest) last lt pos apart below
      at_last =
    rw (e, last) (at_last d n prev (ground arith) (rw last at size) (rw last at back))
append-Chain m m' c k lo d prev p a n b end ((a', n') ∷ r) sorted (e, size, back, rest) last lt pos
      apart below at_last =
    let lt' : a < b = omega (arith, last_base-le a (a + n) a' n' r sorted.3) in
    let here = below a lt' in
    let next : (m' a).next ≡ (m a).next = ground arith in
    let apart_of : a + n ≢ c = omega (arith, last_base-le a (a + n) a' n' r sorted.3) in
    let (ih, ih') =
      append-Chain m m' c k (a + n) a a (m a).next a' n' b end r sorted.3 rest last lt pos apart.1
        below at_last in
    rw (insert_range_after a n c k ((a', n') ∷ r) (omega arith) apart_of)
      ((e, ground arith, ground arith, rw next ih), ih')

-- `append_chunk` in its two cases.
abbrev pub appended : Pmm → Ptr → ℕ → Pmm
appended s c k =
    if s.back + (s.mem s.back).size == c
    then record s { mem = sized s.mem s.back ((s.mem s.back).size + k) }
    else record s { mem = backed (nexted s.mem s.back c) c s.back; back = c }

pub append_chunk-ok :
    (c k : ℕ) (s : Pmm)
    → 0 < s.back
    → s.back < c
    → s.back + (s.mem s.back).size ≤ c
    → c + k < 2 ^ 64
    → append_chunk c k s ≡ ok (appended s c k)
unfolding append_chunk
append_chunk-ok c k s pos lt le top = elim (Bool-cases (s.back + (s.mem s.back).size == c)) [
  | inl t ↦
      let t' : (add64 s.back (s.mem s.back).size == c) ≡ true = ground arith in
      let sum : add64 (s.mem s.back).size k ≡ (s.mem s.back).size + k = omega arith in
      rw (load-ok s.back s pos, t', t, sum, set_size-ok s.back _ s pos) refl
  | inr t ↦
      let t' : (add64 s.back (s.mem s.back).size == c) ≡ false = ground arith in
      rw
        (
          load-ok s.back s pos,
          t',
          t,
          set_next-ok s.back c s pos,
          set_prev-ok c s.back _ (omega arith),
        )
        refl
]

-- The last chunk after `append_chunk`.
insert_range-last :
    (b c k l : ℕ)
    → b < c
    → insert_range c k ((b, l) ∷ [])
      ≡ (if b + l == c then (b, l + k) ∷ [] else (b, l) ∷ (c, k) ∷ [])
unfolding insert_range join
insert_range-last b c k l lt = ground arith

pub append-last :
    (s : Pmm) (b c k l d pr : ℕ)
    → s.back ≡ b
    → 0 < k
    → b < c
    → b + l ≤ c
    → (s.mem b).size ≡ l
    → (s.mem b).prev ≡ pr
    → (s.mem b).next ≡ null
    → (s.mem c).size ≡ k
    → (s.mem c).next ≡ null
    → Chain (appended s c k).mem pr b (insert_range c k ((b, l) ∷ []))
      × (last_base d (insert_range c k ((b, l) ∷ [])) ≡ (appended s c k).back)
unfolding update
append-last s b c k l d pr at pos lt le size back next size' next' =
    rw (at, size, insert_range-last b c k l lt)
      (elim (Bool-cases (b + l == c)) [
        | inl t ↦ rw t ((refl, ground arith, ground arith, ground arith), ground arith)
        | inr t ↦ rw t (
          (
            refl,
            ground arith,
            ground arith,
            (ground arith, ground arith, ground arith, ground arith),
          ),
          ground arith,
        )
      ])

-- The null pointer ends the list at its last chunk.
pub next-last :
    (m : Ptr → Node) (lo prev p a n : ℕ) (r : Ranges)
    → Chain m prev p ((a, n) ∷ r)
    → (m (last_base a r)).next ≡ null
next-last m lo prev p a n [] c = c.3
next-last m lo prev p a n ((b, l) ∷ r) c = next-last m lo a (m a).next b l r c.3

pub size-last :
    (m : Ptr → Node) (c k lo prev p a n : ℕ) (r : Ranges)
    → 0 < k
    → last_base a r < c
    → Sorted lo ((a, n) ∷ r)
    → Apart c k ((a, n) ∷ r)
    → Chain m prev p ((a, n) ∷ r)
    → last_base a r + (m (last_base a r)).size ≤ c
size-last m c k lo prev p a n [] pos lt s apart ch = ground arith
size-last m c k lo prev p a n ((b, l) ∷ r) pos lt s apart ch =
    size-last m c k (a + n) a (m a).next b l r pos lt s.3 apart.1 ch.3

pub appended-below :
    (s : Pmm) (c k q : ℕ) → s.back < c → q < s.back → (appended s c k).mem q ≡ s.mem q
unfolding update
appended-below s c k q lt h = ground arith

pub appended-front : (s : Pmm) (c k : ℕ) → (appended s c k).front ≡ s.front
appended-front s c k = ground arith

pub ne-last_base :
    (c k lo a n : ℕ) (r : Ranges)
    → 0 < k
    → Sorted lo ((a, n) ∷ r)
    → Apart c k ((a, n) ∷ r)
    → last_base a r ≢ c
ne-last_base c k lo a n [] pos s (aside, more) = ground arith
ne-last_base c k lo a n ((b, m) ∷ r) pos s (aside, more) =
    ne-last_base c k (a + n) b m r pos s.3 more
