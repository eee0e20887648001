-- ===== src/HeapAlloc/Regrow.antt =====
-- grow and shrink of libraries/libglox/include/glox/heap_alloc.hpp, with the contents of the memory. The
-- page allocator is a parameter: it answers with the new address of the pages and the memory after the
-- call, or `none` for the null pointer, which leaves the memory as it was.
use gloxor.Base.{
  ℕ, ◌+◌, ◌-◌, ◌%◌, ◌≤◌, ◌<◌, ◌≡◌, ◌≢◌, refl, ap, ◌∙◌, true, false, ltb, leb, ◌==◌, if◌then◌else◌,
  Bool-cases, Option-cases, inl, inr, ◌⊎◌, ◌&&◌, Option, none, some, arith,
}
use native.Mathlib.Nat.{mod-lt}
use gloxor.Base.Bits.{pow2}
use gloxor.Algorithms.{write, copy}
use gloxor.Algorithms.Copies.{within, copy-at}
use gloxor.HeapAlloc.{
  State, size_t, align_up, get_page_header, page_size, alloc, usable_size, dealloc,
}
use gloxor.HeapAlloc.Sizes.{align_up_bounds, alloc-enough}

-- The block, the memory and the state after a call.
pub record Given (A : Type 0) : Type 0 where
  pub ptr : ℕ
  pub size : ℕ
  pub mem : ℕ → A
  pub state : State

-- The block is as large as asked, and holds the first n bytes from ptr of the old memory.
abbrev pub Keeps : {A : Type 0} → ℕ → ℕ → ℕ → (ℕ → A) → Given A → Type 0
Keeps n ptr size mem g = (size ≤ g.size) × ((i : ℕ) → i < n → g.mem (g.ptr + i) ≡ mem (ptr + i))

module _ {A : Type 0} (palloc : ℕ → ℕ → ℕ → (ℕ → A) → Option (ℕ × (ℕ → A))) where
  -- The slow path of grow.
  unfoldable pub move_block : ℕ → ℕ → ℕ → ℕ → (ℕ → A) → State → Given A
  move_block ptr new_size alignment tid mem s =
      let ((p, size), s') = alloc new_size alignment tid s in
      if p == 0 then record { ptr = 0; size = size; mem = mem; state = s' } else record {
        ptr = p;
        size = size;
        mem = copy (usable_size ptr s) ptr p mem;
        state = dealloc ptr tid s';
      }

  -- A large block after palloc.grow or palloc.shrink has given `page`.
  unfoldable pub repaged : ℕ → ℕ → ℕ → ℕ → (ℕ → A) → State → Given A
  unfolding write
  repaged old offset page_req page mem s = record {
    ptr = page + offset;
    size = size_t (page_req + 18446744073709551616 - offset);
    mem = mem;
    state = record s {
      headers = write s.headers page (record (s.headers old) { block_size = page_req });
    };
  }

  unfoldable pub grow : ℕ → ℕ → ℕ → ℕ → (ℕ → A) → State → Given A
  grow ptr new_size alignment tid mem s =
      let page = get_page_header ptr in
      let h = s.headers page in
      let offset = ptr - page in
      let page_req = align_up (size_t (new_size + offset)) page_size in
      if ptr == 0
      then (let ((p, size), s') = alloc new_size alignment tid s in
          record { ptr = p; size = size; mem = mem; state = s' })
      else (if new_size == 0
          then record { ptr = 0; size = 0; mem = mem; state = dealloc ptr tid s }
          else (if leb new_size (usable_size ptr s)
              then record { ptr = ptr; size = usable_size ptr s; mem = mem; state = s }
              else (if h.is_large
                  then elim (palloc page h.block_size page_req mem) [
                    | none ↦ move_block ptr new_size alignment tid mem s
                    | some (p, m) ↦ repaged page offset page_req p m s
                  ]
                  else move_block ptr new_size alignment tid mem s)))

  -- The parameter is palloc.shrink here.
  unfoldable pub shrink : ℕ → ℕ → ℕ → (ℕ → A) → State → Given A
  shrink ptr new_size tid mem s =
      let page = get_page_header ptr in
      let h = s.headers page in
      let offset = ptr - page in
      let page_req = align_up (size_t (new_size + offset)) page_size in
      let same : Given A = record { ptr = ptr; size = usable_size ptr s; mem = mem; state = s } in
      if ptr == 0
      then record { ptr = 0; size = 0; mem = mem; state = s }
      else (if new_size == 0
          then record { ptr = 0; size = 0; mem = mem; state = dealloc ptr tid s }
          else (if h.is_large && ltb page_req h.block_size
              then elim (palloc page h.block_size page_req mem) [
                | none ↦ same
                | some (p, m) ↦ repaged page offset page_req p m s
              ]
              else same))

  move_block-Keeps :
      (ptr new_size k tid : ℕ) (mem : ℕ → A) (s : State)
      → k ≤ 16
      → new_size + 200000 ≤ 18446744073709551616
      → ((alloc new_size (pow2 k) tid s).0.0 < ptr)
        ⊎ (ptr + usable_size ptr s ≤ (alloc new_size (pow2 k) tid s).0.0)
      → (move_block ptr new_size (pow2 k) tid mem s).ptr ≢ 0
      → Keeps (usable_size ptr s) ptr new_size mem (move_block ptr new_size (pow2 k) tid mem s)
  unfolding move_block
  move_block-Keeps ptr new_size k tid mem s hk room apart h =
      elim (Bool-cases ((alloc new_size (pow2 k) tid s).0.0 == 0)) [
        | inl nil ↦ absurd (h (rw (nil, move_block) refl))
        | inr given ↦
            let some_block : (alloc new_size (pow2 k) tid s).0.0 ≢ 0 = ground (arith, given) in
            let p = (alloc new_size (pow2 k) tid s).0.0 in
            rw (given, move_block)
              (
                alloc-enough new_size k tid s hk room some_block,
                λ i small.
                    let here : within (p + i) p (usable_size ptr s) ≡ true =
                      ground (arith, small) in
                    let back : p + i - p ≡ i = omega arith in
                    copy-at (usable_size ptr s) ptr p (p + i) mem apart ∙ rw (here, back) refl,
              )
      ]

  repaged-Keeps :
      (n ptr new_size page_req p : ℕ) (mem moved : ℕ → A) (s : State)
      → (s.headers (get_page_header ptr)).block_size < 18446744073709551616
      → ptr % page_size ≤ (s.headers (get_page_header ptr)).block_size
      → (s.headers (get_page_header ptr)).is_large ≡ true
      → new_size + 200000 ≤ 18446744073709551616
      → n ≤ usable_size ptr s
      → n ≤ new_size
      → page_req ≡ align_up (size_t (new_size + (ptr - get_page_header ptr))) page_size
      → ((i : ℕ)
          → i < (s.headers (get_page_header ptr)).block_size
          → i < page_req
          → moved (p + i) ≡ mem (get_page_header ptr + i))
      → ptr ≢ 0
      → Keeps n ptr new_size mem
          (repaged (get_page_header ptr) (ptr - get_page_header ptr) page_req p moved s)
  unfolding repaged usable_size get_page_header
  repaged-Keeps n ptr new_size page_req p mem moved s bound inside large room held asked req keeps
        some_ptr =
      let page = ptr - ptr % 65536 in
      let offset = ptr - page in
      let r : ptr % 65536 < 65536 = mod-lt ptr (omega arith) in
      let le : ptr % 65536 ≤ ptr = omega arith in
      let off : offset ≡ ptr % 65536 = omega (arith, le) in
      let not_nil : (ptr == 0) ≡ false = ground (arith, some_ptr) in
      let usable : usable_size ptr s ≡ (s.headers page).block_size - offset =
        rw (not_nil, large, usable_size) (omega (arith, bound, inside, off)) in
      let sum : size_t (new_size + offset) ≡ new_size + offset = omega (arith, off, r, room) in
      let (up, top) =
        align_up_bounds 16 (new_size + offset) (omega arith) (omega (arith, off, r, room)) in
      let req' : page_req ≡ align_up (new_size + offset) 65536 =
        req ∙ ap (λ (n : ℕ). align_up n 65536) sum in
      (
        omega (arith, up, top, req', room, off, r),
        λ i small.
            ap moved (omega arith)
            ∙ keeps (offset + i) (omega (arith, small, held, usable))
                (omega (arith, small, asked, up, req'))
            ∙ ap mem (omega (arith, le, off)),
      )

  -- grow of a block to another size above 0 that leaves room in 64 bits, with an alignment that is a power
  -- of two up to a page: where the page allocator keeps the contents of the pages that it grows, the header
  -- of the block holds a size that reaches it where it is large, and a block that alloc gives does not begin
  -- within the old one, a pointer that is not null comes with at least the new size, and what the old block
  -- could hold is found there.
  pub grow-Keeps :
      (ptr new_size k tid : ℕ) (mem : ℕ → A) (s : State)
      → ptr ≢ 0
      → 0 < new_size
      → k ≤ 16
      → new_size + 200000 ≤ 18446744073709551616
      → ((page old req p : ℕ) (m moved : ℕ → A)
          → palloc page old req m ≡ some (p, moved)
          → (i : ℕ) → i < old
          → i < req
          → moved (p + i) ≡ m (page + i))
      → (s.headers (get_page_header ptr)).block_size < 18446744073709551616
      → ((s.headers (get_page_header ptr)).is_large ≡ true
          → ptr % page_size ≤ (s.headers (get_page_header ptr)).block_size)
      → ((alloc new_size (pow2 k) tid s).0.0 < ptr)
        ⊎ (ptr + usable_size ptr s ≤ (alloc new_size (pow2 k) tid s).0.0)
      → (grow ptr new_size (pow2 k) tid mem s).ptr ≢ 0
      → Keeps (usable_size ptr s) ptr new_size mem (grow ptr new_size (pow2 k) tid mem s)
  unfolding grow
  grow-Keeps ptr new_size k tid mem s some_ptr pos hk room keeps bound inside apart h =
      let page = get_page_header ptr in
      let req = align_up (size_t (new_size + (ptr - page))) page_size in
      let p0 : (ptr == 0) ≡ false = ground (arith, some_ptr) in
      let n0 : (new_size == 0) ≡ false = ground (arith, pos) in
      let moves = move_block-Keeps ptr new_size k tid mem s hk room apart in
      elim (Bool-cases (leb new_size (usable_size ptr s))) [
        | inl fits ↦ rw (p0, n0, fits, grow) (ground (arith, fits), λ i small. refl)
        | inr more ↦ elim (Bool-cases (s.headers page).is_large) [
          | inr small ↦
              let g : grow ptr new_size (pow2 k) tid mem s
                  ≡ move_block ptr new_size (pow2 k) tid mem s =
                rw (p0, n0, more, small, grow) refl in
              rw g (moves (rw g at h))
          | inl large ↦ elim (Option-cases (palloc page (s.headers page).block_size req mem)) [
            | inl refused ↦
                let g : grow ptr new_size (pow2 k) tid mem s
                    ≡ move_block ptr new_size (pow2 k) tid mem s =
                  rw (p0, n0, more, large, refused, grow) refl in
                rw g (moves (rw g at h))
            | inr ((p, moved), answer) ↦
                let g : grow ptr new_size (pow2 k) tid mem s
                    ≡ repaged page (ptr - page) req p moved s =
                  rw (p0, n0, more, large, answer, grow) refl in
                rw g (
                  repaged-Keeps (usable_size ptr s) ptr new_size req p mem moved s bound
                    (inside large) large room (omega arith) (ground (arith, more)) refl
                    (keeps page (s.headers page).block_size req p mem moved answer) some_ptr)
          ]
        ]
      ]

  -- shrink of a block to a size above 0 that it can hold: where the page allocator keeps the contents of
  -- what stays of the pages, and the header of the block holds a size that reaches it where it is large,
  -- the block is at least as large as asked and holds that part of the contents.
  pub shrink-Keeps :
      (ptr new_size tid : ℕ) (mem : ℕ → A) (s : State)
      → ptr ≢ 0
      → 0 < new_size
      → new_size ≤ usable_size ptr s
      → new_size + 200000 ≤ 18446744073709551616
      → ((page old req p : ℕ) (m moved : ℕ → A)
          → palloc page old req m ≡ some (p, moved)
          → (i : ℕ) → i < old
          → i < req
          → moved (p + i) ≡ m (page + i))
      → (s.headers (get_page_header ptr)).block_size < 18446744073709551616
      → ((s.headers (get_page_header ptr)).is_large ≡ true
          → ptr % page_size ≤ (s.headers (get_page_header ptr)).block_size)
      → Keeps new_size ptr new_size mem (shrink ptr new_size tid mem s)
  unfolding shrink
  shrink-Keeps ptr new_size tid mem s some_ptr pos held room keeps bound inside =
      let page = get_page_header ptr in
      let req = align_up (size_t (new_size + (ptr - page))) page_size in
      let p0 : (ptr == 0) ≡ false = ground (arith, some_ptr) in
      let n0 : (new_size == 0) ≡ false = ground (arith, pos) in
      elim (Bool-cases ((s.headers page).is_large && ltb req (s.headers page).block_size)) [
        | inr stays ↦ rw (p0, n0, stays, shrink) (held, λ i small. refl)
        | inl less ↦ elim (Option-cases (palloc page (s.headers page).block_size req mem)) [
          | inl refused ↦ rw (p0, n0, less, refused, shrink) (held, λ i small. refl)
          | inr ((p, moved), answer) ↦
              let large : (s.headers page).is_large ≡ true = ground (arith, less) in
              let g : shrink ptr new_size tid mem s ≡ repaged page (ptr - page) req p moved s =
                rw (p0, n0, less, answer, shrink) refl in
              rw g (
                repaged-Keeps new_size ptr new_size req p mem moved s bound (inside large) large
                  room held (omega arith) refl
                  (keeps page (s.headers page).block_size req p mem moved answer) some_ptr)
        ]
      ]
