-- ===== src/Pmm.antt =====
-- The physical page allocator: kernel/memory/pmm.cpp over the free list of
-- kernel/memory/llallocator.cppm (nodes as in libraries/libglox/include/glox/legacy_linkedlist.hpp).
-- A node lives in the first bytes of the free chunk that it describes, so memory is a total map from
-- addresses to nodes: a field that nobody has written holds what was there. A read or write
-- through the null pointer is a fault, and a failed assertion stops (assertions are on by default,
-- FORCE_DEBUG_CHECKS). Addresses and sizes wrap at 64 bits. Loops run on fuel.
pub mod Spec
pub mod Chain
pub mod Alloc
pub mod Writes
pub mod Insert
pub mod Loop
pub mod Append
pub mod Add
pub mod Covers
pub mod GiveBack
pub mod Faults
pub mod Leak
mod Tests
use gloxor.Base.{
  ℕ, zero, suc, ◌+◌, ◌-◌, ◌*◌, ◌%◌, ◌^◌, true, false, ltb, leb, ◌==◌, if◌then◌else◌, ◌&&◌,
}

abbrev pub Ptr : Type 0
Ptr = ℕ

abbrev pub null : Ptr
null = 0

-- `node<PmmChunk>`
pub record Node : Type 0 where
  pub size : ℕ
  pub prev : Ptr
  pub next : Ptr

-- `pmmCtx`, `memorySize`, and the memory that holds the nodes.
pub record Pmm : Type 0 where
  pub mem : Ptr → Node
  pub front : Ptr
  pub back : Ptr
  pub memory_size : ℕ

pub data Run (A : Type 0) : Type 0 where
  ok : A → Run A
  null_deref : Run A
  assert_failed : Run A
  out_of_fuel : Run A

infixl 5 ◌>>=◌
abbrev pub ◌>>=◌ : {A B : Type 0} → Run A → (A → Run B) → Run B
ok a >>= f = f a
null_deref >>= f = null_deref
assert_failed >>= f = assert_failed
out_of_fuel >>= f = out_of_fuel

abbrev pub chunk_size : ℕ
chunk_size = 0x1000

abbrev pub add64 : ℕ → ℕ → ℕ
add64 a b = (a + b) % 2 ^ 64

-- The memory with the node at `p` replaced.
unfoldable pub update : (Ptr → Node) → Ptr → Node → Ptr → Node
update m p n q = if q == p then n else m q

unfoldable pub load : Ptr → Pmm → Run Node
load p s = if p == null then null_deref else ok (s.mem p)

store : Ptr → Node → Pmm → Run Pmm
store p n s = if p == null then null_deref else ok (record s { mem = update s.mem p n })

-- `p->size = v`, `p->prev = v`, `p->next = v`.
unfoldable pub set_size : Ptr → ℕ → Pmm → Run Pmm
unfolding load store
set_size p v s = do n ← load p s; store p (record n { size = v }) s

unfoldable pub set_prev : Ptr → Ptr → Pmm → Run Pmm
unfolding load store
set_prev p v s = do n ← load p s; store p (record n { prev = v }) s

unfoldable pub set_next : Ptr → Ptr → Pmm → Run Pmm
unfolding load store
set_next p v s = do n ← load p s; store p (record n { next = v }) s

-- The branch of `alloc_from_chunk` that takes a whole chunk out of the list.
unlink : Ptr → Pmm → Run Pmm
unfolding load set_prev set_next
unlink it s = do
  n ← load it s
  s ← if n.prev == null then ok (record s { front = n.next }) else set_next n.prev n.next s
  if n.next == null then ok (record s { back = n.prev }) else set_prev n.next n.prev s

-- The body of the loop at the chunk that fits: its upper end is cut off.
pub carve : Ptr → ℕ → Pmm → Run (Ptr × Pmm)
unfolding load set_size unlink
carve it alloc_size s = do
  n ← load it s
  s ← set_size it (n.size - alloc_size) s
  if n.size - alloc_size == 0
      then (do s ← unlink it s; ok (it, s))
      else ok (add64 it (n.size - alloc_size), s)

pub alloc_loop : ℕ → ℕ → Ptr → Pmm → Run (Ptr × Pmm)
unfolding load carve
alloc_loop zero alloc_size it s = out_of_fuel
alloc_loop (suc fuel) alloc_size it s = if it == null then ok (null, s) else do
  n ← load it s
  elim (ltb n.size alloc_size) [
    | true ↦ alloc_loop fuel alloc_size n.next s
    | false ↦ carve it alloc_size s
  ]

-- `alloc_from_chunk` with a page count: first fit.
unfoldable pub alloc_from_chunk : ℕ → ℕ → ℕ → Pmm → Run (Ptr × Pmm)
unfolding alloc_loop
alloc_from_chunk fuel chunk_size' page_count s =
    alloc_loop fuel ((chunk_size' * page_count) % 2 ^ 64) s.front s

unfoldable pub page_alloc : ℕ → ℕ → Pmm → Run (Ptr × Pmm)
unfolding alloc_from_chunk
page_alloc fuel page_count s = alloc_from_chunk fuel chunk_size page_count s

-- `memset(addr, 0, n)`: every node field in the range reads as 0 afterwards; at the null pointer
-- the write faults.
clear_range : Ptr → ℕ → Pmm → Run Pmm
clear_range addr n s =
    if addr == null && ltb 0 n
    then null_deref
    else ok (record s {
      mem = λ q.
          if leb addr q && ltb q (addr + n)
          then record { size = 0; prev = 0; next = 0 }
          else s.mem q;
    })

unfoldable pub page_alloc_z : ℕ → ℕ → Pmm → Run (Ptr × Pmm)
unfolding page_alloc clear_range
page_alloc_z fuel page_count s = do
  (addr, s) ← page_alloc fuel page_count s
  s ← clear_range addr ((page_count * chunk_size) % 2 ^ 64) s
  ok (addr, s)

-- `append_chunk(pmmEnd, chunk, length)`
pub append_chunk : Ptr → ℕ → Pmm → Run Pmm
append_chunk chunk length s = do
  n ← load s.back s
  if add64 s.back n.size == chunk then set_size s.back (add64 n.size length) s else do
    s' ← set_next s.back chunk s
    s' ← set_prev chunk s.back s'
    ok (record s' { back = chunk })

-- `prepend_chunk(pmmStart, chunk, length)`
pub prepend_chunk : Ptr → ℕ → Pmm → Run Pmm
prepend_chunk chunk length s =
    if add64 chunk length == s.front
    then (do
      n ← load s.front s
      s ← set_size chunk (add64 n.size length) s
      n ← load s.front s
      s ← set_next chunk n.next s
      ok (record s { front = chunk }))
    else (do
      s' ← set_next chunk s.front s
      s' ← set_prev chunk null s'
      ok (record s' { front = chunk }))

-- `it->size += length`, and the join with the next chunk where they now touch.
pub join_back : Ptr → Ptr → ℕ → Pmm → Run Pmm
join_back it chunk length s = do
  n ← load it s
  s ← set_size it (add64 n.size length) s
  n ← load it s
  if add64 it n.size == n.next
      then (do
        next_chunk ← load n.next s
        s ← set_size it (add64 n.size next_chunk.size) s
        s ← set_prev next_chunk.next it s
        set_next it next_chunk.next s)
      else ok s

-- The end of `insert_chunk`: `it` is the first chunk that is not below `chunk`.
pub insert_before : Ptr → Ptr → ℕ → Pmm → Run Pmm
insert_before it chunk length s =
    if add64 chunk length == it
    then (do
      n ← load it s
      c ← load chunk s
      s ← set_size chunk (add64 c.size n.size) s
      n ← load it s
      s ← set_prev n.next chunk s
      n ← load it s
      s ← set_next chunk n.next s
      n ← load it s
      s ← set_prev chunk n.prev s
      n ← load it s
      set_next n.prev chunk s)
    else (do
      n ← load it s
      s ← if n.prev == null then ok s else set_next n.prev chunk s
      s ← set_prev it chunk s
      s ← set_next chunk it s
      set_prev chunk n.prev s)

pub insert_loop : ℕ → Ptr → Ptr → ℕ → Pmm → Run Pmm
insert_loop zero it chunk length s = out_of_fuel
insert_loop (suc fuel) it chunk length s = elim (ltb it chunk) [
  | true ↦ do
    n ← load it s
    elim (add64 it n.size == chunk) [
      | true ↦ join_back it chunk length s
      | false ↦ insert_loop fuel n.next chunk length s
    ]
  | false ↦ insert_before it chunk length s
]

-- `insert_chunk(pmmStart, chunk, length)`. Its first branch is for a chunk below the list.
pub insert_chunk : ℕ → Ptr → ℕ → Pmm → Run Pmm
insert_chunk fuel chunk length s =
    if ltb chunk s.front
    then (if add64 chunk length == s.front
        then (do
          n ← load s.front s
          c ← load chunk s
          s ← set_size chunk (add64 c.size n.size) s
          n ← load s.front s
          s ← set_prev n.next chunk s
          n ← load s.front s
          s ← set_next chunk n.next s
          ok (record s { front = chunk }))
        else (do
          s' ← set_prev s.front chunk s
          s' ← set_next chunk s.front s'
          set_prev chunk null s'))
    else insert_loop fuel s.front chunk length s

-- kernel/arch/x86/interface/arch/addrspace.cppm
abbrev pub physical_mem_base : ℕ
physical_mem_base = 0xffff800000000000

unfoldable pub to_virt : ℕ → ℕ
to_virt addr = if ltb addr physical_mem_base then add64 addr physical_mem_base else addr

-- The choice that `pmm_add_chunk` makes once the header is written.
pub link_chunk : ℕ → Ptr → ℕ → Pmm → Run Pmm
link_chunk fuel chunk length s =
    if s.front == null
    then (do s ← set_prev chunk null s; ok (record s { front = chunk; back = chunk }))
    else if ltb s.back chunk
    then append_chunk chunk length s
    else if ltb chunk s.front
    then prepend_chunk chunk length s
    else insert_chunk fuel chunk length s

-- The header of the new chunk.
pub write_header : Ptr → ℕ → Pmm → Run Pmm
write_header chunk length s = do
  s ← set_next chunk null s
  s ← set_size chunk length s
  ok (record s { memory_size = add64 s.memory_size length })

pub pmm_add_chunk : ℕ → ℕ → ℕ → Pmm → Run Pmm
pmm_add_chunk fuel base length s =
    if length % chunk_size == 0
    then (do s ← write_header (to_virt base) length s; link_chunk fuel (to_virt base) length s)
    else assert_failed

pub page_dealloc : ℕ → Ptr → ℕ → Pmm → Run Pmm
page_dealloc fuel ptr page_count s =
    if ptr == null then ok s else pmm_add_chunk fuel ptr ((chunk_size * page_count) % 2 ^ 64) s
