-- ===== src/Pmm/Writes.antt =====
-- The writes of `insert_chunk` in llallocator.cppm between two chunks, one equation for each of the
-- four ways in which the new chunk can touch its neighbours.
use gloxor.Base.{ℕ, ◌+◌, ◌^◌, ◌<◌, ◌≡◌, refl, arith, true, false, ◌==◌, ◌≢◌}
use gloxor.Pmm.{
  Ptr, null, Node, Pmm, ok, update, load, set_size, set_next, set_prev, add64, join_back,
  insert_before,
}

-- The memory after a write of one field.
abbrev pub sized : (Ptr → Node) → Ptr → ℕ → Ptr → Node
sized m p v = update m p (record (m p) { size = v })

abbrev pub backed : (Ptr → Node) → Ptr → Ptr → Ptr → Node
backed m p v = update m p (record (m p) { prev = v })

abbrev pub nexted : (Ptr → Node) → Ptr → Ptr → Ptr → Node
nexted m p v = update m p (record (m p) { next = v })

pub set_size-ok :
    (p v : ℕ) (s : Pmm) → 0 < p → set_size p v s ≡ ok (record s { mem = sized s.mem p v })
unfolding set_size
set_size-ok p v s h = ground arith

pub set_prev-ok :
    (p v : ℕ) (s : Pmm) → 0 < p → set_prev p v s ≡ ok (record s { mem = backed s.mem p v })
unfolding set_prev
set_prev-ok p v s h = ground arith

pub set_next-ok :
    (p v : ℕ) (s : Pmm) → 0 < p → set_next p v s ≡ ok (record s { mem = nexted s.mem p v })
unfolding set_next
set_next-ok p v s h = ground arith

pub load-ok : (p : ℕ) (s : Pmm) → 0 < p → load p s ≡ ok (s.mem p)
unfolding load
load-ok p s h = ground arith

pub update_self : (m : Ptr → Node) (p : Ptr) (n : Node) → update m p n p ≡ n
unfolding update
update_self m p n = ground arith

pub update_ne : (m : Ptr → Node) (p q : Ptr) (n : Node) → q ≢ p → update m p n q ≡ m q
unfolding update
update_ne m p q n h = ground arith

-- The chunk touches `a` below and nothing above.
pub join_back_below :
    (s : Pmm) (a n c k b : ℕ)
    → 0 < a
    → a + n + k < 2 ^ 64
    → (s.mem a).size ≡ n
    → (s.mem a).next ≡ b
    → a + (n + k) ≢ b
    → join_back a c k s ≡ ok (record s { mem = sized s.mem a (n + k) })
unfolding join_back
join_back_below s a n c k b pos top size next ne =
    let sum : add64 n k ≡ n + k = omega arith in
    let end : (add64 a (n + k) == b) ≡ false = ground arith in
    rw
      (
        load-ok a s pos,
        size,
        sum,
        set_size-ok a (n + k) s pos,
        load-ok a _ pos,
        update_self,
        next,
        end,
      )
      refl

-- It touches `b` above as well, and `d` follows `b`.
pub join_back_both :
    (s : Pmm) (a n c k b m d : ℕ)
    → 0 < a
    → a < b
    → 0 < d
    → a + n + k + m < 2 ^ 64
    → (s.mem a).size ≡ n
    → (s.mem a).next ≡ b
    → (s.mem b).size ≡ m
    → (s.mem b).next ≡ d
    → a + (n + k) ≡ b
    → join_back a c k s
      ≡ ok
          (record s { mem = nexted (backed (sized (sized s.mem a (n + k)) a (n + k + m)) d a) a d })
unfolding join_back
join_back_both s a n c k b m d pos lt pos' top size next size' next' e =
    let sum : add64 n k ≡ n + k = omega arith in
    let sum' : add64 (n + k) m ≡ n + k + m = omega arith in
    let end : (add64 a (n + k) == b) ≡ true = ground arith in
    let far : b ≢ a = omega arith in
    rw
      (
        load-ok a s pos,
        size,
        sum,
        set_size-ok a (n + k) s pos,
        load-ok a _ pos,
        update_self,
        next,
        end,
        load-ok b _ (omega arith),
        update_ne _ a b _ far,
        size',
        next',
        sum',
        set_size-ok a (n + k + m) _ pos,
        set_prev-ok d a _ pos',
        set_next-ok a d _ pos,
        update_self,
      )
      refl

-- The new chunk `c` stands between `a` and `b` and touches neither.
pub insert_before_between :
    (s : Pmm) (a c k b : ℕ)
    → 0 < a
    → a < c
    → c < b
    → c + k < 2 ^ 64
    → (s.mem b).prev ≡ a
    → c + k ≢ b
    → insert_before b c k s
      ≡ ok (record s { mem = backed (nexted (backed (nexted s.mem a c) b c) c b) c a })
unfolding insert_before
insert_before_between s a c k b pos lt lt' top back ne =
    let end : (add64 c k == b) ≡ false = ground arith in
    let some_a : (a == null) ≡ false = ground arith in
    rw
      (
        end,
        load-ok b s (omega arith),
        back,
        some_a,
        set_next-ok a c s pos,
        set_prev-ok b c _ (omega arith),
        set_next-ok c b _ (omega arith),
        set_prev-ok c a _ (omega arith),
      )
      refl

-- It touches `b`, and `d` follows `b`.
pub insert_before_above :
    (s : Pmm) (a c k b m d : ℕ)
    → 0 < a
    → a < c
    → c < b
    → b < d
    → c + k + m < 2 ^ 64
    → (s.mem c).size ≡ k
    → (s.mem b).size ≡ m
    → (s.mem b).prev ≡ a
    → (s.mem b).next ≡ d
    → c + k ≡ b
    → insert_before b c k s
      ≡ ok (record s {
        mem = nexted (backed (nexted (backed (sized s.mem c (k + m)) d c) c d) c a) a c;
      })
unfolding insert_before
insert_before_above s a c k b m d pos lt lt' lt'' top size size' back next e =
    let end : (add64 c k == b) ≡ true = ground arith in
    let sum : add64 k m ≡ k + m = omega arith in
    let ne_c : b ≢ c = omega arith in
    let ne_d : b ≢ d = omega arith in
    rw
      (
        end,
        load-ok b s (omega arith),
        load-ok c s (omega arith),
        size,
        size',
        sum,
        set_size-ok c (k + m) s (omega arith),
        load-ok b _ (omega arith),
        update_ne _ c b _ ne_c,
        next,
        set_prev-ok d c _ (omega arith),
        load-ok b _ (omega arith),
        update_ne _ d b _ ne_d,
        update_ne _ c b _ ne_c,
        next,
        set_next-ok c d _ (omega arith),
        load-ok b _ (omega arith),
        update_ne _ c b _ ne_c,
        update_ne _ d b _ ne_d,
        update_ne _ c b _ ne_c,
        back,
        set_prev-ok c a _ (omega arith),
        load-ok b _ (omega arith),
        update_ne _ c b _ ne_c,
        update_ne _ c b _ ne_c,
        update_ne _ d b _ ne_d,
        update_ne _ c b _ ne_c,
        back,
        set_next-ok a c _ pos,
      )
      refl
