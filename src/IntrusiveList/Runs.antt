-- ===== src/IntrusiveList/Runs.antt =====
-- intrusive_list as a sequence with a count: any run of its operations.
use gloxor.Base.{
  ℕ, ◌+◌, ◌<◌, ◌≡◌, refl, sym, ap, ◌∙◌, List, [], ◌∷◌, ◌++◌, length, inl, inr, true, ◌==◌, arith,
  Option, none, some,
}
use mathlib.Core.Path.{subst}
use gloxor.IntrusiveList.{
  IntrusiveList, Links, push_back as list_push_back, push_front as list_push_front,
  insert as list_insert, erase as list_erase, clear as list_clear, size, insert_node, remove,
}
use gloxor.IntrusiveList.Chain.{Fresh, Circle}
use gloxor.IntrusiveList.Splice.{
  insert_node-Circle, insert_node-sentinel, remove-Circle, push_front-Represents,
}
use gloxor.IntrusiveList.Clear.{clear-Represents}
use gloxor.IntrusiveList.Finds.{put_before, drop_first, any, find_cases}

-- A call of an operation; insert and erase name the node that their iterator stands at.
pub data Op : Type 0 where
  push_back : ℕ → Op
  push_front : ℕ → Op
  insert : ℕ → ℕ → Op
  erase : ℕ → Op
  clear : Op

unfoldable pub exec : ℕ → Op → IntrusiveList × Links → Option (IntrusiveList × Links)
exec fuel (Op.push_back n) (l, m) = some (list_push_back n l m)
exec fuel (Op.push_front n) (l, m) = some (list_push_front n l m)
exec fuel (Op.insert y n) (l, m) = let r = list_insert y n l m in some (r.1, r.2)
exec fuel (Op.erase y) (l, m) = let r = list_erase y l m in some (r.1, r.2)
exec fuel Op.clear (l, m) = list_clear fuel l m

unfoldable pub run : ℕ → List Op → IntrusiveList × Links → Option (IntrusiveList × Links)
unfolding exec
run fuel [] s = some s
run fuel (op ∷ ops) s = elim (exec fuel op s) [ none ↦ none | some s' ↦ run fuel ops s' ]

-- The same on a sequence, with the number of insertions since it was last cleared.
unfoldable pub list_exec : Op → List ℕ × ℕ → List ℕ × ℕ
unfolding put_before drop_first
list_exec (Op.push_back n) (xs, c) = (xs ++ n ∷ [], c + 1)
list_exec (Op.push_front n) (xs, c) = (n ∷ xs, c + 1)
list_exec (Op.insert y n) (xs, c) = (put_before (λ x. x == y) n xs, c + 1)
list_exec (Op.erase y) (xs, c) = (drop_first (λ x. x == y) xs, c)
list_exec Op.clear (xs, c) = ([], 0)

unfoldable pub list_run : List Op → List ℕ × ℕ → List ℕ × ℕ
unfolding list_exec
list_run [] a = a
list_run (op ∷ ops) a = list_run ops (list_exec op a)

-- A node that goes in is new, an iterator stands at a node of the list, and clear has the fuel.
abbrev pub Allowed : ℕ → ℕ → Op → List ℕ → Type 0
Allowed fuel s (Op.push_back n) xs = Fresh n (s ∷ xs)
Allowed fuel s (Op.push_front n) xs = Fresh n (s ∷ xs)
Allowed fuel s (Op.insert y n) xs = Fresh n (s ∷ xs) × (any (λ x. x == y) xs ≡ true)
Allowed fuel s (Op.erase y) xs = any (λ x. x == y) xs ≡ true
Allowed fuel s Op.clear xs = length xs < fuel

abbrev pub AllAllowed : ℕ → ℕ → List Op → List ℕ × ℕ → Type 0
AllAllowed fuel s [] a = Unit
AllAllowed fuel s (op ∷ ops) a = Allowed fuel s op a.0 × AllAllowed fuel s ops (list_exec op a)

-- The links hold the sequence, and the count its number.
pub record Holds (s : ℕ) (st : IntrusiveList × Links) (a : List ℕ × ℕ) : Type 0 where
  pub sentinel : st.0.sentinel ≡ s
  pub circle : Circle s st.1 a.0
  pub count : size st.0 ≡ a.1

-- A node that is in a list stands at the first place where it is found.
found_at :
    (n y : ℕ) (xs : List ℕ)
    → any (λ x. x == y) xs ≡ true
    → (left : List ℕ) × (right : List ℕ) × (xs ≡ left ++ y ∷ right)
      × (put_before (λ x. x == y) n xs ≡ left ++ n ∷ y ∷ right)
      × (drop_first (λ x. x == y) xs ≡ left ++ right)
found_at n y xs h = elim (find_cases (λ x. x == y) n 0 xs) [
  | inl miss_all ↦ absurd (ground (arith, miss_all.no_hit, h))
  | inr (y', left, right, hit) ↦
      let same : y' ≡ y = ground (arith, hit.passes) in
      (
        left,
        right,
        hit.cut ∙ ap (λ z. left ++ z ∷ right) same,
        hit.put ∙ ap (λ z. left ++ n ∷ z ∷ right) same,
        hit.dropped,
      )
]

insert_node-put_before :
    (s y n : ℕ) (m : Links) (xs : List ℕ)
    → Circle s m xs
    → Fresh n (s ∷ xs)
    → any (λ x. x == y) xs ≡ true
    → Circle s (insert_node y n m) (put_before (λ x. x == y) n xs)
insert_node-put_before s y n m xs c f h =
    let (left, right, cut, put, _) = found_at n y xs h in
    subst (Circle s (insert_node y n m)) (sym put) (
      insert_node-Circle s n y m left right (subst (Circle s m) cut c)
        (subst (λ ys. Fresh n (s ∷ ys)) cut f))

remove-drop_first :
    (s y : ℕ) (m : Links) (xs : List ℕ)
    → Circle s m xs
    → any (λ x. x == y) xs ≡ true
    → Circle s (remove y m) (drop_first (λ x. x == y) xs)
remove-drop_first s y m xs c h =
    let (left, right, cut, _, dropped) = found_at 0 y xs h in
    subst (Circle s (remove y m)) (sym dropped)
      (remove-Circle s y m left right (subst (Circle s m) cut c))

exec-Holds :
    (fuel : ℕ) (op : Op) (l : IntrusiveList) (m : Links) (xs : List ℕ) (c : ℕ)
    → Circle l.sentinel m xs
    → size l ≡ c
    → Allowed fuel l.sentinel op xs
    → (st : IntrusiveList × Links) × (exec fuel op (l, m) ≡ some st)
      × Holds l.sentinel st (list_exec op (xs, c))
unfolding exec list_exec list_push_back list_push_front list_insert list_erase size
exec-Holds fuel (Op.push_back n) l m xs c r e f = (
  list_push_back n l m,
  refl,
  record {
    sentinel = refl;
    circle = insert_node-sentinel l.sentinel n m xs r f;
    count = omega (arith, e);
  },
)
exec-Holds fuel (Op.push_front n) l m xs c r e f =
    let front =
      push_front-Represents n (record l { list_size = length xs }) m xs
        (record { circle = r; counted = refl }) f in
    (
      list_push_front n l m,
      refl,
      record { sentinel = refl; circle = front.circle; count = omega (arith, e) },
    )
exec-Holds fuel (Op.insert y n) l m xs c r e f =
    let made = list_insert y n l m in
    let circle = insert_node-put_before l.sentinel y n m xs r f.0 f.1 in
    ((made.1, made.2), refl, record { sentinel = refl; circle = circle; count = omega (arith, e) })
exec-Holds fuel (Op.erase y) l m xs c r e f =
    let made = list_erase y l m in
    let circle = remove-drop_first l.sentinel y m xs r f in
    ((made.1, made.2), refl, record { sentinel = refl; circle = circle; count = e })
exec-Holds fuel Op.clear l m xs c r e f =
    let (st, done, same, empty) = clear-Represents fuel l m xs r f in
    (
      st,
      done,
      record {
        sentinel = same;
        circle = subst (λ s. Circle s st.1 []) same empty.circle;
        count = empty.counted;
      },
    )

-- Any run of push_back, push_front, insert, erase and clear, with new nodes and iterators of the list,
-- ends, and its links hold the sequence that the operations make of that at the start, with the nodes in
-- order in both directions; size() counts the insertions since the list was last cleared.
pub run-list_run :
    (fuel s : ℕ) (ops : List Op) (st : IntrusiveList × Links) (a : List ℕ × ℕ)
    → Holds s st a
    → AllAllowed fuel s ops a
    → (st' : IntrusiveList × Links) × (run fuel ops st ≡ some st') × Holds s st' (list_run ops a)
unfolding run list_run
run-list_run fuel s [] st a h ok = (st, refl, h)
run-list_run fuel s (op ∷ ops) (l, m) (xs, c) h ok =
    let circle : Circle l.sentinel m xs = subst (λ t. Circle t m xs) (sym h.sentinel) h.circle in
    let here : Allowed fuel l.sentinel op xs =
      subst (λ t. Allowed fuel t op xs) (sym h.sentinel) ok.0 in
    let (st₁, first, h₁) = exec-Holds fuel op l m xs c circle h.count here in
    let (st₂, rest, h₂) =
      run-list_run fuel s ops st₁ (list_exec op (xs, c))
        (subst (λ t. Holds t st₁ (list_exec op (xs, c))) h.sentinel h₁) ok.1 in
    (st₂, (rw (first, run) rest), h₂)
