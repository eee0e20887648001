-- ===== src/HashMap/Writes.antt =====
-- Writing to and erasing from one chain of hash_map.hpp.
use mathlib.Core.Option.{some-ne-none, some-injective}
use gloxor.Base.{
  ℕ, suc, ◌≡◌, ◌↔◌, refl, sym, ◌∙◌, [], ◌∷◌, Option, none, some, Bool, true, false, if◌then◌else◌,
  length, Bool-cases, Option-cases, inl, inr, ap,
}
use gloxor.HashMap.{Chain, find_in, write_in, erase_in}
use gloxor.HashMap.Chains.{Distinct, Placed}

eq-sym :
    {K : Type 0} (eq : K → K → Bool)
    → ((a b : K) → (eq a b ≡ true) ↔ (a ≡ b))
    → (a b : K) → eq a b ≡ eq b a
eq-sym eq decides a b = elim (Bool-cases (eq a b)) [
  | inl e ↦ e ∙ sym ((decides b a).1 (sym ((decides a b).0 e)))
  | inr e ↦ elim (Bool-cases (eq b a)) [
    | inl h ↦ (decides a b).1 (sym ((decides b a).0 h)) ∙ sym h
    | inr h ↦ e ∙ sym h
  ]
]

if_if :
    {A : Type 0} (b : Bool) (x y z : A)
    → (if b then x else z) ≡ (if b then x else if b then y else z)
if_if true x y z = refl
if_if false x y z = refl

module _ {K V : Type 0} (hash : K → ℕ) (eq : K → K → Bool)
    (decides : (a b : K) → (eq a b ≡ true) ↔ (a ≡ b)) where
  -- `c'` is `c` with `r` found under `k`.
  pub record Changed (k : K) (r : Option V) (c c' : Chain K V) : Type 0 where
    pub finds : (k' : K) → find_in hash eq k' c' ≡ (if eq k k' then r else find_in hash eq k' c)
    pub distinct : Distinct hash eq c → Distinct hash eq c'
    pub placed : (n i : ℕ) → Placed hash eq n i c → Placed hash eq n i c'

  -- A change behind the first pair.
  Changed-tail :
      (k key : K) (w : V) (r : Option V) (c c' : Chain K V)
      → eq key k ≡ false
      → Changed k r c c'
      → Changed k r ((key, w) ∷ c) ((key, w) ∷ c')
  unfolding find_in
  Changed-tail k key w r c c' ne ch =
      let ne' : eq k key ≡ false = eq-sym eq decides k key ∙ ne in
      record {
        finds = λ k'. elim (Bool-cases (eq key k')) [
          | inl e ↦ let off : eq k k' ≡ false = rw (← (decides key k').0 e) ne' in rw (e, off) refl
          | inr other ↦ rw (other, ch.finds k') refl
        ];
        distinct = λ (new, d). (rw (ch.finds key, ne') new, ch.distinct d);
        placed = λ n i (here, p). (here, ch.placed n i p);
      }

  pub write_in-Changed :
      (k : K) (v old : V) (c : Chain K V)
      → find_in hash eq k c ≡ some old
      → Changed k (some v) c (write_in hash eq k v c) × (length (write_in hash eq k v c) ≡ length c)
  unfolding write_in find_in
  write_in-Changed k v old [] h = absurd (some-ne-none old (sym h))
  write_in-Changed k v old ((key, w) ∷ c) h = elim (Bool-cases (eq key k)) [
    | inl e ↦
        let same : key ≡ k = (decides key k).0 e in
        rw e (
          record {
            finds = λ k'. rw same (if_if (eq k k') (some v) (some w) (find_in hash eq k' c));
            distinct = λ d. d;
            placed = λ n i p. p;
          },
          refl,
        )
    | inr ne ↦
        let (ch, len) = write_in-Changed k v old c (rw ne at h) in
        rw ne (Changed-tail k key w (some v) c _ ne ch, ap suc len)
  ]

  pub erase_in-Changed :
      (k : K) (c c' : Chain K V)
      → Distinct hash eq c
      → erase_in hash eq k c ≡ some c'
      → Changed k none c c' × (length c ≡ suc (length c'))
  unfolding erase_in find_in
  erase_in-Changed k [] c' d h = absurd (some-ne-none c' (sym h))
  erase_in-Changed k ((key, w) ∷ c) c' (new, d) h = elim (Bool-cases (eq key k)) [
    | inl e ↦
        let same : key ≡ k = (decides key k).0 e in
        let out : c ≡ c' = some-injective c c' (rw e at h) in
        rw (← out) (
          record {
            finds = λ k'. elim (Bool-cases (eq k k')) [
              | inl e' ↦ rw (e', ← (decides k k').0 e', ← same) new
              | inr ne ↦ rw (ne, same, ne) refl
            ];
            distinct = λ (new', d'). d';
            placed = λ n i (here, p). p;
          },
          refl,
        )
    | inr ne ↦ elim (Option-cases (erase_in hash eq k c)) [
      | inl gone ↦ absurd (some-ne-none c' (sym (rw (ne, gone) at h)))
      | inr (rest, found) ↦
          let out : (key, w) ∷ rest ≡ c' = some-injective _ c' (rw (ne, found) at h) in
          let (ch, len) = erase_in-Changed k c rest d found in
          rw (← out) (Changed-tail k key w none c rest ne ch, ap suc len)
    ]
  ]

  pub erase_in-none :
      (k : K) (c : Chain K V) → erase_in hash eq k c ≡ none → find_in hash eq k c ≡ none
  unfolding erase_in find_in
  erase_in-none k [] h = refl
  erase_in-none k ((key, w) ∷ c) h = elim (Bool-cases (eq key k)) [
    | inl e ↦ absurd (some-ne-none c (rw e at h))
    | inr ne ↦ elim (Option-cases (erase_in hash eq k c)) [
      | inl gone ↦ rw ne (erase_in-none k c gone)
      | inr (rest, found) ↦ absurd (some-ne-none ((key, w) ∷ rest) (rw (ne, found) at h))
    ]
  ]

  -- And the other way round: a key that is found is erased.
  pub erase_in-some :
      (k : K) (c c' : Chain K V)
      → erase_in hash eq k c ≡ some c'
      → (v : V) × (find_in hash eq k c ≡ some v)
  unfolding erase_in find_in
  erase_in-some k [] c' h = absurd (some-ne-none c' (sym h))
  erase_in-some k ((key, w) ∷ c) c' h = elim (Bool-cases (eq key k)) [
    | inl e ↦ (w, rw e refl)
    | inr ne ↦ elim (Option-cases (erase_in hash eq k c)) [
      | inl gone ↦ absurd (some-ne-none c' (sym (rw (ne, gone) at h)))
      | inr (rest, found) ↦ let (v, f) = erase_in-some k c rest found in (v, rw ne f)
    ]
  ]
