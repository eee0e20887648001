-- ===== src/Strings/Pushes.antt =====
-- push_back keeps a string in order and adds its character, or refuses and changes nothing.
use gloxor.Base.{
  ℕ, suc, ◌+◌, ◌*◌, ◌/◌, ◌%◌, ◌≤◌, ◌<◌, ◌≡◌, refl, ap, sym, ◌∙◌, ◌⊎◌, inl, inr, List, [], ◌∷◌, ◌++◌,
  arith, length, take, drop, set, Option, none, some, Bool, true, false, ltb, leb, if◌then◌else◌,
  Bool-cases, length-set,
}
use gloxor.Strings.{
  Repr, store, copy_bytes, size, bytes, view, set_size, set_bytes, capacity, grow, cap_field,
  enlarge, next_capacity, ensure_can_fit, put_at, push_back,
}
use gloxor.Strings.Blocks.{take-set-suc, take-take_append, length-copy, field_bounds, div-lt_field}

-- The size is at most the capacity, the block has room for the capacity, and a big string is not small.
abbrev pub IsValid : ℕ → Repr → Type 0
IsValid factor (Repr.short n d) = (n ≤ 23) × (length d ≡ 23)
IsValid factor (Repr.big k n d) = (n ≤ k * factor) × (k * factor ≤ length d) × (32 ≤ k * factor)

-- A block that aligned_alloc answers with is as large as asked.
abbrev pub IsSized : (ℕ → Option (List ℕ)) → Type 0
IsSized malloc = (n : ℕ) (b : List ℕ) → malloc n ≡ some b → length b ≡ n

pub Option-cases {ℓ} : {A : Type ℓ} (o : Option A) → (o ≡ none) ⊎ ((a : A) × (o ≡ some a))
Option-cases none = inl refl
Option-cases (some a) = inr (a, refl)

pub copy_bytes-some :
    (n : ℕ) (from to : List ℕ)
    → n ≤ length from
    → n ≤ length to
    → copy_bytes n from to ≡ some (take n from ++ drop n to)
unfolding copy_bytes
copy_bytes-some n from to h g =
    let a : leb n (length from) ≡ true = ground arith in
    let b : leb n (length to) ≡ true = ground arith in rw (a, b) refl

pub store-some : (i c : ℕ) (d : List ℕ) → i < length d → store i c d ≡ some (set d i c)
unfolding store
store-some i c d h = let a : ltb i (length d) ≡ true = ground arith in rw a refl

module _ (malloc : ℕ → Option (List ℕ)) (factor : ℕ) where
  size-le_capacity :
      (s : Repr)
      → IsValid factor s
      → (size s ≤ capacity malloc factor s) × (capacity malloc factor s ≤ length (bytes s))
  unfolding size capacity bytes
  size-le_capacity (Repr.short n d) v = (v.0, omega (arith, v.1))
  size-le_capacity (Repr.big k n d) v = (v.0, v.1)

  -- What a larger buffer leaves: the same text, and room for one more character.
  pub record Enlarged (n : ℕ) (s s' : Repr) : Type 0 where
    pub valid : IsValid factor s'
    pub same_size : size s' ≡ size s
    pub same_view : view s' ≡ view s
    pub room : size s' < capacity malloc factor s'

  pub enlarge-Enlarged :
      (n : ℕ) (s : Repr)
      → IsSized malloc
      → IsValid factor s
      → (factor ≡ 1) ⊎ (factor ≡ 2)
      → n / factor < 128
      → 32 ≤ n
      → capacity malloc factor s + 2 ≤ n
      → ((enlarge malloc factor n s ≡ some (false, s)) × (malloc n ≡ none))
        ⊎ ((s' : Repr) × (enlarge malloc factor n s ≡ some (true, s')) × Enlarged n s s')
  unfolding enlarge grow capacity size bytes view cap_field
  enlarge-Enlarged n (Repr.short m d) sized v hf fits wide more = elim (Option-cases (malloc n)) [
    | inl e ↦ inl ((rw (e, enlarge) refl), e)
    | inr (new, e) ↦
        let room = sized n new e in
        let copied = copy_bytes-some m d new (omega (arith, v)) (omega (arith, v, room)) in
        let (low, high, large) = field_bounds n factor hf fits wide in
        inr (
          Repr.big (n / factor % 128) m (take m d ++ drop m new),
          (rw (e, enlarge, copied) refl),
          record {
            valid = (
              omega (arith, v, high, more),
              omega (
                arith,
                length-copy m d new (omega (arith, v)) (omega (arith, v, room)),
                low,
                room,
              ),
              large,
            );
            same_size = refl;
            same_view = take-take_append m m d (drop m new) (omega arith) (omega (arith, v));
            room = omega (arith, v, high, more);
          },
        )
  ]
  enlarge-Enlarged n (Repr.big k m d) sized v hf fits wide more = elim (Option-cases (malloc n)) [
    | inl e ↦ inl ((rw (e, enlarge, grow) refl), e)
    | inr (new, e) ↦
        let room = sized n new e in
        let c = k * factor in
        let copied = copy_bytes-some c d new v.1 (omega (arith, room, more)) in
        let (low, high, large) = field_bounds n factor hf fits wide in
        inr (
          Repr.big (n / factor % 128) m (take c d ++ drop c new),
          (rw (e, enlarge, grow, copied) refl),
          record {
            valid = (
              omega (arith, v, high, more),
              omega (arith, length-copy c d new v.1 (omega (arith, room, more)), low, room),
              large,
            );
            same_size = refl;
            same_view = take-take_append m c d (drop c new) v.0 v.1;
            room = omega (arith, v, high, more);
          },
        )
  ]

  -- Writing the character behind the last one, where there is room.
  record Put (c : ℕ) (s s' : Repr) : Type 0 where
    valid : IsValid factor s'
    text : view s' ≡ view s ++ c ∷ []
    longer : size s' ≡ size s + 1
    same_room : capacity malloc factor s' ≡ capacity malloc factor s

  put_at-Put :
      (c : ℕ) (s : Repr)
      → IsValid factor s
      → size s < capacity malloc factor s
      → (s' : Repr) × (put_at malloc factor (size s) c s ≡ some (true, s')) × Put c s s'
  unfolding put_at size bytes view set_bytes set_size capacity
  put_at-Put c (Repr.short n d) v h =
      let inside : n < length d = omega (arith, v, h) in
      let seven : (n + 1) % 128 ≡ suc n = omega (arith, h) in
      (
        Repr.short ((n + 1) % 128) (set d n c),
        (rw (store-some n c d inside, put_at) refl),
        record {
          valid = (omega (arith, h), omega (arith, v, length-set {0} d n c));
          text = ap (λ j. take j (set d n c)) seven ∙ take-set-suc n c d inside;
          longer = omega (arith, h);
          same_room = refl;
        },
      )
  put_at-Put c (Repr.big k n d) v h =
      let inside : n < length d = omega (arith, v, h) in
      let one : n + 1 ≡ suc n = omega arith in
      (
        Repr.big k (n + 1) (set d n c),
        (rw (store-some n c d inside, put_at) refl),
        record {
          valid = (omega (arith, h), omega (arith, v, length-set {0} d n c), v.2);
          text = ap (λ j. take j (set d n c)) one ∙ take-set-suc n c d inside;
          longer = refl;
          same_room = refl;
        },
      )

  -- The next capacity leaves room for two more.
  pub next_capacity-wide :
      (s : Repr)
      → IsValid factor s
      → let n : ℕ = next_capacity malloc factor (capacity malloc factor s) in
        (32 ≤ n) × (capacity malloc factor s + 2 ≤ n)
  unfolding next_capacity capacity
  next_capacity-wide (Repr.short n d) v = (omega arith, omega arith)
  next_capacity-wide (Repr.big k n d) v =
      let big : ltb (k * factor) 32 ≡ false = ground (arith, v.2) in
      rw big (omega (arith, v.2), omega (arith, v.2))

  -- What push_back leaves: with the character or as it was, and then because of a refusal.
  pub record Pushed (c : ℕ) (s : Repr) (r : Bool × Repr) : Type 0 where
    pub valid : IsValid factor r.1
    pub text : view r.1 ≡ (if r.0 then view s ++ c ∷ [] else view s)
    pub longer : size r.1 ≡ (if r.0 then size s + 1 else size s)
    pub refused :
        (r.0 ≡ true) ⊎ (malloc (next_capacity malloc factor (capacity malloc factor s)) ≡ none)

  Put-Pushed :
      (c : ℕ) (s s' s'' : Repr)
      → size s' ≡ size s
      → view s' ≡ view s
      → Put c s' s''
      → Pushed c s (true, s'')
  Put-Pushed c s s' s'' e f p = record {
    valid = p.valid;
    text = p.text ∙ ap (λ l. l ++ c ∷ []) f;
    longer = p.longer ∙ ap (λ n. n + 1) e;
    refused = inl refl;
  }

  -- push_back of a string in order that has room, or whose next capacity fits the field: it ends within
  -- its blocks, the string stays in order, and it has the character at its end or, where aligned_alloc
  -- refuses, is as it was.
  pub push_back-Pushed :
      (c : ℕ) (s : Repr)
      → IsSized malloc
      → (factor ≡ 1) ⊎ (factor ≡ 2)
      → IsValid factor s
      → (size s < capacity malloc factor s)
        ⊎ (next_capacity malloc factor (capacity malloc factor s) / factor < 128)
      → (r : Bool × Repr) × (push_back malloc factor c s ≡ some r) × Pushed c s r
  unfolding push_back ensure_can_fit
  push_back-Pushed c s sized hf v room =
      let cap_now = capacity malloc factor s in
      let n = next_capacity malloc factor cap_now in
      elim (Bool-cases (ltb cap_now (size s + 1))) [
        | inr fits ↦
            let (s', e, p) = put_at-Put c s v (ground (arith, fits)) in
            ((true, s'), (rw (fits, push_back, ensure_can_fit) e), Put-Pushed c s s s' refl refl p)
        | inl full ↦
            let small : n / factor < 128 = elim room [
              | inl free ↦ absurd (ground (arith, full, free))
              | inr h ↦ h
            ] in
            let (wide, more) = next_capacity-wide s v in
            elim (enlarge-Enlarged n s sized v hf small wide more) [
              | inl (e, none_left) ↦ (
                (false, s),
                (rw (full, push_back, ensure_can_fit, e) refl),
                record { valid = v; text = refl; longer = refl; refused = inr none_left },
              )
              | inr (s', e, larger) ↦
                  let (s'', put, p) = put_at-Put c s' larger.valid larger.room in
                  let put' : put_at malloc factor (size s) c s' ≡ some (true, s'') =
                    ap (λ i. put_at malloc factor i c s') (sym larger.same_size) ∙ put in
                  (
                    (true, s''),
                    (rw (full, push_back, ensure_can_fit, e) put'),
                    Put-Pushed c s s' s'' larger.same_size larger.same_view p,
                  )
            ]
      ]

  pub next_capacity-small :
      (s : Repr)
      → (factor ≡ 1) ⊎ (factor ≡ 2)
      → size s < 85
      → (size s < capacity malloc factor s)
        ⊎ (next_capacity malloc factor (capacity malloc factor s) / factor < 128)
  unfolding next_capacity
  next_capacity-small s hf h =
      let now = capacity malloc factor s in
      elim (Bool-cases (ltb (size s) now)) [
        | inl free ↦ inl (ground (arith, free))
        | inr full ↦
            let small : next_capacity malloc factor now ≤ 126 = ground (arith, full) in
            inr (div-lt_field (next_capacity malloc factor now) factor hf small)
      ]
