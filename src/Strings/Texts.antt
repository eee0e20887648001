-- ===== src/Strings/Texts.antt =====
-- Strings made from characters, and characters appended.
use gloxor.Base.{
  ℕ, ◌+◌, ◌/◌, ◌≤◌, ◌<◌, ◌≡◌, ◌≢◌, refl, ap, sym, ◌∙◌, ◌⊎◌, inl, inr, List, [], ◌∷◌, ◌++◌, arith,
  length, Option, none, some, Bool, true, ltb, if◌then◌else◌, Bool-cases,
}
use mathlib.Core.List.{append-nil, append_assoc}
use gloxor.Strings.{
  Repr, size, view, capacity, next_capacity, ensure_can_fit, reserve, push_all, from_chars, append,
  new_string,
}
use gloxor.Strings.Pushes.{
  IsValid, IsSized, push_back-Pushed, next_capacity-small, next_capacity-wide, enlarge-Enlarged,
}

module _ (malloc : ℕ → Option (List ℕ)) (factor : ℕ) where
  -- Characters pushed one after the other, up to 85 in all, where aligned_alloc never refuses.
  push_all-append :
      (cs : List ℕ) (s : Repr)
      → IsSized malloc
      → ((n : ℕ) → malloc n ≢ none)
      → (factor ≡ 1) ⊎ (factor ≡ 2)
      → IsValid factor s
      → size s + length cs ≤ 85
      → (s' : Repr) × (push_all malloc factor cs s ≡ some s')
        × IsValid factor s'
        × (view s' ≡ view s ++ cs)
  unfolding push_all
  push_all-append [] s sized giving hf v h = (s, refl, v, sym (append-nil (view s)))
  push_all-append (c ∷ cs) s sized giving hf v h =
      let ((ok, s₁), e, p) =
        push_back-Pushed malloc factor c s sized hf v
          (next_capacity-small malloc factor s hf (omega arith)) in
      let done : ok ≡ true = elim p.refused [ inl t ↦ t | inr out ↦ absurd (giving _ out) ] in
      let longer : size s₁ ≡ size s + 1 = ground (arith, p.longer, done) in
      let text : view s₁ ≡ view s ++ c ∷ [] =
        p.text ∙ ap (λ (b : Bool). if b then view s ++ c ∷ [] else view s) done in
      let (s', rest, v', t) =
        push_all-append cs s₁ sized giving hf p.valid (omega (arith, longer, h)) in
      (
        s',
        (rw (e, push_all) rest),
        v',
        t ∙ ap (λ l. l ++ cs) text ∙ append_assoc (view s) (c ∷ []) cs,
      )

  reserve-view :
      (n : ℕ) (s : Repr)
      → IsSized malloc
      → (factor ≡ 1) ⊎ (factor ≡ 2)
      → IsValid factor s
      → next_capacity malloc factor (capacity malloc factor s) / factor < 128
      → (s' : Repr) × (reserve malloc factor n s ≡ some s')
        × IsValid factor s'
        × (view s' ≡ view s)
        × (size s' ≡ size s)
  unfolding reserve ensure_can_fit
  reserve-view n s sized hf v small =
      let now = capacity malloc factor s in
      let next = next_capacity malloc factor now in
      elim (Bool-cases (ltb now n)) [
        | inr fits ↦ (s, (rw (fits, reserve, ensure_can_fit) refl), v, refl, refl)
        | inl full ↦
            let (wide, more) = next_capacity-wide malloc factor s v in
            elim (enlarge-Enlarged malloc factor next s sized v hf small wide more) [
              | inl (e, none_left) ↦
                  (s, (rw (full, reserve, ensure_can_fit, e) refl), v, refl, refl)
              | inr (s', e, larger) ↦ (
                s',
                (rw (full, reserve, ensure_can_fit, e) refl),
                larger.valid,
                larger.same_view,
                larger.same_size,
              )
            ]
      ]

  -- string(const char*) of up to 85 characters, where aligned_alloc never refuses, is the string of these.
  pub from_chars-view :
      (cs : List ℕ)
      → IsSized malloc
      → ((n : ℕ) → malloc n ≢ none)
      → (factor ≡ 1) ⊎ (factor ≡ 2)
      → length cs ≤ 85
      → (s : Repr) × (from_chars malloc factor cs ≡ some s) × IsValid factor s × (view s ≡ cs)
  unfolding from_chars next_capacity capacity size view
  from_chars-view cs sized giving hf h =
      let small : next_capacity malloc factor 23 / factor < 128 = elim hf [
        | inl e ↦ rw e (omega arith)
        | inr e ↦ rw e (omega arith)
      ] in
      let (s, e, v, t, n) =
        reserve-view (length cs) new_string sized hf (omega arith, refl) small in
      let (s', rest, v', t') = push_all-append cs s sized giving hf v (omega (arith, n, h)) in
      (s', (rw (e, from_chars) rest), v', t' ∙ ap (λ l. l ++ cs) t)

  -- append to a string in order, up to 85 characters in all, where aligned_alloc never refuses.
  pub append-view :
      (cs : List ℕ) (s : Repr)
      → IsSized malloc
      → ((n : ℕ) → malloc n ≢ none)
      → (factor ≡ 1) ⊎ (factor ≡ 2)
      → IsValid factor s
      → next_capacity malloc factor (capacity malloc factor s) / factor < 128
      → size s + length cs ≤ 85
      → (s' : Repr) × (append malloc factor cs s ≡ some s')
        × IsValid factor s'
        × (view s' ≡ view s ++ cs)
  unfolding append
  append-view cs s sized giving hf v small h =
      let (s₁, e, v₁, t, n) =
        reserve-view (capacity malloc factor s + length cs) s sized hf v small in
      let (s', rest, v', t') = push_all-append cs s₁ sized giving hf v₁ (omega (arith, n, h)) in
      (s', (rw (e, append) rest), v', t' ∙ ap (λ l. l ++ cs) t)
