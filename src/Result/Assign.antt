-- ===== src/Result/Assign.antt =====
-- Construction, assignment and destruction of results: no call touches a member that is not alive,
-- also in any sequence of calls on a set of variables.
use gloxor.Base.{
  ℕ, ◌≡◌, ◌⊎◌, inl, inr, refl, List, [], ◌∷◌, ◌==◌, if◌then◌else◌, Bool-cases, fun_ext,
}
use gloxor.Union.{
  read_val, read_err, assign_val, assign_err, construct_val, construct_err, destroy_val,
  destroy_err, Outcome, returns, ◌>>=◌, nothing,
}
use gloxor.Result.{Result, holding, destroy, copy, assign, move, move_assign}

-- What a move leaves in the source.
abbrev pub moved : {V E : Type 0} → (V → V) → (E → E) → V ⊎ E → V ⊎ E
moved moved_val moved_err (inl v) = inl (moved_val v)
moved moved_val moved_err (inr e) = inr (moved_err e)

module _ {V E : Type 0} where
  -- Assigning any result to any other ends in a result that holds what the other holds: in none of
  -- the four cases is a member read, assigned, destroyed or constructed at the wrong time.
  pub assign-holding : (x y : V ⊎ E) → assign (holding x) (holding y) ≡ returns (holding y)
  unfolding assign read_val read_err assign_val assign_err construct_val construct_err destroy_val
      destroy_err
  assign-holding (inl v) (inl w) = refl
  assign-holding (inl v) (inr e) = refl
  assign-holding (inr d) (inl w) = refl
  assign-holding (inr d) (inr e) = refl

  pub copy-holding : (x : V ⊎ E) → copy (holding x) ≡ returns (holding x)
  unfolding copy read_val read_err construct_val construct_err
  copy-holding (inl v) = refl
  copy-holding (inr e) = refl

  pub destroy-holding :
      (x : V ⊎ E) → destroy (holding x) ≡ returns (record (holding x) { slot = nothing })
  unfolding destroy destroy_val destroy_err
  destroy-holding (inl v) = refl
  destroy-holding (inr e) = refl

  module _ (moved_val : V → V) (moved_err : E → E) where
    pub move-holding :
        (x : V ⊎ E)
        → move moved_val moved_err (holding x)
          ≡ returns (holding x, holding (moved moved_val moved_err x))
    unfolding move read_val read_err assign_val assign_err construct_val construct_err
    move-holding (inl v) = refl
    move-holding (inr e) = refl

    pub move_assign-holding :
        (x y : V ⊎ E)
        → move_assign moved_val moved_err (holding x) (holding y)
          ≡ returns (holding y, holding (moved moved_val moved_err y))
    unfolding move_assign read_val read_err assign_val assign_err construct_val construct_err
        destroy_val destroy_err
    move_assign-holding (inl v) (inl w) = refl
    move_assign-holding (inl v) (inr e) = refl
    move_assign-holding (inr d) (inl w) = refl
    move_assign-holding (inr d) (inr e) = refl

-- Calls on variables: `i = j`, `i = move(j)` (with `i` and `j` two variables), and the end of the
-- scope of `i`, where a new result takes its place.
pub data Call (V E : Type 0) : Type 0 where
  assigns : ℕ → ℕ → Call V E
  moves : ℕ → ℕ → Call V E
  renews : ℕ → V ⊎ E → Call V E

abbrev pub put : {A : Type 0} → ℕ → A → (ℕ → A) → ℕ → A
put i a f k = if k == i then a else f k

module _ {V E : Type 0} (moved_val : V → V) (moved_err : E → E) where
  unfoldable pub step : Call V E → (ℕ → Result V E) → Outcome (ℕ → Result V E)
  unfolding assign copy move_assign destroy
  step (assigns i j) f = do r ← assign (f i) (f j); returns (put i r f)
  step (moves i j) f = do
    (r, left) ← move_assign moved_val moved_err (f i) (f j)
    returns (put i r (put j left f))
  step (renews i x) f = do r ← destroy (f i); returns (put i (holding x) f)

  unfoldable pub run : List (Call V E) → (ℕ → Result V E) → Outcome (ℕ → Result V E)
  unfolding step
  run [] f = returns f
  run (c ∷ cs) f = do f' ← step c f; run cs f'

  -- The same calls on variables that hold a value or an error each.
  unfoldable pub spec_step : Call V E → (ℕ → V ⊎ E) → ℕ → V ⊎ E
  spec_step (assigns i j) x = put i (x j) x
  spec_step (moves i j) x = put i (x j) (put j (moved moved_val moved_err (x j)) x)
  spec_step (renews i y) x = put i y x

  unfoldable pub spec_run : List (Call V E) → (ℕ → V ⊎ E) → ℕ → V ⊎ E
  unfolding spec_step
  spec_run [] x = x
  spec_run (c ∷ cs) x = spec_run cs (spec_step c x)

  -- A write of a held value is the write of what it holds.
  put-holding :
      (i : ℕ) (y : V ⊎ E) (x : ℕ → V ⊎ E)
      → put i (holding y) (λ k. holding (x k)) ≡ (λ k. holding (put i y x k))
  put-holding i y x =
      fun_ext
        (λ k. elim (Bool-cases (k == i)) [ inl same ↦ rw same refl | inr other ↦ rw other refl ])

  step-spec_step :
      (c : Call V E) (x : ℕ → V ⊎ E)
      → step c (λ k. holding (x k)) ≡ returns (λ k. holding (spec_step c x k))
  unfolding step spec_step
  step-spec_step (assigns i j) x = rw (assign-holding (x i) (x j), put-holding i (x j) x) refl
  step-spec_step (moves i j) x =
      let left = moved moved_val moved_err (x j) in
      rw
        (
          move_assign-holding moved_val moved_err (x i) (x j),
          put-holding j left x,
          put-holding i (x j) (put j left x),
        )
        refl
  step-spec_step (renews i y) x = rw (destroy-holding (x i), put-holding i y x) refl

  -- Any sequence of copy assignments, move assignments and ends of scope on variables that hold
  -- results ends without a misuse of a union member, and every variable holds what plain assignment
  -- of values and errors gives it.
  pub run-spec_run :
      (cs : List (Call V E)) (x : ℕ → V ⊎ E)
      → run cs (λ k. holding (x k)) ≡ returns (λ k. holding (spec_run cs x k))
  unfolding run spec_run
  run-spec_run [] x = refl
  run-spec_run (c ∷ cs) x = rw (step-spec_step c x) (run-spec_run cs (spec_step c x))
