-- ===== src/Result/Tests.antt =====
-- Runs of result.hpp, and the theorems at inputs.
use gloxor.Base.{
  ℕ, ◌≡◌, ◌⊎◌, inl, inr, Bool, true, false, ◌==◌, ◌↔◌, List, [], ◌∷◌, ==_iff, if◌then◌else◌, ◌+◌,
}
use gloxor.Union.{Outcome, returns, misuse, assert_failed, ◌>>=◌}
use gloxor.Result.{
  Result, holding, eq, val, err, val_or, err_or, and_then, or_else, transform, transform_err,
}
use gloxor.Result.Assign.{Call, assigns, moves, renews, run, spec_run, run-spec_run}
use gloxor.Result.Laws.{eq-decides, by_sum, accessors, and_then_laws, transform_sum}
use gloxor.Result.Ref.{ref_holding, ref_assign, ref_eq, ref_assign-holding, ref_eq-misuse}

abbrev calls : List (Call ℕ ℕ)
calls = renews 0 (inr 4) ∷ assigns 1 0 ∷ moves 2 1 ∷ []

abbrev vars : ℕ → ℕ ⊎ ℕ
vars k = inl k

run-spec_run_example :
    run (λ v. 0) (λ e. 0) calls (λ k. holding (vars k))
    ≡ returns (λ k. holding (spec_run (λ v. 0) (λ e. 0) calls vars k))
run-spec_run_example = run-spec_run (λ v. 0) (λ e. 0) calls vars

abbrev three : ℕ ⊎ ℕ
three = inl 3

abbrev other_three : ℕ ⊎ ℕ
other_three = inr 3

eq-decides_run :
    (b : Bool) × (eq (λ v w. v == w) (λ d e. d == e) (holding three) (holding other_three)
      ≡ returns b)
    × ((b ≡ true) ↔ (three ≡ other_three))
eq-decides_run = eq-decides (λ v w. v == w) (λ d e. d == e) ==_iff ==_iff three other_three

accessors_run :
    (val (holding {V = ℕ} {E = ℕ} (inr 5)) ≡ assert_failed)
    × (err (holding {V = ℕ} {E = ℕ} (inr 5)) ≡ returns 5)
    × (val_or 7 (holding {V = ℕ} {E = ℕ} (inr 5)) ≡ returns 7)
    × (err_or 8 (holding {V = ℕ} {E = ℕ} (inr 5)) ≡ returns 5)
accessors_run = accessors 7 8 (inr 5)

abbrev half : ℕ → ℕ ⊎ ℕ
half v = if v == 4 then inl 2 else inr v

and_then_laws_run :
    let run_with : (ℕ → ℕ ⊎ ℕ) → Result ℕ ℕ → Outcome (Result ℕ ℕ) =
      λ k r. and_then r (λ v. returns (holding (k v))) in
    ((run_with half (holding (inl 4)) >>= run_with half)
      ≡ run_with (λ v. by_sum half inr (half v)) (holding (inl 4)))
    × (run_with inl (holding (inl 4)) ≡ returns (holding (inl 4)))
    × (or_else (holding (inl 4)) (λ e. returns (holding (half e)))
        ≡ returns (holding (by_sum inl half (inl 4))))
and_then_laws_run = and_then_laws half half half (inl 4)

transform_sum_run :
    (transform (λ v. v + 1) (holding {V = ℕ} {E = ℕ} (inl 4)) ≡ returns (holding (inl 5)))
    × (transform_err (λ b. if b then 1 else 0) (λ e. e + 1) (holding {V = ℕ} {E = ℕ} (inl 4))
        ≡ returns (holding (inl 1)))
transform_sum_run = transform_sum (λ b. if b then 1 else 0) (λ v. v + 1) (λ e. e + 1) (inl 4)

ref_assign-holding_run :
    ref_assign (ref_holding {E = ℕ} (inr 5)) (ref_holding (inl 9)) ≡ returns (ref_holding (inl 9))
ref_assign-holding_run = ref_assign-holding (inr 5) (inl 9)

ref_eq-misuse_run :
    (ref_eq (λ d e. d == e) (ref_holding (inr 5)) (ref_holding (inl 9)) ≡ misuse)
    × (ref_eq (λ d e. d == e) (ref_holding (inl 9)) (ref_holding (inr 5)) ≡ returns false)
ref_eq-misuse_run = ref_eq-misuse (λ d e. d == e) 5 9
