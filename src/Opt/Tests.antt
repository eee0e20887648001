-- ===== src/Opt/Tests.antt =====
-- The theorems on option.hpp at inputs.
use gloxor.Base.{
  ℕ, suc, ◌*◌, ◌+◌, ◌≡◌, ◌↔◌, Option, none, some, Bool, true, ◌==◌, ==_iff, if◌then◌else◌,
}
use gloxor.Union.{Outcome, returns, assert_failed, ◌>>=◌, nothing}
use gloxor.Opt.{
  Opt, holding, destroy, copy, move, val, eq, unwrap_or, val_or, and_then, or_else, transform,
}
use gloxor.Opt.Ref.{
  ref_opt, opt_val, opt_val_or, opt_or_else, opt_and_then, opt_transform, ref_opt-calls,
}
use gloxor.Opt.Laws.{by_option, opt_map, lifetime, opt_eq-decides, opt_accessors, opt_monad}

abbrev three : Option ℕ
three = some 3

lifetime_run :
    (copy (holding three) ≡ returns (holding three))
    × (move (λ v. 0) (holding three) ≡ returns (holding three, holding (opt_map (λ v. 0) three)))
    × (destroy (holding three) ≡ returns (record (holding three) { slot = nothing }))
lifetime_run = lifetime (λ v. 0) three

opt_eq-decides_run :
    (b : Bool) × (eq (λ v w. v == w) (holding three) (holding none) ≡ returns b)
    × ((b ≡ true) ↔ (three ≡ none))
opt_eq-decides_run = opt_eq-decides (λ v w. v == w) ==_iff three none

opt_accessors_run :
    (val (holding three) ≡ by_option assert_failed returns three)
    × (unwrap_or 7 (holding three) ≡ returns (by_option 7 (λ v. v) three))
    × (val_or 7 (holding three) ≡ unwrap_or 7 (holding three))
opt_accessors_run = opt_accessors 7 three

abbrev small : ℕ → Option ℕ
small v = if v == 3 then some 4 else none

opt_monad_run :
    let run : (ℕ → Option ℕ) → Opt ℕ → Outcome (Opt ℕ) =
      λ k o. and_then o (λ v. returns (holding (k v))) in
    ((run small (holding three) >>= run small)
      ≡ run (λ v. by_option none small (small v)) (holding three))
    × (transform (λ v. v + 1) (holding three) ≡ run (λ v. some (v + 1)) (holding three))
    × (or_else (holding three) (returns (holding none))
        ≡ returns (holding (by_option none some three)))
opt_monad_run = opt_monad small small (λ v. v + 1) three none

abbrev squares : ℕ → ℕ
squares p = p * p

ref_opt-calls_run :
    (opt_val (ref_opt three) ≡ by_option assert_failed (λ p. returns (suc p)) three)
    × (opt_val_or squares 7 (ref_opt three) ≡ by_option 7 (λ p. squares (suc p)) three)
    × (opt_or_else squares (ref_opt three) 7 ≡ opt_val_or squares 7 (ref_opt three))
    × (opt_and_then squares 0 (ref_opt three) (λ v. v + 1)
        ≡ by_option 0 (λ p. squares (suc p) + 1) three)
    × (opt_transform squares (ref_opt three) (λ v. v + 1)
        ≡ by_option none (λ p. some (squares (suc p) + 1)) three)
ref_opt-calls_run = ref_opt-calls squares 7 0 (λ v. v + 1) three
