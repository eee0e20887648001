-- ===== src/Opt/Laws.antt =====
-- The calls of `glox::option` on every option that code can build.
use mathlib.Core.Bool.{false≢true}
use mathlib.Core.Option.{some-injective, some-ne-none}
use gloxor.Base.{◌≡◌, ◌↔◌, refl, sym, ap, Option, none, some, Bool, true, false}
use gloxor.Union.{
  Outcome, returns, assert_failed, ◌>>=◌, nothing, read_val, construct_val, destroy_val, assign_val,
}
use gloxor.Opt.{
  Opt, holding, destroy, copy, move, val, eq, unwrap_or, val_or, and_then, or_else, transform,
}

abbrev pub by_option : {V R : Type 0} → R → (V → R) → Option V → R
by_option r f none = r
by_option r f (some v) = f v

abbrev pub opt_map : {V : Type 0} → (V → V) → Option V → Option V
opt_map f none = none
opt_map f (some v) = some (f v)

-- On an option that holds `x`, the copy and the move give an option that holds `x`, the move leaves
-- what the type's move leaves, and the destructor leaves no member alive: none of them reads,
-- constructs or destroys the member at the wrong time.
pub lifetime :
    {V : Type 0} (moved_val : V → V) (x : Option V)
    → (copy (holding x) ≡ returns (holding x))
      × (move moved_val (holding x) ≡ returns (holding x, holding (opt_map moved_val x)))
      × (destroy (holding x) ≡ returns (record (holding x) { slot = nothing }))
unfolding copy move destroy read_val construct_val destroy_val assign_val
lifetime moved_val none = (refl, refl, refl)
lifetime moved_val (some v) = (refl, refl, refl)

module _ {V : Type 0} (eq_val : V → V → Bool) where
  abbrev eq_option : Option V → Option V → Bool
  eq_option none none = true
  eq_option none (some w) = false
  eq_option (some v) none = false
  eq_option (some v) (some w) = eq_val v w

  eq-eq_option : (x y : Option V) → eq eq_val (holding x) (holding y) ≡ returns (eq_option x y)
  unfolding eq read_val
  eq-eq_option none none = refl
  eq-eq_option none (some w) = refl
  eq-eq_option (some v) none = refl
  eq-eq_option (some v) (some w) = refl

  -- If the equality test of the value type decides equality, `operator==` of two options decides
  -- whether both are empty or both hold the same value, with no misuse of the member.
  pub opt_eq-decides :
      ((v w : V) → (eq_val v w ≡ true) ↔ (v ≡ w))
      → (x y : Option V)
      → (b : Bool) × (eq eq_val (holding x) (holding y) ≡ returns b) × ((b ≡ true) ↔ (x ≡ y))
  opt_eq-decides on_val x y = (eq_option x y, eq-eq_option x y, same x y)
    where
      same : (x y : Option V) → (eq_option x y ≡ true) ↔ (x ≡ y)
      same none none = (λ h. refl, λ h. refl)
      same none (some w) = (λ h. absurd (false≢true h), λ h. absurd (some-ne-none w (sym h)))
      same (some v) none = (λ h. absurd (false≢true h), λ h. absurd (some-ne-none v h))
      same (some v) (some w) =
          (λ h. ap some ((on_val v w).0 h), λ h. (on_val v w).1 (some-injective v w h))

-- The accessors on an option that holds `x`: `val` stops on an empty option and gives the value of
-- another, and `unwrap_or` and `val_or` both give the value or the default.
pub opt_accessors :
    {V : Type 0} (v₀ : V) (x : Option V)
    → (val (holding x) ≡ by_option assert_failed returns x)
      × (unwrap_or v₀ (holding x) ≡ returns (by_option v₀ (λ v. v) x))
      × (val_or v₀ (holding x) ≡ unwrap_or v₀ (holding x))
unfolding val unwrap_or val_or read_val
opt_accessors v₀ none = (refl, refl, refl)
opt_accessors v₀ (some v) = (refl, refl, refl)

and_then-holding :
    {V : Type 0} (g : V → Option V) (y : Option V)
    → and_then (holding y) (λ w. returns (holding (g w))) ≡ returns (holding (by_option none g y))
unfolding and_then copy read_val
and_then-holding g none = refl
and_then-holding g (some w) = refl

-- `and_then` with functions that give options is associative, `transform` is `and_then` with a
-- function that always gives a value, and `or_else` takes the other option just if the first is
-- empty.
pub opt_monad :
    {V : Type 0} (f g : V → Option V) (h : V → V) (x y : Option V)
    → let run : (V → Option V) → Opt V → Outcome (Opt V) =
        λ k o. and_then o (λ v. returns (holding (k v))) in
      ((run f (holding x) >>= run g) ≡ run (λ v. by_option none g (f v)) (holding x))
      × (transform h (holding x) ≡ run (λ v. some (h v)) (holding x))
      × (or_else (holding x) (returns (holding y)) ≡ returns (holding (by_option y some x)))
unfolding and_then or_else transform copy read_val construct_val
opt_monad f g h none y = (refl, refl, refl)
opt_monad f g h (some v) y = (and_then-holding g (f v), refl, refl)
