-- ===== src/Result/Laws.antt =====
-- The value-level calls of `glox::result`: equality, defaults and the monadic calls.
use mathlib.Core.Sum.{inl-injective, inr-injective, inl-ne-inr, inr-ne-inl}
use mathlib.Core.Bool.{false≢true}
use gloxor.Base.{◌≡◌, ◌↔◌, ◌⊎◌, inl, inr, refl, Bool, true, false, ap}
use gloxor.Union.{
  read_val, read_err, construct_val, construct_err, Outcome, returns, assert_failed, ◌>>=◌,
}
use gloxor.Result.{
  Result, holding, eq, val, err, has_val, val_or, err_or, and_then, or_else, transform,
  transform_err, copy,
}

-- What `operator==` compares.
abbrev pub eq_sum : {V E : Type 0} → (V → V → Bool) → (E → E → Bool) → V ⊎ E → V ⊎ E → Bool
eq_sum eq_val eq_err (inl v) (inl w) = eq_val v w
eq_sum eq_val eq_err (inl v) (inr e) = false
eq_sum eq_val eq_err (inr d) (inl w) = false
eq_sum eq_val eq_err (inr d) (inr e) = eq_err d e

module _ {V E : Type 0} (eq_val : V → V → Bool) (eq_err : E → E → Bool) where
  eq-eq_sum :
      (x y : V ⊎ E) → eq eq_val eq_err (holding x) (holding y) ≡ returns (eq_sum eq_val eq_err x y)
  unfolding eq read_val read_err
  eq-eq_sum (inl v) (inl w) = refl
  eq-eq_sum (inl v) (inr e) = refl
  eq-eq_sum (inr d) (inl w) = refl
  eq-eq_sum (inr d) (inr e) = refl

  -- If the equality tests of the value and of the error type decide equality, then `operator==`
  -- on two results ends without a misuse, in a Boolean that is true just if both hold the same
  -- value or both hold the same error.
  pub eq-decides :
      ((v w : V) → (eq_val v w ≡ true) ↔ (v ≡ w))
      → ((d e : E) → (eq_err d e ≡ true) ↔ (d ≡ e))
      → (x y : V ⊎ E)
      → (b : Bool) × (eq eq_val eq_err (holding x) (holding y) ≡ returns b) × ((b ≡ true) ↔ (x ≡ y))
  eq-decides on_val on_err x y = (eq_sum eq_val eq_err x y, eq-eq_sum x y, same x y)
    where
      same : (x y : V ⊎ E) → (eq_sum eq_val eq_err x y ≡ true) ↔ (x ≡ y)
      same (inl v) (inl w) =
          (λ h. ap inl ((on_val v w).0 h), λ h. (on_val v w).1 (inl-injective v w h))
      same (inl v) (inr e) = (λ h. absurd (false≢true h), λ h. absurd (inl-ne-inr h))
      same (inr d) (inl w) = (λ h. absurd (false≢true h), λ h. absurd (inr-ne-inl h))
      same (inr d) (inr e) =
          (λ h. ap inr ((on_err d e).0 h), λ h. (on_err d e).1 (inr-injective d e h))

-- What a call gives on a result that holds `x`, by the sum that it is.
abbrev pub by_sum : {V E R : Type 0} → (V → R) → (E → R) → V ⊎ E → R
by_sum f g (inl v) = f v
by_sum f g (inr e) = g e

-- `val`, `err`, `val_or` and `err_or` on a result that holds `x`: the asserting calls stop on the
-- wrong kind and give the content on the right one, and the others give the content or the default;
-- no call reads a member that is not alive.
pub accessors :
    {V E : Type 0} (v₀ : V) (e₀ : E) (x : V ⊎ E)
    → (val (holding x) ≡ by_sum returns (λ _. assert_failed) x)
      × (err (holding x) ≡ by_sum (λ _. assert_failed) returns x)
      × (val_or v₀ (holding x) ≡ returns (by_sum (λ v. v) (λ _. v₀) x))
      × (err_or e₀ (holding x) ≡ returns (by_sum (λ _. e₀) (λ e. e) x))
unfolding val err val_or err_or read_val read_err
accessors v₀ e₀ (inl v) = (refl, refl, refl, refl)
accessors v₀ e₀ (inr e) = (refl, refl, refl, refl)

and_then-holding :
    {V E : Type 0} (g : V → V ⊎ E) (y : V ⊎ E)
    → and_then (holding y) (λ w. returns (holding (g w))) ≡ returns (holding (by_sum g inr y))
unfolding and_then copy read_val read_err construct_err
and_then-holding g (inl w) = refl
and_then-holding g (inr e) = refl

-- `and_then` with functions that give results is associative, and `from_val` is neutral on both
-- sides; `or_else` is the same for errors.
pub and_then_laws :
    {V E : Type 0} (f g : V → V ⊎ E) (h : E → V ⊎ E) (x : V ⊎ E)
    → let run : (V → V ⊎ E) → Result V E → Outcome (Result V E) =
        λ k r. and_then r (λ v. returns (holding (k v))) in
      ((run f (holding x) >>= run g) ≡ run (λ v. by_sum g inr (f v)) (holding x))
      × (run inl (holding x) ≡ returns (holding x))
      × (or_else (holding x) (λ e. returns (holding (h e))) ≡ returns (holding (by_sum inl h x)))
unfolding and_then or_else copy read_val read_err construct_val construct_err
and_then_laws f g h (inl v) = (and_then-holding g (f v), refl, refl)
and_then_laws f g h (inr e) = (refl, refl, refl)

-- `transform` applies its function to a value and passes an error on. `transform_err` applies its
-- function to an error, but replaces every value by what the value type makes of `true`.
pub transform_sum :
    {V E G : Type 0} (of_bool : Bool → V) (f : V → V) (g : E → G) (x : V ⊎ E)
    → (transform f (holding x) ≡ returns (holding (by_sum (λ v. inl (f v)) inr x)))
      × (transform_err of_bool g (holding x)
          ≡ returns (holding (by_sum (λ _. inl (of_bool true)) (λ e. inr (g e)) x)))
unfolding transform transform_err copy read_val read_err construct_val construct_err has_val
transform_sum of_bool f g (inl v) = (refl, refl)
transform_sum of_bool f g (inr e) = (refl, refl)
