-- ===== src/Result/Ref.antt =====
-- `glox::result<T&, E>` of result.hpp: a pointer, null for an error, and a union whose only member
-- is the error. Equality looks at the error of the other side without asking whether it has one.
use gloxor.Base.{
  ℕ, suc, ◌≡◌, ◌⊎◌, inl, inr, refl, arith, Bool, false, not, ◌&&◌, ◌==◌, if◌then◌else◌,
}
use gloxor.Union.{
  Outcome, returns, misuse, assert_failed, ◌>>=◌, Slot, nothing, holds_err, construct_err,
  destroy_err, read_err, assign_err,
}

pub record RefResult (E : Type 0) : Type 0 where
  pub ptr : ℕ
  pub slot : Slot (Unit {0}) E

module _ {E : Type 0} where
  abbrev pub ref_to : ℕ → RefResult E
  ref_to p = record { ptr = p; slot = nothing }

  abbrev pub ref_err : E → RefResult E
  ref_err e = record { ptr = 0; slot = holds_err e }

  -- What code can build: a reference, whose address is `suc p`, or an error.
  abbrev pub ref_holding : ℕ ⊎ E → RefResult E
  ref_holding (inl p) = ref_to (suc p)
  ref_holding (inr e) = ref_err e

  unfoldable pub ref_has_val : RefResult E → Bool
  ref_has_val r = not (r.ptr == 0)

  unfoldable pub ref_is_err : RefResult E → Bool
  ref_is_err r = r.ptr == 0

  -- The copy constructor; the move constructor is the same with a move of the error.
  unfoldable pub ref_copy : RefResult E → Outcome (RefResult E)
  unfolding ref_has_val
  ref_copy other =
      if ref_has_val other then returns (record { ptr = other.ptr; slot = nothing }) else (do
        e ← read_err other.slot
        slot' ← construct_err e nothing
        returns (record { ptr = 0; slot = slot' }))

  -- The copy assignment; the move assignment is the same with a move of the error.
  unfoldable pub ref_assign : RefResult E → RefResult E → Outcome (RefResult E)
  unfolding ref_has_val
  ref_assign r other =
      if ref_has_val r
      then (if ref_has_val other then returns (record r { ptr = other.ptr }) else (do
        e ← read_err other.slot
        slot' ← construct_err e r.slot
        returns (record { ptr = 0; slot = slot' })))
      else (if ref_has_val other
          then (do slot' ← destroy_err r.slot; returns (record { ptr = other.ptr; slot = slot' }))
          else (do
            e ← read_err other.slot
            slot' ← assign_err e r.slot
            returns (record { ptr = 0; slot = slot' })))

  -- `val()` gives the address, and `err()` the error.
  unfoldable pub ref_val : RefResult E → Outcome ℕ
  unfolding ref_has_val
  ref_val r = if ref_has_val r then returns r.ptr else assert_failed

  unfoldable pub ref_error : RefResult E → Outcome E
  unfolding ref_is_err
  ref_error r = if ref_is_err r then read_err r.slot else assert_failed

  unfoldable pub ref_eq : (E → E → Bool) → RefResult E → RefResult E → Outcome Bool
  unfolding ref_has_val ref_is_err
  ref_eq eq_err a b =
      if ref_has_val a && ref_has_val b
      then returns (a.ptr == b.ptr)
      else if ref_is_err a && ref_is_err a
      then (do d ← read_err a.slot; e ← read_err b.slot; returns (eq_err d e))
      else returns false

  -- Assigning any such result to any other ends with no misuse in one that holds what the other
  -- holds.
  pub ref_assign-holding :
      (x y : ℕ ⊎ E) → ref_assign (ref_holding x) (ref_holding y) ≡ returns (ref_holding y)
  unfolding ref_assign ref_has_val read_err construct_err destroy_err assign_err
  ref_assign-holding (inl p) (inl q) = ground arith
  ref_assign-holding (inl p) (inr e) = ground arith
  ref_assign-holding (inr d) (inl q) = ground arith
  ref_assign-holding (inr d) (inr e) = refl

  -- `operator==` of an error and a reference reads an error that is not alive, whatever the error
  -- and the reference; the other way round the same two are found different.
  pub ref_eq-misuse :
      (eq_err : E → E → Bool) (e : E) (p : ℕ)
      → (ref_eq eq_err (ref_holding (inr e)) (ref_holding (inl p)) ≡ misuse)
        × (ref_eq eq_err (ref_holding (inl p)) (ref_holding (inr e)) ≡ returns false)
  unfolding ref_eq ref_has_val ref_is_err read_err
  ref_eq-misuse eq_err e p = (refl, ground arith)
