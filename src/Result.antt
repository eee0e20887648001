-- ===== src/Result.antt =====
-- `glox::result<T, E>` of libraries/libglox/include/glox/result.hpp: a union and the flag that says
-- which member is alive. Copies are equal to what they copy; a move leaves in the source what the
-- type's own move leaves there, the parameters `moved_val` and `moved_err`.
pub mod Assign
pub mod Laws
pub mod Ref
mod Tests
use gloxor.Base.{Bool, true, false, not, ◌&&◌, if◌then◌else◌, ◌⊎◌, inl, inr}
use gloxor.Union.{
  Outcome, returns, assert_failed, ◌>>=◌, Slot, nothing, holds_val, holds_err, construct_val,
  construct_err, destroy_val, destroy_err, read_val, read_err, assign_val, assign_err,
}

pub record Result (V E : Type 0) : Type 0 where
  pub slot : Slot V E
  pub has_value : Bool

module _ {V E : Type 0} where
  -- The constructors from a value, from `in_place_t`, and `from_val`.
  abbrev pub from_val : V → Result V E
  from_val v = record { slot = holds_val v; has_value = true }

  -- The constructors from `error_inplace_t` and from `error<G>`.
  abbrev pub from_err : E → Result V E
  from_err e = record { slot = holds_err e; has_value = false }

  -- The results that code can build: the value or the error that each holds.
  abbrev pub holding : V ⊎ E → Result V E
  holding (inl v) = from_val v
  holding (inr e) = from_err e

  -- The destructor.
  unfoldable pub destroy : Result V E → Outcome (Result V E)
  destroy r = do
    slot' ← if r.has_value then destroy_val r.slot else destroy_err r.slot
    returns (record r { slot = slot' })

  -- The copy constructor.
  unfoldable pub copy : Result V E → Outcome (Result V E)
  copy other = do
    slot' ←
        if other.has_value
        then (do v ← read_val other.slot; construct_val v nothing)
        else (do e ← read_err other.slot; construct_err e nothing)
    returns (record { slot = slot'; has_value = other.has_value })

  -- The copy assignment.
  unfoldable pub assign : Result V E → Result V E → Outcome (Result V E)
  assign r other = do
    slot' ←
        if r.has_value
        then (if other.has_value
            then (do v ← read_val other.slot; assign_val v r.slot)
            else (do s ← destroy_val r.slot; e ← read_err other.slot; construct_err e s))
        else (if other.has_value
            then (do s ← destroy_err r.slot; v ← read_val other.slot; construct_val v s)
            else (do e ← read_err other.slot; assign_err e r.slot))
    returns (record { slot = slot'; has_value = other.has_value })

  -- `val()` and `err()`.
  unfoldable pub val : Result V E → Outcome V
  val r = if r.has_value then read_val r.slot else assert_failed

  unfoldable pub err : Result V E → Outcome E
  err r = if not r.has_value then read_err r.slot else assert_failed

  -- `has_val()` and the conversion to `bool`; `is_err()`.
  unfoldable pub has_val : Result V E → Bool
  has_val r = r.has_value

  unfoldable pub is_err : Result V E → Bool
  is_err r = not r.has_value

  -- `try_propagate_err` and `try_propagate_from_err`: what an early return does with an error.
  unfoldable pub try_propagate_err : Result V E → Outcome E
  unfolding err
  try_propagate_err r = err r

  unfoldable pub try_propagate_from_err : E → Result V E
  try_propagate_from_err e = from_err e

  unfoldable pub val_or : V → Result V E → Outcome V
  unfolding val
  val_or def r = if r.has_value then val r else returns def

  unfoldable pub err_or : E → Result V E → Outcome E
  unfolding err
  err_or def r = if r.has_value then returns def else err r

-- `operator==`, with the equalities of the two types.
module _ {V E : Type 0} (eq_val : V → V → Bool) (eq_err : E → E → Bool) where
  unfoldable pub eq : Result V E → Result V E → Outcome Bool
  eq a b =
      if a.has_value && b.has_value
      then (do v ← read_val a.slot; w ← read_val b.slot; returns (eq_val v w))
      else if not a.has_value && not b.has_value
      then (do d ← read_err a.slot; e ← read_err b.slot; returns (eq_err d e))
      else returns false

-- The move constructor and the move assignment: the new result, and what is left of `other`.
module _ {V E : Type 0} (moved_val : V → V) (moved_err : E → E) where
  unfoldable pub move : Result V E → Outcome (Result V E × Result V E)
  move other =
      if other.has_value
      then (do
        v ← read_val other.slot
        slot' ← construct_val v nothing
        left ← assign_val (moved_val v) other.slot
        returns (record { slot = slot'; has_value = true }, record other { slot = left }))
      else (do
        e ← read_err other.slot
        slot' ← construct_err e nothing
        left ← assign_err (moved_err e) other.slot
        returns (record { slot = slot'; has_value = false }, record other { slot = left }))

  unfoldable pub move_assign : Result V E → Result V E → Outcome (Result V E × Result V E)
  move_assign r other = do
    (slot', left) ←
        if r.has_value
        then (if other.has_value
            then (do
              v ← read_val other.slot
              s ← assign_val v r.slot
              left ← assign_val (moved_val v) other.slot
              returns (s, left))
            else (do
              s ← destroy_val r.slot
              e ← read_err other.slot
              s ← construct_err e s
              left ← assign_err (moved_err e) other.slot
              returns (s, left)))
        else (if other.has_value
            then (do
              s ← destroy_err r.slot
              v ← read_val other.slot
              s ← construct_val v s
              left ← assign_val (moved_val v) other.slot
              returns (s, left))
            else (do
              e ← read_err other.slot
              s ← assign_err e r.slot
              left ← assign_err (moved_err e) other.slot
              returns (s, left)))
    returns (record { slot = slot'; has_value = other.has_value }, record other { slot = left })

-- `and_then` and `or_else`: both returns have the type of the result itself.
unfoldable pub and_then :
    {V E : Type 0} → Result V E → (V → Outcome (Result V E)) → Outcome (Result V E)
unfolding copy
and_then r f = if r.has_value then (do v ← read_val r.slot; f v) else copy r

unfoldable pub or_else :
    {V E : Type 0} → Result V E → (E → Outcome (Result V E)) → Outcome (Result V E)
unfolding copy
or_else r f = if not r.has_value then (do e ← read_err r.slot; f e) else copy r

-- `transform` with a function that stays in the value type, where the error is passed on.
unfoldable pub transform : {V E : Type 0} → (V → V) → Result V E → Outcome (Result V E)
unfolding copy
transform f r = if r.has_value then (do v ← read_val r.slot; returns (from_val (f v))) else copy r

-- `transform_err`. On a value it constructs the new value from the result itself, not from `_val`;
-- the only conversion that a result has is the one to `bool`, so the value type is given what it
-- makes of that: `of_bool`.
unfoldable pub transform_err :
    {V E G : Type 0} → (Bool → V) → (E → G) → Result V E → Outcome (Result V G)
unfolding has_val
transform_err of_bool f r =
    if not r.has_value
    then (do e ← read_err r.slot; returns (from_err (f e)))
    else returns (from_val (of_bool (has_val r)))
