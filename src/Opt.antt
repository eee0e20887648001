-- ===== src/Opt.antt =====
-- `glox::option<T>` of libraries/libglox/include/glox/option.hpp: a union with one member and the
-- flag that says whether it is alive. The slot's error member is not used.
pub mod Laws
pub mod Ref
mod Tests
use gloxor.Base.{Option, none, some, Bool, true, false, not, ◌&&◌, if◌then◌else◌}
use gloxor.Union.{
  Outcome, returns, assert_failed, ◌>>=◌, Slot, nothing, holds_val, construct_val, destroy_val,
  read_val, assign_val,
}

pub record Opt (V : Type 0) : Type 0 where
  pub slot : Slot V (Unit {0})
  pub has_value : Bool

module _ {V : Type 0} where
  -- The constructors from a value and from `in_place_t`, and `from_val`.
  abbrev pub from_val : V → Opt V
  from_val v = record { slot = holds_val v; has_value = true }

  -- The constructors without a value.
  abbrev pub empty : Opt V
  empty = record { slot = nothing; has_value = false }

  abbrev pub holding : Option V → Opt V
  holding none = empty
  holding (some v) = from_val v

  -- The destructor.
  unfoldable pub destroy : Opt V → Outcome (Opt V)
  destroy o = do
    slot' ← if o.has_value then destroy_val o.slot else returns o.slot
    returns (record o { slot = slot' })

  -- The copy constructor.
  unfoldable pub copy : Opt V → Outcome (Opt V)
  copy other = do
    slot' ←
        if other.has_value
        then (do v ← read_val other.slot; construct_val v nothing)
        else returns nothing
    returns (record { slot = slot'; has_value = other.has_value })

  -- The move constructor: the new option, and what is left of `other`.
  unfoldable pub move : (V → V) → Opt V → Outcome (Opt V × Opt V)
  move moved_val other =
      if other.has_value
      then (do
        v ← read_val other.slot
        slot' ← construct_val v nothing
        left ← assign_val (moved_val v) other.slot
        returns (record { slot = slot'; has_value = true }, record other { slot = left }))
      else returns (empty, other)

  unfoldable pub val : Opt V → Outcome V
  val o = if o.has_value then read_val o.slot else assert_failed

  -- `has_val()` and the conversion to `bool`.
  unfoldable pub has_val : Opt V → Bool
  has_val o = o.has_value

  unfoldable pub eq : (V → V → Bool) → Opt V → Opt V → Outcome Bool
  eq eq_val a b =
      if a.has_value && b.has_value
      then (do v ← read_val a.slot; w ← read_val b.slot; returns (eq_val v w))
      else if not a.has_value && not b.has_value
      then returns true
      else returns false

  unfoldable pub unwrap_or : V → Opt V → Outcome V
  unwrap_or default o = if o.has_value then read_val o.slot else returns default

  unfoldable pub val_or : V → Opt V → Outcome V
  unfolding val
  val_or default o = if o.has_value then val o else returns default

  unfoldable pub and_then : Opt V → (V → Outcome (Opt V)) → Outcome (Opt V)
  unfolding copy
  and_then o f = if o.has_value then (do v ← read_val o.slot; f v) else copy o

  unfoldable pub or_else : Opt V → Outcome (Opt V) → Outcome (Opt V)
  unfolding copy
  or_else o f = if not o.has_value then f else copy o

  -- `transform` with a function that stays in the value type: both returns have one type.
  unfoldable pub transform : (V → V) → Opt V → Outcome (Opt V)
  unfolding copy
  transform f o = if o.has_value then (do v ← read_val o.slot; returns (from_val (f v))) else copy o
