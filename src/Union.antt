-- ===== src/Union.antt =====
-- The storage of a C++ union with a value member and an error member, as result.hpp uses it, and
-- the outcome of code that uses one. A member may be read, assigned and destroyed only while it is
-- alive, and constructed only while none is: everything else is a misuse.

pub data Outcome (A : Type 0) : Type 0 where
  returns : A → Outcome A
  misuse : Outcome A
  assert_failed : Outcome A

infixl 5 ◌>>=◌
abbrev pub ◌>>=◌ : {A B : Type 0} → Outcome A → (A → Outcome B) → Outcome B
returns a >>= f = f a
misuse >>= f = misuse
assert_failed >>= f = assert_failed

pub data Slot (V E : Type 0) : Type 0 where
  nothing : Slot V E
  holds_val : V → Slot V E
  holds_err : E → Slot V E

module _ {V E : Type 0} where
  -- `std::construct_at(&_val, v)` and `std::construct_at(&_err, e)`.
  unfoldable pub construct_val : V → Slot V E → Outcome (Slot V E)
  construct_val v nothing = returns (holds_val v)
  construct_val v (holds_val w) = misuse
  construct_val v (holds_err e) = misuse

  unfoldable pub construct_err : E → Slot V E → Outcome (Slot V E)
  construct_err e nothing = returns (holds_err e)
  construct_err e (holds_val v) = misuse
  construct_err e (holds_err d) = misuse

  -- `_val.~T()` and `_err.~E()`.
  unfoldable pub destroy_val : Slot V E → Outcome (Slot V E)
  destroy_val (holds_val v) = returns nothing
  destroy_val (holds_err e) = misuse
  destroy_val nothing = misuse

  unfoldable pub destroy_err : Slot V E → Outcome (Slot V E)
  destroy_err (holds_err e) = returns nothing
  destroy_err (holds_val v) = misuse
  destroy_err nothing = misuse

  unfoldable pub read_val : Slot V E → Outcome V
  read_val (holds_val v) = returns v
  read_val (holds_err e) = misuse
  read_val nothing = misuse

  unfoldable pub read_err : Slot V E → Outcome E
  read_err (holds_err e) = returns e
  read_err (holds_val v) = misuse
  read_err nothing = misuse

  -- `_val = v` and `_err = e`.
  unfoldable pub assign_val : V → Slot V E → Outcome (Slot V E)
  assign_val v (holds_val w) = returns (holds_val v)
  assign_val v (holds_err e) = misuse
  assign_val v nothing = misuse

  unfoldable pub assign_err : E → Slot V E → Outcome (Slot V E)
  assign_err e (holds_err d) = returns (holds_err e)
  assign_err e (holds_val v) = misuse
  assign_err e nothing = misuse
