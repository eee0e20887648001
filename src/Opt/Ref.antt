-- ===== src/Opt/Ref.antt =====
-- `glox::option<T&>` of option.hpp: a pointer, null for the empty option. `load` is what a pointer
-- leads to.
use gloxor.Base.{
  ℕ, suc, ◌≡◌, refl, arith, Option, none, some, Bool, false, not, ◌==◌, if◌then◌else◌,
}
use gloxor.Union.{Outcome, returns, assert_failed}
use gloxor.Opt.Laws.{by_option}

pub record RefOpt : Type 0 where
  pub ptr : ℕ

-- The constructors from a reference and `from_val`, and those without.
abbrev pub opt_to : ℕ → RefOpt
opt_to p = record { ptr = p }

abbrev pub opt_null : RefOpt
opt_null = record { ptr = 0 }

-- What code can build: a reference, whose address is `suc p`, or nothing.
abbrev pub ref_opt : Option ℕ → RefOpt
ref_opt none = opt_null
ref_opt (some p) = opt_to (suc p)

-- `has_val()` and the conversion to `bool`.
unfoldable pub opt_has_val : RefOpt → Bool
opt_has_val o = not (o.ptr == 0)

-- `val()`, `operator*` and `operator->`: the address.
unfoldable pub opt_val : RefOpt → Outcome ℕ
unfolding opt_has_val
opt_val o = if not (o.ptr == 0) then returns o.ptr else assert_failed

module _ {A : Type 0} (load : ℕ → A) where
  unfoldable pub opt_val_or : A → RefOpt → A
  unfolding opt_has_val
  opt_val_or default o = if opt_has_val o then load o.ptr else default

  -- The function gives an option or another type with an empty value, `G()`.
  unfoldable pub opt_and_then : {G : Type 0} → G → RefOpt → (A → G) → G
  unfolding opt_has_val
  opt_and_then g₀ o f = if opt_has_val o then f (load o.ptr) else g₀

  unfoldable pub opt_or_else : RefOpt → A → A
  unfolding opt_has_val
  opt_or_else o f = if opt_has_val o then load o.ptr else f

  -- The result is an option of the function's type.
  unfoldable pub opt_transform : {G : Type 0} → RefOpt → (A → G) → Option G
  unfolding opt_has_val
  opt_transform o f = if opt_has_val o then some (f (load o.ptr)) else none

  -- Every call on an option of a reference by what it refers to: `val` stops on the empty one and
  -- gives the address of another, and the other calls load that address or take their default.
  pub ref_opt-calls :
      {G : Type 0} (a₀ : A) (g₀ : G) (f : A → G) (x : Option ℕ)
      → (opt_val (ref_opt x) ≡ by_option assert_failed (λ p. returns (suc p)) x)
        × (opt_val_or a₀ (ref_opt x) ≡ by_option a₀ (λ p. load (suc p)) x)
        × (opt_or_else (ref_opt x) a₀ ≡ opt_val_or a₀ (ref_opt x))
        × (opt_and_then g₀ (ref_opt x) f ≡ by_option g₀ (λ p. f (load (suc p))) x)
        × (opt_transform (ref_opt x) f ≡ by_option none (λ p. some (f (load (suc p)))) x)
  unfolding opt_val opt_val_or opt_or_else opt_and_then opt_transform opt_has_val
  ref_opt-calls a₀ g₀ f none = (refl, refl, refl, refl, refl)
  ref_opt-calls a₀ g₀ f (some p) =
      let there : (suc p == 0) ≡ false = ground arith in rw there (refl, refl, refl, refl, refl)
