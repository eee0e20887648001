-- ===== src/Format/Tests.antt =====
-- Runs of format.hpp, and the theorems at inputs.
use gloxor.Base.{ℕ, ◌-◌, ◌^◌, ◌≡◌, refl, arith, List, [], ◌∷◌, some, map, ltb, if◌then◌else◌}
use gloxor.Format.{hex, bin, dec, format_unsigned, format_signed, format_to}
use gloxor.Format.Digits.{read_back, format_unsigned-read_back, format_signed-read_back}
use gloxor.Format.Scan.{lit, percent, Part, template_of, text_of, format_to-template_of}

-- `0x1F`
hex_runs : format_unsigned hex 31 ≡ some (48 ∷ 120 ∷ 49 ∷ 70 ∷ [])
unfolding format_unsigned
hex_runs = refl

-- `-12`
signed_runs : format_signed dec (2 ^ 64 - 12) ≡ some (45 ∷ 49 ∷ 50 ∷ [])
unfolding format_signed
signed_runs = refl

format_unsigned-read_back_example :
    (out : List ℕ) × (format_unsigned hex 0xbeef ≡ some out) × (read_back hex out ≡ 0xbeef)
format_unsigned-read_back_example = format_unsigned-read_back hex 0xbeef (omega arith)

format_signed-read_back_run :
    (out : List ℕ) × (format_signed bin (2 ^ 64 - 5)
      ≡ some (if ltb (2 ^ 64 - 5) (2 ^ 63) then out else 45 ∷ out))
    × (read_back bin out
        ≡ (if ltb (2 ^ 64 - 5) (2 ^ 63) then 2 ^ 64 - 5 else 2 ^ 64 - (2 ^ 64 - 5)))
format_signed-read_back_run = format_signed-read_back bin (2 ^ 64 - 5) (omega arith)

-- `a%%%x` with one argument, then `!`.
abbrev parts : List Part
parts = record { before = lit 97 ∷ percent ∷ []; opts = hex; arg = λ opts. 48 ∷ 120 ∷ 49 ∷ [] } ∷ []

format_to-template_of_run :
    format_to (template_of parts (33 ∷ [])) (map (λ x. x.arg) parts) ≡ text_of parts (33 ∷ [])
format_to-template_of_run =
    format_to-template_of parts (33 ∷ []) ((λ e. absurd (omega arith), tt), tt)
