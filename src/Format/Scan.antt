-- ===== src/Format/Scan.antt =====
-- The scanner of `format_to` against templates that are built from their parts.
use gloxor.Base.{ℕ, ◌≡◌, ◌≢◌, refl, List, [], ◌∷◌, ◌++◌, false, ◌==◌, arith, map}
use gloxor.Format.{FormatOptions, def, hex, bin, dec, parse, after_percent, parse_option, format_to}

-- What stands between directives: a character, or `%%` for a percent sign.
pub data Piece : Type 0 where
  lit : ℕ → Piece
  percent : Piece

abbrev pub letter : FormatOptions → ℕ
letter def = 115
letter dec = 100
letter bin = 98
letter hex = 120

-- The template of pieces in front of `t`, and the text that they stand for in front of `t`.
abbrev pub template : List Piece → List ℕ → List ℕ
template [] t = t
template (lit c ∷ ps) t = c ∷ template ps t
template (percent ∷ ps) t = 37 ∷ 37 ∷ template ps t

abbrev pub text : List Piece → List ℕ → List ℕ
text [] t = t
text (lit c ∷ ps) t = c ∷ text ps t
text (percent ∷ ps) t = 37 ∷ text ps t

abbrev pub IsPlain : List Piece → Type 0
IsPlain [] = Unit {0}
IsPlain (lit c ∷ ps) = (c ≢ 37) × IsPlain ps
IsPlain (percent ∷ ps) = IsPlain ps

parse-template :
    (arg : FormatOptions → List ℕ) (ps : List Piece) (opts : FormatOptions) (t : List ℕ)
    → IsPlain ps
    → parse arg (template ps (37 ∷ letter opts ∷ t)) ≡ (text ps (arg opts), t)
unfolding parse after_percent parse_option
parse-template arg [] def t p = refl
parse-template arg [] dec t p = refl
parse-template arg [] bin t p = refl
parse-template arg [] hex t p = refl
parse-template arg (lit c ∷ ps) opts t (ne, p) =
    let plain : (c == 37) ≡ false = ground arith in rw (plain, parse-template arg ps opts t p) refl
parse-template arg (percent ∷ ps) opts t p = rw (parse-template arg ps opts t p) refl

-- Pieces, then a directive with its argument.
pub record Part : Type 0 where
  pub before : List Piece
  pub opts : FormatOptions
  pub arg : FormatOptions → List ℕ

abbrev pub template_of : List Part → List ℕ → List ℕ
template_of [] rest = rest
template_of (x ∷ xs) rest = template x.before (37 ∷ letter x.opts ∷ template_of xs rest)

abbrev pub text_of : List Part → List ℕ → List ℕ
text_of [] rest = rest
text_of (x ∷ xs) rest = text x.before (x.arg x.opts) ++ text_of xs rest

abbrev pub ArePlain : List Part → Type 0
ArePlain [] = Unit {0}
ArePlain (x ∷ xs) = IsPlain x.before × ArePlain xs

-- For a template with one directive (`%s`, `%d`, `%b` or `%x`) for each argument, and between them
-- characters other than `%` and doubled percent signs, `format_to` writes the characters, one
-- percent sign for a doubled one, and each argument in its place under the option of its directive.
-- What follows the last directive is written as it stands, doubled percent signs included.
pub format_to-template_of :
    (xs : List Part) (rest : List ℕ)
    → ArePlain xs
    → format_to (template_of xs rest) (map (λ x. x.arg) xs) ≡ text_of xs rest
unfolding format_to
format_to-template_of [] rest p = refl
format_to-template_of (x ∷ xs) rest (plain, p) =
    rw
      (
        parse-template x.arg x.before x.opts (template_of xs rest) plain,
        format_to-template_of xs rest p,
      )
      refl
