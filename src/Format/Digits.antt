-- ===== src/Format/Digits.antt =====
-- The digits that format.hpp writes, read back.
use native.Mathlib.Nat.{pow-suc, pow-zero, mod-lt, div-add-mod', div-lt_iff_lt-mul}
use gloxor.Base.{
  ℕ, zero, suc, ◌+◌, ◌-◌, ◌*◌, ◌/◌, ◌%◌, ◌^◌, ◌≤◌, ◌<◌, ◌≡◌, refl, ◌∙◌, List, [], ◌∷◌, some, ltb,
  if◌then◌else◌, Bool-cases, inl, inr, arith, drop,
}
use gloxor.Format.{
  FormatOptions, def, hex, bin, dec, hex_digit, dec_digit, bin_digit, digit_loop, format_unsigned,
  format_signed,
}

-- The number that digits stand for in a base, after `acc`.
unfoldable pub number_of : ℕ → (ℕ → ℕ) → ℕ → List ℕ → ℕ
number_of base read acc [] = acc
number_of base read acc (c ∷ cs) = number_of base read (acc * base + read c) cs

-- The digit of a character.
abbrev pub read_digit : ℕ → ℕ
read_digit c = if ltb c 58 then c - 48 else c - 55

-- What the text for each option stands for.
abbrev pub read_back : FormatOptions → List ℕ → ℕ
read_back def cs = number_of 10 read_digit 0 cs
read_back dec cs = number_of 10 read_digit 0 cs
read_back hex cs = number_of 16 read_digit 0 (drop 2 cs)
read_back bin cs = number_of 2 read_digit 0 (drop 2 cs)

-- Base and digits that go together.
record IsDigits (base : ℕ) (write : ℕ → ℕ) : Type 0 where
  two : 2 ≤ base
  reads : (d : ℕ) → d < base → read_digit (write d) ≡ d

dec-IsDigits : IsDigits 10 dec_digit
unfolding dec_digit
dec-IsDigits = record { two = omega arith; reads = λ d h. ground arith }

hex-IsDigits : IsDigits 16 hex_digit
unfolding hex_digit
hex-IsDigits = record { two = omega arith; reads = λ d h. ground arith }

bin-IsDigits : IsDigits 2 bin_digit
unfolding bin_digit
bin-IsDigits = record { two = omega arith; reads = λ d h. ground arith }

module _ {base : ℕ} {write : ℕ → ℕ} (ok : IsDigits base write) where
  -- The lowest digit put behind the others.
  digit-last : (v : ℕ) → (v / base) * base + read_digit (write (v % base)) ≡ v
  digit-last v = rw (ok.reads (v % base) (mod-lt v (omega (arith, ok.two)))) (div-add-mod' v base)

  room_left : (room q : ℕ) → 0 < q → q < base ^ room → 0 < room
  room_left zero q pos lt = absurd (omega (arith, rw (pow-zero base) at lt))
  room_left (suc room) q pos lt = omega arith

  -- With room for the digits the loop ends within the buffer, and reading what it writes in front
  -- of `buf` gives the value.
  digit_loop-number_of :
      (room v : ℕ) (buf : List ℕ)
      → 0 < room
      → v < base ^ room
      → (out : List ℕ) × (digit_loop base write room v buf ≡ some out)
        × (number_of base read_digit 0 out ≡ number_of base read_digit v buf)
  unfolding digit_loop number_of
  digit_loop-number_of zero v buf pos lt = absurd (omega arith)
  digit_loop-number_of (suc room) v buf pos lt = elim (Bool-cases (ltb 0 (v / base))) [
    | inl more ↦
        let small : v / base < base ^ room =
          (div-lt_iff_lt-mul (omega (arith, ok.two))).1 (rw (pow-suc base room) at lt) in
        let (out, run, reads) =
          digit_loop-number_of room (v / base) (write (v % base) ∷ buf)
            (room_left room (v / base) (ground arith) small) small in
        (out, rw more run, reads ∙ rw (digit-last v) refl)
    | inr last ↦
        let none_left : v / base ≡ 0 = ground arith in
        let all : 0 * base + read_digit (write (v % base)) ≡ v = rw none_left at (digit-last v) in
        (write (v % base) ∷ buf, rw last refl, rw all refl)
  ]

-- Every 64-bit value is written within the 64 bytes of the buffer, for each option, and reading the
-- text back in the base of the option gives the value.
pub format_unsigned-read_back :
    (opts : FormatOptions) (v : ℕ)
    → v < 2 ^ 64
    → (out : List ℕ) × (format_unsigned opts v ≡ some out) × (read_back opts out ≡ v)
unfolding format_unsigned number_of
format_unsigned-read_back def v lt =
    digit_loop-number_of dec-IsDigits 64 v [] (omega arith) (omega arith)
format_unsigned-read_back dec v lt =
    digit_loop-number_of dec-IsDigits 64 v [] (omega arith) (omega arith)
format_unsigned-read_back hex v lt =
    let (out, run, reads) = digit_loop-number_of hex-IsDigits 64 v [] (omega arith) (omega arith) in
    (48 ∷ 120 ∷ out, rw run refl, reads)
format_unsigned-read_back bin v lt =
    let (out, run, reads) = digit_loop-number_of bin-IsDigits 64 v [] (omega arith) lt in
    (48 ∷ 98 ∷ out, rw run refl, reads)

-- Every 64-bit pattern in two's complement is written within the buffer: a value that is not
-- negative as the unsigned value, and a negative one as a minus sign and the text of its magnitude.
pub format_signed-read_back :
    (opts : FormatOptions) (v : ℕ)
    → v < 2 ^ 64
    → (out : List ℕ) × (format_signed opts v ≡ some (if ltb v (2 ^ 63) then out else 45 ∷ out))
      × (read_back opts out ≡ (if ltb v (2 ^ 63) then v else 2 ^ 64 - v))
unfolding format_signed
format_signed-read_back opts v lt = elim (Bool-cases (ltb v (2 ^ 63))) [
  | inl plus ↦
      let (out, run, reads) = format_unsigned-read_back opts v lt in rw plus (out, run, reads)
  | inr minus ↦
      let size : (2 ^ 64 - v) % 2 ^ 64 ≡ 2 ^ 64 - v = ground arith in
      let (out, run, reads) = format_unsigned-read_back opts (2 ^ 64 - v) (ground arith) in
      rw (minus, size, run) (out, refl, reads)
]
