-- ===== src/Format.antt =====
-- libraries/libglox/include/glox/format.hpp: numbers as digits, and the scanner of `format_to`. A
-- character is its code, and the buffer that is written to is the list of the characters written. A
-- write to the 64 bytes of `buf` beyond their end is a fault (`none`).
pub mod Digits
pub mod Scan
mod Tests
use gloxor.Base.{
  ℕ, zero, suc, ◌+◌, ◌-◌, ◌*◌, ◌/◌, ◌%◌, ◌^◌, List, [], ◌∷◌, ◌++◌, Option, none, some, Bool, true,
  false, ltb, ◌==◌, ◌||◌, if◌then◌else◌, length, get_or,
}

infixl 5 ◌>>=◌
abbrev pub ◌>>=◌ : {A B : Type 0} → Option A → (A → Option B) → Option B
none >>= f = none
some a >>= f = f a

pub data FormatOptions : Type 0 where
  def : FormatOptions
  hex : FormatOptions
  bin : FormatOptions
  dec : FormatOptions

-- `"0123456789ABCDEF"[digit]`
unfoldable pub hex_digit : ℕ → ℕ
hex_digit digit = if ltb digit 10 then 48 + digit else 55 + digit

-- `'0' + digit`, and `digit ? '1' : '0'`.
unfoldable pub dec_digit : ℕ → ℕ
dec_digit digit = 48 + digit

unfoldable pub bin_digit : ℕ → ℕ
bin_digit digit = if digit == 0 then 48 else 49

-- The three `do` loops differ in the base and in how they write a digit. `room` is what is left of
-- `buf`, the result the characters from the last written to the first, as the final loop of
-- `format` sends them out. A `do` loop writes before it tests.
unfoldable pub digit_loop : ℕ → (ℕ → ℕ) → ℕ → ℕ → List ℕ → Option (List ℕ)
digit_loop base write zero value buf = none
digit_loop base write (suc room) value buf =
    let buf' = write (value % base) ∷ buf in
    let rest = digit_loop base write room (value / base) buf' in
    if ltb 0 (value / base) then rest else some buf'

abbrev pub buf_size : ℕ
buf_size = 64

-- `formatter<T>::format` for unsigned integers: what is written to the buffer.
unfoldable pub format_unsigned : FormatOptions → ℕ → Option (List ℕ)
unfolding digit_loop hex_digit dec_digit bin_digit
format_unsigned def value = digit_loop 10 dec_digit buf_size value []
format_unsigned dec value = digit_loop 10 dec_digit buf_size value []
format_unsigned hex value = do
  digits ← digit_loop 16 hex_digit buf_size value []
  some (48 ∷ 120 ∷ digits)
format_unsigned bin value = do
  digits ← digit_loop 2 bin_digit buf_size value []
  some (48 ∷ 98 ∷ digits)

-- `formatter<T>::format` for signed integers, given as 64 bits in two's complement.
unfoldable pub format_signed : FormatOptions → ℕ → Option (List ℕ)
unfolding format_unsigned
format_signed opts value =
    if ltb value (2 ^ 63)
    then format_unsigned opts value
    else (do digits ← format_unsigned opts ((2 ^ 64 - value) % 2 ^ 64); some (45 ∷ digits))

-- `formatter<T>::format` for pointers.
unfoldable pub format_pointer : FormatOptions → ℕ → Option (List ℕ)
unfolding format_unsigned
format_pointer def value = format_unsigned hex value
format_pointer hex value = format_unsigned hex value
format_pointer bin value = format_unsigned bin value
format_pointer dec value = format_unsigned dec value

-- The option letters after `%`: the option, and what is left of the template.
unfoldable pub parse_option : List ℕ → FormatOptions × List ℕ
parse_option [] = (def, [])
parse_option (c ∷ t) =
    if c == 115
    then (def, t)
    else if c == 100
    then (dec, t)
    else if c == 98
    then (bin, t)
    else if c == 120
    then (hex, t)
    else (def, c ∷ t)

-- `parse(arg)` in `format_to`: what it writes, and what is left of the template. An argument is the
-- characters that its formatter writes for each option.
mutual
  unfolding parse_option

  pub parse : (FormatOptions → List ℕ) → List ℕ → List ℕ × List ℕ
  parse arg [] = ([], [])
  parse arg (c ∷ t) =
      if c == 37 then after_percent arg t else (c ∷ (parse arg t).0, (parse arg t).1)

  pub after_percent : (FormatOptions → List ℕ) → List ℕ → List ℕ × List ℕ
  after_percent arg [] = (arg def, [])
  after_percent arg (c ∷ t) =
      if c == 37
      then (37 ∷ (parse arg t).0, (parse arg t).1)
      else (arg (parse_option (c ∷ t)).0, (parse_option (c ∷ t)).1)

-- `format_to(buffer, templ, args...)`: each argument takes its turn, and the rest of the template
-- is written as it is.
unfoldable pub format_to : List ℕ → List (FormatOptions → List ℕ) → List ℕ
unfolding parse
format_to templ [] = templ
format_to templ (arg ∷ args) = (parse arg templ).0 ++ format_to (parse arg templ).1 args
