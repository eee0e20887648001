-- ===== src/Hash.antt =====
-- The string hashes of libraries/libglox/include/glox/hash.hpp on bytes. The overload for `const char*`
-- reads memory up to a zero byte, and `none` is a read beyond its end. The overload for a string_view
-- reads a `char`, which is signed where the ABI says so (`is_signed`).
mod Tests
use gloxor.Base.{
  ℕ, ◌+◌, ◌-◌, ◌*◌, ◌%◌, ◌<◌, ◌≡◌, refl, List, [], ◌∷◌, ◌++◌, Option, none, some, Bool, true, false,
  ltb, ◌==◌, if◌then◌else◌, bit_xor, arith,
}

-- `hash` and a character that is converted to uint32_t.
unfoldable pub mix : ℕ → ℕ → ℕ
mix hash c = bit_xor (((hash * 32) % 4294967296 + hash) % 4294967296) c

-- The conversion of a char to uint32_t.
unfoldable pub promote : Bool → ℕ → ℕ
promote is_signed c = if is_signed then (if ltb c 128 then c else c + 4294967296 - 256) else c

unfoldable pub hash_chars : ℕ → List ℕ → Option ℕ
hash_chars hash [] = none
hash_chars hash (c ∷ str) = elim (c == 0) [ true ↦ some hash | false ↦ hash_chars (mix hash c) str ]

-- djb2_hash(const char*).
unfoldable pub djb2_chars : List ℕ → Option ℕ
djb2_chars str = hash_chars 5381 str

unfoldable pub hash_view : Bool → ℕ → List ℕ → ℕ
hash_view is_signed hash [] = hash
hash_view is_signed hash (c ∷ str) = hash_view is_signed (mix hash (promote is_signed c)) str

-- djb2_hash(std::string_view).
unfoldable pub djb2_view : Bool → List ℕ → ℕ
djb2_view is_signed str = hash_view is_signed 5381 str

-- A character that both overloads read alike.
abbrev pub IsPlain : Bool → ℕ → Type 0
IsPlain is_signed c = (0 < c) × (promote is_signed c ≡ c)

abbrev pub ArePlain : Bool → List ℕ → Type 0
ArePlain is_signed [] = Unit
ArePlain is_signed (c ∷ str) = IsPlain is_signed c × ArePlain is_signed str

hash_chars-hash_view :
    (is_signed : Bool) (hash : ℕ) (str rest : List ℕ)
    → ArePlain is_signed str
    → hash_chars hash (str ++ 0 ∷ rest) ≡ some (hash_view is_signed hash str)
unfolding hash_chars hash_view
hash_chars-hash_view is_signed hash [] rest h = refl
hash_chars-hash_view is_signed hash (c ∷ str) rest ((pos, same), h) =
    let more : (c == 0) ≡ false = ground (arith, pos) in
    rw (more, hash_chars, same) (hash_chars-hash_view is_signed (mix hash c) str rest h)

-- On characters that are not zero and that the conversion keeps, the overload for
-- `const char*` stops at the zero byte behind them with the hash of the overload for a string_view.
pub djb2_chars-djb2_view :
    (is_signed : Bool) (str rest : List ℕ)
    → ArePlain is_signed str
    → djb2_chars (str ++ 0 ∷ rest) ≡ some (djb2_view is_signed str)
unfolding djb2_chars djb2_view
djb2_chars-djb2_view is_signed str rest h = hash_chars-hash_view is_signed 5381 str rest h

-- Below 128 the conversion keeps a character, of either sign.
pub promote-ascii : (is_signed : Bool) (c : ℕ) → c < 128 → promote is_signed c ≡ c
unfolding promote
promote-ascii true c h = let low : ltb c 128 ≡ true = ground (arith, h) in rw low refl
promote-ascii false c h = refl
