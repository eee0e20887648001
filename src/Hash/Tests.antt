-- ===== src/Hash/Tests.antt =====
-- The two hashes of one text, below and above 128.
use gloxor.Base.{◌≡◌, refl, [], ◌∷◌, some, true, false}
use gloxor.Hash.{mix, promote, hash_chars, djb2_chars, hash_view, djb2_view}

plain_chars : djb2_chars (84 ∷ 101 ∷ 0 ∷ []) ≡ some (djb2_view true (84 ∷ 101 ∷ []))
unfolding djb2_chars djb2_view hash_chars hash_view mix promote
plain_chars = refl

-- "é" as a byte of Latin-1: the overloads differ where char is signed, and agree where it is not.
accent_chars : djb2_chars (233 ∷ 0 ∷ []) ≡ some 177484
unfolding djb2_chars hash_chars mix
accent_chars = refl

accent_view : djb2_view true (233 ∷ []) ≡ 4294789708
unfolding djb2_view hash_view mix promote
accent_view = refl

accent_unsigned : djb2_chars (233 ∷ 0 ∷ []) ≡ some (djb2_view false (233 ∷ []))
unfolding djb2_chars djb2_view hash_chars hash_view mix promote
accent_unsigned = refl
