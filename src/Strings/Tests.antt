-- ===== src/Strings/Tests.antt =====
-- Runs of string, and its properties at concrete strings.
use gloxor.Base.{
  ℕ, ◌≡◌, ◌≢◌, ◌<◌, ap, sym, ◌∙◌, refl, inl, inr, List, [], ◌∷◌, ◌++◌, arith, length, replicate,
  take, drop, Option, none, some, Bool, true, false, length-replicate,
}
use mathlib.Core.Option.{some-injective}
use gloxor.Strings.{
  Repr, size, bytes, view, capacity, push_back, from_chars, sized, erase, at, empty, is_big,
  new_string,
}
use gloxor.Strings.Pushes.{IsValid, IsSized, Pushed, push_back-Pushed}
use gloxor.Strings.Texts.{from_chars-view}
use gloxor.Strings.Erases.{erase-view}
use gloxor.Strings.Faults.{push_back-outside, sized-empty}

-- Blocks of zeros, for every size.
abbrev zeros : ℕ → Option (List ℕ)
zeros n = some (replicate n 0)

zeros-IsSized : IsSized zeros
zeros-IsSized n b h =
    ap length (sym (some-injective (replicate n 0) b h)) ∙ length-replicate {A = ℕ} n 0

zeros_giving : (n : ℕ) → zeros n ≢ none
zeros_giving n h = cc h

abbrev hello : Repr
hello = Repr.short 3 (b'a' ∷ b'b' ∷ b'c' ∷ replicate 20 0)

hello-IsValid : IsValid 1 hello
hello-IsValid = (omega arith, refl)

hello_room : size hello < capacity zeros 1 hello
unfolding size capacity
hello_room = omega arith

two_below : 1 < size hello
unfolding size
two_below = omega arith

push_back-Pushed_example :
    (r : Bool × Repr) × (push_back zeros 1 b'd' hello ≡ some r) × Pushed zeros 1 b'd' hello r
push_back-Pushed_example =
    push_back-Pushed zeros 1 b'd' hello zeros-IsSized (inl refl) hello-IsValid (inl hello_room)

from_chars-view_example :
    (s : Repr) × (from_chars zeros 2 (replicate 30 b'x') ≡ some s)
    × IsValid 2 s
    × (view s ≡ replicate 30 b'x')
from_chars-view_example =
    from_chars-view zeros 2 (replicate 30 b'x') zeros-IsSized zeros_giving (inr refl) (omega arith)

erase-view_example :
    (s' : Repr) × (erase 1 hello ≡ some s')
    × IsValid 1 s'
    × (view s' ≡ take 1 (view hello) ++ drop 2 (view hello))
erase-view_example = erase-view 1 1 hello hello-IsValid two_below

push_back-outside_example :
    (s : Repr) × (push_back zeros 1 b'c' (Repr.big 108 108 (replicate 108 b'x')) ≡ some (true, s))
    × (push_back zeros 1 b'd' s ≡ none)
push_back-outside_example =
    push_back-outside zeros b'c' b'd' (replicate 108 b'x') zeros-IsSized zeros_giving refl

sized-empty_example :
    (s : Repr) × (sized zeros 1 100 ≡ some s) × (size s ≡ 0) × (capacity zeros 1 s ≡ 32)
sized-empty_example = sized-empty zeros 100 zeros-IsSized zeros_giving (omega arith)

run_view : view hello ≡ b'a' ∷ b'b' ∷ b'c' ∷ []
unfolding view size bytes
run_view = refl

run_at : at 3 hello ≡ none
unfolding at
run_at = refl

run_empty : empty new_string ≡ true
unfolding empty
run_empty = refl

run_kind : is_big hello ≡ false
unfolding is_big
run_kind = refl
