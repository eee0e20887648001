-- ===== src/Algorithms/Tests.antt =====
-- The theorems on the algorithms at inputs.
use gloxor.Base.{
  ℕ, suc, ◌+◌, ◌-◌, ◌*◌, ◌≤◌, ◌<◌, ◌≡◌, refl, Bool, true, false, ltb, ◌==◌, if◌then◌else◌,
}
use gloxor.Algorithms.{copy_overlapped, memmove, reverse, find_if, max_element}
use gloxor.Algorithms.Copies.{within, copy_overlapped-at, reverse-at}
use gloxor.Algorithms.Searches.{find_if-first, IsFirstMax, max_element-IsFirstMax}

-- The value of an address is its square.
abbrev squares : ℕ → ℕ
squares q = q * q

move_runs : copy_overlapped 3 10 11 squares 13 ≡ 144
unfolding copy_overlapped
move_runs = refl

copy_overlapped-at_example :
    (copy_overlapped 3 10 11 squares 13
      ≡ (if within 13 11 3 then squares (10 + (13 - 11)) else squares 13))
    × (memmove 11 10 3 squares 13
        ≡ (if within 13 11 3 then squares (10 + (13 - 11)) else squares 13))
copy_overlapped-at_example = copy_overlapped-at 3 10 11 13 squares

reverse-at_run :
    reverse 3 10 squares 12
    ≡ (if within 12 10 3 then squares (10 + (10 + 3 - 1) - 12) else squares 12)
reverse-at_run = reverse-at 3 10 12 squares

abbrev is_121 : ℕ → Bool
is_121 v = v == 121

find_if-first_run :
    (10 ≤ find_if 3 10 is_121 squares)
    × (find_if 3 10 is_121 squares ≤ 10 + 3)
    × ((q : ℕ) → 10 ≤ q → q < find_if 3 10 is_121 squares → is_121 (squares q) ≡ false)
    × (find_if 3 10 is_121 squares < 10 + 3 → is_121 (squares (find_if 3 10 is_121 squares)) ≡ true)
find_if-first_run = find_if-first squares is_121 3 10

max_element-IsFirstMax_run :
    IsFirstMax squares (λ v. v) 10 (10 + suc 2) (max_element (λ x y. ltb x y) (suc 2) 10 squares)
    × (max_element (λ x y. ltb x y) 0 10 squares ≡ 10 + 0)
max_element-IsFirstMax_run = max_element-IsFirstMax squares (λ v. v) 2 10
