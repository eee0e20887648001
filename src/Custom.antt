-- ===== src/Custom.antt =====
-- glox::custom of kernel/memory/alloc.cpp: the allocation functions that the library calls, over a
-- memory of bytes. What memalloc answers is a parameter, 0 for the null pointer; what is handed to
-- memdealloc is kept in a list, with its size. `none` is a failed assertion.
pub mod Moves
mod Tests
use gloxor.Base.{
  ℕ, zero, suc, ◌+◌, ◌-◌, ◌*◌, List, [], ◌∷◌, Option, none, some, Bool, true, false, ltb, ◌==◌,
  if◌then◌else◌,
}
use gloxor.Algorithms.{copy, set_range}

pub record Bytes : Type 0 where
  pub at : ℕ → ℕ
  pub freed : List (ℕ × ℕ)

-- alloc_handle<void>.
pub record Handle : Type 0 where
  pub ptr : ℕ
  pub count : ℕ

abbrev pub null_handle : Handle
null_handle = record { ptr = 0; count = 0 }

-- `answer` is what memalloc(count * objsize) gives.
unfoldable pub alloc : ℕ → ℕ → Handle
alloc answer count = record { ptr = answer; count = count }

unfoldable pub dealloc : ℕ → ℕ → ℕ → Bytes → Bytes
dealloc p count objsize m = record m { freed = (p, objsize * count) ∷ m.freed }

unfoldable pub alloc_zeroed : ℕ → ℕ → ℕ → Bytes → Handle × Bytes
alloc_zeroed answer count objsize m = if answer == 0 then (null_handle, m) else (
  record { ptr = answer; count = count },
  record m { at = set_range (objsize * count) answer 0 m.at },
)

unfoldable pub grow : ℕ → ℕ → ℕ → ℕ → ℕ → Bytes → Option (Handle × Bytes)
unfolding dealloc
grow answer old_ptr old_count new_count objsize m =
    if ltb new_count old_count
    then none
    else (if answer == 0
        then some (null_handle, m)
        else some (
          record { ptr = answer; count = new_count },
          dealloc old_ptr old_count objsize
              (record m { at = copy (objsize * old_count) old_ptr answer m.at }),
        ))

unfoldable pub grow_zeroed : ℕ → ℕ → ℕ → ℕ → ℕ → Bytes → Option (Handle × Bytes)
unfolding dealloc
grow_zeroed answer old_ptr old_count new_count objsize m =
    if ltb new_count old_count
    then none
    else (if answer == 0
        then some (null_handle, m)
        else some (
          record { ptr = answer; count = new_count },
          dealloc old_ptr old_count objsize (record m {
            at =
                set_range (objsize * (new_count - old_count)) (answer + objsize * old_count) 0
                  (copy (objsize * old_count) old_ptr answer m.at);
          }),
        ))

-- memcpy is given the count, not the size in bytes.
unfoldable pub shrink : ℕ → ℕ → ℕ → ℕ → ℕ → Bytes → Option (Handle × Bytes)
unfolding dealloc
shrink answer old_ptr old_count new_count objsize m =
    if ltb old_count new_count
    then none
    else (if answer == 0
        then some (null_handle, m)
        else some (
          record { ptr = answer; count = new_count },
          dealloc old_ptr old_count objsize (record m { at = copy new_count old_ptr answer m.at }),
        ))

unfoldable pub grow_inplace : ℕ → ℕ → ℕ → Handle
grow_inplace old_ptr old_size new_size = null_handle

unfoldable pub shrink_inplace : ℕ → ℕ → ℕ → Handle
shrink_inplace old_ptr old_count new_count = null_handle
