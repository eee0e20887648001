-- ===== src/IntrusiveList/Tests.antt =====
-- Runs of intrusive_list, and its properties at concrete lists.
use gloxor.Base.{◌+◌, ◌≡◌, refl, List, [], ◌∷◌, reverse, some, none, arith, false}
use gloxor.Algorithms.{write}
use gloxor.IntrusiveList.{
  IntrusiveList, Links, init, push_back, erase, clear, move_from, forwards, backwards, begin, end,
  back, size, move_assign, is_empty,
}
use gloxor.IntrusiveList.Chain.{Circle, Represents}
use gloxor.IntrusiveList.Splice.{erase-size}
use gloxor.IntrusiveList.Clear.{clear-Represents}
use gloxor.IntrusiveList.Walk.{forwards-backwards}
use gloxor.IntrusiveList.Moves.{move_from-sentinel}
use gloxor.IntrusiveList.Runs.{Op, Holds, run, AllAllowed, list_run, list_exec, run-list_run}
use gloxor.IntrusiveList.Finds.{put_before, drop_first, any}

-- The nodes 10, 20 and 30 in the list of the sentinel 1.
abbrev three : IntrusiveList
three = record { sentinel = 1; list_size = 3 }

abbrev three_links : Links
three_links = record {
  next = write (write (write (write (λ a. 0) 1 10) 10 20) 20 30) 30 1;
  prev = write (write (write (write (λ a. 0) 1 30) 10 1) 20 10) 30 20;
}

three-Represents : Represents three three_links (10 ∷ 20 ∷ 30 ∷ [])
unfolding write
three-Represents = record { circle = omega arith; counted = refl }

abbrev ops : List Op
ops = Op.push_back 40 ∷ Op.insert 20 15 ∷ Op.erase 10 ∷ Op.push_front 5 ∷ []

run_ops : list_run ops (10 ∷ 20 ∷ 30 ∷ [], 3) ≡ (5 ∷ 15 ∷ 20 ∷ 30 ∷ 40 ∷ [], 6)
unfolding list_run list_exec put_before drop_first
run_ops = refl

three_hold : Holds 1 (three, three_links) (10 ∷ 20 ∷ 30 ∷ [], 3)
unfolding size
three_hold = record { sentinel = refl; circle = three-Represents.circle; count = refl }

ops-AllAllowed : AllAllowed 9 1 ops (10 ∷ 20 ∷ 30 ∷ [], 3)
unfolding list_exec put_before drop_first any
ops-AllAllowed = (omega arith, ((omega arith, refl), (refl, (omega arith, tt))))

run-list_run_example :
    (st : IntrusiveList × Links) × (run 9 ops (three, three_links) ≡ some st)
    × Holds 1 st (list_run ops (10 ∷ 20 ∷ 30 ∷ [], 3))
run-list_run_example =
    run-list_run 9 1 ops (three, three_links) (10 ∷ 20 ∷ 30 ∷ [], 3) three_hold ops-AllAllowed

erase-size_example :
    Circle 1 (erase 20 three three_links).2 (10 ∷ 30 ∷ [])
    × (size (erase 20 three three_links).1 ≡ 2 + 1)
    × ((erase 20 three three_links).0 ≡ 20)
erase-size_example = erase-size 20 three three_links (10 ∷ []) (30 ∷ []) three-Represents

clear-Represents_example :
    (r : IntrusiveList × Links) × (clear 4 three three_links ≡ some r)
    × (r.0.sentinel ≡ 1)
    × Represents r.0 r.1 []
clear-Represents_example =
    clear-Represents 4 three three_links (10 ∷ 20 ∷ 30 ∷ []) three-Represents.circle (omega arith)

forwards-backwards_example :
    (forwards 4 (begin three three_links) (end three) three_links ≡ some (10 ∷ 20 ∷ 30 ∷ []))
    × (backwards 4 (back three three_links) (end three) three_links
        ≡ some (reverse (10 ∷ 20 ∷ 30 ∷ [])))
forwards-backwards_example =
    forwards-backwards 4 three three_links (10 ∷ 20 ∷ 30 ∷ []) three-Represents.circle (omega arith)

move_from-sentinel_example :
    let r : (IntrusiveList × IntrusiveList) × Links = move_from 2 three three_links in
    (forwards 6 (begin r.0.0 r.1) (end r.0.0) r.1 ≡ some (10 ∷ 20 ∷ 30 ∷ 1 ∷ []))
    × (size r.0.0 ≡ 3)
    × (size r.0.1 ≡ 0)
move_from-sentinel_example =
    move_from-sentinel 6 2 three three_links (10 ∷ 20 ∷ 30 ∷ []) three-Represents (omega arith)
      (omega arith)

-- A new list is empty.
init-Represents : Represents (init 1 three_links).0 (init 1 three_links).1 []
unfolding init write
init-Represents = record { circle = omega arith; counted = refl }

-- The move assignment refuses a list that is empty.
move_empty : move_assign three (init 2 three_links).0 (init 2 three_links).1 ≡ none
unfolding move_assign init
move_empty = refl

run_push_back : is_empty (push_back 40 three three_links).0 ≡ false
unfolding is_empty push_back
run_push_back = refl
