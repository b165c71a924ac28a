-- ===== src/Client/WorkQueue/Tests.antt =====
-- A page overtakes a first query, and the mark of the end comes last.
use raft_lsmt.Base.{ℕ, ◌≡◌, refl, none, some, List, [], ◌∷◌, false}
use raft_lsmt.Base.Int.{pos, negsuc}
use raft_lsmt.Client.WorkQueue.{take_least, init, priority_of, put, get, super_submit, submit}
use raft_lsmt.Client.WorkQueue.Order.{
  Call, putting, getting, found, found_in_line, work_queue_is_line,
}

abbrev calls : List (Call ℕ)
calls =
    putting none none
    ∷ putting (some (pos 0)) (some 1)
    ∷ putting (some (negsuc 0)) (some 2)
    ∷ putting none (some 3)
    ∷ getting
    ∷ getting
    ∷ getting
    ∷ getting
    ∷ getting
    ∷ []

finds : found calls init ≡ some (some 2) ∷ some (some 1) ∷ some (some 3) ∷ some none ∷ none ∷ []
unfolding put get take_least priority_of
finds = refl

work_queue_is_line_example : found calls init ≡ found_in_line calls []
work_queue_is_line_example = work_queue_is_line calls

submits :
    (submit {A = ℕ}
      (negsuc 0)
      4
      (record { work_queue = init; is_shutdown = false; current_priority = none })).1
    ≡ record {
      work_queue = put (some (negsuc 0)) (some 4) init;
      is_shutdown = false;
      current_priority = none;
    }
unfolding submit super_submit
submits = refl
