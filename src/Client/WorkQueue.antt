-- ===== src/Client/WorkQueue.antt =====
-- client/dbclient.py, the classes PrioritizedItem, PriorityWorkQueue and PriorityThreadPoolExecutor.
-- `queue.PriorityQueue` gives out the least entry under `<`; it is the list of its entries here, the
-- newest first. Whoever waits for an entry finds none.
pub mod Order
mod Tests
use raft_lsmt.Base.{
  ℕ, ◌+◌, Bool, true, false, Option, none, some, List, [], ◌∷◌, length, ltb, if◌then◌else◌, Outcome,
  ok, raise, runtime_error,
}
use raft_lsmt.Base.Int.{ℤ, pos, negsuc, lt_int, eq_int}

-- An integer, or `float('inf')`.
pub data Priority : Type 0 where
  level : ℤ → Priority
  infinite : Priority

abbrev pub lt_priority : Priority → Priority → Bool
lt_priority (level a) (level b) = lt_int a b
lt_priority (level a) infinite = true
lt_priority infinite q = false

abbrev pub eq_priority : Priority → Priority → Bool
eq_priority (level a) (level b) = eq_int a b
eq_priority (level a) infinite = false
eq_priority infinite (level b) = false
eq_priority infinite infinite = true

-- The item `None` tells a worker to stop.
pub record PrioritizedItem {ℓ} (A : Type ℓ) : Type ℓ where
  pub priority : Priority
  pub count : ℕ
  pub item : Option A

module _ {ℓ} {A : Type ℓ} where
  -- `__lt__`.
  abbrev pub lt_item : PrioritizedItem A → PrioritizedItem A → Bool
  lt_item self other =
      if eq_priority self.priority other.priority
      then ltb self.count other.count
      else lt_priority self.priority other.priority

  -- The least of `x` and the entries behind it, and the others in their order.
  unfoldable pub take_least :
      PrioritizedItem A → List (PrioritizedItem A) → PrioritizedItem A × List (PrioritizedItem A)
  take_least x [] = (x, [])
  take_least x (y ∷ ys) =
      let rest = take_least y ys in if lt_item rest.0 x then (rest.0, x ∷ rest.1) else (x, y ∷ ys)

pub record PriorityWorkQueue {ℓ} (A : Type ℓ) : Type ℓ where
  pub pq : List (PrioritizedItem A)
  pub counter : ℕ

module _ {ℓ} {A : Type ℓ} where
  abbrev pub init : PriorityWorkQueue A
  init = record { pq = []; counter = 0 }

  -- `getattr(_local, 'current_priority', 0)`, but for `None`.
  unfoldable pub priority_of : Option ℤ → Option A → Priority
  priority_of current none = infinite
  priority_of none (some a) = level (pos 0)
  priority_of (some p) (some a) = level p

  unfoldable pub put : Option ℤ → Option A → PriorityWorkQueue A → PriorityWorkQueue A
  put current item self = record {
    pq =
        record { priority = priority_of current item; count = self.counter; item = item } ∷ self.pq;
    counter = self.counter + 1;
  }

  abbrev get_from : List (PrioritizedItem A) → Option (PrioritizedItem A × List (PrioritizedItem A))
  get_from [] = none
  get_from (x ∷ xs) = some (take_least x xs)

  -- `get` and `get_nowait`: the item, and the queue without it.
  unfoldable pub get : PriorityWorkQueue A → Option (Option A × PriorityWorkQueue A)
  get self = elim (get_from self.pq) [
    | none ↦ none
    | some (x, rest) ↦ some (x.item, record self { pq = rest })
  ]

  unfoldable pub qsize : PriorityWorkQueue A → ℕ
  qsize self = length self.pq

  unfoldable pub empty : PriorityWorkQueue A → Bool
  empty self = elim self.pq [ [] ↦ true | x ∷ xs ↦ false ]

-- A thread pool: its queue, whether it is shut down, and `_local.current_priority` of the thread
-- that submits.
pub record Executor {ℓ} (A : Type ℓ) : Type ℓ where
  pub work_queue : PriorityWorkQueue A
  pub is_shutdown : Bool
  pub current_priority : Option ℤ

module _ {ℓ} {A : Type ℓ} where
  -- `ThreadPoolExecutor.submit`: after a shutdown it raises.
  unfoldable pub super_submit : A → Executor A → Outcome (Unit {0}) × Executor A
  super_submit work self = if self.is_shutdown then (raise runtime_error, self) else (
    ok tt,
    record self { work_queue = put self.current_priority (some work) self.work_queue },
  )

  -- `submit`: the priority is set for the call, and deleted whatever it does.
  unfoldable pub submit : ℤ → A → Executor A → Outcome (Unit {0}) × Executor A
  submit priority work self =
      let called = super_submit work (record self { current_priority = some priority }) in
      (called.0, record (called.1) { current_priority = none })
