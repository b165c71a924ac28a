-- ===== src/Client/WorkQueue/Order.antt =====
-- The queue gives out the entries by priority, and those of one priority in the order in which they
-- were put.
use raft_lsmt.Base.{
  ℕ, ◌+◌, ◌<◌, ◌≡◌, inl, inr, refl, ap, ◌∙◌, true, false, Bool-cases, Option, none, some, List, [],
  ◌∷◌, arith, All, All-imp, ltb, if◌then◌else◌,
}
use raft_lsmt.Base.Int.{ℤ, pos, negsuc}
use raft_lsmt.Client.WorkQueue.{
  Priority, level, infinite, lt_priority, eq_priority, PrioritizedItem, lt_item, take_least,
  PriorityWorkQueue, init, priority_of, put, get,
}

eq_priority_lt : (p q : Priority) → eq_priority p q ≡ true → lt_priority p q ≡ false
eq_priority_lt (level (pos a)) (level (pos b)) e = ground arith
eq_priority_lt (level (pos a)) (level (negsuc b)) e = ground arith
eq_priority_lt (level (negsuc a)) (level (pos b)) e = ground arith
eq_priority_lt (level (negsuc a)) (level (negsuc b)) e = ground arith
eq_priority_lt (level a) infinite e = ground arith
eq_priority_lt infinite q e = refl

priority_total :
    (p q : Priority) → eq_priority p q ≡ false → lt_priority p q ≡ false → lt_priority q p ≡ true
priority_total (level (pos a)) (level (pos b)) e f = ground arith
priority_total (level (pos a)) (level (negsuc b)) e f = ground arith
priority_total (level (negsuc a)) (level (pos b)) e f = ground arith
priority_total (level (negsuc a)) (level (negsuc b)) e f = ground arith
priority_total (level a) infinite e f = ground arith
priority_total infinite (level b) e f = refl
priority_total infinite infinite e f = ground arith

priority_asym : (p q : Priority) → lt_priority p q ≡ true → lt_priority q p ≡ false
priority_asym (level (pos a)) (level (pos b)) e = ground arith
priority_asym (level (pos a)) (level (negsuc b)) e = ground arith
priority_asym (level (negsuc a)) (level (pos b)) e = ground arith
priority_asym (level (negsuc a)) (level (negsuc b)) e = ground arith
priority_asym (level a) infinite e = refl
priority_asym infinite q e = ground arith

eq_priority_sym : (p q : Priority) → eq_priority p q ≡ eq_priority q p
eq_priority_sym (level (pos a)) (level (pos b)) = ground arith
eq_priority_sym (level (pos a)) (level (negsuc b)) = refl
eq_priority_sym (level (negsuc a)) (level (pos b)) = refl
eq_priority_sym (level (negsuc a)) (level (negsuc b)) = ground arith
eq_priority_sym (level a) infinite = refl
eq_priority_sym infinite (level b) = refl
eq_priority_sym infinite infinite = refl

-- What the queue promises: a line of items, which a new one joins behind those that are not less
-- urgent, and which they leave from the front.
abbrev pub Line {ℓ} : Type ℓ → Type ℓ
Line A = List (Priority × Option A)

module _ {ℓ} {A : Type ℓ} where
  item_asym : (x y : PrioritizedItem A) → lt_item x y ≡ true → lt_item y x ≡ false
  item_asym x y e =
      ground (arith, eq_priority_sym x.priority y.priority, priority_asym x.priority y.priority)

  item_total :
      (x y : PrioritizedItem A) → y.count < x.count → lt_item y x ≡ false → lt_item x y ≡ true
  item_total x y h e =
      ground (arith, eq_priority_sym x.priority y.priority, priority_total y.priority x.priority)

  -- The entries by `__lt__`.
  abbrev place : PrioritizedItem A → List (PrioritizedItem A) → List (PrioritizedItem A)
  place x [] = x ∷ []
  place x (y ∷ ys) = let later = place x ys in if lt_item x y then x ∷ y ∷ ys else y ∷ later

  abbrev arrange : List (PrioritizedItem A) → List (PrioritizedItem A)
  arrange [] = []
  arrange (x ∷ xs) = place x (arrange xs)

  -- The newest entry stands first.
  abbrev Descending : List (PrioritizedItem A) → Type ℓ
  Descending [] = Unit {ℓ}
  Descending (x ∷ xs) = All (λ y. y.count < x.count) xs × Descending xs

  take_least-All {κ} :
      (P : PrioritizedItem A → Type κ) (x : PrioritizedItem A) (xs : List (PrioritizedItem A))
      → P x
      → All P xs
      → P (take_least x xs).0 × All P (take_least x xs).1
  unfolding take_least
  take_least-All P x [] h hs = (h, tt)
  take_least-All P x (y ∷ ys) h hs =
      let rest = take_least-All P y ys hs.0 hs.1 in
      elim (Bool-cases (lt_item (take_least y ys).0 x)) [
        | inl less ↦ rw less (rest.0, (h, rest.1))
        | inr least ↦ rw least (h, hs)
      ]

  take_least-Descending :
      (x : PrioritizedItem A) (xs : List (PrioritizedItem A))
      → Descending (x ∷ xs)
      → Descending (take_least x xs).1
  unfolding take_least
  take_least-Descending x [] h = tt
  take_least-Descending x (y ∷ ys) h = elim (Bool-cases (lt_item (take_least y ys).0 x)) [
    | inl less ↦ rw less (
      (take_least-All (λ z. z.count < x.count) y ys h.0.0 h.0.1).1,
      take_least-Descending y ys h.1,
    )
    | inr least ↦ rw least h.1
  ]

  -- What is taken stands first in order, and the others keep theirs.
  arrange-take_least :
      (x : PrioritizedItem A) (xs : List (PrioritizedItem A))
      → Descending (x ∷ xs)
      → arrange (x ∷ xs) ≡ (take_least x xs).0 ∷ arrange (take_least x xs).1
  unfolding take_least
  arrange-take_least x [] h = refl
  arrange-take_least x (y ∷ ys) h =
      let m = (take_least y ys).0 in
      let ih = arrange-take_least y ys h.1 in
      let older = (take_least-All (λ z. z.count < x.count) y ys h.0.0 h.0.1).0 in
      elim (Bool-cases (lt_item m x)) [
        | inl less ↦ rw (less, ih, item_asym m x less) refl
        | inr least ↦ rw (least, ih, item_total x m older least) refl
      ]

  place-All {κ} :
      (P : PrioritizedItem A → Type κ) (x : PrioritizedItem A) (xs : List (PrioritizedItem A))
      → P x
      → All P xs
      → All P (place x xs)
  place-All P x [] h hs = (h, tt)
  place-All P x (y ∷ ys) h hs = elim (Bool-cases (lt_item x y)) [
    | inl less ↦ rw less (h, hs)
    | inr more ↦ rw more (hs.0, place-All P x ys h hs.1)
  ]

  arrange-All {κ} :
      (P : PrioritizedItem A → Type κ) (xs : List (PrioritizedItem A))
      → All P xs
      → All P (arrange xs)
  arrange-All P [] hs = tt
  arrange-All P (x ∷ xs) hs = place-All P x (arrange xs) hs.0 (arrange-All P xs hs.1)

  abbrev pub join_line : Priority → Option A → Line A → Line A
  join_line p item [] = (p, item) ∷ []
  join_line p item ((q, other) ∷ line) =
      let later = join_line p item line in
      if lt_priority p q then (p, item) ∷ (q, other) ∷ line else (q, other) ∷ later

  abbrev line_of : List (PrioritizedItem A) → Line A
  line_of [] = []
  line_of (x ∷ xs) = (x.priority, x.item) ∷ line_of xs

  line_of-place :
      (x : PrioritizedItem A) (xs : List (PrioritizedItem A))
      → All (λ y. y.count < x.count) xs
      → line_of (place x xs) ≡ join_line x.priority x.item (line_of xs)
  line_of-place x [] h = refl
  line_of-place x (y ∷ ys) h = elim (Bool-cases (eq_priority x.priority y.priority)) [
    | inl same ↦
        let newer : ltb x.count y.count ≡ false = ground arith in
        rw (same, newer, eq_priority_lt x.priority y.priority same)
          (ap (◌∷◌ (y.priority, y.item)) (line_of-place x ys h.1))
    | inr other ↦ elim (Bool-cases (lt_priority x.priority y.priority)) [
      | inl less ↦ rw (other, less) refl
      | inr more ↦ rw (other, more) (ap (◌∷◌ (y.priority, y.item)) (line_of-place x ys h.1))
    ]
  ]

-- The calls that threads make, in the order in which they take effect.
pub data Call {ℓ} (A : Type ℓ) : Type ℓ where
  putting : Option ℤ → Option A → Call A
  getting : Call A

module _ {ℓ} {A : Type ℓ} where
  -- What the calls of `get` find, on the queue and on a line.
  abbrev pub found : List (Call A) → PriorityWorkQueue A → List (Option (Option A))
  found [] q = []
  found (putting current item ∷ calls) q = found calls (put current item q)
  found (getting ∷ calls) q = elim (get q) [
    | none ↦ none ∷ found calls q
    | some (item, q') ↦ some item ∷ found calls q'
  ]

  abbrev pub found_in_line : List (Call A) → Line A → List (Option (Option A))
  found_in_line [] line = []
  found_in_line (putting current item ∷ calls) line =
      found_in_line calls (join_line (priority_of current item) item line)
  found_in_line (getting ∷ calls) [] = none ∷ found_in_line calls []
  found_in_line (getting ∷ calls) ((p, item) ∷ line) = some item ∷ found_in_line calls line

  found-line :
      (calls : List (Call A)) (pq : List (PrioritizedItem A)) (counter : ℕ)
      → Descending pq
      → All (λ y. y.count < counter) pq
      → found calls (record { pq = pq; counter = counter })
        ≡ found_in_line calls (line_of (arrange pq))
  unfolding put get
  found-line [] pq counter d a = refl
  found-line (putting current item ∷ calls) pq counter d a =
      let x : PrioritizedItem A = record {
        priority = priority_of current item;
        count = counter;
        item = item;
      } in
      let newer =
        All-imp (λ y. y.count < counter) (λ y. y.count < counter + 1) pq (λ y k. omega arith) a in
      found-line calls (x ∷ pq) (counter + 1) (a, d) (omega arith, newer)
      ∙ ap (found_in_line calls)
          (line_of-place x (arrange pq) (arrange-All (λ y. y.count < counter) pq a))
  found-line (getting ∷ calls) [] counter d a = ap (◌∷◌ none) (found-line calls [] counter tt tt)
  found-line (getting ∷ calls) (x ∷ xs) counter d a =
      let first = take_least x xs in
      let older = take_least-All (λ y. y.count < counter) x xs a.0 a.1 in
      rw (arrange-take_least x xs d) (
        ap (◌∷◌ (some (first.0).item))
          (found-line calls first.1 counter (take_least-Descending x xs d) older.1))

-- Whatever calls are made of a new queue, and in whatever order they take effect, the calls of `get`
-- find what they would find on a line: the queue gives out an item of the least priority, of those
-- the one that was put first, and `None` behind all items.
pub work_queue_is_line {ℓ} :
    {A : Type ℓ} (calls : List (Call A)) → found calls init ≡ found_in_line calls []
work_queue_is_line calls = found-line calls [] 0 tt tt
