-- ===== src/Bench/Totals/Sums.antt =====
-- The sums are those of the requests that were counted.
use raft_lsmt.Base.{
  ℕ, ◌+◌, ◌≤◌, ◌<◌, ◌≡◌, ◌⊎◌, refl, sym, subst, List, [], ◌∷◌, ◌++◌, arith, All, All-append,
  All-imp, ok, raise, Outcome, inl, inr, nat_beq_iff,
}
use raft_lsmt.Client.Datatypes.{ReadRequestMetrics}
use raft_lsmt.Client.ReadBatch.{BatchResults}
use raft_lsmt.Bench.Totals.{
  first_time, last_time, ReadTotals, no_reads, unique_metrics, count_request, count_requests,
  update_read_metrics, update_all,
}

abbrev pub records_in : List ReadRequestMetrics → ℕ
records_in [] = 0
records_in (m ∷ ms) = m.record_count + records_in ms

abbrev pub bytes_in : List ReadRequestMetrics → ℕ
bytes_in [] = 0
bytes_in (m ∷ ms) = m.records_bytes + bytes_in ms

-- A request was sent and answered within the time that the totals span.
abbrev pub IsWithin : ReadTotals → ReadRequestMetrics → Type 0
IsWithin totals m =
    (totals.first_request_time ≤ m.send_time_ms) × (m.recv_time_ms ≤ totals.last_ack_time)

-- The totals are those of the requests that they list.
abbrev pub AddsUp : ReadTotals → Type 0
AddsUp totals =
    (totals.total_records_read ≡ records_in totals.successful_requests)
    × (totals.total_bytes_read ≡ bytes_in totals.successful_requests)
    × All (IsWithin totals) totals.successful_requests

-- Every request of a result was sent at a time.
abbrev pub IsTimed : ℕ × Outcome BatchResults → Type 0
IsTimed (num_queries, raise x) = Unit {0}
IsTimed (num_queries, ok results) =
    All (λ (m : ReadRequestMetrics). 0 < m.send_time_ms) results.request_metrics

records_in-append :
    (xs ys : List ReadRequestMetrics) → records_in (xs ++ ys) ≡ records_in xs + records_in ys
records_in-append [] ys = omega arith
records_in-append (x ∷ xs) ys = omega (arith, records_in-append xs ys)

bytes_in-append :
    (xs ys : List ReadRequestMetrics) → bytes_in (xs ++ ys) ≡ bytes_in xs + bytes_in ys
bytes_in-append [] ys = omega arith
bytes_in-append (x ∷ xs) ys = omega (arith, bytes_in-append xs ys)

-- No request is listed yet, or the first time is one.
abbrev Started : ReadTotals → Type 0
Started totals = (totals.successful_requests ≡ []) ⊎ (0 < totals.first_request_time)

first_time_bounds :
    (first send : ℕ)
    → 0 < send
    → (0 < first_time first send)
      × (first_time first send ≤ send)
      × (0 < first → first_time first send ≤ first)
unfolding first_time
first_time_bounds first send h = (
  ground (arith, nat_beq_iff first 0),
  ground (arith, nat_beq_iff first 0),
  λ g. ground (arith, nat_beq_iff first 0),
)

last_time_bounds : (last recv : ℕ) → (recv ≤ last_time last recv) × (last ≤ last_time last recv)
unfolding last_time
last_time_bounds last recv = (ground arith, ground arith)

-- The requests listed before stay within the time that the new totals span.
count_request-IsWithin :
    (pid : ℕ) (m : ReadRequestMetrics) (totals : ReadTotals)
    → 0 < m.send_time_ms
    → Started totals
    → All (IsWithin totals) totals.successful_requests
    → All (IsWithin (count_request pid m totals)) totals.successful_requests
unfolding count_request
count_request-IsWithin pid m totals timed (inl nothing) within =
    subst (λ ms. All (IsWithin (count_request pid m totals)) ms) (sym nothing) tt
count_request-IsWithin pid m totals timed (inr started) within =
    All-imp (IsWithin totals) (IsWithin (count_request pid m totals)) totals.successful_requests
      (λ old h.
        let (positive, early, earlier) =
          first_time_bounds totals.first_request_time m.send_time_ms timed in
        let (late, later) = last_time_bounds totals.last_ack_time m.recv_time_ms in
        (omega (arith, earlier started, h.0), omega (arith, later, h.1)))
      within

count_request-AddsUp :
    (pid : ℕ) (m : ReadRequestMetrics) (totals : ReadTotals)
    → 0 < m.send_time_ms
    → AddsUp totals × Started totals
    → AddsUp (count_request pid m totals) × Started (count_request pid m totals)
unfolding count_request unique_metrics
count_request-AddsUp pid m totals timed ((records, bytes, within), started) =
    let listed = totals.successful_requests in
    let new = unique_metrics pid m in
    let (positive, early, earlier) =
      first_time_bounds totals.first_request_time m.send_time_ms timed in
    let (late, later) = last_time_bounds totals.last_ack_time m.recv_time_ms in
    (
      (
        omega (arith, records, records_in-append listed (new ∷ [])),
        omega (arith, bytes, bytes_in-append listed (new ∷ [])),
        All-append (IsWithin (count_request pid m totals)) listed (new ∷ [])
            (count_request-IsWithin pid m totals timed started within) ((early, late), tt),
      ),
      inr positive,
    )

count_requests-AddsUp :
    (pid : ℕ) (ms : List ReadRequestMetrics) (totals : ReadTotals)
    → All (λ (m : ReadRequestMetrics). 0 < m.send_time_ms) ms
    → AddsUp totals × Started totals
    → AddsUp (count_requests pid ms totals) × Started (count_requests pid ms totals)
unfolding count_requests
count_requests-AddsUp pid [] totals timed h = h
count_requests-AddsUp pid (m ∷ ms) totals timed h =
    count_requests-AddsUp pid ms (count_request pid m totals) timed.1
      (count_request-AddsUp pid m totals timed.0 h)

update_all-AddsUp :
    (pid : ℕ) (futures : List (ℕ × Outcome BatchResults)) (totals : ReadTotals)
    → All IsTimed futures
    → AddsUp totals × Started totals
    → AddsUp (update_all pid futures totals) × Started (update_all pid futures totals)
unfolding update_all update_read_metrics
update_all-AddsUp pid [] totals timed h = h
update_all-AddsUp pid ((num_queries, raise x) ∷ futures) totals timed h =
    update_all-AddsUp pid futures totals timed.1 h
update_all-AddsUp pid ((num_queries, ok results) ∷ futures) totals timed h =
    update_all-AddsUp pid futures _ timed.1
      (count_requests-AddsUp pid results.request_metrics _ timed.0 h)

-- Whatever the futures of the read benchmark ended with, and in whatever order their callbacks ran,
-- if no request was sent at time 0, the records and bytes counted are those of the requests listed,
-- and every one of these was sent and answered within the time that the totals span.
pub totals_add_up :
    (pid : ℕ) (futures : List (ℕ × Outcome BatchResults))
    → All IsTimed futures
    → AddsUp (update_all pid futures no_reads)
totals_add_up pid futures timed =
    (update_all-AddsUp pid futures no_reads timed ((refl, refl, tt), inl refl)).0
