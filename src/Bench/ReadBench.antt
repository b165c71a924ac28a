-- ===== src/Bench/ReadBench.antt =====
-- read_benchmark.py, `query_stream` and `bench`: the queries of the stream are asked in batches. The
-- pauses, what is printed, and the waiting for the last futures are left out; `not_done` says which
-- futures are not done when the loop has waited for one of them. A future is named by its batch.
pub mod Batches
mod Tests
use raft_lsmt.Base.{
  ℕ, zero, suc, ◌+◌, ◌-◌, ◌*◌, ◌/◌, ◌%◌, ◌^◌, String, Option, none, some, List, [], ◌∷◌, ◌++◌,
  length, leb, ltb, ◌==◌, string_key, nat_key, if◌then◌else◌, Outcome, ok, raise, ◌>>=◌,
  value_error, zero_division,
}
use raft_lsmt.Client.Datatypes.{QueryRequest}
use raft_lsmt.Client.Routing.Router.{Router}
use raft_lsmt.Client.ReadBatch.{BatchReading, read_batch}
use raft_lsmt.Bench.Streams.{Yielded, zipf_next}

-- The first key of the query number `i`.
unfoldable pub start_id : (ℕ → ℕ → ℕ → Outcome ℕ) → (ℕ → ℕ → ℕ) → String → ℕ → ℕ → ℕ → ℕ → Outcome ℕ
start_id randint inverse_cdf data_distribution range_size key_start key_end i =
    let range_width = key_end + 1 - key_start in
    if data_distribution == "sequential"
    then (if range_width == 0
        then raise zero_division
        else ok (key_start + i * range_size % range_width))
    else if data_distribution == "uniform"
    then randint i key_start key_end
    else if data_distribution == "zipfian"
    then ok (key_start + zipf_next inverse_cdf range_width i - 1)
    else raise value_error

abbrev pub query_from : ℕ → ℕ → ℕ → QueryRequest
query_from range_size start i = record {
  min_id = start;
  min_ts = 0;
  max_id = start + range_size - 1;
  max_ts = 18446744073709551615;
  query_id = i;
}

-- The queries from number `i` on.
unfoldable pub queries_from : (ℕ → Outcome ℕ) → ℕ → ℕ → ℕ → Yielded QueryRequest
queries_from first_key range_size i zero = ([], ok tt)
queries_from first_key range_size i (suc amount) =
    let rest = queries_from first_key range_size (suc i) amount in
    elim (first_key i) [
      | raise x ↦ ([], raise x)
      | ok start ↦ (query_from range_size start i ∷ rest.0, rest.1)
    ]

-- For a range of keys that does not run backwards. A stream of an unknown distribution raises even
-- where no query is wanted.
unfoldable pub query_stream :
    (ℕ → ℕ → ℕ → Outcome ℕ) → (ℕ → ℕ → ℕ) → ℕ → String → ℕ → ℕ → ℕ → Yielded QueryRequest
query_stream randint inverse_cdf amount data_distribution range_size key_start key_end =
    let known = start_id randint inverse_cdf data_distribution range_size key_start key_end in
    if data_distribution == "sequential"
    then queries_from known range_size 0 amount
    else if data_distribution == "uniform"
    then queries_from known range_size 0 amount
    else if data_distribution == "zipfian"
    then queries_from known range_size 0 amount
    else ([], raise value_error)

-- The variables of `bench`, with what the client keeps of it: its router and its counter. `sent` is
-- every batch that was asked so far.
pub record ReadBench : Type 0 where
  pub router : Router
  pub next_req_id : ℕ
  pub batch_buffer : List QueryRequest
  pub total_processed : ℕ
  pub futures : List (List QueryRequest)
  pub sent : List (List QueryRequest)

abbrev pub counter_after : ℕ → Option BatchReading → ℕ
counter_after next_req_id none = next_req_id
counter_after next_req_id (some reading) = reading.next_req_id

-- `dbclient.read_batch(batch_buffer)`, and its future to the others.
unfoldable pub ask_buffer : (ℕ → ℕ) → ReadBench → Outcome ReadBench
ask_buffer gaps bench =
    read_batch gaps bench.router bench.next_req_id bench.batch_buffer >>= λ started.
    ok (record bench {
      router = started.1;
      next_req_id = counter_after bench.next_req_id started.0;
      batch_buffer = [];
      futures = bench.futures ++ bench.batch_buffer ∷ [];
      sent = bench.sent ++ bench.batch_buffer ∷ [];
    })

-- With more than 512 futures in flight, one of them is waited for.
unfoldable pub hold_back :
    (List (List QueryRequest) → List (List QueryRequest)) → ReadBench → ReadBench
hold_back not_done bench =
    if ltb 512 (length bench.futures)
    then record bench { futures = not_done bench.futures }
    else bench

abbrev pub take_query : QueryRequest → ReadBench → ReadBench
take_query query bench = record bench {
  batch_buffer = bench.batch_buffer ++ query ∷ [];
  total_processed = bench.total_processed + 1;
}

-- One query of the stream.
unfoldable pub receive_query :
    (ℕ → ℕ)
    → (List (List QueryRequest) → List (List QueryRequest))
    → ℕ
    → QueryRequest
    → ReadBench
    → Outcome ReadBench
receive_query gaps not_done batch_size query bench =
    let bench' = take_query query bench in
    if leb batch_size (length bench'.batch_buffer)
    then (ask_buffer gaps bench' >>= λ done. ok (hold_back not_done done))
    else ok bench'

unfoldable pub receive_queries :
    (ℕ → ℕ)
    → (List (List QueryRequest) → List (List QueryRequest))
    → ℕ
    → List QueryRequest
    → ReadBench
    → Outcome ReadBench
receive_queries gaps not_done batch_size [] bench = ok bench
receive_queries gaps not_done batch_size (query ∷ queries) bench =
    receive_query gaps not_done batch_size query bench >>= λ bench'.
    receive_queries gaps not_done batch_size queries bench'

-- Any remaining queries.
unfoldable pub ask_some : (ℕ → ℕ) → List QueryRequest → ReadBench → Outcome ReadBench
ask_some gaps [] bench = ok bench
ask_some gaps (query ∷ queries) bench = ask_buffer gaps bench

abbrev pub begin_asking : Router → ℕ → ReadBench
begin_asking router next_req_id = record {
  router = router;
  next_req_id = next_req_id;
  batch_buffer = [];
  total_processed = 0;
  futures = [];
  sent = [];
}

-- `bench` on what the stream yields: the stream's own exception comes after its queries.
unfoldable pub run_read_bench :
    (ℕ → ℕ)
    → (List (List QueryRequest) → List (List QueryRequest))
    → ℕ
    → Yielded QueryRequest
    → Router
    → ℕ
    → Outcome ReadBench
run_read_bench gaps not_done batch_size stream router next_req_id = do
  received ← receive_queries gaps not_done batch_size stream.0 (begin_asking router next_req_id)
  ended ← stream.1
  ask_some gaps received.batch_buffer received
