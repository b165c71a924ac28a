-- ===== src/Bench/Latency/Tests.antt =====
-- Four requests of two queries: the first query has a page, and its first request was answered twice.
use raft_lsmt.Base.{ℕ, ◌*◌, ◌-◌, ◌≤◌, ◌≡◌, refl, List, [], ◌∷◌, map, length, arith, All, nat_key}
use raft_lsmt.Base.Dict
use raft_lsmt.Client.Datatypes.{ReadRequestMetrics}
use raft_lsmt.Bench.Latency.{
  latencies, latencies_of, index_all, index_request, append_request, query_latency, max_req_latency,
  sort, insert_sorted, sample, calculate_percentile, upper_index,
}
use raft_lsmt.Bench.Latency.Grouped.{alike, IsLongest, time_taken, latencies_lem}
use raft_lsmt.Bench.Latency.Percentile.{percentiles_grow}

abbrev request : ℕ → ℕ → ℕ → ℕ → ReadRequestMetrics
request query_id req_id send_time_ms recv_time_ms = record {
  query_id = query_id;
  req_id = req_id;
  send_time_ms = send_time_ms;
  recv_time_ms = recv_time_ms;
  record_count = 1;
  records_bytes = 29;
}

abbrev requests : List ReadRequestMetrics
requests = request 1 11 0 10 ∷ request 2 12 5 9 ∷ request 1 11 10 30 ∷ request 1 13 30 35 ∷ []

timed : latencies requests ≡ 25 ∷ 4 ∷ []
unfolding latencies latencies_of index_all index_request append_request query_latency
    max_req_latency Dict.set Dict.get Dict.get_default
timed = refl

latencies_lem_example :
    (longest : (ℕ → ℕ → ℕ)) × All
      (λ req. IsLongest (alike requests req.query_id req.req_id) (longest req.query_id req.req_id))
      requests
    × (latencies requests ≡ map (time_taken longest requests) (1 ∷ 2 ∷ []))
latencies_lem_example =
    latencies_lem requests (omega arith, (omega arith, (omega arith, (omega arith, tt))))

halfway : calculate_percentile (sort (25 ∷ 4 ∷ [])) 50 ≡ 1450
unfolding sort insert_sorted sample calculate_percentile upper_index
halfway = refl

percentiles_grow_example :
    (calculate_percentile (sort (25 ∷ 4 ∷ [])) 50 ≤ calculate_percentile (sort (25 ∷ 4 ∷ [])) 95)
    × (calculate_percentile (sort (25 ∷ 4 ∷ [])) 0 ≡ 100 * sample (sort (25 ∷ 4 ∷ [])) 0)
    × (calculate_percentile (sort (25 ∷ 4 ∷ [])) 100
        ≡ 100 * sample (sort (25 ∷ 4 ∷ [])) (length {A = ℕ} (25 ∷ 4 ∷ []) - 1))
percentiles_grow_example = percentiles_grow (25 ∷ 4 ∷ []) 50 95 (λ e. cc) (omega arith)
