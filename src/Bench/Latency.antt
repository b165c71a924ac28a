-- ===== src/Bench/Latency.antt =====
-- read_benchmark.py, the figures at the end of `bench`, and `calculate_percentile`. Times are numbers
-- of milliseconds, and no response is received before its request was sent; averages and percentiles
-- are exact fractions, where the source has floating point.
pub mod Grouped
pub mod Percentile
mod Tests
use raft_lsmt.Base.{
  ℕ, zero, ◌+◌, ◌-◌, ◌*◌, ◌/◌, ◌%◌, max, List, [], ◌∷◌, ◌++◌, map, length, get_elem?, Option, none,
  some, ltb, leb, ◌==◌, nat_key, if◌then◌else◌,
}
use raft_lsmt.Base.Dict
use raft_lsmt.Base.Dict.{Dict}
use raft_lsmt.Base.Lanes.{lane}
use raft_lsmt.Client.Datatypes.{ReadRequestMetrics}

-- The requests of a query, by their numbers.
abbrev pub ByRequest : Type 0
ByRequest = Dict ℕ (List ReadRequestMetrics)

-- `reqs_by_rid[r_id].append(req)`.
unfoldable pub append_request : ByRequest → ReadRequestMetrics → ByRequest
append_request reqs_by_rid req =
    Dict.set reqs_by_rid req.req_id (Dict.get_default reqs_by_rid req.req_id [] ++ req ∷ [])

-- `query_requests[q_id][r_id].append(req)`, with empty entries where there are none.
unfoldable pub index_request : Dict ℕ ByRequest → ReadRequestMetrics → Dict ℕ ByRequest
index_request query_requests req =
    Dict.set query_requests req.query_id
      (append_request (Dict.get_default query_requests req.query_id []) req)

unfoldable pub index_all : Dict ℕ ByRequest → List ReadRequestMetrics → Dict ℕ ByRequest
index_all query_requests [] = query_requests
index_all query_requests (req ∷ reqs) = index_all (index_request query_requests req) reqs

-- `max(req.recv_time_ms - req.send_time_ms for req in req_list)`; no list is empty.
unfoldable pub max_req_latency : List ReadRequestMetrics → ℕ
max_req_latency [] = 0
max_req_latency (req ∷ reqs) = max (req.recv_time_ms - req.send_time_ms) (max_req_latency reqs)

-- The loop over `reqs_by_rid.items()`.
unfoldable pub query_latency : ByRequest → ℕ
query_latency [] = 0
query_latency ((r_id, req_list) ∷ rest) = max_req_latency req_list + query_latency rest

-- The loop over `query_requests.items()`.
unfoldable pub latencies_of : Dict ℕ ByRequest → List ℕ
latencies_of [] = []
latencies_of ((q_id, reqs_by_rid) ∷ rest) = query_latency reqs_by_rid ∷ latencies_of rest

unfoldable pub latencies : List ReadRequestMetrics → List ℕ
latencies successful_requests = latencies_of (index_all [] successful_requests)

-- `latencies.sort()`.
unfoldable pub insert_sorted : ℕ → List ℕ → List ℕ
insert_sorted x [] = x ∷ []
insert_sorted x (y ∷ ys) = let rest = insert_sorted x ys in if leb x y then x ∷ y ∷ ys else y ∷ rest

unfoldable pub sort : List ℕ → List ℕ
sort [] = []
sort (x ∷ xs) = insert_sorted x (sort xs)

-- `sorted_samples[i]`; the indices asked for are inside.
unfoldable pub sample : List ℕ → ℕ → ℕ
sample sorted_samples i = elim (get_elem? sorted_samples i) [ none ↦ 0 | some v ↦ v ]

-- `upper`, the next index if there is one.
unfoldable pub upper_index : ℕ → ℕ → ℕ
upper_index count lower = if leb count (lower + 1) then lower else lower + 1

-- `calculate_percentile` for a whole percentage, in hundredths: `index` is `percentile * (count - 1)`
-- hundredths, so that its whole part is `lower`, and the rest `weight`, in hundredths too.
unfoldable pub calculate_percentile : List ℕ → ℕ → ℕ
calculate_percentile sorted_samples percentile =
    let count = length sorted_samples in
    let lower = percentile * (count - 1) / 100 in
    let weight = percentile * (count - 1) % 100 in
    let upper = upper_index count lower in
    if count == 0
    then 0
    else if leb 100 percentile
    then 100 * sample sorted_samples (count - 1)
    else if percentile == 0
    then 100 * sample sorted_samples 0
    else (100 - weight) * sample sorted_samples lower + weight * sample sorted_samples upper
