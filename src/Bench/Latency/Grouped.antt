-- ===== src/Bench/Latency/Grouped.antt =====
-- The latencies of the queries, against their description.
use mathlib.Core.List.{foldl}
use mathlib.Core.Path.{fun_ext}
use raft_lsmt.Base.{
  ℕ, ◌+◌, ◌-◌, ◌≤◌, max, arith, All, All-imp, All-Member, Any, here, there, Member, ◌≡◌, refl, sym,
  ap, ◌∙◌, List, [], ◌∷◌, ◌++◌, map, append-nil, append_assoc, nat_key,
}
use native.Mathlib.Decide.{dec_le}
use raft_lsmt.Base.Dict.{Dict}
use raft_lsmt.Base.Grouping.{
  distinct, having, having-Member, having-All, put_in, value_of, put_in_all,
}
use raft_lsmt.Client.Datatypes.{ReadRequestMetrics}
use raft_lsmt.Bench.Latency.{
  ByRequest, append_request, index_request, index_all, max_req_latency, query_latency, latencies_of,
  latencies,
}

abbrev query_of : ReadRequestMetrics → ℕ
query_of req = req.query_id

abbrev number_of : ReadRequestMetrics → ℕ
number_of req = req.req_id

-- The sum of a list.
abbrev pub sum : List ℕ → ℕ
sum [] = 0
sum (n ∷ ns) = n + sum ns

-- The requests with a query number and a request number.
abbrev pub alike : List ReadRequestMetrics → ℕ → ℕ → List ReadRequestMetrics
alike reqs q_id r_id = having number_of r_id (having query_of q_id reqs)

-- A time is the longest of some requests: one took that long, and none took longer.
abbrev pub IsLongest : List ReadRequestMetrics → ℕ → Type 0
IsLongest reqs time =
    Any (λ req. req.send_time_ms + time ≡ req.recv_time_ms) reqs
    × All (λ req. req.recv_time_ms ≤ req.send_time_ms + time) reqs

-- What a query took, where it is told how long each of its request numbers took.
abbrev pub time_taken : (ℕ → ℕ → ℕ) → List ReadRequestMetrics → ℕ → ℕ
time_taken longest reqs q_id =
    sum (map (longest q_id) (distinct (map number_of (having query_of q_id reqs))))

max_req_latency-IsLongest :
    (req : ReadRequestMetrics) (reqs : List ReadRequestMetrics)
    → All (λ x. x.send_time_ms ≤ x.recv_time_ms) (req ∷ reqs)
    → IsLongest (req ∷ reqs) (max_req_latency (req ∷ reqs))
unfolding max_req_latency
max_req_latency-IsLongest req [] h = (here (omega (arith, h.0)), (omega (arith, h.0), tt))
max_req_latency-IsLongest req (next ∷ reqs) h =
    let (one, all) = max_req_latency-IsLongest next reqs h.1 in
    let own = req.recv_time_ms - req.send_time_ms in
    let rest = max_req_latency (next ∷ reqs) in
    let others =
      All-imp (λ x. x.recv_time_ms ≤ x.send_time_ms + rest)
        (λ x. x.recv_time_ms ≤ x.send_time_ms + max own rest) (next ∷ reqs)
        (λ x le. omega (arith, le)) all in
    elim (dec_le rest own) [
      | yes most ↦ (here (omega (arith, h.0)), (omega (arith, h.0), others))
      | no less ↦
          let same : max own rest ≡ rest = omega arith in
          (there (rw same one), (omega (arith, h.0), others))
    ]

some-IsLongest :
    (reqs : List ReadRequestMetrics) (req : ReadRequestMetrics)
    → All (λ x. x.send_time_ms ≤ x.recv_time_ms) reqs
    → Member req reqs
    → IsLongest reqs (max_req_latency reqs)
some-IsLongest [] req h m = elim m [ ]
some-IsLongest (r ∷ reqs) req h m = max_req_latency-IsLongest r reqs h

snoc_all : (xs ys : List ReadRequestMetrics) → foldl (λ l x. l ++ x ∷ []) xs ys ≡ xs ++ ys
snoc_all xs [] = sym (append-nil xs)
snoc_all xs (y ∷ ys) = snoc_all (xs ++ y ∷ []) ys ∙ append_assoc xs (y ∷ []) ys

index_fold :
    (reqs : List ReadRequestMetrics) (d : Dict ℕ ByRequest)
    → index_all d reqs ≡ foldl (put_in query_of [] append_request) d reqs
unfolding index_all index_request
index_fold [] d = refl
index_fold (req ∷ reqs) d = index_fold reqs (index_request d req)

inner_table :
    (reqs : List ReadRequestMetrics)
    → foldl append_request [] reqs
      ≡ map (λ r_id. (r_id, having number_of r_id reqs)) (distinct (map number_of reqs))
unfolding append_request
inner_table reqs =
    put_in_all number_of [] (λ l x. l ++ x ∷ []) reqs
    ∙ ap (λ f. map (λ r_id. (r_id, f r_id)) (distinct (map number_of reqs)))
        (fun_ext (λ r_id. snoc_all [] (having number_of r_id reqs)))

latency_table :
    (f : ℕ → List ReadRequestMetrics) (rs : List ℕ)
    → query_latency (map (λ r_id. (r_id, f r_id)) rs)
      ≡ sum (map (λ r_id. max_req_latency (f r_id)) rs)
unfolding query_latency
latency_table f [] = refl
latency_table f (r_id ∷ rs) = ap (◌+◌ (max_req_latency (f r_id))) (latency_table f rs)

query_table :
    (f : ℕ → ByRequest) (qs : List ℕ)
    → latencies_of (map (λ q_id. (q_id, f q_id)) qs) ≡ map (λ q_id. query_latency (f q_id)) qs
unfolding latencies_of
query_table f [] = refl
query_table f (q_id ∷ qs) = ap (◌∷◌ (query_latency (f q_id))) (query_table f qs)

latencies_table :
    (reqs : List ReadRequestMetrics)
    → latencies reqs
      ≡ map
          (time_taken (λ q_id r_id. max_req_latency (alike reqs q_id r_id)) reqs)
          (distinct (map query_of reqs))
unfolding latencies
latencies_table reqs =
    ap latencies_of (index_fold reqs [] ∙ put_in_all query_of [] append_request reqs)
    ∙ query_table (value_of query_of [] append_request reqs) (distinct (map query_of reqs))
    ∙ ap (λ f. map f (distinct (map query_of reqs)))
        (fun_ext (λ q_id.
          let own = having query_of q_id reqs in
          ap query_latency (inner_table own)
          ∙ latency_table (λ r_id. having number_of r_id own) (distinct (map number_of own))))

-- Where no request is received before it was sent: there is one latency for each query number among
-- the requests, in the order in which they come first; it is the sum, over the distinct request
-- numbers among the query's requests, of the time that the requests of the query with that number
-- took at most, and one of them took.
pub latencies_lem :
    (reqs : List ReadRequestMetrics)
    → All (λ req. req.send_time_ms ≤ req.recv_time_ms) reqs
    → (longest : (ℕ → ℕ → ℕ)) × All
        (λ req. IsLongest (alike reqs req.query_id req.req_id) (longest req.query_id req.req_id))
        reqs
      × (latencies reqs ≡ map (time_taken longest reqs) (distinct (map query_of reqs)))
latencies_lem reqs h = (
  λ q_id r_id. max_req_latency (alike reqs q_id r_id),
  All-imp (λ req. Member req reqs) _ reqs
      (λ req m.
        let q = having query_of req.query_id reqs in
        let inside = having-Member number_of q req (having-Member query_of reqs req m) in
        some-IsLongest (alike reqs req.query_id req.req_id) req
          (having-All number_of _ req.req_id q (having-All query_of _ req.query_id reqs h)) inside)
      (All-Member reqs),
  latencies_table reqs,
)
