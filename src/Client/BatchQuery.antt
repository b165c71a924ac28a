-- ===== src/Client/BatchQuery.antt =====
-- client/dbclient.py, `_query_batch_single_node`: several queries are asked of one node at once, and
-- the responses put into the order of the queries. The times of an answer are not part of it.
pub mod Numbers
pub mod Order
pub mod Whole
mod Tests
use raft_lsmt.Base.{
  ℕ, zero, suc, ◌+◌, ◌-◌, Bool, String, Option, none, some, List, [], ◌∷◌, ◌++◌, length, replicate,
  set, ◌==◌, nat_key, Outcome, ok, raise, ◌>>=◌, index_error, connection_error, runtime_error,
  string_key,
}
use raft_lsmt.Base.Dict
use raft_lsmt.Base.Dict.{Dict}
use raft_lsmt.Client.Datatypes.{Node, node_key, QueryRequest}
use raft_lsmt.Client.Registry.{LeaderRegistry, get_leader}
use raft_lsmt.Client.Wire.Request.{pack_request}
use raft_lsmt.Client.Wire.Response.{
  Header, query_resp_header_size, unpack_header, Response, parse_response,
}
use raft_lsmt.Client.Wire.Stream.{Arrival, recv_exact}
use raft_lsmt.Client.Send.{Connection, refused, unsent, replies}
use raft_lsmt.Client.Query.{preferred_nodes}

-- The number of the next query, `req_ids[idx]` or the next of the counter; the numbers behind it, and
-- the counter.
unfoldable pub next_number : Option (List ℕ) → ℕ → Outcome ℕ × Option (List ℕ) × ℕ
next_number none counter = (ok counter, none, counter + 1)
next_number (some []) counter = (raise index_error, some [], counter)
next_number (some (id ∷ ids)) counter = (ok id, some ids, counter)

unfoldable pub packed_request : Outcome ℕ → QueryRequest → Outcome (ℕ × List ℕ)
packed_request number query = do id ← number; req_data ← pack_request id query; ok (id, req_data)

-- The payload: the requests in order, with the queries under their numbers; and the counter.
unfoldable pub build_payload :
    Option (List ℕ) → List QueryRequest → ℕ → Outcome (List (ℕ × QueryRequest) × List ℕ) × ℕ
build_payload req_ids [] counter = (ok ([], []), counter)
build_payload req_ids (query ∷ queries) counter =
    let drawn = next_number req_ids counter in
    elim (packed_request drawn.0 query) [
      | raise x ↦ (raise x, drawn.2)
      | ok (id, req_data) ↦
          let rest = build_payload drawn.1 queries drawn.2 in
          (rest.0 >>= λ built. ok ((id, query) ∷ built.0, req_data ++ built.1), rest.1)
    ]

-- `req_id_to_idx`, from the index `idx` on.
unfoldable pub index_requests : List (ℕ × QueryRequest) → ℕ → Dict ℕ ℕ → Dict ℕ ℕ
index_requests [] idx req_id_to_idx = req_id_to_idx
index_requests ((req_id, query) ∷ rest) idx req_id_to_idx =
    index_requests rest (suc idx) (Dict.set req_id_to_idx req_id idx)

-- The body of `size` bytes, and what arrives behind it.
unfoldable pub read_body : ℕ → List Arrival → Outcome (List ℕ) × List Arrival
read_body zero arrivals = (ok [], arrivals)
read_body (suc size) arrivals = recv_exact (suc size) arrivals

-- `resp_req_id not in req_id_to_idx` raises.
unfoldable pub known_header : Dict ℕ ℕ → List ℕ → Outcome Header
known_header req_id_to_idx header_data = unpack_header header_data >>= λ header.
    elim (Dict.get req_id_to_idx header.req_id) [
      | none ↦ raise connection_error
      | some idx ↦ ok header
    ]

-- One response, and what arrives behind it.
unfoldable pub read_response : Dict ℕ ℕ → Bool → List Arrival → Outcome Response × List Arrival
read_response req_id_to_idx skip_records arrivals =
    let head = recv_exact query_resp_header_size arrivals in
    elim (head.0 >>= known_header req_id_to_idx) [
      | raise x ↦ (raise x, head.1)
      | ok header ↦
          let body = read_body (header.total_size - query_resp_header_size) head.1 in
          (body.0 >>= λ body_data. ok (parse_response header body_data skip_records), body.1)
    ]

-- The loop over `range(len(queries))`.
unfoldable pub read_responses : ℕ → Dict ℕ ℕ → Bool → List Arrival → Outcome (List Response)
read_responses zero req_id_to_idx skip_records arrivals = ok []
read_responses (suc count) req_id_to_idx skip_records arrivals =
    let first = read_response req_id_to_idx skip_records arrivals in
    first.0 >>= λ response. read_responses count req_id_to_idx skip_records first.1 >>= λ responses.
    ok (response ∷ responses)

-- `ordered_responses[idx] = resp`, where the number is known.
unfoldable pub put_response : Dict ℕ ℕ → Response → List (Option Response) → List (Option Response)
put_response req_id_to_idx response ordered = elim (Dict.get req_id_to_idx response.req_id) [
  | none ↦ ordered
  | some idx ↦ set ordered idx (some response)
]

unfoldable pub order_responses :
    Dict ℕ ℕ → List Response → List (Option Response) → List (Option Response)
order_responses req_id_to_idx [] ordered = ordered
order_responses req_id_to_idx (response ∷ responses) ordered =
    order_responses req_id_to_idx responses (put_response req_id_to_idx response ordered)

-- What is done with what arrives, once all requests are sent.
unfoldable pub read_ordered :
    List (ℕ × QueryRequest) → Bool → List Arrival → Outcome (List (Option Response))
read_ordered numbered skip_records arrivals =
    let req_id_to_idx = index_requests numbered 0 [] in
    read_responses (length numbered) req_id_to_idx skip_records arrivals >>= λ responses.
    ok (order_responses req_id_to_idx responses (replicate (length numbered) none))

-- One node is asked: a socket is taken before the payload is built.
unfoldable pub exchange_batch :
    Option (List ℕ)
    → List QueryRequest
    → Bool
    → ℕ
    → Connection
    → Outcome (List (Option Response)) × ℕ
exchange_batch req_ids queries skip_records counter (refused x) = (raise x, counter)
exchange_batch req_ids queries skip_records counter (unsent x) =
    let built = build_payload req_ids queries counter in (built.0 >>= λ requests. raise x, built.1)
exchange_batch req_ids queries skip_records counter (replies arrivals) =
    let built = build_payload req_ids queries counter in
    (built.0 >>= λ requests. read_ordered requests.0 skip_records arrivals, built.1)

-- The loop over the preferred nodes.
unfoldable pub ask_batch :
    (Node → Connection)
    → List QueryRequest
    → Bool
    → Option (List ℕ)
    → List Node
    → ℕ
    → Outcome (Node × List (Option Response)) × ℕ
ask_batch connection queries skip_records req_ids [] counter = (raise runtime_error, counter)
ask_batch connection queries skip_records req_ids (n ∷ ns) counter =
    let answered = exchange_batch req_ids queries skip_records counter (connection n) in
    elim answered.0 [
      | ok ordered ↦ (ok (n, ordered), answered.1)
      | raise x ↦ ask_batch connection queries skip_records req_ids ns answered.1
    ]

unfoldable pub query_batch_single_node :
    (Node → Connection)
    → Dict String (List Node)
    → LeaderRegistry
    → Node
    → List QueryRequest
    → Bool
    → Option (List ℕ)
    → ℕ
    → Outcome (Node × List (Option Response)) × ℕ
query_batch_single_node connection clusters registry target queries skip_records req_ids counter =
    let nodes = Dict.get_default clusters target.cluster_name [] in
    let leader = get_leader registry target.cluster_name in
    ask_batch connection queries skip_records req_ids (preferred_nodes target leader nodes) counter
