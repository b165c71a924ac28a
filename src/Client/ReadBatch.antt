-- ===== src/Client/ReadBatch.antt =====
-- client/dbclient.py, `read_batch` and its `_aggregate`: the queries are grouped by the nodes that the
-- router names, each node is asked all of its queries at once, and further pages of a query as long
-- as its answers are cut off. The futures that are not done yet are the tasks; the environment says
-- which of them is done next, and with what. Where a future raises, the aggregation ends.
pub mod Rounds
pub mod Falls
pub mod Ends
pub mod Places
mod Tests
use raft_lsmt.Base.{
  ℕ, suc, ◌+◌, String, Option, none, some, List, [], ◌∷◌, ◌++◌, map, max, ◌≡◌, if◌then◌else◌,
  Outcome, ok, raise, ◌>>=◌, key_error, index_error, type_error, unbound_local_error, timeout_error,
  set, get_elem?, string_key,
}
use raft_lsmt.Base.Dict
use raft_lsmt.Base.Dict.{Dict}
use raft_lsmt.Base.Lanes.{lane}
use raft_lsmt.Client.Datatypes.{Node, node_key, QueryRequest, ReadRequestMetrics}
use raft_lsmt.Client.Routing.Target.{or_raise}
use raft_lsmt.Client.Routing.Router.{Router}
use raft_lsmt.Client.Routing.Router
use raft_lsmt.Client.Wire.Response.{Response}
use raft_lsmt.Client.Pages.{
  Answer, accept_initial, accept_page, request_metrics, join_page, has_more, page_query, settled,
}
use raft_lsmt.Client.Read.{earlier, latency}

-- A query of the batch with its index in it.
abbrev pub QueryPair : Type 0
QueryPair = ℕ × QueryRequest

-- The futures: `_query_batch_single_node` for a node, with its entry in `future_to_info`, and
-- `_query_single_node` for a page, with its entry in `pagination_tracker`.
pub data BatchTask : Type 0 where
  batch : (asked : Node) (query_pairs : List QueryPair) (sub_req_ids : List ℕ) → BatchTask
  page : (asked : Node) (query : QueryRequest) (req_id idx orig_query_idx : ℕ) → BatchTask

-- What `_query_batch_single_node` returns: in the place of a query its response with the response's
-- `_recv_ts`, or None.
pub record BatchAnswer : Type 0 where
  pub node : Node
  pub responses : List (Option (Response × ℕ))
  pub net_start : ℕ
  pub net_end : ℕ

-- The variables of `_aggregate`, and the counter of request numbers. `orig_query` is none as long as
-- nothing was assigned to it.
pub record BatchReading : Type 0 where
  pub next_req_id : ℕ
  pub active : List BatchTask
  pub accumulated : Dict Node (List (Option Response))
  pub metrics : List ReadRequestMetrics
  pub min_start : Option ℕ
  pub max_end : ℕ
  pub orig_query : Option QueryRequest

unfoldable pub batch_timed : ℕ → ℕ → BatchReading → BatchReading
batch_timed net_start net_end reading = record reading {
  min_start = earlier reading.min_start net_start;
  max_end = max reading.max_end net_end;
}

-- `batch_request_metrics.append`, with the number of `query`.
unfoldable pub charged : QueryRequest → Response → ℕ → ℕ → BatchReading → BatchReading
charged query response send_time recv_time reading = record reading {
  metrics = reading.metrics ++ request_metrics query response send_time recv_time ∷ [];
}

-- The response in place `idx` of what `n` answered.
abbrev pub put_at :
    Dict Node (List (Option Response)) → Node → ℕ → Response → Dict Node (List (Option Response))
put_at accumulated n idx response =
    Dict.set accumulated n (set (lane accumulated n) idx (some response))

-- The response is kept, and another page asked for or the answer settled. Other threads drew `drawn`
-- request numbers since.
unfoldable pub follow_up : QueryRequest → ℕ → Node → ℕ → ℕ → Response → BatchReading → BatchReading
follow_up query drawn n idx orig_query_idx response reading =
    let number = reading.next_req_id + drawn in
    if has_more query response
    then record reading {
      accumulated = put_at reading.accumulated n idx response;
      next_req_id = number + 1;
      active = reading.active ++ page n (page_query query response) number idx orig_query_idx ∷ [];
    }
    else record reading { accumulated = put_at reading.accumulated n idx (settled response) }

-- The loop over the responses of a batch, from place `sub_idx` on; `query_pairs` are the pairs from
-- there on.
unfoldable pub finish_entries :
    (ℕ → ℕ)
    → BatchAnswer
    → ℕ
    → List (Option (Response × ℕ))
    → List QueryPair
    → BatchReading
    → Outcome BatchReading
finish_entries drawn answer sub_idx [] query_pairs reading = ok reading
finish_entries drawn answer sub_idx (entry ∷ entries) [] reading = raise index_error
finish_entries drawn answer sub_idx (none ∷ entries) (pair ∷ query_pairs) reading = raise type_error
finish_entries drawn answer sub_idx (some (response, recv_ts) ∷ entries)
      ((orig_query_idx, query) ∷ query_pairs) reading =
    accept_initial query response >>= λ _.
    finish_entries drawn answer (suc sub_idx) entries query_pairs (
      follow_up query (drawn sub_idx) answer.node sub_idx orig_query_idx response (
        charged query response answer.net_start recv_ts
          (record reading { orig_query = some query })))

-- `list(responses)`.
abbrev pub responses_of : List (Option (Response × ℕ)) → List (Option Response)
responses_of [] = []
responses_of (none ∷ entries) = none ∷ responses_of entries
responses_of (some entry ∷ entries) = some entry.0 ∷ responses_of entries

-- A batch of a node is done: what the node answered is put in place of what it answered before.
unfoldable pub finish_batch :
    (ℕ → ℕ) → List QueryPair → BatchAnswer → BatchReading → Outcome BatchReading
finish_batch drawn query_pairs answer reading =
    let reading' = batch_timed answer.net_start answer.net_end reading in
    finish_entries drawn answer 0 answer.responses query_pairs (record reading' {
      accumulated = Dict.set reading.accumulated answer.node (responses_of answer.responses);
    })

-- A page is done. Its metrics are entered before `orig_query` is set to its query.
unfoldable pub finish_batch_page :
    List QueryRequest → ℕ → Node → ℕ → ℕ → ℕ → Answer → BatchReading → Outcome BatchReading
finish_batch_page queries drawn n idx orig_query_idx expected_req_id answer reading =
    accept_page expected_req_id answer.response >>= λ _.
    or_raise reading.orig_query unbound_local_error >>= λ last_query.
    or_raise (Dict.get reading.accumulated n) key_error >>= λ responses.
    or_raise (get_elem? responses idx) index_error >>= λ entry.
    or_raise entry type_error >>= λ so_far. join_page so_far answer.response >>= λ joined.
    or_raise (get_elem? queries orig_query_idx) index_error >>= λ query.
    let timed = batch_timed answer.net_start answer.net_end reading in
    let entered = charged last_query answer.response answer.net_start answer.net_end timed in
    ok (
      follow_up query drawn n idx orig_query_idx joined
        (record entered { orig_query = some query }))

-- One round: a task among the active ones is done, and `Allowed` holds of the answer to a page.
pub data BatchStep (Allowed : QueryRequest → Answer → Type 0) (queries : List QueryRequest)
    (r r' : BatchReading) : Type 0 where
  batch_done :
      (front back : List BatchTask) (asked : Node) (query_pairs : List QueryPair)
      (sub_req_ids : List ℕ) (drawn : ℕ → ℕ) (answer : BatchAnswer)
      → r.active ≡ front ++ batch asked query_pairs sub_req_ids ∷ back
      → finish_batch drawn query_pairs answer (record r { active = front ++ back }) ≡ ok r'
      → BatchStep Allowed queries r r'
  page_done :
      (front back : List BatchTask) (n : Node) (query : QueryRequest)
      (req_id idx orig_query_idx drawn : ℕ) (answer : Answer)
      → r.active ≡ front ++ page n query req_id idx orig_query_idx ∷ back
      → Allowed query answer
      → finish_batch_page queries drawn n idx orig_query_idx req_id answer
          (record r { active = front ++ back })
        ≡ ok r'
      → BatchStep Allowed queries r r'

-- So many rounds, one after the other.
pub data BatchRuns (Allowed : QueryRequest → Answer → Type 0) (queries : List QueryRequest)
    : ℕ → BatchReading → BatchReading → Type 0 where
  batch_stay : (r : BatchReading) → BatchRuns Allowed queries 0 r r
  batch_go :
      {n : ℕ} {r s t : BatchReading}
      → BatchStep Allowed queries r s
      → BatchRuns Allowed queries n s t
      → BatchRuns Allowed queries (suc n) r t

-- `next(self._req_id_counter)` for each query; other threads draw `gaps i` numbers before the one of
-- place `i`.
unfoldable pub draw_ids : (ℕ → ℕ) → ℕ → ℕ → List QueryRequest → List ℕ × ℕ
draw_ids gaps i next_req_id [] = ([], next_req_id)
draw_ids gaps i next_req_id (query ∷ queries) =
    let number = next_req_id + gaps i in
    let rest = draw_ids gaps (suc i) (number + 1) queries in (number ∷ rest.0, rest.1)

-- `node_queries[node].append((idx, query))` for each of the nodes.
unfoldable pub append_each :
    List Node → QueryPair → Dict Node (List QueryPair) → Dict Node (List QueryPair)
append_each [] pair node_queries = node_queries
append_each (node ∷ nodes) pair node_queries =
    append_each nodes pair (Dict.set node_queries node (lane node_queries node ++ pair ∷ []))

-- The loop over the queries, from index `idx` on.
unfoldable pub group_queries :
    Router
    → ℕ
    → List QueryRequest
    → Dict Node (List QueryPair)
    → Outcome (Dict Node (List QueryPair) × Router)
group_queries router idx [] node_queries = ok (node_queries, router)
group_queries router idx (query ∷ queries) node_queries =
    Router.get_nodes_for_read router query >>= λ r.
    group_queries r.1 (suc idx) queries (append_each r.0 (idx, query) node_queries)

unfoldable pub pick_ids : List ℕ → List QueryPair → Outcome (List ℕ)
pick_ids initial_req_ids [] = ok []
pick_ids initial_req_ids ((idx, query) ∷ query_pairs) = do
  id ← or_raise (get_elem? initial_req_ids idx) index_error
  ids ← pick_ids initial_req_ids query_pairs
  ok (id ∷ ids)

unfoldable pub batch_tasks : List ℕ → Dict Node (List QueryPair) → Outcome (List BatchTask)
batch_tasks initial_req_ids [] = ok []
batch_tasks initial_req_ids ((node, query_pairs) ∷ rest) = do
  ids ← pick_ids initial_req_ids query_pairs
  tasks ← batch_tasks initial_req_ids rest
  ok (batch node query_pairs ids ∷ tasks)

unfoldable pub start_batch :
    (ℕ → ℕ) → Router → ℕ → List QueryRequest → Outcome (BatchReading × Router)
start_batch gaps router next_req_id queries = do
  let ids = draw_ids gaps 0 next_req_id queries
  grouped ← group_queries router 0 queries []
  tasks ← batch_tasks ids.0 grouped.0
  let reading : BatchReading = record {
    next_req_id = ids.1;
    active = tasks;
    accumulated = [];
    metrics = [];
    min_start = none;
    max_end = 0;
    orig_query = none;
  }
  ok (reading, grouped.1)

-- `read_batch` up to the aggregation; none where it returns an empty dictionary at once.
unfoldable pub read_batch :
    (ℕ → ℕ) → Router → ℕ → List QueryRequest → Outcome (Option BatchReading × Router)
read_batch gaps router next_req_id [] = ok (none, router)
read_batch gaps router next_req_id (query ∷ queries) = do
  started ← start_batch gaps router next_req_id (query ∷ queries)
  ok (some started.0, started.1)

-- What `read_batch` returns. An entry of the source is a dictionary of one key, a rendering of the
-- node.
pub record BatchResults : Type 0 where
  pub by_cluster : Dict String (List (Node × List (Option Response)))
  pub latency_ms : ℕ
  pub request_metrics : List ReadRequestMetrics

unfoldable pub group_batch :
    Dict Node (List (Option Response))
    → Dict String (List (Node × List (Option Response)))
    → Dict String (List (Node × List (Option Response)))
group_batch [] results = results
group_batch ((n, responses) ∷ rest) results =
    group_batch rest
      (Dict.set results n.cluster_name (lane results n.cluster_name ++ (n, responses) ∷ []))

-- The end of `_aggregate`, on what the last round gave: an exception of any kind is a timeout.
unfoldable pub conclude_batch : Outcome BatchReading → Outcome BatchResults
conclude_batch (raise x) = raise timeout_error
conclude_batch (ok r) = ok (record {
  by_cluster = group_batch r.accumulated [];
  latency_ms = latency r.min_start r.max_end;
  request_metrics = r.metrics;
})
