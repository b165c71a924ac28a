-- ===== src/Client/Read.antt =====
-- client/dbclient.py, `read` and its `_aggregate`: one query of every node that the router names,
-- and further pages of a node as long as its answers are cut off. The futures that are not done yet
-- are the tasks; the environment says which of them is done next, and with what.
pub mod Rounds
pub mod Ends
pub mod Settles
pub mod Counts
pub mod Grouped
mod Tests
use raft_lsmt.Base.{
  ℕ, zero, suc, ◌+◌, ◌-◌, String, Option, none, some, List, [], ◌∷◌, ◌++◌, map, min, max, ltb, ◌≡◌,
  true, false, if◌then◌else◌, Outcome, ok, raise, ◌>>=◌, key_error, timeout_error, string_key,
}
use raft_lsmt.Base.Dict
use raft_lsmt.Base.Dict.{Dict}
use raft_lsmt.Base.Lanes.{lane}
use raft_lsmt.Client.Datatypes.{Node, node_key, QueryRequest, ReadRequestMetrics}
use raft_lsmt.Client.Routing.Target.{or_raise}
use raft_lsmt.Client.Routing.Router.{Router}
use raft_lsmt.Client.Routing.Router
use raft_lsmt.Client.Wire.Response.{Response}
use raft_lsmt.Client.Pages.{
  Answer, accept_initial, accept_page, request_metrics, join_page, has_more, page_query, settled,
}

-- A future of `_query_single_node`: its arguments, and its entry in `pagination_tracker`, which is
-- missing for a first query.
pub record Task : Type 0 where
  pub asked : Node
  pub query : QueryRequest
  pub req_id : ℕ
  pub tracked : Option (Node × ℕ)

-- The variables of `_aggregate`, and the counter of request numbers. `min_start` is none for
-- `float('inf')`.
pub record Reading : Type 0 where
  pub next_req_id : ℕ
  pub active : List Task
  pub accumulated : Dict Node Response
  pub metrics : List ReadRequestMetrics
  pub min_start : Option ℕ
  pub max_end : ℕ

-- `min(min_start, net_start)`.
abbrev pub earlier : Option ℕ → ℕ → Option ℕ
earlier none t = some t
earlier (some s) t = some (min s t)

unfoldable pub timed : Answer → Reading → Reading
timed answer reading = record reading {
  min_start = earlier reading.min_start answer.net_start;
  max_end = max reading.max_end answer.net_end;
}

unfoldable pub measured : QueryRequest → Answer → Reading → Reading
measured query answer reading = record reading {
  metrics =
      reading.metrics ++ request_metrics query answer.response answer.net_start answer.net_end ∷ [];
}

abbrev pub page_task : QueryRequest → Node → Response → ℕ → Task
page_task query n response number = record {
  asked = n;
  query = page_query query response;
  req_id = number;
  tracked = some (n, number);
}

-- What a node has answered so far is kept, and another page asked for or the answer settled. Other
-- threads drew `drawn` request numbers since.
unfoldable pub advance : QueryRequest → ℕ → Node → Response → Reading → Reading
advance query drawn n response reading =
    let number = reading.next_req_id + drawn in
    if has_more query response
    then record reading {
      accumulated = Dict.set reading.accumulated n response;
      next_req_id = number + 1;
      active = reading.active ++ page_task query n response number ∷ [];
    }
    else record reading { accumulated = Dict.set reading.accumulated n (settled response) }

-- A first query is done.
unfoldable pub finish_initial : QueryRequest → ℕ → Answer → Reading → Outcome Reading
finish_initial query drawn answer reading = accept_initial query answer.response >>= λ _.
    ok (
      advance query drawn answer.node answer.response
        (measured query answer (timed answer reading)))

-- A page of `n` is done.
unfoldable pub finish_page : QueryRequest → ℕ → Node → ℕ → Answer → Reading → Outcome Reading
finish_page query drawn n expected_req_id answer reading =
    accept_page expected_req_id answer.response >>= λ _.
    or_raise (Dict.get reading.accumulated n) key_error >>= λ so_far.
    join_page so_far answer.response >>= λ joined.
    ok (advance query drawn n joined (measured query answer (timed answer reading)))

unfoldable pub finish : QueryRequest → ℕ → Option (Node × ℕ) → Answer → Reading → Outcome Reading
finish query drawn none answer reading = finish_initial query drawn answer reading
finish query drawn (some (n, expected)) answer reading =
    finish_page query drawn n expected answer reading

-- `future.result()`, and what is done with it.
unfoldable pub complete : QueryRequest → ℕ → Task → Outcome Answer → Reading → Outcome Reading
complete query drawn task result reading =
    result >>= λ answer. finish query drawn task.tracked answer reading

-- One round: a task among the active ones is done, and `Allowed` holds of its answer.
pub data Step (Allowed : Task → Answer → Type 0) (query : QueryRequest) (r r' : Reading)
    : Type 0 where
  done :
      (front back : List Task) (task : Task) (drawn : ℕ) (answer : Answer)
      → r.active ≡ front ++ task ∷ back
      → Allowed task answer
      → complete query drawn task (ok answer) (record r { active = front ++ back }) ≡ ok r'
      → Step Allowed query r r'

-- So many rounds, one after the other.
pub data Runs (Allowed : Task → Answer → Type 0) (query : QueryRequest)
    : ℕ → Reading → Reading → Type 0 where
  stay : (r : Reading) → Runs Allowed query zero r r
  go :
      {n : ℕ} {r s t : Reading}
      → Step Allowed query r s
      → Runs Allowed query n s t
      → Runs Allowed query (suc n) r t

abbrev pub first_task : QueryRequest → ℕ → Node → Task
first_task query req_id n = record { asked = n; query = query; req_id = req_id; tracked = none }

-- `read` up to the aggregation: every node is asked under the same number.
unfoldable pub start : Router → ℕ → QueryRequest → Outcome (Reading × Router)
start router next_req_id query = do
  r ← Router.get_nodes_for_read router query
  let reading : Reading = record {
    next_req_id = next_req_id + 1;
    active = map (first_task query next_req_id) r.0;
    accumulated = [];
    metrics = [];
    min_start = none;
    max_end = 0;
  }
  ok (reading, r.1)

-- What `read` returns. An entry of the source is a dictionary of one key, a rendering of the node.
pub record Results : Type 0 where
  pub by_cluster : Dict String (List (Node × Response))
  pub latency_ms : ℕ
  pub request_metrics : List ReadRequestMetrics

unfoldable pub group_results :
    Dict Node Response → Dict String (List (Node × Response)) → Dict String (List (Node × Response))
group_results [] results = results
group_results ((n, response) ∷ rest) results =
    group_results rest
      (Dict.set results n.cluster_name (lane results n.cluster_name ++ (n, response) ∷ []))

-- `max_end - min_start if max_end > 0 else 0.0`; an answer ends after it started.
unfoldable pub latency : Option ℕ → ℕ → ℕ
latency none max_end = 0
latency (some min_start) max_end = if ltb 0 max_end then max_end - min_start else 0

-- The end of `_aggregate`, on what the last round gave: an exception of any kind is a timeout.
unfoldable pub conclude : Outcome Reading → Outcome Results
conclude (raise x) = raise timeout_error
conclude (ok r) = ok (record {
  by_cluster = group_results r.accumulated [];
  latency_ms = latency r.min_start r.max_end;
  request_metrics = r.metrics;
})
