-- ===== src/Client/Pages.antt =====
-- client/dbclient.py, what `read` and `read_batch` do with one response: the checks, the joining of
-- a page to what a node has answered before, and the query of the next page.
use raft_lsmt.Base.{
  ℕ, ◌+◌, Bool, false, ◌&&◌, ◌++◌, ltb, ◌==◌, nat_key, if◌then◌else◌, Outcome, ok, raise,
  connection_error,
}
use raft_lsmt.Client.Datatypes.{Node, QueryRequest, ReadRequestMetrics}
use raft_lsmt.Client.Wire.Response.{Response}

-- What a query of one node returns: the node that answered, and when it was asked and answered.
pub record Answer : Type 0 where
  pub node : Node
  pub response : Response
  pub net_start : ℕ
  pub net_end : ℕ

-- A page that is cut off and empty.
unfoldable pub saturated : Response → Bool
saturated response = response.limit_reached && response.records_count == 0

-- The checks of a first response.
unfoldable pub accept_initial : QueryRequest → Response → Outcome (Unit {0})
accept_initial query response =
    if saturated response
    then raise connection_error
    else if response.limit_reached && ltb response.max_id query.min_id
    then raise connection_error
    else ok tt

-- The checks of a page before it is joined: its number, and that it brings something.
unfoldable pub accept_page : ℕ → Response → Outcome (Unit {0})
accept_page expected_req_id page =
    if page.req_id == expected_req_id
    then (if saturated page then raise connection_error else ok tt)
    else raise connection_error

unfoldable pub request_metrics : QueryRequest → Response → ℕ → ℕ → ReadRequestMetrics
request_metrics query response send_time recv_time = record {
  query_id = query.query_id;
  req_id = response.req_id;
  send_time_ms = send_time;
  recv_time_ms = recv_time;
  record_count = response.records_count;
  records_bytes = response.records_bytes;
}

-- A page behind what the node has answered so far; a page that goes back is refused.
unfoldable pub join_page : Response → Response → Outcome Response
join_page so_far page =
    if page.limit_reached && ltb page.max_id so_far.max_id
    then raise connection_error
    else ok (record so_far {
      records = so_far.records ++ page.records;
      records_count = so_far.records_count + page.records_count;
      records_bytes = so_far.records_bytes + page.records_bytes;
      limit_reached = page.limit_reached;
      max_id = page.max_id;
      max_ts = page.max_ts;
    })

-- Whether another page is asked for.
unfoldable pub has_more : QueryRequest → Response → Bool
has_more query response = response.limit_reached && ltb response.max_id query.max_id

unfoldable pub page_query : QueryRequest → Response → QueryRequest
page_query query response = record query { min_id = response.max_id + 1; min_ts = 0 }

-- `resp_dict["limit_reached"] = False`.
unfoldable pub settled : Response → Response
settled response = record response { limit_reached = false }
