-- ===== src/Client/ReadBatch/Tests.antt =====
-- A batch of two queries for one node: the second one is answered in two pages, the first one in one.
use raft_lsmt.Base.{
  ℕ, ◌+◌, ◌-◌, ◌≤◌, ◌≡◌, refl, none, some, List, [], ◌∷◌, ◌++◌, arith, true, false, ok, string_key,
  nat_key,
}
use raft_lsmt.Base.Dict
use raft_lsmt.Base.Lanes.{lane}
use raft_lsmt.Client.Datatypes.{Node, node_key, QueryRequest}
use raft_lsmt.Client.Registry
use raft_lsmt.Client.Routing.Target.{or_raise}
use raft_lsmt.Client.Routing.ByKey
use raft_lsmt.Client.Routing.Each.{query_each}
use raft_lsmt.Client.Routing.Select.{
  followers, select_follower_round_robin, select_among, take_turn, leader_or_first,
}
use raft_lsmt.Client.Routing.Router.{Router, leader}
use raft_lsmt.Client.Routing.Router
use raft_lsmt.Client.Wire.Response.{Response}
use raft_lsmt.Client.Pages.{
  Answer, saturated, accept_initial, accept_page, request_metrics, join_page, has_more, page_query,
  settled,
}
use raft_lsmt.Client.ReadBatch.{
  batch, page, BatchAnswer, BatchReading, batch_timed, charged, follow_up, finish_entries,
  finish_batch, finish_batch_page, batch_done, batch_stay, batch_go, draw_ids, append_each,
  group_queries, pick_ids, batch_tasks, start_batch,
}
use raft_lsmt.Client.ReadBatch.Ends.{read_batch_ends}
use raft_lsmt.Client.ReadBatch.Places.{HoldsOnly, finish_batch_replaces}

abbrev node : Node
node = record { cluster_name = "A"; id = 1; host = "127.0.0.1"; port = 18091 }

abbrev router : Router
router = record {
  strategy = leader ByKey.init;
  clusters = ("A", node ∷ []) ∷ [];
  leader_registry = Registry.init;
}

abbrev asked_router : Router
asked_router = record router { strategy = leader (record { query_indices = ("A", 0) ∷ [] }) }

abbrev query_1 : QueryRequest
query_1 = record { min_id = 1; min_ts = 0; max_id = 2; max_ts = 9; query_id = 5 }

abbrev query_2 : QueryRequest
query_2 = record { min_id = 3; min_ts = 0; max_id = 4; max_ts = 9; query_id = 6 }

abbrev queries : List QueryRequest
queries = query_1 ∷ query_2 ∷ []

-- Records are left out: `skip_records`.
abbrev response : ℕ → ℕ → ℕ → Response
response req_id min_id max_id = record {
  req_id = req_id;
  limit_reached = true;
  min_id = min_id;
  min_ts = 0;
  max_id = max_id;
  max_ts = 0;
  records_bytes = 29;
  records_count = 1;
  records = [];
}

abbrev answer : BatchAnswer
answer = record {
  node = node;
  responses = some (response 7 1 1, 103) ∷ some (response 8 3 4, 104) ∷ [];
  net_start = 100;
  net_end = 105;
}

abbrev begun : BatchReading
begun = record {
  next_req_id = 9;
  active = batch node ((0, query_1) ∷ (1, query_2) ∷ []) (7 ∷ 8 ∷ []) ∷ [];
  accumulated = [];
  metrics = [];
  min_start = none;
  max_end = 0;
  orig_query = none;
}

no_gaps : ℕ → ℕ
no_gaps i = 0

begins : start_batch no_gaps router 7 queries ≡ ok (begun, asked_router)
unfolding no_gaps start_batch draw_ids group_queries append_each pick_ids batch_tasks or_raise lane
    Router.get_nodes_for_read Router.strategy_query ByKey.get_node_query query_each
    select_follower_round_robin select_among followers take_turn leader_or_first Registry.get_leader
    Dict.get_default Dict.get Dict.set
begins = refl

abbrev after_batch : BatchReading
after_batch = record {
  next_req_id = 10;
  active = page node (page_query query_1 (response 7 1 1)) 9 0 0 ∷ [];
  accumulated = (node, some (response 7 1 1) ∷ some (settled (response 8 3 4)) ∷ []) ∷ [];
  metrics =
      request_metrics query_1 (response 7 1 1) 100 103
      ∷ request_metrics query_2 (response 8 3 4) 100 104
      ∷ [];
  min_start = some 100;
  max_end = 105;
  orig_query = some query_2;
}

step_1 :
    finish_batch no_gaps ((0, query_1) ∷ (1, query_2) ∷ []) answer (record begun { active = [] })
    ≡ ok after_batch
unfolding no_gaps finish_batch finish_entries batch_timed charged follow_up accept_initial saturated
    has_more lane Dict.get_default Dict.get Dict.set
step_1 = refl

read_batch_ends_example : 1 ≤ 1 + ((4 + 1 - 1) + ((4 + 1 - 3) + 0)) + 0
read_batch_ends_example =
    read_batch_ends no_gaps router asked_router 7 queries begun after_batch 4 1 begins
      (omega arith, (omega arith, tt))
      (batch_go (batch_done [] [] node _ _ no_gaps answer refl step_1) (batch_stay after_batch))

finish_batch_replaces_example : HoldsOnly node 2 [] after_batch.accumulated
finish_batch_replaces_example =
    finish_batch_replaces no_gaps ((0, query_1) ∷ (1, query_2) ∷ []) answer
      (record begun { active = [] }) after_batch step_1

abbrev second_page : Answer
second_page = record {
  node = node;
  response = record (response 9 2 2) { limit_reached = false };
  net_start = 106;
  net_end = 108;
}

-- The page belongs to the query with number 5; its metrics are entered under number 6.
abbrev ended : BatchReading
ended = record after_batch {
  active = [];
  accumulated =
      (
        node,
        some (record (response 7 1 2) {
          limit_reached = false;
          records_count = 2;
          records_bytes = 58;
        })
            ∷ some (settled (response 8 3 4))
            ∷ [],
      )
      ∷ [];
  metrics = after_batch.metrics ++ request_metrics query_2 (second_page.response) 106 108 ∷ [];
  max_end = 108;
  orig_query = some query_1;
}

step_2 :
    finish_batch_page queries 0 node 0 0 9 second_page (record after_batch { active = [] })
    ≡ ok ended
unfolding finish_batch_page batch_timed charged follow_up accept_page saturated join_page has_more
    settled or_raise lane Dict.get_default Dict.get Dict.set
step_2 = refl
