-- ===== src/Mock/ReadHandler/Tests.antt =====
-- A read of three keys from the mock server: one page.
use raft_lsmt.Base.{
  ℕ, ◌+◌, ◌-◌, ◌≤◌, ◌≡◌, refl, none, some, [], ◌∷◌, arith, ok, option_key, string_key,
}
use raft_lsmt.Base.Dict
use raft_lsmt.Client.Datatypes.{Node, node_key, QueryRequest}
use raft_lsmt.Client.Registry
use raft_lsmt.Client.Routing.Router.{Router, leader}
use raft_lsmt.Client.Routing.Router
use raft_lsmt.Client.Routing.ByKey
use raft_lsmt.Client.Routing.ByKey.{get_node_query}
use raft_lsmt.Client.Routing.Each.{query_each}
use raft_lsmt.Client.Routing.Select.{
  select_follower_round_robin, select_among, followers, take_turn, leader_or_first,
}
use raft_lsmt.Client.Wire.Response.{Response}
use raft_lsmt.Client.Pages.{Answer, saturated, accept_initial, request_metrics, has_more, settled}
use raft_lsmt.Client.Read.{
  Reading, timed, measured, advance, complete, finish, finish_initial, done, Runs, stay, go,
  first_task, start,
}
use raft_lsmt.Mock.ReadHandler.{fake_count, actual_max_id}
use raft_lsmt.Mock.ReadHandler.Answers.{fake_response}
use raft_lsmt.Mock.ReadHandler.Gather.{IsWhole}
use raft_lsmt.Mock.ReadHandler.Paging.{Served, mock_read_whole}
use raft_lsmt.Mock.ReadHandler.Paging.Ends.{Mocked, mock_read_ends}

abbrev node : Node
node = record { cluster_name = "A"; id = 1; host = "127.0.0.1"; port = 18091 }

abbrev query : QueryRequest
query = record { min_id = 5; min_ts = 0; max_id = 7; max_ts = 9; query_id = 1 }

abbrev router : Router
router = record {
  strategy = leader ByKey.init;
  clusters = ("A", node ∷ []) ∷ [];
  leader_registry = Registry.init;
}

abbrev asked_router : Router
asked_router = record router { strategy = leader (record { query_indices = ("A", 0) ∷ [] }) }

abbrev begun : Reading
begun = record {
  next_req_id = 8;
  active = first_task query 7 node ∷ [];
  accumulated = [];
  metrics = [];
  min_start = none;
  max_end = 0;
}

abbrev answer : Answer
answer = record { node = node; response = fake_response 7 query; net_start = 100; net_end = 104 }

abbrev answered : Reading
answered = record {
  next_req_id = 8;
  active = [];
  accumulated = (node, settled (fake_response 7 query)) ∷ [];
  metrics = request_metrics query (fake_response 7 query) 100 104 ∷ [];
  min_start = some 100;
  max_end = 104;
}

asks : Router.get_nodes_for_read router query ≡ ok (node ∷ [], asked_router)
unfolding Router.get_nodes_for_read Router.strategy_query ByKey.get_node_query query_each
    select_follower_round_robin select_among followers take_turn leader_or_first Registry.get_leader
    Dict.get_default Dict.get Dict.set
asks = refl

begins : start router 7 query ≡ ok (begun, asked_router)
unfolding start Router.get_nodes_for_read Router.strategy_query ByKey.get_node_query query_each
    select_follower_round_robin select_among followers take_turn leader_or_first Registry.get_leader
    Dict.get_default Dict.get Dict.set
begins = refl

step :
    complete query 0 (first_task query 7 node) (ok answer) (record begun { active = [] })
    ≡ ok answered
unfolding complete finish finish_initial accept_initial saturated timed measured advance has_more
    settled request_metrics fake_count actual_max_id Dict.set
step = refl

runs : Runs (Served node) query 1 begun answered
runs = go (done [] [] (first_task query 7 node) 0 answer refl (refl, refl) step) (stay answered)

mock_read_whole_example :
    (resp : Response) × (answered.accumulated ≡ (node, resp) ∷ []) × IsWhole query resp
mock_read_whole_example =
    mock_read_whole router asked_router 7 query node begun answered 1 (omega arith) asks begins runs
      refl

mock_read_ends_example :
    (k : ℕ) × (r : Reading) × Runs (Mocked node) query k begun r
    × (r.active ≡ [])
    × (k ≤ 2 + (7 + 1 - 5))
mock_read_ends_example =
    mock_read_ends router asked_router 7 query node begun (omega arith)
      (omega arith, omega arith, omega arith, omega arith) (omega arith) (omega arith) asks begins
