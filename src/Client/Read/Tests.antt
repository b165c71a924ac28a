-- ===== src/Client/Read/Tests.antt =====
-- A read of one node that answers in two pages, and the theorems on that run.
use raft_lsmt.Base.{
  ℕ, ◌+◌, ◌-◌, ◌*◌, ◌≤◌, ◌≡◌, ◌⊎◌, refl, none, some, [], ◌∷◌, ◌++◌, arith, length, Any, true, false,
  ok, string_key, nat_key,
}
use raft_lsmt.Base.Dict
use raft_lsmt.Base.Lanes.{lane}
use raft_lsmt.Client.Datatypes.{Node, node_key, Record, int, QueryRequest}
use raft_lsmt.Client.Registry
use raft_lsmt.Client.Routing.Target.{or_raise}
use raft_lsmt.Client.Routing.ByKey
use raft_lsmt.Client.Routing.Each.{query_each}
use raft_lsmt.Client.Routing.Select.{
  followers, select_follower_round_robin, select_among, take_turn, leader_or_first,
}
use raft_lsmt.Client.Routing.Router.{Router, leader}
use raft_lsmt.Client.Routing.Router
use raft_lsmt.Client.Wire.Response.{Response}
use raft_lsmt.Client.Pages.{
  Answer, saturated, accept_initial, accept_page, request_metrics, join_page, has_more, page_query,
  settled,
}
use raft_lsmt.Client.Read.{
  Task, Reading, timed, measured, advance, finish_initial, finish_page, finish, complete, done,
  Runs, stay, go, start, first_task, Results, group_results, latency, conclude,
}
use raft_lsmt.Client.Read.Ends.{Reaches, read_ends}
use raft_lsmt.Client.Read.Settles.{IsPageOf, read_follows}
use raft_lsmt.Client.Read.Counts.{AnswerCounted, read_counts, page_stalls}

abbrev node : Node
node = record { cluster_name = "A"; id = 1; host = "127.0.0.1"; port = 18091 }

abbrev router : Router
router = record {
  strategy = leader ByKey.init;
  clusters = ("A", node ∷ []) ∷ [];
  leader_registry = Registry.init;
}

abbrev asked_router : Router
asked_router = record router { strategy = leader (record { query_indices = ("A", 0) ∷ [] }) }

abbrev query : QueryRequest
query = record { min_id = 1; min_ts = 0; max_id = 2; max_ts = 9; query_id = 5 }

abbrev rec : ℕ → Record
rec key = record { key_id = key; timestamp = 0; content = int key }

abbrev page_1 : Answer
page_1 = record {
  node = node;
  response = record {
    req_id = 7;
    limit_reached = true;
    min_id = 1;
    min_ts = 0;
    max_id = 1;
    max_ts = 0;
    records_bytes = 29;
    records_count = 1;
    records = rec 1 ∷ [];
  };
  net_start = 100;
  net_end = 104;
}

abbrev page_2 : Answer
page_2 = record {
  node = node;
  response = record {
    req_id = 8;
    limit_reached = false;
    min_id = 2;
    min_ts = 0;
    max_id = 2;
    max_ts = 0;
    records_bytes = 29;
    records_count = 1;
    records = rec 2 ∷ [];
  };
  net_start = 105;
  net_end = 108;
}

abbrev begun : Reading
begun = record {
  next_req_id = 8;
  active = first_task query 7 node ∷ [];
  accumulated = [];
  metrics = [];
  min_start = none;
  max_end = 0;
}

abbrev page_asked : Task
page_asked = record {
  asked = node;
  query = record query { min_id = 2 };
  req_id = 8;
  tracked = some (node, 8);
}

abbrev half : Reading
half = record {
  next_req_id = 9;
  active = page_asked ∷ [];
  accumulated = (node, page_1.response) ∷ [];
  metrics =
      record {
        query_id = 5;
        req_id = 7;
        send_time_ms = 100;
        recv_time_ms = 104;
        record_count = 1;
        records_bytes = 29;
      }
      ∷ [];
  min_start = some 100;
  max_end = 104;
}

begins : start router 7 query ≡ ok (begun, asked_router)
unfolding start Router.get_nodes_for_read Router.strategy_query ByKey.get_node_query query_each
    select_follower_round_robin select_among followers take_turn leader_or_first Registry.get_leader
    Dict.get_default Dict.get Dict.set
begins = refl

step_1 :
    complete query 0 (first_task query 7 node) (ok page_1) (record begun { active = [] }) ≡ ok half
unfolding complete finish finish_initial accept_initial saturated timed measured request_metrics
    advance has_more page_query Dict.set
step_1 = refl

one_round :
    (Allowed : Task → Answer → Type 0)
    → Allowed (first_task query 7 node) page_1
    → Runs Allowed query 1 begun half
one_round Allowed h = go (done [] [] (first_task query 7 node) 0 page_1 refl h step_1) (stay half)

read_ends_example : 1 ≤ 1 * (2 + (2 + 1 - 1))
read_ends_example =
    read_ends router asked_router 7 query begun half 1 begins (one_round Reaches (λ e. omega arith))

half_holds : Dict.get half.accumulated node ≡ some page_1.response
unfolding Dict.get
half_holds = refl

read_follows_example :
    (page_1.response.limit_reached ≡ false)
    ⊎ Any (IsPageOf query node page_1.response) (page_asked ∷ [])
read_follows_example =
    read_follows (λ t a. Unit {0}) router asked_router 7 query begun half 1 node page_1.response
      begins (one_round (λ t a. Unit {0}) tt) half_holds

read_counts_example : page_1.response.records_count ≡ length page_1.response.records
read_counts_example =
    read_counts router asked_router 7 query begun half 1 node page_1.response begins
      (one_round AnswerCounted refl) half_holds

-- The page once more, in place of the second one.
abbrev repeated : Answer
repeated = record page_1 { response = record (page_1.response) { req_id = 8 } }

page_stalls_example :
    (r' : Reading) × (finish query 0 (some (node, 8)) repeated (record half { active = [] })
      ≡ ok r')
    × (r'.active
        ≡ record {
          asked = node;
          query = page_query query page_1.response;
          req_id = 9 + 0;
          tracked = some (node, 9 + 0);
        }
          ∷ [])
page_stalls_example =
    page_stalls query 0 node 8 repeated (record half { active = [] }) page_1.response half_holds
      refl refl (omega arith) refl (omega arith)

-- Both pages, joined and settled.
abbrev whole : Response
whole = record (page_2.response) {
  req_id = 7;
  min_id = 1;
  records_bytes = 58;
  records_count = 2;
  records = rec 1 ∷ rec 2 ∷ [];
}

abbrev ended : Reading
ended = record half {
  active = [];
  accumulated = (node, whole) ∷ [];
  metrics =
      half.metrics
      ++ record {
        query_id = 5;
        req_id = 8;
        send_time_ms = 105;
        recv_time_ms = 108;
        record_count = 1;
        records_bytes = 29;
      }
        ∷ [];
  max_end = 108;
}

step_2 : complete query 0 page_asked (ok page_2) (record half { active = [] }) ≡ ok ended
unfolding complete finish finish_page accept_page saturated timed measured request_metrics advance
    or_raise join_page has_more page_query settled Dict.get Dict.set
step_2 = refl

abbrev returned : Results
returned = record {
  by_cluster = ("A", (node, whole) ∷ []) ∷ [];
  latency_ms = 8;
  request_metrics = ended.metrics;
}

concluded : conclude (ok ended) ≡ ok returned
unfolding conclude group_results latency lane Dict.get_default Dict.get Dict.set
concluded = refl
