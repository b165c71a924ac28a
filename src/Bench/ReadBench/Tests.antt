-- ===== src/Bench/ReadBench/Tests.antt =====
-- A run of the read benchmark: three queries in batches of two, for one node.
use raft_lsmt.Base.{ℕ, ◌≡◌, refl, List, [], ◌∷◌, concat, All, ok, string_key}
use raft_lsmt.Base.Dict
use raft_lsmt.Base.Lanes.{lane}
use raft_lsmt.Client.Datatypes.{Node, node_key, QueryRequest}
use raft_lsmt.Client.Registry
use raft_lsmt.Client.Routing.Target.{or_raise}
use raft_lsmt.Client.Routing.ByKey
use raft_lsmt.Client.Routing.Each.{query_each}
use raft_lsmt.Client.Routing.Select.{
  followers, select_follower_round_robin, select_among, take_turn, leader_or_first,
}
use raft_lsmt.Client.Routing.Router.{Router, leader}
use raft_lsmt.Client.Routing.Router
use raft_lsmt.Client.ReadBatch.{
  draw_ids, append_each, group_queries, pick_ids, batch_tasks, start_batch, read_batch,
}
use raft_lsmt.Bench.ReadBench.{
  ReadBench, query_from, start_id, queries_from, query_stream, ask_buffer, hold_back, receive_query,
  receive_queries, ask_some, run_read_bench,
}
use raft_lsmt.Bench.ReadBench.Batches.{IsBatch, read_bench_asks}

abbrev node : Node
node = record { cluster_name = "A"; id = 1; host = "127.0.0.1"; port = 18091 }

abbrev router : Router
router = record {
  strategy = leader ByKey.init;
  clusters = ("A", node ∷ []) ∷ [];
  leader_registry = Registry.init;
}

abbrev stream : List QueryRequest
stream = query_from 10 5 0 ∷ query_from 10 15 1 ∷ query_from 10 5 2 ∷ []

-- The third query starts at the first key again: the range has 20 keys.
streamed : query_stream (λ i a b. ok a) (λ i n. n) 3 "sequential" 10 5 24 ≡ (stream, ok tt)
unfolding query_stream queries_from start_id
streamed = refl

abbrev ended : ReadBench
ended = record {
  router = record router { strategy = leader (record { query_indices = ("A", 0) ∷ [] }) };
  next_req_id = 4;
  batch_buffer = [];
  total_processed = 3;
  futures = (query_from 10 5 0 ∷ query_from 10 15 1 ∷ []) ∷ (query_from 10 5 2 ∷ []) ∷ [];
  sent = (query_from 10 5 0 ∷ query_from 10 15 1 ∷ []) ∷ (query_from 10 5 2 ∷ []) ∷ [];
}

no_gaps : ℕ → ℕ
no_gaps i = 0

ran : run_read_bench no_gaps (λ fs. fs) 2 (stream, ok tt) router 1 ≡ ok ended
unfolding no_gaps run_read_bench receive_queries receive_query ask_buffer hold_back ask_some
    read_batch start_batch draw_ids group_queries append_each pick_ids batch_tasks or_raise lane
    Router.get_nodes_for_read Router.strategy_query ByKey.get_node_query query_each
    select_follower_round_robin select_among followers take_turn leader_or_first Registry.get_leader
    Dict.get_default Dict.get Dict.set
ran = refl

read_bench_asks_example : (concat ended.sent ≡ stream) × All (IsBatch 2) ended.sent
read_bench_asks_example = read_bench_asks no_gaps (λ fs. fs) 2 (stream, ok tt) router 1 ended ran
