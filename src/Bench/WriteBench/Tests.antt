-- ===== src/Bench/WriteBench/Tests.antt =====
-- A run of the write benchmark: three records, and a client with a batch size of 2.
use raft_lsmt.Base.{
  ℕ, ◌≡◌, refl, Option, some, List, [], ◌∷◌, ◌++◌, arith, map, Outcome, ok, option_key, string_key,
}
use raft_lsmt.Base.Dict
use raft_lsmt.Base.Lanes.{items_for, lane}
use raft_lsmt.Client.Datatypes.{Node, Record, int, node_key}
use raft_lsmt.Client.Registry.{LeaderChange, leader_set}
use raft_lsmt.Client.Registry
use raft_lsmt.Client.Routing.Range
use raft_lsmt.Client.Routing.Router.{Router, range}
use raft_lsmt.Client.Routing.Router
use raft_lsmt.Client.Db.{DbClient, default_config}
use raft_lsmt.Client.Write.{Batch, write, group, flush, flush_all, await_all}
use raft_lsmt.Client.Write.Placed.{Placed}
use raft_lsmt.Bench.Streams.{record_stream, key_stream, range_keys, stamped}
use raft_lsmt.Bench.WriteBench.{
  WriteBench, receive_all, receive, submit_some, submit_buffer, throttle, flush_client, run_bench,
}
use raft_lsmt.Bench.WriteBench.Conserve.{bench_conserves}

abbrev node : Node
node = record { cluster_name = "A"; id = 1; host = "127.0.0.1"; port = 18091 }

abbrev client : DbClient
client = record {
  config = record default_config { batch_size = 2 };
  write_buffer = [];
  clusters = ("A", node ∷ []) ∷ [];
  router = record {
    strategy = range (Range.init 300);
    clusters = ("A", node ∷ []) ∷ [];
    leader_registry = Registry.init;
  };
  next_req_id = 1;
}

abbrev rec : ℕ → ℕ → Record
rec key ts = record { key_id = key; timestamp = ts; content = int key }

abbrev stream : List Record
stream = rec 5 107 ∷ rec 6 207 ∷ rec 7 307 ∷ []

streamed : record_stream (λ i a b. ok a) (λ i n. n) 3 "sequential" 5 100 107 ≡ (stream, ok tt)
unfolding record_stream key_stream range_keys stamped
streamed = refl

abbrev no_digest : List ℕ → List ℕ
no_digest bytes = bytes

-- Before each call of `write` and at the end, the node has been found to be the leader.
abbrev elects : WriteBench → List LeaderChange
elects bench = leader_set node ∷ []

abbrev all_pending : List Batch → List Batch
all_pending futures = futures

abbrev done : WriteBench
done = record {
  dbclient = record client {
    write_buffer = (some node, []) ∷ [];
    router = record client.router { leader_registry = record { leaders = ("A", some node) ∷ [] } };
  };
  batch_buffer = [];
  total_processed = 3;
  futures = (some node, rec 5 107 ∷ rec 6 207 ∷ []) ∷ [];
  handed = (some node, rec 5 107 ∷ rec 6 207 ∷ []) ∷ (some node, rec 7 307 ∷ []) ∷ [];
}

abbrev all_arrive : List Batch → List (Outcome (Unit {0}))
all_arrive batches = map (λ b. ok tt) batches

ran : run_bench no_digest elects all_pending all_arrive (stream, ok tt) client ≡ ok done
unfolding Registry.changed Registry.set_leader run_bench receive_all receive submit_some
    submit_buffer throttle flush_client await_all write flush flush_all group
    raft_lsmt.Client.Write.buffer_all raft_lsmt.Client.Write.buffer_node
    raft_lsmt.Client.Write.extend raft_lsmt.Client.Write.drain lane Dict.get_default Dict.get
    Dict.set Router.get_node_insert Router.strategy_insert Range.get_node_insert Range.chunk_size
    Range.target_index raft_lsmt.Client.Routing.Target.node_at
    raft_lsmt.Client.Routing.Target.or_raise raft_lsmt.Client.Routing.Names.cluster_names
    Registry.get_leader raft_lsmt.Client.Routing.Select.leader_or_first
ran = refl

bench_conserves_example :
    (placed : List Batch) × Placed no_digest client.router stream placed done.dbclient.router
    × ((n : Option Node)
        → (items_for n done.handed ≡ lane client.write_buffer n ++ items_for n placed)
          × (lane done.dbclient.write_buffer n ≡ []))
bench_conserves_example =
    bench_conserves no_digest elects all_pending all_arrive (stream, ok tt) client done
      (omega arith, tt) ran
