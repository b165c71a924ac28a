-- ===== src/Setup/Tests.antt =====
-- The write benchmark and the read benchmark on a cluster of one node: two records, one batch.
use raft_lsmt.Base.{
  ℕ, ◌≡◌, refl, some, none, List, [], ◌∷◌, ◌++◌, map, arith, Outcome, ok, raise, Member, here,
  there, option_key, string_key, timeout_error,
}
use raft_lsmt.Base.Dict
use raft_lsmt.Base.Lanes.{items_for, lane}
use raft_lsmt.Client.Datatypes.{Node, Record, int, QueryRequest, node_key}
use raft_lsmt.Client.Registry.{leader_set, leader_cleared}
use raft_lsmt.Client.Registry
use raft_lsmt.Client.Routing.Range
use raft_lsmt.Client.Routing.Router.{RoutingStrategy, range, hash, update_topology}
use raft_lsmt.Client.Routing.Router
use raft_lsmt.Client.Db
use raft_lsmt.Client.Sockets.{
  connect, connect_clusters, connect_nodes, return_socket, disconnect, pooled,
}
use raft_lsmt.Client.Write.{Batch, write, group, flush, flush_all, await_all}
use raft_lsmt.Bench.Streams.{record_stream, key_stream, range_keys, stamped}
use raft_lsmt.Bench.WriteBench.{
  WriteBench, receive_all, receive, submit_some, submit_buffer, throttle, flush_client, run_bench,
  bench,
}
use raft_lsmt.Setup.{
  ConfigData, nodes_of, load_clusters, Network, strategy_map, read_strategy_map, strategy_of,
  set_up, WriteArgs, write_config, write_main, ReadArgs, read_config,
}
use raft_lsmt.Setup.Later.{at_first, after_change}
use raft_lsmt.Setup.Routed.{Asks}
use raft_lsmt.Setup.Meets.{written_is_asked}

abbrev config_data : ConfigData
config_data = ("A", record { id = 1; host = "127.0.0.1"; tcp_port = 18091 } ∷ []) ∷ []

abbrev node : Node
node = record { cluster_name = "A"; id = 1; host = "127.0.0.1"; port = 18091 }

abbrev network : Network
network = record {
  readable = λ sock. raft_lsmt.Base.false;
  dial = λ host port. ok port;
  used = λ sockets. sockets;
}

abbrev unreachable : Network
unreachable = record network { dial = λ host port. raise timeout_error }

abbrev args : WriteArgs
args = record {
  requests = 2;
  routing_strategy = "range";
  data_dist = "sequential";
  key_start = 5;
  key_end = none;
  max_key = none;
  worker_id = 7;
}

abbrev read_args : ReadArgs
read_args = record {
  requests = 1;
  routing_strategy = "range";
  data_dist = "sequential";
  max_key = 6;
  range_size = 10;
  thread_pool_size = 16;
  batch_size = 32;
  key_start = 1;
  key_end = none;
}

abbrev rec : ℕ → ℕ → Record
rec key ts = record { key_id = key; timestamp = ts; content = int key }

abbrev query : QueryRequest
query = record { min_id = 6; min_ts = 0; max_id = 15; max_ts = 0; query_id = 0 }

abbrev done : WriteBench
done = record {
  dbclient = record {
    config = write_config;
    write_buffer = (some node, []) ∷ [];
    clusters = ("A", node ∷ []) ∷ [];
    router = record {
      strategy = range (Range.init 6);
      clusters = ("A", node ∷ []) ∷ [];
      leader_registry = record { leaders = ("A", none) ∷ [] };
    };
    next_req_id = 1;
  };
  batch_buffer = [];
  total_processed = 2;
  futures = [];
  handed = (some node, rec 5 107 ∷ rec 6 207 ∷ []) ∷ [];
}

abbrev all_arrive : List Batch → List (Outcome (Unit {0}))
all_arrive batches = map (λ b. ok tt) batches

ran :
    write_main network
      (λ bytes. bytes)
      (λ bench. leader_cleared node ∷ [])
      (λ futures. futures)
      all_arrive
      (λ i a b. ok a)
      (λ i n. n)
      1
      args
      config_data
    ≡ ok (ok done, record { pools = []; closed = 18091 ∷ [] })
unfolding Registry.changed Registry.clear_leader write_main strategy_of strategy_map set_up
    load_clusters nodes_of connect connect_clusters connect_nodes return_socket disconnect pooled
    Registry.set_leader Db.init Router.init update_topology bench record_stream key_stream
    range_keys stamped run_bench receive_all receive submit_some submit_buffer throttle flush_client
    await_all write flush flush_all group raft_lsmt.Client.Write.buffer_all
    raft_lsmt.Client.Write.buffer_node raft_lsmt.Client.Write.extend raft_lsmt.Client.Write.drain
    lane Dict.get_default Dict.get Dict.set Router.get_node_insert Router.strategy_insert
    Range.get_node_insert Range.chunk_size Range.target_index
    raft_lsmt.Client.Routing.Target.node_at raft_lsmt.Client.Routing.Target.or_raise
    raft_lsmt.Client.Routing.Names.cluster_names Registry.get_leader
    raft_lsmt.Client.Routing.Select.leader_or_first
ran = refl

abbrev fresh_reader : Router.Router
fresh_reader =
    (set_up unreachable (read_config read_args) (range (Range.init 6)) config_data).0.router

abbrev asked : Router.Router
asked = Router.with_leaders (leader_set node ∷ []) fresh_reader

written_is_asked_example :
    (n : Node) × Member (rec 6 207) (items_for (some n) done.handed)
    × Asks asked query n.cluster_name
unfolding strategy_of strategy_map read_strategy_map Dict.get record_stream key_stream range_keys
    stamped
written_is_asked_example =
    written_is_asked network unreachable (λ bytes. bytes) (λ bench. leader_cleared node ∷ [])
      (λ futures. futures) all_arrive (λ i a b. ok a) (λ i n. n) 1 args read_args config_data
      (range (Range.init 6)) (range (Range.init 6)) done
      (record { pools = []; closed = 18091 ∷ [] }) asked (rec 6 207) query (λ e. cc, (λ e. cc, tt))
      refl refl refl ran (omega arith, (omega arith, tt))
      (after_change (leader_set node ∷ []) at_first) (there (here refl)) (omega arith) (omega arith)
