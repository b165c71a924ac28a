-- ===== src/Setup.antt =====
-- `main` of cli.py, write-bench.py and read_benchmark.py: the clusters of the configuration file, the
-- router and the client that is connected to them, and the program run on it. The arguments are the
-- parsed ones. Times are in milliseconds.

pub mod Clusters
pub mod Meets
pub mod Later
pub mod Routed
mod Tests
use raft_lsmt.Base.{
  ℕ, ◌+◌, ◌-◌, ◌*◌, String, string_key, Bool, Option, none, some, List, [], ◌∷◌, Outcome, ok, raise,
  ◌>>=◌, key_error,
}
use raft_lsmt.Base.Dict
use raft_lsmt.Base.Dict.{Dict}
use raft_lsmt.Client.Datatypes.{Node, QueryRequest}
use raft_lsmt.Client.Registry.{LeaderRegistry}
use raft_lsmt.Client.Routing.Names
use raft_lsmt.Client.Routing.Range
use raft_lsmt.Client.Routing.Hash
use raft_lsmt.Client.Routing.RoundRobin
use raft_lsmt.Client.Routing.ByKey
use raft_lsmt.Client.Routing.Router.{
  RoutingStrategy, range, hash, round_robin, leader, update_topology,
}
use raft_lsmt.Client.Routing.Router
use raft_lsmt.Client.Db.{DbClientConfig, default_config, DbClient}
use raft_lsmt.Client.Db
use raft_lsmt.Client.Sockets.{Sockets, connect, disconnect}
use raft_lsmt.Client.Write.{Batch}
use raft_lsmt.Client.Registry.{LeaderChange}
use raft_lsmt.Bench.WriteBench.{WriteBench, bench}
use raft_lsmt.Bench.ReadBench.{ReadBench, query_stream, run_read_bench}
use raft_lsmt.Cli.{Cli, Outside, Said, loop}

-- What the file says of a node.
pub record NodeData : Type 0 where
  pub id : ℕ
  pub host : String
  pub tcp_port : ℕ

-- `config_data`.
abbrev pub ConfigData : Type 0
ConfigData = Dict String (List NodeData)

unfoldable pub nodes_of : String → List NodeData → List Node
nodes_of cluster_name [] = []
nodes_of cluster_name (n ∷ nodes_data) =
    record { cluster_name = cluster_name; id = n.id; host = n.host; port = n.tcp_port }
    ∷ nodes_of cluster_name nodes_data

-- The loop over `config_data.items()`.
unfoldable pub load_clusters : Names.Clusters → ConfigData → Names.Clusters
load_clusters clusters [] = clusters
load_clusters clusters ((cluster_name, nodes_data) ∷ rest) =
    load_clusters (Dict.set clusters cluster_name (nodes_of cluster_name nodes_data)) rest

-- `strategy_map` of cli.py and of write-bench.py.
unfoldable pub strategy_map : ℕ → Dict String RoutingStrategy
strategy_map max_key =
    ("hash", hash Hash.init)
    ∷ ("round-robin", round_robin RoundRobin.init)
    ∷ ("range", range (Range.init max_key))
    ∷ []

-- `strategy_map` of read_benchmark.py.
unfoldable pub read_strategy_map : ℕ → Dict String RoutingStrategy
read_strategy_map max_key =
    ("hash", hash Hash.init)
    ∷ ("round-robin", round_robin RoundRobin.init)
    ∷ ("leader", leader ByKey.init)
    ∷ ("range", range (Range.init max_key))
    ∷ []

-- `strategy_map[args.routing_strategy]`.
unfoldable pub strategy_of : Dict String RoutingStrategy → String → Outcome RoutingStrategy
strategy_of strategies routing_strategy = elim (Dict.get strategies routing_strategy) [
  | none ↦ raise key_error
  | some s ↦ ok s
]

-- What surrounds a program: what `select` says of a socket, how connections are opened, and what the
-- pools have become when the program is done.
pub record Network : Type 0 where
  pub readable : ℕ → Bool
  pub dial : String → ℕ → Outcome ℕ
  pub used : Sockets → Sockets

-- The router over the clusters, the client, and `db_client.connect(clusters)`.
unfoldable pub set_up : Network → DbClientConfig → RoutingStrategy → ConfigData → DbClient × Sockets
set_up network client_config strategy config_data =
    let clusters = load_clusters [] config_data in
    let router = update_topology (Router.init strategy) clusters in
    let client = Db.init client_config router in
    let (known, sockets, leaders) =
      connect network.readable network.dial clusters (record { pools = []; closed = [] })
        router.leader_registry in
    (
      record client { clusters = known; router = record router { leader_registry = leaders } },
      sockets,
    )

abbrev pub cli_config : DbClientConfig
cli_config = record default_config {
  thread_pool_size = 32;
  batch_size = 8192;
  write_timeout = 10000;
  read_timeout = 10000;
}

-- cli.py, `main`: the loop answers every exception itself.
unfoldable pub cli_main :
    Network → String → ℕ → ConfigData → List (Outside × List String) → Outcome (List Said × Cli)
cli_main network routing_strategy max_key config_data lines = do
  strategy ← strategy_of (strategy_map max_key) routing_strategy
  let (client, sockets) = set_up network cli_config strategy config_data
  ok (loop lines (record { dbclient = client; sockets = sockets; handed = [] }))

abbrev pub write_config : DbClientConfig
write_config = record default_config {
  thread_pool_size = 3;
  batch_size = 8192;
  write_timeout = 10000;
  read_timeout = 10000;
}

-- The arguments of write-bench.py; what is left out on the command line is `none`.
pub record WriteArgs : Type 0 where
  pub requests : ℕ
  pub routing_strategy : String
  pub data_dist : String
  pub key_start : ℕ
  pub key_end : Option ℕ
  pub max_key : Option ℕ
  pub worker_id : ℕ

abbrev given_or : Option ℕ → ℕ → ℕ
given_or none d = d
given_or (some v) d = v

-- `key_end`, for a first key or a number of requests that is not 0.
abbrev pub last_key : WriteArgs → ℕ
last_key args = given_or args.key_end (args.key_start + args.requests - 1)

abbrev pub write_max_key : WriteArgs → ℕ
write_max_key args = given_or args.max_key (last_key args)

-- write-bench.py, `main`: how the benchmark ends, and the sockets once the client is disconnected,
-- which happens whether or not it raised.
unfoldable pub write_main :
    Network
    → (List ℕ → List ℕ)
    → (WriteBench → List LeaderChange)
    → (List Batch → List Batch)
    → (List Batch → List (Outcome (Unit {0})))
    → (ℕ → ℕ → ℕ → Outcome ℕ)
    → (ℕ → ℕ → ℕ)
    → ℕ
    → WriteArgs
    → ConfigData
    → Outcome (Outcome WriteBench × Sockets)
write_main network md5 meanwhile not_done deliver randint inverse_cdf now_ms args config_data = do
  strategy ← strategy_of (strategy_map (write_max_key args)) args.routing_strategy
  let (client, sockets) = set_up network write_config strategy config_data
  ok (
    bench md5 meanwhile not_done deliver randint inverse_cdf now_ms client args.data_dist
        args.requests args.key_start (last_key args) args.worker_id,
    disconnect (network.used sockets),
  )

-- The arguments of read_benchmark.py.
pub record ReadArgs : Type 0 where
  pub requests : ℕ
  pub routing_strategy : String
  pub data_dist : String
  pub max_key : ℕ
  pub range_size : ℕ
  pub thread_pool_size : ℕ
  pub batch_size : ℕ
  pub key_start : ℕ
  pub key_end : Option ℕ

abbrev pub read_config : ReadArgs → DbClientConfig
read_config args = record default_config {
  thread_pool_size = args.thread_pool_size;
  batch_size = 4096;
  write_timeout = 5000;
  read_timeout = 15000;
}

-- read_benchmark.py, `main`, in the same way.
unfoldable pub read_main :
    Network
    → (ℕ → ℕ)
    → (List (List QueryRequest) → List (List QueryRequest))
    → (ℕ → ℕ → ℕ → Outcome ℕ)
    → (ℕ → ℕ → ℕ)
    → ReadArgs
    → ConfigData
    → Outcome (Outcome ReadBench × Sockets)
read_main network gaps not_done randint inverse_cdf args config_data = do
  strategy ← strategy_of (read_strategy_map args.max_key) args.routing_strategy
  let (client, sockets) = set_up network (read_config args) strategy config_data
  ok (
    run_read_bench gaps not_done args.batch_size
        (query_stream randint inverse_cdf args.requests args.data_dist args.range_size
          args.key_start (given_or args.key_end args.max_key))
        client.router client.next_req_id,
    disconnect (network.used sockets),
  )
