-- ===== src/Client/Db.antt =====
-- client/dbclient.py, the configuration and the state of class DbClient. The thread pools and the
-- lock are not part of the state: a method that holds the lock is one step, and what a future does
-- is modelled where it runs. The callback `write_cb` is left out. Timeouts are in milliseconds.
use raft_lsmt.Base.{ℕ, Option, List, []}
use raft_lsmt.Base.Dict.{Dict}
use raft_lsmt.Client.Datatypes.{Node, Record}
use raft_lsmt.Client.Registry.{LeaderChange}
use raft_lsmt.Client.Routing.Names.{Clusters}
use raft_lsmt.Client.Routing.Router.{Router, with_leaders}

pub record DbClientConfig : Type 0 where
  pub thread_pool_size : ℕ
  pub batch_size : ℕ
  pub write_timeout : ℕ
  pub read_timeout : ℕ
  pub max_retries : ℕ

abbrev pub default_config : DbClientConfig
default_config = record {
  thread_pool_size = 16;
  batch_size = 4096;
  write_timeout = 5000;
  read_timeout = 10000;
  max_retries = 10;
}

-- The records that wait to be sent, under the node that they were routed to. The router may have
-- had no node for them.
abbrev pub Buffer : Type 0
Buffer = Dict (Option Node) (List Record)

pub record DbClient : Type 0 where
  pub config : DbClientConfig
  pub write_buffer : Buffer
  pub clusters : Clusters
  pub router : Router
  pub next_req_id : ℕ

unfoldable pub init : DbClientConfig → Router → DbClient
init config router = record {
  config = config;
  write_buffer = [];
  clusters = [];
  router = router;
  next_req_id = 1;
}

-- The client after its batches under way have changed the registry.
abbrev pub see_leaders : List LeaderChange → DbClient → DbClient
see_leaders changes client = record client { router = with_leaders changes client.router }
