-- ===== src/Cli/Tests.antt =====
-- A session of four lines: two records are queued, a line is refused, and EXIT ends it.
use raft_lsmt.Base.{
  ◌≡◌, refl, String, some, List, [], ◌∷◌, ◌++◌, arith, ok, raise, option_key, string_key,
  value_error, ◌==◌, if◌then◌else◌, timeout_error,
}
use raft_lsmt.Base.Dict
use raft_lsmt.Base.Lanes.{lane}
use raft_lsmt.Client.Datatypes.{Node, Record, int, node_key}
use raft_lsmt.Client.Registry
use raft_lsmt.Client.Registry.{leader_set}
use raft_lsmt.Client.Routing.Range
use raft_lsmt.Client.Routing.Router.{Router, range}
use raft_lsmt.Client.Routing.Router
use raft_lsmt.Client.Db.{default_config}
use raft_lsmt.Client.Write.{write, group}
use raft_lsmt.Client.Sockets.{disconnect, pooled}
use raft_lsmt.Cli.{
  Outside, Cli, queued, error, goodbye, command, insert, typed_record, write_records, answer, loop,
}
use raft_lsmt.Cli.Keeps.{held, taken, loop_keeps}

abbrev node : Node
node = record { cluster_name = "A"; id = 1; host = "127.0.0.1"; port = 18091 }

abbrev outside : Outside
outside = record {
  upper = λ s. s;
  int_of = λ s. if s == "x" then raise value_error else ok 7;
  md5 = λ bytes. bytes;
  now_ms = 1000;
  shuffle = λ keys. keys;
  choices = λ i size. 1;
  aggregate = λ reading. (raise timeout_error, reading.next_req_id);
  deliver = λ batches. [];
  leaders = leader_set node ∷ [];
}

abbrev cli : Cli
cli = record {
  dbclient = record {
    config = record default_config { batch_size = 2 };
    write_buffer = [];
    clusters = ("A", node ∷ []) ∷ [];
    router = record {
      strategy = range (Range.init 300);
      clusters = ("A", node ∷ []) ∷ [];
      leader_registry = Registry.init;
    };
    next_req_id = 1;
  };
  sockets = record { pools = []; closed = [] };
  handed = [];
}

abbrev lines : List (Outside × List String)
lines =
    (outside, "INSERT" ∷ "7" ∷ "7" ∷ "7" ∷ [])
    ∷ (outside, "INSERT" ∷ "7" ∷ "x" ∷ "7" ∷ [])
    ∷ (outside, "EXIT" ∷ [])
    ∷ (outside, "INSERT" ∷ "7" ∷ "7" ∷ "7" ∷ [])
    ∷ []

abbrev rec : Record
rec = record { key_id = 7; timestamp = 7; content = int 7 }

session : (loop lines cli).0 ≡ queued rec ∷ error value_error ∷ goodbye ∷ []
unfolding loop Registry.changed Registry.set_leader answer command insert typed_record write_records
    write group disconnect pooled raft_lsmt.Client.Write.buffer_all
    raft_lsmt.Client.Write.buffer_node raft_lsmt.Client.Write.extend raft_lsmt.Client.Write.drain
    lane Dict.get_default Dict.get Dict.set Router.get_node_insert Router.strategy_insert
    Range.get_node_insert Range.chunk_size Range.target_index
    raft_lsmt.Client.Routing.Target.node_at raft_lsmt.Client.Routing.Target.or_raise
    raft_lsmt.Client.Routing.Names.cluster_names Registry.get_leader
    raft_lsmt.Client.Routing.Select.leader_or_first
session = refl

loop_keeps_example :
    held (loop lines cli).1 (some node) ≡ held cli (some node) ++ taken (some node) lines cli
loop_keeps_example = loop_keeps lines cli (some node) (omega arith, tt)
