-- ===== src/Client/Write/Tests.antt =====
-- Runs of `write` with a batch size of 2, and the theorems on them.
use raft_lsmt.Base.{
  ℕ, ◌<◌, ◌≡◌, refl, String, Option, none, some, List, [], ◌∷◌, ◌++◌, arith, length, concat, All,
  ok, raise, Exception, option_key, zero_division,
}
use raft_lsmt.Base.Lanes.{items_for, lane}
use raft_lsmt.Client.Datatypes.{Node, Record, int, node_key}
use raft_lsmt.Client.Registry
use raft_lsmt.Client.Routing.Range
use raft_lsmt.Client.Routing.Router.{Router, range}
use raft_lsmt.Client.Routing.Router
use raft_lsmt.Client.Db.{DbClient, default_config}
use raft_lsmt.Client.Write.{Batch, drain, group, write}
use raft_lsmt.Client.Write.Group.{routes}
use raft_lsmt.Client.Write.Conserve.{write_conserves}
use raft_lsmt.Client.Write.Bounds.{IsFull, write_bounds}

abbrev node_a : Node
node_a = record { cluster_name = "A"; id = 1; host = "127.0.0.1"; port = 18091 }

abbrev rec : ℕ → Record
rec key = record { key_id = key; timestamp = key; content = int key }

abbrev router : Router
router = record {
  strategy = range (Range.init 300);
  clusters = ("A", node_a ∷ []) ∷ [];
  leader_registry = Registry.init;
}

-- One record waits for the node.
abbrev client : DbClient
client = record {
  config = record default_config { batch_size = 2 };
  write_buffer = (some node_a, rec 1 ∷ []) ∷ [];
  clusters = ("A", node_a ∷ []) ∷ [];
  router = router;
  next_req_id = 1;
}

abbrev no_digest : List ℕ → List ℕ
no_digest bytes = bytes

abbrev handed_over : List Batch
handed_over = (some node_a, rec 1 ∷ rec 2 ∷ []) ∷ []

write_two : (write no_digest client (rec 2 ∷ rec 3 ∷ [])).0 ≡ ok handed_over
unfolding write group raft_lsmt.Client.Write.buffer_all raft_lsmt.Client.Write.buffer_node
    raft_lsmt.Client.Write.extend drain lane raft_lsmt.Base.Dict.get_default raft_lsmt.Base.Dict.get
    raft_lsmt.Base.Dict.set Router.get_node_insert Router.strategy_insert Range.get_node_insert
    Range.chunk_size Range.target_index raft_lsmt.Client.Routing.Target.node_at
    raft_lsmt.Client.Routing.Target.or_raise raft_lsmt.Client.Routing.Names.cluster_names
    Registry.get_leader raft_lsmt.Client.Routing.Select.leader_or_first
write_two = refl

write_conserves_example :
    items_for (some node_a) handed_over
      ++ lane (write no_digest client (rec 2 ∷ rec 3 ∷ [])).1.write_buffer (some node_a)
    ≡ lane client.write_buffer (some node_a)
      ++ items_for (some node_a) (routes no_digest client.router (rec 2 ∷ rec 3 ∷ []))
write_conserves_example =
    write_conserves no_digest client (rec 2 ∷ rec 3 ∷ []) handed_over (some node_a) (omega arith)
      write_two

one_waits : length (lane client.write_buffer (some node_a)) < client.config.batch_size
unfolding lane raft_lsmt.Base.Dict.get_default raft_lsmt.Base.Dict.get
one_waits = omega arith

write_bounds_example :
    All (IsFull 2) handed_over
    × (length (lane (write no_digest client (rec 2 ∷ rec 3 ∷ [])).1.write_buffer (some node_a)) < 2)
write_bounds_example =
    write_bounds no_digest client (rec 2 ∷ rec 3 ∷ []) handed_over (some node_a) (omega arith)
      one_waits write_two

-- Before a topology is known there is no cluster to route to.
abbrev unconnected : DbClient
unconnected = record client { router = record router { clusters = [] } }

write_raises : (write no_digest unconnected (rec 2 ∷ [])).0 ≡ raise zero_division
unfolding write group Router.get_node_insert Router.strategy_insert Range.get_node_insert
    Range.chunk_size raft_lsmt.Client.Routing.Names.cluster_names
write_raises = refl
