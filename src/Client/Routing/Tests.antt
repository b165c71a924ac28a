-- ===== src/Client/Routing/Tests.antt =====
-- Runs of the routing code on the topology of mocks/test_routing.py, and the theorems on it.
use raft_lsmt.Base.{
  ℕ, ◌+◌, ◌≡◌, ◌⊎◌, ◌↔◌, refl, String, some, List, [], ◌∷◌, arith, Any, Member, All, ok, true,
  false, string_key,
}
use raft_lsmt.Base.Dict.{Dict, keys}
use raft_lsmt.Base.Dict
use raft_lsmt.Client.Datatypes.{Node, Record, int, QueryRequest}
use raft_lsmt.Client.Registry.{
  LeaderRegistry, IsRegistry, IsRegistry-init, set_leader, set_leader-IsRegistry, get_leader,
}
use raft_lsmt.Client.Registry
use raft_lsmt.Client.Routing.Names.{Clusters, cluster_names}
use raft_lsmt.Client.Routing.Select.{
  followers, is_leader, select_follower_round_robin, leader_or_first,
}
use raft_lsmt.Client.Routing.Select.Choice.{select_cases}
use raft_lsmt.Client.Routing.Each.{IsTopology}
use raft_lsmt.Client.Routing.Range.{target_index}
use raft_lsmt.Client.Routing.Range
use raft_lsmt.Client.Routing.Range.Blocks.{InBlock, target_index_iff}
use raft_lsmt.Client.Routing.Router
use raft_lsmt.Client.Routing.Router.{Router, range, round_robin, RoutingStrategy}
use raft_lsmt.Client.Routing.Router.Reach.{read_reaches_insert}
use raft_lsmt.Client.Routing.Router.Total.{routes_every_record}

abbrev node : String → ℕ → Node
node c id = record { cluster_name = c; id = id; host = "127.0.0.1"; port = 18090 + id }

abbrev nodes_a : List Node
nodes_a = node "A" 1 ∷ node "A" 2 ∷ node "A" 3 ∷ []

abbrev nodes_b : List Node
nodes_b = node "B" 4 ∷ node "B" 5 ∷ []

-- The keys are out of order on purpose.
abbrev clusters : Clusters
clusters = ("C", node "C" 7 ∷ []) ∷ ("A", nodes_a) ∷ ("B", nodes_b) ∷ []

abbrev registry : LeaderRegistry
registry = set_leader Registry.init (node "A" 2)

abbrev rec : ℕ → ℕ → Record
rec key ts = record { key_id = key; timestamp = ts; content = int key }

abbrev query : ℕ → ℕ → QueryRequest
query lo hi = record { min_id = lo; min_ts = 0; max_id = hi; max_ts = 0; query_id = 0 }

registry-IsRegistry : IsRegistry registry
registry-IsRegistry = set_leader-IsRegistry Registry.init (node "A" 2) IsRegistry-init

clusters-IsTopology : IsTopology clusters
clusters-IsTopology = (
  ((λ e. cc), (refl, tt)),
  (((λ e. cc), (refl, (refl, (refl, tt)))), (((λ e. cc), (refl, (refl, tt))), tt)),
)

names_sorted : cluster_names clusters ≡ "A" ∷ "B" ∷ "C" ∷ []
unfolding cluster_names
names_sorted = refl

abbrev range_300 : Router
range_300 = record {
  strategy = range (Range.init 300);
  clusters = clusters;
  leader_registry = registry;
}

abbrev no_digest : List ℕ → List ℕ
no_digest bytes = bytes

key_150 : (Router.get_node_insert no_digest range_300 (rec 150 0)).0 ≡ ok (some (node "B" 4))
unfolding Router.get_node_insert Router.strategy_insert Range.get_node_insert Range.chunk_size
    Range.target_index raft_lsmt.Client.Routing.Target.node_at
    raft_lsmt.Client.Routing.Target.or_raise cluster_names Dict.get get_leader set_leader Dict.set
    leader_or_first
key_150 = refl

-- A query over keys 120 to 160 is answered, and asks a node of B, where the key 150 went.
read_reaches_insert_example :
    (r : List Node × Router) × (Router.get_nodes_for_read range_300 (query 120 160) ≡ ok r)
    × Any (λ m. m.cluster_name ≡ "B") r.0
read_reaches_insert_example =
    read_reaches_insert no_digest range_300 range_300 (rec 150 0) (query 120 160) (node "B" 4) refl
      refl registry-IsRegistry registry-IsRegistry clusters-IsTopology key_150 (omega arith)
      (omega arith)

routes_every_record_example :
    (n : Node) × ((Router.get_node_insert no_digest range_300 (rec 299 0)).0 ≡ ok (some n))
    × Member n.cluster_name (keys clusters)
routes_every_record_example =
    routes_every_record no_digest range_300 (rec 299 0) registry-IsRegistry clusters-IsTopology
      (λ e. cc) (omega arith)

target_index_iff_example : (target_index 100 3 150 ≡ ok 1) ↔ InBlock 100 3 1 150
target_index_iff_example = target_index_iff 100 3 150 1 (omega arith) (omega arith)

select_cases_example :
    ((n : Node) × ((select_follower_round_robin "A" nodes_a (some (node "A" 2)) []).0 ≡ some n)
      × Member n nodes_a
      × (is_leader (some (node "A" 2)) n ≡ false))
    ⊎ (All (λ n. is_leader (some (node "A" 2)) n ≡ true) nodes_a
        × (select_follower_round_robin "A" nodes_a (some (node "A" 2)) []
            ≡ (leader_or_first (some (node "A" 2)) nodes_a, [])))
select_cases_example = select_cases "A" nodes_a (some (node "A" 2)) []

followers_of_a : followers (some (node "A" 2)) nodes_a ≡ node "A" 1 ∷ node "A" 3 ∷ []
unfolding followers
followers_of_a = refl
