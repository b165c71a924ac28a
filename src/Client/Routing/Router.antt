-- ===== src/Client/Routing/Router.antt =====
-- client/router.py, class Router, over the abstract class RoutingStrategy: a strategy is one of the
-- four classes of client/routing_strats.py. Each call returns the router with its strategy's state.
pub mod Total
pub mod Reach
use raft_lsmt.Base.{ℕ, Option, List, [], Outcome, ok, raise, ◌>>=◌}
use raft_lsmt.Client.Datatypes.{Node, Record, QueryRequest}
use raft_lsmt.Client.Registry.{LeaderRegistry, LeaderChange, changed}
use raft_lsmt.Client.Registry
use raft_lsmt.Client.Routing.Names.{Clusters}
use raft_lsmt.Client.Routing.Range.{RangeRoutingStrategy}
use raft_lsmt.Client.Routing.Range
use raft_lsmt.Client.Routing.Hash.{HashRoutingStrategy}
use raft_lsmt.Client.Routing.Hash
use raft_lsmt.Client.Routing.RoundRobin.{RoundRobinRoutingStrategy}
use raft_lsmt.Client.Routing.RoundRobin
use raft_lsmt.Client.Routing.ByKey.{LeaderRoutingStrategy}
use raft_lsmt.Client.Routing.ByKey

pub data RoutingStrategy : Type 0 where
  range : RangeRoutingStrategy → RoutingStrategy
  hash : HashRoutingStrategy → RoutingStrategy
  round_robin : RoundRobinRoutingStrategy → RoutingStrategy
  leader : LeaderRoutingStrategy → RoutingStrategy

pub record Router : Type 0 where
  pub strategy : RoutingStrategy
  pub clusters : Clusters
  pub leader_registry : LeaderRegistry

unfoldable pub init : RoutingStrategy → Router
init strategy = record { strategy = strategy; clusters = []; leader_registry = Registry.init }

unfoldable pub update_topology : Router → Clusters → Router
update_topology router clusters = record router { clusters = clusters }

-- `strategy.get_node_insert` of the object's class.
unfoldable pub strategy_insert :
    (List ℕ → List ℕ)
    → RoutingStrategy
    → Record
    → LeaderRegistry
    → Clusters
    → Outcome (Option Node) × RoutingStrategy
strategy_insert md5 (range s) rec registry clusters =
    (Range.get_node_insert s rec registry clusters, range s)
strategy_insert md5 (hash s) rec registry clusters =
    (Hash.get_node_insert md5 s rec registry clusters, hash s)
strategy_insert md5 (round_robin s) rec registry clusters =
    let step = RoundRobin.get_node_insert s rec registry clusters in (step.0, round_robin step.1)
strategy_insert md5 (leader s) rec registry clusters =
    (ByKey.get_node_insert s rec registry clusters, leader s)

-- `strategy.get_node_query` of the object's class.
unfoldable pub strategy_query :
    RoutingStrategy
    → QueryRequest
    → LeaderRegistry
    → Clusters
    → Outcome (List Node × RoutingStrategy)
strategy_query (range s) query registry clusters = do
  r ← Range.get_node_query s query registry clusters
  ok (r.0, range r.1)
strategy_query (hash s) query registry clusters = do
  r ← Hash.get_node_query s query registry clusters
  ok (r.0, hash r.1)
strategy_query (round_robin s) query registry clusters = do
  r ← RoundRobin.get_node_query s query registry clusters
  ok (r.0, round_robin r.1)
strategy_query (leader s) query registry clusters = do
  r ← ByKey.get_node_query s query registry clusters
  ok (r.0, leader r.1)

unfoldable pub get_node_insert :
    (List ℕ → List ℕ) → Router → Record → Outcome (Option Node) × Router
get_node_insert md5 router rec =
    let step = strategy_insert md5 router.strategy rec router.leader_registry router.clusters in
    (step.0, record router { strategy = step.1 })

unfoldable pub get_nodes_for_read : Router → QueryRequest → Outcome (List Node × Router)
get_nodes_for_read router query = do
  r ← strategy_query router.strategy query router.leader_registry router.clusters
  ok (r.0, record router { strategy = r.1 })

-- The router after other threads have changed its registry.
abbrev pub with_leaders : List LeaderChange → Router → Router
with_leaders changes router = record router {
  leader_registry = changed changes router.leader_registry;
}
