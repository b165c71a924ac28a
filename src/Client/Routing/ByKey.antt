-- ===== src/Client/Routing/ByKey.antt =====
-- client/routing_strats.py, class LeaderRoutingStrategy: the cluster of a record is its key modulo
-- the number of clusters.
use raft_lsmt.Base.{
  ℕ, ◌%◌, String, ◌≡◌, ◌≢◌, Option, some, List, [], length, get_elem?, Outcome, ok, ◌>>=◌,
}
use raft_lsmt.Base.Dict.{Dict}
use raft_lsmt.Client.Datatypes.{Node, Record, QueryRequest}
use raft_lsmt.Client.Registry.{LeaderRegistry, IsRegistry}
use raft_lsmt.Client.Routing.Names.{Clusters, cluster_names, cluster_names_pos}
use raft_lsmt.Client.Routing.Each.{query_each, IsTopology}
use raft_lsmt.Client.Routing.Target.{node_at, node_at_total, modulo, modulo_pos}
use native.Mathlib.Nat.{mod-lt}

pub record LeaderRoutingStrategy : Type 0 where
  pub query_indices : Dict String ℕ

abbrev pub init : LeaderRoutingStrategy
init = record { query_indices = [] }

unfoldable pub get_node_insert :
    LeaderRoutingStrategy → Record → LeaderRegistry → Clusters → Outcome (Option Node)
get_node_insert strategy rec registry clusters = do
  idx ← modulo rec.key_id (length (cluster_names clusters))
  node_at (cluster_names clusters) idx registry clusters

unfoldable pub get_node_query :
    LeaderRoutingStrategy
    → QueryRequest
    → LeaderRegistry
    → Clusters
    → Outcome (List Node × LeaderRoutingStrategy)
get_node_query strategy query registry clusters =
    let result = query_each clusters registry strategy.query_indices in
    ok (result.0, record { query_indices = result.1 })

-- Every record goes to a node of the cluster whose number is its key modulo the clusters.
pub leader_insert_total :
    (strategy : LeaderRoutingStrategy) (rec : Record) (registry : LeaderRegistry)
    (clusters : Clusters)
    → IsRegistry registry
    → IsTopology clusters
    → clusters ≢ []
    → (node : Node) × (get_node_insert strategy rec registry clusters ≡ ok (some node))
      × (get_elem? (cluster_names clusters) (rec.key_id % length (cluster_names clusters))
          ≡ some node.cluster_name)
unfolding get_node_insert
leader_insert_total strategy rec registry clusters hr ht ne =
    let n = length (cluster_names clusters) in
    let pos = cluster_names_pos clusters ne in
    let (node, en, named) =
      node_at_total clusters registry (rec.key_id % n) hr ht (mod-lt rec.key_id pos) in
    (node, rw (modulo_pos rec.key_id n pos, en), named)
