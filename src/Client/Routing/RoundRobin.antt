-- ===== src/Client/Routing/RoundRobin.antt =====
-- client/routing_strats.py, class RoundRobinRoutingStrategy. A method returns the strategy with its
-- counter advanced beside its outcome.
use raft_lsmt.Base.{
  ℕ, zero, suc, ◌+◌, ◌%◌, ◌<◌, String, ◌≡◌, ◌≢◌, true, false, Option, none, some, List, [], ◌∷◌,
  arith, length, ◌==◌, nat_key, get_elem?, Outcome, ok,
}
use raft_lsmt.Base.Dict.{Dict}
use raft_lsmt.Client.Datatypes.{Node, Record, QueryRequest}
use raft_lsmt.Client.Registry.{LeaderRegistry, IsRegistry}
use raft_lsmt.Client.Routing.Names.{Clusters, cluster_names, cluster_names_pos}
use raft_lsmt.Client.Routing.Each.{query_each, IsTopology}
use raft_lsmt.Client.Routing.Target.{node_at, node_at_total}
use native.Mathlib.Nat.{mod-lt, add-zero}

pub record RoundRobinRoutingStrategy : Type 0 where
  pub counter : ℕ
  pub query_indices : Dict String ℕ

abbrev pub init : RoundRobinRoutingStrategy
init = record { counter = 0; query_indices = [] }

-- The counter is read and advanced under the lock, before the cluster is looked up.
unfoldable pub get_node_insert :
    RoundRobinRoutingStrategy
    → Record
    → LeaderRegistry
    → Clusters
    → Outcome (Option Node) × RoundRobinRoutingStrategy
get_node_insert strategy rec registry clusters =
    let names = cluster_names clusters in
    elim (length names == 0) [
      | true ↦ (ok none, strategy)
      | false ↦ (
        node_at names (strategy.counter % length names) registry clusters,
        record strategy { counter = strategy.counter + 1 },
      )
    ]

unfoldable pub get_node_query :
    RoundRobinRoutingStrategy
    → QueryRequest
    → LeaderRegistry
    → Clusters
    → Outcome (List Node × RoundRobinRoutingStrategy)
get_node_query strategy query registry clusters =
    let result = query_each clusters registry strategy.query_indices in
    ok (result.0, record strategy { query_indices = result.1 })

-- What inserting the records in order answers, one outcome for each.
unfoldable pub inserts :
    RoundRobinRoutingStrategy
    → List Record
    → LeaderRegistry
    → Clusters
    → List (Outcome (Option Node))
inserts strategy [] registry clusters = []
inserts strategy (rec ∷ recs) registry clusters =
    let step = get_node_insert strategy rec registry clusters in
    step.0 ∷ inserts step.1 recs registry clusters

insert_step :
    (strategy : RoundRobinRoutingStrategy) (rec : Record) (registry : LeaderRegistry)
    (clusters : Clusters)
    → clusters ≢ []
    → get_node_insert strategy rec registry clusters ≡ (
      node_at
          (cluster_names clusters)
          (strategy.counter % length (cluster_names clusters))
          registry
          clusters,
      record strategy { counter = strategy.counter + 1 },
    )
unfolding get_node_insert
insert_step strategy rec registry clusters ne =
    let some_name : (length (cluster_names clusters) == 0) ≡ false =
      ground (arith, cluster_names_pos clusters ne) in
    rw (some_name, get_node_insert)

-- The record number `j` of a run goes to a node of the cluster number `(counter + j) % n` in the
-- sorted order, so that any `n` records in a row are spread over all `n` clusters.
pub inserts_rotate :
    (strategy : RoundRobinRoutingStrategy) (recs : List Record) (j : ℕ) (registry : LeaderRegistry)
    (clusters : Clusters)
    → IsRegistry registry
    → IsTopology clusters
    → clusters ≢ []
    → j < length recs
    → let names = cluster_names clusters in
      (node : Node) × (get_elem? (inserts strategy recs registry clusters) j
        ≡ some (ok (some node)))
      × (get_elem? names ((strategy.counter + j) % length names) ≡ some node.cluster_name)
unfolding inserts
inserts_rotate strategy [] j registry clusters hr ht ne h = absurd (omega arith)
inserts_rotate strategy (rec ∷ recs) zero registry clusters hr ht ne h =
    let n = length (cluster_names clusters) in
    let (node, en, named) =
      node_at_total clusters registry (strategy.counter % n) hr ht
        (mod-lt strategy.counter (cluster_names_pos clusters ne)) in
    (node, rw (insert_step strategy rec registry clusters ne, en), rw (add-zero) named)
inserts_rotate strategy (rec ∷ recs) (suc j) registry clusters hr ht ne h =
    let next = record strategy { counter = strategy.counter + 1 } in
    let (node, en, named) = inserts_rotate next recs j registry clusters hr ht ne (omega arith) in
    let shifted : strategy.counter + suc j ≡ strategy.counter + 1 + j = omega arith in
    (node, rw (insert_step strategy rec registry clusters ne) en, rw shifted named)
