-- ===== src/Client/Routing/Each.antt =====
-- client/routing_strats.py, `get_node_query` of the strategies Hash, RoundRobin and Leader: one
-- node of every cluster.
use raft_lsmt.Base.{ℕ, String, ◌≡◌, ◌≢◌, refl, ap, Option, none, some, List, [], ◌∷◌, map, All}
use raft_lsmt.Base.Dict.{Dict, keys}
use raft_lsmt.Client.Datatypes.{Node}
use raft_lsmt.Client.Registry.{LeaderRegistry, get_leader, IsRegistry}
use raft_lsmt.Client.Routing.Names.{Clusters}
use raft_lsmt.Client.Routing.Select.{select_follower_round_robin}
use raft_lsmt.Client.Routing.Select.Choice.{select-All}

-- `if selected_node: nodes_to_query.append(selected_node)`, before the nodes of later clusters.
abbrev pub keep {ℓ} : {A : Type ℓ} → Option A → List A → List A
keep none ns = ns
keep (some n) ns = n ∷ ns

-- The loop over `clusters.items()`.
unfoldable pub query_each : Clusters → LeaderRegistry → Dict String ℕ → List Node × Dict String ℕ
query_each [] registry indices = ([], indices)
query_each ((cluster_name, nodes) ∷ rest) registry indices =
    let turn =
      select_follower_round_robin cluster_name nodes (get_leader registry cluster_name) indices in
    let later = query_each rest registry turn.1 in (keep turn.0 later.0, later.1)

-- A cluster map as the programs build it: no cluster is empty, and a node carries the name of
-- the cluster that it stands under.
abbrev pub IsCluster : String → List Node → Type 0
IsCluster c nodes = (nodes ≢ []) × All (λ n. n.cluster_name ≡ c) nodes

abbrev pub IsTopology : Clusters → Type 0
IsTopology = All (λ p. IsCluster p.0 p.1)

-- A selection in such a cluster returns a node of that name.
pub select_in_cluster :
    (c : String) (nodes : List Node) (registry : LeaderRegistry) (indices : Dict String ℕ)
    → IsRegistry registry
    → IsCluster c nodes
    → (n : Node) × ((select_follower_round_robin c nodes (get_leader registry c) indices).0
        ≡ some n)
      × (n.cluster_name ≡ c)
select_in_cluster c nodes registry indices hr hc =
    select-All (λ n. n.cluster_name ≡ c) c nodes (get_leader registry c) indices hc.0 (hr c) hc.1

-- The nodes asked are one for each cluster, in the order of the cluster map.
pub query_each_covers :
    (clusters : Clusters) (registry : LeaderRegistry) (indices : Dict String ℕ)
    → IsRegistry registry
    → IsTopology clusters
    → map (λ n. n.cluster_name) (query_each clusters registry indices).0 ≡ keys clusters
unfolding query_each
query_each_covers [] registry indices hr ht = refl
query_each_covers ((c, nodes) ∷ rest) registry indices hr ht =
    let leader = get_leader registry c in
    let (n, e, same) = select_in_cluster c nodes registry indices hr ht.0 in
    rw (e, same)
      (ap (λ (ns : List String). c ∷ ns)
        (query_each_covers rest registry (select_follower_round_robin c nodes leader indices).1 hr
          ht.1))
