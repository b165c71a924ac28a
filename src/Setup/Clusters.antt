-- ===== src/Setup/Clusters.antt =====
-- The clusters and the client as the programs set them up.
use raft_lsmt.Base.{
  ℕ, ◌<◌, ◌≡◌, ◌≢◌, refl, sym, subst, String, string_key, Bool, List, [], ◌∷◌, All, Bool-cases, inl,
  inr, Outcome, Outcome-cases, ◌==◌,
}
use raft_lsmt.Base.Dict
use raft_lsmt.Base.Dict.{Dict}
use raft_lsmt.Client.Datatypes.{Node}
use raft_lsmt.Client.Registry.{LeaderRegistry, IsRegistry, IsRegistry-init, set_leader-IsRegistry}
use raft_lsmt.Client.Routing.Names
use raft_lsmt.Client.Routing.Each.{IsCluster, IsTopology}
use raft_lsmt.Client.Routing.Router.{RoutingStrategy, update_topology}
use raft_lsmt.Client.Routing.Router
use raft_lsmt.Client.Db.{DbClientConfig, DbClient}
use raft_lsmt.Client.Db
use raft_lsmt.Client.Sockets.{Sockets, connect_nodes, connect_clusters, connect}
use raft_lsmt.Client.Write.Ready.{IsReady}
use raft_lsmt.Setup.{NodeData, ConfigData, nodes_of, load_clusters, Network, set_up}

-- A configuration with a cluster, and no cluster without nodes.
abbrev pub IsConfig : ConfigData → Type 0
IsConfig config_data = (config_data ≢ []) × All (λ p. p.1 ≢ []) config_data

nodes_of_named :
    (c : String) (nodes_data : List NodeData)
    → All (λ n. n.cluster_name ≡ c) (nodes_of c nodes_data)
unfolding nodes_of
nodes_of_named c [] = tt
nodes_of_named c (n ∷ nodes_data) = (refl, nodes_of_named c nodes_data)

nodes_of-IsCluster :
    (c : String) (nodes_data : List NodeData)
    → nodes_data ≢ []
    → IsCluster c (nodes_of c nodes_data)
unfolding nodes_of
nodes_of-IsCluster c [] h = absurd (h refl)
nodes_of-IsCluster c (n ∷ nodes_data) h = (λ e. cc, nodes_of_named c (n ∷ nodes_data))

set-IsTopology :
    (clusters : Names.Clusters) (c : String) (nodes : List Node)
    → IsTopology clusters
    → IsCluster c nodes
    → IsTopology (Dict.set clusters c nodes)
unfolding Dict.set
set-IsTopology [] c nodes ht hc = (hc, tt)
set-IsTopology ((name, old) ∷ rest) c nodes ht hc = elim (Bool-cases (name == c)) [
  | inl same ↦
      rw same (subst (λ k. IsCluster k nodes) (sym ((string_key.same_iff name c).0 same)) hc, ht.1)
  | inr other ↦ rw other (ht.0, set-IsTopology rest c nodes ht.1 hc)
]

load-IsTopology :
    (clusters : Names.Clusters) (config_data : ConfigData)
    → IsTopology clusters
    → All (λ p. p.1 ≢ []) config_data
    → IsTopology (load_clusters clusters config_data)
unfolding load_clusters
load-IsTopology clusters [] ht h = ht
load-IsTopology clusters ((c, nodes_data) ∷ rest) ht h =
    load-IsTopology (Dict.set clusters c (nodes_of c nodes_data)) rest
      (set-IsTopology clusters c _ ht (nodes_of-IsCluster c nodes_data h.0)) h.1

set_some :
    (clusters : Names.Clusters) (c : String) (nodes : List Node) → Dict.set clusters c nodes ≢ []
unfolding Dict.set
set_some [] c nodes e = cc
set_some ((name, old) ∷ rest) c nodes e = elim (Bool-cases (name == c)) [
  | inl same ↦ cc (rw same at e)
  | inr other ↦ cc (rw other at e)
]

load_some :
    (clusters : Names.Clusters) (config_data : ConfigData)
    → clusters ≢ []
    → load_clusters clusters config_data ≢ []
unfolding load_clusters
load_some clusters [] h = h
load_some clusters ((c, nodes_data) ∷ rest) h =
    load_some (Dict.set clusters c (nodes_of c nodes_data)) rest (set_some clusters c _)

load_clusters_some :
    (config_data : ConfigData) → config_data ≢ [] → load_clusters [] config_data ≢ []
unfolding load_clusters
load_clusters_some [] h = absurd (h refl)
load_clusters_some ((c, nodes_data) ∷ rest) h =
    load_some (Dict.set [] c (nodes_of c nodes_data)) rest (set_some [] c _)

module _ (readable : ℕ → Bool) (dial : String → ℕ → Outcome ℕ) where
  connect_nodes-IsRegistry :
      (nodes : List Node) (self : Sockets) (registry : LeaderRegistry)
      → IsRegistry registry
      → IsRegistry (connect_nodes readable dial nodes self registry).1
  unfolding connect_nodes
  connect_nodes-IsRegistry [] self registry h = h
  connect_nodes-IsRegistry (node ∷ nodes) self registry h =
      elim (Outcome-cases (dial node.host node.port)) [
        | inr (x, refused) ↦
            rw (refused, connect_nodes) (connect_nodes-IsRegistry nodes self registry h)
        | inl (sock, open_) ↦ elim (Bool-cases (readable sock)) [
          | inl redirects ↦
              rw (open_, redirects, connect_nodes) (connect_nodes-IsRegistry nodes _ registry h)
          | inr silent ↦ rw (open_, silent, connect_nodes) (set_leader-IsRegistry registry node h)
        ]
      ]

  connect-IsRegistry :
      (clusters : Names.Clusters) (self : Sockets) (registry : LeaderRegistry)
      → IsRegistry registry
      → IsRegistry (connect_clusters readable dial clusters self registry).1
  unfolding connect_clusters
  connect-IsRegistry [] self registry h = h
  connect-IsRegistry ((c, nodes) ∷ rest) self registry h =
      connect-IsRegistry rest _ _ (connect_nodes-IsRegistry nodes self registry h)

-- What the theorems on the client ask of it: batches of at least one record, a buffer without two
-- lists for one node, leaders and nodes under their own clusters' names, and a cluster.
pub record IsSetUp (strategy : RoutingStrategy) (config_data : ConfigData) (client : DbClient)
    : Type 0 where
  pub ready : IsReady client
  pub buffer : client.write_buffer ≡ []
  pub strategy_kept : client.router.strategy ≡ strategy
  pub same_clusters : client.clusters ≡ client.router.clusters
  pub loaded : client.router.clusters ≡ load_clusters [] config_data
  pub registry : IsRegistry client.router.leader_registry
  pub topology : IsTopology client.router.clusters
  pub some_cluster : client.router.clusters ≢ []

-- A client that is set up from a configuration with a cluster, and no cluster without nodes, meets
-- all this, whatever the connections did.
pub set_up-IsSetUp :
    (network : Network) (client_config : DbClientConfig) (strategy : RoutingStrategy)
    (config_data : ConfigData)
    → 0 < client_config.batch_size
    → IsConfig config_data
    → IsSetUp strategy config_data (set_up network client_config strategy config_data).0
unfolding set_up Db.init Router.init update_topology connect
set_up-IsSetUp network client_config strategy config_data pos h = record {
  ready = (pos, tt);
  buffer = refl;
  strategy_kept = refl;
  same_clusters = refl;
  loaded = refl;
  registry =
      connect-IsRegistry network.readable network.dial (load_clusters [] config_data) _ _
        IsRegistry-init;
  topology = load-IsTopology [] config_data tt h.1;
  some_cluster = load_clusters_some config_data h.0;
}
