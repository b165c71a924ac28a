-- ===== src/Client/Routing/Router/Total.antt =====
-- Whether an insertion finds a node, in every strategy.
use native.Mathlib.Nat.{div-add-mod, mod-lt}
use raft_lsmt.Client.Routing.RoundRobin.{RoundRobinRoutingStrategy}
use raft_lsmt.Base.{
  ◌≤◌, ◌∷◌, ℕ, ◌^◌, ◌<◌, ◌≡◌, ◌≢◌, some, List, [], arith, length, ok, Member, ◌-◌, ◌+◌, ◌/◌,
  get_elem?, get_elem?-All, All-Member, String,
}
use raft_lsmt.Base.Dict.{keys}
use raft_lsmt.Client.Datatypes.{Node, Record}
use raft_lsmt.Client.Registry.{LeaderRegistry, IsRegistry}
use raft_lsmt.Client.Routing.Names.{Clusters, cluster_names, cluster_names_pos, All-sorted}
use raft_lsmt.Client.Routing.Each.{IsTopology}
use raft_lsmt.Client.Routing.Target.{node_at_total}
use raft_lsmt.Client.Routing.Range.{RangeRoutingStrategy, chunk_size}
use raft_lsmt.Client.Routing.Range
use raft_lsmt.Client.Routing.Range.Blocks.{target_index-InBlock}
use raft_lsmt.Client.Routing.Hash
use raft_lsmt.Client.Routing.RoundRobin
use raft_lsmt.Client.Routing.ByKey
use raft_lsmt.Client.Routing.Router.{
  RoutingStrategy, range, hash, round_robin, leader, Router, strategy_insert, get_node_insert,
}

-- A name at an index of the sorted names is a key of the cluster map.
pub name_at-Member :
    (clusters : Clusters) (i : ℕ) (c : String)
    → get_elem? (cluster_names clusters) i ≡ some c
    → Member c (keys clusters)
unfolding cluster_names
name_at-Member clusters i c e =
    get_elem?-All (λ k. Member k (keys clusters)) (cluster_names clusters) i c
      (All-sorted (λ k. Member k (keys clusters)) (keys clusters) (All-Member (keys clusters))) e

-- What a strategy asks of a record before it can route it: a keyspace for Range, 64-bit numbers for
-- Hash, and nothing for the other two.
abbrev pub CanRoute : RoutingStrategy → Record → Type 0
CanRoute (range s) rec = 0 < s.max_keyspace
CanRoute (hash s) rec = (rec.key_id < 2 ^ 64) × (rec.timestamp < 2 ^ 64)
CanRoute (round_robin s) rec = Unit {0}
CanRoute (leader s) rec = Unit {0}

div_pos : (a d : ℕ) → 0 < d → d ≤ a → 0 < a / d
div_pos a d h k = grind (arith, div-add-mod a d, mod-lt a {m = d} h)

chunk_size_pos : (m n : ℕ) → 0 < m → 0 < n → (chunk : ℕ) × (chunk_size m n ≡ ok chunk) × (0 < chunk)
unfolding chunk_size
chunk_size_pos m n hm hn = ((m + n - 1) / n, ground arith, div_pos (m + n - 1) n hn (omega arith))

-- With a keyspace and a cluster, every key has a block, and the block a node.
range_total :
    (s : RangeRoutingStrategy) (rec : Record) (registry : LeaderRegistry) (clusters : Clusters)
    → IsRegistry registry
    → IsTopology clusters
    → clusters ≢ []
    → 0 < s.max_keyspace
    → (node : Node) × (Range.get_node_insert s rec registry clusters ≡ ok (some node))
      × Member node.cluster_name (keys clusters)
unfolding Range.get_node_insert
range_total s rec registry clusters hr ht ne hm =
    let n = length (cluster_names clusters) in
    let pos = cluster_names_pos clusters ne in
    let (chunk, ec, hc) = chunk_size_pos s.max_keyspace n hm pos in
    let (i, ei, block) = target_index-InBlock chunk n rec.key_id hc pos in
    let (node, en, named) = node_at_total clusters registry i hr ht block.0 in
    (node, rw (ec, ei, en), name_at-Member clusters i node.cluster_name named)

round_robin_total :
    (s : RoundRobinRoutingStrategy) (rec : Record) (registry : LeaderRegistry) (clusters : Clusters)
    → IsRegistry registry
    → IsTopology clusters
    → clusters ≢ []
    → (node : Node) × ((RoundRobin.get_node_insert s rec registry clusters).0 ≡ ok (some node))
      × Member node.cluster_name (keys clusters)
round_robin_total s rec registry clusters hr ht ne =
    let (node, en, named) =
      RoundRobin.inserts_rotate s (rec ∷ []) 0 registry clusters hr ht ne (omega arith) in
    (node, unfold RoundRobin.inserts in cc en, name_at-Member clusters _ node.cluster_name named)

strategy_total :
    (md5 : List ℕ → List ℕ) (s : RoutingStrategy) (rec : Record) (registry : LeaderRegistry)
    (clusters : Clusters)
    → IsRegistry registry
    → IsTopology clusters
    → clusters ≢ []
    → CanRoute s rec
    → (node : Node) × ((strategy_insert md5 s rec registry clusters).0 ≡ ok (some node))
      × Member node.cluster_name (keys clusters)
unfolding strategy_insert
strategy_total md5 (range s) rec registry clusters hr ht ne h =
    range_total s rec registry clusters hr ht ne h
strategy_total md5 (hash s) rec registry clusters hr ht ne h =
    let (node, en, named) = Hash.hash_insert_total md5 s rec registry clusters hr ht ne h.0 h.1 in
    (node, en, name_at-Member clusters _ node.cluster_name named)
strategy_total md5 (round_robin s) rec registry clusters hr ht ne h =
    round_robin_total s rec registry clusters hr ht ne
strategy_total md5 (leader s) rec registry clusters hr ht ne h =
    let (node, en, named) = ByKey.leader_insert_total s rec registry clusters hr ht ne in
    (node, en, name_at-Member clusters _ node.cluster_name named)

-- On a cluster map with a cluster, each of whose clusters has a node and only nodes of its own name,
-- with a registry that lists leaders under the names of their own clusters: every record that the
-- strategy can route is routed, without an exception, to a node that carries the name of a cluster
-- of the map.
pub routes_every_record :
    (md5 : List ℕ → List ℕ) (router : Router) (rec : Record)
    → IsRegistry router.leader_registry
    → IsTopology router.clusters
    → router.clusters ≢ []
    → CanRoute router.strategy rec
    → (node : Node) × ((get_node_insert md5 router rec).0 ≡ ok (some node))
      × Member node.cluster_name (keys router.clusters)
unfolding get_node_insert
routes_every_record md5 router rec hr ht ne h =
    strategy_total md5 router.strategy rec router.leader_registry router.clusters hr ht ne h
