-- ===== src/Client/Routing/Router/Reach.antt =====
-- A query reaches the cluster of every record that it may return, in every strategy.
use raft_lsmt.Base.{
  ℕ, ◌%◌, ◌≤◌, ◌≡◌, refl, some, List, ok, bind_ok, Any, Member, String, length, ◌==◌, nat_key,
  Bool-cases, inl, inr,
}
use raft_lsmt.Base.Dict.{Dict, keys}
use raft_lsmt.Client.Datatypes.{Node, Record, QueryRequest}
use raft_lsmt.Client.Registry.{LeaderRegistry, IsRegistry}
use raft_lsmt.Client.Struct.{pack_qq, of_be}
use raft_lsmt.Client.Routing.Names.{Clusters, cluster_names}
use raft_lsmt.Client.Routing.Each.{IsTopology, query_each, query_each_covers}
use raft_lsmt.Client.Routing.Target.{node_at_inv, modulo}
use raft_lsmt.Client.Routing.Range.{RangeRoutingStrategy, chunk_size, target_index}
use raft_lsmt.Client.Routing.Range
use raft_lsmt.Client.Routing.Range.Coverage.{range_coverage, Member-map}
use raft_lsmt.Client.Routing.Hash
use raft_lsmt.Client.Routing.RoundRobin
use raft_lsmt.Client.Routing.ByKey
use raft_lsmt.Client.Routing.Router.{
  RoutingStrategy, range, hash, round_robin, leader, Router, strategy_insert, strategy_query,
  get_node_insert, get_nodes_for_read,
}
use raft_lsmt.Client.Routing.Router.Total.{name_at-Member}

-- Where the strategy that asks is Range, the one that routed the record is Range over the same
-- keyspace; their counters may differ. Every other strategy asks all clusters.
abbrev pub IsRangeOver : ℕ → RoutingStrategy → Type 0
IsRangeOver max_keyspace (range s) = max_keyspace ≡ s.max_keyspace
IsRangeOver max_keyspace (hash s) = ⊥
IsRangeOver max_keyspace (round_robin s) = ⊥
IsRangeOver max_keyspace (leader s) = ⊥

abbrev pub IsCovered : RoutingStrategy → RoutingStrategy → Type 0
IsCovered s (range t) = IsRangeOver t.max_keyspace s
IsCovered s (hash t) = Unit {0}
IsCovered s (round_robin t) = Unit {0}
IsCovered s (leader t) = Unit {0}

-- The loop over every cluster asks a node of each key.
each_reaches :
    (clusters : Clusters) (registry : LeaderRegistry) (indices : Dict String ℕ) (c : String)
    → IsRegistry registry
    → IsTopology clusters
    → Member c (keys clusters)
    → Any (λ m. m.cluster_name ≡ c) (query_each clusters registry indices).0
each_reaches clusters registry indices c hr ht m =
    Member-map (λ n. n.cluster_name) c (query_each clusters registry indices).0
      (rw (query_each_covers clusters registry indices hr ht) m)

round_robin_name :
    (s : RoundRobin.RoundRobinRoutingStrategy) (rec : Record) (registry : LeaderRegistry)
    (clusters : Clusters) (node : Node)
    → IsRegistry registry
    → IsTopology clusters
    → (RoundRobin.get_node_insert s rec registry clusters).0 ≡ ok (some node)
    → Member node.cluster_name (keys clusters)
unfolding RoundRobin.get_node_insert
round_robin_name s rec registry clusters node hr ht e =
    let names = cluster_names clusters in
    let i = s.counter % length names in
    elim (Bool-cases (length names == 0)) [
      | inl empty ↦ cc (rw (empty, RoundRobin.get_node_insert) at e)
      | inr some_name ↦ name_at-Member clusters i node.cluster_name (
          node_at_inv clusters registry i node hr ht
            (rw (some_name, RoundRobin.get_node_insert) at e))
    ]

hash_name :
    (md5 : List ℕ → List ℕ) (s : Hash.HashRoutingStrategy) (rec : Record)
    (registry : LeaderRegistry) (clusters : Clusters) (node : Node)
    → IsRegistry registry
    → IsTopology clusters
    → Hash.get_node_insert md5 s rec registry clusters ≡ ok (some node)
    → Member node.cluster_name (keys clusters)
unfolding Hash.get_node_insert
hash_name md5 s rec registry clusters node hr ht e =
    let (val, e1, k1) = bind_ok (pack_qq rec.key_id rec.timestamp) _ e in
    let (i, e2, k2) = bind_ok (modulo (of_be 0 (md5 val)) (length (cluster_names clusters))) _ k1 in
    name_at-Member clusters i node.cluster_name (node_at_inv clusters registry i node hr ht k2)

leader_name :
    (s : ByKey.LeaderRoutingStrategy) (rec : Record) (registry : LeaderRegistry)
    (clusters : Clusters) (node : Node)
    → IsRegistry registry
    → IsTopology clusters
    → ByKey.get_node_insert s rec registry clusters ≡ ok (some node)
    → Member node.cluster_name (keys clusters)
unfolding ByKey.get_node_insert
leader_name s rec registry clusters node hr ht e =
    let (i, e1, k1) = bind_ok (modulo rec.key_id (length (cluster_names clusters))) _ e in
    name_at-Member clusters i node.cluster_name (node_at_inv clusters registry i node hr ht k1)

-- The node lists that a strategy's query may return.
abbrev Reaches : RoutingStrategy → QueryRequest → LeaderRegistry → Clusters → String → Type 0
Reaches s query registry clusters c =
    (r : List Node × RoutingStrategy) × (strategy_query s query registry clusters ≡ ok r)
    × Any (λ m. m.cluster_name ≡ c) r.0

range_name :
    (s : RangeRoutingStrategy) (rec : Record) (registry : LeaderRegistry) (clusters : Clusters)
    (node : Node)
    → IsRegistry registry
    → IsTopology clusters
    → Range.get_node_insert s rec registry clusters ≡ ok (some node)
    → Member node.cluster_name (keys clusters)
unfolding Range.get_node_insert
range_name s rec registry clusters node hr ht e =
    let n = length (cluster_names clusters) in
    let (chunk, e1, k1) = bind_ok (chunk_size s.max_keyspace n) _ e in
    let (i, e2, k2) = bind_ok (target_index chunk n rec.key_id) _ k1 in
    name_at-Member clusters i node.cluster_name (node_at_inv clusters registry i node hr ht k2)

strategy_name :
    (md5 : List ℕ → List ℕ) (s : RoutingStrategy) (rec : Record) (registry : LeaderRegistry)
    (clusters : Clusters) (node : Node)
    → IsRegistry registry
    → IsTopology clusters
    → (strategy_insert md5 s rec registry clusters).0 ≡ ok (some node)
    → Member node.cluster_name (keys clusters)
unfolding strategy_insert
strategy_name md5 (range s) = range_name s
strategy_name md5 (hash s) = hash_name md5 s
strategy_name md5 (round_robin s) = round_robin_name s
strategy_name md5 (leader s) = leader_name s

range-Reaches :
    (md5 : List ℕ → List ℕ) (s : RoutingStrategy) (t : RangeRoutingStrategy) (rec : Record)
    (query : QueryRequest) (registry registry' : LeaderRegistry) (clusters : Clusters) (node : Node)
    → IsRangeOver t.max_keyspace s
    → IsRegistry registry
    → IsRegistry registry'
    → IsTopology clusters
    → (strategy_insert md5 s rec registry clusters).0 ≡ ok (some node)
    → query.min_id ≤ rec.key_id
    → rec.key_id ≤ query.max_id
    → Reaches (range t) query registry' clusters node.cluster_name
unfolding strategy_insert strategy_query
range-Reaches md5 (range s) t rec query g g' clusters node same hg hg' ht e lo hi =
    let (r, er, any) = range_coverage s t rec query g g' clusters node same hg hg' ht e lo hi in
    ((r.0, range r.1), rw er, any)
range-Reaches md5 (hash s) t rec query g g' clusters node same hg hg' ht e lo hi = absurd same
range-Reaches md5 (round_robin s) t rec query g g' clusters node same hg hg' ht e lo hi =
    absurd same
range-Reaches md5 (leader s) t rec query g g' clusters node same hg hg' ht e lo hi = absurd same

strategy-Reaches :
    (md5 : List ℕ → List ℕ) (s t : RoutingStrategy) (rec : Record) (query : QueryRequest)
    (registry registry' : LeaderRegistry) (clusters : Clusters) (node : Node)
    → IsCovered s t
    → IsRegistry registry
    → IsRegistry registry'
    → IsTopology clusters
    → (strategy_insert md5 s rec registry clusters).0 ≡ ok (some node)
    → query.min_id ≤ rec.key_id
    → rec.key_id ≤ query.max_id
    → Reaches t query registry' clusters node.cluster_name
unfolding strategy_query Hash.get_node_query RoundRobin.get_node_query ByKey.get_node_query
strategy-Reaches md5 s (range t) rec query g g' clusters node same hg hg' ht e lo hi =
    range-Reaches md5 s t rec query g g' clusters node same hg hg' ht e lo hi
strategy-Reaches md5 s (hash t) rec query g g' clusters node same hg hg' ht e lo hi =
    let named = strategy_name md5 s rec g clusters node hg ht e in
    (_, refl, each_reaches clusters g' t.query_indices node.cluster_name hg' ht named)
strategy-Reaches md5 s (round_robin t) rec query g g' clusters node same hg hg' ht e lo hi =
    let named = strategy_name md5 s rec g clusters node hg ht e in
    (_, refl, each_reaches clusters g' t.query_indices node.cluster_name hg' ht named)
strategy-Reaches md5 s (leader t) rec query g g' clusters node same hg hg' ht e lo hi =
    let named = strategy_name md5 s rec g clusters node hg ht e in
    (_, refl, each_reaches clusters g' t.query_indices node.cluster_name hg' ht named)

-- For a record that one router sent to a node, and a query whose interval of keys holds the
-- record's key: a router over the same clusters, with a strategy other than Range, or with Range where
-- the record was routed by Range over the same keyspace, in whatever state of its counters and of the
-- leaders, answers the query without an exception, and asks a node of the cluster that the record
-- went to.
pub read_reaches_insert :
    (md5 : List ℕ → List ℕ) (router router' : Router) (rec : Record) (query : QueryRequest)
    (node : Node)
    → IsCovered router.strategy router'.strategy
    → router'.clusters ≡ router.clusters
    → IsRegistry router.leader_registry
    → IsRegistry router'.leader_registry
    → IsTopology router.clusters
    → (get_node_insert md5 router rec).0 ≡ ok (some node)
    → query.min_id ≤ rec.key_id
    → rec.key_id ≤ query.max_id
    → (r : List Node × Router) × (get_nodes_for_read router' query ≡ ok r)
      × Any (λ m. m.cluster_name ≡ node.cluster_name) r.0
unfolding get_node_insert get_nodes_for_read
read_reaches_insert md5 router router' rec query node same sc hg hg' ht e lo hi =
    let (r, er, any) =
      strategy-Reaches md5 router.strategy router'.strategy rec query router.leader_registry
        router'.leader_registry router.clusters node same hg hg' ht e lo hi in
    ((r.0, record router' { strategy = r.1 }), rw (sc, er), any)
