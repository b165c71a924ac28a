-- ===== src/Client/Routing/Hash.antt =====
-- client/routing_strats.py, class HashRoutingStrategy. `hashlib.md5` is an argument: a function from
-- the bytes hashed to the bytes of the digest.
use raft_lsmt.Base.{
  ℕ, ◌%◌, ◌^◌, ◌<◌, String, ◌≡◌, ◌≢◌, Option, some, List, [], length, nat_key, get_elem?, Outcome,
  ok, raise, ◌>>=◌, struct_error, ◌++◌,
}
use raft_lsmt.Base.Dict.{Dict}
use raft_lsmt.Client.Datatypes.{Node, Record, QueryRequest}
use raft_lsmt.Client.Registry.{LeaderRegistry, IsRegistry}
use raft_lsmt.Client.Struct.{pack_qq, to_le, of_be, pack_qq_fits, pack_qq_too_big}
use raft_lsmt.Client.Routing.Names.{Clusters, cluster_names, cluster_names_pos}
use raft_lsmt.Client.Routing.Each.{query_each, IsTopology}
use raft_lsmt.Client.Routing.Target.{node_at, node_at_total, modulo, modulo_pos}
use native.Mathlib.Nat.{mod-lt}

pub record HashRoutingStrategy : Type 0 where
  pub query_indices : Dict String ℕ

abbrev pub init : HashRoutingStrategy
init = record { query_indices = [] }

unfoldable pub get_node_query :
    HashRoutingStrategy
    → QueryRequest
    → LeaderRegistry
    → Clusters
    → Outcome (List Node × HashRoutingStrategy)
get_node_query strategy query registry clusters =
    let result = query_each clusters registry strategy.query_indices in
    ok (result.0, record { query_indices = result.1 })

module _ (md5 : List ℕ → List ℕ) where
  unfoldable pub get_node_insert :
      HashRoutingStrategy → Record → LeaderRegistry → Clusters → Outcome (Option Node)
  get_node_insert strategy rec registry clusters = do
    val ← pack_qq rec.key_id rec.timestamp
    idx ← modulo (of_be 0 (md5 val)) (length (cluster_names clusters))
    node_at (cluster_names clusters) idx registry clusters

  -- A record whose key and timestamp fit 64 bits goes to the cluster that the digest of the two
  -- names, and there is one for every digest.
  pub hash_insert_total :
      (strategy : HashRoutingStrategy) (rec : Record) (registry : LeaderRegistry)
      (clusters : Clusters)
      → IsRegistry registry
      → IsTopology clusters
      → clusters ≢ []
      → rec.key_id < 2 ^ 64
      → rec.timestamp < 2 ^ 64
      → let n = length (cluster_names clusters) in
        let digest = of_be 0 (md5 (to_le 8 rec.key_id ++ to_le 8 rec.timestamp)) in
        (node : Node) × (get_node_insert strategy rec registry clusters ≡ ok (some node))
        × (get_elem? (cluster_names clusters) (digest % n) ≡ some node.cluster_name)
  unfolding get_node_insert
  hash_insert_total strategy rec registry clusters hr ht ne hk hts =
      let n = length (cluster_names clusters) in
      let digest = of_be 0 (md5 (to_le 8 rec.key_id ++ to_le 8 rec.timestamp)) in
      let pos = cluster_names_pos clusters ne in
      let (node, en, named) =
        node_at_total clusters registry (digest % n) hr ht (mod-lt digest pos) in
      (node, rw (pack_qq_fits _ _ hk hts, modulo_pos digest n pos, en), named)

  -- A key or a timestamp that does not fit 64 bits raises `struct.error` before any routing.
  pub hash_insert_too_big :
      (strategy : HashRoutingStrategy) (rec : Record) (registry : LeaderRegistry)
      (clusters : Clusters)
      → ¬ ((rec.key_id < 2 ^ 64) × (rec.timestamp < 2 ^ 64))
      → get_node_insert strategy rec registry clusters ≡ raise struct_error
  unfolding get_node_insert
  hash_insert_too_big strategy rec registry clusters h =
      rw (pack_qq_too_big rec.key_id rec.timestamp h)
