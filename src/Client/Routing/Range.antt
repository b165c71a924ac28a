-- ===== src/Client/Routing/Range.antt =====
-- client/routing_strats.py, class RangeRoutingStrategy: contiguous blocks of keys.
pub mod Blocks
pub mod Coverage
use raft_lsmt.Base.{
  ℕ, suc, ◌+◌, ◌-◌, ◌*◌, ◌/◌, String, Bool, true, false, ◌&&◌, ◌||◌, Option, none, some, List, [],
  ◌∷◌, ◌==◌, nat_key, string_key, leb, if◌then◌else◌, length, get_elem?, min, Outcome, ok, raise,
  ◌>>=◌, zero_division, index_error, key_error,
}
use raft_lsmt.Base.Dict
use raft_lsmt.Base.Dict.{Dict}
use raft_lsmt.Client.Datatypes.{Node, Record, QueryRequest}
use raft_lsmt.Client.Registry.{LeaderRegistry, get_leader}
use raft_lsmt.Client.Routing.Names.{Clusters, cluster_names}
use raft_lsmt.Client.Routing.Select.{leader_or_first, select_follower_round_robin}
use raft_lsmt.Client.Routing.Each.{keep}
use raft_lsmt.Client.Routing.Target.{node_at, or_raise}

pub record RangeRoutingStrategy : Type 0 where
  pub max_keyspace : ℕ
  pub query_indices : Dict String ℕ

abbrev pub init : ℕ → RangeRoutingStrategy
init max_keyspace = record { max_keyspace = max_keyspace; query_indices = [] }

-- `math.ceil(self.max_keyspace / num_clusters)`. Python divides in double precision, which rounds
-- up to the same integer for a keyspace below 2 ^ 53.
unfoldable pub chunk_size : ℕ → ℕ → Outcome ℕ
chunk_size max_keyspace num_clusters =
    if num_clusters == 0
    then raise zero_division
    else ok ((max_keyspace + num_clusters - 1) / num_clusters)

-- `min(max(0, key_id - 1) // chunk_size, num_clusters - 1)`; `-` on ℕ stops at 0 as `max` does.
unfoldable pub target_index : ℕ → ℕ → ℕ → Outcome ℕ
target_index chunk num_clusters key_id =
    if chunk == 0 then raise zero_division else ok (min ((key_id - 1) / chunk) (num_clusters - 1))

unfoldable pub get_node_insert :
    RangeRoutingStrategy → Record → LeaderRegistry → Clusters → Outcome (Option Node)
get_node_insert strategy rec registry clusters = do
  let names = cluster_names clusters
  chunk ← chunk_size strategy.max_keyspace (length names)
  target_idx ← target_index chunk (length names) rec.key_id
  node_at names target_idx registry clusters

-- Whether `[min_id, max_id]` meets the block number `idx`; the first block has no lower end, and
-- the last one no upper end.
unfoldable pub meets_block : ℕ → ℕ → ℕ → QueryRequest → Bool
meets_block chunk num_clusters idx query =
    (idx == num_clusters - 1 || leb query.min_id ((idx + 1) * chunk))
    && (idx == 0 || leb (idx * chunk + 1) query.max_id)

-- The loop over `enumerate(cluster_names)`, from the index `idx` on.
unfoldable pub query_blocks :
    ℕ
    → ℕ
    → ℕ
    → List String
    → QueryRequest
    → LeaderRegistry
    → Clusters
    → Dict String ℕ
    → Outcome (List Node × Dict String ℕ)
query_blocks chunk num_clusters idx [] query registry clusters indices = ok ([], indices)
query_blocks chunk num_clusters idx (c ∷ cs) query registry clusters indices =
    elim (meets_block chunk num_clusters idx query) [
      | false ↦ query_blocks chunk num_clusters (suc idx) cs query registry clusters indices
      | true ↦ or_raise (Dict.get clusters c) key_error >>= λ nodes.
          let turn = select_follower_round_robin c nodes (get_leader registry c) indices in
          query_blocks chunk num_clusters (suc idx) cs query registry clusters turn.1 >>= λ later.
          ok (keep turn.0 later.0, later.1)
    ]

unfoldable pub get_node_query :
    RangeRoutingStrategy
    → QueryRequest
    → LeaderRegistry
    → Clusters
    → Outcome (List Node × RangeRoutingStrategy)
get_node_query strategy query registry clusters = do
  let names = cluster_names clusters
  elim (length names == 0) [
    | true ↦ ok ([], strategy)
    | false ↦ do
      chunk ← chunk_size strategy.max_keyspace (length names)
      result ←
          query_blocks chunk (length names) 0 names query registry clusters strategy.query_indices
      ok (result.0, record strategy { query_indices = result.1 })
  ]
