-- ===== src/Client/Routing/Range/Coverage.antt =====
-- A query asks the cluster of every record that it may return.
use raft_lsmt.Base.{
  ℕ, zero, suc, ◌+◌, ◌≤◌, ◌<◌, ◌==◌, nat_key, ◌≡◌, refl, inl, inr, true, false, String, some, List,
  [], ◌∷◌, map, arith, length, get_elem?, All, Any, here, there, Member, ok, bind_ok, Bool-cases,
  if◌then◌else◌, string_key,
}
use mathlib.Core.Path.{subst}
use native.Mathlib.Nat.{add-zero}
use raft_lsmt.Base.Dict.{Dict}
use raft_lsmt.Client.Datatypes.{Node, Record, QueryRequest}
use raft_lsmt.Client.Registry.{LeaderRegistry, get_leader, IsRegistry}
use raft_lsmt.Client.Routing.Names.{Clusters, cluster_names}
use raft_lsmt.Client.Routing.Select.{select_follower_round_robin}
use raft_lsmt.Client.Routing.Target.{or_raise, Entry, cluster_names-Entry, node_at_inv}
use raft_lsmt.Client.Routing.Each.{IsTopology, select_in_cluster}
use raft_lsmt.Client.Routing.Range.{
  RangeRoutingStrategy, chunk_size, target_index, or_raise, get_node_insert, meets_block,
  query_blocks, get_node_query,
}
use raft_lsmt.Client.Routing.Range.Blocks.{target_index-InBlock, meets_block_of_key}

-- The names, from the index `idx` on, whose blocks the query meets.
blocks_met : ℕ → ℕ → ℕ → List String → QueryRequest → List String
blocks_met chunk n idx [] query = []
blocks_met chunk n idx (c ∷ cs) query =
    let rest = blocks_met chunk n (suc idx) cs query in
    if meets_block chunk n idx query then c ∷ rest else rest

module _ (chunk n : ℕ) (query : QueryRequest) where
  blocks_met-Member :
      (idx j : ℕ) (cs : List String) (c : String)
      → get_elem? cs j ≡ some c
      → meets_block chunk n (idx + j) query ≡ true
      → Member c (blocks_met chunk n idx cs query)
  unfolding blocks_met
  blocks_met-Member idx j [] c e m = cc
  blocks_met-Member idx zero (x ∷ cs) c e m = rw (rw add-zero at m) (here (cc))
  blocks_met-Member idx (suc j) (x ∷ cs) c e m =
      let later =
        blocks_met-Member (suc idx) j cs c e
          (subst (λ (t : ℕ). meets_block chunk n t query ≡ true) (omega arith) m) in
      elim (Bool-cases (meets_block chunk n idx query)) [
        | inl met ↦ rw met (there later)
        | inr missed ↦ rw missed later
      ]

  module _ (registry : LeaderRegistry) (clusters : Clusters) (hr : IsRegistry registry) where
    -- The loop ends without an exception, with one node of each cluster whose block is met.
    query_blocks_lem :
        (idx : ℕ) (cs : List String) (indices : Dict String ℕ)
        → All (Entry clusters) cs
        → (r : List Node × Dict String ℕ) × (query_blocks chunk n idx cs query registry clusters
              indices
            ≡ ok r)
          × (map (λ m. m.cluster_name) r.0 ≡ blocks_met chunk n idx cs query)
    unfolding query_blocks blocks_met or_raise
    query_blocks_lem idx [] indices h = (([], indices), refl, refl)
    query_blocks_lem idx (c ∷ cs) indices h = elim (Bool-cases (meets_block chunk n idx query)) [
      | inl met ↦
          let (nodes, found, hc) = h.0 in
          let (m, e, same) = select_in_cluster c nodes registry indices hr hc in
          let turn = select_follower_round_robin c nodes (get_leader registry c) indices in
          let (r, er, names) = query_blocks_lem (suc idx) cs turn.1 h.1 in
          ((m ∷ r.0, r.1), rw (met, query_blocks, found, or_raise, er, e), rw met (cc))
      | inr missed ↦ rw (missed, query_blocks) (query_blocks_lem (suc idx) cs indices h.1)
    ]

-- What an insertion that returns a node has computed on the way.
pub get_node_insert_inv :
    (strategy : RangeRoutingStrategy) (rec : Record) (registry : LeaderRegistry)
    (clusters : Clusters) (node : Node)
    → IsRegistry registry
    → IsTopology clusters
    → get_node_insert strategy rec registry clusters ≡ ok (some node)
    → (chunk : ℕ) × (i : ℕ) × (chunk_size strategy.max_keyspace (length (cluster_names clusters))
        ≡ ok chunk)
      × (target_index chunk (length (cluster_names clusters)) rec.key_id ≡ ok i)
      × (get_elem? (cluster_names clusters) i ≡ some node.cluster_name)
unfolding get_node_insert
get_node_insert_inv strategy rec registry clusters node hr ht e =
    let names = cluster_names clusters in
    let (chunk, e1, k1) = bind_ok (chunk_size strategy.max_keyspace (length names)) _ e in
    let (i, e2, k2) = bind_ok (target_index chunk (length names) rec.key_id) _ k1 in
    (chunk, i, e1, e2, node_at_inv clusters registry i node hr ht k2)

chunk_size_ok : (m n chunk : ℕ) → chunk_size m n ≡ ok chunk → 0 < n
unfolding chunk_size
chunk_size_ok m n chunk e = ground arith

target_index_ok : (chunk n key i : ℕ) → target_index chunk n key ≡ ok i → 0 < chunk
unfolding target_index
target_index_ok chunk n key i e = ground arith

pub Member-map {ℓ κ} :
    {A : Type ℓ} {B : Type κ} (f : A → B) (b : B) (xs : List A)
    → Member b (map f xs)
    → Any (λ x. f x ≡ b) xs
Member-map f b [] m = elim m [ ]
Member-map f b (x ∷ xs) (here e) = here e
Member-map f b (x ∷ xs) (there m) = there (Member-map f b xs m)

get_node_query_run :
    (strategy : RangeRoutingStrategy) (query : QueryRequest) (registry : LeaderRegistry)
    (clusters : Clusters) (chunk : ℕ) (r : List Node × Dict String ℕ)
    → let n = length (cluster_names clusters) in
      chunk_size strategy.max_keyspace n ≡ ok chunk
      → query_blocks chunk n 0
          (cluster_names clusters)
          query
          registry
          clusters
          strategy.query_indices
        ≡ ok r
      → get_node_query strategy query registry clusters
        ≡ ok (r.0, record strategy { query_indices = r.1 })
unfolding get_node_query
get_node_query_run strategy query registry clusters chunk r ec er =
    let some_name : (length (cluster_names clusters) == 0) ≡ false =
      ground (arith, chunk_size_ok _ _ chunk ec) in
    rw (some_name, get_node_query, ec, er)

-- For a record that was routed to a node, and a query whose interval holds the record's key: a
-- strategy with the same keyspace answers the query without an exception, and asks a node of the
-- cluster that the record went to, whoever leads by then.
pub range_coverage :
    (strategy strategy' : RangeRoutingStrategy) (rec : Record) (query : QueryRequest)
    (registry registry' : LeaderRegistry) (clusters : Clusters) (node : Node)
    → strategy'.max_keyspace ≡ strategy.max_keyspace
    → IsRegistry registry
    → IsRegistry registry'
    → IsTopology clusters
    → get_node_insert strategy rec registry clusters ≡ ok (some node)
    → query.min_id ≤ rec.key_id
    → rec.key_id ≤ query.max_id
    → (r : List Node × RangeRoutingStrategy) × (get_node_query strategy' query registry' clusters
        ≡ ok r)
      × Any (λ m. m.cluster_name ≡ node.cluster_name) r.0
range_coverage strategy strategy' rec query registry registry' clusters node same hr hr' ht e lo
      hi =
    let names = cluster_names clusters in
    let n = length names in
    let (chunk, i, ec, et, ei) = get_node_insert_inv strategy rec registry clusters node hr ht e in
    let (i', et', block) =
      target_index-InBlock chunk n rec.key_id (target_index_ok chunk n rec.key_id i et)
        (chunk_size_ok strategy.max_keyspace n chunk ec) in
    let same_index : i' ≡ i = cc in
    let met = meets_block_of_key chunk n i' query rec.key_id block lo hi in
    let (r, er, asked) =
      query_blocks_lem chunk n query registry' clusters hr' 0 names strategy'.query_indices
        (cluster_names-Entry clusters ht) in
    let member =
      blocks_met-Member chunk n query 0 i names node.cluster_name ei
        (subst (λ (t : ℕ). meets_block chunk n t query ≡ true) (omega arith) met) in
    (
      (r.0, record strategy' { query_indices = r.1 }),
      get_node_query_run strategy' query registry' clusters chunk r (rw same ec) er,
      Member-map (λ m. m.cluster_name) node.cluster_name r.0 (rw asked member),
    )
