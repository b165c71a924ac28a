-- ===== src/Client/Routing/Target.antt =====
-- client/routing_strats.py, the end that `get_node_insert` has in every strategy: the cluster of an
-- index, and its leader or first node.
use raft_lsmt.Base.{
  ℕ, ◌%◌, ◌==◌, nat_key, if◌then◌else◌, zero_division, ◌<◌, String, ◌≡◌, refl, sym, ◌∙◌, ap, Option,
  none, some, List, [], ◌∷◌, arith, length, get_elem?, get_elem?_lt, get_elem?-All, All, All-imp,
  Outcome, ok, raise, ◌>>=◌, bind_ok, Exception, index_error, key_error, string_key,
}
use raft_lsmt.Base.Dict
use raft_lsmt.Base.Dict.{get-All, get-keys, keys}
use raft_lsmt.Client.Datatypes.{Node}
use raft_lsmt.Client.Registry.{LeaderRegistry, get_leader, IsRegistry}
use raft_lsmt.Client.Routing.Names.{Clusters, cluster_names, All-sorted}
use raft_lsmt.Client.Routing.Select.{leader_or_first}
use raft_lsmt.Client.Routing.Each.{IsCluster, IsTopology}

-- `xs[i]` and `d[k]`.
unfoldable pub or_raise {ℓ} : {A : Type ℓ} → Option A → Exception → Outcome A
or_raise none x = raise x
or_raise (some a) x = ok a

pub or_raise_ok {ℓ} :
    {A : Type ℓ} (o : Option A) (x : Exception) (a : A) → or_raise o x ≡ ok a → o ≡ some a
unfolding or_raise
or_raise_ok none x a e = cc
or_raise_ok (some b) x a e = cc

unfoldable pub node_at : List String → ℕ → LeaderRegistry → Clusters → Outcome (Option Node)
node_at names idx registry clusters = do
  target_cluster ← or_raise (get_elem? names idx) index_error
  nodes ← or_raise (Dict.get clusters target_cluster) key_error
  ok (leader_or_first (get_leader registry target_cluster) nodes)

-- A name of the cluster map, with its nodes.
abbrev pub Entry : Clusters → String → Type 0
Entry clusters c = (nodes : List Node) × (Dict.get clusters c ≡ some nodes) × IsCluster c nodes

pub cluster_names-Entry :
    (clusters : Clusters) → IsTopology clusters → All (Entry clusters) (cluster_names clusters)
unfolding cluster_names
cluster_names-Entry clusters ht = All-sorted (Entry clusters) (keys clusters) (
    All-imp (λ c. (nodes : List Node) × (Dict.get clusters c ≡ some nodes)) (Entry clusters)
      (keys clusters) (λ c p. (p.0, p.1, get-All IsCluster clusters c p.0 ht p.1))
      (get-keys clusters))

leader_or_first_name :
    (c : String) (leader : Option Node) (nodes : List Node)
    → ((l : Node) → leader ≡ some l → l.cluster_name ≡ c)
    → IsCluster c nodes
    → (node : Node) × (leader_or_first leader nodes ≡ some node) × (node.cluster_name ≡ c)
unfolding leader_or_first
leader_or_first_name c (some l) nodes hl h = (l, refl, hl l refl)
leader_or_first_name c none [] hl h = absurd (h.0 refl)
leader_or_first_name c none (n ∷ ns) hl h = (n, refl, h.1.0)

-- An index inside the sorted names leads to a node of the cluster of that name.
pub node_at_total :
    (clusters : Clusters) (registry : LeaderRegistry) (idx : ℕ)
    → IsRegistry registry
    → IsTopology clusters
    → idx < length (cluster_names clusters)
    → (node : Node) × (node_at (cluster_names clusters) idx registry clusters ≡ ok (some node))
      × (get_elem? (cluster_names clusters) idx ≡ some node.cluster_name)
unfolding node_at or_raise
node_at_total clusters registry idx hr ht h =
    let names = cluster_names clusters in
    let (c, ec) = get_elem?_lt names idx h in
    let (nodes, en, hc) =
      get_elem?-All (Entry clusters) names idx c (cluster_names-Entry clusters ht) ec in
    let (node, el, same) = leader_or_first_name c (get_leader registry c) nodes (hr c) hc in
    (node, rw (ec, or_raise, en, el), ec ∙ ap some (sym same))

-- Where an index leads to a node, the node carries the name at that index.
pub node_at_inv :
    (clusters : Clusters) (registry : LeaderRegistry) (idx : ℕ) (node : Node)
    → IsRegistry registry
    → IsTopology clusters
    → node_at (cluster_names clusters) idx registry clusters ≡ ok (some node)
    → get_elem? (cluster_names clusters) idx ≡ some node.cluster_name
unfolding node_at
node_at_inv clusters registry idx node hr ht e =
    let names = cluster_names clusters in
    let (c, e1, k1) = bind_ok (or_raise (get_elem? names idx) index_error) _ e in
    let (nodes, e2, k2) = bind_ok (or_raise (Dict.get clusters c) key_error) _ k1 in
    let hc = get-All IsCluster clusters c nodes ht (or_raise_ok _ key_error nodes e2) in
    let (n, el, same) = leader_or_first_name c (get_leader registry c) nodes (hr c) hc in
    let same_node : n ≡ node = cc in
    or_raise_ok _ index_error c e1
    ∙ ap some (sym same ∙ ap (λ (t : Node). t.cluster_name) same_node)

-- `h % len(cluster_names)`: a remainder by zero raises.
unfoldable pub modulo : ℕ → ℕ → Outcome ℕ
modulo h n = if n == 0 then raise zero_division else ok (h % n)

pub modulo_pos : (h n : ℕ) → 0 < n → modulo h n ≡ ok (h % n)
unfolding modulo
modulo_pos h n p = ground arith
