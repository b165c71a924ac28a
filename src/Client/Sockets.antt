-- ===== src/Client/Sockets.antt =====
-- client/dbclient.py, the socket pools of DbClient: `connect`, `disconnect`, `_get_socket` and
-- `_return_socket`. A socket is a number. `dial` is a new connection to a host and a port, and
-- `readable` what `select` says of a socket at the time.
pub mod Fresh
pub mod Leaders
mod Tests
use raft_lsmt.Base.{
  ℕ, ◌+◌, ◌≡◌, ◌↔◌, String, Bool, true, false, ◌&&◌, List, [], ◌∷◌, ◌++◌, arith, if◌then◌else◌,
  Outcome, ok, raise, Key, ◌==◌,
}
use raft_lsmt.Base.Dict
use raft_lsmt.Base.Dict.{Dict}
use raft_lsmt.Base.Lanes.{lane}
use raft_lsmt.Client.Datatypes.{Node, node_key}
use raft_lsmt.Client.Registry.{LeaderRegistry, set_leader}
use raft_lsmt.Client.Routing.Names.{Clusters}

-- The key of a pool: a node, and whether the socket is for queries.
abbrev pub PoolKey : Type 0
PoolKey = Node × Bool

abbrev same_flag : Bool → Bool → Bool
same_flag true b = b
same_flag false true = false
same_flag false false = true

abbrev pub same_pool : PoolKey → PoolKey → Bool
same_pool (n, a) (m, b) = n == m && same_flag a b

pub same_pool_iff : (j k : PoolKey) → (same_pool j k ≡ true) ↔ (j ≡ k)
same_pool_iff (n, true) (m, true) = ground (arith, node_key.same_iff n m)
same_pool_iff (n, true) (m, false) = ground (arith, node_key.same_iff n m)
same_pool_iff (n, false) (m, true) = ground (arith, node_key.same_iff n m)
same_pool_iff (n, false) (m, false) = ground (arith, node_key.same_iff n m)

instance abbrev pub pool_key : Key PoolKey
pool_key = record { same_key = same_pool; same_iff = same_pool_iff }

-- The pools, and the sockets that were closed so far.
pub record Sockets : Type 0 where
  pub pools : Dict PoolKey (List ℕ)
  pub closed : List ℕ

-- What a search of a pool gives: the sockets discarded on the way, and what is left from the first
-- one that is not readable.
unfoldable pub discard_readable : (ℕ → Bool) → List ℕ → List ℕ × List ℕ
discard_readable readable [] = ([], [])
discard_readable readable (sock ∷ socks) =
    let rest = discard_readable readable socks in
    if readable sock then (sock ∷ rest.0, rest.1) else ([], sock ∷ socks)

-- Queries go to a port of their own.
unfoldable pub port_of : Node → Bool → ℕ
port_of node for_query = if for_query then node.port + 1000 else node.port

-- The first socket that is left, or a new connection.
unfoldable pub first_or_dial : Outcome ℕ → List ℕ → Outcome ℕ × List ℕ
first_or_dial dialled [] = (dialled, [])
first_or_dial dialled (sock ∷ socks) = (ok sock, socks)

unfoldable pub get_socket :
    (ℕ → Bool) → (String → ℕ → Outcome ℕ) → Node → Bool → Sockets → Outcome ℕ × Sockets
get_socket readable dial node for_query self =
    let found = discard_readable readable (lane self.pools (node, for_query)) in
    let taken = first_or_dial (dial node.host (port_of node for_query)) found.1 in
    (
      taken.0,
      record {
        pools = Dict.set self.pools (node, for_query) taken.1;
        closed = self.closed ++ found.0;
      },
    )

unfoldable pub return_socket : Node → ℕ → Bool → Sockets → Sockets
return_socket node sock for_query self = record self {
  pools = Dict.set self.pools (node, for_query) (lane self.pools (node, for_query) ++ sock ∷ []);
}

-- The nodes of one cluster in `connect`: a follower sends a redirect at once, so the first node that
-- stays silent is the leader.
unfoldable pub connect_nodes :
    (ℕ → Bool)
    → (String → ℕ → Outcome ℕ)
    → List Node
    → Sockets
    → LeaderRegistry
    → Sockets × LeaderRegistry
connect_nodes readable dial [] self registry = (self, registry)
connect_nodes readable dial (node ∷ nodes) self registry = elim (dial node.host node.port) [
  | raise x ↦ connect_nodes readable dial nodes self registry
  | ok sock ↦ elim (readable sock) [
    | true ↦
        connect_nodes readable dial nodes (record self { closed = self.closed ++ sock ∷ [] })
          registry
    | false ↦ (return_socket node sock false self, set_leader registry node)
  ]
]

-- The loop of `connect` over the clusters.
unfoldable pub connect_clusters :
    (ℕ → Bool)
    → (String → ℕ → Outcome ℕ)
    → Clusters
    → Sockets
    → LeaderRegistry
    → Sockets × LeaderRegistry
connect_clusters readable dial [] self registry = (self, registry)
connect_clusters readable dial ((cluster_name, nodes) ∷ rest) self registry =
    let (sockets, leaders) = connect_nodes readable dial nodes self registry in
    connect_clusters readable dial rest sockets leaders

-- `connect` keeps the cluster map too.
unfoldable pub connect :
    (ℕ → Bool)
    → (String → ℕ → Outcome ℕ)
    → Clusters
    → Sockets
    → LeaderRegistry
    → Clusters × Sockets × LeaderRegistry
connect readable dial clusters self registry =
    let (sockets, leaders) = connect_clusters readable dial clusters self registry in
    (clusters, sockets, leaders)

-- The sockets of every pool.
unfoldable pub pooled : Dict PoolKey (List ℕ) → List ℕ
pooled [] = []
pooled ((key, socks) ∷ rest) = socks ++ pooled rest

unfoldable pub disconnect : Sockets → Sockets
disconnect self = record { pools = []; closed = self.closed ++ pooled self.pools }
