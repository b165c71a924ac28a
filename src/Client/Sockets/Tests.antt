-- ===== src/Client/Sockets/Tests.antt =====
-- A pool with a socket that is readable, a cluster of which the second node leads, and the theorems
-- on them.
use raft_lsmt.Base.{
  ℕ, ◌+◌, ◌≡◌, ◌⊎◌, refl, String, Bool, true, false, some, List, [], ◌∷◌, ◌++◌, All, Outcome, ok,
  raise, connection_error, ◌==◌, nat_key, string_key, if◌then◌else◌,
}
use raft_lsmt.Base.Dict
use raft_lsmt.Base.Lanes.{lane}
use raft_lsmt.Client.Datatypes.{Node, node_key}
use raft_lsmt.Client.Registry.{LeaderRegistry, get_leader, set_leader}
use raft_lsmt.Client.Registry
use raft_lsmt.Client.Routing.Names.{Clusters}
use raft_lsmt.Client.Sockets.{
  pool_key, Sockets, discard_readable, port_of, first_or_dial, get_socket, return_socket,
  connect_nodes, connect_clusters, connect,
}
use raft_lsmt.Client.Sockets.Fresh.{Found, get_socket_fresh}
use raft_lsmt.Client.Sockets.Leaders.{IsSilent, connect_leaders}

abbrev node : ℕ → Node
node id = record { cluster_name = "A"; id = id; host = "127.0.0.1"; port = 18090 + id }

abbrev readable : ℕ → Bool
readable s = s == 18091

-- A socket is numbered by the port; the third node is down.
abbrev dial : String → ℕ → Outcome ℕ
dial host port = if port == 18093 then raise connection_error else ok port

abbrev sockets : Sockets
sockets = record { pools = ((node 1, false), 18091 ∷ 5 ∷ 6 ∷ []) ∷ []; closed = [] }

gets : (get_socket readable dial (node 1) false sockets).0 ≡ ok 5
unfolding get_socket discard_readable first_or_dial lane Dict.get_default Dict.get
gets = refl

get_socket_fresh_example :
    (stale : List ℕ) × (left : List ℕ) × (lane sockets.pools (node 1, false) ≡ stale ++ left)
    × All (λ s. readable s ≡ true) stale
    × ((get_socket readable dial (node 1) false sockets).1.closed ≡ sockets.closed ++ stale)
    × Found readable
        (dial "127.0.0.1" (port_of (node 1) false))
        left
        (lane (get_socket readable dial (node 1) false sockets).1.pools (node 1, false))
        5
get_socket_fresh_example = get_socket_fresh readable dial (node 1) false sockets 5 gets

abbrev clusters : Clusters
clusters = ("A", node 3 ∷ node 1 ∷ node 2 ∷ []) ∷ []

leads : get_leader (connect readable dial clusters sockets Registry.init).2 "A" ≡ some (node 2)
unfolding connect connect_clusters connect_nodes return_socket get_leader set_leader lane
    Dict.get_default Dict.get Dict.set
leads = refl

connect_leaders_example :
    (get_leader Registry.init "A" ≡ some (node 2)) ⊎ IsSilent readable dial (node 2)
connect_leaders_example =
    connect_leaders readable dial clusters sockets Registry.init "A" (node 2) leads
