-- ===== src/Client/Query.antt =====
-- client/dbclient.py, `_query_single_node`: a query is asked of the nodes of a cluster in turn,
-- until one answers. The times of an answer are not part of it. Every exception of `sendall` counts
-- here, a broken pipe too.
pub mod Failover
mod Tests
use raft_lsmt.Base.{
  ℕ, ◌+◌, ◌-◌, Bool, true, false, String, Option, none, some, List, [], ◌∷◌, ◌++◌, ltb, ◌==◌,
  nat_key, if◌then◌else◌, Outcome, ok, raise, ◌>>=◌, connection_error, runtime_error, string_key,
}
use raft_lsmt.Base.Dict
use raft_lsmt.Base.Dict.{Dict}
use raft_lsmt.Client.Datatypes.{Node, node_key, QueryRequest}
use raft_lsmt.Client.Registry.{LeaderRegistry, get_leader}
use raft_lsmt.Client.Routing.Select.{is_leader, followers}
use raft_lsmt.Client.Wire.Request.{pack_request}
use raft_lsmt.Client.Wire.Response.{
  Header, query_resp_header_size, unpack_header, Response, parse_response,
}
use raft_lsmt.Client.Wire.Stream.{Arrival, recv_exact}
use raft_lsmt.Client.Send.{Connection, refused, unsent, replies}

-- `[n for n in nodes if n == leader]`.
unfoldable pub leaders : Option Node → List Node → List Node
leaders leader [] = []
leaders leader (n ∷ ns) =
    let rest = leaders leader ns in if is_leader leader n then n ∷ rest else rest

-- `node in nodes`.
unfoldable pub contains : Node → List Node → Bool
contains target [] = false
contains target (n ∷ ns) = let rest = contains target ns in if n == target then true else rest

-- `nodes.remove(node)`: the first of them, where there is one.
unfoldable pub remove : Node → List Node → List Node
remove target [] = []
remove target (n ∷ ns) = let rest = remove target ns in if n == target then ns else n ∷ rest

-- The node asked for goes first.
unfoldable pub move_to_front : Node → List Node → List Node
move_to_front target ns = if contains target ns then target ∷ remove target ns else ns

-- The followers, then the leader; and the node asked for before them, where it is one of them.
unfoldable pub preferred_nodes : Node → Option Node → List Node → List Node
preferred_nodes target leader nodes =
    move_to_front target (followers leader nodes ++ leaders leader nodes)

-- A body of `size` bytes; nothing is read for an empty one.
unfoldable pub read_body : ℕ → List Arrival → Outcome (List ℕ)
read_body size arrivals = if ltb 0 size then (recv_exact size arrivals).0 else ok []

-- The answer on a connection: the header, its request number checked, and the body.
unfoldable pub read_answer : ℕ → Bool → List Arrival → Outcome Response
read_answer req_id skip_records arrivals =
    let got = recv_exact query_resp_header_size arrivals in
    got.0 >>= λ header_data. unpack_header header_data >>= λ header.
    if header.req_id == req_id
    then (read_body (header.total_size - query_resp_header_size) got.1 >>= λ body_data.
        ok (parse_response header body_data skip_records))
    else raise connection_error

-- One node is asked: the request is packed before a socket is taken.
unfoldable pub exchange : ℕ → QueryRequest → Bool → Connection → Outcome Response
exchange req_id query skip_records (refused x) = pack_request req_id query >>= λ req_data. raise x
exchange req_id query skip_records (unsent x) = pack_request req_id query >>= λ req_data. raise x
exchange req_id query skip_records (replies arrivals) =
    pack_request req_id query >>= λ req_data. read_answer req_id skip_records arrivals

-- `req_id if req_id is not None else next(self._req_id_counter)`, and the counter.
unfoldable pub request_number : Option ℕ → ℕ → ℕ × ℕ
request_number none counter = (counter, counter + 1)
request_number (some id) counter = (id, counter)

-- The loop over the preferred nodes. `connection` says how each node's connection would go.
unfoldable pub ask :
    (Node → Connection)
    → QueryRequest
    → Bool
    → Option ℕ
    → List Node
    → ℕ
    → Outcome (Node × Response) × ℕ
ask connection query skip_records req_id [] counter = (raise runtime_error, counter)
ask connection query skip_records req_id (n ∷ ns) counter =
    let number = request_number req_id counter in
    elim (exchange number.0 query skip_records (connection n)) [
      | ok response ↦ (ok (n, response), number.1)
      | raise x ↦ ask connection query skip_records req_id ns number.1
    ]

unfoldable pub query_single_node :
    (Node → Connection)
    → Dict String (List Node)
    → LeaderRegistry
    → Node
    → QueryRequest
    → Bool
    → Option ℕ
    → ℕ
    → Outcome (Node × Response) × ℕ
query_single_node connection clusters registry target query skip_records req_id counter =
    let nodes = Dict.get_default clusters target.cluster_name [] in
    let leader = get_leader registry target.cluster_name in
    ask connection query skip_records req_id (preferred_nodes target leader nodes) counter
