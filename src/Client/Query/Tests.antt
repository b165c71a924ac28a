-- ===== src/Client/Query/Tests.antt =====
-- A query of which the first node refuses the connection, and the theorem on that run.
use raft_lsmt.Base.{
  ℕ, ◌+◌, ◌≡◌, refl, false, String, some, List, [], ◌∷◌, Member, here, there, ok, ◌==◌, nat_key,
  if◌then◌else◌, connection_error, string_key,
}
use raft_lsmt.Base.Dict
use raft_lsmt.Base.Dict.{Dict}
use raft_lsmt.Client.Datatypes.{Node, QueryRequest}
use raft_lsmt.Client.Registry
use raft_lsmt.Client.Struct.{to_le, of_le, pack_uint, pack_qq, unpack_at}
use raft_lsmt.Client.Wire.Request.{pack_request}
use raft_lsmt.Client.Wire.Response.{Response, unpack_header, parse_response}
use raft_lsmt.Client.Wire.Stream.{Arrival, chunk, recv_exact, recv_loop}
use raft_lsmt.Client.Send.{Connection, refused, replies}
use raft_lsmt.Client.Query.{exchange, read_answer, read_body, query_single_node}
use raft_lsmt.Client.Query.Failover.{query_fails_over}

abbrev node : ℕ → Node
node id = record { cluster_name = "A"; id = id; host = "127.0.0.1"; port = 18090 + id }

abbrev clusters : Dict String (List Node)
clusters = ("A", node 1 ∷ node 2 ∷ []) ∷ []

abbrev query : QueryRequest
query = record { min_id = 1; min_ts = 0; max_id = 9; max_ts = 9; query_id = 0 }

-- An answer to the request 3 without records.
abbrev reply : List Arrival
reply =
    chunk 61 (0 ∷ 0 ∷ 0 ∷ 0 ∷ 0 ∷ 0 ∷ 0 ∷ [])
    ∷ chunk 3 (
        0 ∷ 0 ∷ 0 ∷ 0 ∷ 0 ∷ 0 ∷ 0 ∷ 0 ∷ 1 ∷ 0 ∷ 0 ∷ 0 ∷ 0 ∷ 0 ∷ 0 ∷ 0 ∷ 0 ∷ 0 ∷ 0 ∷ 0 ∷ 0 ∷ 0 ∷ 0
        ∷ 0 ∷ 9 ∷ 0 ∷ 0 ∷ 0 ∷ 0 ∷ 0 ∷ 0 ∷ 0 ∷ 9 ∷ 0 ∷ 0 ∷ 0 ∷ 0 ∷ 0 ∷ 0 ∷ 0 ∷ 0 ∷ 0 ∷ 0 ∷ 0 ∷ 0 ∷ 0
        ∷ 0 ∷ 0 ∷ 0 ∷ 0 ∷ 0 ∷ 0 ∷ [])
    ∷ []

abbrev connection : Node → Connection
connection n = if n.id == 2 then replies reply else refused connection_error

abbrev empty : Response
empty = record {
  req_id = 3;
  limit_reached = false;
  min_id = 1;
  min_ts = 0;
  max_id = 9;
  max_ts = 9;
  records_bytes = 0;
  records_count = 0;
  records = [];
}

node_2_answers : exchange 3 query false (connection (node 2)) ≡ ok empty
unfolding exchange read_answer read_body recv_exact recv_loop pack_request pack_qq pack_uint to_le
    unpack_header unpack_at of_le parse_response
node_2_answers = refl

node_2_listed : Member (node 2) (Dict.get_default clusters "A" [])
unfolding Dict.get_default Dict.get
node_2_listed = there (here refl)

query_fails_over_example :
    (got : Node × Response) × ((query_single_node connection clusters Registry.init
        (node 1)
        query
        false
        (some 3)
        1).0
      ≡ ok got)
    × (exchange 3 query false (connection got.0) ≡ ok got.1)
    × (got.1.req_id ≡ 3)
query_fails_over_example =
    query_fails_over connection clusters Registry.init (node 1) query false 3 1 (node 2)
      node_2_listed (empty, node_2_answers)
