-- ===== src/Client/BatchQuery/Tests.antt =====
-- Two queries of one node, which answers the second of them first, and the theorems on that run.
use raft_lsmt.Base.{
  ℕ, ◌≡◌, refl, String, Option, none, some, List, [], ◌∷◌, ◌++◌, arith, get_elem?, length,
  replicate, here, there, false, ok, nat_key, string_key,
}
use raft_lsmt.Base.Dict
use raft_lsmt.Base.Dict.{Dict}
use raft_lsmt.Client.Datatypes.{Node, node_key, QueryRequest}
use raft_lsmt.Client.Registry.{get_leader}
use raft_lsmt.Client.Registry
use raft_lsmt.Client.Routing.Select.{followers}
use raft_lsmt.Client.Struct.{to_le, of_le, pack_uint, pack_qq, unpack_at}
use raft_lsmt.Client.Wire.Request.{pack_request}
use raft_lsmt.Client.Wire.Response.{Response, unpack_header, parse_response}
use raft_lsmt.Client.Wire.Stream.{Arrival, chunk, recv_exact, recv_loop}
use raft_lsmt.Client.Send.{Connection, replies}
use raft_lsmt.Client.Query.{leaders, contains, remove, move_to_front, preferred_nodes}
use raft_lsmt.Client.BatchQuery.{
  next_number, packed_request, build_payload, index_requests, read_body, known_header,
  read_response, read_responses, put_response, order_responses, read_ordered, exchange_batch,
  ask_batch, query_batch_single_node,
}
use raft_lsmt.Client.BatchQuery.Order.{answered_in_place}
use raft_lsmt.Client.BatchQuery.Whole.{batch_in_order}

abbrev node : Node
node = record { cluster_name = "A"; id = 1; host = "127.0.0.1"; port = 18091 }

abbrev clusters : Dict String (List Node)
clusters = ("A", node ∷ []) ∷ []

abbrev query : ℕ → QueryRequest
query key = record { min_id = key; min_ts = 0; max_id = key; max_ts = 9; query_id = key }

-- An answer to a request that holds nothing.
abbrev reply : ℕ → Arrival
reply id = chunk 61 (replicate 7 0 ++ (id ∷ []) ++ replicate 52 0)

abbrev empty : ℕ → Response
empty id = record {
  req_id = id;
  limit_reached = false;
  min_id = 0;
  min_ts = 0;
  max_id = 0;
  max_ts = 0;
  records_bytes = 0;
  records_count = 0;
  records = [];
}

abbrev connection : Node → Connection
connection n = replies (reply 4 ∷ reply 3 ∷ [])

abbrev ordered : List (Option Response)
ordered = some (empty 3) ∷ some (empty 4) ∷ []

asks :
    (query_batch_single_node connection clusters Registry.init node
      (query 1 ∷ query 2 ∷ [])
      false
      (some (3 ∷ 4 ∷ []))
      1).0
    ≡ ok (node, ordered)
unfolding query_batch_single_node ask_batch exchange_batch build_payload packed_request next_number
    pack_request pack_qq pack_uint to_le read_ordered index_requests read_responses read_response
    known_header read_body recv_exact recv_loop unpack_header unpack_at of_le parse_response
    order_responses put_response preferred_nodes move_to_front contains remove leaders followers
    get_leader Dict.get Dict.set Dict.get_default
asks = refl

batch_in_order_example : (get_elem? (3 ∷ 4 ∷ []) 1 ≡ some (empty 4).req_id) × (length ordered ≡ 2)
batch_in_order_example =
    batch_in_order connection clusters Registry.init node (query 1 ∷ query 2 ∷ []) false
      (3 ∷ 4 ∷ []) 1 node ordered 1 (empty 4) asks refl

abbrev numbered : List (ℕ × QueryRequest)
numbered = (3, query 1) ∷ (4, query 2) ∷ []

answered_in_place_example :
    (r : Response) × (get_elem?
        (order_responses (index_requests numbered 0 []) (empty 4 ∷ empty 3 ∷ []) (replicate 2 none))
        0
      ≡ some (some r))
    × (r.req_id ≡ 3)
answered_in_place_example =
    answered_in_place numbered (empty 4 ∷ empty 3 ∷ []) 0 3
      (((λ e. absurd (omega arith)), tt), (tt, tt)) refl (there (here refl))
