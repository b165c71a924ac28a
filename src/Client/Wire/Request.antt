-- ===== src/Client/Wire/Request.antt =====
-- client/dbclient.py, the query request of `_query_single_node` and `_query_batch_single_node`, and
-- its reading in mocks/mock_server.py, `_handle_read`.
use raft_lsmt.Base.{ℕ, ◌^◌, ◌<◌, ◌≡◌, refl, List, ◌++◌, arith, length, Outcome, ok, ◌>>=◌}
use raft_lsmt.Client.Datatypes.{QueryRequest}
use raft_lsmt.Client.Struct.{
  to_le, of_le, of_le-to_le, pack_uint, pack_uint_fits, pack_qq, pack_qq_fits, unpack_at,
}

abbrev pub query_req_size : ℕ
query_req_size = 40

-- `struct.pack(QUERY_REQ_FMT, req_id, start_key, end_key)` over the two packed keys.
unfoldable pub pack_request : ℕ → QueryRequest → Outcome (List ℕ)
pack_request req_id query = do
  start_key ← pack_qq query.min_id query.min_ts
  end_key ← pack_qq query.max_id query.max_ts
  id ← pack_uint 8 req_id
  ok (id ++ start_key ++ end_key)

-- What the server reads from 40 bytes: the request's number and the two keys.
pub record Request : Type 0 where
  pub req_id : ℕ
  pub min_id : ℕ
  pub min_ts : ℕ
  pub max_id : ℕ
  pub max_ts : ℕ

unfoldable pub unpack_request : List ℕ → Request
unpack_request bytes = record {
  req_id = unpack_at 8 0 bytes;
  min_id = unpack_at 8 8 bytes;
  min_ts = unpack_at 8 16 bytes;
  max_id = unpack_at 8 24 bytes;
  max_ts = unpack_at 8 32 bytes;
}

abbrev pub IsQuery : QueryRequest → Type 0
IsQuery q = (q.min_id < 2 ^ 64) × (q.min_ts < 2 ^ 64) × (q.max_id < 2 ^ 64) × (q.max_ts < 2 ^ 64)

abbrev layout : ℕ → ℕ → ℕ → ℕ → ℕ → List ℕ
layout r a b c d = to_le 8 r ++ (to_le 8 a ++ to_le 8 b) ++ (to_le 8 c ++ to_le 8 d)

layout_fields :
    (r a b c d : ℕ) (more : List ℕ)
    → unpack_request (layout r a b c d ++ more) ≡ record {
      req_id = of_le (to_le 8 r);
      min_id = of_le (to_le 8 a);
      min_ts = of_le (to_le 8 b);
      max_id = of_le (to_le 8 c);
      max_ts = of_le (to_le 8 d);
    }
unfolding unpack_request unpack_at to_le
layout_fields r a b c d more = refl

length-layout : (r a b c d : ℕ) → length (layout r a b c d) ≡ query_req_size
unfolding to_le
length-layout r a b c d = refl

-- A request whose numbers fit 64 bits takes 40 bytes, and the server reads from them, whatever
-- follows, the numbers that the client wrote.
pub request_roundtrip :
    (req_id : ℕ) (query : QueryRequest) (more : List ℕ)
    → req_id < 2 ^ 64
    → IsQuery query
    → (bytes : List ℕ) × (pack_request req_id query ≡ ok bytes)
      × (length bytes ≡ query_req_size)
      × (unpack_request (bytes ++ more) ≡ record {
        req_id = req_id;
        min_id = query.min_id;
        min_ts = query.min_ts;
        max_id = query.max_id;
        max_ts = query.max_ts;
      })
unfolding pack_request
request_roundtrip req_id query more hr (ha, hb, hc, hd) =
    let r = req_id in
    let a = query.min_id in
    let b = query.min_ts in
    let c = query.max_id in
    let d = query.max_ts in
    (
      layout r a b c d,
      rw (pack_qq_fits a b ha hb, pack_qq_fits c d hc hd, pack_uint_fits 8 r (omega arith)),
      length-layout r a b c d,
      rw (
        layout_fields r a b c d more,
        of_le-to_le 8 r (omega arith),
        of_le-to_le 8 a (omega arith),
        of_le-to_le 8 b (omega arith),
        of_le-to_le 8 c (omega arith),
        of_le-to_le 8 d (omega arith),
      ),
    )
