-- ===== src/Mock/ReadHandler.antt =====
-- mocks/mock_server.py, `_handle_read`: what is sent for the 40 bytes of a request. The records are
-- made up: ten at most, each with ten times its key as its content.
pub mod Answers
pub mod Gather
pub mod Paging
mod Tests
use raft_lsmt.Base.{
  ℕ, zero, suc, ◌+◌, ◌-◌, ◌*◌, min, List, [], ◌∷◌, ◌++◌, length, ltb, if◌then◌else◌, Outcome, ok,
  raise, ◌>>=◌,
}
use raft_lsmt.Client.Struct.{pack_uint, pack_qq}
use raft_lsmt.Client.Wire.Batch.{lsmt_type_int}
use raft_lsmt.Client.Wire.Request.{Request, unpack_request}
use raft_lsmt.Client.Wire.Response.{Header, query_resp_header_size}
use raft_lsmt.Client.Wire.Response.HeaderFormat.{pack_header}

-- `min(10, max(0, max_id - min_id + 1))`.
unfoldable pub fake_count : ℕ → ℕ → ℕ
fake_count min_id max_id = min 10 (max_id + 1 - min_id)

unfoldable pub fake_record : ℕ → Outcome (List ℕ)
fake_record key_id = do
  content_raw ← pack_uint 8 (key_id * 10)
  key ← pack_qq key_id 0
  kind ← pack_uint 1 lsmt_type_int
  size ← pack_uint 4 8
  ok (key ++ kind ++ size ++ content_raw)

-- The loop over `range(records_count)`, from a key on.
unfoldable pub fake_body : ℕ → ℕ → Outcome (List ℕ)
fake_body key_id zero = ok []
fake_body key_id (suc count) = do
  record_bytes ← fake_record key_id
  rest ← fake_body (suc key_id) count
  ok (record_bytes ++ rest)

-- The key of the last record, or the first key where there is none.
unfoldable pub actual_max_id : ℕ → ℕ → ℕ
actual_max_id min_id count = min_id + (count - 1)

abbrev pub answer_header : Request → ℕ → ℕ → Header
answer_header req count records_bytes =
    let last = actual_max_id req.min_id count in
    record {
      total_size = query_resp_header_size + records_bytes;
      req_id = req.req_id;
      limit_reached = if ltb last req.max_id then 1 else 0;
      min_id = req.min_id;
      min_ts = 0;
      max_id = last;
      max_ts = 0;
      records_bytes = records_bytes;
      records_count = count;
    }

unfoldable pub handle_request : List ℕ → Outcome (List ℕ)
handle_request req_data = do
  let req = unpack_request req_data
  let count = fake_count req.min_id req.max_id
  body_data ← fake_body req.min_id count
  header_data ← pack_header (answer_header req count (length body_data))
  ok (header_data ++ body_data)

-- What is sent: on an exception the connection is closed without an answer.
unfoldable pub handle_read : List ℕ → List ℕ
handle_read req_data = elim (handle_request req_data) [ raise x ↦ [] | ok answer ↦ answer ]
