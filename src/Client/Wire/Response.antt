-- ===== src/Client/Wire/Response.antt =====
-- client/dbclient.py, the response of a query: its header, and `_parse_response`.
pub mod Records
pub mod HeaderFormat
use raft_lsmt.Base.{
  ℕ, zero, suc, ◌+◌, ◌==◌, nat_key, Bool, true, false, not, ◌&&◌, List, [], ◌∷◌, length, take, drop,
  ltb, leb, if◌then◌else◌, Outcome, ok, raise, ◌>>=◌, struct_error,
}
use raft_lsmt.Client.Datatypes.{Record, Content, int, raw}
use raft_lsmt.Client.Struct.{of_le, unpack_at}
use raft_lsmt.Client.Wire.Batch.{lsmt_type_int}

abbrev pub query_resp_header_size : ℕ
query_resp_header_size = 61

-- The fields of `"<Q Q B 16s 16s Q I"`, the two keys taken apart.
pub record Header : Type 0 where
  pub total_size : ℕ
  pub req_id : ℕ
  pub limit_reached : ℕ
  pub min_id : ℕ
  pub min_ts : ℕ
  pub max_id : ℕ
  pub max_ts : ℕ
  pub records_bytes : ℕ
  pub records_count : ℕ

-- `struct.unpack(QUERY_RESP_HEADER_FMT, header_data)`, which wants exactly 61 bytes, and the two
-- `struct.unpack("<QQ", …)` on the keys.
unfoldable pub unpack_header : List ℕ → Outcome Header
unpack_header bytes =
    if length bytes == query_resp_header_size
    then ok (record {
      total_size = unpack_at 8 0 bytes;
      req_id = unpack_at 8 8 bytes;
      limit_reached = unpack_at 1 16 bytes;
      min_id = unpack_at 8 17 bytes;
      min_ts = unpack_at 8 25 bytes;
      max_id = unpack_at 8 33 bytes;
      max_ts = unpack_at 8 41 bytes;
      records_bytes = unpack_at 8 49 bytes;
      records_count = unpack_at 4 57 bytes;
    })
    else raise struct_error

-- The dictionary that `_parse_response` returns.
pub record Response : Type 0 where
  pub req_id : ℕ
  pub limit_reached : Bool
  pub min_id : ℕ
  pub min_ts : ℕ
  pub max_id : ℕ
  pub max_ts : ℕ
  pub records_bytes : ℕ
  pub records_count : ℕ
  pub records : List Record

-- `content` from its type byte and its bytes.
unfoldable pub parse_content : ℕ → ℕ → List ℕ → Content
parse_content rec_type content_size content_raw =
    if rec_type == lsmt_type_int && content_size == 8
    then int (of_le content_raw)
    else raw content_raw

-- The record at `offset`, whose content takes `content_size` bytes.
unfoldable pub record_at : ℕ → ℕ → List ℕ → Record
record_at offset content_size body = record {
  key_id = unpack_at 8 offset body;
  timestamp = unpack_at 8 (offset + 8) body;
  content =
      parse_content (unpack_at 1 (offset + 16) body) content_size
        (take content_size (drop (offset + 21) body));
}

-- The loop over `range(records_count)`: it breaks where the body ends inside a record.
unfoldable pub parse_records : ℕ → ℕ → List ℕ → List Record
parse_records zero offset body = []
parse_records (suc count) offset body =
    let content_size = unpack_at 4 (offset + 17) body in
    let rest = parse_records count (offset + 21 + content_size) body in
    if ltb (length body) (offset + 21)
    then []
    else if ltb (length body) (offset + 21 + content_size)
    then []
    else record_at offset content_size body ∷ rest

-- `bool(limit_reached)` is true of every byte but 0.
unfoldable pub parse_response : Header → List ℕ → Bool → Response
parse_response header body skip_records = record {
  req_id = header.req_id;
  limit_reached = not (header.limit_reached == 0);
  min_id = header.min_id;
  min_ts = header.min_ts;
  max_id = header.max_id;
  max_ts = header.max_ts;
  records_bytes = header.records_bytes;
  records_count = header.records_count;
  records =
      if not skip_records && ltb 0 (length body) && ltb 0 header.records_count
      then parse_records header.records_count 0 body
      else [];
}
