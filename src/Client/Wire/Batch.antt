-- ===== src/Client/Wire/Batch.antt =====
-- client/dbclient.py, `_serialize_batch`, and mocks/mock_server.py, which takes batches apart.
pub mod Framing
use raft_lsmt.Base.{
  ℕ, zero, suc, ◌+◌, List, [], ◌∷◌, ◌++◌, length, take, drop, leb, if◌then◌else◌, Outcome, ok,
  raise, ◌>>=◌, struct_error,
}
use raft_lsmt.Client.Datatypes.{Record, Content, int, raw}
use raft_lsmt.Client.Struct.{pack_uint, pack_qq, unpack_at}

abbrev pub lsmt_type_int : ℕ
lsmt_type_int = 1

-- `struct.pack("<IQQBIQ", 33, key_id, timestamp, LSMT_TYPE_INT, 8, content)`.
unfoldable pub pack_int : ℕ → ℕ → ℕ → Outcome (List ℕ)
pack_int key_id timestamp content = do
  size ← pack_uint 4 33
  key ← pack_qq key_id timestamp
  kind ← pack_uint 1 lsmt_type_int
  content_size ← pack_uint 4 8
  value ← pack_uint 8 content
  ok (size ++ key ++ kind ++ content_size ++ value)

-- A `Q` field that is given a content: bytes are no integer.
unfoldable pub pack_content : Content → Outcome (List ℕ)
pack_content (int v) = pack_uint 8 v
pack_content (raw bytes) = raise struct_error

-- The other branch: the value, the key before it, and the size of both before that.
unfoldable pub pack_any : ℕ → ℕ → Content → Outcome (List ℕ)
pack_any key_id timestamp content = do
  kind ← pack_uint 1 lsmt_type_int
  content_size ← pack_uint 4 8
  value ← pack_content content
  key ← pack_qq key_id timestamp
  let outer_payload = key ++ (kind ++ content_size ++ value)
  size ← pack_uint 4 (4 + length outer_payload)
  ok (size ++ outer_payload)

-- The branch on `isinstance(record.content, int)`.
unfoldable pub serialize_content : ℕ → ℕ → Content → Outcome (List ℕ)
serialize_content key_id timestamp (int v) = pack_int key_id timestamp v
serialize_content key_id timestamp (raw bytes) = pack_any key_id timestamp (raw bytes)

unfoldable pub serialize_batch : List Record → Outcome (List ℕ)
serialize_batch [] = ok []
serialize_batch (rec ∷ recs) = do
  front ← serialize_content rec.key_id rec.timestamp rec.content
  back ← serialize_batch recs
  ok (front ++ back)

-- mocks/mock_server.py, `_handle_write`: the messages that lie whole at the front of the buffer are
-- counted and deleted. The fuel bounds the rounds.
unfoldable pub take_messages : ℕ → List ℕ → ℕ × List ℕ
take_messages zero buffer = (0, buffer)
take_messages (suc fuel) buffer =
    let msg_size = unpack_at 4 0 buffer in
    let rest = take_messages fuel (drop msg_size buffer) in
    if leb 4 (length buffer)
    then (if leb msg_size (length buffer) then (rest.0 + 1, rest.1) else (0, buffer))
    else (0, buffer)
