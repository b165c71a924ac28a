-- ===== src/Client/Wire/Response/HeaderFormat.antt =====
-- The response header: what mocks/mock_server.py, `_handle_read`, packs, and what the client reads.
use raft_lsmt.Base.{ℕ, ◌^◌, ◌<◌, ◌≡◌, refl, List, ◌++◌, arith, length, Outcome, ok, ◌>>=◌}
use raft_lsmt.Client.Struct.{
  to_le, of_le, of_le-to_le, pack_uint, pack_uint_fits, pack_qq, pack_qq_fits, unpack_at,
}
use raft_lsmt.Client.Wire.Response.{Header, query_resp_header_size, unpack_header}

-- `struct.pack(QUERY_RESP_HEADER_FMT, …)` over the two packed keys.
unfoldable pub pack_header : Header → Outcome (List ℕ)
pack_header h = do
  min_key ← pack_qq h.min_id h.min_ts
  max_key ← pack_qq h.max_id h.max_ts
  total ← pack_uint 8 h.total_size
  id ← pack_uint 8 h.req_id
  limit ← pack_uint 1 h.limit_reached
  bytes ← pack_uint 8 h.records_bytes
  count ← pack_uint 4 h.records_count
  ok (total ++ id ++ limit ++ min_key ++ max_key ++ bytes ++ count)

-- Every field fits its format.
pub record HeaderFits (h : Header) : Type 0 where
  pub total_size_fits : h.total_size < 2 ^ 64
  pub req_id_fits : h.req_id < 2 ^ 64
  pub limit_reached_fits : h.limit_reached < 2 ^ 8
  pub min_id_fits : h.min_id < 2 ^ 64
  pub min_ts_fits : h.min_ts < 2 ^ 64
  pub max_id_fits : h.max_id < 2 ^ 64
  pub max_ts_fits : h.max_ts < 2 ^ 64
  pub records_bytes_fits : h.records_bytes < 2 ^ 64
  pub records_count_fits : h.records_count < 2 ^ 32

layout : Header → List ℕ
layout h =
    to_le 8 h.total_size
    ++ to_le 8 h.req_id
    ++ to_le 1 h.limit_reached
    ++ (to_le 8 h.min_id ++ to_le 8 h.min_ts)
    ++ (to_le 8 h.max_id ++ to_le 8 h.max_ts)
    ++ to_le 8 h.records_bytes
    ++ to_le 4 h.records_count

pack_layout : (h : Header) → HeaderFits h → pack_header h ≡ ok (layout h)
unfolding pack_header layout
pack_layout h f = rw (
  pack_qq_fits h.min_id h.min_ts f.min_id_fits f.min_ts_fits,
  pack_qq_fits h.max_id h.max_ts f.max_id_fits f.max_ts_fits,
  pack_uint_fits 8 h.total_size (omega arith),
  pack_uint_fits 8 h.req_id (omega arith),
  pack_uint_fits 1 h.limit_reached (omega arith),
  pack_uint_fits 8 h.records_bytes (omega arith),
  pack_uint_fits 4 h.records_count (omega arith),
)

unpack_layout :
    (h : Header)
    → unpack_header (layout h)
      ≡ ok (record {
        total_size = of_le (to_le 8 h.total_size);
        req_id = of_le (to_le 8 h.req_id);
        limit_reached = of_le (to_le 1 h.limit_reached);
        min_id = of_le (to_le 8 h.min_id);
        min_ts = of_le (to_le 8 h.min_ts);
        max_id = of_le (to_le 8 h.max_id);
        max_ts = of_le (to_le 8 h.max_ts);
        records_bytes = of_le (to_le 8 h.records_bytes);
        records_count = of_le (to_le 4 h.records_count);
      })
unfolding unpack_header unpack_at layout to_le
unpack_layout h = refl

length-layout : (h : Header) → length (layout h) ≡ query_resp_header_size
unfolding layout to_le
length-layout h = refl

-- A header whose fields fit takes 61 bytes, and the client reads every field back.
pub header_roundtrip :
    (h : Header)
    → HeaderFits h
    → (bytes : List ℕ) × (pack_header h ≡ ok bytes)
      × (length bytes ≡ query_resp_header_size)
      × (unpack_header bytes ≡ ok h)
header_roundtrip h f = (
  layout h,
  pack_layout h f,
  length-layout h,
  rw (
    unpack_layout h,
    of_le-to_le 8 h.total_size (omega arith),
    of_le-to_le 8 h.req_id (omega arith),
    of_le-to_le 1 h.limit_reached (omega arith),
    of_le-to_le 8 h.min_id (omega arith),
    of_le-to_le 8 h.min_ts (omega arith),
    of_le-to_le 8 h.max_id (omega arith),
    of_le-to_le 8 h.max_ts (omega arith),
    of_le-to_le 8 h.records_bytes (omega arith),
    of_le-to_le 4 h.records_count (omega arith),
  ),
)
