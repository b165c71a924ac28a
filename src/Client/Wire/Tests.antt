-- ===== src/Client/Wire/Tests.antt =====
-- Runs of the wire formats, and the theorems on them.
use raft_lsmt.Base.{
  ℕ, ◌*◌, ◌≡◌, refl, List, [], ◌∷◌, ◌++◌, arith, length, All, here, there, ok, raise, struct_error,
  false,
}
use raft_lsmt.Client.Datatypes.{Record, int, raw}
use raft_lsmt.Client.Wire.Batch.{serialize_batch, take_messages}
use raft_lsmt.Client.Wire.Batch.Framing.{IsSendable, batch_framing, batch_raises}
use raft_lsmt.Client.Wire.Stream.{Arrival, chunk, timeout}
use raft_lsmt.Client.Wire.Response.{Header, parse_response}
use raft_lsmt.Client.Wire.Response.HeaderFormat.{HeaderFits}
use raft_lsmt.Client.Wire.Response.Records.{Fits, encode_all, parse_response_records}

abbrev one : Record
one = record { key_id = 7; timestamp = 100; content = int 258 }

abbrev two : Record
two = record { key_id = 8; timestamp = 101; content = raw (1 ∷ 2 ∷ 3 ∷ []) }

two-nat : ¬ IsSendable two
two-nat h = h.2

batch_framing_example :
    (bytes : List ℕ) × (serialize_batch (one ∷ one ∷ []) ≡ ok bytes)
    × (length bytes ≡ 33 * 2)
    × (take_messages 2 bytes ≡ (2, []))
batch_framing_example =
    batch_framing (one ∷ one ∷ []) 2
      ((omega arith, omega arith, omega arith), ((omega arith, omega arith, omega arith), tt))
      (omega arith)

batch_raises_example : serialize_batch (one ∷ two ∷ []) ≡ raise struct_error
batch_raises_example = batch_raises (one ∷ two ∷ []) (there (here two-nat))

-- Five bytes in two arrivals, then a stall.
abbrev arrivals : List Arrival
arrivals = chunk 1 (2 ∷ []) ∷ chunk 3 (4 ∷ 5 ∷ []) ∷ timeout ∷ []

abbrev header : Header
header = record {
  total_size = 109;
  req_id = 3;
  limit_reached = 1;
  min_id = 7;
  min_ts = 100;
  max_id = 8;
  max_ts = 101;
  records_bytes = 48;
  records_count = 2;
}

header-HeaderFits : HeaderFits header
header-HeaderFits = record {
  total_size_fits = omega arith;
  req_id_fits = omega arith;
  limit_reached_fits = omega arith;
  min_id_fits = omega arith;
  min_ts_fits = omega arith;
  max_id_fits = omega arith;
  max_ts_fits = omega arith;
  records_bytes_fits = omega arith;
  records_count_fits = omega arith;
}

records-Fits : All Fits (one ∷ two ∷ [])
records-Fits =
    ((omega arith, omega arith, omega arith), ((omega arith, omega arith, omega arith), tt))

parse_response_records_example :
    (parse_response header (encode_all (one ∷ two ∷ []) ++ (0 ∷ [])) false).records ≡ one ∷ two ∷ []
parse_response_records_example =
    parse_response_records header (one ∷ two ∷ []) (0 ∷ []) records-Fits refl
