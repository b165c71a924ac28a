-- ===== src/Mock/Tests.antt =====
-- Runs of the mock server's handlers on small inputs.
use raft_lsmt.Base.{ℕ, ◌≡◌, refl, List, [], ◌∷◌, arith, length, take, drop, ok, ◌++◌}
use raft_lsmt.Client.Datatypes.{Record, int, QueryRequest}
use raft_lsmt.Client.Struct.{to_le, of_le, unpack_at}
use raft_lsmt.Client.Wire.Batch.{take_messages}
use raft_lsmt.Client.Wire.Stream.{chunk, closed}
use raft_lsmt.Client.Wire.Batch.Framing.{messages, serialize_messages}
use raft_lsmt.Client.Send.{socket, acknowledged, attempt}
use raft_lsmt.Mock.WriteHandler.{serve_write, receive_pieces, receive_data}
use raft_lsmt.Mock.WriteHandler.Acks.{write_acknowledged}

abbrev batch : List Record
batch =
    record { key_id = 7; timestamp = 1000; content = int 70 }
    ∷ record { key_id = 8; timestamp = 1001; content = int 80 }
    ∷ []

-- The second piece holds the end of the first record and the start of the second.
abbrev pieces : List (List ℕ)
pieces =
    let payload = messages batch in
    take 30 payload ∷ take 10 (drop 30 payload) ∷ drop 40 payload ∷ []

write_acknowledged_example :
    (length (serve_write pieces) ≡ 2)
    × (attempt
          (λ bytes. bytes)
          []
          batch
          (socket (λ bytes. ok (chunk 0 [] ∷ chunk 0 [] ∷ closed ∷ [])))
        ≡ ok acknowledged)
unfolding serve_write receive_pieces receive_data take_messages unpack_at of_le to_le
write_acknowledged_example =
    write_acknowledged (λ bytes. bytes) [] batch pieces (messages batch)
      (λ bytes. ok (chunk 0 [] ∷ chunk 0 [] ∷ closed ∷ [])) (chunk 0 [] ∷ chunk 0 [] ∷ closed ∷ [])
      ((omega arith, omega arith, omega arith), ((omega arith, omega arith, omega arith), tt))
      (omega arith)
      (serialize_messages batch
        ((omega arith, omega arith, omega arith), ((omega arith, omega arith, omega arith), tt)))
      refl refl refl

abbrev query : QueryRequest
query = record { min_id = 5; min_ts = 0; max_id = 30; max_ts = 9; query_id = 0 }

abbrev request : List ℕ
request = to_le 8 3 ++ (to_le 8 5 ++ to_le 8 0) ++ (to_le 8 30 ++ to_le 8 9)
