-- ===== src/Mock/WriteHandler.antt =====
-- mocks/mock_server.py, `_handle_write`: records are received and acknowledged, or the client is
-- redirected.
pub mod Acks
use raft_lsmt.Base.{ℕ, Bool, List, [], ◌∷◌, ◌++◌, length, replicate, if◌then◌else◌}
use raft_lsmt.Client.Wire.Batch.{take_messages}

-- The bytes answered to one piece of data, and the buffer behind it. Each round of the loop deletes
-- a byte at least where the messages are not empty, so that a round for each byte is enough.
unfoldable pub receive_data : List ℕ → List ℕ → List ℕ × List ℕ
receive_data buffer piece =
    let got = buffer ++ piece in
    let taken = take_messages (length got) got in (replicate taken.0 0, taken.1)

-- The loop over the data received until the connection is closed.
unfoldable pub receive_pieces : List ℕ → List (List ℕ) → List ℕ × List ℕ
receive_pieces buffer [] = ([], buffer)
receive_pieces buffer (piece ∷ more) =
    let now = receive_data buffer piece in
    let later = receive_pieces now.1 more in (now.0 ++ later.0, later.1)

-- A leader starts with an empty buffer.
unfoldable pub serve_write : List (List ℕ) → List ℕ
serve_write received = (receive_pieces [] received).0
