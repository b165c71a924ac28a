-- ===== src/Client/Wire/Stream.antt =====
-- client/dbclient.py, `_recv_exact`: reading a fixed number of bytes from a socket.
pub mod Chunks
use raft_lsmt.Base.{
  ℕ, ◌-◌, List, [], ◌∷◌, ◌++◌, length, take, drop, leb, if◌then◌else◌, Outcome, ok, raise,
  connection_error,
}

-- What the operating system has for the socket: bytes that arrive together, one at least; the end
-- of the stream; or no byte before the timeout.
pub data Arrival : Type 0 where
  chunk : ℕ → List ℕ → Arrival
  closed : Arrival
  timeout : Arrival

-- What a `recv` leaves of an arrival stays for the next call.
abbrev pub put_back : List ℕ → List Arrival → List Arrival
put_back [] rest = rest
put_back (b ∷ bs) rest = chunk b bs ∷ rest

-- The loop while fewer than `n` bytes are there: `recv(k)` returns at most `k` bytes of one
-- arrival, and no byte means a closed socket. Where nothing more arrives, it waits for the timeout.
unfoldable pub recv_loop : List ℕ → ℕ → List Arrival → Outcome (List ℕ) × List Arrival
recv_loop got n [] = if leb n (length got) then (ok got, []) else (raise connection_error, [])
recv_loop got n (timeout ∷ rest) =
    if leb n (length got) then (ok got, timeout ∷ rest) else (raise connection_error, rest)
recv_loop got n (closed ∷ rest) =
    if leb n (length got) then (ok got, closed ∷ rest) else (raise connection_error, closed ∷ rest)
recv_loop got n (chunk b bs ∷ rest) =
    let wanted = n - length got in
    let later = recv_loop (got ++ (b ∷ bs)) n rest in
    if leb n (length got)
    then (ok got, chunk b bs ∷ rest)
    else if leb (length (b ∷ bs)) wanted
    then later
    else (ok (got ++ take wanted (b ∷ bs)), put_back (drop wanted (b ∷ bs)) rest)

unfoldable pub recv_exact : ℕ → List Arrival → Outcome (List ℕ) × List Arrival
recv_exact n arrivals = recv_loop [] n arrivals
