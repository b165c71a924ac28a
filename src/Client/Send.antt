-- ===== src/Client/Send.antt =====
-- client/dbclient.py, `_flush_batch` and its `_send_batch`: a batch is sent to the leader of its
-- cluster, redirected, and sent again. Pauses are in milliseconds.
pub mod Redirect
pub mod Ends
pub mod Delivery
pub mod Loops
pub mod Reports
mod Tests
use raft_lsmt.Base.{
  ℕ, suc, ◌+◌, ◌-◌, ◌*◌, ◌/◌, ◌^◌, min, ◌++◌, String, Option, none, some, List, [], ◌∷◌, length,
  take, drop, get_elem?, ltb, ◌==◌, nat_key, if◌then◌else◌, true, false, Outcome, ok, raise, ◌>>=◌,
  Exception, connection_error, timeout_error, runtime_error, attribute_error, index_error,
  string_key,
}
use raft_lsmt.Base.Dict
use raft_lsmt.Client.Datatypes.{Node, Record, BatchMetrics}
use raft_lsmt.Client.Registry.{LeaderRegistry, get_leader, set_leader, clear_leader}
use raft_lsmt.Client.Routing.Target.{modulo, or_raise}
use raft_lsmt.Client.Wire.Batch.{serialize_batch}
use raft_lsmt.Client.Wire.Stream.{Arrival, chunk, closed, timeout, put_back, recv_exact}
use raft_lsmt.Client.Send.Redirect.{redirect_target}

-- What a connection does that is read from: `_get_socket` raises; `sendall` raises; or the bytes that
-- arrive.
pub data Connection : Type 0 where
  refused : Exception → Connection
  unsent : Exception → Connection
  replies : List Arrival → Connection

-- What a connection does that a batch is sent on: `_get_socket` raises; or `sendall`, given bytes,
-- raises something other than a broken pipe or a reset, or else returns, or raises one of these two,
-- which the source ignores, and then certain bytes arrive, which depend on what was given.
pub data WriteConnection : Type 0 where
  no_socket : Exception → WriteConnection
  socket : (List ℕ → Outcome (List Arrival)) → WriteConnection

-- `sock.recv(k)`; the timeout raises `socket.timeout`.
unfoldable pub recv : ℕ → List Arrival → Outcome (List ℕ) × List Arrival
recv k [] = (raise timeout_error, [])
recv k (timeout ∷ rest) = (raise timeout_error, rest)
recv k (closed ∷ rest) = (ok [], closed ∷ rest)
recv k (chunk b bs ∷ rest) = (ok (take k (b ∷ bs)), put_back (drop k (b ∷ bs)) rest)

-- How an attempt goes that raises nothing.
pub data Reply : Type 0 where
  acknowledged : Reply
  redirected : Node → Reply

-- `remaining` acknowledgements are read after the first.
unfoldable pub read_acks : ℕ → List Arrival → Outcome Reply
read_acks remaining arrivals =
    if remaining == 0
    then ok acknowledged
    else ((recv_exact remaining arrivals).0 >>= λ acks. ok acknowledged)

-- `decode` is `bytes.decode('utf-8', errors='ignore')`.
unfoldable pub read_redirect : (List ℕ → List ℕ) → List Node → List Arrival → Outcome Reply
read_redirect decode nodes arrivals = do
  rest ← (recv 255 arrivals).0
  new_leader ← redirect_target (decode (82 ∷ rest)) nodes
  ok (redirected new_leader)

-- On the first byte: none, `R`, or an acknowledgement.
unfoldable pub read_reply :
    (List ℕ → List ℕ) → List Node → List Record → List ℕ → List Arrival → Outcome Reply
read_reply decode nodes batch [] arrivals = raise connection_error
read_reply decode nodes batch (b ∷ bs) arrivals =
    if b == 82 then read_redirect decode nodes arrivals else read_acks (length batch - 1) arrivals

-- The body of the `try`, up to the changes of the registry.
unfoldable pub attempt :
    (List ℕ → List ℕ) → List Node → List Record → WriteConnection → Outcome Reply
attempt decode nodes batch (no_socket x) = raise x
attempt decode nodes batch (socket sendall) = do
  payload ← serialize_batch batch
  arrivals ← sendall payload
  first_byte ← (recv 1 arrivals).0
  read_reply decode nodes batch first_byte (recv 1 arrivals).1

-- The leader, or the node whose turn it is.
unfoldable pub choose : List Node → ℕ → Option Node → Outcome Node
choose nodes retries (some leader) = ok leader
choose nodes retries none =
    modulo retries (length nodes) >>= λ idx. or_raise (get_elem? nodes idx) index_error

-- What surrounds one pass of the loop: what other threads do to the registry before the node is
-- chosen and during the attempt, how each node's connection would go, the clock when a batch is
-- acknowledged, and what `random.uniform` gives, below a tenth of its argument.
pub record Round : Type 0 where
  pub before : LeaderRegistry → LeaderRegistry
  pub during : LeaderRegistry → LeaderRegistry
  pub connection : Node → WriteConnection
  pub ack_time : ℕ
  pub jitter : ℕ → ℕ

-- What the loop is given: the callback of the configuration, if any, the batch, and
-- `batch_send_time_ms`, which `_send_batch` reads from the clock before the loop, when a worker of the
-- pool has started it.
pub record Job : Type 0 where
  pub write_cb : Option (BatchMetrics → Outcome (Unit {0}))
  pub batch : List Record
  pub send_time : ℕ

-- How a pass ends: with a result, with `continue`, or with a retry; the registry, and the metrics
-- that the callback was called with.
pub data Pass : Type 0 where
  sent : Node → LeaderRegistry → List BatchMetrics → Pass
  stopped : Exception → LeaderRegistry → Pass
  again : LeaderRegistry → Pass
  retry : LeaderRegistry → List BatchMetrics → Pass

-- `len(payload)`, of a batch that was serialised.
unfoldable pub payload_size : List Record → ℕ
payload_size batch = elim (serialize_batch batch) [ ok payload ↦ length payload | raise x ↦ 0 ]

abbrev pub batch_metrics : Job → ℕ → BatchMetrics
batch_metrics job ack_time = record {
  send_time_ms = job.send_time;
  ack_recv_time_ms = ack_time;
  record_count = length job.batch;
  batch_bytes = payload_size job.batch;
}

-- After the acknowledgement: the callback stands inside the `try`.
unfoldable pub report :
    Option (BatchMetrics → Outcome (Unit {0})) → BatchMetrics → Node → LeaderRegistry → Pass
report none metrics current_node registry = sent current_node registry []
report (some write_cb) metrics current_node registry = elim (write_cb metrics) [
  | raise x ↦ retry (clear_leader registry current_node) (metrics ∷ [])
  | ok u ↦ sent current_node registry (metrics ∷ [])
]

-- An attempt on the node chosen.
unfoldable pub try_node : (List ℕ → List ℕ) → List Node → Job → Round → Node → LeaderRegistry → Pass
try_node decode nodes job round current_node registry =
    elim (attempt decode nodes job.batch (round.connection current_node)) [
      | raise x ↦ retry (clear_leader registry current_node) []
      | ok reply ↦ elim reply [
        | acknowledged ↦
            report job.write_cb (batch_metrics job round.ack_time) current_node
              (set_leader registry current_node)
        | redirected new_leader ↦ again (set_leader registry new_leader)
      ]
    ]

-- The choice of the node stands before the `try`: what it raises ends the loop.
unfoldable pub pass :
    (List ℕ → List ℕ) → String → List Node → Job → Round → ℕ → LeaderRegistry → Pass
pass decode cluster_name nodes job round retries registry =
    let seen = round.before registry in
    elim (choose nodes retries (get_leader seen cluster_name)) [
      | raise x ↦ stopped x seen
      | ok current_node ↦ try_node decode nodes job round current_node (round.during seen)
    ]

-- `running`: the rounds given are used up, and the loop would go on.
pub data Result : Type 0 where
  delivered : Node → Result
  failed : Exception → Result
  running : Result

pub record Sending : Type 0 where
  pub result : Result
  pub registry : LeaderRegistry
  pub redirects : ℕ
  pub pauses : List ℕ
  pub reported : List BatchMetrics

abbrev pub over : Result → LeaderRegistry → List BatchMetrics → Sending
over result registry reported = record {
  result = result;
  registry = registry;
  redirects = 0;
  pauses = [];
  reported = reported;
}

-- `min(0.1 * (2 ** (retries - 1)), 2.0)`.
unfoldable pub backoff_delay : ℕ → ℕ
backoff_delay retries = min (100 * 2 ^ (retries - 1)) 2000

-- `backoff_delay + random.uniform(0, 0.1 * backoff_delay)`.
unfoldable pub sleep_time : (ℕ → ℕ) → ℕ → ℕ
sleep_time jitter retries =
    let delay = backoff_delay retries in delay + min (jitter delay) (delay / 10)

-- What follows a pass: the end, or the loop from the new number of retries and the new registry.
unfoldable pub after_pass : (ℕ → ℕ) → Pass → ℕ → (ℕ → LeaderRegistry → Sending) → Sending
after_pass jitter (sent target now calls) retries rest = over (delivered target) now calls
after_pass jitter (stopped x now) retries rest = over (failed x) now []
after_pass jitter (again now) retries rest =
    let later = rest retries now in record later { redirects = later.redirects + 1 }
after_pass jitter (retry now calls) retries rest =
    let later = rest (retries + 1) now in
    record later {
      pauses = sleep_time jitter (retries + 1) ∷ later.pauses;
      reported = calls ++ later.reported;
    }

-- The loop, on as many rounds as are given.
unfoldable pub send_loop :
    (List ℕ → List ℕ) → ℕ → String → List Node → Job → List Round → ℕ → LeaderRegistry → Sending
send_loop decode max_retries cluster_name nodes job [] retries registry =
    if ltb retries max_retries
    then over running registry []
    else over (failed runtime_error) registry []
send_loop decode max_retries cluster_name nodes job (round ∷ rounds) retries registry =
    elim (ltb retries max_retries) [
      | false ↦ over (failed runtime_error) registry []
      | true ↦
          after_pass round.jitter (pass decode cluster_name nodes job round retries registry)
            retries (λ r now. send_loop decode max_retries cluster_name nodes job rounds r now)
    ]

-- `self.clusters.get(cluster_name, [])`, and the loop from no retries. The router may have had no
-- node for the batch.
unfoldable pub send_batch :
    (List ℕ → List ℕ)
    → ℕ
    → Dict.Dict String (List Node)
    → Option Node
    → Job
    → List Round
    → LeaderRegistry
    → Sending
send_batch decode max_retries clusters none job rounds registry =
    over (failed attribute_error) registry []
send_batch decode max_retries clusters (some target) job rounds registry =
    let nodes = Dict.get_default clusters target.cluster_name [] in
    send_loop decode max_retries target.cluster_name nodes job rounds 0 registry
