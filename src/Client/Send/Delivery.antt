-- ===== src/Client/Send/Delivery.antt =====
-- What a batch that `_send_batch` reports as delivered has been through.
use raft_lsmt.Base.{
  ℕ, ◌+◌, ◌-◌, ◌≤◌, ◌≡◌, ◌≢◌, ◌⊎◌, inl, inr, refl, sym, ap, ◌∙◌, String, Option, none, some, List,
  [], ◌∷◌, arith, length, ltb, Bool-cases, Any, here, there, Outcome-cases, ok, raise, ok_injective,
  bind_ok, subst, ◌>>=◌, ◌==◌, nat_key, Exception, Outcome, string_key,
}
use raft_lsmt.Base.Dict
use native.Mathlib.Decide.{dec_le}
use raft_lsmt.Client.Datatypes.{Node, Record, BatchMetrics}
use raft_lsmt.Client.Registry.{LeaderRegistry, get_leader}
use raft_lsmt.Client.Wire.Batch.{serialize_batch}
use raft_lsmt.Client.Wire.Stream.{Arrival, chunk, closed, timeout, put_back}
use raft_lsmt.Client.Wire.Stream.Chunks.{stream, stream-put_back, recv_exact_short}
use raft_lsmt.Client.Send.Redirect.{redirect_target}
use raft_lsmt.Client.Send.{
  WriteConnection, no_socket, socket, recv, acknowledged, redirected, read_acks, read_redirect,
  read_reply, attempt, choose, try_node, Round, Pass, sent, stopped, again, retry, pass, delivered,
  Job, report, Sending, send_loop, after_pass, send_batch,
}

-- The bytes of the batch were given to `sendall`, and behind them one byte arrived for every record
-- of it at least.
abbrev pub Acknowledges : List Record → WriteConnection → Type 0
Acknowledges batch connection =
    (sendall : (List ℕ → Outcome (List Arrival))) × (payload : List ℕ) × (arrivals : List Arrival)
    × (connection ≡ socket sendall)
    × (serialize_batch batch ≡ ok payload)
    × (sendall payload ≡ ok arrivals)
    × (length batch ≤ length (stream arrivals))

redirected-acknowledged : {n : Node} → redirected n ≢ acknowledged
redirected-acknowledged e = cc

ok-raise {ℓ} : {A : Type ℓ} {v : A} {x : Exception} → ok v ≢ raise x
ok-raise e = cc

read_redirect-acknowledged :
    (decode : List ℕ → List ℕ) (nodes : List Node) (arrivals : List Arrival)
    → read_redirect decode nodes arrivals ≢ ok acknowledged
unfolding read_redirect
read_redirect-acknowledged decode nodes arrivals e =
    let (rest, e1, e2) =
      bind_ok (recv 255 arrivals).0
        (λ rest. redirect_target (decode (82 ∷ rest)) nodes >>= λ n. ok (redirected n)) e in
    let (n, e3, e4) =
      bind_ok (redirect_target (decode (82 ∷ rest)) nodes) (λ n. ok (redirected n)) e2 in
    redirected-acknowledged {n = n} (ok_injective e4)

-- As many acknowledgements as are waited for have arrived.
read_acks-stream :
    (remaining : ℕ) (arrivals : List Arrival)
    → read_acks remaining arrivals ≡ ok acknowledged
    → remaining ≤ length (stream arrivals)
unfolding read_acks
read_acks-stream remaining arrivals e = elim (dec_le remaining (length (stream arrivals))) [
  | yes enough ↦ enough
  | no short ↦
      let missing = recv_exact_short remaining arrivals (omega arith) in
      elim (Bool-cases (remaining == 0)) [
        | inl zero_left ↦ ground arith
        | inr some_left ↦
            let (acks, e1, e2) = bind_ok _ _ (rw some_left at e) in
            absurd (ok-raise (sym e1 ∙ missing))
      ]
]

-- One byte is read, and the others behind it.
read_reply-stream :
    (decode : List ℕ → List ℕ) (nodes : List Node) (batch : List Record) (b : ℕ)
    (arrivals : List Arrival)
    → read_reply decode nodes batch (b ∷ []) arrivals ≡ ok acknowledged
    → length batch ≤ 1 + length (stream arrivals)
unfolding read_reply
read_reply-stream decode nodes batch b arrivals e = elim (Bool-cases (b == 82)) [
  | inl letter ↦ absurd (read_redirect-acknowledged decode nodes arrivals (rw letter at e))
  | inr ack ↦ omega (arith, read_acks-stream (length batch - 1) arrivals (rw ack at e))
]

first_byte_stream :
    (decode : List ℕ → List ℕ) (nodes : List Node) (batch : List Record) (arrivals : List Arrival)
    → ((recv 1 arrivals).0 >>= λ first_byte.
        read_reply decode nodes batch first_byte (recv 1 arrivals).1)
      ≡ ok acknowledged
    → length batch ≤ length (stream arrivals)
unfolding recv
first_byte_stream decode nodes batch [] e = cc
first_byte_stream decode nodes batch (timeout ∷ rest) e = cc
first_byte_stream decode nodes batch (closed ∷ rest) e = unfold read_reply in cc
first_byte_stream decode nodes batch (chunk b bs ∷ rest) e = omega (
  arith,
  read_reply-stream decode nodes batch b (put_back bs rest) e,
  ap length (stream-put_back bs rest),
)

attempt-Acknowledges :
    (decode : List ℕ → List ℕ) (nodes : List Node) (batch : List Record) (c : WriteConnection)
    → attempt decode nodes batch c ≡ ok acknowledged
    → Acknowledges batch c
unfolding attempt
attempt-Acknowledges decode nodes batch (no_socket x) e = cc
attempt-Acknowledges decode nodes batch (socket sendall) e =
    let (payload, e1, f1) = bind_ok (serialize_batch batch) _ e in
    let (arrivals, e2, f2) = bind_ok (sendall payload) _ f1 in
    (sendall, payload, arrivals, refl, e1, e2, first_byte_stream decode nodes batch arrivals f2)

-- What a pass has that ends with `sent`.
abbrev SentBy : (List ℕ → List ℕ) → Job → Round → Node → Pass → Type 0
SentBy decode job round target (sent n now calls) =
    n ≡ target → Acknowledges job.batch (round.connection target)
SentBy decode job round target (stopped x now) = Unit {0}
SentBy decode job round target (again now) = Unit {0}
SentBy decode job round target (retry now calls) = Unit {0}

report-SentBy :
    (decode : List ℕ → List ℕ) (job : Job) (round : Round) (target current : Node)
    (write_cb : Option (BatchMetrics → Outcome (Unit {0}))) (metrics : BatchMetrics)
    (now : LeaderRegistry)
    → Acknowledges job.batch (round.connection current)
    → SentBy decode job round target (report write_cb metrics current now)
unfolding report
report-SentBy decode job round target current none metrics now got =
    λ same. subst (λ n. Acknowledges job.batch (round.connection n)) same got
report-SentBy decode job round target current (some write_cb) metrics now got =
    elim (Outcome-cases (write_cb metrics)) [
      | inl (u, fine) ↦
          rw (fine, report)
            (λ same. subst (λ n. Acknowledges job.batch (round.connection n)) same got)
      | inr (x, wrong) ↦ rw (wrong, report) tt
    ]

try_node-SentBy :
    (decode : List ℕ → List ℕ) (nodes : List Node) (job : Job) (round : Round)
    (current target : Node) (registry : LeaderRegistry)
    → SentBy decode job round target (try_node decode nodes job round current registry)
unfolding try_node
try_node-SentBy decode nodes job round current target registry =
    elim (Outcome-cases (attempt decode nodes job.batch (round.connection current))) [
      | inr (x, miss) ↦ rw (miss, try_node) tt
      | inl (acknowledged, hit) ↦
          rw (hit, try_node)
            (report-SentBy decode job round target current job.write_cb _ _
              (attempt-Acknowledges decode nodes job.batch (round.connection current) hit))
      | inl (redirected n, hit) ↦ rw (hit, try_node) tt
    ]

pass-SentBy :
    (decode : List ℕ → List ℕ) (cluster_name : String) (nodes : List Node) (job : Job)
    (round : Round) (retries : ℕ) (registry : LeaderRegistry) (target : Node)
    → SentBy decode job round target (pass decode cluster_name nodes job round retries registry)
unfolding pass
pass-SentBy decode cluster_name nodes job round retries registry target =
    elim (Outcome-cases (choose nodes retries (get_leader (round.before registry) cluster_name))) [
      | inr (x, miss) ↦ rw (miss, pass) tt
      | inl (current, hit) ↦
          rw (hit, pass)
            (try_node-SentBy decode nodes job round current target
              (round.during (round.before registry)))
    ]

after_pass-delivered :
    (decode : List ℕ → List ℕ) (job : Job) (round : Round) (jitter : ℕ → ℕ) (step : Pass)
    (retries : ℕ) (rest : ℕ → LeaderRegistry → Sending) (target : Node)
    → SentBy decode job round target step
    → (after_pass jitter step retries rest).result ≡ delivered target
    → Acknowledges job.batch (round.connection target)
      ⊎ ((r : ℕ) × (now : LeaderRegistry) × ((rest r now).result ≡ delivered target))
unfolding after_pass
after_pass-delivered decode job round jitter (sent n now calls) retries rest target got e =
    let same : n ≡ target = cc in inl (got same)
after_pass-delivered decode job round jitter (stopped x now) retries rest target got e = cc
after_pass-delivered decode job round jitter (again now) retries rest target got e =
    inr (retries, now, e)
after_pass-delivered decode job round jitter (retry now calls) retries rest target got e =
    inr (retries + 1, now, e)

module _ (decode : List ℕ → List ℕ) (max_retries : ℕ) (cluster_name : String) (nodes : List Node)
    (job : Job) (target : Node) where
  loop_delivered :
      (rounds : List Round) (retries : ℕ) (registry : LeaderRegistry)
      → (send_loop decode max_retries cluster_name nodes job rounds retries registry).result
        ≡ delivered target
      → Any (λ round. Acknowledges job.batch (round.connection target)) rounds
  unfolding send_loop
  loop_delivered [] retries registry e = elim (Bool-cases (ltb retries max_retries)) [
    | inl more ↦ cc (rw more at e)
    | inr spent ↦ cc (rw spent at e)
  ]
  loop_delivered (round ∷ rounds) retries registry e = elim (Bool-cases (ltb retries max_retries)) [
    | inr spent ↦ cc (rw (spent, send_loop) at e)
    | inl more ↦
        let got = pass-SentBy decode cluster_name nodes job round retries registry target in
        elim (after_pass-delivered decode job round round.jitter _ retries _ target got
          (rw (more, send_loop) at e)) [
            | inl acked ↦ here acked
            | inr (r, now, later) ↦ there (loop_delivered rounds r now later)
          ]
  ]

-- Where a batch is reported as delivered to a node, then in one of the rounds the bytes of the batch
-- were given to `sendall` on a connection to that node, which returned or broke with an error that is
-- ignored, and behind that one byte arrived for every record of the batch at least, whatever the
-- other nodes and threads did.
pub send_batch_delivered :
    (decode : List ℕ → List ℕ) (max_retries : ℕ) (clusters : Dict.Dict String (List Node))
    (node : Option Node) (job : Job) (rounds : List Round) (registry : LeaderRegistry)
    (target : Node)
    → (send_batch decode max_retries clusters node job rounds registry).result ≡ delivered target
    → Any (λ round. Acknowledges job.batch (round.connection target)) rounds
unfolding send_batch
send_batch_delivered decode max_retries clusters none job rounds registry target e = cc
send_batch_delivered decode max_retries clusters (some first) job rounds registry target e =
    loop_delivered decode max_retries first.cluster_name
      (Dict.get_default clusters first.cluster_name []) job target rounds 0 registry e
