-- ===== src/Client/Send/Tests.antt =====
-- A batch that is redirected once and then acknowledged, and the theorems on that run.
use raft_lsmt.Base.{
  ℕ, ◌+◌, ◌≤◌, ◌≡◌, ◌≢◌, refl, String, some, List, [], ◌∷◌, ◌++◌, arith, length, All, Any, ◌==◌,
  nat_key, if◌then◌else◌, string_key, ok, raise, value_error, runtime_error,
}
use raft_lsmt.Base.Dict
use raft_lsmt.Base.Dict.{Dict}
use raft_lsmt.Client.Datatypes.{Node, Record, int}
use raft_lsmt.Client.Registry.{LeaderRegistry, get_leader, set_leader, clear_leader}
use raft_lsmt.Client.Registry
use raft_lsmt.Client.Struct.{pack_uint, pack_qq, to_le}
use raft_lsmt.Client.Routing.Target.{modulo, or_raise}
use raft_lsmt.Client.Wire.Batch.{serialize_batch, serialize_content, pack_int}
use raft_lsmt.Client.Wire.Stream.{chunk, recv_exact, recv_loop}
use raft_lsmt.Client.Send.Redirect.{
  lstrip, rstrip, strip, starts_with, split, read_digits, signed, int_of_stripped, int_of,
  find_node, found, redirect_parts, redirect_target, redirect_word,
}
use raft_lsmt.Client.Send.{
  WriteConnection, socket, recv, read_acks, read_redirect, read_reply, attempt, choose, Round, Job,
  payload_size, report, sleep_time, try_node, pass, delivered, failed, running, Sending,
  backoff_delay, after_pass, send_loop, send_batch,
}
use raft_lsmt.Client.Send.Loops.{Redirects, redirects_unbounded}
use raft_lsmt.Client.Send.Ends.{send_batch_ends}
use raft_lsmt.Client.Send.Reports.{AllAcknowledge, callback_resends}
use raft_lsmt.Client.Send.Delivery.{Acknowledges, send_batch_delivered}

abbrev node : ℕ → Node
node id = record { cluster_name = "A"; id = id; host = "127.0.0.1"; port = 18090 + id }

abbrev clusters : Dict String (List Node)
clusters = ("A", node 1 ∷ node 2 ∷ []) ∷ []

abbrev batch : List Record
batch =
    record { key_id = 1; timestamp = 5; content = int 1 }
    ∷ record { key_id = 2; timestamp = 6; content = int 2 }
    ∷ []

-- `REDIRECT 2 h`, and a line feed.
abbrev redirect_2 : List ℕ
redirect_2 = redirect_word ++ (32 ∷ 50 ∷ 32 ∷ 104 ∷ 10 ∷ [])

abbrev ascii : List ℕ → List ℕ
ascii bytes = bytes

target_2 : redirect_target redirect_2 (node 1 ∷ node 2 ∷ []) ≡ ok (node 2)
unfolding redirect_target strip lstrip rstrip starts_with split redirect_parts int_of
    int_of_stripped signed read_digits find_node found
target_2 = refl

-- The first node redirects, and the second acknowledges.
abbrev reply_of : Node → WriteConnection
reply_of n =
    if n.id == 2
    then socket (λ bytes. ok (chunk 0 [] ∷ chunk 0 [] ∷ []))
    else socket (λ bytes.
      ok (chunk 82 (69 ∷ 68 ∷ 73 ∷ 82 ∷ 69 ∷ 67 ∷ 84 ∷ 32 ∷ 50 ∷ 32 ∷ 104 ∷ 10 ∷ []) ∷ []))

abbrev round : Round
round = record {
  before = λ r. r;
  during = λ r. r;
  connection = reply_of;
  ack_time = 12;
  jitter = λ d. 0;
}

abbrev job : Job
job = record { write_cb = some (λ m. ok tt); batch = batch; send_time = 10 }

abbrev run : List Round → Sending
run rounds = send_batch ascii 1 clusters (some (node 1)) job rounds Registry.init

run_delivered : (run (round ∷ round ∷ [])).result ≡ delivered (node 2)
unfolding send_batch send_loop after_pass pass try_node choose attempt read_reply read_redirect
    read_acks recv recv_exact recv_loop redirect_target strip lstrip rstrip starts_with split
    redirect_parts int_of int_of_stripped signed read_digits find_node found serialize_batch
    serialize_content pack_int pack_uint pack_qq modulo or_raise get_leader set_leader clear_leader
    Dict.get Dict.set Dict.get_default backoff_delay sleep_time report payload_size
run_delivered = refl

run_redirects : (run (round ∷ round ∷ [])).redirects ≡ 1
unfolding send_batch send_loop after_pass pass try_node choose attempt read_reply read_redirect
    read_acks recv recv_exact recv_loop redirect_target strip lstrip rstrip starts_with split
    redirect_parts int_of int_of_stripped signed read_digits find_node found serialize_batch
    serialize_content pack_int pack_uint pack_qq modulo or_raise get_leader set_leader clear_leader
    Dict.get Dict.set Dict.get_default backoff_delay sleep_time report payload_size
run_redirects = refl

send_batch_delivered_example :
    Any (λ r. Acknowledges batch (r.connection (node 2))) (round ∷ round ∷ [])
send_batch_delivered_example =
    send_batch_delivered ascii 1 clusters (some (node 1)) job (round ∷ round ∷ []) Registry.init
      (node 2) run_delivered

send_batch_ends_example :
    ((run (round ∷ round ∷ [])).result ≢ running)
    × (length (run (round ∷ round ∷ [])).pauses ≤ 1)
    × All (λ d. d ≤ 2200) (run (round ∷ round ∷ [])).pauses
send_batch_ends_example =
    send_batch_ends ascii 1 clusters (some (node 1)) job (round ∷ round ∷ []) Registry.init
      (omega (arith, run_redirects))

-- Both nodes redirect to the second.
abbrev stuck : Round
stuck = record {
  before = λ r. r;
  during = λ r. r;
  connection = λ n. reply_of (node 1);
  ack_time = 5;
  jitter = λ d. 0;
}

stuck-Redirects : Redirects ascii (node 1 ∷ node 2 ∷ []) job stuck
unfolding attempt read_reply read_redirect recv redirect_target strip lstrip rstrip starts_with
    split redirect_parts int_of int_of_stripped signed read_digits find_node found serialize_batch
    serialize_content pack_int pack_uint pack_qq
stuck-Redirects n = (node 2, refl)

redirects_unbounded_example :
    ((send_loop ascii 1 "A"
        (node 1 ∷ node 2 ∷ [])
        job
        (stuck ∷ stuck ∷ stuck ∷ [])
        0
        Registry.init).result
      ≡ running)
    × ((send_loop ascii 1 "A"
          (node 1 ∷ node 2 ∷ [])
          job
          (stuck ∷ stuck ∷ stuck ∷ [])
          0
          Registry.init).redirects
        ≡ 3)
    × ((send_loop ascii 1 "A"
          (node 1 ∷ node 2 ∷ [])
          job
          (stuck ∷ stuck ∷ stuck ∷ [])
          0
          Registry.init).pauses
        ≡ [])
redirects_unbounded_example =
    redirects_unbounded ascii 1 "A" (node 1 ∷ node 2 ∷ []) job (stuck ∷ stuck ∷ stuck ∷ []) 0
      Registry.init (omega arith) (omega arith)
      (stuck-Redirects, (stuck-Redirects, (stuck-Redirects, tt)))

returned :
    (run (round ∷ round ∷ [])).reported
    ≡ record { send_time_ms = 10; ack_recv_time_ms = 12; record_count = 2; batch_bytes = 66 } ∷ []
unfolding send_batch send_loop after_pass pass try_node choose attempt read_reply read_redirect
    read_acks recv recv_exact recv_loop redirect_target strip lstrip rstrip starts_with split
    redirect_parts int_of int_of_stripped signed read_digits find_node found serialize_batch
    serialize_content pack_int pack_uint pack_qq modulo or_raise get_leader set_leader clear_leader
    Dict.get Dict.set Dict.get_default backoff_delay sleep_time report payload_size to_le
returned = refl

-- Every node acknowledges, and the callback raises.
abbrev served : Round
served = record round { connection = λ n. socket (λ bytes. ok (chunk 0 (0 ∷ []) ∷ [])) }

abbrev raising : Job
raising = record job { write_cb = some (λ m. raise value_error) }

served-AllAcknowledge : AllAcknowledge ascii (node 1 ∷ []) raising served
unfolding attempt read_reply read_acks recv recv_exact recv_loop serialize_batch serialize_content
    pack_int pack_uint pack_qq
served-AllAcknowledge n = refl

abbrev run_raising : Sending
run_raising = send_loop ascii 2 "A" (node 1 ∷ []) raising (served ∷ served ∷ []) 0 Registry.init

callback_resends_example :
    (run_raising.result ≡ failed runtime_error) × (length run_raising.reported ≡ 2)
callback_resends_example =
    callback_resends ascii 2 "A" (node 1 ∷ []) raising (served ∷ served ∷ []) 0 Registry.init
      (λ m. raise value_error) value_error (omega arith) (omega arith) refl (λ m. refl)
      (served-AllAcknowledge, (served-AllAcknowledge, tt))
