-- ===== src/Cli.antt =====
-- cli.py: the interactive loop over a client. A line is the list of its words, as `str.split` gives
-- them; numbers that are typed are not negative. What is printed is left out but for its kind, and
-- so are the throughput figures behind GENERATE, and the interrupt by the keyboard, which goes on. A
-- line sees the leader registry as it is when the line is read: what the batches under way do to it
-- while a call of `write` routes its records counts as done before the next line.
pub mod Keeps
pub mod Show
mod Tests
use raft_lsmt.Base.{
  ℕ, zero, suc, ◌+◌, String, Bool, true, false, List, [], ◌∷◌, ◌++◌, length, min, ◌==◌, ◌||◌,
  string_key, if◌then◌else◌, Outcome, ok, raise, ◌>>=◌, Exception, value_error,
}
use raft_lsmt.Client.Datatypes.{Record, int, QueryRequest}
use raft_lsmt.Client.Registry.{LeaderChange}
use raft_lsmt.Client.Db.{DbClient, see_leaders}
use raft_lsmt.Client.Write.{Batch, write, flush, await_all}
use raft_lsmt.Client.Sockets.{Sockets, disconnect}
use raft_lsmt.Client.Read.{Reading, Results, start, conclude}
use raft_lsmt.Bench.Streams.{range_keys}

-- What surrounds one line: Python's `upper` and `int`, hashlib.md5, the clock, `random.shuffle`, and
-- `random.choices`, which gets the number of the call and the size of the population; how the rounds
-- of a read end, with the counter of request numbers afterwards; how the batches of a flush end, in
-- the order in which they do; and what the batches that are under way, or were waited for, have done
-- to the leader registry since the line before.
pub record Outside : Type 0 where
  pub upper : String → String
  pub int_of : String → Outcome ℕ
  pub md5 : List ℕ → List ℕ
  pub now_ms : ℕ
  pub shuffle : List ℕ → List ℕ
  pub choices : ℕ → ℕ → ℕ
  pub aggregate : Reading → Outcome Reading × ℕ
  pub deliver : List Batch → List (Outcome (Unit {0}))
  pub leaders : List LeaderChange

-- The client, and every batch that it was made to send so far.
pub record Cli : Type 0 where
  pub dbclient : DbClient
  pub sockets : Sockets
  pub handed : List Batch

-- What a line is answered with; of the records that are sent, the source prints the number.
pub data Said : Type 0 where
  nothing : Said
  usage : Said
  sending : List Record → Said
  queued : Record → Said
  shown : Results → Said
  flushed_all : Said
  goodbye : Said
  unknown : String → Said
  error : Exception → Said

-- `[zipf.next() for _ in range(amount)]`, from call `i` on.
unfoldable pub zipf_keys : (ℕ → ℕ → ℕ) → ℕ → ℕ → ℕ → List ℕ
zipf_keys choices size i zero = []
zipf_keys choices size i (suc amount) = choices i size ∷ zipf_keys choices size (suc i) amount

unfoldable pub bulk_keys : Outside → ℕ → String → Outcome (List ℕ)
bulk_keys outside amount data_distribution =
    if data_distribution == "sequential"
    then ok (range_keys 1 amount)
    else if data_distribution == "uniform"
    then ok (outside.shuffle (range_keys 1 amount))
    else if data_distribution == "zipfian"
    then ok (zipf_keys outside.choices (min amount 100000) 0 amount)
    else raise value_error

-- The records of the keys; the timestamps are 1 apart.
unfoldable pub numbered_records : ℕ → List ℕ → List Record
numbered_records current_ts [] = []
numbered_records current_ts (key_id ∷ keys) =
    record { key_id = key_id; timestamp = current_ts; content = int key_id }
    ∷ numbered_records (current_ts + 1) keys

unfoldable pub bulk_records : Outside → ℕ → String → ℕ → Outcome (List Record)
bulk_records outside amount data_distribution base_timestamp =
    bulk_keys outside amount data_distribution >>= λ keys. ok (numbered_records base_timestamp keys)

-- `dbclient.write(records)`, answered with `said` where it returns.
unfoldable pub write_records : Outside → Said → List Record → Cli → Said × Cli
write_records outside said records cli =
    let written = write outside.md5 cli.dbclient records in
    elim written.0 [
      | raise x ↦ (error x, record cli { dbclient = written.1 })
      | ok batches ↦ (said, record cli { dbclient = written.1; handed = cli.handed ++ batches })
    ]

abbrev pub distribution_of : List String → String
distribution_of [] = "sequential"
distribution_of (data_dist ∷ rest) = data_dist

unfoldable pub generate : Outside → List String → Cli → Said × Cli
generate outside [] cli = (usage, cli)
generate outside (amount ∷ rest) cli =
    let records = outside.int_of amount >>= λ amount'.
    bulk_records outside amount' (distribution_of rest) outside.now_ms in
    elim records [
      | raise x ↦ (error x, cli)
      | ok records' ↦ write_records outside (sending records') records' cli
    ]

unfoldable pub typed_record : Outside → String → String → String → Outcome Record
typed_record outside key_id timestamp content = do
  key_id' ← outside.int_of key_id
  timestamp' ← outside.int_of timestamp
  content' ← outside.int_of content
  ok (record { key_id = key_id'; timestamp = timestamp'; content = int content' })

unfoldable pub insert : Outside → List String → Cli → Said × Cli
insert outside [] cli = (usage, cli)
insert outside (key_id ∷ []) cli = (usage, cli)
insert outside (key_id ∷ timestamp ∷ []) cli = (usage, cli)
insert outside (key_id ∷ timestamp ∷ content ∷ rest) cli =
    elim (typed_record outside key_id timestamp content) [
      | raise x ↦ (error x, cli)
      | ok rec ↦ write_records outside (queued rec) (rec ∷ []) cli
    ]

unfoldable pub typed_query : Outside → String → String → String → String → Outcome QueryRequest
typed_query outside min_id min_ts max_id max_ts = do
  min_id' ← outside.int_of min_id
  min_ts' ← outside.int_of min_ts
  max_id' ← outside.int_of max_id
  max_ts' ← outside.int_of max_ts
  ok (record {
    min_id = min_id';
    min_ts = min_ts';
    max_id = max_id';
    max_ts = max_ts';
    query_id = 0;
  })

-- `dbclient.read(query).result()`.
unfoldable pub read_query : Outside → QueryRequest → Cli → Said × Cli
read_query outside query cli =
    let client = cli.dbclient in
    elim (start client.router client.next_req_id query) [
      | raise x ↦ (error x, cli)
      | ok started ↦
          let run = outside.aggregate started.0 in
          let cli' = record cli {
            dbclient = record client { router = started.1; next_req_id = run.1 };
          } in
          elim (conclude run.0) [ raise x ↦ (error x, cli') | ok results ↦ (shown results, cli') ]
    ]

unfoldable pub query : Outside → List String → Cli → Said × Cli
query outside [] cli = (usage, cli)
query outside (min_id ∷ []) cli = (usage, cli)
query outside (min_id ∷ min_ts ∷ []) cli = (usage, cli)
query outside (min_id ∷ min_ts ∷ max_id ∷ []) cli = (usage, cli)
query outside (min_id ∷ min_ts ∷ max_id ∷ max_ts ∷ rest) cli =
    elim (typed_query outside min_id min_ts max_id max_ts) [
      | raise x ↦ (error x, cli)
      | ok query' ↦ read_query outside query' cli
    ]

-- `dbclient.flush()`, which raises where a batch does not arrive.
unfoldable pub flush_command : Outside → Cli → Said × Cli
flush_command outside cli =
    let done = flush cli.dbclient in
    let cli' = record cli { dbclient = done.1; handed = cli.handed ++ done.0 } in
    elim (await_all (outside.deliver done.0)) [
      | raise x ↦ (error x, cli')
      | ok u ↦ (flushed_all, cli')
    ]

unfoldable pub command : Outside → String → List String → Cli → Said × Cli
command outside cmd args cli =
    if cmd == "GENERATE"
    then generate outside args cli
    else if cmd == "INSERT"
    then insert outside args cli
    else if cmd == "QUERY"
    then query outside args cli
    else if cmd == "FLUSH"
    then flush_command outside cli
    else if cmd == "EXIT" || cmd == "QUIT"
    then (goodbye, record cli { sockets = disconnect cli.sockets })
    else (unknown cmd, cli)

-- One line.
unfoldable pub answer : Outside → List String → Cli → Said × Cli
answer outside [] cli = (nothing, cli)
answer outside (word ∷ args) cli = command outside (outside.upper word) args cli

-- The client when a line is answered, with the leaders as they are by then.
abbrev pub seen : Outside → Cli → Cli
seen outside cli = record cli { dbclient = see_leaders outside.leaders cli.dbclient }

-- The records that an answer says were taken.
abbrev pub accepted : Said → List Record
accepted nothing = []
accepted usage = []
accepted (sending recs) = recs
accepted (queued rec) = rec ∷ []
accepted (shown results) = []
accepted flushed_all = []
accepted goodbye = []
accepted (unknown cmd) = []
accepted (error x) = []

abbrev pub ends : Said → Bool
ends goodbye = true
ends nothing = false
ends usage = false
ends (sending recs) = false
ends (queued rec) = false
ends (shown results) = false
ends flushed_all = false
ends (unknown cmd) = false
ends (error x) = false

-- The loop, on the lines that are typed.
unfoldable pub loop : List (Outside × List String) → Cli → List Said × Cli
loop [] cli = ([], cli)
loop ((outside, line) ∷ lines) cli =
    let answered = answer outside line (seen outside cli) in
    let rest = loop lines answered.1 in
    if ends answered.0 then (answered.0 ∷ [], answered.1) else (answered.0 ∷ rest.0, rest.1)
