-- ===== src/Bench/WriteBench.antt =====
-- write-bench.py, `bench`: the records of the stream go to the client in chunks, and a flush at the
-- end sends what waits and waits for it. The pauses, what is printed, and the waiting for the other
-- futures are left out. `not_done` says which futures are not done when the loop has waited for one
-- of them, `deliver` how the batches of the flush end, in the order in which they do, and `meanwhile`
-- what the batches under way have done to the leader registry between the calls of `write`, and at
-- the end: a call of `write` sees the leaders as they are when it begins.
pub mod Conserve
mod Tests
use raft_lsmt.Base.{
  ℕ, ◌+◌, ◌*◌, ◌%◌, String, List, [], ◌∷◌, ◌++◌, length, leb, ltb, if◌then◌else◌, Outcome, ok,
  ◌>>=◌,
}
use raft_lsmt.Client.Datatypes.{Record}
use raft_lsmt.Client.Registry.{LeaderChange}
use raft_lsmt.Client.Db.{DbClient, see_leaders}
use raft_lsmt.Client.Write.{Batch, write, flush, await_all}
use raft_lsmt.Bench.Streams.{Yielded, record_stream}

abbrev pub buffer_size : ℕ
buffer_size = 8192

-- The variables of `bench`. `handed` is every batch that the client was made to send so far; a
-- future is named by its batch.
pub record WriteBench : Type 0 where
  pub dbclient : DbClient
  pub batch_buffer : List Record
  pub total_processed : ℕ
  pub futures : List Batch
  pub handed : List Batch

-- `dbclient.write(batch_buffer)`, and its futures to the others.
unfoldable pub submit_buffer :
    (List ℕ → List ℕ) → (WriteBench → List LeaderChange) → WriteBench → Outcome WriteBench
submit_buffer md5 meanwhile bench =
    let client = see_leaders (meanwhile bench) bench.dbclient in
    let written = write md5 client bench.batch_buffer in
    written.0 >>= λ fs. ok (record bench {
      dbclient = written.1;
      batch_buffer = [];
      futures = bench.futures ++ fs;
      handed = bench.handed ++ fs;
    })

-- With more than 512 futures in flight, one of them is waited for.
unfoldable pub throttle : (List Batch → List Batch) → WriteBench → WriteBench
throttle not_done bench =
    if ltb 512 (length bench.futures)
    then record bench { futures = not_done bench.futures }
    else bench

abbrev pub take_record : Record → WriteBench → WriteBench
take_record rec bench = record bench {
  batch_buffer = bench.batch_buffer ++ rec ∷ [];
  total_processed = bench.total_processed + 1;
}

-- One record of the stream.
unfoldable pub receive :
    (List ℕ → List ℕ)
    → (WriteBench → List LeaderChange)
    → (List Batch → List Batch)
    → Record
    → WriteBench
    → Outcome WriteBench
receive md5 meanwhile not_done rec bench =
    let bench' = take_record rec bench in
    if leb buffer_size (length bench'.batch_buffer)
    then (submit_buffer md5 meanwhile bench' >>= λ done. ok (throttle not_done done))
    else ok bench'

unfoldable pub receive_all :
    (List ℕ → List ℕ)
    → (WriteBench → List LeaderChange)
    → (List Batch → List Batch)
    → List Record
    → WriteBench
    → Outcome WriteBench
receive_all md5 meanwhile not_done [] bench = ok bench
receive_all md5 meanwhile not_done (rec ∷ recs) bench =
    receive md5 meanwhile not_done rec bench >>= λ bench'.
    receive_all md5 meanwhile not_done recs bench'

-- Any remaining records.
unfoldable pub submit_some :
    (List ℕ → List ℕ)
    → (WriteBench → List LeaderChange)
    → List Record
    → WriteBench
    → Outcome WriteBench
submit_some md5 meanwhile [] bench = ok bench
submit_some md5 meanwhile (rec ∷ recs) bench = submit_buffer md5 meanwhile bench

abbrev pub submit_rest :
    (List ℕ → List ℕ) → (WriteBench → List LeaderChange) → WriteBench → Outcome WriteBench
submit_rest md5 meanwhile bench = submit_some md5 meanwhile bench.batch_buffer bench

-- `dbclient.flush()`, which raises where a batch does not arrive.
unfoldable pub flush_client :
    (WriteBench → List LeaderChange)
    → (List Batch → List (Outcome (Unit {0})))
    → WriteBench
    → Outcome WriteBench
flush_client meanwhile deliver bench =
    let flushed = flush bench.dbclient in
    await_all (deliver flushed.0) >>= λ u. ok (record bench {
      dbclient = see_leaders (meanwhile bench) flushed.1;
      handed = bench.handed ++ flushed.0;
    })

-- `bench` on what the stream yields: the stream's own exception comes after its records.
unfoldable pub run_bench :
    (List ℕ → List ℕ)
    → (WriteBench → List LeaderChange)
    → (List Batch → List Batch)
    → (List Batch → List (Outcome (Unit {0})))
    → Yielded Record
    → DbClient
    → Outcome WriteBench
run_bench md5 meanwhile not_done deliver stream dbclient = do
  let begun : WriteBench = record {
    dbclient = dbclient;
    batch_buffer = [];
    total_processed = 0;
    futures = [];
    handed = [];
  }
  received ← receive_all md5 meanwhile not_done stream.0 begun
  ended ← stream.1
  submitted ← submit_rest md5 meanwhile received
  flush_client meanwhile deliver submitted

-- The stream of `bench` at the time `now_ms`.
abbrev pub bench_stream :
    (ℕ → ℕ → ℕ → Outcome ℕ) → (ℕ → ℕ → ℕ) → ℕ → String → ℕ → ℕ → ℕ → ℕ → Yielded Record
bench_stream randint inverse_cdf now_ms data_dist requests key_start key_end worker_id =
    let base_ts = now_ms * 100 + worker_id % 100 in
    record_stream randint inverse_cdf requests data_dist key_start key_end base_ts

unfoldable pub bench :
    (List ℕ → List ℕ)
    → (WriteBench → List LeaderChange)
    → (List Batch → List Batch)
    → (List Batch → List (Outcome (Unit {0})))
    → (ℕ → ℕ → ℕ → Outcome ℕ)
    → (ℕ → ℕ → ℕ)
    → ℕ
    → DbClient
    → String
    → ℕ
    → ℕ
    → ℕ
    → ℕ
    → Outcome WriteBench
bench md5 meanwhile not_done deliver randint inverse_cdf now_ms dbclient data_dist requests
      key_start key_end worker_id =
    run_bench md5 meanwhile not_done deliver
      (bench_stream randint inverse_cdf now_ms data_dist requests key_start key_end worker_id)
      dbclient
