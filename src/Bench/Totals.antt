-- ===== src/Bench/Totals.antt =====
-- write-bench.py, `write_batch_cb`, and read_benchmark.py, `update_read_metrics`: the sums that the
-- callbacks keep under a lock. A time is in milliseconds, and 0 stands for none.
pub mod Sums
mod Tests
use raft_lsmt.Base.{
  ℕ, ◌+◌, ◌*◌, Option, none, some, List, [], ◌∷◌, ◌++◌, ltb, ◌==◌, nat_key, ◌||◌, if◌then◌else◌,
  Outcome, ok, raise,
}
use raft_lsmt.Client.Datatypes.{BatchMetrics, ReadRequestMetrics}
use raft_lsmt.Client.ReadBatch.{BatchResults}

-- `if first_request_time == 0.0 or send_time_ms < first_request_time`.
unfoldable pub first_time : ℕ → ℕ → ℕ
first_time first_request_time send_time_ms =
    if first_request_time == 0 || ltb send_time_ms first_request_time
    then send_time_ms
    else first_request_time

-- `if ack_recv_time_ms > last_ack_time`.
unfoldable pub last_time : ℕ → ℕ → ℕ
last_time last_ack_time recv_time_ms =
    if ltb last_ack_time recv_time_ms then recv_time_ms else last_ack_time

-- The globals of write-bench.py.
pub record WriteTotals : Type 0 where
  pub total_acked_records : ℕ
  pub total_acked_bytes : ℕ
  pub first_request_time : ℕ
  pub last_ack_time : ℕ

unfoldable pub write_batch_cb : BatchMetrics → WriteTotals → WriteTotals
write_batch_cb m totals = record {
  total_acked_records = totals.total_acked_records + m.record_count;
  total_acked_bytes = totals.total_acked_bytes + m.batch_bytes;
  first_request_time = first_time totals.first_request_time m.send_time_ms;
  last_ack_time = last_time totals.last_ack_time m.ack_recv_time_ms;
}

-- The globals of read_benchmark.py.
pub record ReadTotals : Type 0 where
  pub total_queries : ℕ
  pub total_records_read : ℕ
  pub total_bytes_read : ℕ
  pub first_request_time : ℕ
  pub last_ack_time : ℕ
  pub successful_requests : List ReadRequestMetrics

-- The globals as the program starts.
abbrev pub no_reads : ReadTotals
no_reads = record {
  total_queries = 0;
  total_records_read = 0;
  total_bytes_read = 0;
  first_request_time = 0;
  last_ack_time = 0;
  successful_requests = [];
}

-- The numbers of a request, made distinct from those of other processes.
unfoldable pub unique_metrics : ℕ → ReadRequestMetrics → ReadRequestMetrics
unique_metrics pid metrics = record metrics {
  query_id = pid * 100000000 + metrics.query_id;
  req_id = pid * 100000000 + metrics.req_id;
}

unfoldable pub count_request : ℕ → ReadRequestMetrics → ReadTotals → ReadTotals
count_request pid metrics totals = record totals {
  successful_requests = totals.successful_requests ++ unique_metrics pid metrics ∷ [];
  total_records_read = totals.total_records_read + metrics.record_count;
  total_bytes_read = totals.total_bytes_read + metrics.records_bytes;
  first_request_time = first_time totals.first_request_time metrics.send_time_ms;
  last_ack_time = last_time totals.last_ack_time metrics.recv_time_ms;
}

unfoldable pub count_requests : ℕ → List ReadRequestMetrics → ReadTotals → ReadTotals
count_requests pid [] totals = totals
count_requests pid (metrics ∷ rest) totals =
    count_requests pid rest (count_request pid metrics totals)

-- The callback of a future of `read_batch` for `num_queries` queries: one that failed adds nothing.
unfoldable pub update_read_metrics : ℕ → ℕ → Outcome BatchResults → ReadTotals → ReadTotals
update_read_metrics pid num_queries (raise x) totals = totals
update_read_metrics pid num_queries (ok results) totals =
    count_requests pid results.request_metrics
      (record totals { total_queries = totals.total_queries + num_queries })

-- The callbacks of several futures, one after the other as the lock has them.
unfoldable pub update_all : ℕ → List (ℕ × Outcome BatchResults) → ReadTotals → ReadTotals
update_all pid [] totals = totals
update_all pid ((num_queries, future) ∷ rest) totals =
    update_all pid rest (update_read_metrics pid num_queries future totals)
