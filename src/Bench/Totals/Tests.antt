-- ===== src/Bench/Totals/Tests.antt =====
-- The callbacks of three futures, one of which failed.
use raft_lsmt.Base.{ℕ, List, [], ◌∷◌, arith, Outcome, ok, raise, timeout_error}
use raft_lsmt.Client.Datatypes.{ReadRequestMetrics}
use raft_lsmt.Client.ReadBatch.{BatchResults}
use raft_lsmt.Bench.Totals.{update_all, no_reads}
use raft_lsmt.Bench.Totals.Sums.{AddsUp, totals_add_up}

abbrev request : ℕ → ℕ → ℕ → ReadRequestMetrics
request id send recv = record {
  query_id = id;
  req_id = id;
  send_time_ms = send;
  recv_time_ms = recv;
  record_count = 2;
  records_bytes = 58;
}

abbrev results : List ReadRequestMetrics → BatchResults
results requests = record { by_cluster = []; latency_ms = 5; request_metrics = requests }

abbrev futures : List (ℕ × Outcome BatchResults)
futures =
    (2, ok (results (request 1 100 110 ∷ request 2 101 108 ∷ [])))
    ∷ (3, raise timeout_error)
    ∷ (1, ok (results (request 3 90 120 ∷ [])))
    ∷ []

totals_add_up_example : AddsUp (update_all 77 futures no_reads)
totals_add_up_example =
    totals_add_up 77 futures ((omega arith, (omega arith, tt)), (tt, ((omega arith, tt), tt)))
