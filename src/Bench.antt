-- ===== src/Bench.antt =====
-- The programs beside the client: what the benchmarks send, and what they sum up.
pub mod Streams
pub mod WriteBench
pub mod ReadBench
pub mod Totals
pub mod Latency
pub mod Reporter
