-- ===== src/Bench/Reporter.antt =====
-- write-bench.py, `throughput_reporter`: a row of figures for every second. What the thread reads of
-- the totals each second, and at the end, is given; the totals only grow, so that no difference is
-- negative. Rates are left as differences of records and bytes.
pub mod Rows
mod Tests
use raft_lsmt.Base.{ℕ, ◌+◌, ◌-◌, ◌%◌, List, [], ◌∷◌, ◌++◌, ltb, ◌==◌, nat_key, ◌||◌, if◌then◌else◌}

-- `total_acked_records` and `total_acked_bytes`, read together under the lock.
pub record Snapshot : Type 0 where
  pub curr_records : ℕ
  pub curr_bytes : ℕ

-- A row of the file: the totals, and what was added since the row before.
pub record Row : Type 0 where
  pub total_records : ℕ
  pub total_bytes : ℕ
  pub delta_ops : ℕ
  pub delta_bytes : ℕ

-- The variables of the thread, and what it has written: the rows, and the records and bytes of each
-- minute.
pub record Reporter : Type 0 where
  pub prev_records_1s : ℕ
  pub prev_bytes_1s : ℕ
  pub prev_records_60s : ℕ
  pub prev_bytes_60s : ℕ
  pub seconds_elapsed : ℕ
  pub rows : List Row
  pub minutes : List (ℕ × ℕ)

abbrev pub no_rows : Reporter
no_rows = record {
  prev_records_1s = 0;
  prev_bytes_1s = 0;
  prev_records_60s = 0;
  prev_bytes_60s = 0;
  seconds_elapsed = 0;
  rows = [];
  minutes = [];
}

abbrev pub row_of : Snapshot → Reporter → Row
row_of reading reporter = record {
  total_records = reading.curr_records;
  total_bytes = reading.curr_bytes;
  delta_ops = reading.curr_records - reporter.prev_records_1s;
  delta_bytes = reading.curr_bytes - reporter.prev_bytes_1s;
}

-- The row of a second.
unfoldable pub write_row : Snapshot → Reporter → Reporter
write_row reading reporter = record reporter {
  seconds_elapsed = reporter.seconds_elapsed + 1;
  rows = reporter.rows ++ row_of reading reporter ∷ [];
  prev_records_1s = reading.curr_records;
  prev_bytes_1s = reading.curr_bytes;
}

-- The average of a minute, from what was added in it.
unfoldable pub print_minute : Snapshot → Reporter → Reporter
print_minute reading reporter = record reporter {
  minutes =
      reporter.minutes
      ++ (
        reading.curr_records - reporter.prev_records_60s,
        reading.curr_bytes - reporter.prev_bytes_60s,
      )
        ∷ [];
  prev_records_60s = reading.curr_records;
  prev_bytes_60s = reading.curr_bytes;
}

-- One round of the loop.
unfoldable pub tick : Snapshot → Reporter → Reporter
tick reading reporter =
    let reporter' = write_row reading reporter in
    if reporter'.seconds_elapsed % 60 == 0 then print_minute reading reporter' else reporter'

-- The loop until the event is set.
unfoldable pub ticks : List Snapshot → Reporter → Reporter
ticks [] reporter = reporter
ticks (reading ∷ readings) reporter = ticks readings (tick reading reporter)

-- The row of what remains, or of everything, if there is no row yet.
unfoldable pub last_row : Snapshot → Reporter → Reporter
last_row reading reporter =
    if ltb reporter.prev_records_1s reading.curr_records || reporter.seconds_elapsed == 0
    then record reporter { rows = reporter.rows ++ row_of reading reporter ∷ [] }
    else reporter

unfoldable pub throughput_reporter : List Snapshot → Snapshot → Reporter
throughput_reporter readings last = last_row last (ticks readings no_rows)
