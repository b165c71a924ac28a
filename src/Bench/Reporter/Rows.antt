-- ===== src/Bench/Reporter/Rows.antt =====
-- The rows of the reporter add up.
use native.Mathlib.Decide.{dec_lt}
use raft_lsmt.Base.{
  ℕ, ◌+◌, ◌%◌, ◌≤◌, ◌≡◌, inl, inr, refl, List, [], ◌∷◌, ◌++◌, arith, length, length-append, ltb,
  ◌==◌, nat_key, Bool-cases, true, false,
}
use raft_lsmt.Bench.Reporter.{
  Snapshot, Row, Reporter, no_rows, row_of, write_row, print_minute, tick, ticks, last_row,
  throughput_reporter,
}

-- The column of a table, added up.
abbrev pub column : (Row → ℕ) → List Row → ℕ
column f [] = 0
column f (row ∷ rows) = f row + column f rows

column-append : (f : Row → ℕ) (xs ys : List Row) → column f (xs ++ ys) ≡ column f xs + column f ys
column-append f [] ys = omega arith
column-append f (x ∷ xs) ys = omega (arith, column-append f xs ys)

-- The totals never get less, from some reading on.
abbrev pub Grows : Snapshot → List Snapshot → Snapshot → Type 0
Grows before [] last =
    (before.curr_records ≤ last.curr_records) × (before.curr_bytes ≤ last.curr_bytes)
Grows before (reading ∷ readings) last =
    ((before.curr_records ≤ reading.curr_records) × (before.curr_bytes ≤ reading.curr_bytes))
    × Grows reading readings last

-- What the rows add up to is what the thread saw last; there is a row for each second.
record Adds (reading : Snapshot) (reporter : Reporter) : Type 0 where
  seen_records : reporter.prev_records_1s ≡ reading.curr_records
  seen_bytes : reporter.prev_bytes_1s ≡ reading.curr_bytes
  records_add : column (λ r. r.delta_ops) reporter.rows ≡ reading.curr_records
  bytes_add : column (λ r. r.delta_bytes) reporter.rows ≡ reading.curr_bytes
  each_second : length reporter.rows ≡ reporter.seconds_elapsed

write_row-Adds :
    (before reading : Snapshot) (reporter : Reporter)
    → before.curr_records ≤ reading.curr_records
    → before.curr_bytes ≤ reading.curr_bytes
    → Adds before reporter
    → Adds reading (write_row reading reporter)
unfolding write_row
write_row-Adds before reading reporter hr hb h =
    let row = row_of reading reporter in
    record {
      seen_records = refl;
      seen_bytes = refl;
      records_add = omega (
        arith,
        column-append (λ r. r.delta_ops) reporter.rows (row ∷ []),
        h.records_add,
        h.seen_records,
      );
      bytes_add = omega (
        arith,
        column-append (λ r. r.delta_bytes) reporter.rows (row ∷ []),
        h.bytes_add,
        h.seen_bytes,
      );
      each_second = omega (arith, length-append reporter.rows (row ∷ []), h.each_second);
    }

tick-Adds :
    (before reading : Snapshot) (reporter : Reporter)
    → before.curr_records ≤ reading.curr_records
    → before.curr_bytes ≤ reading.curr_bytes
    → Adds before reporter
    → Adds reading (tick reading reporter)
unfolding tick print_minute
tick-Adds before reading reporter hr hb h =
    let w = write_row-Adds before reading reporter hr hb h in
    elim (Bool-cases ((write_row reading reporter).seconds_elapsed % 60 == 0)) [
      | inl minute ↦
          rw (minute, tick)
            (record {
              seen_records = w.seen_records;
              seen_bytes = w.seen_bytes;
              records_add = w.records_add;
              bytes_add = w.bytes_add;
              each_second = w.each_second;
            })
      | inr second ↦ rw (second, tick) w
    ]

-- The last reading behind some others.
ticks-Adds :
    (readings : List Snapshot) (before last : Snapshot) (reporter : Reporter)
    → Grows before readings last
    → Adds before reporter
    → (reading : Snapshot) × Adds reading (ticks readings reporter)
      × (reading.curr_records ≤ last.curr_records)
      × (reading.curr_bytes ≤ last.curr_bytes)
unfolding ticks
ticks-Adds [] before last reporter g h = (before, h, g.0, g.1)
ticks-Adds (reading ∷ readings) before last reporter g h =
    ticks-Adds readings reading last (tick reading reporter) g.1
      (tick-Adds before reading reporter g.0.0 g.0.1 h)

-- What the table is to say at the end.
abbrev pub AddsUp : List Row → Snapshot → Type 0
AddsUp rows last =
    (column (λ r. r.delta_ops) rows ≡ last.curr_records)
    × (column (λ r. r.delta_bytes) rows ≤ last.curr_bytes)
    × (1 ≤ length rows)

written-AddsUp :
    (reading last : Snapshot) (reporter : Reporter)
    → Adds reading reporter
    → reading.curr_records ≤ last.curr_records
    → reading.curr_bytes ≤ last.curr_bytes
    → AddsUp (reporter.rows ++ row_of last reporter ∷ []) last
written-AddsUp reading last reporter h hr hb =
    let rows = reporter.rows in
    let row = row_of last reporter in
    (
      omega
          (arith, column-append (λ r. r.delta_ops) rows (row ∷ []), h.records_add, h.seen_records),
      omega (arith, column-append (λ r. r.delta_bytes) rows (row ∷ []), h.bytes_add, h.seen_bytes),
      omega (arith, length-append rows (row ∷ [])),
    )

last_row-AddsUp :
    (reading last : Snapshot) (reporter : Reporter)
    → Adds reading reporter
    → reading.curr_records ≤ last.curr_records
    → reading.curr_bytes ≤ last.curr_bytes
    → AddsUp (last_row last reporter).rows last
unfolding last_row
last_row-AddsUp reading last reporter h hr hb =
    let wrote = written-AddsUp reading last reporter h hr hb in
    elim (dec_lt reporter.prev_records_1s last.curr_records) [
      | yes more ↦
          let test : ltb reporter.prev_records_1s last.curr_records ≡ true = ground arith in
          rw (test, last_row) wrote
      | no same ↦
          let test : ltb reporter.prev_records_1s last.curr_records ≡ false = ground arith in
          elim (dec_lt 0 reporter.seconds_elapsed) [
            | yes ticked ↦
                let started : (reporter.seconds_elapsed == 0) ≡ false = ground arith in
                rw (test, started, last_row)
                  (
                    omega (arith, h.records_add, h.seen_records),
                    omega (arith, h.bytes_add),
                    omega (arith, h.each_second),
                  )
            | no never ↦
                let started : (reporter.seconds_elapsed == 0) ≡ true = ground arith in
                rw (test, started, last_row) wrote
          ]
    ]

-- Where the totals never get less, the rows of the reporter add up to the records at the end,
-- however often the thread got to read them; so they do for the bytes, unless the last row was left
-- out, since no record was added; and there is a row.
pub rows_add_up :
    (readings : List Snapshot) (last : Snapshot)
    → Grows (record { curr_records = 0; curr_bytes = 0 }) readings last
    → AddsUp (throughput_reporter readings last).rows last
unfolding throughput_reporter
rows_add_up readings last g =
    let start : Adds (record { curr_records = 0; curr_bytes = 0 }) no_rows = record {
      seen_records = refl;
      seen_bytes = refl;
      records_add = refl;
      bytes_add = refl;
      each_second = refl;
    } in
    let (reading, h, hr, hb) = ticks-Adds readings _ last no_rows g start in
    last_row-AddsUp reading last (ticks readings no_rows) h hr hb
