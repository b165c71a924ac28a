-- ===== src/Bench/Reporter/Tests.antt =====
-- Three seconds, in the second of which nothing is acknowledged, and a rest.
use raft_lsmt.Base.{ℕ, ◌*◌, ◌≡◌, refl, [], ◌∷◌, map}
use raft_lsmt.Bench.Reporter.{Snapshot, write_row, tick, ticks, last_row, throughput_reporter}

abbrev seen : ℕ → Snapshot
seen n = record { curr_records = n; curr_bytes = 33 * n }

written :
    map (λ r. r.delta_ops) (throughput_reporter (seen 5 ∷ seen 5 ∷ seen 9 ∷ []) (seen 10)).rows
    ≡ 5 ∷ 0 ∷ 4 ∷ 1 ∷ []
unfolding throughput_reporter last_row ticks tick write_row
written = refl
