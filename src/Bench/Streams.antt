-- ===== src/Bench/Streams.antt =====
-- write-bench.py, `record_stream` and class ZipfGenerator. `random.randint` and the floating point
-- part of ZipfGenerator are parameters: each gets the number of the call first.
use raft_lsmt.Base.{
  ℕ, zero, suc, ◌+◌, ◌-◌, String, List, [], ◌∷◌, min, max, ◌==◌, string_key, if◌then◌else◌, Outcome,
  ok, raise, value_error,
}
use raft_lsmt.Client.Datatypes.{Record, int}

-- What a generator yields, and how it ends.
abbrev pub Yielded : Type 0 → Type 0
Yielded A = List A × Outcome (Unit {0})

-- `ZipfGenerator.next`, of the `n` that `__init__` keeps; `inverse_cdf i n` is `int(val)`.
unfoldable pub zipf_next : (ℕ → ℕ → ℕ) → ℕ → ℕ → ℕ
zipf_next inverse_cdf n i = let kept = max 1 n in min kept (max 1 (inverse_cdf i kept))

-- `range(start, start + amount)`.
unfoldable pub range_keys : ℕ → ℕ → List ℕ
range_keys start zero = []
range_keys start (suc amount) = start ∷ range_keys (start + 1) amount

-- `amount` keys, drawn one by one from call `i` on.
unfoldable pub draw_keys : (ℕ → Outcome ℕ) → ℕ → ℕ → Yielded ℕ
draw_keys draw i zero = ([], ok tt)
draw_keys draw i (suc amount) =
    let rest = draw_keys draw (suc i) amount in
    elim (draw i) [ raise x ↦ ([], raise x) | ok key_id ↦ (key_id ∷ rest.0, rest.1) ]

-- The records of the keys; the timestamps are 100 apart.
unfoldable pub stamped : ℕ → List ℕ → List Record
stamped current_ts [] = []
stamped current_ts (key_id ∷ keys) =
    record { key_id = key_id; timestamp = current_ts; content = int key_id }
    ∷ stamped (current_ts + 100) keys

-- The keys in the order of the distribution.
unfoldable pub key_stream : (ℕ → ℕ → ℕ → Outcome ℕ) → (ℕ → ℕ → ℕ) → ℕ → String → ℕ → ℕ → Yielded ℕ
key_stream randint inverse_cdf amount data_distribution key_start key_end =
    if data_distribution == "sequential"
    then (range_keys key_start amount, ok tt)
    else if data_distribution == "uniform"
    then draw_keys (λ i. randint i key_start key_end) 0 amount
    else if data_distribution == "zipfian"
    then draw_keys (λ i. ok (key_start + zipf_next inverse_cdf (key_end + 1 - key_start) i - 1)) 0
        amount
    else ([], raise value_error)

unfoldable pub record_stream :
    (ℕ → ℕ → ℕ → Outcome ℕ) → (ℕ → ℕ → ℕ) → ℕ → String → ℕ → ℕ → ℕ → Yielded Record
record_stream randint inverse_cdf amount data_distribution key_start key_end base_timestamp =
    let keys = key_stream randint inverse_cdf amount data_distribution key_start key_end in
    (stamped base_timestamp keys.0, keys.1)
