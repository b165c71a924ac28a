-- ===== src/Client/Send/Ends.antt =====
-- How long the loop of `_send_batch` goes on.
use raft_lsmt.Base.{
  ℕ, suc, Option, none, some, string_key, ◌+◌, ◌≤◌, ◌<◌, ◌≡◌, ◌≢◌, inl, inr, refl, String, List, [],
  ◌∷◌, ◌++◌, arith, length, ltb, Bool-cases, All, Exception, runtime_error,
}
use raft_lsmt.Base.Dict
use raft_lsmt.Client.Datatypes.{Node, BatchMetrics}
use raft_lsmt.Client.Registry.{LeaderRegistry}
use raft_lsmt.Client.Send.{
  Round, Job, Pass, sent, stopped, again, retry, Result, delivered, failed, running, Sending, over,
  backoff_delay, sleep_time, send_loop, after_pass, send_batch,
}

-- What holds of a run that begins after some retries, with so many rounds.
record Counts (max_retries retries rounds : ℕ) (run : Sending) : Type 0 where
  still : run.result ≡ running → rounds ≡ run.redirects + length run.pauses
  fewer : run.result ≡ running → retries + length run.pauses < max_retries
  within : retries + length run.pauses ≤ max_retries
  short : All (λ d. d ≤ 2200) run.pauses

backoff_delay-le : (retries : ℕ) → backoff_delay retries ≤ 2000
unfolding backoff_delay
backoff_delay-le retries = omega arith

sleep_time-le : (jitter : ℕ → ℕ) (retries : ℕ) → sleep_time jitter retries ≤ 2200
unfolding sleep_time
sleep_time-le jitter retries = omega (arith, backoff_delay-le retries)

Counts-again :
    (max_retries retries rounds : ℕ) (run : Sending)
    → Counts max_retries retries rounds run
    → Counts max_retries retries (suc rounds) (record run { redirects = run.redirects + 1 })
Counts-again max_retries retries rounds run c = record {
  still = λ e. omega (arith, c.still e);
  fewer = c.fewer;
  within = c.within;
  short = c.short;
}

Counts-retry :
    (jitter : ℕ → ℕ) (calls : List BatchMetrics) (max_retries retries rounds : ℕ) (run : Sending)
    → Counts max_retries (retries + 1) rounds run
    → Counts max_retries retries (suc rounds) (record run {
      pauses = sleep_time jitter (retries + 1) ∷ run.pauses;
      reported = calls ++ run.reported;
    })
Counts-retry jitter calls max_retries retries rounds run c = record {
  still = λ e. omega (arith, c.still e);
  fewer = λ e. omega (arith, c.fewer e);
  within = omega (arith, c.within);
  short = (sleep_time-le jitter (retries + 1), c.short);
}

running-delivered : {target : Node} → delivered target ≢ running
running-delivered e = cc

running-failed : {x : Exception} → failed x ≢ running
running-failed e = cc

-- A run that is over has counted nothing.
Counts-over :
    (max_retries retries rounds : ℕ) (result : Result) (registry : LeaderRegistry)
    (calls : List BatchMetrics)
    → retries ≤ max_retries
    → result ≢ running
    → Counts max_retries retries rounds (over result registry calls)
Counts-over max_retries retries rounds result registry calls h ended = record {
  still = λ e. absurd (ended e);
  fewer = λ e. absurd (ended e);
  within = omega arith;
  short = tt;
}

Counts-after_pass :
    (jitter : ℕ → ℕ) (max_retries : ℕ) (step : Pass) (retries rounds : ℕ)
    (rest : ℕ → LeaderRegistry → Sending)
    → retries < max_retries
    → ((r : ℕ) (now : LeaderRegistry) → r ≤ max_retries → Counts max_retries r rounds (rest r now))
    → Counts max_retries retries (suc rounds) (after_pass jitter step retries rest)
unfolding after_pass
Counts-after_pass jitter max_retries (sent target now calls) retries rounds rest h later =
    Counts-over max_retries retries (suc rounds) (delivered target) now calls (omega arith)
      running-delivered
Counts-after_pass jitter max_retries (stopped x now) retries rounds rest h later =
    Counts-over max_retries retries (suc rounds) (failed x) now [] (omega arith) running-failed
Counts-after_pass jitter max_retries (again now) retries rounds rest h later =
    Counts-again max_retries retries rounds (rest retries now) (later retries now (omega arith))
Counts-after_pass jitter max_retries (retry now calls) retries rounds rest h later =
    Counts-retry jitter calls max_retries retries rounds (rest (retries + 1) now)
      (later (retries + 1) now (omega arith))

module _ (decode : List ℕ → List ℕ) (max_retries : ℕ) (cluster_name : String) (nodes : List Node)
    (job : Job) where
  loop_lem :
      (rounds : List Round) (retries : ℕ) (registry : LeaderRegistry)
      → retries ≤ max_retries
      → Counts max_retries retries
          (length rounds)
          (send_loop decode max_retries cluster_name nodes job rounds retries registry)
  unfolding send_loop
  loop_lem [] retries registry h = elim (Bool-cases (ltb retries max_retries)) [
    | inl more ↦
        rw more (record {
          still = λ e. refl;
          fewer = λ e. ground arith;
          within = omega arith;
          short = tt;
        })
    | inr spent ↦
        rw spent
          (Counts-over max_retries retries 0 (failed runtime_error) registry [] h running-failed)
  ]
  loop_lem (round ∷ rounds) retries registry h = elim (Bool-cases (ltb retries max_retries)) [
    | inl more ↦
        rw (more, send_loop)
          (Counts-after_pass round.jitter max_retries _ retries (length rounds) _ (ground arith)
            (λ r now. loop_lem rounds r now))
    | inr spent ↦
        rw (spent, send_loop)
          (Counts-over max_retries retries _ (failed runtime_error) registry [] h running-failed)
  ]

-- Whatever the network and the other threads do, the loop of a batch has ended once it has had as
-- many rounds as it followed redirects and may retry; it pauses at most once for each retry, and
-- for 2.2 seconds at most.
pub send_batch_ends :
    (decode : List ℕ → List ℕ) (max_retries : ℕ) (clusters : Dict.Dict String (List Node))
    (target : Option Node) (job : Job) (rounds : List Round) (registry : LeaderRegistry)
    → (send_batch decode max_retries clusters target job rounds registry).redirects + max_retries
      ≤ length rounds
    → let run = send_batch decode max_retries clusters target job rounds registry in
      (run.result ≢ running) × (length run.pauses ≤ max_retries) × All (λ d. d ≤ 2200) run.pauses
unfolding send_batch
send_batch_ends decode max_retries clusters none job rounds registry h =
    (running-failed, omega arith, tt)
send_batch_ends decode max_retries clusters (some target) job rounds registry h =
    let c =
      loop_lem decode max_retries target.cluster_name
        (Dict.get_default clusters target.cluster_name []) job rounds 0 registry (omega arith) in
    (λ e. omega (arith, c.still e, c.fewer e), omega (arith, c.within), c.short)
