-- ===== src/Client/Send/Reports.antt =====
-- What the callback `write_cb` is told of a batch.
use raft_lsmt.Base.{
  ℕ, ◌+◌, ◌%◌, ◌<◌, ◌≡◌, ◌≢◌, ◌⊎◌, refl, ap, ◌∙◌, String, some, List, [], ◌∷◌, ◌++◌, arith, length,
  length-append, ltb, lt→ltb, All, Outcome, ok, raise, Exception, runtime_error, string_key,
}
use raft_lsmt.Base.Dict
use raft_lsmt.Client.Datatypes.{Node, BatchMetrics}
use raft_lsmt.Client.Registry.{LeaderRegistry, get_leader, set_leader, clear_leader}
use raft_lsmt.Client.Send.{
  acknowledged, attempt, Round, Job, Pass, sent, stopped, again, retry, batch_metrics, report,
  try_node, pass, delivered, failed, Sending, after_pass, send_loop,
}
use raft_lsmt.Client.Send.Loops.{choose_some}

-- One report of the batch where it was delivered, and none otherwise.
abbrev pub ReportsOnce : Job → Sending → Type 0
ReportsOnce job run =
    ((target : Node) × (t : ℕ) × (run.result ≡ delivered target)
      × (run.reported ≡ batch_metrics job t ∷ []))
    ⊎ (((target : Node) → run.result ≢ delivered target) × (run.reported ≡ []))

-- So does a pass, of a callback that raises nothing.
abbrev PassReports : Job → Pass → Type 0
PassReports job (sent target now calls) = (t : ℕ) × (calls ≡ batch_metrics job t ∷ [])
PassReports job (stopped x now) = Unit {0}
PassReports job (again now) = Unit {0}
PassReports job (retry now calls) = calls ≡ []

-- Every node acknowledges the batch.
abbrev pub AllAcknowledge : (List ℕ → List ℕ) → List Node → Job → Round → Type 0
AllAcknowledge decode nodes job round =
    (n : Node) → attempt decode nodes job.batch (round.connection n) ≡ ok acknowledged

pass_fails :
    (decode : List ℕ → List ℕ) (cluster_name : String) (nodes : List Node) (job : Job)
    (round : Round) (retries : ℕ) (registry : LeaderRegistry)
    (write_cb : BatchMetrics → Outcome (Unit {0})) (x : Exception)
    → 0 < length nodes
    → job.write_cb ≡ some write_cb
    → ((m : BatchMetrics) → write_cb m ≡ raise x)
    → AllAcknowledge decode nodes job round
    → (now : LeaderRegistry) × (pass decode cluster_name nodes job round retries registry
        ≡ retry now (batch_metrics job round.ack_time ∷ []))
unfolding pass try_node
pass_fails decode cluster_name nodes job round retries registry write_cb x h told raises acked =
    let seen = round.before registry in
    let (n, e) = choose_some nodes retries (get_leader seen cluster_name) h in
    (
      clear_leader (set_leader (round.during seen) n) n,
      rw (e, pass)
          (rw (acked n, try_node)
            (ap
                (λ cb.
                  report cb (batch_metrics job round.ack_time) n (set_leader (round.during seen) n))
                told
              ∙ unfold report in rw (raises (batch_metrics job round.ack_time), report) refl)),
    )

-- With a callback that raises, a batch that every node acknowledges is sent again in each round,
-- until all retries are spent, and then fails; the callback has been told of it each time.
pub callback_resends :
    (decode : List ℕ → List ℕ) (max_retries : ℕ) (cluster_name : String) (nodes : List Node)
    (job : Job) (rounds : List Round) (retries : ℕ) (registry : LeaderRegistry)
    (write_cb : BatchMetrics → Outcome (Unit {0})) (x : Exception)
    → 0 < length nodes
    → retries + length rounds ≡ max_retries
    → job.write_cb ≡ some write_cb
    → ((m : BatchMetrics) → write_cb m ≡ raise x)
    → All (AllAcknowledge decode nodes job) rounds
    → let run = send_loop decode max_retries cluster_name nodes job rounds retries registry in
      (run.result ≡ failed runtime_error) × (length run.reported ≡ length rounds)
unfolding send_loop after_pass
callback_resends decode max_retries cluster_name nodes job [] retries registry write_cb x h spent
      told raises acked =
    let full : ltb retries max_retries ≡ raft_lsmt.Base.false = ground arith in rw full (refl, refl)
callback_resends decode max_retries cluster_name nodes job (round ∷ rounds) retries registry
      write_cb x h spent told raises acked =
    let (now, e) =
      pass_fails decode cluster_name nodes job round retries registry write_cb x h told raises
        acked.0 in
    let (r, c) =
      callback_resends decode max_retries cluster_name nodes job rounds (retries + 1) now write_cb x
        h (omega (arith, spent)) told raises acked.1 in
    rw (lt→ltb retries max_retries (omega (arith, spent)), send_loop)
      (rw (e, after_pass) (r, omega (arith, c)))
