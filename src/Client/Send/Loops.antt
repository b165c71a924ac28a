-- ===== src/Client/Send/Loops.antt =====
-- Redirects are not counted as retries.
use raft_lsmt.Base.{
  ℕ, ◌%◌, ◌<◌, ◌≡◌, refl, String, Option, none, some, List, [], ◌∷◌, arith, length, get_elem?_lt,
  lt→ltb, All, ok,
}
use raft_lsmt.Client.Datatypes.{Node}
use raft_lsmt.Client.Registry.{LeaderRegistry, get_leader, set_leader}
use raft_lsmt.Client.Routing.Target.{modulo_pos, or_raise}
use raft_lsmt.Client.Send.{
  Round, Job, redirected, attempt, choose, pass, again, try_node, running, send_loop, after_pass,
}

-- Every node answers with a redirect to a node of the cluster.
abbrev pub Redirects : (List ℕ → List ℕ) → List Node → Job → Round → Type 0
Redirects decode nodes job round =
    (n : Node)
    → (m : Node) × (attempt decode nodes job.batch (round.connection n) ≡ ok (redirected m))

pub choose_some :
    (nodes : List Node) (retries : ℕ) (leader : Option Node)
    → 0 < length nodes
    → (n : Node) × (choose nodes retries leader ≡ ok n)
unfolding choose or_raise
choose_some nodes retries (some l) h = (l, refl)
choose_some nodes retries none h =
    let (n, e) = get_elem?_lt nodes (retries % length nodes) (omega arith) in
    (n, rw (modulo_pos retries (length nodes) h, e) refl)

pass_again :
    (decode : List ℕ → List ℕ) (cluster_name : String) (nodes : List Node) (job : Job)
    (round : Round) (retries : ℕ) (registry : LeaderRegistry)
    → 0 < length nodes
    → Redirects decode nodes job round
    → (now : LeaderRegistry) × (pass decode cluster_name nodes job round retries registry
        ≡ again now)
unfolding pass try_node
pass_again decode cluster_name nodes job round retries registry h turns =
    let seen = round.before registry in
    let (n, e) = choose_some nodes retries (get_leader seen cluster_name) h in
    let (m, hit) = turns n in
    (set_leader (round.during seen) m, rw (e, pass) (rw (hit, try_node) refl))

-- As long as every node that is asked redirects to some node of the cluster, the loop goes on,
-- whatever the number of rounds, and never pauses.
pub redirects_unbounded :
    (decode : List ℕ → List ℕ) (max_retries : ℕ) (cluster_name : String) (nodes : List Node)
    (job : Job) (rounds : List Round) (retries : ℕ) (registry : LeaderRegistry)
    → 0 < length nodes
    → retries < max_retries
    → All (Redirects decode nodes job) rounds
    → let run = send_loop decode max_retries cluster_name nodes job rounds retries registry in
      (run.result ≡ running) × (run.redirects ≡ length rounds) × (run.pauses ≡ [])
unfolding send_loop after_pass
redirects_unbounded decode max_retries cluster_name nodes job [] retries registry h more turns =
    rw (lt→ltb retries max_retries more) (refl, refl, refl)
redirects_unbounded decode max_retries cluster_name nodes job (round ∷ rounds) retries registry h
      more turns =
    let (now, e) = pass_again decode cluster_name nodes job round retries registry h turns.0 in
    let (r, c, p) =
      redirects_unbounded decode max_retries cluster_name nodes job rounds retries now h more
        turns.1 in
    rw (lt→ltb retries max_retries more, send_loop) (rw (e, after_pass) (r, omega (arith, c), p))
