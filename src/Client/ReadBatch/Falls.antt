-- ===== src/Client/ReadBatch/Falls.antt =====
-- Each round of a read of a batch leaves fewer rounds than there were.
use raft_lsmt.Base.{
  ℕ, suc, ◌+◌, ◌-◌, ◌≤◌, ◌≡◌, sym, ap, subst, ◌∙◌, Option, none, some, List, [], ◌∷◌, ◌++◌, arith,
  true, Bool-cases, inl, inr, ok, bind_ok, ok_injective, ltb→lt, All, get_elem?-All, refl,
  All-append, All-split,
}
use raft_lsmt.Client.Datatypes.{Node, node_key, QueryRequest}
use raft_lsmt.Client.Wire.Response.{Response}
use raft_lsmt.Client.Pages.{Answer, accept_initial, has_more, page_query}
use raft_lsmt.Client.Read.Ends.{accept_initial_reaches, join_page_end}
use raft_lsmt.Client.ReadBatch.Rounds.{finish_batch_page_inv}
use raft_lsmt.Client.ReadBatch.{
  QueryPair, BatchTask, batch, page, BatchAnswer, BatchReading, batch_timed, charged, follow_up,
  finish_entries, finish_batch, finish_batch_page, BatchStep, batch_done, page_done, BatchRuns,
  batch_stay, batch_go,
}

-- An answer to a page that is cut off reaches the first key that was asked for at least.
abbrev pub PageReaches : QueryRequest → Answer → Type 0
PageReaches query answer =
    answer.response.limit_reached ≡ true → query.min_id ≤ answer.response.max_id

-- The keys from the first one of a query up to `top`.
abbrev pub keys_up_to : ℕ → QueryRequest → ℕ
keys_up_to top query = top + 1 - query.min_id

abbrev pub pairs_left : ℕ → List QueryPair → ℕ
pairs_left top [] = 0
pairs_left top ((idx, query) ∷ pairs) = keys_up_to top query + pairs_left top pairs

-- How many rounds a task can still lead to: its own, and one for each key of its queries.
abbrev pub task_rounds : ℕ → BatchTask → ℕ
task_rounds top (batch asked query_pairs sub_req_ids) = 1 + pairs_left top query_pairs
task_rounds top (page asked query req_id idx orig_query_idx) = 1 + keys_up_to top query

abbrev pub batch_rounds : ℕ → List BatchTask → ℕ
batch_rounds top [] = 0
batch_rounds top (t ∷ ts) = task_rounds top t + batch_rounds top ts

batch_rounds-append :
    (top : ℕ) (xs ys : List BatchTask)
    → batch_rounds top (xs ++ ys) ≡ batch_rounds top xs + batch_rounds top ys
batch_rounds-append top [] ys = omega arith
batch_rounds-append top (x ∷ xs) ys = omega (arith, batch_rounds-append top xs ys)

-- No query goes beyond `top`.
abbrev pub EndsBy : ℕ → QueryRequest → Type 0
EndsBy top query = query.max_id ≤ top

abbrev pub PairsEndBy : ℕ → List QueryPair → Type 0
PairsEndBy top = All (λ pair. EndsBy top pair.1)

abbrev pub TaskEndsBy : ℕ → BatchTask → Type 0
TaskEndsBy top (batch asked query_pairs sub_req_ids) = PairsEndBy top query_pairs
TaskEndsBy top (page asked query req_id idx orig_query_idx) = Unit {0}

abbrev pub TasksEndBy : ℕ → List BatchTask → Type 0
TasksEndBy top = All (TaskEndsBy top)

-- What a response that reaches `m` adds: nothing, or a page with fewer rounds than `m` has.
follow_up_rounds :
    (top : ℕ) (query : QueryRequest) (drawn : ℕ) (n : Node) (idx orig : ℕ) (response : Response)
    (r : BatchReading) (m : ℕ)
    → EndsBy top query
    → (response.limit_reached ≡ true → m ≤ response.max_id)
    → batch_rounds top (follow_up query drawn n idx orig response r).active
      ≤ batch_rounds top r.active + (top + 1 - m)
unfolding follow_up has_more page_query
follow_up_rounds top query drawn n idx orig response r m bound reach =
    elim (Bool-cases (has_more query response)) [
      | inl more ↦
          let number = r.next_req_id + drawn in
          let cut : response.limit_reached ≡ true = ground arith in
          rw more (
            omega (
              arith,
              batch_rounds-append top r.active
                  (page n (page_query query response) number idx orig ∷ []),
              reach cut,
              bound,
              ltb→lt response.max_id query.max_id (ground arith),
            ))
      | inr last ↦ rw last (omega arith)
    ]

follow_up-TasksEndBy :
    (top : ℕ) (query : QueryRequest) (drawn : ℕ) (n : Node) (idx orig : ℕ) (response : Response)
    (r : BatchReading)
    → TasksEndBy top r.active
    → TasksEndBy top (follow_up query drawn n idx orig response r).active
unfolding follow_up
follow_up-TasksEndBy top query drawn n idx orig response r h =
    elim (Bool-cases (has_more query response)) [
      | inl more ↦ rw more (All-append (TaskEndsBy top) r.active _ h (tt, tt))
      | inr last ↦ rw last h
    ]

finish_entries_rounds :
    (top : ℕ) (drawn : ℕ → ℕ) (answer : BatchAnswer) (i : ℕ)
    (entries : List (Option (Response × ℕ))) (pairs : List QueryPair) (r r' : BatchReading)
    → PairsEndBy top pairs
    → TasksEndBy top r.active
    → finish_entries drawn answer i entries pairs r ≡ ok r'
    → TasksEndBy top r'.active
      × (batch_rounds top r'.active ≤ batch_rounds top r.active + pairs_left top pairs)
unfolding finish_entries
finish_entries_rounds top drawn answer i [] pairs r r' bound h e =
    let same = ok_injective e in
    (
      subst (λ (x : BatchReading). TasksEndBy top x.active) same h,
      omega (arith, ap (λ (x : BatchReading). batch_rounds top x.active) same),
    )
finish_entries_rounds top drawn answer i (entry ∷ entries) [] r r' bound h e = cc
finish_entries_rounds top drawn answer i (none ∷ entries) (pair ∷ pairs) r r' bound h e = cc
finish_entries_rounds top drawn answer i (some (response, recv_ts) ∷ entries)
      ((orig, query) ∷ pairs) r r' bound h e =
    let (u, accepted, e') = bind_ok (accept_initial query response) _ e in
    let before =
      charged query response answer.net_start recv_ts (record r { orig_query = some query }) in
    let kept : TasksEndBy top before.active = unfold charged in h in
    let fewer =
      follow_up_rounds top query (drawn i) answer.node i orig response before query.min_id bound.0
        (accept_initial_reaches query response u accepted) in
    let same : batch_rounds top before.active ≡ batch_rounds top r.active =
      unfold charged in refl in
    let rest =
      finish_entries_rounds top drawn answer (suc i) entries pairs
        (follow_up query (drawn i) answer.node i orig response before) r' bound.1
        (follow_up-TasksEndBy top query (drawn i) answer.node i orig response before kept) e' in
    (rest.0, omega (arith, rest.1, fewer, same))

finish_batch_page_rounds :
    (top : ℕ) (queries : List QueryRequest) (drawn : ℕ) (n : Node) (asked : QueryRequest)
    (idx orig expected : ℕ) (answer : Answer) (r r' : BatchReading)
    → All (EndsBy top) queries
    → PageReaches asked answer
    → TasksEndBy top r.active
    → finish_batch_page queries drawn n idx orig expected answer r ≡ ok r'
    → TasksEndBy top r'.active
      × (batch_rounds top r'.active ≤ batch_rounds top r.active + keys_up_to top asked)
unfolding charged batch_timed
finish_batch_page_rounds top queries drawn n asked idx orig expected answer r r' bound reach h e =
    let (last_query, so_far, joined, query, unused, merged, named, same) =
      finish_batch_page_inv queries drawn n idx orig expected answer r r' e in
    let (cut, end) = join_page_end so_far answer.response joined merged in
    let before =
      record (charged last_query answer.response answer.net_start answer.net_end
        (batch_timed answer.net_start answer.net_end r)) { orig_query = some query } in
    let fewer =
      follow_up_rounds top query drawn n idx orig joined before asked.min_id
        (get_elem?-All (EndsBy top) queries orig query bound named)
        (λ c. omega (arith, end, reach (sym cut ∙ c))) in
    let kept = follow_up-TasksEndBy top query drawn n idx orig joined before h in
    rw same (kept, fewer)

batch_rounds_fall :
    (top : ℕ) (queries : List QueryRequest) (r r' : BatchReading)
    → All (EndsBy top) queries
    → TasksEndBy top r.active
    → BatchStep PageReaches queries r r'
    → TasksEndBy top r'.active × (suc (batch_rounds top r'.active) ≤ batch_rounds top r.active)
unfolding finish_batch batch_timed
batch_rounds_fall top queries r r' bound h
      (batch_done front back asked pairs ids drawn answer split e) =
    let task = batch asked pairs ids in
    let parts = All-split (TaskEndsBy top) front task back (subst (TasksEndBy top) split h) in
    let rest =
      finish_entries_rounds top drawn answer 0 answer.responses pairs _ r' parts.0 parts.1 e in
    (
      rest.0,
      omega (
        arith,
        rest.1,
        ap (batch_rounds top) split,
        batch_rounds-append top front (task ∷ back),
        batch_rounds-append top front back,
      ),
    )
batch_rounds_fall top queries r r' bound h
      (page_done front back n query id idx orig drawn answer split reach e) =
    let task = page n query id idx orig in
    let parts = All-split (TaskEndsBy top) front task back (subst (TasksEndBy top) split h) in
    let rest =
      finish_batch_page_rounds top queries drawn n query idx orig id answer
        (record r { active = front ++ back }) r' bound reach parts.1 e in
    (
      rest.0,
      omega (
        arith,
        rest.1,
        ap (batch_rounds top) split,
        batch_rounds-append top front (task ∷ back),
        batch_rounds-append top front back,
      ),
    )

pub batch_rounds_bound :
    (top : ℕ) (queries : List QueryRequest) (n : ℕ) {r r' : BatchReading}
    → All (EndsBy top) queries
    → TasksEndBy top r.active
    → BatchRuns PageReaches queries n r r'
    → n ≤ batch_rounds top r.active
batch_rounds_bound top queries _ bound h (batch_stay r) = omega arith
batch_rounds_bound top queries _ bound h (batch_go {n = n} {r = r} {s = s} step rest) =
    let (kept, fewer) = batch_rounds_fall top queries r s bound h step in
    omega (arith, fewer, batch_rounds_bound top queries n bound kept rest)
