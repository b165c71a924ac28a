-- ===== src/Client/ReadBatch/Ends.antt =====
-- A read of a batch ends: how many rounds it can have, from its start on.
use raft_lsmt.Base.{
  ℕ, suc, ◌≤◌, ◌≡◌, ap, subst, List, [], ◌∷◌, ◌++◌, ok, bind_ok, ok_injective, All, All-append,
  Bool-cases, inl, inr, ◌==◌,
}
use raft_lsmt.Base.Dict
use raft_lsmt.Base.Dict.{Dict}
use raft_lsmt.Base.Lanes.{lane, lane-nil, lane-cons}
use raft_lsmt.Client.Datatypes.{Node, node_key, QueryRequest}
use raft_lsmt.Client.Routing.Router.{Router}
use raft_lsmt.Client.Routing.Router
use raft_lsmt.Client.ReadBatch.{
  QueryPair, BatchTask, BatchReading, BatchRuns, append_each, group_queries, pick_ids, batch_tasks,
  start_batch,
}
use raft_lsmt.Client.ReadBatch.Falls.{
  PageReaches, EndsBy, PairsEndBy, TasksEndBy, batch_rounds, batch_rounds_bound,
}

abbrev GroupsEndBy : ℕ → Dict Node (List QueryPair) → Type 0
GroupsEndBy top = All (λ group. PairsEndBy top group.1)

set-GroupsEndBy :
    (top : ℕ) (groups : Dict Node (List QueryPair)) (n : Node) (pairs : List QueryPair)
    → GroupsEndBy top groups
    → PairsEndBy top pairs
    → GroupsEndBy top (Dict.set groups n pairs)
unfolding Dict.set
set-GroupsEndBy top [] n pairs h g = (g, tt)
set-GroupsEndBy top ((m, old) ∷ groups) n pairs h g = elim (Bool-cases (m == n)) [
  | inl same ↦ rw same (g, h.1)
  | inr other ↦ rw other (h.0, set-GroupsEndBy top groups n pairs h.1 g)
]

lane-PairsEndBy :
    (top : ℕ) (groups : Dict Node (List QueryPair)) (n : Node)
    → GroupsEndBy top groups
    → PairsEndBy top (lane groups n)
lane-PairsEndBy top [] n h = rw (lane-nil {A = QueryPair} n) tt
lane-PairsEndBy top ((m, pairs) ∷ groups) n h = elim (Bool-cases (m == n)) [
  | inl same ↦ rw (lane-cons groups m n pairs, same) (h.0)
  | inr other ↦ rw (lane-cons groups m n pairs, other) (lane-PairsEndBy top groups n h.1)
]

append_each-GroupsEndBy :
    (top : ℕ) (nodes : List Node) (idx : ℕ) (query : QueryRequest)
    (groups : Dict Node (List QueryPair))
    → EndsBy top query
    → GroupsEndBy top groups
    → GroupsEndBy top (append_each nodes (idx, query) groups)
unfolding append_each
append_each-GroupsEndBy top [] idx query groups g h = h
append_each-GroupsEndBy top (n ∷ nodes) idx query groups g h =
    append_each-GroupsEndBy top nodes idx query _ g (
      set-GroupsEndBy top groups n (lane groups n ++ (idx, query) ∷ []) h (
        All-append (λ (pair : QueryPair). EndsBy top pair.1) (lane groups n) ((idx, query) ∷ [])
          (lane-PairsEndBy top groups n h) (g, tt)))

group_queries-GroupsEndBy :
    (top : ℕ) (router router' : Router) (idx : ℕ) (queries : List QueryRequest)
    (groups groups' : Dict Node (List QueryPair))
    → All (EndsBy top) queries
    → GroupsEndBy top groups
    → group_queries router idx queries groups ≡ ok (groups', router')
    → GroupsEndBy top groups'
unfolding group_queries
group_queries-GroupsEndBy top router router' idx [] groups groups' g h e =
    subst (λ (p : Dict Node (List QueryPair) × Router). GroupsEndBy top p.0) (ok_injective e) h
group_queries-GroupsEndBy top router router' idx (query ∷ queries) groups groups' g h e =
    let (r, routed, e') = bind_ok (Router.get_nodes_for_read router query) _ e in
    group_queries-GroupsEndBy top r.1 router' (suc idx) queries _ groups' g.1
      (append_each-GroupsEndBy top r.0 idx query groups g.0 h) e'

batch_tasks-TasksEndBy :
    (top : ℕ) (ids : List ℕ) (groups : Dict Node (List QueryPair)) (tasks : List BatchTask)
    → GroupsEndBy top groups
    → batch_tasks ids groups ≡ ok tasks
    → TasksEndBy top tasks
unfolding batch_tasks
batch_tasks-TasksEndBy top ids [] tasks h e = subst (TasksEndBy top) (ok_injective e) tt
batch_tasks-TasksEndBy top ids ((n, pairs) ∷ groups) tasks h e =
    let (picked, e1, f1) = bind_ok (pick_ids ids pairs) _ e in
    let (rest, e2, f2) = bind_ok (batch_tasks ids groups) _ f1 in
    subst (TasksEndBy top) (ok_injective f2)
      (h.0, batch_tasks-TasksEndBy top ids groups rest h.1 e2)

-- Where no query goes beyond `top`, and every page that is cut off reaches the first key that it was
-- asked for, a read of a batch ends: each of the nodes that it starts with has one round, and each
-- query asked of it as many as there are keys from its first one up to `top`.
pub read_batch_ends :
    (gaps : ℕ → ℕ) (router router' : Router) (next_req_id : ℕ) (queries : List QueryRequest)
    (first last : BatchReading) (top n : ℕ)
    → start_batch gaps router next_req_id queries ≡ ok (first, router')
    → All (EndsBy top) queries
    → BatchRuns PageReaches queries n first last
    → n ≤ batch_rounds top first.active
unfolding start_batch
read_batch_ends gaps router router' next_req_id queries first last top n started bound runs =
    let (grouped, e1, f1) = bind_ok (group_queries router 0 queries []) _ started in
    let (tasks, e2, f2) = bind_ok (batch_tasks _ (grouped.0)) _ f1 in
    let groups =
      group_queries-GroupsEndBy top router grouped.1 0 queries [] grouped.0 bound tt e1 in
    let kept = batch_tasks-TasksEndBy top _ grouped.0 tasks groups e2 in
    let same = ap (λ (p : BatchReading × Router). p.0.active) (ok_injective f2) in
    batch_rounds_bound top queries n bound (subst (TasksEndBy top) same kept) runs
