-- ===== src/Client/Read/Settles.antt =====
-- A read that has ended: every node's answer is settled.
use raft_lsmt.Base.{
  ℕ, ◌+◌, ◌≡◌, ◌≢◌, ◌⊎◌, sym, ap, subst, Option, none, some, List, [], ◌∷◌, ◌++◌, false, Any, here,
  there, Any-append_left, Any-append_right, Bool-cases, inl, inr, ok, ◌==◌,
}
use raft_lsmt.Base.Dict
use raft_lsmt.Client.Datatypes.{Node, node_key, QueryRequest}
use raft_lsmt.Client.Routing.Router.{Router}
use raft_lsmt.Client.Wire.Response.{Response}
use raft_lsmt.Client.Pages.{Answer, has_more, page_query, settled}
use raft_lsmt.Client.Read.{
  Task, Reading, timed, measured, advance, finish, complete, Step, done, Runs, stay, go, start,
  page_task,
}
use raft_lsmt.Client.Read.Rounds.{
  advance_more, advance_last, finish_initial_inv, finish_page_inv, start_inv,
}

-- The page behind an answer of a node is asked for: the keys after it, up to the end of the query.
abbrev pub IsPageOf : QueryRequest → Node → Response → Task → Type 0
IsPageOf query n response task =
    (id : ℕ) × (task.tracked ≡ some (n, id)) × (task.query ≡ page_query query response)

abbrev pub Follows : QueryRequest → List Task → Node → Response → Type 0
Follows query active n response =
    (response.limit_reached ≡ false) ⊎ Any (IsPageOf query n response) active

-- Every answer that is still cut off has its next page under way.
abbrev pub IsFollowed : QueryRequest → Reading → Type 0
IsFollowed query r =
    (n : Node) (response : Response)
    → Dict.get r.accumulated n ≡ some response
    → Follows query r.active n response

-- All of them but those of one node.
abbrev IsFollowedBut : QueryRequest → Node → Reading → Type 0
IsFollowedBut query m r =
    (n : Node) (response : Response)
    → (m == n) ≡ false
    → Dict.get r.accumulated n ≡ some response
    → Follows query r.active n response

Follows-append :
    (query : QueryRequest) (active new : List Task) (n : Node) (response : Response)
    → Follows query active n response
    → Follows query (active ++ new) n response
Follows-append query active new n response (inl e) = inl e
Follows-append query active new n response (inr m) =
    inr (Any-append_left (IsPageOf query n response) new m)

advance-IsFollowed :
    (query : QueryRequest) (drawn : ℕ) (m : Node) (answered : Response) (r : Reading)
    → IsFollowedBut query m r
    → IsFollowed query (advance query drawn m answered r)
unfolding settled
advance-IsFollowed query drawn m answered r rest n response found =
    elim (Bool-cases (has_more query answered)) [
      | inl more ↦
          let new = page_task query m answered (r.next_req_id + drawn) ∷ [] in
          let found' =
            rw (advance_more query drawn m answered r more, Dict.get-set r.accumulated m n answered)
              at found in
          rw (advance_more query drawn m answered r more) (elim (Bool-cases (m == n)) [
            | inl same ↦
                let e : answered ≡ response = cc (rw same at found') in
                let e' : m ≡ n = (node_key.same_iff m n).0 same in
                inr (
                  Any-append_right (IsPageOf query n response) r.active (
                    here (
                      r.next_req_id + drawn,
                      ap (λ (x : Node). some (x, r.next_req_id + drawn)) e',
                      ap (page_query query) e,
                    )))
            | inr other ↦
                Follows-append query r.active new n response
                  (rest n response other (rw other at found'))
          ])
      | inr last ↦
          let found' =
            rw
              (
                advance_last query drawn m answered r last,
                Dict.get-set r.accumulated m n (settled answered),
              )
              at found in
          rw (advance_last query drawn m answered r last) (elim (Bool-cases (m == n)) [
            | inl same ↦
                let e : settled answered ≡ response = cc (rw same at found') in
                inl (sym (ap (λ (x : Response). x.limit_reached) e))
            | inr other ↦ rest n response other (rw other at found')
          ])
    ]

-- Without a task that is no page of the node, its pages are still there.
Any-without :
    (P : Task → Type 0) (front back : List Task) (task : Task)
    → ¬ P task
    → Any P (front ++ task ∷ back)
    → Any P (front ++ back)
Any-without P [] back task no_page (here p) = absurd (no_page p)
Any-without P [] back task no_page (there m) = m
Any-without P (t ∷ front) back task no_page (here p) = here p
Any-without P (t ∷ front) back task no_page (there m) =
    there (Any-without P front back task no_page m)

Follows-without :
    (query : QueryRequest) (front back : List Task) (task : Task) (n : Node) (response : Response)
    → ¬ IsPageOf query n response task
    → Follows query (front ++ task ∷ back) n response
    → Follows query (front ++ back) n response
Follows-without query front back task n response no_page (inl e) = inl e
Follows-without query front back task n response no_page (inr m) =
    inr (Any-without (IsPageOf query n response) front back task no_page m)

tracked_injective :
    {m n : Node} {i j : ℕ} → ◌≡◌ {A = Option (Node × ℕ)} (some (m, i)) (some (n, j)) → m ≡ n
tracked_injective e = cc

other_node : (m n : Node) → (m == n) ≡ false → m ≢ n
other_node m n other e = cc ((node_key.same_iff m n).1 e)

finish-IsFollowed :
    (query : QueryRequest) (drawn : ℕ) (tracked : Option (Node × ℕ)) (answer : Answer)
    (r r' : Reading)
    → ((n : Node) (response : Response)
        → ((id : ℕ) → tracked ≢ some (n, id))
        → Dict.get r.accumulated n ≡ some response
        → Follows query r.active n response)
    → finish query drawn tracked answer r ≡ ok r'
    → IsFollowed query r'
unfolding finish timed measured
finish-IsFollowed query drawn none answer r r' rest e =
    rw ((finish_initial_inv query drawn answer r r' e).1) (
      advance-IsFollowed query drawn answer.node answer.response
        (measured query answer (timed answer r))
        (λ n response other found. rest n response (λ id p. cc) found))
finish-IsFollowed query drawn (some (m, expected)) answer r r' rest e =
    let (so_far, joined, kept, merged, same) =
      finish_page_inv query drawn m expected answer r r' e in
    rw same (
      advance-IsFollowed query drawn m joined (measured query answer (timed answer r))
        (λ n response other found.
          rest n response (λ id p. other_node m n other (tracked_injective p)) found))

Step-IsFollowed :
    (Allowed : Task → Answer → Type 0) (query : QueryRequest) (r r' : Reading)
    → Step Allowed query r r'
    → IsFollowed query r
    → IsFollowed query r'
unfolding complete
Step-IsFollowed Allowed query r r' (done front back task drawn answer split allowed e) h =
    finish-IsFollowed query drawn task.tracked answer (record r { active = front ++ back }) r'
      (λ n response no_page found.
        Follows-without query front back task n response (λ page. no_page page.0 page.1)
          (subst (λ ts. Follows query ts n response) split (h n response found)))
      e

Runs-IsFollowed :
    (Allowed : Task → Answer → Type 0) (query : QueryRequest) (n : ℕ) {r r' : Reading}
    → Runs Allowed query n r r'
    → IsFollowed query r
    → IsFollowed query r'
Runs-IsFollowed Allowed query _ (stay r) h = h
Runs-IsFollowed Allowed query _ (go {n = n} {r = r} {s = s} step rest) h =
    Runs-IsFollowed Allowed query n rest (Step-IsFollowed Allowed query r s step h)

-- At every point of a read, whatever the nodes answered and in whatever order: an answer that is
-- still marked as cut off has a page under way for the same node that asks for the keys behind
-- it, up to the end of the query. So where no query is under way any more, no answer is marked.
pub read_follows :
    (Allowed : Task → Answer → Type 0) (router router' : Router) (next_req_id : ℕ)
    (query : QueryRequest) (first last : Reading) (rounds : ℕ) (n : Node) (response : Response)
    → start router next_req_id query ≡ ok (first, router')
    → Runs Allowed query rounds first last
    → Dict.get last.accumulated n ≡ some response
    → (response.limit_reached ≡ false) ⊎ Any (IsPageOf query n response) last.active
read_follows Allowed router router' next_req_id query first last rounds n response started runs
      found =
    let (nodes, asked, same) = start_inv router router' next_req_id query first started in
    let nothing : IsFollowed query first = λ m answered held.
      cc (
        Dict.get-nil {V = Response} m,
        ap (λ (x : Reading). Dict.get x.accumulated m) same,
        held,
      ) in
    Runs-IsFollowed Allowed query rounds runs nothing n response found
