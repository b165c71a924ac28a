-- ===== src/Client/Read/Counts.antt =====
-- The records that a read has gathered, and a page that brings nothing new.
use raft_lsmt.Base.{
  ℕ, ◌+◌, ◌<◌, ◌≡◌, refl, ap, Option, none, some, [], ◌∷◌, ◌++◌, arith, true, ok, length,
  length-append, nat_key, nat_beq_iff,
}
use raft_lsmt.Base.Dict
use raft_lsmt.Client.Datatypes.{Node, node_key, QueryRequest}
use raft_lsmt.Client.Routing.Target.{or_raise}
use raft_lsmt.Client.Routing.Router.{Router}
use raft_lsmt.Client.Wire.Response.{Response}
use raft_lsmt.Client.Pages.{
  Answer, accept_page, saturated, join_page, has_more, page_query, settled,
}
use raft_lsmt.Client.Read.{
  Task, Reading, timed, measured, advance, finish_page, finish, complete, done, Runs, stay, go,
  start,
}
use raft_lsmt.Client.Read.Rounds.{advance_more, finish_initial_inv, finish_page_inv, start_inv}

-- The count of a response is the number of its records.
abbrev pub IsCounted : Response → Type 0
IsCounted response = response.records_count ≡ length response.records

abbrev pub AnswerCounted : Task → Answer → Type 0
AnswerCounted task answer = IsCounted answer.response

abbrev AllCounted : Reading → Type 0
AllCounted r =
    (n : Node) (response : Response) → Dict.get r.accumulated n ≡ some response → IsCounted response

advance-AllCounted :
    (query : QueryRequest) (drawn : ℕ) (m : Node) (answered : Response) (r : Reading)
    → AllCounted r
    → IsCounted answered
    → AllCounted (advance query drawn m answered r)
unfolding advance settled
advance-AllCounted query drawn m answered r rest new n response found = ground (
  arith,
  rest n response,
  Dict.get-set r.accumulated m n answered,
  Dict.get-set r.accumulated m n (settled answered),
)

join_page-IsCounted :
    (so_far page joined : Response)
    → join_page so_far page ≡ ok joined
    → IsCounted so_far
    → IsCounted page
    → IsCounted joined
unfolding join_page
join_page-IsCounted so_far page joined e h g =
    ground (arith, length-append so_far.records page.records)

finish-AllCounted :
    (query : QueryRequest) (drawn : ℕ) (tracked : Option (Node × ℕ)) (answer : Answer)
    (r r' : Reading)
    → AllCounted r
    → IsCounted answer.response
    → finish query drawn tracked answer r ≡ ok r'
    → AllCounted r'
unfolding finish timed measured
finish-AllCounted query drawn none answer r r' rest new e =
    rw ((finish_initial_inv query drawn answer r r' e).1) (
      advance-AllCounted query drawn answer.node answer.response
        (measured query answer (timed answer r)) rest new)
finish-AllCounted query drawn (some (m, expected)) answer r r' rest new e =
    let (so_far, joined, kept, merged, same) =
      finish_page_inv query drawn m expected answer r r' e in
    rw same (
      advance-AllCounted query drawn m joined (measured query answer (timed answer r)) rest
        (join_page-IsCounted so_far answer.response joined merged (rest m so_far kept) new))

Runs-AllCounted :
    (query : QueryRequest) (n : ℕ) {r r' : Reading}
    → Runs AnswerCounted query n r r'
    → AllCounted r
    → AllCounted r'
unfolding complete
Runs-AllCounted query _ (stay r) h = h
Runs-AllCounted query _
      (go {n = n} {r = r} {s = s} (done front back task drawn answer split new e) rest) h =
    Runs-AllCounted query n rest (
      finish-AllCounted query drawn task.tracked answer (record r { active = front ++ back }) s h
        new e)

-- Where every response holds as many records as it counts, so does what is gathered for each node,
-- however many pages it was put together from.
pub read_counts :
    (router router' : Router) (next_req_id : ℕ) (query : QueryRequest) (first last : Reading)
    (rounds : ℕ) (n : Node) (response : Response)
    → start router next_req_id query ≡ ok (first, router')
    → Runs AnswerCounted query rounds first last
    → Dict.get last.accumulated n ≡ some response
    → response.records_count ≡ length response.records
read_counts router router' next_req_id query first last rounds n response started runs found =
    let (nodes, asked, same) = start_inv router router' next_req_id query first started in
    let nothing : AllCounted first = λ m answered held.
      cc (
        Dict.get-nil {V = Response} m,
        ap (λ (x : Reading). Dict.get x.accumulated m) same,
        held,
      ) in
    Runs-AllCounted query rounds runs nothing n response found

accept_cut_page :
    (expected : ℕ) (page : Response)
    → page.req_id ≡ expected
    → 0 < page.records_count
    → accept_page expected page ≡ ok tt
unfolding accept_page saturated
accept_cut_page expected page id some_records = ground (arith, nat_beq_iff page.req_id expected)

abbrev joined_with : Response → Response → Response
joined_with so_far page = record so_far {
  records = so_far.records ++ page.records;
  records_count = so_far.records_count + page.records_count;
  records_bytes = so_far.records_bytes + page.records_bytes;
  limit_reached = page.limit_reached;
  max_id = page.max_id;
  max_ts = page.max_ts;
}

join_stalled_page :
    (so_far page : Response)
    → page.max_id ≡ so_far.max_id
    → join_page so_far page ≡ ok (joined_with so_far page)
unfolding join_page
join_stalled_page so_far page same = ground arith

has_more_joined :
    (query : QueryRequest) (so_far page : Response)
    → page.limit_reached ≡ true
    → page.max_id < query.max_id
    → has_more query (joined_with so_far page) ≡ true
unfolding has_more
has_more_joined query so_far page cut behind = ground arith

-- A page that is cut off with records, but does not get beyond the last key that the node answered
-- before, is accepted, and the same page is asked for again.
pub page_stalls :
    (query : QueryRequest) (drawn : ℕ) (n : Node) (expected : ℕ) (answer : Answer) (r : Reading)
    (so_far : Response)
    → Dict.get r.accumulated n ≡ some so_far
    → answer.response.req_id ≡ expected
    → answer.response.limit_reached ≡ true
    → 0 < answer.response.records_count
    → answer.response.max_id ≡ so_far.max_id
    → so_far.max_id < query.max_id
    → (r' : Reading) × (finish query drawn (some (n, expected)) answer r ≡ ok r')
      × (r'.active
          ≡ r.active
            ++ record {
              asked = n;
              query = page_query query so_far;
              req_id = r.next_req_id + drawn;
              tracked = some (n, r.next_req_id + drawn);
            }
              ∷ [])
page_stalls query drawn n expected answer r so_far found id cut some_records same behind =
    let page = answer.response in
    let joined = joined_with so_far page in
    let before = measured query answer (timed answer r) in
    let more = has_more_joined query so_far page cut (omega arith) in
    (
      advance query drawn n joined before,
      unfold finish finish_page or_raise in
          rw
            (
              accept_cut_page expected page id some_records,
              found,
              join_stalled_page so_far page same,
            )
            refl,
      rw (advance_more query drawn n joined before more)
          (unfold measured timed page_query in rw same refl),
    )
