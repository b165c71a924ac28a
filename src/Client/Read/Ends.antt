-- ===== src/Client/Read/Ends.antt =====
-- A read ends: how many rounds it can have.
use raft_lsmt.Base.{
  ℕ, suc, ◌+◌, ◌-◌, ◌*◌, ◌≤◌, ◌≡◌, refl, sym, ap, ◌∙◌, Option, none, some, List, [], ◌∷◌, ◌++◌, map,
  arith, length, true, Bool-cases, inl, inr, ok, ltb→lt,
}
use raft_lsmt.Client.Datatypes.{Node, node_key, QueryRequest}
use raft_lsmt.Client.Routing.Router.{Router}
use raft_lsmt.Client.Wire.Response.{Response}
use raft_lsmt.Client.Pages.{Answer, accept_initial, join_page, has_more, page_query}
use raft_lsmt.Client.Read.{
  Task, Reading, timed, measured, advance, finish, complete, Step, done, Runs, stay, go, start,
  first_task, page_task,
}
use raft_lsmt.Client.Read.Rounds.{finish_initial_inv, finish_page_inv, start_inv}

-- An answer that is cut off reaches the first key that was asked for at least.
abbrev pub Reaches : Task → Answer → Type 0
Reaches task answer =
    answer.response.limit_reached ≡ true → task.query.min_id ≤ answer.response.max_id

-- How many rounds a task can still lead to.
abbrev pub rounds_of : QueryRequest → Option (Node × ℕ) → ℕ → ℕ
rounds_of query none min_id = 2 + (query.max_id + 1 - query.min_id)
rounds_of query (some _) min_id = 1 + (query.max_id + 1 - min_id)

abbrev pub rounds_left : QueryRequest → List Task → ℕ
rounds_left query [] = 0
rounds_left query (t ∷ ts) = rounds_of query t.tracked t.query.min_id + rounds_left query ts

rounds_left-append :
    (query : QueryRequest) (xs ys : List Task)
    → rounds_left query (xs ++ ys) ≡ rounds_left query xs + rounds_left query ys
rounds_left-append query [] ys = omega arith
rounds_left-append query (x ∷ xs) ys = omega (arith, rounds_left-append query xs ys)

-- What an answer that reaches `m` adds: nothing, or a page with fewer rounds than `m` has.
advance_rounds :
    (query : QueryRequest) (drawn : ℕ) (n : Node) (response : Response) (r : Reading) (m : ℕ)
    → (response.limit_reached ≡ true → m ≤ response.max_id)
    → rounds_left query (advance query drawn n response r).active
      ≤ rounds_left query r.active + (query.max_id + 1 - m)
unfolding advance has_more page_query
advance_rounds query drawn n response r m reach = elim (Bool-cases (has_more query response)) [
  | inl more ↦
      let number = r.next_req_id + drawn in
      let cut : response.limit_reached ≡ true = ground arith in
      rw more (
        omega (
          arith,
          rounds_left-append query r.active (page_task query n response number ∷ []),
          reach cut,
          ltb→lt response.max_id query.max_id (ground arith),
        ))
  | inr last ↦ rw last (omega arith)
]

pub accept_initial_reaches :
    (query : QueryRequest) (response : Response) (u : Unit {0})
    → accept_initial query response ≡ ok u
    → response.limit_reached ≡ true
    → query.min_id ≤ response.max_id
unfolding accept_initial
accept_initial_reaches query response u e cut = ground arith

pub join_page_end :
    (so_far page joined : Response)
    → join_page so_far page ≡ ok joined
    → (joined.limit_reached ≡ page.limit_reached) × (joined.max_id ≡ page.max_id)
unfolding join_page
join_page_end so_far page joined e = (ground arith, ground arith)

-- A task that is done leads to fewer rounds than it could.
finish_rounds :
    (query : QueryRequest) (drawn : ℕ) (tracked : Option (Node × ℕ)) (min_id : ℕ) (answer : Answer)
    (r r' : Reading)
    → (answer.response.limit_reached ≡ true → min_id ≤ answer.response.max_id)
    → finish query drawn tracked answer r ≡ ok r'
    → suc (rounds_left query r'.active)
      ≤ rounds_of query tracked min_id + rounds_left query r.active
unfolding finish timed measured
finish_rounds query drawn none min_id answer r r' reach e =
    let (accepted, same) = finish_initial_inv query drawn answer r r' e in
    let fewer =
      advance_rounds query drawn answer.node answer.response
        (measured query answer (timed answer r)) query.min_id
        (accept_initial_reaches query answer.response tt accepted) in
    rw same (omega (arith, fewer))
finish_rounds query drawn (some (n, expected)) min_id answer r r' reach e =
    let (so_far, joined, kept, merged, same) =
      finish_page_inv query drawn n expected answer r r' e in
    let (cut, end) = join_page_end so_far answer.response joined merged in
    let fewer =
      advance_rounds query drawn n joined (measured query answer (timed answer r)) min_id
        (λ c. omega (arith, end, reach (sym cut ∙ c))) in
    rw same (omega (arith, fewer))

rounds_fall :
    (query : QueryRequest) (r r' : Reading)
    → Step Reaches query r r'
    → suc (rounds_left query r'.active) ≤ rounds_left query r.active
unfolding complete
rounds_fall query r r' (done front back task drawn answer split reach e) =
    let less =
      finish_rounds query drawn task.tracked task.query.min_id answer
        (record r { active = front ++ back }) r' reach e in
    omega (
      arith,
      less,
      ap (rounds_left query) split,
      rounds_left-append query front (task ∷ back),
      rounds_left-append query front back,
    )

rounds_bound :
    (query : QueryRequest) (n : ℕ) {r r' : Reading}
    → Runs Reaches query n r r'
    → n + rounds_left query r'.active ≤ rounds_left query r.active
rounds_bound query _ (stay r) = omega arith
rounds_bound query _ (go {n = n} {r = r} {s = s} step rest) =
    omega (arith, rounds_fall query r s step, rounds_bound query n rest)

rounds_left_first :
    (query : QueryRequest) (id : ℕ) (nodes : List Node)
    → rounds_left query (map (first_task query id) nodes)
      ≡ length nodes * (2 + (query.max_id + 1 - query.min_id))
rounds_left_first query id [] = omega arith
rounds_left_first query id (n ∷ nodes) = grind (arith, rounds_left_first query id nodes)

length-map_first :
    (query : QueryRequest) (id : ℕ) (nodes : List Node)
    → length (map (first_task query id) nodes) ≡ length nodes
length-map_first query id [] = refl
length-map_first query id (n ∷ nodes) = ap suc (length-map_first query id nodes)

-- Where every answer that is cut off reaches the first key that it was asked for, a read ends: it
-- has two rounds at most for each node that it starts with, and one more for each key of the query.
pub read_ends :
    (router router' : Router) (next_req_id : ℕ) (query : QueryRequest) (first last : Reading)
    (n : ℕ)
    → start router next_req_id query ≡ ok (first, router')
    → Runs Reaches query n first last
    → n ≤ length first.active * (2 + (query.max_id + 1 - query.min_id))
read_ends router router' next_req_id query first last n started runs =
    let (nodes, asked, same) = start_inv router router' next_req_id query first started in
    let tasks : first.active ≡ map (first_task query next_req_id) nodes =
      ap (λ (x : Reading). x.active) same in
    let budget = rounds_left_first query next_req_id nodes in
    let size = length-map_first query next_req_id nodes in
    rw (tasks, size)
      (omega (arith, rounds_bound query n runs, ap (rounds_left query) tasks, budget))
