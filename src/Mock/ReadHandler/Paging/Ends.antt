-- ===== src/Mock/ReadHandler/Paging/Ends.antt =====
-- A read of a node that answers as the mock server does comes to its end, over the wire.
use raft_lsmt.Base.{
  ℕ, zero, suc, ◌+◌, ◌-◌, ◌*◌, ◌≤◌, ◌≡◌, ◌⊎◌, inl, inr, refl, sym, ap, subst, ◌∙◌, [], ◌∷◌, ◌++◌,
  arith, length, ◌<◌, ◌^◌, List, All, Bool-cases, ok, ◌>>=◌, ltb, false, nat_key, ◌&&◌,
}
use raft_lsmt.Base.Dict
use raft_lsmt.Client.Datatypes.{Node, node_key, QueryRequest}
use raft_lsmt.Client.Routing.Target.{or_raise}
use raft_lsmt.Client.Routing.Router.{Router}
use raft_lsmt.Client.Routing.Router
use raft_lsmt.Client.Wire.Response.{Response}
use raft_lsmt.Client.Wire.Request.{IsQuery, pack_request, request_roundtrip}
use raft_lsmt.Client.Wire.Stream.{Arrival}
use raft_lsmt.Client.Wire.Stream.Chunks.{stream}
use raft_lsmt.Client.Send.{replies}
use raft_lsmt.Client.Query.{exchange}
use raft_lsmt.Client.Pages.{
  Answer, saturated, accept_initial, accept_page, join_page, page_query, has_more,
}
use raft_lsmt.Client.Read.{
  Task, Reading, timed, measured, advance, complete, finish, finish_initial, finish_page, Step,
  done, Runs, stay, go, first_task, page_task, start,
}
use raft_lsmt.Client.Read.Rounds.{advance_more, advance_last, start_inv}
use raft_lsmt.Client.Read.Ends.{Reaches, read_ends}
use raft_lsmt.Mock.ReadHandler.{fake_count, actual_max_id, handle_read}
use raft_lsmt.Mock.ReadHandler.Answers.{fake_response, query_answered}
use raft_lsmt.Mock.ReadHandler.Paging.{
  Served, Fetching, at_first, at_page, at_end, get_only, step-Fetching, begins_alone,
}

-- The mock server's answer to a task.
abbrev answer_of : Node → Task → Answer
answer_of n task = record {
  node = n;
  response = fake_response task.req_id task.query;
  net_start = 0;
  net_end = 0;
}

not_saturated :
    (number : ℕ) (query : QueryRequest)
    → query.min_id ≤ query.max_id
    → saturated (fake_response number query) ≡ false
unfolding saturated fake_count actual_max_id
not_saturated number query h = ground arith

initial_accepted :
    (number : ℕ) (query : QueryRequest)
    → query.min_id ≤ query.max_id
    → accept_initial query (fake_response number query) ≡ ok tt
unfolding accept_initial actual_max_id
initial_accepted number query h = rw (not_saturated number query h) (ground arith)

page_accepted :
    (number : ℕ) (query : QueryRequest)
    → query.min_id ≤ query.max_id
    → accept_page number (fake_response number query) ≡ ok tt
unfolding accept_page
page_accepted number query h =
    rw ((nat_key.same_iff number number).1 refl, not_saturated number query h) refl

page_joined :
    (number : ℕ) (query : QueryRequest) (so_far : Response)
    → (joined : Response) × (join_page so_far (fake_response number (page_query query so_far))
        ≡ ok joined)
unfolding join_page page_query actual_max_id
page_joined number query so_far =
    let reply = fake_response number (page_query query so_far) in
    let on : (reply.limit_reached && ltb reply.max_id so_far.max_id) ≡ false = ground arith in
    (
      record so_far {
        records = so_far.records ++ reply.records;
        records_count = so_far.records_count + reply.records_count;
        records_bytes = so_far.records_bytes + reply.records_bytes;
        limit_reached = reply.limit_reached;
        max_id = reply.max_id;
        max_ts = reply.max_ts;
      },
      rw on refl,
    )

-- The answer comes over the wire: the request can be sent, and a client to which the bytes arrive
-- that the server sends for it, in whatever pieces, reads this answer from them.
abbrev pub IsSent : Task → Answer → Type 0
IsSent task answer =
    (request : List ℕ) × (pack_request task.req_id task.query ≡ ok request)
    × ((arrivals : List Arrival)
        → stream arrivals ≡ handle_read request
        → exchange task.req_id task.query false (replies arrivals) ≡ ok answer.response)

-- The node is the mock server.
abbrev pub Mocked : Node → Task → Answer → Type 0
Mocked n task answer = Served n task answer × IsSent task answer

answer-Mocked :
    (n : Node) (task : Task)
    → task.req_id < 2 ^ 64
    → IsQuery task.query
    → (task.query.min_id + 10) * 10 ≤ 2 ^ 64
    → Mocked n task (answer_of n task)
answer-Mocked n task number fits room =
    let (request, packed, size, back) = request_roundtrip task.req_id task.query [] number fits in
    let reads : (arrivals : List Arrival)
        → stream arrivals ≡ handle_read request
        → exchange task.req_id task.query false (replies arrivals)
          ≡ ok (fake_response task.req_id task.query) =
      λ arrivals came.
        query_answered task.req_id task.query request arrivals number fits room packed came in
    ((refl, refl), (request, packed, reads))

-- No request has a number above `b`, and no later one of the next round will.
record Numbered (b : ℕ) (r : Reading) : Type 0 where
  next_number : r.next_req_id ≤ b
  numbers : All (λ t. t.req_id < b) r.active

advance-Numbered :
    (query : QueryRequest) (n : Node) (resp : Response) (r : Reading) (b : ℕ)
    → r.next_req_id ≤ b
    → r.active ≡ []
    → Numbered (suc b) (advance query 0 n resp r)
advance-Numbered query n resp r b h idle = elim (Bool-cases (has_more query resp)) [
  | inl more ↦
      let task = page_task query n resp (r.next_req_id + 0) in
      rw (advance_more query 0 n resp r more) (record {
        next_number = omega (arith, h);
        numbers =
            subst (λ ts. All (λ t. t.req_id < suc b) (ts ++ task ∷ [])) (sym idle)
              (omega (arith, h), tt);
      })
  | inr last ↦ rw (advance_last query 0 n resp r last) (record {
    next_number = omega (arith, h);
    numbers = subst (λ ts. All (λ t. t.req_id < suc b) ts) (sym idle) tt;
  })
]

module _ (query : QueryRequest) (n : Node) (le : query.min_id ≤ query.max_id) (fits : IsQuery query)
    (room : (query.max_id + 10) * 10 ≤ 2 ^ 64) where
  -- The next round, if there is something under way.
  next_round :
      (r : Reading) (b : ℕ)
      → Fetching query n r
      → Numbered b r
      → b ≤ 2 ^ 64
      → (r.active ≡ []) ⊎ ((r' : Reading) × Step (Mocked n) query r r' × Numbered (suc b) r')
  unfolding complete finish finish_initial finish_page or_raise page_query measured timed
  next_round r b (at_first req_id act nothing) numbered small =
      let task = first_task query req_id n in
      let answer = answer_of n task in
      let now = record r { active = [] } in
      let before = measured query answer (timed answer now) in
      let entered = advance query 0 n answer.response before in
      let finished : complete query 0 task (ok answer) now ≡ ok entered =
        rw (initial_accepted req_id query le) refl in
      let number = (subst (All (λ t. t.req_id < b)) act numbered.numbers).0 in
      let mocked = answer-Mocked n task (omega (arith, number, small)) fits (omega arith) in
      inr (
        entered,
        done [] [] task 0 answer act mocked finished,
        advance-Numbered query n answer.response before b numbered.next_number refl,
      )
  next_round r b (at_page resp number h more act held) numbered small =
      let task = page_task query n resp number in
      let (joined, joins) = page_joined number query resp in
      let found = ap (λ d. Dict.get d n) held ∙ get_only n resp in
      let answer = answer_of n task in
      let now = record r { active = [] } in
      let before = measured query answer (timed answer now) in
      let entered = advance query 0 n joined before in
      let accepted = page_accepted number (page_query query resp) (omega arith) in
      let finished : complete query 0 task (ok answer) now ≡ ok entered =
        rw (accepted, found)
          (ap (λ o. o >>= λ x. ok (advance query 0 n x (measured query answer (timed answer now))))
            joins) in
      let below = (subst (All (λ t. t.req_id < b)) act numbered.numbers).0 in
      let page_fits : IsQuery (page_query query resp) =
        (omega (arith, more, room), omega arith, fits.2, fits.3) in
      let mocked =
        answer-Mocked n task (omega (arith, below, small)) page_fits (omega (arith, more, room)) in
      inr (
        entered,
        done [] [] task 0 answer act mocked finished,
        advance-Numbered query n joined before b numbered.next_number refl,
      )
  next_round r b (at_end resp h act held) numbered small = inl act

  step-Served : (r r' : Reading) → Step (Mocked n) query r r' → Step (Served n) query r r'
  step-Served r r' (done front back task drawn answer e mocked finished) =
      done front back task drawn answer e mocked.0 finished

  -- So many rounds, or the end before.
  some_rounds :
      (k : ℕ) (r : Reading) (b : ℕ)
      → Fetching query n r
      → Numbered b r
      → b + k ≤ 2 ^ 64
      → ((j : ℕ) × (r' : Reading) × Runs (Mocked n) query j r r' × (r'.active ≡ []))
        ⊎ ((r' : Reading) × Runs (Mocked n) query k r r')
  some_rounds zero r b h numbered small = inr (r, stay r)
  some_rounds (suc k) r b h numbered small =
      elim (next_round r b h numbered (omega (arith, small))) [
        | inl idle ↦ inl (0, r, stay r, idle)
        | inr (s, step, numbered') ↦
            let next = step-Fetching query n le r s h (step-Served r s step) in
            elim (some_rounds k s (suc b) next numbered' (omega (arith, small))) [
              | inl (j, r', rest, idle) ↦ inl (suc j, r', go step rest, idle)
              | inr (r', rest) ↦ inr (r', go step rest)
            ]
      ]

Served-Reaches :
    (n : Node) (task : Task) (answer : Answer) → Served n task answer → Reaches task answer
unfolding actual_max_id
Served-Reaches n task answer (same, served) cut =
    subst (λ x. task.query.min_id ≤ x.max_id) (sym served) (omega arith)

Runs-Reaches :
    (query : QueryRequest) (n : Node) (k : ℕ) (r r' : Reading)
    → Runs (Mocked n) query k r r'
    → Runs Reaches query k r r'
Runs-Reaches query n k r r' (stay _) = stay r
Runs-Reaches query n (suc k) r r'
      (go {s = s} (done front back task drawn answer e mocked finished) rest) =
    go (done front back task drawn answer e (Served-Reaches n task answer mocked.0) finished)
      (Runs-Reaches query n k s r' rest)

-- A read that asks one node, of keys that do not run backwards, whose numbers fit 64 bits, as do ten
-- times each key up to ten above the greatest, and the numbers of the requests: it can be carried on
-- with what the mock server sends for each request, read from the bytes in whatever pieces they
-- arrive, until nothing is under way any more, in two rounds at most and one more for each key of the
-- query, none of which raises.
pub mock_read_ends :
    (router router' : Router) (next_req_id : ℕ) (query : QueryRequest) (n : Node) (begun : Reading)
    → query.min_id ≤ query.max_id
    → IsQuery query
    → (query.max_id + 10) * 10 ≤ 2 ^ 64
    → next_req_id + (query.max_id + 5) ≤ 2 ^ 64
    → Router.get_nodes_for_read router query ≡ ok (n ∷ [], router')
    → start router next_req_id query ≡ ok (begun, router')
    → (k : ℕ) × (r : Reading) × Runs (Mocked n) query k begun r
      × (r.active ≡ [])
      × (k ≤ 2 + (query.max_id + 1 - query.min_id))
mock_read_ends router router' next_req_id query n begun le fits room numbers asked began =
    let bound = 2 + (query.max_id + 1 - query.min_id) in
    let tasks = begins_alone router router' next_req_id query n begun asked began in
    let alone : length begun.active ≡ 1 = ap length tasks.0 in
    let short : (k : ℕ) (r : Reading) → Runs (Mocked n) query k begun r → k ≤ bound = λ k r runs.
      omega (
        arith,
        read_ends router router' next_req_id query begun r k began
            (Runs-Reaches query n k begun r runs),
        ap (λ l. l * bound) alone,
      ) in
    let (nodes, met, shape) = start_inv router router' next_req_id query begun began in
    let first : Numbered (next_req_id + 1) begun = record {
      next_number =
          subst (λ (x : Reading). x.next_req_id ≤ next_req_id + 1) (sym shape) (omega arith);
      numbers = subst (All (λ t. t.req_id < next_req_id + 1)) (sym tasks.0) (omega arith, tt);
    } in
    elim (some_rounds query n le fits room (suc bound) begun (next_req_id + 1)
      (at_first next_req_id tasks.0 tasks.1) first (omega (arith, numbers))) [
        | inl (k, r, runs, idle) ↦ (k, r, runs, idle, short k r runs)
        | inr (r, runs) ↦ absurd (omega (arith, short (suc bound) r runs))
      ]
