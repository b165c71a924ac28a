-- ===== src/Client/Read/Rounds.antt =====
-- What one round of a read does, taken apart.
use raft_lsmt.Base.{
  ℕ, ◌+◌, ◌≡◌, sym, ap, ◌∙◌, none, some, List, [], ◌∷◌, ◌++◌, map, true, false, ok, bind_ok,
  ok_injective, key_error,
}
use raft_lsmt.Base.Dict
use raft_lsmt.Client.Datatypes.{Node, node_key, QueryRequest}
use raft_lsmt.Client.Routing.Target.{or_raise, or_raise_ok}
use raft_lsmt.Client.Routing.Router.{Router}
use raft_lsmt.Client.Routing.Router
use raft_lsmt.Client.Wire.Response.{Response}
use raft_lsmt.Client.Pages.{Answer, accept_initial, accept_page, join_page, has_more, settled}
use raft_lsmt.Client.Read.{
  Reading, timed, measured, advance, finish_initial, finish_page, start, first_task, page_task,
}

pub advance_more :
    (query : QueryRequest) (drawn : ℕ) (n : Node) (response : Response) (r : Reading)
    → has_more query response ≡ true
    → advance query drawn n response r ≡ record r {
      accumulated = Dict.set r.accumulated n response;
      next_req_id = r.next_req_id + drawn + 1;
      active = r.active ++ page_task query n response (r.next_req_id + drawn) ∷ [];
    }
unfolding advance
advance_more query drawn n response r more = rw more

pub advance_last :
    (query : QueryRequest) (drawn : ℕ) (n : Node) (response : Response) (r : Reading)
    → has_more query response ≡ false
    → advance query drawn n response r
      ≡ record r { accumulated = Dict.set r.accumulated n (settled response) }
unfolding advance
advance_last query drawn n response r last = rw last

pub finish_page_inv :
    (query : QueryRequest) (drawn : ℕ) (n : Node) (expected : ℕ) (answer : Answer) (r r' : Reading)
    → finish_page query drawn n expected answer r ≡ ok r'
    → (so_far : Response) × (joined : Response) × (Dict.get r.accumulated n ≡ some so_far)
      × (join_page so_far answer.response ≡ ok joined)
      × (r' ≡ advance query drawn n joined (measured query answer (timed answer r)))
unfolding finish_page
finish_page_inv query drawn n expected answer r r' e =
    let (u, e1, e2) = bind_ok (accept_page expected answer.response) _ e in
    let (so_far, e3, e4) = bind_ok (or_raise (Dict.get r.accumulated n) key_error) _ e2 in
    let (joined, e5, e6) = bind_ok (join_page so_far answer.response) _ e4 in
    (
      so_far,
      joined,
      or_raise_ok (Dict.get r.accumulated n) key_error so_far e3,
      e5,
      sym (ok_injective e6),
    )

pub finish_initial_inv :
    (query : QueryRequest) (drawn : ℕ) (answer : Answer) (r r' : Reading)
    → finish_initial query drawn answer r ≡ ok r'
    → (accept_initial query answer.response ≡ ok tt)
      × (r'
          ≡ advance query drawn answer.node answer.response
              (measured query answer (timed answer r)))
unfolding finish_initial
finish_initial_inv query drawn answer r r' e =
    let (u, e1, e2) = bind_ok (accept_initial query answer.response) _ e in
    (e1, sym (ok_injective e2))

pub start_inv :
    (router router' : Router) (next_req_id : ℕ) (query : QueryRequest) (first : Reading)
    → start router next_req_id query ≡ ok (first, router')
    → (nodes : List Node) × (Router.get_nodes_for_read router query ≡ ok (nodes, router'))
      × (first ≡ record {
        next_req_id = next_req_id + 1;
        active = map (first_task query next_req_id) nodes;
        accumulated = [];
        metrics = [];
        min_start = none;
        max_end = 0;
      })
unfolding start
start_inv router router' next_req_id query first e =
    let ((nodes, router2), asked, e2) = bind_ok (Router.get_nodes_for_read router query) _ e in
    let same : router2 ≡ router' = ap (λ p. p.1) (ok_injective e2) in
    (nodes, asked ∙ ap (λ (x : Router). ok (nodes, x)) same, sym (ap (λ p. p.0) (ok_injective e2)))
