-- ===== src/Client/ReadBatch/Rounds.antt =====
-- What one page of a batch does, taken apart.
use raft_lsmt.Base.{
  ℕ, ◌≡◌, sym, some, List, ok, bind_ok, ok_injective, get_elem?, key_error, index_error, type_error,
  unbound_local_error,
}
use raft_lsmt.Base.Dict
use raft_lsmt.Client.Datatypes.{Node, node_key, QueryRequest}
use raft_lsmt.Client.Routing.Target.{or_raise, or_raise_ok}
use raft_lsmt.Client.Wire.Response.{Response}
use raft_lsmt.Client.Pages.{Answer, accept_page, join_page}
use raft_lsmt.Client.ReadBatch.{BatchReading, batch_timed, charged, follow_up, finish_batch_page}

pub finish_batch_page_inv :
    (queries : List QueryRequest) (drawn : ℕ) (n : Node) (idx orig expected : ℕ) (answer : Answer)
    (r r' : BatchReading)
    → finish_batch_page queries drawn n idx orig expected answer r ≡ ok r'
    → (last_query : QueryRequest) × (so_far : Response) × (joined : Response)
      × (query : QueryRequest) × (r.orig_query ≡ some last_query)
      × (join_page so_far answer.response ≡ ok joined)
      × (get_elem? queries orig ≡ some query)
      × (r'
          ≡ follow_up query drawn n idx orig joined
              (record (charged last_query answer.response answer.net_start answer.net_end
                (batch_timed answer.net_start answer.net_end r)) { orig_query = some query }))
unfolding finish_batch_page
finish_batch_page_inv queries drawn n idx orig expected answer r r' e =
    let (u, e1, f1) = bind_ok (accept_page expected answer.response) _ e in
    let (last_query, e2, f2) = bind_ok (or_raise r.orig_query unbound_local_error) _ f1 in
    let (responses, e3, f3) = bind_ok (or_raise (Dict.get r.accumulated n) key_error) _ f2 in
    let (entry, e4, f4) = bind_ok (or_raise (get_elem? responses idx) index_error) _ f3 in
    let (so_far, e5, f5) = bind_ok (or_raise entry type_error) _ f4 in
    let (joined, e6, f6) = bind_ok (join_page so_far answer.response) _ f5 in
    let (query, e7, f7) = bind_ok (or_raise (get_elem? queries orig) index_error) _ f6 in
    (
      last_query,
      so_far,
      joined,
      query,
      or_raise_ok r.orig_query unbound_local_error last_query e2,
      e6,
      or_raise_ok (get_elem? queries orig) index_error query e7,
      sym (ok_injective f7),
    )
