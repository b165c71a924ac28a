-- ===== src/Mock/ReadHandler/Paging.antt =====
-- A read of one node that answers as the mock server does: its pages are joined to the whole answer.
pub mod Ends
use raft_lsmt.Mock.ReadHandler.Gather.{
  Gathered, IsWhole, first-Gathered, join-Gathered, Gathered-IsWhole, has_more_lt,
}
use raft_lsmt.Base.{
  ℕ, zero, suc, ◌+◌, ◌-◌, ◌*◌, ◌<◌, ◌≤◌, ◌≡◌, ◌⊎◌, inl, inr, min, refl, sym, ap, subst, ◌∙◌, none,
  some, List, [], ◌∷◌, ◌++◌, map, arith, ok, raise, bind_ok, ok_injective, ltb, true, false,
  Bool-cases, ◌==◌, nat_key, ◌&&◌,
}
use native.Mathlib.Decide.{dec_lt}
use native.Mathlib.Nat.{zero-add, suc-add}
use raft_lsmt.Base.Dict
use raft_lsmt.Client.Datatypes.{Node, node_key, Record, int, QueryRequest}
use raft_lsmt.Client.Routing.Router.{Router}
use raft_lsmt.Client.Routing.Router
use raft_lsmt.Client.Wire.Response.{Response}
use raft_lsmt.Client.Pages.{Answer, join_page, has_more, page_query, settled}
use raft_lsmt.Client.Read.{
  Task, Reading, timed, measured, advance, complete, finish, finish_initial, finish_page, Step,
  done, Runs, stay, go, first_task, page_task, start,
}
use raft_lsmt.Client.Read.Rounds.{
  advance_more, advance_last, finish_page_inv, finish_initial_inv, start_inv,
}
use raft_lsmt.Mock.ReadHandler.{fake_count, actual_max_id}
use raft_lsmt.Mock.ReadHandler.Answers.{fake_records, fake_response}

-- The node answers every query as the mock server does.
abbrev pub Served : Node → Task → Answer → Type 0
Served n task answer = (answer.node ≡ n) × (answer.response ≡ fake_response task.req_id task.query)

-- Where a read of one node stands: before its first answer, before a page, or at the end.
pub data Fetching (query : QueryRequest) (n : Node) (r : Reading) : Type 0 where
  at_first :
      (req_id : ℕ)
      → r.active ≡ first_task query req_id n ∷ []
      → r.accumulated ≡ []
      → Fetching query n r
  at_page :
      (resp : Response) (number : ℕ)
      → Gathered query resp
      → resp.max_id < query.max_id
      → r.active ≡ page_task query n resp number ∷ []
      → r.accumulated ≡ (n, resp) ∷ []
      → Fetching query n r
  at_end :
      (resp : Response)
      → IsWhole query resp
      → r.active ≡ []
      → r.accumulated ≡ (n, resp) ∷ []
      → Fetching query n r

-- An answer so far is entered, alone.
advance-Fetching :
    (query : QueryRequest) (n : Node) (drawn : ℕ) (resp : Response) (r : Reading)
    → query.min_id ≤ query.max_id
    → Gathered query resp
    → r.active ≡ []
    → Dict.set r.accumulated n resp ≡ (n, resp) ∷ []
    → Dict.set r.accumulated n (settled resp) ≡ (n, settled resp) ∷ []
    → Fetching query n (advance query drawn n resp r)
advance-Fetching query n drawn resp r le h idle kept kept' =
    elim (Bool-cases (has_more query resp)) [
      | inl more ↦ rw (advance_more query drawn n resp r more) (
          at_page resp (r.next_req_id + drawn) h (has_more_lt query resp more)
            (ap (λ ts. ts ++ page_task query n resp (r.next_req_id + drawn) ∷ []) idle) kept)
      | inr last ↦
          rw (advance_last query drawn n resp r last)
            (at_end (settled resp) (Gathered-IsWhole query resp le h last) idle kept')
    ]

set_only : (n : Node) (old resp : Response) → Dict.set ((n, old) ∷ []) n resp ≡ (n, resp) ∷ []
unfolding Dict.set
set_only n old resp = rw ((node_key.same_iff n n).1 refl) refl

pub get_only : (n : Node) (resp : Response) → Dict.get ((n, resp) ∷ []) n ≡ some resp
unfolding Dict.get
get_only n resp = rw ((node_key.same_iff n n).1 refl) refl

set_new : (n : Node) (resp : Response) → Dict.set [] n resp ≡ (n, resp) ∷ []
unfolding Dict.set
set_new n resp = refl

-- Where one task is under way, it is the one that is done.
only_task :
    (t task : Task) (front back : List Task)
    → t ∷ [] ≡ front ++ task ∷ back
    → (task ≡ t) × (front ++ back ≡ [])
only_task t task [] [] e = (cc, refl)
only_task t task [] (b ∷ back) e = cc
only_task t task (f ∷ []) back e = cc
only_task t task (f ∷ g ∷ front) back e = cc

module _ (query : QueryRequest) (n : Node) (le : query.min_id ≤ query.max_id) where
  first_done :
      (r r' : Reading) (req_id drawn : ℕ) (answer : Answer)
      → r.active ≡ []
      → r.accumulated ≡ []
      → Served n (first_task query req_id n) answer
      → finish_initial query drawn answer r ≡ ok r'
      → Fetching query n r'
  unfolding measured timed
  first_done r r' req_id drawn answer idle nothing (same, served) e =
      let (accepted, now) = finish_initial_inv query drawn answer r r' e in
      let before = measured query answer (timed answer r) in
      let resp = fake_response req_id query in
      let entered : (x : Response) → Dict.set before.accumulated n x ≡ (n, x) ∷ [] =
        λ x. ap (λ d. Dict.set d n x) nothing ∙ set_new n x in
      subst (Fetching query n)
        (sym (
          now
          ∙ ap (λ m. advance query drawn m answer.response before) same
          ∙ ap (λ x. advance query drawn n x before) served))
        (advance-Fetching query n drawn resp before le (first-Gathered query req_id le) idle
          (entered resp) (entered (settled resp)))

  page_done :
      (r r' : Reading) (resp : Response) (number drawn : ℕ) (answer : Answer)
      → Gathered query resp
      → resp.max_id < query.max_id
      → r.active ≡ []
      → r.accumulated ≡ (n, resp) ∷ []
      → Served n (page_task query n resp number) answer
      → finish_page query drawn n number answer r ≡ ok r'
      → Fetching query n r'
  unfolding measured timed
  page_done r r' resp number drawn answer h more idle held (same, served) e =
      let (so_far, joined, found, fits, now) = finish_page_inv query drawn n number answer r r' e in
      let before = measured query answer (timed answer r) in
      let it : resp ≡ so_far =
        cc (sym (get_only n resp) ∙ ap (λ d. Dict.get d n) (sym held) ∙ found) in
      let joins : join_page resp (fake_response number (page_query query resp)) ≡ ok joined =
        ap (join_page resp) (sym served) ∙ ap (λ x. join_page x answer.response) it ∙ fits in
      let entered : (x : Response) → Dict.set before.accumulated n x ≡ (n, x) ∷ [] =
        λ x. ap (λ d. Dict.set d n x) held ∙ set_only n resp x in
      subst (Fetching query n) (sym now) (
        advance-Fetching query n drawn joined before le
          (join-Gathered query resp joined number h more joins) idle (entered joined)
          (entered (settled joined)))

  pub step-Fetching :
      (r r' : Reading) → Fetching query n r → Step (Served n) query r r' → Fetching query n r'
  unfolding complete finish
  step-Fetching r r' (at_first req_id act nothing)
        (done front back task drawn answer e served finished) =
      let (it, idle) = only_task (first_task query req_id n) task front back (sym act ∙ e) in
      first_done (record r { active = front ++ back }) r' req_id drawn answer idle nothing
        (subst (λ t. Served n t answer) it served)
        (subst
          (λ t. complete query drawn t (ok answer) (record r { active = front ++ back }) ≡ ok r') it
          finished)
  step-Fetching r r' (at_page resp number h more act held)
        (done front back task drawn answer e served finished) =
      let (it, idle) = only_task (page_task query n resp number) task front back (sym act ∙ e) in
      page_done (record r { active = front ++ back }) r' resp number drawn answer h more idle held
        (subst (λ t. Served n t answer) it served)
        (subst
          (λ t. complete query drawn t (ok answer) (record r { active = front ++ back }) ≡ ok r') it
          finished)
  step-Fetching r r' (at_end resp h act held) (done [] back task drawn answer e served finished) =
      cc
  step-Fetching r r' (at_end resp h act held)
        (done (f ∷ front) back task drawn answer e served finished) =
      cc

  Runs-Fetching :
      (k : ℕ) (r r' : Reading)
      → Fetching query n r
      → Runs (Served n) query k r r'
      → Fetching query n r'
  Runs-Fetching k r r' h (stay _) = h
  Runs-Fetching (suc k) r r' h (go {s = s} step rest) =
      Runs-Fetching k s r' (step-Fetching r s h step) rest

ended :
    (query : QueryRequest) (n : Node) (r : Reading)
    → Fetching query n r
    → r.active ≡ []
    → (resp : Response) × (r.accumulated ≡ (n, resp) ∷ []) × IsWhole query resp
ended query n r (at_first req_id act nothing) idle = cc
ended query n r (at_page resp number h more act held) idle = cc
ended query n r (at_end resp h act held) idle = (resp, held, h)

-- A read of one node starts with one task.
pub begins_alone :
    (router router' : Router) (next_req_id : ℕ) (query : QueryRequest) (n : Node) (begun : Reading)
    → Router.get_nodes_for_read router query ≡ ok (n ∷ [], router')
    → start router next_req_id query ≡ ok (begun, router')
    → (begun.active ≡ first_task query next_req_id n ∷ []) × (begun.accumulated ≡ [])
begins_alone router router' next_req_id query n begun asked began =
    let (nodes, asks, shape) = start_inv router router' next_req_id query begun began in
    let one : nodes ≡ n ∷ [] = ap (λ p. p.0) (ok_injective (sym asks ∙ asked)) in
    (
      ap (λ (x : Reading). x.active) shape ∙ ap (map (first_task query next_req_id)) one,
      ap (λ (x : Reading). x.accumulated) shape,
    )

-- A read that asks one node, of keys that do not run backwards, where the node answers each query as
-- the mock server does, ten records at a time: once nothing is under way any more, the node's answer
-- holds the records of all keys of the query, each once and in order, and is not cut off.
pub mock_read_whole :
    (router router' : Router) (next_req_id : ℕ) (query : QueryRequest) (n : Node)
    (begun r : Reading) (k : ℕ)
    → query.min_id ≤ query.max_id
    → Router.get_nodes_for_read router query ≡ ok (n ∷ [], router')
    → start router next_req_id query ≡ ok (begun, router')
    → Runs (Served n) query k begun r
    → r.active ≡ []
    → (resp : Response) × (r.accumulated ≡ (n, resp) ∷ []) × IsWhole query resp
mock_read_whole router router' next_req_id query n begun r k le asked began runs idle =
    let (task, nothing) = begins_alone router router' next_req_id query n begun asked began in
    ended query n r (Runs-Fetching query n le k begun r (at_first next_req_id task nothing) runs)
      idle
