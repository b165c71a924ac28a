-- ===== src/Client/BatchQuery/Whole.antt =====
-- The whole of a batch of queries.
use raft_lsmt.Base.{
  ℕ, zero, suc, ◌≡◌, ◌≢◌, refl, sym, ap, subst, ◌∙◌, String, Option, some, List, [], ◌∷◌, ◌++◌,
  Bool, get_elem?, length, Outcome-cases, ok, raise, bind_ok, ok_injective, inl, inr, Exception,
  string_key,
}
use raft_lsmt.Base.Dict
use raft_lsmt.Base.Dict.{Dict}
use raft_lsmt.Client.Datatypes.{Node, QueryRequest}
use raft_lsmt.Client.Registry.{LeaderRegistry, get_leader}
use raft_lsmt.Client.Wire.Request.{pack_request}
use raft_lsmt.Client.Wire.Response.{Response}
use raft_lsmt.Client.Send.{Connection, refused, unsent, replies}
use raft_lsmt.Client.Query.{preferred_nodes}
use raft_lsmt.Client.BatchQuery.{
  next_number, packed_request, build_payload, read_ordered, exchange_batch, ask_batch,
  query_batch_single_node,
}
use raft_lsmt.Client.BatchQuery.Numbers.{Numbered, ids}
use raft_lsmt.Client.BatchQuery.Order.{read_ordered-IsOrdered}

ok-raise {ℓ} : {A : Type ℓ} {v : A} {x : Exception} → ok v ≢ raise x
ok-raise e = cc

-- The numbers that are used are the numbers given, in order, one for each query.
abbrev UsesNumbers : List ℕ → List QueryRequest → Numbered → Type 0
UsesNumbers given queries numbered =
    ((i id : ℕ) → get_elem? (ids numbered) i ≡ some id → get_elem? given i ≡ some id)
    × (length numbered ≡ length queries)

UsesNumbers-cons :
    (id : ℕ) (given : List ℕ) (query : QueryRequest) (queries : List QueryRequest) (rest : Numbered)
    → UsesNumbers given queries rest
    → UsesNumbers (id ∷ given) (query ∷ queries) ((id, query) ∷ rest)
UsesNumbers-cons id given query queries rest h = (at, ap suc h.1)
  where
    at : (i n : ℕ) → get_elem? (id ∷ ids rest) i ≡ some n → get_elem? (id ∷ given) i ≡ some n
    at zero n e = e
    at (suc i) n e = h.0 i n e

packed_number :
    (id : ℕ) (query : QueryRequest) (r : ℕ × List ℕ)
    → packed_request (ok id) query ≡ ok r
    → r.0 ≡ id
unfolding packed_request
packed_number id query r e =
    let (bytes, e1, e2) = bind_ok (pack_request id query) _ e in
    sym (ap (λ p. p.0) (ok_injective e2))

build_payload-UsesNumbers :
    (given : List ℕ) (queries : List QueryRequest) (counter : ℕ) (numbered : Numbered)
    (payload : List ℕ)
    → (build_payload (some given) queries counter).0 ≡ ok (numbered, payload)
    → UsesNumbers given queries numbered
unfolding build_payload next_number
build_payload-UsesNumbers given [] counter numbered payload e =
    let none_used : [] ≡ numbered = ap (λ p. p.0) (ok_injective e) in
    rw (sym none_used) ((λ i id f. cc), refl)
build_payload-UsesNumbers [] (query ∷ queries) counter numbered payload e =
    unfold packed_request in absurd (ok-raise (sym e))
build_payload-UsesNumbers (id ∷ given) (query ∷ queries) counter numbered payload e =
    elim (Outcome-cases (packed_request (ok id) query)) [
      | inr (x, miss) ↦ absurd (ok-raise (sym (rw (miss, build_payload) at e)))
      | inl ((n, req_data), hit) ↦
          let (built, e1, e2) =
            bind_ok (build_payload (some given) queries counter).0
              (λ built. ok ((n, query) ∷ built.0, req_data ++ built.1))
              (rw (hit, build_payload) at e) in
          let it : n ≡ id = packed_number id query (n, req_data) hit in
          let rest = build_payload-UsesNumbers given queries counter built.0 built.1 e1 in
          subst (UsesNumbers (id ∷ given) (query ∷ queries))
            (ap (λ (t : ℕ). (t, query) ∷ built.0) (sym it) ∙ ap (λ p. p.0) (ok_injective e2))
            (UsesNumbers-cons id given query queries built.0 rest)
    ]

-- The responses stand at the numbers given, one place for each query.
abbrev pub Answers : List ℕ → List QueryRequest → List (Option Response) → Type 0
Answers given queries ordered =
    ((i : ℕ) (r : Response)
      → get_elem? ordered i ≡ some (some r)
      → get_elem? given i ≡ some r.req_id)
    × (length ordered ≡ length queries)

exchange_batch-Answers :
    (given : List ℕ) (queries : List QueryRequest) (skip_records : Bool) (counter : ℕ)
    (c : Connection) (ordered : List (Option Response))
    → (exchange_batch (some given) queries skip_records counter c).0 ≡ ok ordered
    → Answers given queries ordered
unfolding exchange_batch
exchange_batch-Answers given queries skip_records counter (refused x) ordered e =
    absurd (ok-raise (sym e))
exchange_batch-Answers given queries skip_records counter (unsent x) ordered e =
    let (requests, e1, e2) =
      bind_ok (build_payload (some given) queries counter).0 (λ requests. raise x) e in
    absurd (ok-raise (sym e2))
exchange_batch-Answers given queries skip_records counter (replies arrivals) ordered e =
    let ((numbered, payload), e1, e2) =
      bind_ok (build_payload (some given) queries counter).0
        (λ requests. read_ordered requests.0 skip_records arrivals) e in
    let used = build_payload-UsesNumbers given queries counter numbered payload e1 in
    let placed = read_ordered-IsOrdered numbered skip_records arrivals ordered e2 in
    ((λ i r f. used.0 i r.req_id (placed.0 i r f)), placed.1 ∙ used.1)

module _ (connection : Node → Connection) (queries : List QueryRequest) (skip_records : Bool)
    (given : List ℕ) where
  ask_batch-Answers :
      (ns : List Node) (counter : ℕ) (n : Node) (ordered : List (Option Response))
      → (ask_batch connection queries skip_records (some given) ns counter).0 ≡ ok (n, ordered)
      → Answers given queries ordered
  unfolding ask_batch
  ask_batch-Answers [] counter n ordered e = absurd (ok-raise (sym e))
  ask_batch-Answers (m ∷ ns) counter n ordered e =
      let answered = exchange_batch (some given) queries skip_records counter (connection m) in
      elim (Outcome-cases answered.0) [
        | inl (got, hit) ↦
            exchange_batch-Answers given queries skip_records counter (connection m) ordered
              (hit ∙ ap ok (ap (λ p. p.1) (ok_injective (rw (hit, ask_batch) at e))))
        | inr (x, miss) ↦ ask_batch-Answers ns answered.1 n ordered (rw (miss, ask_batch) at e)
      ]

-- Where a batch of queries returns, it returns one place for each query, and a response that stands
-- in a place carries the number of the query there, in whatever order the node answered.
pub batch_in_order :
    (connection : Node → Connection) (clusters : Dict String (List Node))
    (registry : LeaderRegistry) (target : Node) (queries : List QueryRequest) (skip_records : Bool)
    (given : List ℕ) (counter : ℕ) (n : Node) (ordered : List (Option Response)) (i : ℕ)
    (r : Response)
    → (query_batch_single_node connection clusters registry target queries skip_records
        (some given)
        counter).0
      ≡ ok (n, ordered)
    → get_elem? ordered i ≡ some (some r)
    → (get_elem? given i ≡ some r.req_id) × (length ordered ≡ length queries)
unfolding query_batch_single_node
batch_in_order connection clusters registry target queries skip_records given counter n ordered i r
      e at =
    let nodes = Dict.get_default clusters target.cluster_name [] in
    let leader = get_leader registry target.cluster_name in
    let h =
      ask_batch-Answers connection queries skip_records given (preferred_nodes target leader nodes)
        counter n ordered e in
    (h.0 i r at, h.1)
