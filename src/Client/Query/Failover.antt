-- ===== src/Client/Query/Failover.antt =====
-- A query fails over from node to node of the cluster.
use raft_lsmt.Base.{
  ℕ, ◌-◌, ◌≡◌, ◌≢◌, ◌⊎◌, inl, inr, refl, sym, ap, subst, ◌∙◌, Bool, String, Option, some, List, [],
  ◌∷◌, ◌++◌, ◌==◌, nat_key, Bool-cases, here, there, Member, Any-append_left, Any-append_right,
  Outcome-cases, ok, raise, bind_ok, ok_injective, string_key, Exception,
}
use raft_lsmt.Base.Dict
use raft_lsmt.Base.Dict.{Dict}
use raft_lsmt.Client.Datatypes.{Node, node_key, QueryRequest}
use raft_lsmt.Client.Registry.{LeaderRegistry, get_leader}
use raft_lsmt.Client.Routing.Select.{is_leader, followers}
use raft_lsmt.Client.Wire.Request.{pack_request}
use raft_lsmt.Client.Wire.Response.{Response, parse_response, unpack_header, query_resp_header_size}
use raft_lsmt.Client.Wire.Stream.{Arrival, recv_exact}
use raft_lsmt.Client.Send.{Connection, refused, unsent, replies}
use raft_lsmt.Client.Query.{
  leaders, contains, remove, move_to_front, preferred_nodes, exchange, request_number, ask,
  read_answer, read_body, query_single_node,
}

-- Every node is among the followers or among the leaders.
split-Member :
    (leader : Option Node) (nodes : List Node) (m : Node)
    → Member m nodes
    → Member m (followers leader nodes) ⊎ Member m (leaders leader nodes)
unfolding followers leaders
split-Member leader [] m h = elim h [ ]
split-Member leader (n ∷ ns) m (here e) = elim (Bool-cases (is_leader leader n)) [
  | inl lead ↦ rw lead (inr (here e))
  | inr follow ↦ rw follow (inl (here e))
]
split-Member leader (n ∷ ns) m (there h) = elim (Bool-cases (is_leader leader n)) [
  | inl lead ↦ rw lead (elim (split-Member leader ns m h) [ inl a ↦ inl a | inr b ↦ inr (there b) ])
  | inr follow ↦
      rw follow (elim (split-Member leader ns m h) [ inl a ↦ inl (there a) | inr b ↦ inr b ])
]

remove-Member :
    (target : Node) (ns : List Node) (m : Node) → Member m ns → Member m (target ∷ remove target ns)
unfolding remove
remove-Member target [] m h = elim h [ ]
remove-Member target (n ∷ ns) m (here e) = elim (Bool-cases (n == target)) [
  | inl same ↦ here (sym ((node_key.same_iff n target).0 same) ∙ e)
  | inr other ↦ rw other (there (here e))
]
remove-Member target (n ∷ ns) m (there h) = elim (Bool-cases (n == target)) [
  | inl same ↦ rw same (there h)
  | inr other ↦
      rw other (elim (remove-Member target ns m h) [ here e ↦ here e | there g ↦ there (there g) ])
]

-- No node is left out.
preferred_nodes-Member :
    (target : Node) (leader : Option Node) (nodes : List Node) (m : Node)
    → Member m nodes
    → Member m (preferred_nodes target leader nodes)
unfolding preferred_nodes move_to_front
preferred_nodes-Member target leader nodes m h =
    let both : Member m (followers leader nodes ++ leaders leader nodes) =
      elim (split-Member leader nodes m h) [
        | inl a ↦ Any-append_left (λ n. n ≡ m) (leaders leader nodes) a
        | inr b ↦ Any-append_right (λ n. n ≡ m) (followers leader nodes) b
      ] in
    elim (Bool-cases (contains target (followers leader nodes ++ leaders leader nodes))) [
      | inl inside ↦
          rw inside (remove-Member target (followers leader nodes ++ leaders leader nodes) m both)
      | inr outside ↦ rw outside both
    ]

ok-raised {ℓ} : {A : Type ℓ} {v : A} {x : Exception} → ok v ≢ raise x
ok-raised e = cc

-- A node answers a request.
abbrev pub Answers : (Node → Connection) → ℕ → QueryRequest → Bool → Node → Type 0
Answers connection id query skip_records n =
    (r : Response) × (exchange id query skip_records (connection n) ≡ ok r)

module _ (connection : Node → Connection) (query : QueryRequest) (skip_records : Bool)
    (id : ℕ) where
  ask-Answers :
      (ns : List Node) (counter : ℕ) (m : Node)
      → Member m ns
      → Answers connection id query skip_records m
      → (got : Node × Response) × ((ask connection query skip_records (some id) ns counter).0
          ≡ ok got)
  unfolding ask request_number
  ask-Answers [] counter m h answers = elim h [ ]
  ask-Answers (n ∷ ns) counter m h answers =
      elim (Outcome-cases (exchange id query skip_records (connection n))) [
        | inl (r, hit) ↦ ((n, r), rw (hit, ask) refl)
        | inr (x, miss) ↦ elim h [
          | here e ↦
              let hit = subst (Answers connection id query skip_records) (sym e) answers in
              absurd (ok-raised (sym hit.1 ∙ miss))
          | there g ↦
              let (got, later) = ask-Answers ns counter m g answers in (got, rw (miss, ask) later)
        ]
      ]

  ask-exchange :
      (ns : List Node) (counter : ℕ) (n : Node) (r : Response)
      → (ask connection query skip_records (some id) ns counter).0 ≡ ok (n, r)
      → exchange id query skip_records (connection n) ≡ ok r
  unfolding ask request_number
  ask-exchange [] counter n r e = cc
  ask-exchange (m ∷ ns) counter n r e =
      elim (Outcome-cases (exchange id query skip_records (connection m))) [
        | inl (s, hit) ↦
            let same = ok_injective (rw (hit, ask) at e) in
            ap (λ (t : Node). exchange id query skip_records (connection t))
              (sym (ap (λ p. p.0) same))
            ∙ hit
            ∙ ap ok (ap (λ p. p.1) same)
        | inr (x, miss) ↦ ask-exchange ns counter n r (rw (miss, ask) at e)
      ]

read_answer_number :
    (id : ℕ) (skip_records : Bool) (arrivals : List Arrival) (r : Response)
    → read_answer id skip_records arrivals ≡ ok r
    → r.req_id ≡ id
unfolding read_answer parse_response
read_answer_number id skip_records arrivals r e =
    elim (Outcome-cases (recv_exact query_resp_header_size arrivals).0) [
      | inr (x, miss) ↦ absurd (ok-raised (sym (rw (miss, read_answer) at e)))
      | inl (bytes, hit) ↦ elim (Outcome-cases (unpack_header bytes)) [
        | inr (x, miss) ↦ absurd (ok-raised (sym (rw (hit, miss, read_answer) at e)))
        | inl (header, read) ↦ elim (Bool-cases (header.req_id == id)) [
          | inr other ↦ absurd (ok-raised (sym (rw (hit, read, other, read_answer) at e)))
          | inl same ↦
              let (body, e1, e2) =
                bind_ok
                  (read_body (header.total_size - query_resp_header_size)
                    (recv_exact query_resp_header_size arrivals).1)
                  (λ body. ok (parse_response header body skip_records))
                  (rw (hit, read, same, read_answer) at e) in
              sym (ap (λ (t : Response). t.req_id) (ok_injective e2))
              ∙ (nat_key.same_iff header.req_id id).0 same
        ]
      ]
    ]

exchange_number :
    (id : ℕ) (query : QueryRequest) (skip_records : Bool) (c : Connection) (r : Response)
    → exchange id query skip_records c ≡ ok r
    → r.req_id ≡ id
unfolding exchange
exchange_number id query skip_records (refused x) r e =
    let (req_data, e1, e2) = bind_ok (pack_request id query) (λ req_data. raise x) e in
    absurd (ok-raised (sym e2))
exchange_number id query skip_records (unsent x) r e =
    let (req_data, e1, e2) = bind_ok (pack_request id query) (λ req_data. raise x) e in
    absurd (ok-raised (sym e2))
exchange_number id query skip_records (replies arrivals) r e =
    let (req_data, e1, e2) =
      bind_ok (pack_request id query) (λ req_data. read_answer id skip_records arrivals) e in
    read_answer_number id skip_records arrivals r e2

-- Where one node of the cluster would answer the request, the query returns a response, whichever
-- node was asked for, whoever leads and whatever the other nodes do; it is the answer of the node
-- that is returned with it, and carries the number of the request.
pub query_fails_over :
    (connection : Node → Connection) (clusters : Dict String (List Node))
    (registry : LeaderRegistry) (target : Node) (query : QueryRequest) (skip_records : Bool)
    (id counter : ℕ) (m : Node)
    → Member m (Dict.get_default clusters target.cluster_name [])
    → Answers connection id query skip_records m
    → (got : Node × Response) × ((query_single_node connection clusters registry target query
          skip_records
          (some id)
          counter).0
        ≡ ok got)
      × (exchange id query skip_records (connection got.0) ≡ ok got.1)
      × (got.1.req_id ≡ id)
unfolding query_single_node
query_fails_over connection clusters registry target query skip_records id counter m h answers =
    let nodes = Dict.get_default clusters target.cluster_name [] in
    let leader = get_leader registry target.cluster_name in
    let (got, e) =
      ask-Answers connection query skip_records id (preferred_nodes target leader nodes) counter m
        (preferred_nodes-Member target leader nodes m h) answers in
    let origin =
      ask-exchange connection query skip_records id (preferred_nodes target leader nodes) counter
        got.0 got.1 e in
    (got, e, origin, exchange_number id query skip_records (connection got.0) got.1 origin)
