-- ===== src/Client/BatchQuery/Order.antt =====
-- The responses of a batch stand in the order of the queries, in whatever order they came.
use raft_lsmt.Base.{
  ℕ, zero, suc, ◌<◌, ◌≡◌, ◌≢◌, refl, sym, ap, ◌∙◌, Option, none, some, List, [], ◌∷◌, arith, Any,
  here, there, get_elem?, set, get_elem?-set_self, get_elem?-set_other, get_elem?-lt_length, length,
  length-set, length-replicate, replicate, Option-cases, Bool, ok, bind_ok, ok_injective, inl, inr,
  nat_key, length,
}
use native.Mathlib.Decide.{ℕ_discrete}
use raft_lsmt.Base.Dict
use raft_lsmt.Base.Dict.{Dict}
use raft_lsmt.Client.Wire.Response.{Response}
use raft_lsmt.Client.Wire.Stream.{Arrival}
use raft_lsmt.Client.BatchQuery.{
  index_requests, put_response, order_responses, read_responses, read_ordered,
}
use raft_lsmt.Client.BatchQuery.Numbers.{
  Numbered, ids, IsUnique, index_of_request, request_of_index,
}

-- A response stands where its number does.
abbrev pub IsOrdered : List ℕ → List (Option Response) → Type 0
IsOrdered numbers ordered =
    (i : ℕ) (r : Response)
    → get_elem? ordered i ≡ some (some r)
    → get_elem? numbers i ≡ some r.req_id

module _ (numbered : Numbered) where
  abbrev positions : Dict ℕ ℕ
  positions = index_requests numbered 0 []

  -- A slot that holds a response.
  abbrev Filled : List (Option Response) → ℕ → Type 0
  Filled ordered i = (r : Response) × (get_elem? ordered i ≡ some (some r))

  length-put_response :
      (r : Response) (ordered : List (Option Response))
      → length (put_response positions r ordered) ≡ length ordered
  unfolding put_response
  length-put_response r ordered = elim (Option-cases (Dict.get positions r.req_id)) [
    | inl unknown ↦ rw (unknown, put_response) refl
    | inr (idx, known) ↦ rw (known, put_response) (length-set ordered idx (some r))
  ]

  put_response-IsOrdered :
      (r : Response) (ordered : List (Option Response))
      → IsOrdered (ids numbered) ordered
      → IsOrdered (ids numbered) (put_response positions r ordered)
  unfolding put_response
  put_response-IsOrdered r ordered h i s e = elim (Option-cases (Dict.get positions r.req_id)) [
    | inl unknown ↦ h i s (rw (unknown, put_response) at e)
    | inr (idx, known) ↦
        let e' = rw (known, put_response) at e in
        elim (ℕ_discrete idx i) [
          | no other ↦ h i s (sym (get_elem?-set_other ordered idx i (some r) other) ∙ e')
          | yes same ↦
              let e2 = rw same at e' in
              let size = get_elem?-lt_length (set ordered i (some r)) i (some s) e2 in
              let it : r ≡ s = cc (
                get_elem?-set_self ordered i (some r)
                    (omega (arith, size, length-set ordered i (some r))),
                e2,
              ) in
              ap (get_elem? (ids numbered)) (sym same)
              ∙ index_of_request numbered r.req_id idx known
              ∙ ap (λ (t : Response). some t.req_id) it
        ]
  ]

  order_responses-IsOrdered :
      (responses : List Response) (ordered : List (Option Response))
      → IsOrdered (ids numbered) ordered
      → IsOrdered (ids numbered) (order_responses positions responses ordered)
  unfolding order_responses
  order_responses-IsOrdered [] ordered h = h
  order_responses-IsOrdered (r ∷ responses) ordered h =
      order_responses-IsOrdered responses (put_response positions r ordered)
        (put_response-IsOrdered r ordered h)

  length-order_responses :
      (responses : List Response) (ordered : List (Option Response))
      → length (order_responses positions responses ordered) ≡ length ordered
  unfolding order_responses
  length-order_responses [] ordered = refl
  length-order_responses (r ∷ responses) ordered =
      length-order_responses responses (put_response positions r ordered)
      ∙ length-put_response r ordered

  put_response-Filled :
      (r : Response) (ordered : List (Option Response)) (i : ℕ)
      → Filled ordered i
      → Filled (put_response positions r ordered) i
  unfolding put_response
  put_response-Filled r ordered i (s, e) = elim (Option-cases (Dict.get positions r.req_id)) [
    | inl unknown ↦ (s, rw (unknown, put_response) e)
    | inr (idx, known) ↦ elim (ℕ_discrete idx i) [
      | no other ↦
          (s, rw (known, put_response) (get_elem?-set_other ordered idx i (some r) other ∙ e))
      | yes same ↦ (
        r,
        rw (known, put_response, same)
            (get_elem?-set_self ordered i (some r) (get_elem?-lt_length ordered i (some s) e)),
      )
    ]
  ]

  put_response_fills :
      (r : Response) (ordered : List (Option Response)) (i : ℕ)
      → Dict.get positions r.req_id ≡ some i
      → i < length ordered
      → Filled (put_response positions r ordered) i
  unfolding put_response
  put_response_fills r ordered i known room =
      (r, rw (known, put_response) (get_elem?-set_self ordered i (some r) room))

  order_responses-Filled :
      (responses : List Response) (ordered : List (Option Response)) (i : ℕ)
      → Filled ordered i
      → Filled (order_responses positions responses ordered) i
  unfolding order_responses
  order_responses-Filled [] ordered i h = h
  order_responses-Filled (r ∷ responses) ordered i h =
      order_responses-Filled responses (put_response positions r ordered) i
        (put_response-Filled r ordered i h)

  order_responses_fills :
      (responses : List Response) (ordered : List (Option Response)) (i id : ℕ)
      → Dict.get positions id ≡ some i
      → i < length ordered
      → Any (λ r. r.req_id ≡ id) responses
      → Filled (order_responses positions responses ordered) i
  unfolding order_responses
  order_responses_fills [] ordered i id known room m = elim m [ ]
  order_responses_fills (r ∷ responses) ordered i id known room (here e) =
      order_responses-Filled responses (put_response positions r ordered) i
        (put_response_fills r ordered i (ap (Dict.get positions) e ∙ known) room)
  order_responses_fills (r ∷ responses) ordered i id known room (there m) =
      order_responses_fills responses (put_response positions r ordered) i id known
        (omega (arith, length-put_response r ordered)) m

replicate_empty : (n i : ℕ) (r : Response) → get_elem? (replicate n none) i ≢ some (some r)
replicate_empty zero i r e = cc
replicate_empty (suc n) zero r e = cc
replicate_empty (suc n) (suc i) r e = replicate_empty n i r e

length-ids : (numbered : Numbered) → length (ids numbered) ≡ length numbered
length-ids [] = refl
length-ids ((id, query) ∷ rest) = ap suc (length-ids rest)

pub read_ordered-IsOrdered :
    (numbered : Numbered) (skip_records : Bool) (arrivals : List Arrival)
    (ordered : List (Option Response))
    → read_ordered numbered skip_records arrivals ≡ ok ordered
    → IsOrdered (ids numbered) ordered × (length ordered ≡ length numbered)
unfolding read_ordered
read_ordered-IsOrdered numbered skip_records arrivals ordered e =
    let (responses, e1, e2) =
      bind_ok
        (read_responses (length numbered) (index_requests numbered 0 []) skip_records arrivals) _
        e in
    rw (sym (ok_injective e2)) (
      order_responses-IsOrdered numbered responses (replicate (length numbered) none)
          (λ i r f. absurd (replicate_empty (length numbered) i r f)),
      length-order_responses numbered responses (replicate (length numbered) none)
          ∙ length-replicate (length numbered) none,
    )

-- Where no number is used twice, every query whose number is among the responses has one in its
-- place.
pub answered_in_place :
    (numbered : Numbered) (responses : List Response) (i id : ℕ)
    → IsUnique (ids numbered)
    → get_elem? (ids numbered) i ≡ some id
    → Any (λ r. r.req_id ≡ id) responses
    → let ordered =
        order_responses
          (index_requests numbered 0 [])
          responses
          (replicate (length numbered) none) in
      (r : Response) × (get_elem? ordered i ≡ some (some r)) × (r.req_id ≡ id)
answered_in_place numbered responses i id unique at m =
    let start : List (Option Response) = replicate (length numbered) none in
    let size : length start ≡ length numbered = length-replicate (length numbered) none in
    let room : i < length start =
      omega (arith, get_elem?-lt_length (ids numbered) i id at, length-ids numbered, size) in
    let (r, e) =
      order_responses_fills numbered responses start i id (request_of_index numbered i id unique at)
        room m in
    let at_r =
      order_responses-IsOrdered numbered responses start
        (λ j s f. absurd (replicate_empty (length numbered) j s f)) i r e in
    (r, e, cc (at, at_r))
