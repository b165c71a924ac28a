-- ===== src/Mock/ReadHandler/Gather.antt =====
-- The answers of the mock server, joined page by page as the client joins them.
use raft_lsmt.Base.{
  ℕ, zero, suc, ◌+◌, ◌-◌, ◌*◌, ◌<◌, ◌≤◌, ◌≡◌, inl, inr, refl, sym, ap, subst, ◌∙◌, ◌∷◌, ◌++◌, arith,
  ok, ok_injective, ltb, true, false, Bool-cases, nat_key, ◌&&◌,
}
use native.Mathlib.Decide.{dec_lt}
use native.Mathlib.Nat.{zero-add, suc-add}
use raft_lsmt.Client.Datatypes.{node_key, Record, int, QueryRequest}
use raft_lsmt.Client.Wire.Response.{Response}
use raft_lsmt.Client.Pages.{join_page, has_more, page_query, settled}
use raft_lsmt.Mock.ReadHandler.{fake_count, actual_max_id}
use raft_lsmt.Mock.ReadHandler.Answers.{fake_records, fake_response}

fake_records-append :
    (key a b : ℕ) → fake_records key a ++ fake_records (key + a) b ≡ fake_records key (a + b)
fake_records-append key zero b =
    let same : key + 0 ≡ key = omega arith in
    ap (λ k. fake_records k b) same ∙ ap (fake_records key) (sym (zero-add b))
fake_records-append key (suc a) b =
    let same : key + suc a ≡ suc key + a = omega arith in
    let one : Record = record { key_id = key; timestamp = 0; content = int (key * 10) } in
    ap (λ k. fake_records key (suc a) ++ fake_records k b) same
    ∙ ap (◌∷◌ one) (fake_records-append (suc key) a b)
    ∙ ap (fake_records key) (sym (suc-add a b))

-- The first records of the query, one at least.
pub record Gathered (query : QueryRequest) (resp : Response) : Type 0 where
  count : ℕ
  some_record : 1 ≤ count
  records : resp.records ≡ fake_records query.min_id count
  last : resp.max_id ≡ query.min_id + (count - 1)
  inside : resp.max_id ≤ query.max_id
  cut : resp.limit_reached ≡ ltb resp.max_id query.max_id

pub first-Gathered :
    (query : QueryRequest) (req_id : ℕ)
    → query.min_id ≤ query.max_id
    → Gathered query (fake_response req_id query)
unfolding fake_count actual_max_id
first-Gathered query req_id h = record {
  count = fake_count query.min_id query.max_id;
  some_record = omega arith;
  records = refl;
  last = refl;
  inside = omega arith;
  cut = refl;
}

pub join-Gathered :
    (query : QueryRequest) (so_far joined : Response) (number : ℕ)
    → Gathered query so_far
    → so_far.max_id < query.max_id
    → join_page so_far (fake_response number (page_query query so_far)) ≡ ok joined
    → Gathered query joined
unfolding join_page fake_count actual_max_id page_query
join-Gathered query so_far joined number h more e =
    let reply = fake_response number (page_query query so_far) in
    elim (Bool-cases (reply.limit_reached && ltb reply.max_id so_far.max_id)) [
      | inl back ↦ cc (rw back at e)
      | inr on ↦ subst (Gathered query) (ok_injective (rw on at e)) (record {
        count = h.count + fake_count (so_far.max_id + 1) query.max_id;
        some_record = omega (arith, h.some_record);
        records =
            let next : so_far.max_id + 1 ≡ query.min_id + h.count =
              omega (arith, h.last, h.some_record) in
            ap (λ rs. rs ++ reply.records) h.records
            ∙ ap
                (λ k.
                  fake_records query.min_id h.count
                  ++ fake_records k (fake_count (so_far.max_id + 1) query.max_id))
                next
            ∙ fake_records-append query.min_id h.count
                (fake_count (so_far.max_id + 1) query.max_id);
        last = omega (arith, h.last, h.some_record);
        inside = omega arith;
        cut = refl;
      })
    ]

-- All records of the query, and the answer is not cut off.
abbrev pub IsWhole : QueryRequest → Response → Type 0
IsWhole query resp =
    (resp.records ≡ fake_records query.min_id (query.max_id + 1 - query.min_id))
    × (resp.limit_reached ≡ false)

pub Gathered-IsWhole :
    (query : QueryRequest) (resp : Response)
    → query.min_id ≤ query.max_id
    → Gathered query resp
    → has_more query resp ≡ false
    → IsWhole query (settled resp)
unfolding has_more settled
Gathered-IsWhole query resp le h ended = elim (dec_lt resp.max_id query.max_id) [
  | yes more ↦
      let test : ltb resp.max_id query.max_id ≡ true = ground arith in
      cc (rw (h.cut, test) at ended)
  | no last ↦
      let all : h.count ≡ query.max_id + 1 - query.min_id =
        omega (arith, h.last, h.inside, h.some_record) in
      (h.records ∙ ap (fake_records query.min_id) all, refl)
]

pub has_more_lt :
    (query : QueryRequest) (resp : Response)
    → has_more query resp ≡ true
    → resp.max_id < query.max_id
unfolding has_more
has_more_lt query resp h = ground arith
