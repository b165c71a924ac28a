-- ===== src/Bench/ReadBench/Batches.antt =====
-- The batches that the read benchmark asks are the stream, cut up.
use raft_lsmt.Base.{
  ℕ, ◌+◌, ◌≤◌, ◌<◌, ◌≡◌, ◌⊎◌, refl, sym, ap, subst, ◌∙◌, List, [], ◌∷◌, ◌++◌, append_assoc,
  append-nil, arith, length, length-append, concat, All, All-append, max, leb, ltb, ok, bind_ok,
  ok_injective, Bool-cases, inl, inr,
}
use raft_lsmt.Client.Datatypes.{QueryRequest}
use raft_lsmt.Client.Routing.Router.{Router}
use raft_lsmt.Client.ReadBatch.{read_batch}
use raft_lsmt.Bench.Streams.{Yielded}
use raft_lsmt.Bench.ReadBench.{
  ReadBench, ask_buffer, hold_back, take_query, receive_query, receive_queries, ask_some,
  begin_asking, run_read_bench,
}

concat-append_last :
    (xss : List (List QueryRequest)) (xs ys : List QueryRequest)
    → concat (xss ++ xs ∷ []) ++ ys ≡ concat xss ++ (xs ++ ys)
concat-append_last [] xs ys = append_assoc xs [] ys
concat-append_last (zs ∷ xss) xs ys =
    append_assoc zs (concat (xss ++ xs ∷ [])) ys
    ∙ ap (◌++◌ zs) (concat-append_last xss xs ys)
    ∙ sym (append_assoc zs (concat xss) (xs ++ ys))

-- Not empty, and not above the batch size; a size of 0 is one of 1.
abbrev pub IsBatch : ℕ → List QueryRequest → Type 0
IsBatch size b = (0 < length b) × (length b ≤ max 1 size)

-- What was asked, what waits and what is still to come are the stream; less than a batch waits.
abbrev Cuts : ℕ → List QueryRequest → ReadBench → List QueryRequest → Type 0
Cuts size stream b later =
    (concat b.sent ++ (b.batch_buffer ++ later) ≡ stream)
    × (length b.batch_buffer < max 1 size)
    × All (IsBatch size) b.sent

ask_buffer-Cuts :
    (gaps : ℕ → ℕ) (size : ℕ) (stream : List QueryRequest) (b b' : ReadBench)
    (later : List QueryRequest)
    → concat b.sent ++ (b.batch_buffer ++ later) ≡ stream
    → IsBatch size b.batch_buffer
    → All (IsBatch size) b.sent
    → ask_buffer gaps b ≡ ok b'
    → Cuts size stream b' later × (b'.batch_buffer ≡ [])
unfolding ask_buffer
ask_buffer-Cuts gaps size stream b b' later whole sized all e =
    let (started, asked, e') =
      bind_ok (read_batch gaps b.router b.next_req_id b.batch_buffer) _ e in
    subst (λ x. Cuts size stream x later × (x.batch_buffer ≡ [])) (ok_injective e')
      (
        (
          concat-append_last b.sent b.batch_buffer later ∙ whole,
          omega arith,
          All-append (IsBatch size) b.sent (b.batch_buffer ∷ []) all (sized, tt),
        ),
        refl,
      )

receive_query-Cuts :
    (gaps : ℕ → ℕ) (not_done : List (List QueryRequest) → List (List QueryRequest)) (size : ℕ)
    (query : QueryRequest) (stream : List QueryRequest) (b b' : ReadBench)
    (later : List QueryRequest)
    → Cuts size stream b (query ∷ later)
    → receive_query gaps not_done size query b ≡ ok b'
    → Cuts size stream b' later
unfolding receive_query hold_back
receive_query-Cuts gaps not_done size query stream b b' later (whole, short, all) e =
    let taken = take_query query b in
    let whole' =
      ap (◌++◌ (concat b.sent)) (append_assoc b.batch_buffer (query ∷ []) later) ∙ whole in
    let longer = length-append b.batch_buffer (query ∷ []) in
    elim (Bool-cases (leb size (length taken.batch_buffer))) [
      | inl full ↦
          let (asked, e1, e2) = bind_ok (ask_buffer gaps taken) _ (rw full at e) in
          let (cut, empty) =
            ask_buffer-Cuts gaps size stream taken asked later whole'
              (omega (arith, longer), omega (arith, longer, short)) all e1 in
          subst (λ x. Cuts size stream x later) (ok_injective e2)
            (elim (Bool-cases (ltb 512 (length asked.futures))) [
              | inl many ↦ rw many cut
              | inr few ↦ rw few cut
            ])
      | inr room ↦
          subst (λ x. Cuts size stream x later) (ok_injective (rw room at e))
            (whole', ground (arith, longer), all)
    ]

receive_queries-Cuts :
    (gaps : ℕ → ℕ) (not_done : List (List QueryRequest) → List (List QueryRequest)) (size : ℕ)
    (queries stream : List QueryRequest) (b b' : ReadBench)
    → Cuts size stream b queries
    → receive_queries gaps not_done size queries b ≡ ok b'
    → Cuts size stream b' []
unfolding receive_queries
receive_queries-Cuts gaps not_done size [] stream b b' cut e =
    subst (λ x. Cuts size stream x []) (ok_injective e) cut
receive_queries-Cuts gaps not_done size (query ∷ queries) stream b b' cut e =
    let (next, e1, e2) = bind_ok (receive_query gaps not_done size query b) _ e in
    receive_queries-Cuts gaps not_done size queries stream next b'
      (receive_query-Cuts gaps not_done size query stream b next queries cut e1) e2

List-cases :
    (xs : List QueryRequest)
    → (xs ≡ []) ⊎ ((x : QueryRequest) × (rest : List QueryRequest) × (xs ≡ x ∷ rest))
List-cases [] = inl refl
List-cases (x ∷ rest) = inr (x, rest, refl)

ask_some-Cuts :
    (gaps : ℕ → ℕ) (size : ℕ) (stream : List QueryRequest) (b b' : ReadBench)
    → Cuts size stream b []
    → ask_some gaps b.batch_buffer b ≡ ok b'
    → Cuts size stream b' [] × (b'.batch_buffer ≡ [])
unfolding ask_some
ask_some-Cuts gaps size stream b b' (whole, short, all) e = elim (List-cases b.batch_buffer) [
  | inl nothing ↦
      subst (λ x. Cuts size stream x [] × (x.batch_buffer ≡ []))
        (ok_injective (sym (ap (λ xs. ask_some gaps xs b) nothing) ∙ e))
        ((whole, short, all), nothing)
  | inr (x, rest, some_left) ↦
      let asked : ask_buffer gaps b ≡ ok b' = sym (ap (λ xs. ask_some gaps xs b) some_left) ∙ e in
      let left : length b.batch_buffer ≡ 1 + length rest = ap length some_left ∙ omega arith in
      ask_buffer-Cuts gaps size stream b b' [] whole (omega (arith, left), omega (arith, short)) all
        asked
]

-- Where the read benchmark comes to its end, the batches that it asked are, one after the other,
-- exactly the queries of the stream; no batch is empty, and none is above the batch size, where a
-- size of 0 counts as 1.
pub read_bench_asks :
    (gaps : ℕ → ℕ) (not_done : List (List QueryRequest) → List (List QueryRequest)) (batch_size : ℕ)
    (stream : Yielded QueryRequest) (router : Router) (next_req_id : ℕ) (b : ReadBench)
    → run_read_bench gaps not_done batch_size stream router next_req_id ≡ ok b
    → (concat b.sent ≡ stream.0) × All (IsBatch batch_size) b.sent
unfolding run_read_bench
read_bench_asks gaps not_done batch_size stream router next_req_id b e =
    let begun = begin_asking router next_req_id in
    let (received, e1, f1) =
      bind_ok (receive_queries gaps not_done batch_size stream.0 begun) _ e in
    let (ended, e2, f2) = bind_ok stream.1 _ f1 in
    let cut =
      receive_queries-Cuts gaps not_done batch_size stream.0 stream.0 begun received
        (refl, omega arith, tt) e1 in
    let ((whole, short, all), empty) = ask_some-Cuts gaps batch_size stream.0 received b cut f2 in
    (
      sym (append-nil (concat b.sent))
          ∙ ap (λ (t : List QueryRequest). concat b.sent ++ (t ++ [])) (sym empty)
          ∙ whole,
      all,
    )
