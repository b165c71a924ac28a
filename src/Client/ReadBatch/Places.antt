-- ===== src/Client/ReadBatch/Places.antt =====
-- What is held of a node once its batch is done.
use raft_lsmt.Base.{
  ℕ, suc, ◌≡◌, refl, ap, subst, ◌∙◌, Option, none, some, List, [], ◌∷◌, ok, bind_ok, ok_injective,
  true, false, ◌==◌, Bool-cases, inl, inr, length, length-set, set,
}
use raft_lsmt.Base.Dict
use raft_lsmt.Base.Dict.{Dict}
use raft_lsmt.Base.Lanes.{lane, lane_held}
use raft_lsmt.Client.Datatypes.{Node, node_key, QueryRequest}
use raft_lsmt.Client.Wire.Response.{Response}
use raft_lsmt.Client.Pages.{accept_initial, has_more, settled}
use raft_lsmt.Client.ReadBatch.{
  QueryPair, BatchAnswer, BatchReading, batch_timed, charged, put_at, follow_up, finish_entries,
  finish_batch, responses_of,
}

-- `after` holds a list of `count` places for `n`, and for the other nodes what `before` holds.
abbrev pub HoldsOnly : Node → ℕ → (before after : Dict Node (List (Option Response))) → Type 0
HoldsOnly n count before after =
    ((held : List (Option Response)) × (Dict.get after n ≡ some held) × (length held ≡ count))
    × ((m : Node) → (n == m) ≡ false → Dict.get after m ≡ Dict.get before m)

same_node : (n : Node) → (n == n) ≡ true
same_node n = (node_key.same_iff n n).1 refl

put_at-HoldsOnly :
    (n : Node) (count idx : ℕ) (response : Response)
    (before after : Dict Node (List (Option Response)))
    → HoldsOnly n count before after
    → HoldsOnly n count before (put_at after n idx response)
put_at-HoldsOnly n count idx response before after ((held, found, size), others) =
    let new = set (lane after n) idx (some response) in
    (
      (
        new,
        Dict.get-set after n n new ∙ rw (same_node n) refl,
        length-set (lane after n) idx (some response)
            ∙ ap length (lane_held after n held found)
            ∙ size,
      ),
      λ m other. Dict.get-set after n m new ∙ rw other (others m other),
    )

follow_up-HoldsOnly :
    (query : QueryRequest) (drawn : ℕ) (n : Node) (idx orig : ℕ) (response : Response) (count : ℕ)
    (before : Dict Node (List (Option Response))) (r : BatchReading)
    → HoldsOnly n count before r.accumulated
    → HoldsOnly n count before (follow_up query drawn n idx orig response r).accumulated
unfolding follow_up
follow_up-HoldsOnly query drawn n idx orig response count before r h =
    elim (Bool-cases (has_more query response)) [
      | inl more ↦ rw more (put_at-HoldsOnly n count idx response before r.accumulated h)
      | inr last ↦ rw last (put_at-HoldsOnly n count idx (settled response) before r.accumulated h)
    ]

finish_entries-HoldsOnly :
    (drawn : ℕ → ℕ) (answer : BatchAnswer) (i : ℕ) (entries : List (Option (Response × ℕ)))
    (pairs : List QueryPair) (count : ℕ) (before : Dict Node (List (Option Response)))
    (r r' : BatchReading)
    → HoldsOnly answer.node count before r.accumulated
    → finish_entries drawn answer i entries pairs r ≡ ok r'
    → HoldsOnly answer.node count before r'.accumulated
unfolding finish_entries charged
finish_entries-HoldsOnly drawn answer i [] pairs count before r r' h e =
    subst (λ (x : BatchReading). HoldsOnly answer.node count before x.accumulated) (ok_injective e)
      h
finish_entries-HoldsOnly drawn answer i (entry ∷ entries) [] count before r r' h e = cc
finish_entries-HoldsOnly drawn answer i (none ∷ entries) (pair ∷ pairs) count before r r' h e = cc
finish_entries-HoldsOnly drawn answer i (some (response, recv_ts) ∷ entries) ((orig, query) ∷ pairs)
      count before r r' h e =
    let (u, accepted, e') = bind_ok (accept_initial query response) _ e in
    finish_entries-HoldsOnly drawn answer (suc i) entries pairs count before _ r'
      (follow_up-HoldsOnly query (drawn i) answer.node i orig response count before _ h) e'

length-responses_of :
    (entries : List (Option (Response × ℕ))) → length (responses_of entries) ≡ length entries
length-responses_of [] = refl
length-responses_of (none ∷ entries) = ap suc (length-responses_of entries)
length-responses_of (some entry ∷ entries) = ap suc (length-responses_of entries)

-- Once a batch is done, what is held of the node that answered is one place for each response of
-- this batch, whatever was held of it before: the answers of an earlier batch that the same node
-- gave in place of another are gone. The other nodes keep theirs.
pub finish_batch_replaces :
    (drawn : ℕ → ℕ) (pairs : List QueryPair) (answer : BatchAnswer) (r r' : BatchReading)
    → finish_batch drawn pairs answer r ≡ ok r'
    → HoldsOnly answer.node (length answer.responses) r.accumulated r'.accumulated
unfolding finish_batch batch_timed
finish_batch_replaces drawn pairs answer r r' e =
    let n = answer.node in
    let new = responses_of answer.responses in
    finish_entries-HoldsOnly drawn answer 0 answer.responses pairs (length answer.responses)
      r.accumulated _ r'
      (
        (
          new,
          Dict.get-set r.accumulated n n new ∙ rw (same_node n) refl,
          length-responses_of answer.responses,
        ),
        λ m other. Dict.get-set r.accumulated n m new ∙ rw other refl,
      )
      e
