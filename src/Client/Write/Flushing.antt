-- ===== src/Client/Write/Flushing.antt =====
-- `flush` hands over everything that waits, in order, and leaves nothing.
use raft_lsmt.Base.{
  ◌≡◌, ◌≢◌, refl, sym, ap, ◌∙◌, ◌⊎◌, inl, inr, Option, List, [], ◌∷◌, ◌++◌, option_key, ◌==◌,
  Bool-cases,
}
use raft_lsmt.Base.Dict
use raft_lsmt.Base.Lanes.{items_for, items_for-lane, lane, lane-set, at_key, IsDistinct}
use raft_lsmt.Client.Datatypes.{Node, Record, node_key}
use raft_lsmt.Client.Db.{DbClient, Buffer}
use raft_lsmt.Client.Write.{flush_all, flush}
use raft_lsmt.Client.Write.Group.{items_for-cons}

-- An empty list adds nothing.
items_for-empty :
    (n k : Option Node) (rest : Buffer) → items_for n ((k, []) ∷ rest) ≡ items_for n rest
items_for-empty n k rest =
    items_for-cons n k [] rest
    ∙ elim (Bool-cases (k == n)) [ inl same ↦ rw same | inr other ↦ rw other ]

flush_all_hands_over :
    (buffer items : Buffer) (n : Option Node)
    → items_for n (flush_all buffer items).0 ≡ items_for n items
unfolding flush_all
flush_all_hands_over buffer [] n = refl
flush_all_hands_over buffer ((k, []) ∷ rest) n =
    flush_all_hands_over buffer rest n ∙ sym (items_for-empty n k rest)
flush_all_hands_over buffer ((k, r ∷ recs) ∷ rest) n =
    items_for-cons n k (r ∷ recs) (flush_all (Dict.set buffer k []) rest).0
    ∙ ap (◌++◌ (at_key k n (r ∷ recs))) (flush_all_hands_over (Dict.set buffer k []) rest n)
    ∙ sym (items_for-cons n k (r ∷ recs) rest)

skip_empty :
    (buffer rest : Buffer) (k n : Option Node)
    → (lane buffer n ≡ []) ⊎ (items_for n ((k, []) ∷ rest) ≢ [])
    → (lane buffer n ≡ []) ⊎ (items_for n rest ≢ [])
skip_empty buffer rest k n (inl e) = inl e
skip_empty buffer rest k n (inr h) = inr (λ e. h (items_for-empty n k rest ∙ e))

take_listed :
    (buffer rest : Buffer) (k n : Option Node) (recs : List Record)
    → (lane buffer n ≡ []) ⊎ (items_for n ((k, recs) ∷ rest) ≢ [])
    → (lane (Dict.set buffer k []) n ≡ []) ⊎ (items_for n rest ≢ [])
take_listed buffer rest k n recs h = elim (Bool-cases (k == n)) [
  | inl same ↦ inl (lane-set buffer k n [] ∙ rw same refl)
  | inr other ↦ elim h [
    | inl e ↦ inl (lane-set buffer k n [] ∙ rw other e)
    | inr g ↦ inr (λ e. g (items_for-cons n k recs rest ∙ rw other e))
  ]
]

-- A list that is empty, or whose node is still to come with records, is empty in the end.
flush_all_empties :
    (buffer items : Buffer) (n : Option Node)
    → (lane buffer n ≡ []) ⊎ (items_for n items ≢ [])
    → lane (flush_all buffer items).1 n ≡ []
unfolding flush_all
flush_all_empties buffer [] n (inl e) = e
flush_all_empties buffer [] n (inr h) = absurd (h (unfold items_for in refl))
flush_all_empties buffer ((k, []) ∷ rest) n h =
    flush_all_empties buffer rest n (skip_empty buffer rest k n h)
flush_all_empties buffer ((k, r ∷ recs) ∷ rest) n h =
    flush_all_empties (Dict.set buffer k []) rest n (take_listed buffer rest k n (r ∷ recs) h)

List-cases : (xs : List Record) → (xs ≡ []) ⊎ (xs ≢ [])
List-cases [] = inl refl
List-cases (r ∷ xs) = inr (λ e. cc)

-- For a dictionary, in which no node has two lists, `flush` hands over for every node exactly what
-- waited for it, in order, and nothing waits for the node afterwards.
pub flush_lem :
    (client : DbClient) (n : Option Node)
    → IsDistinct client.write_buffer
    → (items_for n (flush client).0 ≡ lane client.write_buffer n)
      × (lane (flush client).1.write_buffer n ≡ [])
unfolding flush
flush_lem client n h =
    let buffer = client.write_buffer in
    let listed = items_for-lane buffer n h in
    (
      flush_all_hands_over buffer buffer n ∙ listed,
      elim (List-cases (lane buffer n)) [
        | inl none_waits ↦ flush_all_empties buffer buffer n (inl none_waits)
        | inr waits ↦ flush_all_empties buffer buffer n (inr (λ e. waits (sym listed ∙ e)))
      ],
    )
