-- ===== src/Client/BatchQuery/Numbers.antt =====
-- The numbers of the requests of a batch, and the positions found by them.
use raft_lsmt.Base.{
  ℕ, zero, suc, ◌+◌, ◌≡◌, ◌≢◌, refl, sym, ap, ◌∙◌, some, List, [], ◌∷◌, arith, All, get_elem?,
  Bool-cases, inl, inr, ◌==◌, nat_key,
}
use raft_lsmt.Base.Dict
use raft_lsmt.Base.Dict.{Dict}
use raft_lsmt.Client.Datatypes.{QueryRequest}
use raft_lsmt.Client.BatchQuery.{index_requests}

abbrev pub Numbered : Type 0
Numbered = List (ℕ × QueryRequest)

-- The numbers alone.
abbrev pub ids : Numbered → List ℕ
ids [] = []
ids ((id, query) ∷ rest) = id ∷ ids rest

-- No number is used twice.
abbrev pub IsUnique : List ℕ → Type 0
IsUnique [] = Unit {0}
IsUnique (id ∷ rest) = All (λ j. j ≢ id) rest × IsUnique rest

-- A position that is found by a number holds it.
index_requests_sound :
    (all : List ℕ) (numbered : Numbered) (idx : ℕ) (d : Dict ℕ ℕ)
    → ((j : ℕ) → get_elem? all (idx + j) ≡ get_elem? (ids numbered) j)
    → ((id k : ℕ) → Dict.get d id ≡ some k → get_elem? all k ≡ some id)
    → (id k : ℕ) → Dict.get (index_requests numbered idx d) id ≡ some k
    → get_elem? all k ≡ some id
unfolding index_requests
index_requests_sound all [] idx d at held id k e = held id k e
index_requests_sound all ((i, query) ∷ rest) idx d at held id k e =
    index_requests_sound all rest (suc idx) (Dict.set d i idx)
      (λ j. ap (get_elem? all) (omega arith) ∙ at (suc j))
      (λ n m f. elim (Bool-cases (i == n)) [
        | inl same ↦
            let f' = rw (Dict.get-set d i n idx, same) at f in
            let here : idx ≡ m = cc in
            ap (get_elem? all) (sym here ∙ omega arith)
            ∙ at 0
            ∙ ap some ((nat_key.same_iff i n).0 same)
        | inr other ↦ held n m (rw (Dict.get-set d i n idx, other) at f)
      ])
      id k e

-- A number that is not among the rest keeps its position.
index_requests_kept :
    (numbered : Numbered) (idx : ℕ) (d : Dict ℕ ℕ) (id : ℕ)
    → All (λ j. j ≢ id) (ids numbered)
    → Dict.get (index_requests numbered idx d) id ≡ Dict.get d id
unfolding index_requests
index_requests_kept [] idx d id h = refl
index_requests_kept ((i, query) ∷ rest) idx d id h =
    index_requests_kept rest (suc idx) (Dict.set d i idx) id h.1
    ∙ Dict.get-set d i id idx
    ∙ elim (Bool-cases (i == id)) [
      | inl same ↦ absurd (h.0 ((nat_key.same_iff i id).0 same))
      | inr other ↦ rw other refl
    ]

-- Every number is found at its position.
index_requests_finds :
    (numbered : Numbered) (idx : ℕ) (d : Dict ℕ ℕ) (j id : ℕ)
    → IsUnique (ids numbered)
    → get_elem? (ids numbered) j ≡ some id
    → Dict.get (index_requests numbered idx d) id ≡ some (idx + j)
unfolding index_requests
index_requests_finds [] idx d j id u e = cc
index_requests_finds ((i, query) ∷ rest) idx d zero id u e =
    let same : i ≡ id = cc in
    ap (Dict.get (index_requests rest (suc idx) (Dict.set d i idx))) (sym same)
    ∙ index_requests_kept rest (suc idx) (Dict.set d i idx) i u.0
    ∙ Dict.get-set d i i idx
    ∙ rw ((nat_key.same_iff i i).1 refl) (ap some (omega arith))
index_requests_finds ((i, query) ∷ rest) idx d (suc j) id u e =
    index_requests_finds rest (suc idx) (Dict.set d i idx) j id u.1 e ∙ ap some (omega arith)

pub index_of_request :
    (numbered : Numbered) (id k : ℕ)
    → Dict.get (index_requests numbered 0 []) id ≡ some k
    → get_elem? (ids numbered) k ≡ some id
index_of_request numbered id k e =
    index_requests_sound (ids numbered) numbered 0 []
      (λ j. ap (get_elem? (ids numbered)) (omega arith)) (λ n m f. cc (Dict.get-nil {V = ℕ} n, f))
      id k e

pub request_of_index :
    (numbered : Numbered) (j id : ℕ)
    → IsUnique (ids numbered)
    → get_elem? (ids numbered) j ≡ some id
    → Dict.get (index_requests numbered 0 []) id ≡ some j
request_of_index numbered j id u e =
    index_requests_finds numbered 0 [] j id u e ∙ ap some (omega arith)
