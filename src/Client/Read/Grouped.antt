-- ===== src/Client/Read/Grouped.antt =====
-- What a read returns: the answers, cluster by cluster.
use raft_lsmt.Base.{
  String, ◌≡◌, sym, ap, ◌∙◌, List, [], ◌∷◌, ◌++◌, append_assoc, append-nil, if◌then◌else◌, ◌==◌,
  string_key, Bool-cases, inl, inr, ok, ok_injective,
}
use raft_lsmt.Base.Dict.{Dict}
use raft_lsmt.Base.Lanes.{lane, lane-nil, lane-extend, at_key}
use raft_lsmt.Client.Datatypes.{Node}
use raft_lsmt.Client.Wire.Response.{Response}
use raft_lsmt.Client.Read.{Reading, Results, group_results, conclude}

-- The answers of the nodes of a cluster, in order.
abbrev pub of_cluster : String → List (Node × Response) → List (Node × Response)
of_cluster c [] = []
of_cluster c ((n, response) ∷ rest) =
    let later = of_cluster c rest in if n.cluster_name == c then (n, response) ∷ later else later

of_cluster-cons :
    (c : String) (n : Node) (response : Response) (rest : List (Node × Response))
    → at_key n.cluster_name c ((n, response) ∷ []) ++ of_cluster c rest
      ≡ of_cluster c ((n, response) ∷ rest)
of_cluster-cons c n response rest = elim (Bool-cases (n.cluster_name == c)) [
  | inl same ↦ rw same
  | inr other ↦ rw other
]

group_results_lem :
    (answers : Dict Node Response) (results : Dict String (List (Node × Response))) (c : String)
    → lane (group_results answers results) c ≡ lane results c ++ of_cluster c answers
unfolding group_results
group_results_lem [] results c = sym (append-nil (lane results c))
group_results_lem ((n, response) ∷ rest) results c =
    group_results_lem rest _ c
    ∙ ap (λ (t : List (Node × Response)). t ++ of_cluster c rest)
        (lane-extend results n.cluster_name c ((n, response) ∷ []))
    ∙ append_assoc (lane results c) (at_key n.cluster_name c ((n, response) ∷ []))
        (of_cluster c rest)
    ∙ ap (◌++◌ (lane results c)) (of_cluster-cons c n response rest)

-- A read that succeeds returns under the name of each cluster what the nodes of that cluster have
-- answered, in the order of the first answers, and the metrics of all its requests.
pub conclude_groups :
    (r : Reading) (results : Results) (c : String)
    → conclude (ok r) ≡ ok results
    → (lane results.by_cluster c ≡ of_cluster c r.accumulated)
      × (results.request_metrics ≡ r.metrics)
unfolding conclude
conclude_groups r results c e =
    let same = ok_injective e in
    (
      ap (λ (x : Results). lane x.by_cluster c) (sym same)
          ∙ group_results_lem r.accumulated [] c
          ∙ ap (λ (t : List (Node × Response)). t ++ of_cluster c r.accumulated) (lane-nil c),
      ap (λ (x : Results). x.request_metrics) (sym same),
    )
