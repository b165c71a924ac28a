-- ===== src/Setup/Later.antt =====
-- A router that answers queries, after any queries and changes of leaders.
use raft_lsmt.Base.{
  ℕ, ◌≡◌, refl, sym, ap, subst, List, ◌==◌, nat_key, length, Bool-cases, inl, inr, Outcome, String,
  ok, bind_ok, ◌>>=◌, ok_injective,
}
use raft_lsmt.Base.Dict.{Dict}
use raft_lsmt.Client.Datatypes.{Node, QueryRequest}
use raft_lsmt.Client.Registry.{LeaderRegistry, LeaderChange, IsRegistry, changed-IsRegistry}
use raft_lsmt.Client.Routing.Names
use raft_lsmt.Client.Routing.Range
use raft_lsmt.Client.Routing.Hash
use raft_lsmt.Client.Routing.RoundRobin
use raft_lsmt.Client.Routing.ByKey
use raft_lsmt.Client.Routing.Router.{
  RoutingStrategy, range, hash, round_robin, leader, Router, strategy_query, get_nodes_for_read,
  with_leaders,
}
use raft_lsmt.Client.Routing.Router.Reach.{IsRangeOver, IsCovered}

-- What a router may have become by queries that were answered, and by changes of the leaders.
pub data Later (fresh : Router) : Router → Type 0 where
  at_first : Later fresh fresh
  after_query :
      {r r' : Router} {nodes : List Node} (query : QueryRequest)
      → Later fresh r
      → get_nodes_for_read r query ≡ ok (nodes, r')
      → Later fresh r'
  after_change :
      {r : Router} (changes : List LeaderChange)
      → Later fresh r
      → Later fresh (with_leaders changes r)

range_kept :
    (s s' : Range.RangeRoutingStrategy) (query : QueryRequest) (registry : LeaderRegistry)
    (clusters : Names.Clusters) (nodes : List Node)
    → Range.get_node_query s query registry clusters ≡ ok (nodes, s')
    → s'.max_keyspace ≡ s.max_keyspace
unfolding Range.get_node_query
range_kept s s' query registry clusters nodes e =
    elim (Bool-cases (length (Names.cluster_names clusters) == 0)) [
      | inl none_there ↦
          ap (λ (p : List Node × Range.RangeRoutingStrategy). p.1.max_keyspace)
            (sym (ok_injective (rw (none_there, Range.get_node_query) at e)))
      | inr some_there ↦
          let names = Names.cluster_names clusters in
          let blocks : ℕ → Outcome (List Node × Dict String ℕ) = λ chunk.
            Range.query_blocks chunk (length names) 0 names query registry clusters
              s.query_indices in
          let kept : List Node × Dict String ℕ → Outcome (List Node × Range.RangeRoutingStrategy) =
            λ result. ok (result.0, record s { query_indices = result.1 }) in
          let rest : ℕ → Outcome (List Node × Range.RangeRoutingStrategy) =
            λ chunk. blocks chunk >>= kept in
          let e' : (Range.chunk_size s.max_keyspace (length names) >>= rest) ≡ ok (nodes, s') =
            rw (some_there, Range.get_node_query) at e in
          let (chunk, e1, f1) = bind_ok (Range.chunk_size s.max_keyspace (length names)) rest e' in
          let (result, e2, f2) = bind_ok (blocks chunk) kept f1 in
          ap (λ (p : List Node × Range.RangeRoutingStrategy). p.1.max_keyspace)
            (sym (ok_injective f2))
    ]

query-IsCovered :
    (s t t' : RoutingStrategy) (query : QueryRequest) (registry : LeaderRegistry)
    (clusters : Names.Clusters) (nodes : List Node)
    → strategy_query t query registry clusters ≡ ok (nodes, t')
    → IsCovered s t
    → IsCovered s t'
unfolding strategy_query
query-IsCovered s (range t) t' query registry clusters nodes e h =
    let (r, e1, f1) = bind_ok (Range.get_node_query t query registry clusters) _ e in
    subst (λ (p : List Node × RoutingStrategy). IsCovered s p.1) (ok_injective f1)
      (subst (λ k. IsRangeOver k s) (sym (range_kept t r.1 query registry clusters r.0 e1)) h)
query-IsCovered s (hash t) t' query registry clusters nodes e h =
    let (r, e1, f1) = bind_ok (Hash.get_node_query t query registry clusters) _ e in
    subst (λ (p : List Node × RoutingStrategy). IsCovered s p.1) (ok_injective f1) tt
query-IsCovered s (round_robin t) t' query registry clusters nodes e h =
    let (r, e1, f1) = bind_ok (RoundRobin.get_node_query t query registry clusters) _ e in
    subst (λ (p : List Node × RoutingStrategy). IsCovered s p.1) (ok_injective f1) tt
query-IsCovered s (leader t) t' query registry clusters nodes e h =
    let (r, e1, f1) = bind_ok (ByKey.get_node_query t query registry clusters) _ e in
    subst (λ (p : List Node × RoutingStrategy). IsCovered s p.1) (ok_injective f1) tt

-- What it keeps: the clusters, a registry with leaders under their own names, and what it covers.
abbrev pub Keeps : RoutingStrategy → Router → Router → Type 0
Keeps s fresh r =
    (r.clusters ≡ fresh.clusters) × IsRegistry r.leader_registry × IsCovered s r.strategy

query-Keeps :
    (s : RoutingStrategy) (fresh r r' : Router) (nodes : List Node) (query : QueryRequest)
    → get_nodes_for_read r query ≡ ok (nodes, r')
    → Keeps s fresh r
    → Keeps s fresh r'
unfolding get_nodes_for_read
query-Keeps s fresh r r' nodes query e (same, registry, covered) =
    let (step, e1, f1) =
      bind_ok (strategy_query r.strategy query r.leader_registry r.clusters) _ e in
    subst (λ (p : List Node × Router). Keeps s fresh p.1) (ok_injective f1)
      (
        same,
        registry,
        query-IsCovered s r.strategy step.1 query r.leader_registry r.clusters step.0 e1 covered,
      )

pub Later-Keeps :
    (s : RoutingStrategy) (fresh r : Router)
    → IsRegistry fresh.leader_registry
    → IsCovered s fresh.strategy
    → Later fresh r
    → Keeps s fresh r
Later-Keeps s fresh r h covered at_first = (refl, h, covered)
Later-Keeps s fresh r h covered (after_query {r = before} {nodes = nodes} query l e) =
    query-Keeps s fresh before r nodes query e (Later-Keeps s fresh before h covered l)
Later-Keeps s fresh r h covered (after_change {r = before} changes l) =
    let (same, registry, c) = Later-Keeps s fresh before h covered l in
    (same, changed-IsRegistry changes before.leader_registry registry, c)
