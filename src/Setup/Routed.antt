-- ===== src/Setup/Routed.antt =====
-- Records that are routed one after the other, and a router that answers queries for them.
use raft_lsmt.Base.{
  ℕ, ◌≤◌, ◌≡◌, ◌≢◌, refl, sym, subst, ◌∙◌, String, Option, some, List, [], ◌∷◌, All, All-imp, Any,
  here, there, Member, Any-append_right, ok, ok_injective, option_key,
}
use raft_lsmt.Base.Lanes.{items_for, at_key}
use raft_lsmt.Client.Datatypes.{Node, Record, QueryRequest, node_key}
use raft_lsmt.Client.Registry.{LeaderRegistry, LeaderChange, IsRegistry, changed-IsRegistry}
use raft_lsmt.Client.Routing.Names
use raft_lsmt.Client.Routing.Each.{IsTopology}
use raft_lsmt.Client.Routing.Router.{
  RoutingStrategy, range, hash, round_robin, leader, Router, strategy_insert, get_node_insert,
  get_nodes_for_read, with_leaders,
}
use raft_lsmt.Client.Routing.Router.Total.{CanRoute, routes_every_record}
use raft_lsmt.Client.Routing.Router.Reach.{IsRangeOver, IsCovered, read_reaches_insert}
use raft_lsmt.Client.Write.{Batch}
use raft_lsmt.Client.Write.Group.{items_for-cons}
use raft_lsmt.Client.Write.Placed.{Placed, placed_none, placed_leaders, placed_one}

-- An insertion leaves a strategy of the same class and keyspace.
strategy-CanRoute :
    (md5 : List ℕ → List ℕ) (s : RoutingStrategy) (rec r : Record) (registry : LeaderRegistry)
    (clusters : Names.Clusters)
    → CanRoute s r
    → CanRoute (strategy_insert md5 s rec registry clusters).1 r
unfolding strategy_insert
strategy-CanRoute md5 (range s) rec r registry clusters h = h
strategy-CanRoute md5 (hash s) rec r registry clusters h = h
strategy-CanRoute md5 (round_robin s) rec r registry clusters h = h
strategy-CanRoute md5 (leader s) rec r registry clusters h = h

strategy-IsRangeOver :
    (md5 : List ℕ → List ℕ) (s : RoutingStrategy) (rec : Record) (registry : LeaderRegistry)
    (clusters : Names.Clusters) (max_keyspace : ℕ)
    → IsRangeOver max_keyspace s
    → IsRangeOver max_keyspace (strategy_insert md5 s rec registry clusters).1
unfolding strategy_insert
strategy-IsRangeOver md5 (range s) rec registry clusters max_keyspace h = h
strategy-IsRangeOver md5 (hash s) rec registry clusters max_keyspace h = absurd h
strategy-IsRangeOver md5 (round_robin s) rec registry clusters max_keyspace h = absurd h
strategy-IsRangeOver md5 (leader s) rec registry clusters max_keyspace h = absurd h

strategy-IsCovered :
    (md5 : List ℕ → List ℕ) (s t : RoutingStrategy) (rec : Record) (registry : LeaderRegistry)
    (clusters : Names.Clusters)
    → IsCovered s t
    → IsCovered (strategy_insert md5 s rec registry clusters).1 t
strategy-IsCovered md5 s (range t) rec registry clusters h =
    strategy-IsRangeOver md5 s rec registry clusters t.max_keyspace h
strategy-IsCovered md5 s (hash t) rec registry clusters h = tt
strategy-IsCovered md5 s (round_robin t) rec registry clusters h = tt
strategy-IsCovered md5 s (leader t) rec registry clusters h = tt

-- A router that can route some records, and one over the same clusters that answers queries for them.
pub record Meeting (router reader : Router) (recs : List Record) : Type 0 where
  pub covered : IsCovered router.strategy reader.strategy
  pub same_clusters : reader.clusters ≡ router.clusters
  pub registry : IsRegistry router.leader_registry
  pub reader_registry : IsRegistry reader.leader_registry
  pub topology : IsTopology router.clusters
  pub some_cluster : router.clusters ≢ []
  pub routable : All (CanRoute router.strategy) recs

insert-Meeting :
    (md5 : List ℕ → List ℕ) (router reader : Router) (rec : Record) (recs : List Record)
    → Meeting router reader (rec ∷ recs)
    → Meeting (get_node_insert md5 router rec).1 reader recs
unfolding get_node_insert
insert-Meeting md5 router reader rec recs h = record {
  covered =
      strategy-IsCovered md5 router.strategy reader.strategy rec router.leader_registry
        router.clusters h.covered;
  same_clusters = h.same_clusters;
  registry = h.registry;
  reader_registry = h.reader_registry;
  topology = h.topology;
  some_cluster = h.some_cluster;
  routable =
      All-imp (CanRoute router.strategy) _ recs
        (λ r. strategy-CanRoute md5 router.strategy rec r router.leader_registry router.clusters)
        h.routable.1;
}

leaders-Meeting :
    (changes : List LeaderChange) (router reader : Router) (recs : List Record)
    → Meeting router reader recs
    → Meeting (with_leaders changes router) reader recs
leaders-Meeting changes router reader recs h = record {
  covered = h.covered;
  same_clusters = h.same_clusters;
  reader_registry = h.reader_registry;
  topology = h.topology;
  some_cluster = h.some_cluster;
  routable = h.routable;
  registry = changed-IsRegistry changes router.leader_registry h.registry;
}

-- The query is answered, and asks a node of the cluster.
abbrev pub Asks : Router → QueryRequest → String → Type 0
Asks reader query c =
    (r : List Node × Router) × (get_nodes_for_read reader query ≡ ok r)
    × Any (λ m. m.cluster_name ≡ c) r.0

-- A record is among those handed over for a node whose cluster a query for its key asks.
abbrev pub Found : List Batch → Record → Router → QueryRequest → Type 0
Found handed rec reader query =
    (node : Node) × Member rec (items_for (some node) handed) × Asks reader query node.cluster_name

at_key_self : (node : Node) (recs : List Record) → at_key (some node) (some node) recs ≡ recs
at_key_self node recs = rw ((node_key.same_iff node node).1 refl) refl

module _ (md5 : List ℕ → List ℕ) (reader : Router) (query : QueryRequest) (rec : Record)
    (lo : query.min_id ≤ rec.key_id) (hi : rec.key_id ≤ query.max_id) where
  head-Found :
      (router : Router) (recs : List Record) (target : Option Node) (later : List Batch)
      → Meeting router reader (rec ∷ recs)
      → (get_node_insert md5 router rec).0 ≡ ok target
      → Found ((target, rec ∷ []) ∷ later) rec reader query
  head-Found router recs target later h hit =
      let (node, e, named) =
        routes_every_record md5 router rec h.registry h.topology h.some_cluster h.routable.0 in
      let same : some node ≡ target = ok_injective (sym e ∙ hit) in
      (
        node,
        subst (λ k. Member rec (items_for (some node) ((k, rec ∷ []) ∷ later))) same
            (rw (items_for-cons (some node) (some node) (rec ∷ []) later)
              (rw (at_key_self node (rec ∷ [])) (here refl))),
        read_reaches_insert md5 router reader rec query node h.covered h.same_clusters h.registry
            h.reader_registry h.topology e lo hi,
      )

  pub Placed-Found :
      (router after : Router) (recs : List Record) (placed : List Batch)
      → Placed md5 router recs placed after
      → Meeting router reader recs
      → Member rec recs
      → Found placed rec reader query
  Placed-Found router after [] [] placed_none h m = elim m [ ]
  Placed-Found router after recs placed (placed_leaders changes later) h m =
      Placed-Found (with_leaders changes router) after recs placed later
        (leaders-Meeting changes router reader recs h) m
  Placed-Found router after (r ∷ recs) ((target, own) ∷ placed) (placed_one hit later) h
        (here same) =
      subst (λ x. Found ((target, x ∷ []) ∷ placed) rec reader query) (sym same)
        (head-Found router recs target placed (subst (λ x. Meeting router reader (x ∷ recs)) same h)
          (subst (λ x. (get_node_insert md5 router x).0 ≡ ok target) same hit))
  Placed-Found router after (r ∷ recs) ((target, own) ∷ placed) (placed_one hit later) h (there m) =
      let (node, inside, asks) =
        Placed-Found (get_node_insert md5 router r).1 after recs placed later
          (insert-Meeting md5 router reader r recs h) m in
      (
        node,
        rw (items_for-cons (some node) target (r ∷ []) placed)
            (Any-append_right (λ y. y ≡ rec) (at_key target (some node) (r ∷ [])) inside),
        asks,
      )
