-- ===== src/Setup/Meets.antt =====
-- What the write benchmark writes, the read benchmark asks for.
use raft_lsmt.Base.{
  ℕ, ◌≤◌, ◌≡◌, sym, subst, ap, ◌∙◌, Option, some, List, [], ◌++◌, All, Member, arith, Outcome, ok,
  ok_injective, option_key,
}
use raft_lsmt.Base.Lanes.{items_for, lane, lane-nil}
use raft_lsmt.Client.Datatypes.{Node, Record, QueryRequest, node_key}
use raft_lsmt.Client.Registry.{LeaderChange}
use raft_lsmt.Client.Routing.Router.{RoutingStrategy, Router}
use raft_lsmt.Client.Routing.Router.Total.{CanRoute}
use raft_lsmt.Client.Routing.Router.Reach.{IsCovered}
use raft_lsmt.Client.Write.{Batch}
use raft_lsmt.Client.Write.Ready.{IsReady}
use raft_lsmt.Client.Db.{DbClient}
use raft_lsmt.Client.Write.Placed.{Placed}
use raft_lsmt.Client.Sockets.{Sockets}
use raft_lsmt.Bench.WriteBench.{WriteBench, bench, bench_stream}
use raft_lsmt.Bench.WriteBench.Conserve.{bench_conserves}
use raft_lsmt.Setup.{
  ConfigData, Network, strategy_map, read_strategy_map, strategy_of, set_up, WriteArgs,
  write_config, write_max_key, last_key, write_main, ReadArgs, read_config,
}
use raft_lsmt.Setup.Later.{Later, Later-Keeps}
use raft_lsmt.Setup.Clusters.{IsConfig, IsSetUp, set_up-IsSetUp}
use raft_lsmt.Setup.Routed.{Meeting, Asks, Placed-Found}

-- The records that the write benchmark means to write.
abbrev pub sent_records : (ℕ → ℕ → ℕ → Outcome ℕ) → (ℕ → ℕ → ℕ) → ℕ → WriteArgs → List Record
sent_records randint inverse_cdf now_ms args =
    (bench_stream randint inverse_cdf now_ms args.data_dist args.requests args.key_start
      (last_key args) args.worker_id).0

set_up-Meeting :
    (s t : RoutingStrategy) (config_data : ConfigData) (writer reader : DbClient) (asked : Router)
    (recs : List Record)
    → IsSetUp s config_data writer
    → IsSetUp t config_data reader
    → IsCovered s t
    → Later reader.router asked
    → All (CanRoute s) recs
    → Meeting writer.router asked recs
set_up-Meeting s t config_data writer reader asked recs w r covered later routable =
    let (same, registry, kept) =
      Later-Keeps s reader.router asked r.registry
        (subst (IsCovered s) (sym r.strategy_kept) covered) later in
    record {
      covered = subst (λ x. IsCovered x asked.strategy) (sym w.strategy_kept) kept;
      same_clusters = same ∙ r.loaded ∙ sym w.loaded;
      registry = w.registry;
      reader_registry = registry;
      topology = w.topology;
      some_cluster = w.some_cluster;
      routable = subst (λ x. All (CanRoute x) recs) (sym w.strategy_kept) routable;
    }

-- The benchmark that `main` runs has ended.
main_ended :
    (network : Network) (md5 : List ℕ → List ℕ) (meanwhile : WriteBench → List LeaderChange)
    (not_done : List Batch → List Batch) (deliver : List Batch → List (Outcome (Unit {0})))
    (randint : ℕ → ℕ → ℕ → Outcome ℕ) (inverse_cdf : ℕ → ℕ → ℕ) (now_ms : ℕ) (args : WriteArgs)
    (config_data : ConfigData) (s : RoutingStrategy) (b : WriteBench) (sockets : Sockets)
    → strategy_of (strategy_map (write_max_key args)) args.routing_strategy ≡ ok s
    → write_main network md5 meanwhile not_done deliver randint inverse_cdf now_ms args config_data
      ≡ ok (ok b, sockets)
    → bench md5 meanwhile not_done deliver randint inverse_cdf now_ms
        (set_up network write_config s config_data).0
        args.data_dist
        args.requests
        args.key_start
        (last_key args)
        args.worker_id
      ≡ ok b
unfolding write_main
main_ended network md5 meanwhile not_done deliver randint inverse_cdf now_ms args config_data s b
      sockets es ran =
    ap (λ p. p.0) (ok_injective (rw es at ran))

main_conserves :
    (md5 : List ℕ → List ℕ) (meanwhile : WriteBench → List LeaderChange)
    (not_done : List Batch → List Batch) (deliver : List Batch → List (Outcome (Unit {0})))
    (randint : ℕ → ℕ → ℕ → Outcome ℕ) (inverse_cdf : ℕ → ℕ → ℕ) (now_ms : ℕ) (args : WriteArgs)
    (writer : DbClient) (b : WriteBench)
    → IsReady writer
    → writer.write_buffer ≡ []
    → bench md5 meanwhile not_done deliver randint inverse_cdf now_ms writer args.data_dist
        args.requests args.key_start
        (last_key args)
        args.worker_id
      ≡ ok b
    → (placed : List Batch) × Placed md5 writer.router
        (sent_records randint inverse_cdf now_ms args)
        placed
        b.dbclient.router
      × ((n : Option Node) → items_for n b.handed ≡ items_for n placed)
unfolding bench
main_conserves md5 meanwhile not_done deliver randint inverse_cdf now_ms args writer b ready empty
      e =
    let (placed, routed, kept) =
      bench_conserves md5 meanwhile not_done deliver _ writer b ready e in
    (
      placed,
      routed,
      λ n.
          (kept n).0
          ∙ ap (λ d. lane d n ++ items_for n placed) empty
          ∙ ap (λ xs. xs ++ items_for n placed) (lane-nil n),
    )

-- The write benchmark and the read benchmark, each set up from one configuration, with a cluster and
-- no cluster without nodes; each with a strategy that it offers, where the readers' is not Range, or
-- both are, over the same greatest key. If the write benchmark comes to its end, while the batches
-- under way change the leaders between its calls of `write`, and its strategy can route every record
-- of its stream, then every record of the stream has been handed over for some node; and the reader,
-- after whatever queries and changes of leaders, answers every query for keys around the record's by
-- asking a node of the same cluster. How connecting went in either program does not matter.
pub written_is_asked :
    (network reading : Network) (md5 : List ℕ → List ℕ) (meanwhile : WriteBench → List LeaderChange)
    (not_done : List Batch → List Batch) (deliver : List Batch → List (Outcome (Unit {0})))
    (randint : ℕ → ℕ → ℕ → Outcome ℕ) (inverse_cdf : ℕ → ℕ → ℕ) (now_ms : ℕ) (args : WriteArgs)
    (read_args : ReadArgs) (config_data : ConfigData) (s t : RoutingStrategy) (b : WriteBench)
    (sockets : Sockets) (asked : Router) (rec : Record) (query : QueryRequest)
    → IsConfig config_data
    → strategy_of (strategy_map (write_max_key args)) args.routing_strategy ≡ ok s
    → strategy_of (read_strategy_map read_args.max_key) read_args.routing_strategy ≡ ok t
    → IsCovered s t
    → write_main network md5 meanwhile not_done deliver randint inverse_cdf now_ms args config_data
      ≡ ok (ok b, sockets)
    → All (CanRoute s) (sent_records randint inverse_cdf now_ms args)
    → Later (set_up reading (read_config read_args) t config_data).0.router asked
    → Member rec (sent_records randint inverse_cdf now_ms args)
    → query.min_id ≤ rec.key_id
    → rec.key_id ≤ query.max_id
    → (node : Node) × Member rec (items_for (some node) b.handed)
      × Asks asked query node.cluster_name
written_is_asked network reading md5 meanwhile not_done deliver randint inverse_cdf now_ms args
      read_args config_data s t b sockets asked rec query hc es et covered ran routable later m lo
      hi =
    let recs = sent_records randint inverse_cdf now_ms args in
    let writer = (set_up network write_config s config_data).0 in
    let reader = (set_up reading (read_config read_args) t config_data).0 in
    let w = set_up-IsSetUp network write_config s config_data (omega arith) hc in
    let r = set_up-IsSetUp reading (read_config read_args) t config_data (omega arith) hc in
    let ended =
      main_ended network md5 meanwhile not_done deliver randint inverse_cdf now_ms args config_data
        s b sockets es ran in
    let (placed, routed, kept) =
      main_conserves md5 meanwhile not_done deliver randint inverse_cdf now_ms args writer b w.ready
        w.buffer ended in
    let (node, inside, asks) =
      Placed-Found md5 asked query rec lo hi writer.router b.dbclient.router recs placed routed
        (set_up-Meeting s t config_data writer reader asked recs w r covered later routable) m in
    (node, subst (Member rec) (sym (kept (some node))) inside, asks)
