-- ===== src/Client/Write.antt =====
-- client/dbclient.py, `write` and `flush`: what they keep in the buffer and what they hand to
-- `_flush_batch`. A batch handed over is a pair of its node and its records.
pub mod Drain
pub mod Group
pub mod Conserve
pub mod Bounds
pub mod Flushing
pub mod Ready
pub mod Placed
mod Tests
use raft_lsmt.Base.{
  ℕ, zero, suc, Option, List, [], ◌∷◌, ◌++◌, map, length, take, drop, leb, ltb, if◌then◌else◌,
  Outcome, ok, raise, true, false, option_key,
}
use raft_lsmt.Base.Dict
use raft_lsmt.Base.Lanes.{lane}
use raft_lsmt.Client.Datatypes.{Node, Record, node_key}
use raft_lsmt.Client.Routing.Router.{Router}
use raft_lsmt.Client.Routing.Router
use raft_lsmt.Client.Db.{DbClient, Buffer}

abbrev pub Batch : Type 0
Batch = Option Node × List Record

-- `buffer[node].extend(recs)`, on a `defaultdict(list)`.
unfoldable pub extend : Buffer → Option Node → List Record → Buffer
extend buffer node recs = Dict.set buffer node (lane buffer node ++ recs)

-- The first loop: every record goes to its node's list, in order. The router's state advances.
unfoldable pub group : (List ℕ → List ℕ) → Router → List Record → Buffer → Outcome Buffer × Router
group md5 router [] node_records = (ok node_records, router)
group md5 router (rec ∷ recs) node_records =
    let routed = Router.get_node_insert md5 router rec in
    elim routed.0 [
      | raise e ↦ (raise e, routed.1)
      | ok node ↦ group md5 routed.1 recs (extend node_records node (rec ∷ []))
    ]

-- `while len(buffer) >= batch_size`: full batches are cut off the front. The fuel bounds the
-- rounds; the length of the list is enough for a positive size.
unfoldable pub drain : ℕ → ℕ → List Record → List (List Record) × List Record
drain zero size recs = ([], recs)
drain (suc fuel) size recs =
    let rest = drain fuel size (drop size recs) in
    if leb size (length recs) then (take size recs ∷ rest.0, rest.1) else ([], recs)

-- One node of the second loop.
unfoldable pub buffer_node : ℕ → Buffer → Option Node → List Record → List Batch × Buffer
buffer_node size buffer node recs =
    let held = lane buffer node ++ recs in
    let cut = drain (length held) size held in
    (map (λ b. (node, b)) cut.0, Dict.set buffer node cut.1)

-- The second loop, under the lock.
unfoldable pub buffer_all : ℕ → Buffer → Buffer → List Batch × Buffer
buffer_all size buffer [] = ([], buffer)
buffer_all size buffer ((node, recs) ∷ rest) =
    let here = buffer_node size buffer node recs in
    let later = buffer_all size here.1 rest in (here.0 ++ later.0, later.1)

-- The buffer is touched only after every record is routed: an exception there leaves it alone.
unfoldable pub write : (List ℕ → List ℕ) → DbClient → List Record → Outcome (List Batch) × DbClient
write md5 client records =
    let grouped = group md5 client.router records [] in
    elim grouped.0 [
      | raise e ↦ (raise e, record client { router = grouped.1 })
      | ok node_records ↦
          let done = buffer_all client.config.batch_size client.write_buffer node_records in
          (ok done.0, record client { router = grouped.1; write_buffer = done.1 })
    ]

-- The loop of `flush` over a copy of the items: what waits is handed over, and the list emptied.
unfoldable pub flush_all : Buffer → Buffer → List Batch × Buffer
flush_all buffer [] = ([], buffer)
flush_all buffer ((target, []) ∷ rest) = flush_all buffer rest
flush_all buffer ((target, rec ∷ recs) ∷ rest) =
    let later = flush_all (Dict.set buffer target []) rest in
    ((target, rec ∷ recs) ∷ later.0, later.1)

unfoldable pub flush : DbClient → List Batch × DbClient
flush client =
    let done = flush_all client.write_buffer client.write_buffer in
    (done.0, record client { write_buffer = done.1 })

-- The loop over `as_completed(futures)`, on how they end in the order in which they do: the first
-- one that failed raises.
unfoldable pub await_all : List (Outcome (Unit {0})) → Outcome (Unit {0})
await_all [] = ok tt
await_all (raise x ∷ rest) = raise x
await_all (ok u ∷ rest) = await_all rest
