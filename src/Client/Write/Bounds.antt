-- ===== src/Client/Write/Bounds.antt =====
-- What `write` sends at once is full batches, and less than a batch is left to wait.
use raft_lsmt.Base.{
  ok_injective, ℕ, ◌<◌, ◌≡◌, sym, ap, ◌∙◌, Option, List, [], ◌∷◌, ◌++◌, map, length, arith,
  option_key, ok, Outcome-cases, ◌==◌, Bool-cases, inl, inr, All,
}
use raft_lsmt.Base.Lanes.{lane, lane-set}
use raft_lsmt.Client.Datatypes.{Node, Record, node_key}
use raft_lsmt.Client.Db.{DbClient, Buffer}
use raft_lsmt.Client.Write.{Batch, group, drain, buffer_node, buffer_all, write}
use raft_lsmt.Client.Write.Drain.{drain_lem}
use raft_lsmt.Client.Write.Conserve.{write_routed, write_raised}

-- A batch of exactly the size.
abbrev pub IsFull : ℕ → Batch → Type 0
IsFull size b = length b.1 ≡ size

All-IsFull-map :
    (size : ℕ) (k : Option Node) (bs : List (List Record))
    → All (λ b. length b ≡ size) bs
    → All (IsFull size) (map (λ b. (k, b)) bs)
All-IsFull-map size k [] h = tt
All-IsFull-map size k (b ∷ bs) h = (h.0, All-IsFull-map size k bs h.1)

All-IsFull-append :
    (size : ℕ) (xs ys : List Batch)
    → All (IsFull size) xs
    → All (IsFull size) ys
    → All (IsFull size) (xs ++ ys)
All-IsFull-append size [] ys h g = g
All-IsFull-append size (x ∷ xs) ys h g = (h.0, All-IsFull-append size xs ys h.1 g)

buffer_node_bounds :
    (size : ℕ) (buffer : Buffer) (k n : Option Node) (recs : List Record)
    → 0 < size
    → length (lane buffer n) < size
    → All (IsFull size) (buffer_node size buffer k recs).0
      × (length (lane (buffer_node size buffer k recs).1 n) < size)
unfolding buffer_node
buffer_node_bounds size buffer k n recs h short =
    let held = lane buffer k ++ recs in
    let cut = drain (length held) size held in
    let parts = drain_lem (length held) size held h (omega arith) in
    (
      All-IsFull-map size k cut.0 parts.0,
      elim (Bool-cases (k == n)) [
        | inl same ↦ rw (lane-set buffer k n cut.1, same) parts.1
        | inr other ↦ rw (lane-set buffer k n cut.1, other) short
      ],
    )

buffer_all_bounds :
    (size : ℕ) (buffer items : Buffer) (n : Option Node)
    → 0 < size
    → length (lane buffer n) < size
    → All (IsFull size) (buffer_all size buffer items).0
      × (length (lane (buffer_all size buffer items).1 n) < size)
unfolding buffer_all
buffer_all_bounds size buffer [] n h short = (tt, short)
buffer_all_bounds size buffer ((k, recs) ∷ rest) n h short =
    let here = buffer_node_bounds size buffer k n recs h short in
    let first = buffer_node size buffer k recs in
    let later = buffer_all_bounds size first.1 rest n h here.1 in
    (All-IsFull-append size first.0 (buffer_all size first.1 rest).0 here.0 later.0, later.1)

-- Where `write` returns, every batch that it hands over has exactly `batch_size` records, and for a
-- node for which less than a batch waited before, less than a batch waits afterwards.
pub write_bounds :
    (md5 : List ℕ → List ℕ) (client : DbClient) (records : List Record) (batches : List Batch)
    (n : Option Node)
    → 0 < client.config.batch_size
    → length (lane client.write_buffer n) < client.config.batch_size
    → (write md5 client records).0 ≡ ok batches
    → All (IsFull client.config.batch_size) batches
      × (length (lane (write md5 client records).1.write_buffer n) < client.config.batch_size)
write_bounds md5 client records batches n h short e =
    let grouped = group md5 client.router records [] in
    elim (Outcome-cases grouped.0) [
      | inl (d, hit) ↦
          let done = buffer_all client.config.batch_size client.write_buffer d in
          let w = write_routed md5 client records d hit in
          let same : batches ≡ done.0 = sym (ok_injective (ap (λ r. r.0) (sym w) ∙ e)) in
          rw (same, w) (buffer_all_bounds client.config.batch_size client.write_buffer d n h short)
      | inr (x, miss) ↦ cc (e, write_raised md5 client records x miss)
    ]
