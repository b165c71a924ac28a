-- ===== src/Client/Write/Conserve.antt =====
-- What `write` and `flush` hand over and what they keep is what they were given, node by node.
use raft_lsmt.Base.{
  ok_injective, raise_injective, ℕ, ◌<◌, ◌≡◌, sym, ap, ◌∙◌, Option, List, [], ◌∷◌, ◌++◌,
  append_assoc, append-nil, length, arith, option_key, ok, raise, Exception, Outcome-cases, ◌==◌,
  Bool-cases, inl, inr,
}
use raft_lsmt.Base.Lanes.{items_for, items_for-append, items_for-map, lane, lane-set, at_key}
use raft_lsmt.Client.Datatypes.{Node, Record, node_key}
use raft_lsmt.Client.Db.{DbClient, Buffer}
use raft_lsmt.Client.Write.{Batch, group, drain, buffer_node, buffer_all, write}
use raft_lsmt.Client.Write.Drain.{drain_lem}
use raft_lsmt.Client.Write.Group.{routes, group_from_empty, items_for-cons}

-- One node of the second loop: the full batches and what is left are what was held and what came.
buffer_node_keeps :
    (size : ℕ) (buffer : Buffer) (k n : Option Node) (recs : List Record)
    → 0 < size
    → items_for n (buffer_node size buffer k recs).0 ++ lane (buffer_node size buffer k recs).1 n
      ≡ lane buffer n ++ at_key k n recs
unfolding buffer_node
buffer_node_keeps size buffer k n recs h =
    let held = lane buffer k ++ recs in
    let cut = drain (length held) size held in
    let joined = (drain_lem (length held) size held h (omega arith)).2 in
    elim (Bool-cases (k == n)) [
      | inl same ↦
          let at_n : lane buffer k ≡ lane buffer n =
            ap (lane buffer) ((option_key.same_iff k n).0 same) in
          rw (items_for-map n k cut.0, lane-set buffer k n cut.1, same)
            (joined ∙ ap (λ (t : List Record). t ++ recs) at_n)
      | inr other ↦
          rw (items_for-map n k cut.0, lane-set buffer k n cut.1, other)
            (sym (append-nil (lane buffer n)))
    ]

buffer_all_keeps :
    (size : ℕ) (buffer : Buffer) (items : Buffer) (n : Option Node)
    → 0 < size
    → items_for n (buffer_all size buffer items).0 ++ lane (buffer_all size buffer items).1 n
      ≡ lane buffer n ++ items_for n items
unfolding buffer_all
buffer_all_keeps size buffer [] n h = unfold items_for in sym (append-nil (lane buffer n))
buffer_all_keeps size buffer ((k, recs) ∷ rest) n h =
    let first = buffer_node size buffer k recs in
    let later = buffer_all size first.1 rest in
    ap (λ (t : List Record). t ++ lane later.1 n) (items_for-append n first.0 later.0)
    ∙ append_assoc (items_for n first.0) (items_for n later.0) (lane later.1 n)
    ∙ ap (◌++◌ (items_for n first.0)) (buffer_all_keeps size first.1 rest n h)
    ∙ sym (append_assoc (items_for n first.0) (lane first.1 n) (items_for n rest))
    ∙ ap (λ (t : List Record). t ++ items_for n rest) (buffer_node_keeps size buffer k n recs h)
    ∙ append_assoc (lane buffer n) (at_key k n recs) (items_for n rest)
    ∙ ap (◌++◌ (lane buffer n)) (sym (items_for-cons n k recs rest))

pub write_routed :
    (md5 : List ℕ → List ℕ) (client : DbClient) (records : List Record) (d : Buffer)
    → (group md5 client.router records []).0 ≡ ok d
    → let done = buffer_all client.config.batch_size client.write_buffer d in
      write md5 client records ≡ (
        ok done.0,
        record client { router = (group md5 client.router records []).1; write_buffer = done.1 },
      )
unfolding write
write_routed md5 client records d hit = rw (hit, write)

pub write_raised :
    (md5 : List ℕ → List ℕ) (client : DbClient) (records : List Record) (x : Exception)
    → (group md5 client.router records []).0 ≡ raise x
    → write md5 client records
      ≡ (raise x, record client { router = (group md5 client.router records []).1 })
unfolding write
write_raised md5 client records x miss = rw (miss, write)

-- Where `write` returns, then for every node the records handed over and those that wait now are,
-- in order, those that waited before and those of the call that were routed to the node: nothing is
-- lost, repeated or reordered.
pub write_conserves :
    (md5 : List ℕ → List ℕ) (client : DbClient) (records : List Record) (batches : List Batch)
    (n : Option Node)
    → 0 < client.config.batch_size
    → (write md5 client records).0 ≡ ok batches
    → items_for n batches ++ lane (write md5 client records).1.write_buffer n
      ≡ lane client.write_buffer n ++ items_for n (routes md5 client.router records)
write_conserves md5 client records batches n h e =
    let grouped = group md5 client.router records [] in
    elim (Outcome-cases grouped.0) [
      | inl (d, hit) ↦
          let done = buffer_all client.config.batch_size client.write_buffer d in
          let w = write_routed md5 client records d hit in
          let same : batches ≡ done.0 = sym (ok_injective (ap (λ r. r.0) (sym w) ∙ e)) in
          rw (same, w)
            (buffer_all_keeps client.config.batch_size client.write_buffer d n h
              ∙ ap (◌++◌ (lane client.write_buffer n))
                  (group_from_empty md5 client.router records d n hit))
      | inr (x, miss) ↦ cc (e, write_raised md5 client records x miss)
    ]

-- Where routing a record raises, `write` raises the same, and the buffer is as it was.
pub write_atomic :
    (md5 : List ℕ → List ℕ) (client : DbClient) (records : List Record) (x : Exception)
    → (write md5 client records).0 ≡ raise x
    → ((group md5 client.router records []).0 ≡ raise x)
      × ((write md5 client records).1.write_buffer ≡ client.write_buffer)
write_atomic md5 client records x e = elim (Outcome-cases (group md5 client.router records []).0) [
  | inl (d, hit) ↦ cc (e, write_routed md5 client records d hit)
  | inr (y, miss) ↦
      let w = write_raised md5 client records y miss in
      let same : y ≡ x = raise_injective (ap (λ r. r.0) (sym w) ∙ e) in
      (miss ∙ ap raise same, ap (λ r. r.1.write_buffer) w)
]
