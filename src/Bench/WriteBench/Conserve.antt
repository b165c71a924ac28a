-- ===== src/Bench/WriteBench/Conserve.antt =====
-- Every record of the stream is handed over for the node that it is routed to.
use raft_lsmt.Base.{
  ℕ, ◌≡◌, ◌⊎◌, refl, sym, ap, subst, ◌∙◌, Option, List, [], ◌∷◌, ◌++◌, append_assoc, append-nil,
  option_key, Outcome, ok, bind_ok, ok_injective, Bool-cases, inl, inr, length, leb, ltb,
}
use raft_lsmt.Base.Lanes.{items_for, items_for-append, lane}
use raft_lsmt.Client.Datatypes.{Node, Record, node_key}
use raft_lsmt.Client.Registry.{LeaderChange}
use raft_lsmt.Client.Db.{DbClient, see_leaders}
use raft_lsmt.Client.Write.{Batch, write, flush, await_all}
use raft_lsmt.Client.Write.Group.{routes}
use raft_lsmt.Client.Write.Conserve.{write_conserves}
use raft_lsmt.Client.Write.Placed.{
  Placed, placed_none, placed_leaders, append-Placed, then_leaders, write-Placed,
}
use raft_lsmt.Client.Write.Ready.{IsReady, write-IsReady}
use raft_lsmt.Client.Write.Flushing.{flush_lem}
use raft_lsmt.Bench.Streams.{Yielded}
use raft_lsmt.Bench.WriteBench.{
  WriteBench, buffer_size, submit_buffer, submit_some, throttle, take_record, receive, receive_all,
  submit_rest, flush_client, run_bench,
}

-- The records of a node that the client has: those handed over, and those that wait.
abbrev owned : Option Node → WriteBench → List Record
owned n b = items_for n b.handed ++ lane b.dbclient.write_buffer n

-- From `b` to `b'` some records were written: each was routed in its turn, and is owned behind those
-- of before.
record Wrote (md5 : List ℕ → List ℕ) (b : WriteBench) (recs : List Record) (b' : WriteBench)
    : Type 0 where
  placed : List Batch
  routed : Placed md5 b.dbclient.router recs placed b'.dbclient.router
  owns : (n : Option Node) → owned n b' ≡ owned n b ++ items_for n placed
  ready : IsReady b'.dbclient

nothing-Wrote : (md5 : List ℕ → List ℕ) (b : WriteBench) → IsReady b.dbclient → Wrote md5 b [] b
nothing-Wrote md5 b h = record {
  placed = [];
  routed = placed_none;
  owns = λ n. unfold items_for in sym (append-nil _);
  ready = h;
}

append-Wrote :
    (md5 : List ℕ → List ℕ) (b s b' : WriteBench) (xs ys : List Record)
    → Wrote md5 b xs s
    → Wrote md5 s ys b'
    → Wrote md5 b (xs ++ ys) b'
append-Wrote md5 b s b' xs ys first second = record {
  placed = first.placed ++ second.placed;
  routed =
      append-Placed md5 b.dbclient.router s.dbclient.router b'.dbclient.router xs ys first.placed
        second.placed first.routed second.routed;
  owns = λ n.
      second.owns n
      ∙ ap (λ (t : List Record). t ++ items_for n second.placed) (first.owns n)
      ∙ append_assoc (owned n b) (items_for n first.placed) (items_for n second.placed)
      ∙ ap (◌++◌ (owned n b)) (sym (items_for-append n first.placed second.placed));
  ready = second.ready;
}

submit_buffer-Wrote :
    (md5 : List ℕ → List ℕ) (meanwhile : WriteBench → List LeaderChange) (b b' : WriteBench)
    → IsReady b.dbclient
    → submit_buffer md5 meanwhile b ≡ ok b'
    → Wrote md5 b b.batch_buffer b' × (b'.batch_buffer ≡ [])
unfolding submit_buffer
submit_buffer-Wrote md5 meanwhile b b' h e =
    let client = see_leaders (meanwhile b) b.dbclient in
    let (fs, wrote, e') = bind_ok (write md5 client b.batch_buffer).0 _ e in
    let after = (write md5 client b.batch_buffer).1 in
    subst (λ (x : WriteBench). Wrote md5 b b.batch_buffer x × (x.batch_buffer ≡ []))
      (ok_injective e')
      (
        record {
          placed = routes md5 client.router b.batch_buffer;
          routed = placed_leaders (meanwhile b) (write-Placed md5 client b.batch_buffer fs wrote);
          owns = λ n.
              ap (λ (t : List Record). t ++ lane after.write_buffer n)
                (items_for-append n b.handed fs)
              ∙ append_assoc (items_for n b.handed) (items_for n fs) (lane after.write_buffer n)
              ∙ ap (◌++◌ (items_for n b.handed))
                  (write_conserves md5 client b.batch_buffer fs n h.0 wrote)
              ∙ sym (
                  append_assoc (items_for n b.handed) (lane b.dbclient.write_buffer n)
                    (items_for n (routes md5 client.router b.batch_buffer)));
          ready = write-IsReady md5 client b.batch_buffer h;
        },
        refl,
      )

-- Some records were written, and the others that came are in the buffer of the loop.
abbrev Took : (List ℕ → List ℕ) → WriteBench → List Record → WriteBench → Type 0
Took md5 b recs b' =
    (written : List Record) × Wrote md5 b written b'
    × (written ++ b'.batch_buffer ≡ b.batch_buffer ++ recs)

throttle-Took :
    (md5 : List ℕ → List ℕ) (not_done : List Batch → List Batch) (b s : WriteBench)
    (recs : List Record)
    → Took md5 b recs s
    → Took md5 b recs (throttle not_done s)
unfolding throttle
throttle-Took md5 not_done b s recs (written, w, e) =
    elim (Bool-cases (ltb 512 (length s.futures))) [
      | inl full ↦ rw full (
        written,
        record { placed = w.placed; routed = w.routed; owns = w.owns; ready = w.ready },
        e,
      )
      | inr room ↦ rw room (written, w, e)
    ]

receive-Took :
    (md5 : List ℕ → List ℕ) (meanwhile : WriteBench → List LeaderChange)
    (not_done : List Batch → List Batch) (rec : Record) (b b' : WriteBench)
    → IsReady b.dbclient
    → receive md5 meanwhile not_done rec b ≡ ok b'
    → Took md5 b (rec ∷ []) b'
unfolding receive
receive-Took md5 meanwhile not_done rec b b' h e =
    let taken = take_record rec b in
    elim (Bool-cases (leb buffer_size (length taken.batch_buffer))) [
      | inl full ↦
          let (sent, e1, e2) = bind_ok (submit_buffer md5 meanwhile taken) _ (rw full at e) in
          let (w, empty) = submit_buffer-Wrote md5 meanwhile taken sent h e1 in
          let from_b : Wrote md5 b taken.batch_buffer sent = record {
            placed = w.placed;
            routed = w.routed;
            owns = w.owns;
            ready = w.ready;
          } in
          let all : taken.batch_buffer ++ sent.batch_buffer ≡ taken.batch_buffer =
            ap (◌++◌ taken.batch_buffer) empty ∙ append-nil taken.batch_buffer in
          subst (Took md5 b (rec ∷ [])) (ok_injective e2)
            (throttle-Took md5 not_done b sent (rec ∷ []) (taken.batch_buffer, from_b, all))
      | inr room ↦
          let w = nothing-Wrote md5 b h in
          subst (Took md5 b (rec ∷ [])) (ok_injective (rw room at e)) (
            [],
            record { placed = w.placed; routed = w.routed; owns = w.owns; ready = w.ready },
            refl,
          )
    ]

receive_all-Took :
    (md5 : List ℕ → List ℕ) (meanwhile : WriteBench → List LeaderChange)
    (not_done : List Batch → List Batch) (recs : List Record) (b b' : WriteBench)
    → IsReady b.dbclient
    → receive_all md5 meanwhile not_done recs b ≡ ok b'
    → Took md5 b recs b'
unfolding receive_all
receive_all-Took md5 meanwhile not_done [] b b' h e =
    subst (Took md5 b []) (ok_injective e)
      ([], nothing-Wrote md5 b h, sym (append-nil b.batch_buffer))
receive_all-Took md5 meanwhile not_done (rec ∷ recs) b b' h e =
    let (next, e1, e2) = bind_ok (receive md5 meanwhile not_done rec b) _ e in
    let (xs, first, left) = receive-Took md5 meanwhile not_done rec b next h e1 in
    let (ys, second, left') = receive_all-Took md5 meanwhile not_done recs next b' first.ready e2 in
    (
      xs ++ ys,
      append-Wrote md5 b next b' xs ys first second,
      append_assoc xs ys b'.batch_buffer
          ∙ ap (◌++◌ xs) left'
          ∙ sym (append_assoc xs next.batch_buffer recs)
          ∙ ap (λ (t : List Record). t ++ recs) left
          ∙ append_assoc b.batch_buffer (rec ∷ []) recs,
    )

List-cases :
    (xs : List Record) → (xs ≡ []) ⊎ ((x : Record) × (rest : List Record) × (xs ≡ x ∷ rest))
List-cases [] = inl refl
List-cases (x ∷ rest) = inr (x, rest, refl)

-- In the end all of the buffer of the loop is written.
submit_rest-Wrote :
    (md5 : List ℕ → List ℕ) (meanwhile : WriteBench → List LeaderChange) (b b' : WriteBench)
    → IsReady b.dbclient
    → submit_rest md5 meanwhile b ≡ ok b'
    → Wrote md5 b b.batch_buffer b'
unfolding submit_some
submit_rest-Wrote md5 meanwhile b b' h e = elim (List-cases b.batch_buffer) [
  | inl nothing ↦
      subst (Wrote md5 b b.batch_buffer)
        (ok_injective (sym (ap (λ xs. submit_some md5 meanwhile xs b) nothing) ∙ e))
        (subst (λ xs. Wrote md5 b xs b) (sym nothing) (nothing-Wrote md5 b h))
  | inr (x, rest, some_left) ↦
      (submit_buffer-Wrote md5 meanwhile b b' h
        (sym (ap (λ xs. submit_some md5 meanwhile xs b) some_left) ∙ e)).0
]

-- A run of the write benchmark that comes to its end, on a client with a positive batch size and one
-- list for each node at most: the records of the stream are routed in their order, while the batches
-- under way change the leaders between the calls of `write`; and for every node, the batches that the
-- client was made to send hold, in order, what waited for it before and the records of the stream
-- that were routed to it, each once, however the stream was cut into chunks and whatever futures
-- were waited for; and nothing waits.
pub bench_conserves :
    (md5 : List ℕ → List ℕ) (meanwhile : WriteBench → List LeaderChange)
    (not_done : List Batch → List Batch) (deliver : List Batch → List (Outcome (Unit {0})))
    (stream : Yielded Record) (client : DbClient) (b : WriteBench)
    → IsReady client
    → run_bench md5 meanwhile not_done deliver stream client ≡ ok b
    → (placed : List Batch) × Placed md5 client.router stream.0 placed b.dbclient.router
      × ((n : Option Node)
          → (items_for n b.handed ≡ lane client.write_buffer n ++ items_for n placed)
            × (lane b.dbclient.write_buffer n ≡ []))
unfolding run_bench flush_client flush
bench_conserves md5 meanwhile not_done deliver stream client b h e =
    let (received, e1, f1) = bind_ok (receive_all md5 meanwhile not_done stream.0 _) _ e in
    let (ended, e2, f2) = bind_ok stream.1 _ f1 in
    let (sent, e3, f3) = bind_ok (submit_rest md5 meanwhile received) _ f2 in
    let (written, first, left) = receive_all-Took md5 meanwhile not_done stream.0 _ received h e1 in
    let second = submit_rest-Wrote md5 meanwhile received sent first.ready e3 in
    let all = append-Wrote md5 _ received sent written received.batch_buffer first second in
    let (awaited, e4, f4) = bind_ok (await_all (deliver (flush sent.dbclient).0)) _ f3 in
    let same = ok_injective f4 in
    (
      all.placed,
      subst (λ (x : WriteBench). Placed md5 client.router stream.0 all.placed x.dbclient.router)
          same
          (subst
            (λ xs.
              Placed md5 client.router xs all.placed
                (see_leaders (meanwhile sent) sent.dbclient).router)
            left
            (then_leaders md5 client.router sent.dbclient.router (written ++ received.batch_buffer)
              all.placed (meanwhile sent) all.routed)),
      λ n.
          let (flushed, nothing) = flush_lem sent.dbclient n second.ready.1 in
          (
            ap (λ (x : WriteBench). items_for n x.handed) (sym same)
                ∙ items_for-append n sent.handed (flush sent.dbclient).0
                ∙ ap (◌++◌ (items_for n sent.handed)) flushed
                ∙ all.owns n
                ∙ unfold items_for in refl,
            subst (λ (x : WriteBench). lane x.dbclient.write_buffer n ≡ []) same nothing,
          ),
    )
