-- ===== src/Client/Write/Ready.antt =====
-- `write` and `flush` keep a client ready for the next call.
use raft_lsmt.Base.{ℕ, ◌<◌, List, [], ◌∷◌, option_key, Outcome-cases, inl, inr}
use raft_lsmt.Base.Dict
use raft_lsmt.Base.Lanes.{IsDistinct, set-IsDistinct}
use raft_lsmt.Client.Datatypes.{Record, node_key}
use raft_lsmt.Client.Db.{DbClient, Buffer}
use raft_lsmt.Client.Write.{group, buffer_node, buffer_all, write, flush_all, flush}
use raft_lsmt.Client.Write.Conserve.{write_routed, write_raised}

-- The buffer of a client can be flushed, and its batches are not empty.
abbrev pub IsReady : DbClient → Type 0
IsReady client = (0 < client.config.batch_size) × IsDistinct client.write_buffer

buffer_all-IsDistinct :
    (size : ℕ) (buffer items : Buffer)
    → IsDistinct buffer
    → IsDistinct (buffer_all size buffer items).1
unfolding buffer_all buffer_node
buffer_all-IsDistinct size buffer [] h = h
buffer_all-IsDistinct size buffer ((k, recs) ∷ rest) h =
    buffer_all-IsDistinct size (buffer_node size buffer k recs).1 rest (set-IsDistinct buffer k _ h)

pub write-IsReady :
    (md5 : List ℕ → List ℕ) (client : DbClient) (records : List Record)
    → IsReady client
    → IsReady (write md5 client records).1
write-IsReady md5 client records h = elim (Outcome-cases (group md5 client.router records []).0) [
  | inl (d, hit) ↦
      rw (write_routed md5 client records d hit)
        (h.0, buffer_all-IsDistinct client.config.batch_size client.write_buffer d h.1)
  | inr (x, miss) ↦ rw (write_raised md5 client records x miss) h
]

flush_all-IsDistinct :
    (buffer items : Buffer) → IsDistinct buffer → IsDistinct (flush_all buffer items).1
unfolding flush_all
flush_all-IsDistinct buffer [] h = h
flush_all-IsDistinct buffer ((k, []) ∷ rest) h = flush_all-IsDistinct buffer rest h
flush_all-IsDistinct buffer ((k, rec ∷ recs) ∷ rest) h =
    flush_all-IsDistinct (Dict.set buffer k []) rest (set-IsDistinct buffer k [] h)

pub flush-IsReady : (client : DbClient) → IsReady client → IsReady (flush client).1
unfolding flush
flush-IsReady client h = (h.0, flush_all-IsDistinct client.write_buffer client.write_buffer h.1)
