-- ===== src/Mock/WriteHandler/Acks.antt =====
-- What the mock server acknowledges of a batch, in whatever pieces it arrives.
use native.Mathlib.Decide.{dec_le}
use native.Mathlib.Nat.{zero-add, suc-add}
use raft_lsmt.Base.{
  ok_injective, ◌-◌, length-replicate, ◌==◌, nat_key, ℕ, zero, suc, ◌+◌, ◌-◌, ◌<◌, ◌≤◌, ◌≡◌, refl,
  sym, ap, ◌∙◌, List, [], ◌∷◌, ◌++◌, append_assoc, arith, length, length-append, length-drop,
  take-append-drop, take-append_exact, drop-append_exact, replicate, take, drop, All, concat, false,
  ok, Outcome,
}
use raft_lsmt.Client.Datatypes.{Node, Record, Content, int, raw}
use raft_lsmt.Client.Struct.{unpack_at, of_le, to_le}
use raft_lsmt.Client.Wire.Batch.{take_messages}
use raft_lsmt.Client.Wire.Batch.Framing.{
  Fits, IsSendable, body, messages, take_body, take_nothing, length-body, length-messages,
  serialize_messages,
}
use raft_lsmt.Client.Wire.Stream.Chunks.{take-append_le, drop-append_le}
use raft_lsmt.Client.Wire.Stream.{Arrival, chunk, closed, timeout, put_back}
use raft_lsmt.Client.Wire.Stream.Chunks.{stream, stream-put_back, recv_exact_reads}
use raft_lsmt.Client.Wire.Batch.{serialize_batch}
use raft_lsmt.Client.Send.{socket, acknowledged, attempt, recv, read_acks, read_reply}
use raft_lsmt.Mock.WriteHandler.{receive_data, receive_pieces, serve_write}

-- The size field of a message of which four bytes at least have arrived.
size_of_part :
    (k t : ℕ) (c : Content) (part rest more : List ℕ)
    → Fits c
    → 4 ≤ length part
    → part ++ rest ≡ body k t c ++ more
    → unpack_at 4 0 part ≡ 33
unfolding unpack_at of_le to_le
size_of_part k t (int v) part rest more fits h e =
    ap of_le (sym (take-append_le 4 part rest h) ∙ ap (take 4) e)
size_of_part k t (raw bytes) part rest more fits h e = absurd fits

-- A message that has not arrived whole is left alone.
take_part :
    (fuel : ℕ) (k t : ℕ) (c : Content) (part rest more : List ℕ)
    → Fits c
    → length part < 33
    → part ++ rest ≡ body k t c ++ more
    → take_messages fuel part ≡ (0, part)
unfolding take_messages
take_part zero k t c part rest more fits h e = refl
take_part (suc fuel) k t c part rest more fits h e = elim (dec_le 4 (length part)) [
  | no short ↦ ground arith
  | yes long ↦ let size = size_of_part k t c part rest more fits long e in ground (arith, size)
]

-- What the loop leaves of a part of a stream of messages: those taken off, those left, the bytes
-- kept, and that they are less than a message.
abbrev Taken : ℕ → List ℕ → List ℕ → List Record → Type 0
Taken fuel part rest recs =
    (n : ℕ) × (left : List Record) × (kept : List ℕ) × (take_messages fuel part ≡ (n, kept))
    × (n + length left ≡ length recs)
    × All IsSendable left
    × (kept ++ rest ≡ messages left)
    × (length kept < 33)

-- A message that has arrived whole is taken off the part.
split_off :
    (b part rest more : List ℕ)
    → length b ≡ 33
    → 33 ≤ length part
    → part ++ rest ≡ b ++ more
    → (part ≡ b ++ drop 33 part) × (drop 33 part ++ rest ≡ more)
split_off b part rest more whole long e =
    let front : take 33 part ≡ b =
      sym (take-append_le 33 part rest long)
      ∙ ap (take 33) e
      ∙ ap (λ n. take n (b ++ more)) (sym whole)
      ∙ take-append_exact b more in
    (
      sym (take-append-drop 33 part) ∙ ap (λ xs. xs ++ drop 33 part) front,
      sym (drop-append_le 33 part rest long)
          ∙ ap (drop 33) e
          ∙ ap (λ n. drop n (b ++ more)) (sym whole)
          ∙ drop-append_exact b more,
    )

take_prefix :
    (recs : List Record) (fuel : ℕ) (part rest : List ℕ)
    → All IsSendable recs
    → length part ≤ fuel
    → part ++ rest ≡ messages recs
    → Taken fuel part rest recs
take_prefix [] fuel [] rest h le e = (0, [], [], take_nothing fuel, omega arith, tt, e, omega arith)
take_prefix [] fuel (b ∷ part) rest h le e = absurd (cc)
take_prefix (rec ∷ recs) zero part rest h le e = (
  0,
  rec ∷ recs,
  part,
  take_part zero rec.key_id rec.timestamp rec.content part rest (messages recs) h.0.2 (omega arith)
      e,
  omega arith,
  h,
  e,
  omega arith,
)
take_prefix (rec ∷ recs) (suc fuel) part rest h le e = elim (dec_le 33 (length part)) [
  | no short ↦ (
    0,
    rec ∷ recs,
    part,
    take_part (suc fuel) rec.key_id rec.timestamp rec.content part rest (messages recs) h.0.2
        (omega arith) e,
    omega arith,
    h,
    e,
    omega arith,
  )
  | yes long ↦
      let b = body rec.key_id rec.timestamp rec.content in
      let (pe, re) =
        split_off b part rest (messages recs)
          (length-body rec.key_id rec.timestamp rec.content h.0.2) long e in
      let (n, left, kept, te, count, hl, ke, kl) =
        take_prefix recs fuel (drop 33 part) rest h.1 (omega (arith, length-drop 33 part)) re in
      (
        n + 1,
        left,
        kept,
        ap (take_messages (suc fuel)) pe
            ∙ take_body rec.key_id rec.timestamp rec.content fuel (drop 33 part) h.0.2
            ∙ ap (λ p. (p.0 + 1, p.1)) te,
        omega (arith, count),
        hl,
        ke,
        kl,
      )
]

replicate-append : (a b : ℕ) → replicate a 0 ++ replicate b 0 ≡ replicate {A = ℕ} (a + b) 0
replicate-append zero b = ap (λ n. replicate n 0) (sym (zero-add b))
replicate-append (suc a) b =
    ap (◌∷◌ 0) (replicate-append a b) ∙ ap (λ n. replicate n 0) (sym (suc-add a b))

-- From a buffer that holds part of a message at most.
receive_rest :
    (recs : List Record) (buffer : List ℕ) (pieces : List (List ℕ))
    → All IsSendable recs
    → length buffer < 33
    → buffer ++ concat pieces ≡ messages recs
    → receive_pieces buffer pieces ≡ (replicate (length recs) 0, [])
unfolding receive_pieces receive_data
receive_rest [] [] [] h short e = refl
receive_rest [] (b ∷ buffer) [] h short e = absurd (cc)
receive_rest (rec ∷ recs) buffer [] h short e =
    absurd (omega (arith, length-append buffer [], length-messages (rec ∷ recs) h, ap length e))
receive_rest recs buffer (piece ∷ pieces) h short e =
    let got = buffer ++ piece in
    let (n, left, kept, te, count, hl, ke, kl) =
      take_prefix recs (length got) got (concat pieces) h (omega arith)
        (append_assoc buffer piece (concat pieces) ∙ e) in
    let later = receive_rest left kept pieces hl kl ke in
    rw (te, later)
      (ap (λ xs. (xs, [])) (replicate-append n (length left) ∙ ap (λ k. replicate k 0) count))

serve_messages :
    (batch : List Record) (pieces : List (List ℕ))
    → All IsSendable batch
    → concat pieces ≡ messages batch
    → serve_write pieces ≡ replicate (length batch) 0
unfolding serve_write
serve_messages batch pieces h cut = ap (λ p. p.0) (receive_rest batch [] pieces h (omega arith) cut)

-- The remaining acknowledgements have arrived.
read_acks_arrived :
    (n : ℕ) (arrivals : List Arrival)
    → n ≤ length (stream arrivals)
    → read_acks n arrivals ≡ ok acknowledged
unfolding read_acks
read_acks_arrived n arrivals h =
    let (rest, e, left) = recv_exact_reads n arrivals h in rw e (ground arith)

-- A client to which an acknowledgement for each record arrives takes the batch as acknowledged.
acks_suffice :
    (decode : List ℕ → List ℕ) (nodes : List Node) (batch : List Record) (payload : List ℕ)
    (sendall : List ℕ → Outcome (List Arrival)) (arrivals : List Arrival) (n : ℕ)
    → serialize_batch batch ≡ ok payload
    → length batch ≡ suc n
    → sendall payload ≡ ok arrivals
    → stream arrivals ≡ replicate (suc n) 0
    → attempt decode nodes batch (socket sendall) ≡ ok acknowledged
unfolding attempt recv read_reply
acks_suffice decode nodes batch payload sendall [] n sent count given back = absurd (cc)
acks_suffice decode nodes batch payload sendall (closed ∷ rest) n sent count given back =
    absurd (cc)
acks_suffice decode nodes batch payload sendall (timeout ∷ rest) n sent count given back =
    absurd (cc)
acks_suffice decode nodes batch payload sendall (chunk b bs ∷ rest) n sent count given back =
    let no_r : (b == 82) ≡ false = let first : b ≡ 0 = cc in rw first refl in
    let more : n ≤ length (stream (put_back bs rest)) =
      let tail : bs ++ stream rest ≡ replicate n 0 = cc in
      omega (arith, ap length (stream-put_back bs rest ∙ tail), length-replicate {A = ℕ} n 0) in
    let remaining : length batch - 1 ≡ n = omega arith in
    rw (sent, attempt)
      (rw given
        (rw (no_r, read_reply) (rw remaining (read_acks_arrived n (put_back bs rest) more))))

-- However a batch of records that fit is cut into pieces on the way, the server answers all of it
-- with one byte for each record, and a client to which these bytes arrive, in whatever pieces,
-- takes the batch as acknowledged.
pub write_acknowledged :
    (decode : List ℕ → List ℕ) (nodes : List Node) (batch : List Record) (pieces : List (List ℕ))
    (payload : List ℕ) (sendall : List ℕ → Outcome (List Arrival)) (arrivals : List Arrival)
    → All IsSendable batch
    → 0 < length batch
    → serialize_batch batch ≡ ok payload
    → concat pieces ≡ payload
    → sendall payload ≡ ok arrivals
    → stream arrivals ≡ serve_write pieces
    → (length (serve_write pieces) ≡ length batch)
      × (attempt decode nodes batch (socket sendall) ≡ ok acknowledged)
write_acknowledged decode nodes batch pieces payload sendall arrivals h some_record sent cut given
      back =
    let all_acked : serve_write pieces ≡ replicate (length batch) 0 =
      serve_messages batch pieces h (cut ∙ ok_injective (sym sent ∙ serialize_messages batch h)) in
    let n = length batch - 1 in
    let count : length batch ≡ suc n = omega arith in
    (
      ap length all_acked ∙ length-replicate (length batch) 0,
      acks_suffice decode nodes batch payload sendall arrivals n sent count given
          (back ∙ all_acked ∙ ap (λ k. replicate k 0) count),
    )
