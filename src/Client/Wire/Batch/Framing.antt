-- ===== src/Client/Wire/Batch/Framing.antt =====
-- The framing of a batch: every record is one message of 33 bytes, and the receiver counts as many
-- messages as the client has records, which is the number of acknowledgements the client waits for.
use native.Mathlib.Numerals.{add-one}
use raft_lsmt.Base.{
  ◌⊎◌, inl, inr, Any, here, there, ℕ, zero, suc, ◌+◌, ◌*◌, ◌^◌, ◌<◌, ◌≤◌, ◌≡◌, refl, ◌∙◌, sym, List,
  [], ◌∷◌, ◌++◌, arith, length, length-append, All, ok, raise, ◌>>=◌, struct_error, append_assoc,
}
use native.Mathlib.Decide.{dec_lt}
use raft_lsmt.Client.Datatypes.{Record, Content, int, raw}
use raft_lsmt.Client.Struct.{
  to_le, of_le, pack_uint, pack_qq, pack_uint_fits, pack_qq_fits, unpack_at,
}
use raft_lsmt.Client.Wire.Batch.{
  lsmt_type_int, pack_int, pack_content, pack_any, serialize_content, serialize_batch,
  take_messages,
}

-- A record that the format holds: an integer, and three 64-bit numbers.
abbrev pub Fits : Content → Type 0
Fits (int v) = v < 2 ^ 64
Fits (raw bytes) = ⊥

abbrev pub IsSendable : Record → Type 0
IsSendable rec = (rec.key_id < 2 ^ 64) × (rec.timestamp < 2 ^ 64) × Fits rec.content

-- The 33 bytes of an integer record.
abbrev pub message : ℕ → ℕ → ℕ → List ℕ
message k t v = to_le 4 33 ++ (to_le 8 k ++ to_le 8 t) ++ to_le 1 1 ++ to_le 4 8 ++ to_le 8 v

pack_int_fits :
    (k t v : ℕ) → k < 2 ^ 64 → t < 2 ^ 64 → v < 2 ^ 64 → pack_int k t v ≡ ok (message k t v)
unfolding pack_int
pack_int_fits k t v hk ht hv = rw (
  pack_uint_fits 4 33 (omega arith),
  pack_qq_fits k t hk ht,
  pack_uint_fits 1 1 (omega arith),
  pack_uint_fits 4 8 (omega arith),
  pack_uint_fits 8 v (omega arith),
)

-- The size that the general branch computes is the constant of the special case.
outer_size :
    (k t v : ℕ)
    → 4 + length ((to_le 8 k ++ to_le 8 t) ++ (to_le 1 lsmt_type_int ++ to_le 4 8 ++ to_le 8 v))
      ≡ 33
unfolding to_le
outer_size k t v = refl

pack_any_fits :
    (k t v : ℕ) → k < 2 ^ 64 → t < 2 ^ 64 → v < 2 ^ 64 → pack_any k t (int v) ≡ ok (message k t v)
unfolding pack_any pack_content
pack_any_fits k t v hk ht hv =
    rw
      (
        pack_uint_fits 1 1 (omega arith),
        pack_uint_fits 4 8 (omega arith),
        pack_uint_fits 8 v (omega arith),
        pack_qq_fits k t hk ht,
        outer_size k t v,
        pack_uint_fits 4 33 (omega arith),
      )
      (simp append_assoc)

abbrev pub body : ℕ → ℕ → Content → List ℕ
body k t (int v) = message k t v
body k t (raw bytes) = []

serialize_content-Fits :
    (k t : ℕ) (c : Content)
    → (k < 2 ^ 64) × (t < 2 ^ 64) × Fits c
    → serialize_content k t c ≡ ok (body k t c)
unfolding serialize_content
serialize_content-Fits k t (int v) h = pack_int_fits k t v h.0 h.1 h.2
serialize_content-Fits k t (raw bytes) h = absurd h.2

abbrev ThreeFit : ℕ → ℕ → ℕ → Type 0
ThreeFit k t v = (k < 2 ^ 64) × (t < 2 ^ 64) × (v < 2 ^ 64)

three_fit : (k t v : ℕ) → Dec (ThreeFit k t v)
three_fit k t v = elim (dec_lt k (2 ^ 64)) [
  | no a ↦ no (λ h. a h.0)
  | yes a ↦ elim (dec_lt t (2 ^ 64)) [
    | no b ↦ no (λ h. b h.1)
    | yes b ↦ elim (dec_lt v (2 ^ 64)) [ no c ↦ no (λ h. c h.2) | yes c ↦ yes (a, b, c) ]
  ]
]

pack_int_raises : (k t v : ℕ) → ¬ ThreeFit k t v → pack_int k t v ≡ raise struct_error
unfolding pack_int pack_qq pack_uint
pack_int_raises k t v h = ground arith

pack_any_raises : (k t v : ℕ) → ¬ ThreeFit k t v → pack_any k t (int v) ≡ raise struct_error
unfolding pack_any pack_content pack_qq pack_uint
pack_any_raises k t v h = ground arith

fitting :
    (k t : ℕ) (c : Content)
    → ((k < 2 ^ 64) × (t < 2 ^ 64) × Fits c) ⊎ ¬ ((k < 2 ^ 64) × (t < 2 ^ 64) × Fits c)
fitting k t (int v) = elim (three_fit k t v) [ yes h ↦ inl h | no h ↦ inr h ]
fitting k t (raw bytes) = inr (λ h. h.2)

-- The special case for integers writes what the other branch would write for them, and raises
-- where it would.
pack_any_int : (k t v : ℕ) → pack_any k t (int v) ≡ pack_int k t v
pack_any_int k t v = elim (three_fit k t v) [
  | yes (a, b, c) ↦ pack_any_fits k t v a b c ∙ sym (pack_int_fits k t v a b c)
  | no h ↦ pack_any_raises k t v h ∙ sym (pack_int_raises k t v h)
]

-- What the client sends for a batch of records that all fit.
abbrev pub messages : List Record → List ℕ
messages [] = []
messages (rec ∷ recs) = body rec.key_id rec.timestamp rec.content ++ messages recs

pub serialize_messages :
    (recs : List Record) → All IsSendable recs → serialize_batch recs ≡ ok (messages recs)
unfolding serialize_batch serialize_content
serialize_messages [] h = refl
serialize_messages (rec ∷ recs) h =
    rw
      (serialize_content-Fits rec.key_id rec.timestamp rec.content h.0, serialize_messages recs h.1)

-- One round of the receiver on a message that lies whole at the front.
take_message :
    (fuel k t v : ℕ) (more : List ℕ)
    → take_messages (suc fuel) (message k t v ++ more)
      ≡ ((take_messages fuel more).0 + 1, (take_messages fuel more).1)
unfolding take_messages unpack_at to_le of_le
take_message fuel k t v more = ground arith

pub take_body :
    (k t : ℕ) (c : Content) (fuel : ℕ) (more : List ℕ)
    → Fits c
    → take_messages (suc fuel) (body k t c ++ more)
      ≡ ((take_messages fuel more).0 + 1, (take_messages fuel more).1)
take_body k t (int v) fuel more h = take_message fuel k t v more
take_body k t (raw bytes) fuel more h = absurd h

pub length-body : (k t : ℕ) (c : Content) → Fits c → length (body k t c) ≡ 33
unfolding to_le
length-body k t (int v) h = refl
length-body k t (raw bytes) h = absurd h

content_raises :
    (k t : ℕ) (c : Content)
    → ¬ ((k < 2 ^ 64) × (t < 2 ^ 64) × Fits c)
    → serialize_content k t c ≡ raise struct_error
unfolding serialize_content pack_any pack_content pack_uint
content_raises k t (int v) h = pack_int_raises k t v h
content_raises k t (raw bytes) h = refl

-- A serialisation returns or raises `struct.error`, and then what follows it is lost.
either :
    (k t : ℕ) (c : Content)
    → ◌>>=◌ {B = List ℕ} (serialize_content k t c) (λ front. raise struct_error)
      ≡ raise struct_error
either k t c = elim (fitting k t c) [
  | inl h ↦ rw (serialize_content-Fits k t c h)
  | inr h ↦ rw (content_raises k t c h)
]

pub take_nothing : (fuel : ℕ) → take_messages fuel [] ≡ (0, [])
unfolding take_messages
take_nothing zero = refl
take_nothing (suc fuel) = refl

take_batch :
    (recs : List Record) (fuel : ℕ)
    → All IsSendable recs
    → length recs ≤ fuel
    → take_messages fuel (messages recs) ≡ (length recs, [])
take_batch [] fuel h le = take_nothing fuel
take_batch (rec ∷ recs) zero h le = absurd (omega arith)
take_batch (rec ∷ recs) (suc fuel) h le =
    take_body rec.key_id rec.timestamp rec.content fuel (messages recs) h.0.2
    ∙ rw (take_batch recs fuel h.1 (omega arith), add-one)

pub length-messages :
    (recs : List Record) → All IsSendable recs → length (messages recs) ≡ 33 * length recs
length-messages [] h = refl
length-messages (rec ∷ recs) h = omega (
  arith,
  length-append (body rec.key_id rec.timestamp rec.content) (messages recs),
  length-body rec.key_id rec.timestamp rec.content h.0.2,
  length-messages recs h.1,
)

-- A batch of records that fit is serialised to 33 bytes for each, and the receiver, given a round
-- for each record at least, counts exactly one message for each and keeps nothing.
pub batch_framing :
    (recs : List Record) (fuel : ℕ)
    → All IsSendable recs
    → length recs ≤ fuel
    → (bytes : List ℕ) × (serialize_batch recs ≡ ok bytes)
      × (length bytes ≡ 33 * length recs)
      × (take_messages fuel bytes ≡ (length recs, []))
batch_framing recs fuel h le =
    (messages recs, serialize_messages recs h, length-messages recs h, take_batch recs fuel h le)

-- A batch with a record that does not fit is not sent in part: it raises.
pub batch_raises :
    (recs : List Record)
    → Any (λ rec. ¬ IsSendable rec) recs
    → serialize_batch recs ≡ raise struct_error
unfolding serialize_batch
batch_raises [] m = elim m [ ]
batch_raises (rec ∷ recs) (here bad) = rw (content_raises rec.key_id rec.timestamp rec.content bad)
batch_raises (rec ∷ recs) (there m) =
    rw (batch_raises recs m) (either rec.key_id rec.timestamp rec.content)
