-- ===== src/Client/Wire/Response/Records.antt =====
-- What `_parse_response` reads from a body in the server's format.
use native.Mathlib.Nat.{zero-add, suc-add}
use raft_lsmt.Base.{
  ℕ, zero, suc, ◌+◌, ◌^◌, ◌<◌, ◌≤◌, ◌≡◌, refl, sym, ap, ◌∙◌, List, [], ◌∷◌, ◌++◌, append_assoc,
  append-nil, arith, length, length-append, length-drop, take, drop, take-append_exact,
  drop-append_exact, ltb, All, true, false, nat_key,
}
use raft_lsmt.Client.Datatypes.{Record, Content, int, raw}
use raft_lsmt.Client.Struct.{to_le, of_le, of_le-to_le, unpack_at, length-to_le}
use raft_lsmt.Client.Wire.Response.{Header, parse_response, parse_content, record_at, parse_records}

-- The format: key, timestamp, type, size and bytes of the content; a type other than 1 stands for
-- bytes, here 0.
abbrev pub type_of : Content → ℕ
type_of (int v) = 1
type_of (raw bytes) = 0

abbrev pub bytes_of : Content → List ℕ
bytes_of (int v) = to_le 8 v
bytes_of (raw bytes) = bytes

abbrev pub encode : Record → List ℕ
encode r =
    (to_le 8 r.key_id
      ++ to_le 8 r.timestamp
      ++ to_le 1 (type_of r.content)
      ++ to_le 4 (length (bytes_of r.content)))
    ++ bytes_of r.content

abbrev pub encode_all : List Record → List ℕ
encode_all [] = []
encode_all (r ∷ rs) = encode r ++ encode_all rs

abbrev pub ContentFits : Content → Type 0
ContentFits (int v) = v < 2 ^ 64
ContentFits (raw bytes) = length bytes < 2 ^ 32

abbrev pub Fits : Record → Type 0
Fits r = (r.key_id < 2 ^ 64) × (r.timestamp < 2 ^ 64) × ContentFits r.content

drop_nil : (n : ℕ) → drop {A = ℕ} n [] ≡ []
drop_nil zero = refl
drop_nil (suc n) = refl

drop-drop : (n m : ℕ) (xs : List ℕ) → drop (n + m) xs ≡ drop m (drop n xs)
drop-drop zero m xs = rw zero-add
drop-drop (suc n) m [] = drop_nil (suc n + m) ∙ sym (drop_nil m)
drop-drop (suc n) m (x ∷ xs) = rw suc-add (drop-drop n m xs)

-- The reading of one record at the front of a list.
front_fields :
    (k t y size : ℕ) (more : List ℕ)
    → let front = (to_le 8 k ++ to_le 8 t ++ to_le 1 y ++ to_le 4 size) ++ more in
      (unpack_at 8 0 front ≡ of_le (to_le 8 k))
      × (unpack_at 8 8 front ≡ of_le (to_le 8 t))
      × (unpack_at 1 16 front ≡ of_le (to_le 1 y))
      × (unpack_at 4 17 front ≡ of_le (to_le 4 size))
      × (drop 21 front ≡ more)
      × (length front ≡ 21 + length more)
unfolding unpack_at to_le
front_fields k t y size more = (refl, refl, refl, refl, refl, omega arith)

parse_content_lem :
    (c : Content) → ContentFits c → parse_content (type_of c) (length (bytes_of c)) (bytes_of c) ≡ c
unfolding parse_content
parse_content_lem (int v) h = rw (length-to_le 8 v) (ap int (of_le-to_le 8 v (omega arith)))
parse_content_lem (raw bytes) h = refl

type_of-lt : (c : Content) → type_of c < 256
type_of-lt (int v) = omega arith
type_of-lt (raw bytes) = omega arith

length-bytes_of : (c : Content) → ContentFits c → length (bytes_of c) < 2 ^ 32
length-bytes_of (int v) h = omega (arith, length-to_le 8 v)
length-bytes_of (raw bytes) h = h

stop :
    (count offset : ℕ) (body cut : List ℕ)
    → drop offset body ≡ cut
    → length cut < 21
    → parse_records count offset body ≡ []
unfolding parse_records
stop zero offset body cut left short = refl
stop (suc count) offset body cut left short =
    let over : ltb (length body) (offset + 21) ≡ true =
      ground (arith, length-drop offset body, ap length left) in
    rw over

module _ (r : Record) (fits : Fits r) (body more : List ℕ) (offset : ℕ)
    (front : drop offset body ≡ encode r ++ more) where
  size : ℕ
  size = length (bytes_of r.content)

  behind : List ℕ
  behind = bytes_of r.content ++ more

  at_front :
      drop offset body
      ≡ (to_le 8 r.key_id ++ to_le 8 r.timestamp ++ to_le 1 (type_of r.content) ++ to_le 4 size)
        ++ behind
  unfolding size behind
  at_front = front ∙ append_assoc _ (bytes_of r.content) more

  field_at : (w n : ℕ) → unpack_at w (offset + n) body ≡ unpack_at w n (drop offset body)
  unfolding unpack_at
  field_at w n = ap (λ (t : List ℕ). of_le (take w t)) (drop-drop offset n body)

  header :
      let front =
        (to_le 8 r.key_id ++ to_le 8 r.timestamp ++ to_le 1 (type_of r.content) ++ to_le 4 size)
        ++ behind in
      (unpack_at 8 0 front ≡ of_le (to_le 8 r.key_id))
      × (unpack_at 8 8 front ≡ of_le (to_le 8 r.timestamp))
      × (unpack_at 1 16 front ≡ of_le (to_le 1 (type_of r.content)))
      × (unpack_at 4 17 front ≡ of_le (to_le 4 size))
      × (drop 21 front ≡ behind)
      × (length front ≡ 21 + length behind)
  header = front_fields r.key_id r.timestamp (type_of r.content) size behind

  size_read : unpack_at 4 (offset + 17) body ≡ size
  size_read =
      field_at 4 17
      ∙ rw at_front header.3
      ∙ of_le-to_le 4 size (unfold size in length-bytes_of r.content fits.2)

  key_read : unpack_at 8 offset body ≡ r.key_id
  unfolding unpack_at
  key_read =
      ap (λ (t : List ℕ). of_le (take 8 t)) at_front
      ∙ header.0
      ∙ of_le-to_le 8 r.key_id (omega arith)

  timestamp_read : unpack_at 8 (offset + 8) body ≡ r.timestamp
  timestamp_read = field_at 8 8 ∙ rw at_front header.1 ∙ of_le-to_le 8 r.timestamp (omega arith)

  type_read : unpack_at 1 (offset + 16) body ≡ type_of r.content
  type_read =
      field_at 1 16
      ∙ rw at_front header.2
      ∙ of_le-to_le 1 (type_of r.content) (omega (arith, type_of-lt r.content))

  bytes_read : take size (drop (offset + 21) body) ≡ bytes_of r.content
  bytes_read =
      ap (take size) (drop-drop offset 21 body ∙ ap (drop 21) at_front ∙ header.4)
      ∙ (unfold size behind in take-append_exact (bytes_of r.content) more)

  content_read :
      parse_content (unpack_at 1 (offset + 16) body) size (take size (drop (offset + 21) body))
      ≡ r.content
  content_read = rw (type_read, bytes_read) (unfold size in parse_content_lem r.content fits.2)

  record_read : record_at offset size body ≡ r
  unfolding record_at
  record_read =
      λ i. record { key_id = key_read i; timestamp = timestamp_read i; content = content_read i }

  room : offset + 21 + size ≤ length body
  unfolding size behind
  room = omega (
    arith,
    length-drop offset body,
    ap length at_front,
    header.5,
    length-append (bytes_of r.content) more,
  )

  next : drop (offset + 21 + size) body ≡ more
  next =
      drop-drop (offset + 21) size body
      ∙ ap (drop size) (drop-drop offset 21 body ∙ ap (drop 21) at_front ∙ header.4)
      ∙ (unfold size behind in drop-append_exact (bytes_of r.content) more)

  -- One round of the loop on a record that lies whole at the offset.
  parse_one :
      (count : ℕ)
      → parse_records (suc count) offset body ≡ r ∷ parse_records count (offset + 21 + size) body
  unfolding parse_records
  parse_one count =
      let head_fits : ltb (length body) (offset + 21) ≡ false = ground (arith, room) in
      let all_fits : ltb (length body) (offset + 21 + size) ≡ false = ground (arith, room) in
      rw (size_read, head_fits, all_fits, record_read)

-- The records at the front are read, and the loop goes on behind them.
parse_encoded :
    (rs : List Record) (count offset : ℕ) (body more : List ℕ)
    → All Fits rs
    → drop offset body ≡ encode_all rs ++ more
    → (end : ℕ) × (parse_records (length rs + count) offset body
        ≡ rs ++ parse_records count end body)
      × (drop end body ≡ more)
parse_encoded [] count offset body more h front = (offset, rw zero-add, front)
parse_encoded (r ∷ rs) count offset body more h front =
    let front' = front ∙ append_assoc (encode r) (encode_all rs) more in
    let behind' = encode_all rs ++ more in
    let offset' = offset + 21 + size r h.0 body behind' offset front' in
    let (end, e, left) =
      parse_encoded rs count offset' body more h.1 (next r h.0 body behind' offset front') in
    (
      end,
      rw suc-add (parse_one r h.0 body behind' offset front' (length rs + count) ∙ ap (◌∷◌ r) e),
      left,
    )

stop_at_zero : (rs : List Record) (end : ℕ) (body : List ℕ) → rs ++ parse_records 0 end body ≡ rs
unfolding parse_records
stop_at_zero rs end body = append-nil rs

length-encode : (r : Record) → 0 < length (encode r)
unfolding to_le
length-encode r = omega arith

-- A body in the server's format, whatever follows it, is read back as the records that it encodes,
-- keys, timestamps and contents, where the header counts them.
pub parse_response_records :
    (header : Header) (rs : List Record) (more : List ℕ)
    → All Fits rs
    → header.records_count ≡ length rs
    → (parse_response header (encode_all rs ++ more) false).records ≡ rs
unfolding parse_response
parse_response_records header [] more h counted = ground arith
parse_response_records header (r ∷ rs) more h counted =
    let body = encode_all (r ∷ rs) ++ more in
    let (end, e, left) = parse_encoded (r ∷ rs) 0 0 body more h refl in
    let count : header.records_count ≡ length (r ∷ rs) + 0 = omega arith in
    let full : parse_records header.records_count 0 body ≡ r ∷ rs =
      ap (λ (t : ℕ). parse_records t 0 body) count ∙ e ∙ stop_at_zero (r ∷ rs) end body in
    let some_bytes : ltb 0 (length body) ≡ true = ground (
      arith,
      length-encode r,
      length-append (encode r) (encode_all rs ++ more),
      ap length (append_assoc (encode r) (encode_all rs) more),
    ) in
    let some_records : ltb 0 header.records_count ≡ true = ground arith in
    rw (some_bytes, some_records) full

-- A body that is cut off inside a record, so that less than the 21 bytes before a content are left,
-- is read as the whole records before the cut, however many the header counts beyond them.
parse_records_cut :
    (rs : List Record) (count : ℕ) (cut : List ℕ)
    → All Fits rs
    → length cut < 21
    → parse_records (length rs + count) 0 (encode_all rs ++ cut) ≡ rs
parse_records_cut rs count cut h short =
    let body = encode_all rs ++ cut in
    let (end, e, left) = parse_encoded rs count 0 body cut h refl in
    e ∙ ap (◌++◌ rs) (stop count end body cut left short) ∙ append-nil rs
