-- ===== src/Mock/ReadHandler/Answers.antt =====
-- What a client reads of the mock server's answer.
use raft_lsmt.Base.{
  ℕ, zero, suc, ◌+◌, ◌-◌, ◌*◌, ◌^◌, ◌<◌, ◌≤◌, ◌≡◌, refl, sym, ap, ◌∙◌, List, [], ◌∷◌, ◌++◌,
  append-nil, arith, length, length-append, take, drop, take-append_exact, drop-append_exact, All,
  ok, ok_injective, ltb, ◌==◌, nat_key, true, false, Bool, not, if◌then◌else◌,
}
use raft_lsmt.Client.Datatypes.{Record, int, QueryRequest}
use raft_lsmt.Client.Struct.{to_le, pack_uint_fits, pack_qq_fits}
use raft_lsmt.Client.Wire.Request.{
  Request, IsQuery, pack_request, unpack_request, request_roundtrip,
}
use raft_lsmt.Client.Wire.Response.{
  Header, Response, query_resp_header_size, unpack_header, parse_response,
}
use raft_lsmt.Client.Wire.Response.HeaderFormat.{HeaderFits, header_roundtrip}
use raft_lsmt.Client.Wire.Response.Records.{Fits, encode, encode_all, parse_response_records}
use raft_lsmt.Client.Wire.Stream.{Arrival}
use raft_lsmt.Client.Wire.Stream.Chunks.{stream, recv_exact_reads}
use raft_lsmt.Client.Send.{replies}
use raft_lsmt.Client.Query.{read_body, read_answer, exchange}
use raft_lsmt.Mock.ReadHandler.{
  fake_count, fake_record, fake_body, actual_max_id, answer_header, handle_request, handle_read,
}

-- The records that the server makes up.
abbrev pub fake_records : ℕ → ℕ → List Record
fake_records key_id zero = []
fake_records key_id (suc count) =
    record { key_id = key_id; timestamp = 0; content = int (key_id * 10) }
    ∷ fake_records (suc key_id) count

-- A key whose content fits too.
abbrev IsKey : ℕ → Type 0
IsKey key_id = key_id * 10 < 2 ^ 64

fake_record_lem :
    (key_id : ℕ)
    → IsKey key_id
    → fake_record key_id
      ≡ ok (encode (record { key_id = key_id; timestamp = 0; content = int (key_id * 10) }))
unfolding fake_record
fake_record_lem key_id h =
    rw
      (
        pack_uint_fits 8 (key_id * 10) (omega arith),
        pack_qq_fits key_id 0 (omega arith) (omega arith),
        pack_uint_fits 1 1 (omega arith),
        pack_uint_fits 4 8 (omega arith),
      )
      (unfold to_le in refl)

length-encode_one :
    (k : ℕ) → length (encode (record { key_id = k; timestamp = 0; content = int (k * 10) })) ≡ 29
unfolding to_le
length-encode_one k = refl

fake_body_lem :
    (key_id count : ℕ)
    → (key_id + count) * 10 ≤ 2 ^ 64
    → (fake_body key_id count ≡ ok (encode_all (fake_records key_id count)))
      × All Fits (fake_records key_id count)
      × (length (encode_all (fake_records key_id count)) ≡ 29 * count)
      × (length (fake_records key_id count) ≡ count)
unfolding fake_body
fake_body_lem key_id zero h = (refl, tt, refl, refl)
fake_body_lem key_id (suc count) h =
    let (body, fits, size, number) = fake_body_lem (suc key_id) count (omega arith) in
    let one : Record = record { key_id = key_id; timestamp = 0; content = int (key_id * 10) } in
    (
      rw (fake_record_lem key_id (omega arith), body) refl,
      ((omega arith, omega arith, omega arith), fits),
      omega (
        arith,
        length-append (encode one) (encode_all (fake_records (suc key_id) count)),
        size,
        length-encode_one key_id,
      ),
      omega (arith, number),
    )

-- What the client is to make of the answer to a request.
abbrev pub fake_response : ℕ → QueryRequest → Response
fake_response req_id query =
    let count = fake_count query.min_id query.max_id in
    let last = actual_max_id query.min_id count in
    record {
      req_id = req_id;
      limit_reached = ltb last query.max_id;
      min_id = query.min_id;
      min_ts = 0;
      max_id = last;
      max_ts = 0;
      records_bytes = 29 * count;
      records_count = count;
      records = fake_records query.min_id count;
    }

abbrev request_of : ℕ → QueryRequest → Request
request_of req_id query = record {
  req_id = req_id;
  min_id = query.min_id;
  min_ts = query.min_ts;
  max_id = query.max_id;
  max_ts = query.max_ts;
}

fake_count_le : (min_id max_id : ℕ) → fake_count min_id max_id ≤ 10
unfolding fake_count
fake_count_le min_id max_id = omega arith

abbrev header_for : ℕ → QueryRequest → Header
header_for req_id query =
    let count = fake_count query.min_id query.max_id in
    answer_header (request_of req_id query) count (29 * count)

header_for-HeaderFits :
    (req_id : ℕ) (query : QueryRequest)
    → req_id < 2 ^ 64
    → (query.min_id + 10) * 10 ≤ 2 ^ 64
    → HeaderFits (header_for req_id query)
unfolding fake_count actual_max_id
header_for-HeaderFits req_id query hr hk = record {
  total_size_fits = omega arith;
  req_id_fits = hr;
  limit_reached_fits = ground arith;
  min_id_fits = omega arith;
  min_ts_fits = omega arith;
  max_id_fits = omega arith;
  max_ts_fits = omega arith;
  records_bytes_fits = omega arith;
  records_count_fits = omega arith;
}

-- The bytes of an answer: a header that reads back, and the records.
handle_read_lem :
    (req_id : ℕ) (query : QueryRequest) (request : List ℕ)
    → req_id < 2 ^ 64
    → IsQuery query
    → (query.min_id + 10) * 10 ≤ 2 ^ 64
    → pack_request req_id query ≡ ok request
    → (header : List ℕ) × (handle_read request
        ≡ header ++ encode_all (fake_records query.min_id (fake_count query.min_id query.max_id)))
      × (length header ≡ query_resp_header_size)
      × (unpack_header header ≡ ok (header_for req_id query))
unfolding handle_read handle_request
handle_read_lem req_id query request hr hq hk packed =
    let count = fake_count query.min_id query.max_id in
    let (bytes, e, size, read) = request_roundtrip req_id query [] hr hq in
    let same : bytes ++ [] ≡ request = append-nil bytes ∙ ok_injective (sym e ∙ packed) in
    let (body, fits, body_size, number) =
      fake_body_lem query.min_id count (omega (arith, fake_count_le query.min_id query.max_id)) in
    let (header, eh, header_size, back) =
      header_roundtrip (header_for req_id query) (header_for-HeaderFits req_id query hr hk) in
    let asked : unpack_request request ≡ request_of req_id query =
      ap unpack_request (sym same) ∙ read in
    let handled : handle_request request
        ≡ ok (header ++ encode_all (fake_records query.min_id count)) =
      rw (asked, handle_request) (rw (body, body_size, eh) refl) in
    (header, rw (handled, handle_read) refl, header_size, back)

-- The body is read whole, of whatever size.
read_body_lem :
    (body : List ℕ) (n : ℕ) (arrivals : List Arrival)
    → length body ≡ n
    → stream arrivals ≡ body
    → read_body n arrivals ≡ ok body
unfolding read_body
read_body_lem [] n arrivals size s = let test : ltb 0 n ≡ false = ground arith in rw test refl
read_body_lem (b ∷ body) n arrivals size s =
    let test : ltb 0 n ≡ true = ground arith in
    let (rest, e, left) = recv_exact_reads n arrivals (omega (arith, size, ap length s)) in
    let whole : take n (stream arrivals) ≡ b ∷ body =
      ap (take n) s
      ∙ ap (λ k. take k (b ∷ body)) (sym size)
      ∙ ap (take (length (b ∷ body))) (sym (append-nil (b ∷ body)))
      ∙ take-append_exact (b ∷ body) [] in
    rw (test, read_body) (ap (λ p. p.0) e ∙ ap ok whole)

same_number : (n : ℕ) → (n == n) ≡ true
same_number n = (nat_key.same_iff n n).1 refl

abbrev as_byte : Bool → ℕ
as_byte b = if b then 1 else 0

flag : (b : Bool) → not (as_byte b == 0) ≡ b
flag true = refl
flag false = refl

-- What is parsed from the header and the records of the answer.
parse_lem :
    (req_id : ℕ) (query : QueryRequest)
    → (query.min_id + 10) * 10 ≤ 2 ^ 64
    → parse_response
        (header_for req_id query)
        (encode_all (fake_records query.min_id (fake_count query.min_id query.max_id)))
        false
      ≡ fake_response req_id query
unfolding parse_response
parse_lem req_id query hk =
    let count = fake_count query.min_id query.max_id in
    let rs = fake_records query.min_id count in
    let h = header_for req_id query in
    let (packed, fits, size, number) =
      fake_body_lem query.min_id count (omega (arith, fake_count_le query.min_id query.max_id)) in
    let records : (parse_response h (encode_all rs) false).records ≡ rs =
      ap (λ body. (parse_response h body false).records) (sym (append-nil (encode_all rs)))
      ∙ parse_response_records h rs [] fits (sym number) in
    let expected = fake_response req_id query in
    ap (λ r. record expected { limit_reached = not (h.limit_reached == 0); records = r }) records
    ∙ ap (λ b. record expected { limit_reached = b })
        (flag (ltb (actual_max_id query.min_id count) query.max_id))

pub query_answered :
    (req_id : ℕ) (query : QueryRequest) (request : List ℕ) (arrivals : List Arrival)
    → req_id < 2 ^ 64
    → IsQuery query
    → (query.min_id + 10) * 10 ≤ 2 ^ 64
    → pack_request req_id query ≡ ok request
    → stream arrivals ≡ handle_read request
    → exchange req_id query false (replies arrivals) ≡ ok (fake_response req_id query)
unfolding exchange read_answer
query_answered req_id query request arrivals hr hq hk packed back =
    let count = fake_count query.min_id query.max_id in
    let body = encode_all (fake_records query.min_id count) in
    let (header, answered, size, read) = handle_read_lem req_id query request hr hq hk packed in
    let s : stream arrivals ≡ header ++ body = back ∙ answered in
    let (rest, e, left) =
      recv_exact_reads query_resp_header_size arrivals
        (omega (arith, ap length s, length-append header body, size)) in
    let front : take query_resp_header_size (stream arrivals) ≡ header =
      ap (take query_resp_header_size) s
      ∙ ap (λ n. take n (header ++ body)) (sym size)
      ∙ take-append_exact header body in
    let behind : stream rest ≡ body =
      left
      ∙ ap (drop query_resp_header_size) s
      ∙ ap (λ n. drop n (header ++ body)) (sym size)
      ∙ drop-append_exact header body in
    let (made, fits, body_size, number) =
      fake_body_lem query.min_id count (omega (arith, fake_count_le query.min_id query.max_id)) in
    let same = same_number req_id in
    let rest_size : query_resp_header_size + 29 * count - query_resp_header_size ≡ 29 * count =
      omega arith in
    rw (packed, exchange)
      (rw (e, front, read, same, rest_size, read_answer)
        (rw (read_body_lem body (29 * count) rest body_size behind)
          (ap ok (parse_lem req_id query hk))))
