-- ===== src/Client/Wire/Stream/Chunks.antt =====
-- `_recv_exact` depends on the bytes of the stream, and not on how they are cut into arrivals.
use native.Mathlib.Decide.{dec_le}
use native.Mathlib.Nat.{zero-add, suc-add}
use raft_lsmt.Base.{
  ℕ, zero, suc, ◌+◌, ◌-◌, ◌≤◌, ◌<◌, ◌≡◌, refl, sym, ap, ◌∙◌, List, [], ◌∷◌, ◌++◌, append_assoc,
  append-nil, arith, length, length-append, take, drop, le→leb, ok, raise, connection_error,
}
use raft_lsmt.Client.Wire.Stream.{Arrival, chunk, closed, timeout, put_back, recv_loop, recv_exact}

-- The bytes that arrive before the stream ends or stalls.
abbrev pub stream : List Arrival → List ℕ
stream [] = []
stream (chunk b bs ∷ rest) = (b ∷ bs) ++ stream rest
stream (closed ∷ rest) = []
stream (timeout ∷ rest) = []

pub stream-put_back :
    (bs : List ℕ) (rest : List Arrival) → stream (put_back bs rest) ≡ bs ++ stream rest
stream-put_back [] rest = refl
stream-put_back (b ∷ bs) rest = refl

-- `take` and `drop` on two lists, one behind the other.
pub take-append_le : (n : ℕ) (xs ys : List ℕ) → n ≤ length xs → take n (xs ++ ys) ≡ take n xs
take-append_le zero xs ys h = refl
take-append_le (suc n) [] ys h = absurd (omega arith)
take-append_le (suc n) (x ∷ xs) ys h = ap (◌∷◌ x) (take-append_le n xs ys (omega arith))

pub drop-append_le : (n : ℕ) (xs ys : List ℕ) → n ≤ length xs → drop n (xs ++ ys) ≡ drop n xs ++ ys
drop-append_le zero xs ys h = refl
drop-append_le (suc n) [] ys h = absurd (omega arith)
drop-append_le (suc n) (x ∷ xs) ys h = drop-append_le n xs ys (omega arith)

take-append_ge : (n : ℕ) (xs ys : List ℕ) → take (length xs + n) (xs ++ ys) ≡ xs ++ take n ys
take-append_ge n [] ys = rw zero-add
take-append_ge n (x ∷ xs) ys = rw suc-add (ap (◌∷◌ x) (take-append_ge n xs ys))

drop-append_ge : (n : ℕ) (xs ys : List ℕ) → drop (length xs + n) (xs ++ ys) ≡ drop n ys
drop-append_ge n [] ys = rw zero-add
drop-append_ge n (x ∷ xs) ys = rw suc-add (drop-append_ge n xs ys)

-- What the loop does once it has enough, whatever arrives next.
loop_done :
    (got : List ℕ) (n : ℕ) (arr : List Arrival)
    → n ≤ length got
    → recv_loop got n arr ≡ (ok got, arr)
unfolding recv_loop
loop_done got n [] h = rw (le→leb n (length got) h)
loop_done got n (timeout ∷ rest) h = rw (le→leb n (length got) h)
loop_done got n (closed ∷ rest) h = rw (le→leb n (length got) h)
loop_done got n (chunk b bs ∷ rest) h = rw (le→leb n (length got) h)

step_short :
    (got : List ℕ) (n b : ℕ) (bs : List ℕ) (rest : List Arrival)
    → length got < n
    → length (b ∷ bs) ≤ n - length got
    → recv_loop got n (chunk b bs ∷ rest) ≡ recv_loop (got ++ (b ∷ bs)) n rest
unfolding recv_loop
step_short got n b bs rest h le = ground arith

step_long :
    (got : List ℕ) (n b : ℕ) (bs : List ℕ) (rest : List Arrival)
    → length got < n
    → n - length got < length (b ∷ bs)
    → recv_loop got n (chunk b bs ∷ rest)
      ≡ (ok (got ++ take (n - length got) (b ∷ bs)), put_back (drop (n - length got) (b ∷ bs)) rest)
unfolding recv_loop
step_long got n b bs rest h lt = ground arith

-- `wanted` bytes are missing, and the stream has them.
loop_reads :
    (got : List ℕ) (wanted : ℕ) (arr : List Arrival)
    → wanted ≤ length (stream arr)
    → (rest : List Arrival) × (recv_loop got (length got + wanted) arr
        ≡ (ok (got ++ take wanted (stream arr)), rest))
      × (stream rest ≡ drop wanted (stream arr))
loop_reads got zero arr h =
    (arr, rw append-nil (loop_done got (length got + 0) arr (omega arith)), refl)
loop_reads got (suc w) [] h = absurd (omega arith)
loop_reads got (suc w) (closed ∷ arr) h = absurd (omega arith)
loop_reads got (suc w) (timeout ∷ arr) h = absurd (omega arith)
loop_reads got (suc w) (chunk b bs ∷ arr) h = elim (dec_le (length (b ∷ bs)) (suc w)) [
  | yes short ↦
      let k = suc w - length (b ∷ bs) in
      let total : length (b ∷ bs) + k ≡ suc w = omega arith in
      let (rest, e, left) =
        loop_reads (got ++ (b ∷ bs)) k arr (omega (arith, length-append (b ∷ bs) (stream arr))) in
      let count : length (got ++ (b ∷ bs)) + k ≡ length got + suc w =
        omega (arith, length-append got (b ∷ bs)) in
      (
        rest,
        step_short got (length got + suc w) b bs arr (omega arith) (omega arith)
            ∙ rw count at e
            ∙ ap (λ (t : List ℕ). (ok t, rest))
                (append_assoc got (b ∷ bs) (take k (stream arr))
                  ∙ ap (◌++◌ got) (
                      sym (take-append_ge k (b ∷ bs) (stream arr))
                      ∙ ap (λ (t : ℕ). take t (b ∷ bs ++ stream arr)) total)),
        left
            ∙ sym (drop-append_ge k (b ∷ bs) (stream arr))
            ∙ ap (λ (t : ℕ). drop t (b ∷ bs ++ stream arr)) total,
      )
  | no long ↦
      let exact : length got + suc w - length got ≡ suc w = omega arith in
      (
        put_back (drop (suc w) (b ∷ bs)) arr,
        rw exact at (step_long got (length got + suc w) b bs arr (omega arith) (omega arith))
            ∙ ap (λ (t : List ℕ). (ok (got ++ t), put_back (drop (suc w) (b ∷ bs)) arr))
                (sym (take-append_le (suc w) (b ∷ bs) (stream arr) (omega arith))),
        stream-put_back (drop (suc w) (b ∷ bs)) arr
            ∙ sym (drop-append_le (suc w) (b ∷ bs) (stream arr) (omega arith)),
      )
]

-- `wanted` bytes are missing, and the stream ends or stalls before it has them.
loop_stalls :
    (got : List ℕ) (wanted : ℕ) (arr : List Arrival)
    → length (stream arr) < wanted
    → (recv_loop got (length got + wanted) arr).0 ≡ raise connection_error
unfolding recv_loop
loop_stalls got wanted [] h = ground arith
loop_stalls got wanted (closed ∷ arr) h = ground arith
loop_stalls got wanted (timeout ∷ arr) h = ground arith
loop_stalls got wanted (chunk b bs ∷ arr) h =
    let total = length-append (b ∷ bs) (stream arr) in
    let k = wanted - length (b ∷ bs) in
    let later = loop_stalls (got ++ (b ∷ bs)) k arr (omega (arith, total)) in
    let count : length (got ++ (b ∷ bs)) + k ≡ length got + wanted =
      omega (arith, length-append got (b ∷ bs), total) in
    rw (step_short got (length got + wanted) b bs arr (omega (arith, total)) (omega (arith, total)))
      (rw count at later)

-- Where the stream has `n` bytes before it ends or stalls, exactly those are returned and the rest
-- of the stream stays, however the bytes are cut into arrivals.
pub recv_exact_reads :
    (n : ℕ) (arr : List Arrival)
    → n ≤ length (stream arr)
    → (rest : List Arrival) × (recv_exact n arr ≡ (ok (take n (stream arr)), rest))
      × (stream rest ≡ drop n (stream arr))
unfolding recv_exact
recv_exact_reads n arr h = rw zero-add at (loop_reads [] n arr h)

-- Where it has fewer, the call raises, and returns nothing in part.
pub recv_exact_short :
    (n : ℕ) (arr : List Arrival)
    → length (stream arr) < n
    → (recv_exact n arr).0 ≡ raise connection_error
unfolding recv_exact
recv_exact_short n arr h = rw zero-add at (loop_stalls [] n arr h)
