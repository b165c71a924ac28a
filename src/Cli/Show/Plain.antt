-- ===== src/Cli/Show/Plain.antt =====
-- The records in the plain rendering.
use raft_lsmt.Base.{
  ℕ, suc, ◌+◌, ◌-◌, ◌/◌, ◌%◌, ◌⊎◌, inl, inr, ◌≤◌, ◌<◌, ◌≡◌, refl, sym, subst, append-nil, ap, ◌∙◌,
  List, [], ◌∷◌, ◌++◌, map, arith, length, length-take, length-drop, take, drop, All, All-take,
  All-drop, ltb, ◌==◌, nat_key, true, false,
}
use native.Mathlib.Decide.{dec_lt}
use raft_lsmt.Client.Datatypes.{Record}
use raft_lsmt.Cli.Show.{
  Line, cluster_line, node_line, value_line, plain_line, total_line, record_line, omitted_line,
  empty_line, last_part, cut_middle, record_lines,
}

-- The records that are printed, and the number that is said to be left out.
abbrev pub printed : List Line → ℕ
printed [] = 0
printed (record_line rec ∷ lines) = suc (printed lines)
printed (_ ∷ lines) = printed lines

abbrev pub left_out : List Line → ℕ
left_out [] = 0
left_out (omitted_line n ∷ lines) = n + left_out lines
left_out (_ ∷ lines) = left_out lines

abbrev IsRecordLine : Line → Type 0
IsRecordLine (record_line rec) = Unit {0}
IsRecordLine _ = ⊥

only_records :
    (lines rest : List Line)
    → All IsRecordLine lines
    → (printed (lines ++ rest) ≡ length lines + printed rest)
      × (left_out (lines ++ rest) ≡ left_out rest)
only_records [] rest h = (omega arith, refl)
only_records (record_line rec ∷ lines) rest h =
    let (a, b) = only_records lines rest h.1 in (omega (arith, a), b)
only_records (cluster_line n ∷ lines) rest h = absurd h.0
only_records (node_line n ∷ lines) rest h = absurd h.0
only_records (value_line k n ∷ lines) rest h = absurd h.0
only_records (plain_line n ∷ lines) rest h = absurd h.0
only_records (total_line n ∷ lines) rest h = absurd h.0
only_records (omitted_line n ∷ lines) rest h = absurd h.0
only_records (empty_line ∷ lines) rest h = absurd h.0

map-IsRecordLine : (recs : List Record) → All IsRecordLine (map record_line recs)
map-IsRecordLine [] = tt
map-IsRecordLine (rec ∷ recs) = (tt, map-IsRecordLine recs)

length-lines : (recs : List Record) → length (map record_line recs) ≡ length recs
length-lines [] = refl
length-lines (rec ∷ recs) = ap suc (length-lines recs)

printed_each :
    (lines : List Line)
    → All IsRecordLine lines
    → (printed lines ≡ length lines) × (left_out lines ≡ 0)
printed_each lines h =
    let (a, b) = only_records lines [] h in
    let same = append-nil lines in
    (ap printed (sym same) ∙ a ∙ omega arith, ap left_out (sym same) ∙ b)

-- What the lines for some records account for.
abbrev pub Accounts : ℕ → ℕ → List Line → Type 0
Accounts max_length count lines =
    ((count ≤ max_length) × (printed lines ≡ count) × (left_out lines ≡ 0))
    ⊎ ((max_length < count)
        × (printed lines ≤ max_length)
        × (printed lines + left_out lines + max_length % 2 ≡ count))

cut-Accounts :
    (max_length : ℕ) (lines : List Line)
    → 2 ≤ max_length
    → All IsRecordLine lines
    → Accounts max_length (length lines) (cut_middle omitted_line max_length lines)
unfolding cut_middle last_part
cut-Accounts max_length lines two h =
    let half = max_length / 2 in
    let some_half : (half == 0) ≡ false = ground arith in
    elim (dec_lt max_length (length lines)) [
      | no short ↦
          let test : ltb max_length (length lines) ≡ false = ground arith in
          let (p, q) = printed_each lines h in rw (test, cut_middle) (inl (omega arith, p, q))
      | yes long ↦
          let test : ltb max_length (length lines) ≡ true = ground arith in
          let n = length lines - max_length in
          let front = take half lines in
          let back = drop (length lines - half) lines in
          let (a, b) =
            only_records front (omitted_line n ∷ back) (All-take IsRecordLine half lines h) in
          let (c, d) = printed_each back (All-drop IsRecordLine (length lines - half) lines h) in
          let in_front = length-take half lines in
          let in_back = length-drop (length lines - half) lines in
          rw (test, some_half, cut_middle, last_part)
            (inr (
              long,
              omega (arith, a, c, in_front, in_back),
              omega (arith, a, b, c, d, in_front, in_back),
            ))
    ]

-- For a length of two at least: either all records are printed and none is said to be left out, or
-- there are more than the length, at most as many as the length are printed, and with those said to
-- be left out they are all, but for one where the length is odd.
pub records_accounted :
    (max_length : ℕ) (recs : List Record)
    → 2 ≤ max_length
    → Accounts max_length (length recs) (record_lines max_length recs)
unfolding record_lines
records_accounted max_length [] two = inl (omega arith, refl, refl)
records_accounted max_length (rec ∷ recs) two =
    subst
      (λ n.
        Accounts max_length n (cut_middle omitted_line max_length (map record_line (rec ∷ recs))))
      (length-lines (rec ∷ recs))
      (cut-Accounts max_length (map record_line (rec ∷ recs)) two (map-IsRecordLine (rec ∷ recs)))
