-- ===== src/Cli/Show/Tests.antt =====
-- Four records under a length of 3, and a list in a list.
use raft_lsmt.Base.{ℕ, ◌+◌, ◌≡◌, refl, [], ◌∷◌, arith}
use raft_lsmt.Client.Datatypes.{Record, int}
use raft_lsmt.Cli.Show.{
  Value, number, sequence, nil, cons, record_line, omitted_line, record_lines, cut_middle,
  last_part, convert_and_truncate,
}
use raft_lsmt.Cli.Show.Bounds.{Within, convert_and_truncate-Within}
use raft_lsmt.Cli.Show.Plain.{Accounts, records_accounted}

abbrev rec : ℕ → Record
rec key = record { key_id = key; timestamp = 0; content = int key }

-- With an odd length one record is neither printed nor said to be left out.
odd :
    record_lines 3 (rec 1 ∷ rec 2 ∷ rec 3 ∷ rec 4 ∷ [])
    ≡ record_line (rec 1) ∷ omitted_line 1 ∷ record_line (rec 4) ∷ []
unfolding record_lines cut_middle last_part
odd = refl

-- With a length of 1 everything is printed, behind the note.
one :
    record_lines 1 (rec 1 ∷ rec 2 ∷ [])
    ≡ omitted_line 1 ∷ record_line (rec 1) ∷ record_line (rec 2) ∷ []
unfolding record_lines cut_middle last_part
one = refl

records_accounted_example : Accounts 3 4 (record_lines 3 (rec 1 ∷ rec 2 ∷ rec 3 ∷ rec 4 ∷ []))
records_accounted_example = records_accounted 3 (rec 1 ∷ rec 2 ∷ rec 3 ∷ rec 4 ∷ []) (omega arith)

abbrev nested : Value
nested = sequence (cons (sequence (cons (number 1) (cons (number 2) (cons (number 3) nil)))) nil)

convert_and_truncate-Within_example : Within (2 + 1) (1 + 1) (convert_and_truncate 1 2 0 nested)
convert_and_truncate-Within_example = convert_and_truncate-Within 1 2 nested (omega arith)
