-- ===== src/Client/Send/Redirect.antt =====
-- client/dbclient.py, `_send_batch`: the reading of a server's reply that begins with `R`. A text
-- is the list of its code points.
use raft_lsmt.Base.{
  ℕ, ◌+◌, ◌-◌, ◌*◌, Bool, true, false, not, ◌&&◌, ◌||◌, Option, none, some, List, [], ◌∷◌, ◌==◌,
  nat_key, leb, if◌then◌else◌, Outcome, ok, raise, ◌>>=◌, connection_error, value_error,
}
use raft_lsmt.Client.Datatypes.{Node}

-- What `str.strip` takes off.
abbrev pub is_space : ℕ → Bool
is_space c =
    (leb 9 c && leb c 13)
    || (leb 28 c && leb c 32)
    || (c == 133)
    || (c == 160)
    || (c == 5760)
    || (leb 8192 c && leb c 8202)
    || (c == 8232)
    || (c == 8233)
    || (c == 8239)
    || (c == 8287)
    || (c == 12288)

unfoldable pub lstrip : List ℕ → List ℕ
lstrip [] = []
lstrip (c ∷ cs) = let rest = lstrip cs in if is_space c then rest else c ∷ cs

-- A space stays where a later character is no space.
unfoldable pub rstrip : List ℕ → List ℕ
rstrip [] = []
rstrip (c ∷ cs) = elim (rstrip cs) [ [] ↦ if is_space c then [] else c ∷ [] | d ∷ ds ↦ c ∷ d ∷ ds ]

unfoldable pub strip : List ℕ → List ℕ
strip text = lstrip (rstrip text)

unfoldable pub starts_with : List ℕ → List ℕ → Bool
starts_with [] text = true
starts_with (p ∷ ps) [] = false
starts_with (p ∷ ps) (c ∷ cs) = let rest = starts_with ps cs in (p == c) && rest

-- `split(" ")`: the first part, and the parts behind the spaces.
unfoldable pub split : List ℕ → List ℕ × List (List ℕ)
split [] = ([], [])
split (c ∷ cs) =
    let rest = split cs in if c == 32 then ([], rest.0 ∷ rest.1) else (c ∷ rest.0, rest.1)

-- A number that `int` reads, by its sign and magnitude.
pub record Signed : Type 0 where
  pub negative : Bool
  pub magnitude : ℕ

abbrev pub is_digit : ℕ → Bool
is_digit c = leb 48 c && leb c 57

-- Digits from the value of those before; one `_` may stand between two of them. Digits outside
-- ASCII are not read.
unfoldable pub read_digits : Bool → ℕ → List ℕ → Option ℕ
read_digits after_digit acc [] = if after_digit then some acc else none
read_digits after_digit acc (c ∷ cs) = elim (is_digit c) [
  | true ↦ read_digits true (acc * 10 + (c - 48)) cs
  | false ↦ elim (after_digit && c == 95) [ true ↦ read_digits false acc cs | false ↦ none ]
]

unfoldable pub signed : Bool → List ℕ → Outcome Signed
signed negative digits = elim (read_digits false 0 digits) [
  | none ↦ raise value_error
  | some v ↦ ok (record { negative = negative; magnitude = v })
]

-- The sign, 45 or 43, and the digits.
unfoldable pub int_of_stripped : List ℕ → Outcome Signed
int_of_stripped [] = raise value_error
int_of_stripped (c ∷ cs) =
    if c == 45 then signed true cs else if c == 43 then signed false cs else signed false (c ∷ cs)

-- `int(text)`.
unfoldable pub int_of : List ℕ → Outcome Signed
int_of text = int_of_stripped (strip text)

-- `next((n for n in nodes if n.id == leader_id), None)`.
unfoldable pub find_node : Signed → List Node → Option Node
find_node leader_id [] = none
find_node leader_id (n ∷ ns) =
    let rest = find_node leader_id ns in
    if not leader_id.negative && (n.id == leader_id.magnitude) then some n else rest

-- `REDIRECT`.
abbrev pub redirect_word : List ℕ
redirect_word = 82 ∷ 69 ∷ 68 ∷ 73 ∷ 82 ∷ 69 ∷ 67 ∷ 84 ∷ []

-- A leader that is found among the nodes, or `ConnectionError`.
unfoldable pub found : Option Node → Outcome Node
found none = raise connection_error
found (some n) = ok n

-- The parts behind the first: two at least, the first of them the leader's id, where 0 means that
-- the cluster is electing one.
unfoldable pub redirect_parts : List (List ℕ) → List Node → Outcome Node
redirect_parts [] nodes = raise connection_error
redirect_parts (id ∷ []) nodes = raise connection_error
redirect_parts (id ∷ part ∷ parts) nodes = do
  leader_id ← int_of id
  if leader_id.magnitude == 0 then raise connection_error else found (find_node leader_id nodes)

-- The new leader that a message names.
unfoldable pub redirect_target : List ℕ → List Node → Outcome Node
redirect_target msg nodes =
    let msg_str = strip msg in
    if starts_with redirect_word msg_str
    then redirect_parts (split msg_str).1 nodes
    else raise connection_error
