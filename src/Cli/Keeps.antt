-- ===== src/Cli/Keeps.antt =====
-- What a session of the command line keeps.
use raft_lsmt.Base.{
  ℕ, refl, if◌then◌else◌, ◌≡◌, sym, ap, ◌∙◌, String, Option, List, [], ◌∷◌, ◌++◌, append_assoc,
  append-nil, option_key, string_key, ◌>>=◌, Outcome-cases, Bool-cases, inl, inr, ◌==◌, ◌||◌,
}
use raft_lsmt.Base.Lanes.{items_for, items_for-append, lane}
use raft_lsmt.Client.Datatypes.{Node, Record, QueryRequest, node_key}
use raft_lsmt.Client.Write.{write, flush, await_all}
use raft_lsmt.Client.Write.Group.{routes}
use raft_lsmt.Client.Write.Conserve.{write_conserves, write_atomic}
use raft_lsmt.Client.Write.Flushing.{flush_lem}
use raft_lsmt.Client.Write.Ready.{IsReady, write-IsReady, flush-IsReady}
use raft_lsmt.Client.Read.{start, conclude}
use raft_lsmt.Cli.{
  Outside, Cli, Said, usage, sending, queued, flushed_all, accepted, bulk_records, write_records,
  distribution_of, generate, typed_record, insert, typed_query, read_query, query, flush_command,
  command, answer, ends, seen, loop,
}

-- What was handed over for a node, and what waits for it.
abbrev pub held : Cli → Option Node → List Record
held cli n = items_for n cli.handed ++ lane cli.dbclient.write_buffer n

-- The records of an answer that are routed to a node.
abbrev pub taken_for : (List ℕ → List ℕ) → Cli → Said → Option Node → List Record
taken_for md5 cli said n = items_for n (routes md5 cli.dbclient.router (accepted said))

-- The client can go on, and what is held of each node is what was held before, and then the records
-- that the answer says were taken.
abbrev pub Kept : Outside → Cli → Said × Cli → Type 0
Kept outside cli answered =
    IsReady answered.1.dbclient
    × ((n : Option Node) → held answered.1 n ≡ held cli n ++ taken_for outside.md5 cli answered.0 n)

unchanged-Kept :
    (outside : Outside) (cli : Cli) → IsReady cli.dbclient → Kept outside cli (usage, cli)
unfolding items_for routes
unchanged-Kept outside cli h = (h, λ n. sym (append-nil (held cli n)))

write_records-Kept :
    (outside : Outside) (said : Said) (records : List Record) (cli : Cli)
    → accepted said ≡ records
    → IsReady cli.dbclient
    → Kept outside cli (write_records outside said records cli)
unfolding write_records
write_records-Kept outside said records cli same h =
    let client = cli.dbclient in
    let ready = write-IsReady outside.md5 client records h in
    elim (Outcome-cases (write outside.md5 client records).0) [
      | inl (fs, hit) ↦
          rw (hit, write_records)
            (
              ready,
              λ n.
                  let later = (write outside.md5 client records).1.write_buffer in
                  let new = items_for n (routes outside.md5 client.router records) in
                  ap (λ (t : List Record). t ++ lane later n) (items_for-append n cli.handed fs)
                  ∙ append_assoc (items_for n cli.handed) (items_for n fs) (lane later n)
                  ∙ ap (◌++◌ (items_for n cli.handed))
                      (write_conserves outside.md5 client records fs n h.0 hit)
                  ∙ sym (append_assoc (items_for n cli.handed) (lane client.write_buffer n) new)
                  ∙ ap (λ rs. held cli n ++ items_for n (routes outside.md5 client.router rs))
                      (sym same),
            )
      | inr (x, miss) ↦
          rw (miss, write_records)
            (
              ready,
              λ n.
                  ap (λ b. items_for n cli.handed ++ lane b n)
                    ((write_atomic outside.md5 client records x miss).1)
                  ∙ (unchanged-Kept outside cli h).1 n,
            )
    ]

generate-Kept :
    (outside : Outside) (args : List String) (cli : Cli)
    → IsReady cli.dbclient
    → Kept outside cli (generate outside args cli)
unfolding generate
generate-Kept outside [] cli h = unchanged-Kept outside cli h
generate-Kept outside (amount ∷ rest) cli h =
    let records = outside.int_of amount >>= λ amount'.
    bulk_records outside amount' (distribution_of rest) outside.now_ms in
    elim (Outcome-cases records) [
      | inl (rs, hit) ↦ rw (hit, generate) (write_records-Kept outside (sending rs) rs cli refl h)
      | inr (x, miss) ↦ rw (miss, generate) (unchanged-Kept outside cli h)
    ]

insert-Kept :
    (outside : Outside) (args : List String) (cli : Cli)
    → IsReady cli.dbclient
    → Kept outside cli (insert outside args cli)
unfolding insert
insert-Kept outside [] cli h = unchanged-Kept outside cli h
insert-Kept outside (k ∷ []) cli h = unchanged-Kept outside cli h
insert-Kept outside (k ∷ t ∷ []) cli h = unchanged-Kept outside cli h
insert-Kept outside (k ∷ t ∷ c ∷ rest) cli h = elim (Outcome-cases (typed_record outside k t c)) [
  | inl (rec, hit) ↦
      rw (hit, insert) (write_records-Kept outside (queued rec) (rec ∷ []) cli refl h)
  | inr (x, miss) ↦ rw (miss, insert) (unchanged-Kept outside cli h)
]

read_query-Kept :
    (outside : Outside) (asked : QueryRequest) (cli : Cli)
    → IsReady cli.dbclient
    → Kept outside cli (read_query outside asked cli)
unfolding read_query
read_query-Kept outside asked cli h =
    let client = cli.dbclient in
    elim (Outcome-cases (start client.router client.next_req_id asked)) [
      | inl (started, hit) ↦ elim (Outcome-cases (conclude (outside.aggregate started.0).0)) [
        | inl (results, shows) ↦ rw (hit, read_query, shows) (unchanged-Kept outside cli h)
        | inr (x, fails) ↦ rw (hit, read_query, fails) (unchanged-Kept outside cli h)
      ]
      | inr (x, miss) ↦ rw (miss, read_query) (unchanged-Kept outside cli h)
    ]

query-Kept :
    (outside : Outside) (args : List String) (cli : Cli)
    → IsReady cli.dbclient
    → Kept outside cli (query outside args cli)
unfolding query
query-Kept outside [] cli h = unchanged-Kept outside cli h
query-Kept outside (a ∷ []) cli h = unchanged-Kept outside cli h
query-Kept outside (a ∷ b ∷ []) cli h = unchanged-Kept outside cli h
query-Kept outside (a ∷ b ∷ c ∷ []) cli h = unchanged-Kept outside cli h
query-Kept outside (a ∷ b ∷ c ∷ d ∷ rest) cli h =
    elim (Outcome-cases (typed_query outside a b c d)) [
      | inl (asked, hit) ↦ rw (hit, query) (read_query-Kept outside asked cli h)
      | inr (x, miss) ↦ rw (miss, query) (unchanged-Kept outside cli h)
    ]

flush_command-Kept :
    (outside : Outside) (cli : Cli)
    → IsReady cli.dbclient
    → Kept outside cli (flush_command outside cli)
unfolding flush_command
flush_command-Kept outside cli h =
    let done = flush cli.dbclient in
    let even : (n : Option Node)
        → items_for n (cli.handed ++ done.0) ++ lane done.1.write_buffer n
          ≡ held cli n ++ taken_for outside.md5 cli flushed_all n =
      λ n.
        let (flushed, nothing) = flush_lem cli.dbclient n h.1 in
        ap (◌++◌ (items_for n (cli.handed ++ done.0))) nothing
        ∙ append-nil (items_for n (cli.handed ++ done.0))
        ∙ items_for-append n cli.handed done.0
        ∙ ap (◌++◌ (items_for n cli.handed)) flushed
        ∙ (unchanged-Kept outside cli h).1 n in
    elim (Outcome-cases (await_all (outside.deliver done.0))) [
      | inl (u, arrived) ↦ rw (arrived, flush_command) (flush-IsReady cli.dbclient h, even)
      | inr (x, lost) ↦ rw (lost, flush_command) (flush-IsReady cli.dbclient h, even)
    ]

command-Kept :
    (outside : Outside) (cmd : String) (args : List String) (cli : Cli)
    → IsReady cli.dbclient
    → Kept outside cli (command outside cmd args cli)
unfolding command
command-Kept outside cmd args cli h = elim (Bool-cases (cmd == "GENERATE")) [
  | inl a ↦ rw a (generate-Kept outside args cli h)
  | inr a ↦ rw a (elim (Bool-cases (cmd == "INSERT")) [
    | inl b ↦ rw b (insert-Kept outside args cli h)
    | inr b ↦ rw b (elim (Bool-cases (cmd == "QUERY")) [
      | inl c ↦ rw c (query-Kept outside args cli h)
      | inr c ↦ rw c (elim (Bool-cases (cmd == "FLUSH")) [
        | inl d ↦ rw d (flush_command-Kept outside cli h)
        | inr d ↦ rw d (elim (Bool-cases (cmd == "EXIT" || cmd == "QUIT")) [
          | inl e ↦ rw e (unchanged-Kept outside cli h)
          | inr e ↦ rw e (unchanged-Kept outside cli h)
        ])
      ])
    ])
  ])
]

answer-Kept :
    (outside : Outside) (line : List String) (cli : Cli)
    → IsReady cli.dbclient
    → Kept outside cli (answer outside line cli)
unfolding answer
answer-Kept outside [] cli h = unchanged-Kept outside cli h
answer-Kept outside (word ∷ args) cli h = command-Kept outside (outside.upper word) args cli h

-- What a session takes for a node: the records of each line up to the end, where they are routed to
-- with the leaders at that line.
abbrev pub taken : Option Node → List (Outside × List String) → Cli → List Record
taken n [] cli = []
taken n ((outside, line) ∷ lines) cli =
    let cli' = seen outside cli in
    let answered = answer outside line cli' in
    let now = taken_for outside.md5 cli' answered.0 n in
    let later = taken n lines answered.1 in if ends answered.0 then now else now ++ later

-- Whatever lines are typed, their numbers not negative, whatever goes wrong in them, and whatever the
-- batches under way do to the leader registry between the lines, on a client with a positive batch
-- size and one list for each node at most: for every node, the records handed over and those that
-- wait in the client are, in order, those of before the session and then exactly the records of the
-- lines that were answered as sent or queued, as far as they are routed to the node, each with the
-- leaders at its line.
pub loop_keeps :
    (lines : List (Outside × List String)) (cli : Cli) (n : Option Node)
    → IsReady cli.dbclient
    → held (loop lines cli).1 n ≡ held cli n ++ taken n lines cli
unfolding loop
loop_keeps [] cli n h = sym (append-nil (held cli n))
loop_keeps ((outside, line) ∷ lines) cli n h =
    let cli' = seen outside cli in
    let answered = answer outside line cli' in
    let first = answer-Kept outside line cli' h in
    elim (Bool-cases (ends answered.0)) [
      | inl last ↦ rw last (first.1 n)
      | inr more ↦ rw more (
          loop_keeps lines answered.1 n first.0
          ∙ ap (λ (t : List Record). t ++ taken n lines answered.1) (first.1 n)
          ∙ append_assoc (held cli n) (taken_for outside.md5 cli' answered.0 n)
              (taken n lines answered.1))
    ]
