-- ===== src/Client/Write/Placed.antt =====
-- Where records are routed to one after the other, while other threads change the leader registry.
use raft_lsmt.Base.{
  ℕ, ◌≡◌, subst, Option, List, [], ◌∷◌, ◌++◌, append-nil, Outcome-cases, ok, inl, inr,
}
use raft_lsmt.Client.Registry.{LeaderChange}
use raft_lsmt.Client.Datatypes.{Node, Record}
use raft_lsmt.Client.Routing.Router.{Router, with_leaders}
use raft_lsmt.Client.Routing.Router
use raft_lsmt.Client.Db.{DbClient, Buffer}
use raft_lsmt.Client.Write.{Batch, extend, group, write}
use raft_lsmt.Client.Write.Group.{routes, routes_step, group_step, group_raises}
use raft_lsmt.Client.Write.Conserve.{write_routed, write_raised}

-- `Placed md5 router recs placed after`: the records are routed in their order, none without a
-- target, and the router ends as `after`; in between, the registry may be changed.
pub data Placed (md5 : List ℕ → List ℕ) : Router → List Record → List Batch → Router → Type 0 where
  placed_none : {router : Router} → Placed md5 router [] [] router
  placed_leaders :
      {router after : Router} {recs : List Record} {placed : List Batch}
      (changes : List LeaderChange)
      → Placed md5 (with_leaders changes router) recs placed after
      → Placed md5 router recs placed after
  placed_one :
      {router after : Router} {rec : Record} {recs : List Record} {placed : List Batch}
      {target : Option Node}
      → (Router.get_node_insert md5 router rec).0 ≡ ok target
      → Placed md5 (Router.get_node_insert md5 router rec).1 recs placed after
      → Placed md5 router (rec ∷ recs) ((target, rec ∷ []) ∷ placed) after

pub append-Placed :
    (md5 : List ℕ → List ℕ) (router between after : Router) (xs ys : List Record) (p q : List Batch)
    → Placed md5 router xs p between
    → Placed md5 between ys q after
    → Placed md5 router (xs ++ ys) (p ++ q) after
append-Placed md5 router between after [] ys [] q placed_none second = second
append-Placed md5 router between after xs ys p q (placed_leaders changes first) second =
    placed_leaders changes
      (append-Placed md5 (with_leaders changes router) between after xs ys p q first second)
append-Placed md5 router between after (rec ∷ xs) ys ((target, r) ∷ p) q (placed_one hit first)
      second =
    placed_one hit (
      append-Placed md5 (Router.get_node_insert md5 router rec).1 between after xs ys p q first
        second)

-- The leaders may change once more at the end.
pub then_leaders :
    (md5 : List ℕ → List ℕ) (router after : Router) (recs : List Record) (placed : List Batch)
    (changes : List LeaderChange)
    → Placed md5 router recs placed after
    → Placed md5 router recs placed (with_leaders changes after)
then_leaders md5 router after recs placed changes h =
    let last = with_leaders changes after in
    subst (λ xs. Placed md5 router xs placed last) (append-nil recs)
      (subst (λ ps. Placed md5 router (recs ++ []) ps last) (append-nil placed)
        (append-Placed md5 router after last recs [] placed [] h
          (placed_leaders changes placed_none)))

group-Placed :
    (md5 : List ℕ → List ℕ) (router : Router) (recs : List Record) (d d' : Buffer)
    → (group md5 router recs d).0 ≡ ok d'
    → Placed md5 router recs (routes md5 router recs) (group md5 router recs d).1
group-Placed md5 router [] d d' e = unfold group routes in placed_none
group-Placed md5 router (rec ∷ recs) d d' e =
    let routed = Router.get_node_insert md5 router rec in
    elim (Outcome-cases routed.0) [
      | inl (k, hit) ↦
          let step = group_step md5 router rec recs d k hit in
          let later = group-Placed md5 routed.1 recs (extend d k (rec ∷ [])) d' (rw step at e) in
          rw (routes_step md5 router rec recs k hit, step) (placed_one hit later)
      | inr (x, miss) ↦ absurd (group_raises md5 router rec recs d d' x miss e)
    ]

-- A call of `write` that returns places its records.
pub write-Placed :
    (md5 : List ℕ → List ℕ) (client : DbClient) (records : List Record) (fs : List Batch)
    → (write md5 client records).0 ≡ ok fs
    → Placed md5 client.router records
        (routes md5 client.router records)
        (write md5 client records).1.router
write-Placed md5 client records fs e = elim (Outcome-cases (group md5 client.router records []).0) [
  | inl (d, hit) ↦
      rw (write_routed md5 client records d hit) (group-Placed md5 client.router records [] d hit)
  | inr (x, miss) ↦ absurd (cc (e, write_raised md5 client records x miss))
]
