-- ===== src/Client/Write/Group.antt =====
-- The first loop of `write`: every record ends in the list of the node that it was routed to, in
-- order.
use raft_lsmt.Base.{
  ℕ, ◌≡◌, refl, ap, ◌∙◌, Option, List, [], ◌∷◌, ◌++◌, append_assoc, append-nil, option_key, ok,
  raise, Exception, Outcome-cases, subst, ok_injective, ◌≢◌, ◌==◌, sym, Bool-cases, inl, inr,
}
use raft_lsmt.Base.Lanes.{
  items_for, items_for-lane, lane, lane-nil, lane-extend, at_key, IsDistinct, set-IsDistinct,
}
use raft_lsmt.Client.Datatypes.{Node, Record, node_key}
use raft_lsmt.Client.Routing.Router.{Router}
use raft_lsmt.Client.Routing.Router
use raft_lsmt.Client.Db.{Buffer}
use raft_lsmt.Client.Write.{Batch, extend, group}

-- Where a run of insertions sends the records, one pair for each; it ends at the first exception.
unfoldable pub routes : (List ℕ → List ℕ) → Router → List Record → List Batch
routes md5 router [] = []
routes md5 router (rec ∷ recs) =
    let routed = Router.get_node_insert md5 router rec in
    elim routed.0 [ raise e ↦ [] | ok target ↦ (target, rec ∷ []) ∷ routes md5 routed.1 recs ]

pub items_for-cons :
    (n k : Option Node) (recs : List Record) (rest : List Batch)
    → items_for n ((k, recs) ∷ rest) ≡ at_key k n recs ++ items_for n rest
unfolding items_for
items_for-cons n k recs rest = elim (Bool-cases (k == n)) [
  | inl same ↦ rw same
  | inr other ↦ rw other
]

pub routes_step :
    (md5 : List ℕ → List ℕ) (router : Router) (rec : Record) (recs : List Record) (k : Option Node)
    → (Router.get_node_insert md5 router rec).0 ≡ ok k
    → routes md5 router (rec ∷ recs)
      ≡ (k, rec ∷ []) ∷ routes md5 (Router.get_node_insert md5 router rec).1 recs
unfolding routes
routes_step md5 router rec recs k hit = rw (hit, routes)

pub group_step :
    (md5 : List ℕ → List ℕ) (router : Router) (rec : Record) (recs : List Record) (d : Buffer)
    (k : Option Node)
    → (Router.get_node_insert md5 router rec).0 ≡ ok k
    → group md5 router (rec ∷ recs) d
      ≡ group md5 (Router.get_node_insert md5 router rec).1 recs (extend d k (rec ∷ []))
unfolding group
group_step md5 router rec recs d k hit = rw (hit, group)

pub group_raises :
    (md5 : List ℕ → List ℕ) (router : Router) (rec : Record) (recs : List Record) (d d' : Buffer)
    (x : Exception)
    → (Router.get_node_insert md5 router rec).0 ≡ raise x
    → (group md5 router (rec ∷ recs) d).0 ≢ ok d'
unfolding group
group_raises md5 router rec recs d d' x miss e = cc (rw (miss, group) at e)

lane-group_step :
    (d d' : Buffer) (n k : Option Node) (recs : List Record) (rest : List Batch)
    → lane d' n ≡ lane (extend d k recs) n ++ items_for n rest
    → lane d' n ≡ lane d n ++ items_for n ((k, recs) ∷ rest)
unfolding extend
lane-group_step d d' n k recs rest e =
    e
    ∙ ap (λ (t : List Record). t ++ items_for n rest) (lane-extend d k n recs)
    ∙ append_assoc (lane d n) (at_key k n recs) (items_for n rest)
    ∙ ap (◌++◌ (lane d n)) (sym (items_for-cons n k recs rest))

group_none :
    (md5 : List ℕ → List ℕ) (router : Router) (d d' : Buffer) (n : Option Node)
    → (group md5 router [] d).0 ≡ ok d'
    → lane d' n ≡ lane d n ++ items_for n (routes md5 router [])
unfolding group routes items_for
group_none md5 router d d' n e =
    let same : d' ≡ d = cc in ap (λ (t : Buffer). lane t n) same ∙ sym (append-nil (lane d n))

-- Where every record was routed, the lists hold for each node what they held before, and then the
-- records routed to it, in order.
pub group-routes :
    (md5 : List ℕ → List ℕ) (router : Router) (recs : List Record) (d d' : Buffer) (n : Option Node)
    → (group md5 router recs d).0 ≡ ok d'
    → lane d' n ≡ lane d n ++ items_for n (routes md5 router recs)
group-routes md5 router [] d d' n e = group_none md5 router d d' n e
group-routes md5 router (rec ∷ recs) d d' n e =
    let routed = Router.get_node_insert md5 router rec in
    elim (Outcome-cases routed.0) [
      | inl (k, hit) ↦
          let e' = rw (group_step md5 router rec recs d k hit) at e in
          let later = group-routes md5 routed.1 recs (extend d k (rec ∷ [])) d' n e' in
          rw (routes_step md5 router rec recs k hit)
            (lane-group_step d d' n k (rec ∷ []) (routes md5 routed.1 recs) later)
      | inr (x, miss) ↦ absurd (group_raises md5 router rec recs d d' x miss e)
    ]

group-IsDistinct :
    (md5 : List ℕ → List ℕ) (router : Router) (recs : List Record) (d d' : Buffer)
    → IsDistinct d
    → (group md5 router recs d).0 ≡ ok d'
    → IsDistinct d'
group-IsDistinct md5 router [] d d' h e = unfold group in subst IsDistinct (ok_injective e) h
group-IsDistinct md5 router (rec ∷ recs) d d' h e =
    let routed = Router.get_node_insert md5 router rec in
    elim (Outcome-cases routed.0) [
      | inl (k, hit) ↦
          let e' = rw (group_step md5 router rec recs d k hit) at e in
          group-IsDistinct md5 routed.1 recs (extend d k (rec ∷ [])) d'
            (unfold extend in set-IsDistinct d k (lane d k ++ rec ∷ []) h) e'
      | inr (x, miss) ↦ absurd (group_raises md5 router rec recs d d' x miss e)
    ]

-- From an empty dictionary: its entries for a node are the records routed to it, in order.
pub group_from_empty :
    (md5 : List ℕ → List ℕ) (router : Router) (recs : List Record) (d : Buffer) (n : Option Node)
    → (group md5 router recs []).0 ≡ ok d
    → items_for n d ≡ items_for n (routes md5 router recs)
group_from_empty md5 router recs d n e =
    items_for-lane d n (group-IsDistinct md5 router recs [] d tt e)
    ∙ group-routes md5 router recs [] d n e
    ∙ ap (λ (t : List Record). t ++ items_for n (routes md5 router recs)) (lane-nil n)

-- What is routed after some records that were routed is routed by the router that they left.
pub routes-append :
    (md5 : List ℕ → List ℕ) (router : Router) (xs ys : List Record) (d d' : Buffer)
    → (group md5 router xs d).0 ≡ ok d'
    → routes md5 router (xs ++ ys) ≡ routes md5 router xs ++ routes md5 (group md5 router xs d).1 ys
routes-append md5 router [] ys d d' e = unfold group routes in refl
routes-append md5 router (rec ∷ xs) ys d d' e =
    let routed = Router.get_node_insert md5 router rec in
    elim (Outcome-cases routed.0) [
      | inl (k, hit) ↦
          let step = group_step md5 router rec xs d k hit in
          let d1 = extend d k (rec ∷ []) in
          rw
            (routes_step md5 router rec (xs ++ ys) k hit, routes_step md5 router rec xs k hit, step)
            (ap (λ (t : List Batch). (k, rec ∷ []) ∷ t)
              (routes-append md5 routed.1 xs ys d1 d' (rw step at e)))
      | inr (x, miss) ↦ absurd (group_raises md5 router rec xs d d' x miss e)
    ]
