-- ===== src/Client/Routing/Select/Choice.antt =====
-- Which node one selection returns.
use raft_lsmt.Base.{
  ℕ, ◌%◌, String, ◌≡◌, ◌≢◌, refl, false, Option, none, some, List, [], ◌∷◌, arith, All,
  get_elem?_lt, get_elem?-All, All-imp, All-Member, Member, length, true, ◌⊎◌, inl, inr, Bool-cases,
  string_key,
}
use raft_lsmt.Base.Dict
use raft_lsmt.Base.Dict.{Dict}
use raft_lsmt.Client.Datatypes.{Node}
use raft_lsmt.Client.Routing.Select.{
  is_leader, followers, leader_or_first, take_turn, select_among, select_follower_round_robin,
}
use native.Mathlib.Nat.{mod-lt}

-- The followers keep what holds of every node, and none of them is the leader.
pub followers-All {ℓ} :
    (P : Node → Type ℓ) (leader : Option Node) (nodes : List Node)
    → All P nodes
    → All (λ n. P n × (is_leader leader n ≡ false)) (followers leader nodes)
unfolding followers
followers-All P leader [] h = tt
followers-All P leader (n ∷ ns) h = elim (Bool-cases (is_leader leader n)) [
  | inl same ↦ rw same (followers-All P leader ns h.1)
  | inr other ↦ rw other ((h.0, other), followers-All P leader ns h.1)
]

leader_or_first-All {ℓ} :
    (P : Node → Type ℓ) (leader : Option Node) (n : Node) (ns : List Node)
    → ((l : Node) → leader ≡ some l → P l)
    → All P (n ∷ ns)
    → (m : Node) × (leader_or_first leader (n ∷ ns) ≡ some m) × P m
unfolding leader_or_first
leader_or_first-All P none n ns hl h = (n, refl, h.0)
leader_or_first-All P (some l) n ns hl h = (l, refl, hl l refl)

-- A turn among one follower at least is an element of the list.
take_turn-All {ℓ} :
    (P : Node → Type ℓ) (c : String) (f : Node) (fs : List Node) (indices : Dict String ℕ)
    → All P (f ∷ fs)
    → (m : Node) × ((take_turn c (f ∷ fs) indices).0 ≡ some m) × P m
unfolding take_turn
take_turn-All P c f fs indices h =
    let i = Dict.get_default indices c 0 % length (f ∷ fs) in
    let (m, e) = get_elem?_lt (f ∷ fs) i (mod-lt (Dict.get_default indices c 0) (omega arith)) in
    (m, e, get_elem?-All P (f ∷ fs) i m h e)

select_among-All {ℓ} :
    (P : Node → Type ℓ) (fs : List Node) (c : String) (n : Node) (ns : List Node)
    (leader : Option Node) (indices : Dict String ℕ)
    → All P fs
    → ((l : Node) → leader ≡ some l → P l)
    → All P (n ∷ ns)
    → (m : Node) × ((select_among fs c (n ∷ ns) leader indices).0 ≡ some m) × P m
unfolding select_among
select_among-All P [] c n ns leader indices hf hl h = leader_or_first-All P leader n ns hl h
select_among-All P (f ∷ fs) c n ns leader indices hf hl h = take_turn-All P c f fs indices hf

-- In a cluster with a node, a selection returns a node, and what holds of the leader and of every
-- node of the cluster holds of it.
pub select-All {ℓ} :
    (P : Node → Type ℓ) (c : String) (nodes : List Node) (leader : Option Node)
    (indices : Dict String ℕ)
    → nodes ≢ []
    → ((l : Node) → leader ≡ some l → P l)
    → All P nodes
    → (m : Node) × ((select_follower_round_robin c nodes leader indices).0 ≡ some m) × P m
unfolding select_follower_round_robin
select-All P c [] leader indices ne hl h = absurd (ne refl)
select-All P c (n ∷ ns) leader indices ne hl h =
    select_among-All P (followers leader (n ∷ ns)) c n ns leader indices
      (All-imp (λ k. P k × (is_leader leader k ≡ false)) P (followers leader (n ∷ ns)) (λ k q. q.0)
        (followers-All P leader (n ∷ ns) h))
      hl h

followers_nil :
    (leader : Option Node) (nodes : List Node)
    → followers leader nodes ≡ []
    → All (λ n. is_leader leader n ≡ true) nodes
unfolding followers
followers_nil leader [] e = tt
followers_nil leader (n ∷ ns) e = elim (Bool-cases (is_leader leader n)) [
  | inl same ↦ (same, followers_nil leader ns (rw same at e))
  | inr other ↦ absurd (cc (rw other at e))
]

-- The two outcomes of a selection that goes by `fs`, the followers of the cluster.
select_among_cases :
    (fs : List Node) (c : String) (nodes : List Node) (leader : Option Node)
    (indices : Dict String ℕ)
    → All (λ n. Member n nodes × (is_leader leader n ≡ false)) fs
    → (fs ≡ [] → All (λ n. is_leader leader n ≡ true) nodes)
    → ((n : Node) × ((select_among fs c nodes leader indices).0 ≡ some n)
        × Member n nodes
        × (is_leader leader n ≡ false))
      ⊎ (All (λ n. is_leader leader n ≡ true) nodes
          × (select_among fs c nodes leader indices ≡ (leader_or_first leader nodes, indices)))
unfolding select_among
select_among_cases [] c nodes leader indices hf none_left = inr (none_left refl, refl)
select_among_cases (f ∷ fs) c nodes leader indices hf none_left =
    let (m, e, p) =
      take_turn-All (λ n. Member n nodes × (is_leader leader n ≡ false)) c f fs indices hf in
    inl (m, e, p.0, p.1)

-- A selection returns a node of the cluster that is not the leader, or every node of the cluster
-- is the leader: then it falls back to the leader, else to the first node, and no index moves.
pub select_cases :
    (c : String) (nodes : List Node) (leader : Option Node) (indices : Dict String ℕ)
    → ((n : Node) × ((select_follower_round_robin c nodes leader indices).0 ≡ some n)
        × Member n nodes
        × (is_leader leader n ≡ false))
      ⊎ (All (λ n. is_leader leader n ≡ true) nodes
          × (select_follower_round_robin c nodes leader indices
              ≡ (leader_or_first leader nodes, indices)))
unfolding select_follower_round_robin
select_cases c nodes leader indices =
    select_among_cases (followers leader nodes) c nodes leader indices
      (followers-All (λ n. Member n nodes) leader nodes (All-Member nodes))
      (followers_nil leader nodes)
