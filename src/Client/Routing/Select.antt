-- ===== src/Client/Routing/Select.antt =====
-- client/routing_strats.py, `_select_follower_round_robin`: which node of a cluster a query asks.
-- The function holds the lock while it reads and advances the index, so it is one step.
pub mod Rotation
pub mod Choice
use raft_lsmt.Base.{
  ℕ, ◌+◌, ◌%◌, String, Bool, false, Option, none, some, List, [], ◌∷◌, ◌==◌, string_key, length,
  get_elem?, if◌then◌else◌,
}
use raft_lsmt.Base.Dict
use raft_lsmt.Base.Dict.{Dict}
use raft_lsmt.Client.Datatypes.{Node, node_key}

-- `n != leader` is true of every node where no leader is known.
abbrev pub is_leader : Option Node → Node → Bool
is_leader none n = false
is_leader (some l) n = n == l

-- `[n for n in nodes if n != leader]`.
unfoldable pub followers : Option Node → List Node → List Node
followers leader [] = []
followers leader (n ∷ ns) =
    let rest = followers leader ns in if is_leader leader n then rest else n ∷ rest

-- `leader if leader else (nodes[0] if nodes else None)`.
unfoldable pub leader_or_first : Option Node → List Node → Option Node
leader_or_first (some l) nodes = some l
leader_or_first none [] = none
leader_or_first none (n ∷ ns) = some n

-- The turn of `cluster_name` among followers that are there: `followers[idx % len(followers)]`.
unfoldable pub take_turn : String → List Node → Dict String ℕ → Option Node × Dict String ℕ
take_turn cluster_name fs indices =
    let idx = Dict.get_default indices cluster_name 0 in
    (get_elem? fs (idx % length fs), Dict.set indices cluster_name ((idx + 1) % length fs))

-- What is done with the followers: none of them, or a turn.
unfoldable pub select_among :
    List Node → String → List Node → Option Node → Dict String ℕ → Option Node × Dict String ℕ
select_among [] cluster_name nodes leader indices = (leader_or_first leader nodes, indices)
select_among (f ∷ fs) cluster_name nodes leader indices = take_turn cluster_name (f ∷ fs) indices

unfoldable pub select_follower_round_robin :
    String → List Node → Option Node → Dict String ℕ → Option Node × Dict String ℕ
select_follower_round_robin cluster_name nodes leader indices =
    select_among (followers leader nodes) cluster_name nodes leader indices
