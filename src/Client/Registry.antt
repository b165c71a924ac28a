-- ===== src/Client/Registry.antt =====
-- client/router.py, class LeaderRegistry. Every method holds the lock for its whole body, so a
-- call is one step on the dictionary.
use raft_lsmt.Base.{
  String, ◌≡◌, Option, none, some, List, [], ◌∷◌, arith, ◌==◌, string_key, if◌then◌else◌,
}
use raft_lsmt.Base.Dict
use raft_lsmt.Base.Dict.{Dict, get-set}
use raft_lsmt.Client.Datatypes.{Node}
use text.Mathlib.TextEquality.{eq_iff}

-- `None` is stored for a leader that was cleared.
pub record LeaderRegistry : Type 0 where
  pub leaders : Dict String (Option Node)

abbrev pub init : LeaderRegistry
init = record { leaders = [] }

unfoldable pub set_leader : LeaderRegistry → Node → LeaderRegistry
set_leader r node = record { leaders = Dict.set r.leaders node.cluster_name (some node) }

-- `self._leaders.get(cluster_name)`: a missing key reads as `None` too.
unfoldable pub get_leader : LeaderRegistry → String → Option Node
get_leader r cluster_name = elim (Dict.get r.leaders cluster_name) [ none ↦ none | some l ↦ l ]

unfoldable pub clear_leader : LeaderRegistry → Node → LeaderRegistry
clear_leader r node = record { leaders = Dict.set r.leaders node.cluster_name none }

unfoldable pub clear_cluster_leader : LeaderRegistry → String → LeaderRegistry
clear_cluster_leader r cluster_name = record { leaders = Dict.set r.leaders cluster_name none }

-- What one thread does to the registry, as the others see it.
pub data LeaderChange : Type 0 where
  leader_set : Node → LeaderChange
  leader_cleared : Node → LeaderChange

-- The registry after some calls of other threads, in the order in which they hold the lock.
unfoldable pub changed : List LeaderChange → LeaderRegistry → LeaderRegistry
changed [] r = r
changed (leader_set node ∷ changes) r = changed changes (set_leader r node)
changed (leader_cleared node ∷ changes) r = changed changes (clear_leader r node)

pub get_leader-set_leader :
    (r : LeaderRegistry) (node : Node) (c : String)
    → get_leader (set_leader r node) c
      ≡ (if node.cluster_name == c then some node else get_leader r c)
unfolding get_leader set_leader
get_leader-set_leader r node c = ground (arith, get-set r.leaders node.cluster_name c (some node))

pub get_leader-clear_leader :
    (r : LeaderRegistry) (node : Node) (c : String)
    → get_leader (clear_leader r node) c ≡ (if node.cluster_name == c then none else get_leader r c)
unfolding get_leader clear_leader
get_leader-clear_leader r node c = ground (arith, get-set r.leaders node.cluster_name c none)

-- A registered leader stands under its own cluster's name.
abbrev pub IsRegistry : LeaderRegistry → Type 0
IsRegistry r = (c : String) (n : Node) → get_leader r c ≡ some n → n.cluster_name ≡ c

pub IsRegistry-init : IsRegistry init
unfolding get_leader
IsRegistry-init c n e = cc (Dict.get-nil {V = Option Node} c)

pub set_leader-IsRegistry :
    (r : LeaderRegistry) (node : Node) → IsRegistry r → IsRegistry (set_leader r node)
set_leader-IsRegistry r node h c n e =
    ground (arith, h c n, get_leader-set_leader r node c, eq_iff node.cluster_name c)

pub clear_leader-IsRegistry :
    (r : LeaderRegistry) (node : Node) → IsRegistry r → IsRegistry (clear_leader r node)
clear_leader-IsRegistry r node h c n e = ground (arith, h c n, get_leader-clear_leader r node c)

pub changed-IsRegistry :
    (changes : List LeaderChange) (r : LeaderRegistry)
    → IsRegistry r
    → IsRegistry (changed changes r)
unfolding changed
changed-IsRegistry [] r h = h
changed-IsRegistry (leader_set node ∷ changes) r h =
    changed-IsRegistry changes (set_leader r node) (set_leader-IsRegistry r node h)
changed-IsRegistry (leader_cleared node ∷ changes) r h =
    changed-IsRegistry changes (clear_leader r node) (clear_leader-IsRegistry r node h)
