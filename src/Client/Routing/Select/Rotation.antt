-- ===== src/Client/Routing/Select/Rotation.antt =====
-- Successive selections in one cluster rotate through its followers.
use raft_lsmt.Base.{
  ℕ, zero, suc, ◌+◌, ◌%◌, ◌<◌, String, ◌≡◌, ◌∙◌, ap, Option, some, List, [], ◌∷◌, arith, length,
  get_elem?, string_key,
}
use raft_lsmt.Base.Dict
use raft_lsmt.Base.Dict.{Dict, get_default-set_self}
use raft_lsmt.Client.Datatypes.{Node}
use raft_lsmt.Client.Routing.Select.{
  followers, take_turn, select_among, select_follower_round_robin,
}
use native.Mathlib.Nat.{mod-add-mod, add-zero}

-- What `k` selections in a row return, while the nodes and the leader stay as they are.
unfoldable pub selections :
    ℕ → String → List Node → Option Node → Dict String ℕ → List (Option Node)
selections zero c nodes leader indices = []
selections (suc k) c nodes leader indices =
    let turn = select_follower_round_robin c nodes leader indices in
    turn.0 ∷ selections k c nodes leader turn.1

next_turn : (i j n : ℕ) → ((i + 1) % n + j) % n ≡ (i + suc j) % n
next_turn i j n = mod-add-mod (i + 1) n j ∙ ap (λ (t : ℕ). t % n) (omega arith)

select_turn :
    (c : String) (nodes : List Node) (leader : Option Node) (indices : Dict String ℕ) (f : Node)
    (fs : List Node)
    → followers leader nodes ≡ f ∷ fs
    → select_follower_round_robin c nodes leader indices ≡ take_turn c (f ∷ fs) indices
unfolding select_follower_round_robin select_among
select_turn c nodes leader indices f fs e = rw (e, select_among)

-- From the index `i`, the selection number `j` of `k` returns the follower number
-- `(i + j) % length`, so that a round of `length` selections asks every follower once.
pub selections_rotate :
    (k j : ℕ) (c : String) (nodes : List Node) (leader : Option Node) (indices : Dict String ℕ)
    (f : Node) (fs : List Node)
    → followers leader nodes ≡ f ∷ fs
    → j < k
    → get_elem? (selections k c nodes leader indices) j
      ≡ some (get_elem? (f ∷ fs) ((Dict.get_default indices c 0 + j) % length (f ∷ fs)))
unfolding selections take_turn
selections_rotate zero j c nodes leader indices f fs e h = absurd (omega arith)
selections_rotate (suc k) zero c nodes leader indices f fs e h =
    rw (select_turn c nodes leader indices f fs e, add-zero)
selections_rotate (suc k) (suc j) c nodes leader indices f fs e h =
    let i = Dict.get_default indices c 0 in
    let n = length (f ∷ fs) in
    rw (select_turn c nodes leader indices f fs e) (
      selections_rotate k j c nodes leader (Dict.set indices c ((i + 1) % n)) f fs e (omega arith)
      ∙ ap (λ (t : ℕ). some (get_elem? (f ∷ fs) ((t + j) % n)))
          (get_default-set_self indices c ((i + 1) % n) 0)
      ∙ ap (λ (t : ℕ). some (get_elem? (f ∷ fs) t)) (next_turn i j n))
