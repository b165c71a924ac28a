-- ===== src/Client/Sockets/Leaders.antt =====
-- The leaders after `connect`.
use raft_lsmt.Base.{
  ℕ, ◌≡◌, ◌⊎◌, inl, inr, sym, ap, ◌∙◌, String, Bool, false, some, List, [], ◌∷◌, ◌++◌, Bool-cases,
  Outcome, Outcome-cases, ok, ◌==◌, string_key,
}
use raft_lsmt.Client.Datatypes.{Node}
use raft_lsmt.Client.Registry.{LeaderRegistry, get_leader, get_leader-set_leader}
use raft_lsmt.Client.Routing.Names.{Clusters}
use raft_lsmt.Client.Sockets.{Sockets, connect_nodes, connect_clusters, connect}

-- The node can be connected to, and stays silent.
abbrev pub IsSilent : (ℕ → Bool) → (String → ℕ → Outcome ℕ) → Node → Type 0
IsSilent readable dial n = (s : ℕ) × (dial n.host n.port ≡ ok s) × (readable s ≡ false)

abbrev pub Known : (ℕ → Bool) → (String → ℕ → Outcome ℕ) → LeaderRegistry → String → Node → Type 0
Known readable dial before c n = (get_leader before c ≡ some n) ⊎ IsSilent readable dial n

module _ (readable : ℕ → Bool) (dial : String → ℕ → Outcome ℕ) where
  connect_nodes_leaders :
      (nodes : List Node) (self : Sockets) (registry : LeaderRegistry) (c : String) (n : Node)
      → get_leader (connect_nodes readable dial nodes self registry).1 c ≡ some n
      → Known readable dial registry c n
  unfolding connect_nodes
  connect_nodes_leaders [] self registry c n e = inl e
  connect_nodes_leaders (node ∷ nodes) self registry c n e =
      elim (Outcome-cases (dial node.host node.port)) [
        | inr (x, refused) ↦
            connect_nodes_leaders nodes self registry c n (rw (refused, connect_nodes) at e)
        | inl (sock, open_) ↦ elim (Bool-cases (readable sock)) [
          | inl redirects ↦
              connect_nodes_leaders nodes (record self { closed = self.closed ++ sock ∷ [] })
                registry c n (rw (open_, redirects, connect_nodes) at e)
          | inr silent ↦
              let e' =
                rw (open_, silent, connect_nodes, get_leader-set_leader registry node c) at e in
              elim (Bool-cases (node.cluster_name == c)) [
                | inl same ↦
                    let it : node ≡ n = cc (rw same at e') in
                    inr (sock, ap (λ (t : Node). dial t.host t.port) (sym it) ∙ open_, silent)
                | inr other ↦ inl (rw other at e')
              ]
        ]
      ]

  connect_leaders_from :
      (clusters : Clusters) (self : Sockets) (registry : LeaderRegistry) (c : String) (n : Node)
      → get_leader (connect_clusters readable dial clusters self registry).1 c ≡ some n
      → Known readable dial registry c n
  unfolding connect_clusters
  connect_leaders_from [] self registry c n e = inl e
  connect_leaders_from ((name, nodes) ∷ rest) self registry c n e =
      let (sockets, leaders) = connect_nodes readable dial nodes self registry in
      elim (connect_leaders_from rest sockets leaders c n e) [
        | inl before ↦ connect_nodes_leaders nodes self registry c n before
        | inr silent ↦ inr silent
      ]

-- A leader that is known after `connect` was known before, or is a node that could be connected to
-- and stayed silent.
pub connect_leaders :
    (readable : ℕ → Bool) (dial : String → ℕ → Outcome ℕ) (clusters : Clusters) (self : Sockets)
    (registry : LeaderRegistry) (c : String) (n : Node)
    → get_leader (connect readable dial clusters self registry).2 c ≡ some n
    → (get_leader registry c ≡ some n) ⊎ IsSilent readable dial n
unfolding connect
connect_leaders readable dial clusters self registry c n e =
    connect_leaders_from readable dial clusters self registry c n e
