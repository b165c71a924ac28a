-- ===== src/Client/Sockets/Fresh.antt =====
-- `_get_socket` never hands out a socket that is readable from the pool.
use raft_lsmt.Base.{
  ℕ, ◌≡◌, ◌⊎◌, inl, inr, refl, String, Bool, true, false, List, [], ◌∷◌, ◌++◌, All, ap, ◌∙◌, sym,
  Bool-cases, Outcome, ok, ◌==◌,
}
use raft_lsmt.Base.Lanes.{lane, lane-set}
use raft_lsmt.Client.Datatypes.{Node, node_key}
use raft_lsmt.Client.Sockets.{
  PoolKey, pool_key, Sockets, discard_readable, port_of, first_or_dial, get_socket,
}

-- How a socket was found: at the front of what is left of the pool, or by a new connection.
abbrev pub Found : (ℕ → Bool) → Outcome ℕ → List ℕ → List ℕ → ℕ → Type 0
Found readable dialled left pool sock =
    ((left ≡ sock ∷ pool) × (readable sock ≡ false))
    ⊎ ((left ≡ []) × (pool ≡ []) × (dialled ≡ ok sock))

discard_readable_lem :
    (readable : ℕ → Bool) (socks : List ℕ)
    → ((discard_readable readable socks).0 ++ (discard_readable readable socks).1 ≡ socks)
      × All (λ s. readable s ≡ true) (discard_readable readable socks).0
unfolding discard_readable
discard_readable_lem readable [] = (refl, tt)
discard_readable_lem readable (s ∷ socks) =
    let (joined, all) = discard_readable_lem readable socks in
    elim (Bool-cases (readable s)) [
      | inl stale ↦ rw stale (ap (◌∷◌ s) joined, (stale, all))
      | inr silent ↦ rw silent (refl, tt)
    ]

discard_readable_first :
    (readable : ℕ → Bool) (socks left : List ℕ) (s : ℕ)
    → (discard_readable readable socks).1 ≡ s ∷ left
    → readable s ≡ false
unfolding discard_readable
discard_readable_first readable [] left s e = cc
discard_readable_first readable (t ∷ socks) left s e = elim (Bool-cases (readable t)) [
  | inl stale ↦ discard_readable_first readable socks left s (rw stale at e)
  | inr silent ↦ let same : t ≡ s = cc (rw silent at e) in ap readable (sym same) ∙ silent
]

first_or_dial_lem :
    (readable : ℕ → Bool) (dialled : Outcome ℕ) (left : List ℕ) (sock : ℕ)
    → ((s : ℕ) (more : List ℕ) → left ≡ s ∷ more → readable s ≡ false)
    → (first_or_dial dialled left).0 ≡ ok sock
    → Found readable dialled left (first_or_dial dialled left).1 sock
unfolding first_or_dial
first_or_dial_lem readable dialled [] sock silent e = inr (refl, refl, e)
first_or_dial_lem readable dialled (s ∷ left) sock silent e =
    let same : s ≡ sock = cc in
    inl (ap (λ (t : ℕ). t ∷ left) same, ap readable (sym same) ∙ silent s left refl)

-- Where a socket is returned, the pool began with readable sockets, which are closed. The socket is
-- the first one behind them and is not readable, and the rest of the pool is kept; or there was
-- none, and it is a new connection to the port for the purpose.
pub get_socket_fresh :
    (readable : ℕ → Bool) (dial : String → ℕ → Outcome ℕ) (node : Node) (for_query : Bool)
    (self : Sockets) (sock : ℕ)
    → (get_socket readable dial node for_query self).0 ≡ ok sock
    → let after = (get_socket readable dial node for_query self).1 in
      (stale : List ℕ) × (left : List ℕ) × (lane self.pools (node, for_query) ≡ stale ++ left)
      × All (λ s. readable s ≡ true) stale
      × (after.closed ≡ self.closed ++ stale)
      × Found readable
          (dial node.host (port_of node for_query))
          left
          (lane after.pools (node, for_query))
          sock
unfolding get_socket
get_socket_fresh readable dial node for_query self sock e =
    let pool = lane self.pools (node, for_query) in
    let (joined, all) = discard_readable_lem readable pool in
    let dialled = dial node.host (port_of node for_query) in
    let (stale, left) = discard_readable readable pool in
    let kept =
      lane-set self.pools (node, for_query) (node, for_query) (first_or_dial dialled left).1 in
    (
      stale,
      left,
      sym joined,
      all,
      refl,
      rw (kept, (pool_key.same_iff (node, for_query) (node, for_query)).1 refl)
          (first_or_dial_lem readable dialled left sock
            (λ s more. discard_readable_first readable pool more s) e),
    )

-- The other pools are as they were.
pub get_socket_others :
    (readable : ℕ → Bool) (dial : String → ℕ → Outcome ℕ) (node : Node) (for_query : Bool)
    (self : Sockets) (other : PoolKey)
    → ((node, for_query) == other) ≡ false
    → lane (get_socket readable dial node for_query self).1.pools other ≡ lane self.pools other
unfolding get_socket
get_socket_others readable dial node for_query self other apart =
    lane-set self.pools (node, for_query) other _ ∙ rw apart refl
