-- ===== src/Client/Write/Drain.antt =====
-- The cutting of full batches.
use raft_lsmt.Base.{
  ℕ, zero, suc, ◌≤◌, ◌<◌, ◌≡◌, refl, ◌∙◌, ap, List, [], ◌∷◌, ◌++◌, append_assoc, arith, length,
  length-take, length-drop, take, drop, take-append-drop, concat, All, leb, inl, inr, Bool-cases,
}
use raft_lsmt.Client.Datatypes.{Record}
use raft_lsmt.Client.Write.{drain}

-- With a positive size and a round for each record, the batches have exactly the size, fewer
-- records than a batch are left, and both together are the list, in order.
pub drain_lem :
    (fuel size : ℕ) (recs : List Record)
    → 0 < size
    → length recs ≤ fuel
    → All (λ b. length b ≡ size) (drain fuel size recs).0
      × (length (drain fuel size recs).1 < size)
      × (concat (drain fuel size recs).0 ++ (drain fuel size recs).1 ≡ recs)
unfolding drain
drain_lem zero size [] h le = (tt, h, refl)
drain_lem zero size (r ∷ recs) h le = absurd (omega arith)
drain_lem (suc fuel) size recs h le = elim (Bool-cases (leb size (length recs))) [
  | inl full ↦
      let room : size ≤ length recs = ground arith in
      let (sizes, short, joined) =
        drain_lem fuel size (drop size recs) h (omega (arith, length-drop size recs)) in
      rw full (
        (omega (arith, length-take size recs), sizes),
        short,
        append_assoc (take size recs) _ _
            ∙ ap (◌++◌ (take size recs)) joined
            ∙ take-append-drop size recs,
      )
  | inr part ↦ rw part (tt, ground arith, refl)
]
