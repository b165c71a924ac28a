-- ===== src/Client/Routing/Range/Blocks.antt =====
-- The blocks of keys: an insertion and a query use the same partition.
use mathlib.Core.Path.{subst}
use raft_lsmt.Base.{
  ◌↔◌, ap, ◌∙◌, ℕ, zero, suc, ◌+◌, ◌-◌, ◌*◌, ◌/◌, ◌≤◌, ◌<◌, ◌≡◌, refl, ◌⊎◌, inl, inr, true, arith,
  ok, min,
}
use raft_lsmt.Client.Datatypes.{QueryRequest}
use raft_lsmt.Client.Routing.Range.{target_index, meets_block}
use native.Mathlib.Decide.{dec_lt}
use native.Mathlib.Nat.{div-add-mod, mod-lt}

-- The quotient of a division by a positive number.
div_bounds : (a d : ℕ) → 0 < d → (a / d * d ≤ a) × (a < (a / d + 1) * d)
div_bounds a d h = grind (arith, div-add-mod a d, mod-lt a {m = d} h)

-- `key` lies in the block number `i` of `n`.
abbrev pub InBlock : ℕ → ℕ → ℕ → ℕ → Type 0
InBlock chunk n i key =
    (i < n) × ((i ≡ 0) ⊎ (i * chunk + 1 ≤ key)) × ((i ≡ n - 1) ⊎ (key ≤ (i + 1) * chunk))

mul_mono : (a b c : ℕ) → a ≤ b → a * c ≤ b * c
mul_mono a b c h = grind arith

-- The quotient `q`, cut off at the last block, is the number of the block.
cut_off-InBlock :
    (chunk n key q : ℕ)
    → 0 < chunk
    → 0 < n
    → q * chunk ≤ key - 1
    → key - 1 < (q + 1) * chunk
    → InBlock chunk n (min q (n - 1)) key
cut_off-InBlock chunk n key q hc hn lo hi = elim (dec_lt q n) [
  | yes inside ↦
      let e : min q (n - 1) ≡ q = omega arith in rw e (inside, low q lo, inr (omega arith))
  | no past ↦
      let e : min q (n - 1) ≡ n - 1 = omega arith in
      rw e
        (omega arith, low (n - 1) (omega (arith, mul_mono (n - 1) q chunk (omega arith))), inl refl)
]
  where
    low : (p : ℕ) → p * chunk ≤ key - 1 → (p ≡ 0) ⊎ (p * chunk + 1 ≤ key)
    low zero h = inl refl
    low (suc p) h = inr (omega (arith, mul_mono 1 (suc p) chunk (omega arith)))

-- With a cluster and a positive chunk, the index of a key is the number of its block.
pub target_index-InBlock :
    (chunk n key : ℕ)
    → 0 < chunk
    → 0 < n
    → (i : ℕ) × (target_index chunk n key ≡ ok i) × InBlock chunk n i key
unfolding target_index
target_index-InBlock chunk n key hc hn =
    let (lo, hi) = div_bounds (key - 1) chunk hc in
    (
      min ((key - 1) / chunk) (n - 1),
      ground arith,
      cut_off-InBlock chunk n key ((key - 1) / chunk) hc hn lo hi,
    )

-- A key of a block is not a key of an earlier one.
not-earlier : (chunk n i j key : ℕ) → InBlock chunk n i key → InBlock chunk n j key → ¬ (i < j)
not-earlier chunk n i j key a b h = omega (arith, mul_mono (i + 1) j chunk (omega arith))

-- No key lies in two blocks.
pub InBlock-unique : (chunk n i j key : ℕ) → InBlock chunk n i key → InBlock chunk n j key → i ≡ j
InBlock-unique chunk n i j key a b =
    omega (arith, not-earlier chunk n i j key a b, not-earlier chunk n j i key b a)

-- With a cluster and a positive chunk, the blocks partition the keys: an insertion computes the
-- index `i` for a key exactly when the key lies in the block number `i`.
pub target_index_iff :
    (chunk n key i : ℕ)
    → 0 < chunk
    → 0 < n
    → (target_index chunk n key ≡ ok i) ↔ InBlock chunk n i key
target_index_iff chunk n key i hc hn =
    let (j, e, block) = target_index-InBlock chunk n key hc hn in
    (
      λ p. let same : j ≡ i = cc in subst (λ (t : ℕ). InBlock chunk n t key) same block,
      λ b. e ∙ ap ok (InBlock-unique chunk n j i key block b),
    )

-- A query over an interval with the key in it meets the key's block.
pub meets_block_of_key :
    (chunk n i : ℕ) (query : QueryRequest) (key : ℕ)
    → InBlock chunk n i key
    → query.min_id ≤ key
    → key ≤ query.max_id
    → meets_block chunk n i query ≡ true
unfolding meets_block
meets_block_of_key chunk n i query key h lo hi = ground arith
