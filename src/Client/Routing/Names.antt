-- ===== src/Client/Routing/Names.antt =====
-- `sorted(list(clusters.keys()))`: Python compares texts by code points, from the left.
use Prim.Native.Char.{code}
use Prim.Native.String.{String}
use raft_lsmt.Base.{
  ℕ, suc, ◌+◌, ◌≡◌, ◌≢◌, ◌<◌, refl, Bool, true, false, List, [], ◌∷◌, map, arith, ltb,
  if◌then◌else◌, length, All, Bool-cases, inl, inr, ap, ◌∙◌,
}
use raft_lsmt.Base.Dict.{Dict, keys}
use raft_lsmt.Client.Datatypes.{Node}

-- The cluster map: the nodes of each cluster under its name.
abbrev pub Clusters : Type 0
Clusters = Dict String (List Node)

abbrev codes : String → List ℕ
codes String.[] = []
codes (String.◌∷◌ c s) = code c ∷ codes s

codes_le : List ℕ → List ℕ → Bool
codes_le [] ys = true
codes_le (x ∷ xs) [] = false
codes_le (x ∷ xs) (y ∷ ys) =
    let rest = codes_le xs ys in if ltb x y then true else if ltb y x then false else rest

insert_name : String → List String → List String
unfolding codes_le
insert_name s [] = s ∷ []
insert_name s (t ∷ ts) =
    let rest = insert_name s ts in if codes_le (codes s) (codes t) then s ∷ t ∷ ts else t ∷ rest

unfoldable pub sorted : List String → List String
unfolding insert_name
sorted [] = []
sorted (s ∷ ss) = insert_name s (sorted ss)

unfoldable pub cluster_names : Clusters → List String
unfolding sorted
cluster_names clusters = sorted (keys clusters)

length-insert_name : (s : String) (ts : List String) → length (insert_name s ts) ≡ length ts + 1
unfolding insert_name
length-insert_name s [] = omega arith
length-insert_name s (t ∷ ts) = ground (arith, length-insert_name s ts)

length-sorted : (ss : List String) → length (sorted ss) ≡ length ss
unfolding sorted
length-sorted [] = refl
length-sorted (s ∷ ss) = omega (arith, length-insert_name s (sorted ss), length-sorted ss)

module _ {ℓ} (P : String → Type ℓ) where
  All-insert_name : (s : String) (ts : List String) → P s → All P ts → All P (insert_name s ts)
  unfolding insert_name
  All-insert_name s [] hs h = (hs, tt)
  All-insert_name s (t ∷ ts) hs h = elim (Bool-cases (codes_le (codes s) (codes t))) [
    | inl le ↦ rw le (hs, h)
    | inr gt ↦ rw gt (h.0, All-insert_name s ts hs h.1)
  ]

  pub All-sorted : (ss : List String) → All P ss → All P (sorted ss)
  unfolding sorted
  All-sorted [] h = tt
  All-sorted (s ∷ ss) h = All-insert_name s (sorted ss) h.0 (All-sorted ss h.1)

length-map_keys {ℓ κ} :
    {A : Type ℓ} {B : Type κ} (f : A → B) (xs : List A) → length (map f xs) ≡ length xs
length-map_keys f [] = refl
length-map_keys f (x ∷ xs) = ap suc (length-map_keys f xs)

pub length-cluster_names : (clusters : Clusters) → length (cluster_names clusters) ≡ length clusters
unfolding cluster_names
length-cluster_names clusters = length-sorted (keys clusters) ∙ length-map_keys _ clusters

pub cluster_names_pos : (clusters : Clusters) → clusters ≢ [] → 0 < length (cluster_names clusters)
cluster_names_pos [] h = absurd (h refl)
cluster_names_pos (c ∷ cs) h = omega (arith, length-cluster_names (c ∷ cs))
