-- ===== src/Base/Dict.antt =====
-- Python's `dict`: an association list in insertion order. `d[k] = v` keeps the place of a key that
-- is there and puts a new key last.
use mathlib.Core.Path.{◌≡◌, refl, subst₂}
use mathlib.Core.Logic.{inl, inr}
use mathlib.Core.Option.{Option, none, some}
use mathlib.Core.List.{List, [], ◌∷◌, map}
use native.Mathlib.Omega.{arith}
use raft_lsmt.Base.Tests.{Bool-cases, if◌then◌else◌}
use raft_lsmt.Base.Lists.{All}
use raft_lsmt.Base.Equality.{Key, ◌==◌}

abbrev pub Dict {ℓ κ} : Type ℓ → Type κ → Type (ℓ ⊔ κ)
Dict K V = List (K × V)

module _ {ℓ κ} {K : Type ℓ} {V : Type κ} where
  abbrev pub keys : Dict K V → List K
  keys = map (λ e. e.0)

module _ {ℓ κ} {K : Type ℓ} {V : Type κ} ⦃e : Key K⦄ where
  unfoldable pub get : Dict K V → K → Option V
  get [] k = none
  get ((j, v) ∷ d) k = if j == k then some v else get d k

  unfoldable pub set : Dict K V → K → V → Dict K V
  set [] k v = (k, v) ∷ []
  set ((j, w) ∷ d) k v = if j == k then (j, v) ∷ d else (j, w) ∷ set d k v

  -- `d.get(k, default)`.
  unfoldable pub get_default : Dict K V → K → V → V
  get_default d k v = elim (get d k) [ none ↦ v | some w ↦ w ]

  pub get-set :
      (d : Dict K V) (k j : K) (v : V) → get (set d k v) j ≡ (if k == j then some v else get d j)
  unfolding get set
  get-set [] k j v = refl
  get-set ((i, w) ∷ d) k j v =
      ground (arith, e.same_iff i k, e.same_iff i j, e.same_iff k j, get-set d k j v)

  pub get-nil : (k : K) → get [] k ≡ none
  unfolding get
  get-nil k = refl

  -- A property of all entries holds of what a look-up finds.
  pub get-All {μ} :
      (P : K → V → Type μ) (d : Dict K V) (k : K) (v : V)
      → All (λ p. P p.0 p.1) d
      → get d k ≡ some v
      → P k v
  unfolding get
  get-All P [] k v h found = cc
  get-All P ((j, w) ∷ d) k v h found = elim (Bool-cases (j == k)) [
    | inl same ↦ subst₂ P ((e.same_iff j k).0 same) (cc (rw same at found)) h.0
    | inr other ↦ get-All P d k v h.1 (rw other at found)
  ]

  -- A key of the dictionary has a value.
  pub get-keys : (d : Dict K V) → All (λ k. (v : V) × (get d k ≡ some v)) (keys d)
  unfolding get
  get-keys [] = tt
  get-keys ((j, w) ∷ d) = ((w, rw (e.same_iff j j).1 refl), shift d (get-keys d))
    where
      shift :
          (d' : Dict K V)
          → All (λ k. (v : V) × (get d k ≡ some v)) (keys d')
          → All (λ k. (v : V) × (get ((j, w) ∷ d) k ≡ some v)) (keys d')
      shift [] h = tt
      shift ((i, u) ∷ d') h = (first (h.0), shift d' h.1)
        where
          first : ((v : V) × (get d i ≡ some v)) → (v : V) × (get ((j, w) ∷ d) i ≡ some v)
          first (v, found) = elim (Bool-cases (j == i)) [
            | inl same ↦ (w, rw same)
            | inr other ↦ (v, rw other found)
          ]

  pub get_default-set_self : (d : Dict K V) (k : K) (v w : V) → get_default (set d k v) k w ≡ v
  unfolding get_default
  get_default-set_self d k v w = ground (arith, get-set d k k v, e.same_iff k k)
