-- ===== src/Base/Lanes.antt =====
-- A dictionary of lists, as `defaultdict(list)` gives it, and lists of pairs of a key and a list:
-- what they hold for one key, in order.
use mathlib.Core.Path.{◌≡◌, refl, sym, ap, subst, ◌∙◌}
use mathlib.Core.Logic.{inl, inr}
use mathlib.Core.Bool.{false}
use mathlib.Core.Option.{none, some}
use mathlib.Core.List.{List, [], ◌∷◌, ◌++◌, map, append_assoc, append-nil}
use native.Mathlib.Omega.{arith}
use raft_lsmt.Base.Tests.{Bool-cases, if◌then◌else◌}
use raft_lsmt.Base.Lists.{concat}
use raft_lsmt.Base.Equality.{Key, ◌==◌}
use raft_lsmt.Base.Dict.{Dict, get, set, get_default, get-set}

module _ {ℓ κ} {K : Type ℓ} {A : Type κ} ⦃key : Key K⦄ where
  -- Everything that the pairs hold for a key.
  unfoldable pub items_for : K → List (K × List A) → List A
  items_for n [] = []
  items_for n ((k, xs) ∷ rest) =
      let later = items_for n rest in if k == n then xs ++ later else later

  -- What a dictionary holds for a key: nothing, where the key is missing.
  unfoldable pub lane : Dict K (List A) → K → List A
  lane d n = get_default d n []

  -- `xs` where the two keys are one.
  abbrev pub at_key : K → K → List A → List A
  at_key k n xs = if k == n then xs else []

  pub items_for-append :
      (n : K) (xs ys : List (K × List A))
      → items_for n (xs ++ ys) ≡ items_for n xs ++ items_for n ys
  unfolding items_for
  items_for-append n [] ys = refl
  items_for-append n ((k, v) ∷ xs) ys = elim (Bool-cases (k == n)) [
    | inl same ↦ rw same (
        ap (◌++◌ v) (items_for-append n xs ys)
        ∙ sym (append_assoc v (items_for n xs) (items_for n ys)))
    | inr other ↦ rw other (items_for-append n xs ys)
  ]

  pub items_for-map :
      (n k : K) (bs : List (List A)) → items_for n (map (λ b. (k, b)) bs) ≡ at_key k n (concat bs)
  unfolding items_for
  items_for-map n k [] = elim (Bool-cases (k == n)) [ inl same ↦ rw same | inr other ↦ rw other ]
  items_for-map n k (b ∷ bs) = elim (Bool-cases (k == n)) [
    | inl same ↦ rw same (ap (◌++◌ b) (rw same at (items_for-map n k bs)))
    | inr other ↦ rw other (rw other at (items_for-map n k bs))
  ]

  pub lane-set :
      (d : Dict K (List A)) (k n : K) (xs : List A)
      → lane (set d k xs) n ≡ (if k == n then xs else lane d n)
  unfolding lane get_default
  lane-set d k n xs = ground (arith, get-set d k n xs)

  pub lane-extend :
      (d : Dict K (List A)) (k n : K) (xs : List A)
      → lane (set d k (lane d k ++ xs)) n ≡ lane d n ++ at_key k n xs
  lane-extend d k n xs = elim (Bool-cases (k == n)) [
    | inl same ↦
        lane-set d k n (lane d k ++ xs)
        ∙ rw same (ap (λ (t : K). lane d t ++ xs) ((key.same_iff k n).0 same))
    | inr other ↦ lane-set d k n (lane d k ++ xs) ∙ rw other (sym (append-nil (lane d n)))
  ]

  -- No key stands twice.
  abbrev pub IsDistinct : Dict K (List A) → Type κ
  IsDistinct [] = Unit {κ}
  IsDistinct ((k, xs) ∷ rest) = (get rest k ≡ none) × IsDistinct rest

  get-set_absent :
      (d : Dict K (List A)) (j k : K) (xs : List A)
      → get d j ≡ none
      → (j == k) ≡ false
      → get (set d k xs) j ≡ none
  get-set_absent d j k xs h other =
      ground (arith, get-set d k j xs, key.same_iff j k, key.same_iff k j)

  pub set-IsDistinct :
      (d : Dict K (List A)) (k : K) (xs : List A) → IsDistinct d → IsDistinct (set d k xs)
  unfolding set get
  set-IsDistinct [] k xs h = (refl, tt)
  set-IsDistinct ((j, old) ∷ rest) k xs h = elim (Bool-cases (j == k)) [
    | inl same ↦ rw same h
    | inr other ↦ rw other (get-set_absent rest j k xs h.0 other, set-IsDistinct rest k xs h.1)
  ]

  pub lane_held : (d : Dict K (List A)) (n : K) (xs : List A) → get d n ≡ some xs → lane d n ≡ xs
  unfolding lane get_default
  lane_held d n xs h = rw (h, get_default) refl

  lane_absent : (d : Dict K (List A)) (n : K) → get d n ≡ none → lane d n ≡ []
  unfolding lane get_default
  lane_absent d n h = rw (h, get_default)

  pub lane-cons :
      (d : Dict K (List A)) (k n : K) (xs : List A)
      → lane ((k, xs) ∷ d) n ≡ (if k == n then xs else lane d n)
  unfolding lane get_default get
  lane-cons d k n xs = ground arith

  pub items_for-lane : (d : Dict K (List A)) (n : K) → IsDistinct d → items_for n d ≡ lane d n
  unfolding items_for
  items_for-lane [] n h = sym (lane_absent [] n (unfold get in refl))
  items_for-lane ((k, xs) ∷ rest) n h = elim (Bool-cases (k == n)) [
    | inl same ↦
        let gone : lane rest n ≡ [] =
          lane_absent rest n
            (subst (λ (t : K). get rest t ≡ none) ((key.same_iff k n).0 same) h.0) in
        rw (same, lane-cons rest k n xs, same)
          (ap (◌++◌ xs) (items_for-lane rest n h.1 ∙ gone) ∙ append-nil xs)
    | inr other ↦ rw (other, lane-cons rest k n xs, other) (items_for-lane rest n h.1)
  ]

  pub lane-nil : (n : K) → lane [] n ≡ []
  unfolding get
  lane-nil n = lane_absent [] n refl
