-- ===== src/Base/Equality.antt =====
-- Python's `==` on the types that serve as dictionary keys, as an interface.
use Prim.Native.Nat.{ℕ}
use Prim.Native.String.{String}
use mathlib.Core.Path.{◌≡◌, refl, ap}
use mathlib.Core.Option.{Option, none, some}
use mathlib.Core.Logic.{◌↔◌}
use mathlib.Core.Bool.{Bool, true, false}
use raft_lsmt.Base.Tests.{nat_beq, nat_beq_iff}
use text.Mathlib.Text
use text.Mathlib.TextEquality

-- The types whose values a dictionary can hold as keys.
pub record Key {ℓ} (K : Type ℓ) : Type ℓ where
  pub same_key : K → K → Bool
  pub same_iff : (j k : K) → (same_key j k ≡ true) ↔ (j ≡ k)

module _ {ℓ} {K : Type ℓ} ⦃key : Key K⦄ where
  infix 50 ◌==◌
  abbrev pub ◌==◌ : K → K → Bool
  j == k = key.same_key j k

instance abbrev pub string_key : Key String
string_key = record { same_key = Text.◌==◌; same_iff = TextEquality.eq_iff }

instance abbrev pub nat_key : Key ℕ
nat_key = record { same_key = nat_beq; same_iff = nat_beq_iff }

-- `None` is a key of its own.
abbrev option_same {ℓ} : {K : Type ℓ} → (K → K → Bool) → Option K → Option K → Bool
option_same f none none = true
option_same f none (some k) = false
option_same f (some j) none = false
option_same f (some j) (some k) = f j k

module _ {ℓ} {K : Type ℓ} ⦃key : Key K⦄ where
  pub option_same_iff : (j k : Option K) → (option_same key.same_key j k ≡ true) ↔ (j ≡ k)
  option_same_iff none none = ((λ e. refl), (λ e. refl))
  option_same_iff none (some k) = ((λ e. cc), (λ e. cc))
  option_same_iff (some j) none = ((λ e. cc), (λ e. cc))
  option_same_iff (some j) (some k) =
      ((λ e. ap some ((key.same_iff j k).0 e)), (λ e. (key.same_iff j k).1 (cc)))

  instance abbrev pub option_key : Key (Option K)
  option_key = record { same_key = option_same key.same_key; same_iff = option_same_iff }
