-- ===== src/Base/Grouping.antt =====
-- Grouping by a key into a dictionary, element by element, against its description: the keys in the
-- order in which they come first, each with what becomes of the elements of that key.
use mathlib.Core.Path.{◌≡◌, refl, sym, ap, subst, ◌∙◌}
use mathlib.Core.Logic.{◌≢◌, inl, inr}
use mathlib.Core.Bool.{Bool, true, false}
use mathlib.Core.List.{List, [], ◌∷◌, ◌++◌, map, foldl, foldl-append, append_assoc, append-nil}
use raft_lsmt.Base.Tests.{Bool-cases, if◌then◌else◌}
use raft_lsmt.Base.Lists.{All, Member, here, there}
use raft_lsmt.Base.Equality.{Key, ◌==◌}
use raft_lsmt.Base.Dict.{Dict, get, set, get_default}

module _ {ℓ} {K : Type ℓ} ⦃e : Key K⦄ where
  -- A key is listed where it comes first.
  abbrev pub listed : List K → K → Bool
  listed [] k = false
  listed (j ∷ ks) k = let later = listed ks k in if j == k then true else later

  abbrev pub list_key : List K → K → List K
  list_key ks k = if listed ks k then ks else ks ++ k ∷ []

  abbrev pub distinct : List K → List K
  distinct ks = foldl list_key [] ks

  -- The elements of a key.
  abbrev pub having {κ} : {A : Type κ} → (A → K) → K → List A → List A
  having key k [] = []
  having key k (x ∷ xs) = let later = having key k xs in if key x == k then x ∷ later else later

  pub having-append {κ} :
      {A : Type κ} (key : A → K) (k : K) (xs ys : List A)
      → having key k (xs ++ ys) ≡ having key k xs ++ having key k ys
  having-append key k [] ys = refl
  having-append key k (x ∷ xs) ys = elim (Bool-cases (key x == k)) [
    | inl same ↦ rw same (ap (◌∷◌ x) (having-append key k xs ys))
    | inr other ↦ rw other (having-append key k xs ys)
  ]

  pub having-All {κ} :
      {A : Type κ} (key : A → K) (P : A → Type κ) (k : K) (xs : List A)
      → All P xs
      → All P (having key k xs)
  having-All key P k [] h = tt
  having-All key P k (x ∷ xs) h = elim (Bool-cases (key x == k)) [
    | inl same ↦ rw same (h.0, having-All key P k xs h.1)
    | inr other ↦ rw other (having-All key P k xs h.1)
  ]

  pub having-Member {κ} :
      {A : Type κ} (key : A → K) (xs : List A) (y : A)
      → Member y xs
      → Member y (having key (key y) xs)
  having-Member key [] y m = elim m [ ]
  having-Member key (x ∷ xs) y (here same) =
      rw ((e.same_iff (key x) (key y)).1 (ap key same)) (here same)
  having-Member key (x ∷ xs) y (there m) =
      let later = having-Member key xs y m in
      elim (Bool-cases (key x == key y)) [
        | inl same ↦ rw same (there later)
        | inr other ↦ rw other later
      ]

module _ {ℓ κ μ} {K : Type ℓ} {A : Type κ} {V : Type μ} ⦃e : Key K⦄ (key : A → K) (start : V)
    (update : V → A → V) where
  -- One element into the dictionary, with the default for a new key.
  abbrev pub put_in : Dict K V → A → Dict K V
  put_in d x = set d (key x) (update (get_default d (key x) start) x)

  -- What a key is mapped to in the end.
  abbrev pub value_of : List A → K → V
  value_of xs k = foldl update start (having key k xs)

  -- A dictionary as a list of keys says.
  abbrev tabled : (K → V) → List K → Dict K V
  tabled f ks = map (λ k. (k, f k)) ks

  -- No key stands twice.
  abbrev IsUnique : List K → Type ℓ
  IsUnique [] = Unit
  IsUnique (k ∷ ks) = All (λ j. j ≢ k) ks × IsUnique ks

  tabled-other :
      (f f' : K → V) (k : K) (ks : List K)
      → ((j : K) → j ≢ k → f' j ≡ f j)
      → All (λ j. j ≢ k) ks
      → tabled f ks ≡ tabled f' ks
  tabled-other f f' k [] same h = refl
  tabled-other f f' k (j ∷ ks) same h = rw (sym (same j h.0), tabled-other f f' k ks same h.1) refl

  list_key-cons :
      (j k : K) (ks : List K)
      → j ∷ list_key ks k ≡ (if listed ks k then j ∷ ks else j ∷ (ks ++ k ∷ []))
  list_key-cons j k ks = elim (Bool-cases (listed ks k)) [
    | inl old ↦ rw old refl
    | inr new ↦ rw new refl
  ]

  set-tabled :
      (f f' : K → V) (ks : List K) (k : K)
      → IsUnique ks
      → ((j : K) → j ≢ k → f' j ≡ f j)
      → set (tabled f ks) k (f' k) ≡ tabled f' (list_key ks k)
  unfolding set
  set-tabled f f' [] k h same = refl
  set-tabled f f' (j ∷ ks) k h same = elim (Bool-cases (j == k)) [
    | inl it ↦
        let eq = (e.same_iff j k).0 it in
        rw it (
          ap (λ v. (j, v) ∷ tabled f ks) (ap f' (sym eq))
          ∙ ap (◌∷◌ (j, f' j))
              (tabled-other f f' k ks same (subst (λ i. All (λ l. l ≢ i) ks) eq h.0)))
    | inr other ↦
        let differ : j ≢ k = λ eq. cc (other, (e.same_iff j k).1 eq) in
        rw other (
          ap (◌∷◌ (j, f j)) (set-tabled f f' ks k h.1 same)
          ∙ ap (λ v. (j, v) ∷ tabled f' (list_key ks k)) (sym (same j differ))
          ∙ ap (tabled f') (list_key-cons j k ks))
  ]

  listed_none : (ks : List K) (k : K) → listed ks k ≡ false → All (λ j. j ≢ k) ks
  listed_none [] k h = tt
  listed_none (j ∷ ks) k h = elim (Bool-cases (j == k)) [
    | inl it ↦ cc (rw it at h)
    | inr other ↦ ((λ eq. cc (other, (e.same_iff j k).1 eq)), listed_none ks k (rw other at h))
  ]

  All-snoc {ν} : (P : K → Type ν) (ks : List K) (k : K) → All P ks → P k → All P (ks ++ k ∷ [])
  All-snoc P [] k h p = (p, tt)
  All-snoc P (j ∷ ks) k h p = (h.0, All-snoc P ks k h.1 p)

  snoc-IsUnique :
      (ks : List K) (k : K) → IsUnique ks → All (λ j. j ≢ k) ks → IsUnique (ks ++ k ∷ [])
  snoc-IsUnique [] k h new = (tt, tt)
  snoc-IsUnique (j ∷ ks) k h new =
      (All-snoc (λ i. i ≢ j) ks k h.0 (λ eq. new.0 (sym eq)), snoc-IsUnique ks k h.1 new.1)

  list_key-IsUnique : (ks : List K) (k : K) → IsUnique ks → IsUnique (list_key ks k)
  list_key-IsUnique ks k h = elim (Bool-cases (listed ks k)) [
    | inl old ↦ rw old h
    | inr new ↦ rw new (snoc-IsUnique ks k h (listed_none ks k new))
  ]

  listed_snoc :
      (ks : List K) (j k : K) → listed (ks ++ k ∷ []) j ≡ false → (listed ks j ≡ false) × (k ≢ j)
  listed_snoc [] j k h = elim (Bool-cases (k == j)) [
    | inl it ↦ cc (rw it at h)
    | inr other ↦ (refl, (λ eq. cc (other, (e.same_iff k j).1 eq)))
  ]
  listed_snoc (i ∷ ks) j k h = elim (Bool-cases (i == j)) [
    | inl it ↦ cc (rw it at h)
    | inr other ↦ rw other (listed_snoc ks j k (rw other at h))
  ]

  listed-list_key :
      (ks : List K) (j k : K) → listed (list_key ks k) j ≡ false → (listed ks j ≡ false) × (k ≢ j)
  listed-list_key ks j k h = elim (Bool-cases (listed ks k)) [
    | inl old ↦ let h' = rw old at h in (h', (λ eq. cc (ap (listed ks) eq, old, h')))
    | inr new ↦ listed_snoc ks j k (rw new at h)
  ]

  get_default-tabled :
      (f : K → V) (ks : List K) (k : K)
      → (listed ks k ≡ false → f k ≡ start)
      → get_default (tabled f ks) k start ≡ f k
  unfolding get_default get
  get_default-tabled f [] k h = sym (h refl)
  get_default-tabled f (j ∷ ks) k h = elim (Bool-cases (j == k)) [
    | inl it ↦ rw (it, get_default) (ap f ((e.same_iff j k).0 it))
    | inr other ↦ rw (other, get_default) (get_default-tabled f ks k (rw other at h))
  ]

  -- The dictionary after some elements.
  record IsTable (done : List A) (ks : List K) (d : Dict K V) : Type (ℓ ⊔ κ ⊔ μ) where
    table : d ≡ tabled (value_of done) ks
    unique : IsUnique ks
    complete : (k : K) → listed ks k ≡ false → having key k done ≡ []

  having_other :
      (done : List A) (x : A) (k : K)
      → k ≢ key x
      → having key k (done ++ x ∷ []) ≡ having key k done
  having_other done x k differ = elim (Bool-cases (key x == k)) [
    | inl it ↦ absurd (differ (sym ((e.same_iff (key x) k).0 it)))
    | inr other ↦ having-append key k done (x ∷ []) ∙ rw other (append-nil (having key k done))
  ]

  having_same :
      (done : List A) (x : A)
      → having key (key x) (done ++ x ∷ []) ≡ having key (key x) done ++ x ∷ []
  having_same done x =
      having-append key (key x) done (x ∷ []) ∙ rw ((e.same_iff (key x) (key x)).1 refl) refl

  value_of_other :
      (done : List A) (x : A) (k : K) → k ≢ key x → value_of (done ++ x ∷ []) k ≡ value_of done k
  value_of_other done x k differ = ap (foldl update start) (having_other done x k differ)

  value_of_same :
      (done : List A) (x : A) → value_of (done ++ x ∷ []) (key x) ≡ update (value_of done (key x)) x
  value_of_same done x =
      ap (foldl update start) (having_same done x)
      ∙ foldl-append update start (having key (key x) done) (x ∷ [])

  put_in-IsTable :
      (done : List A) (ks : List K) (d : Dict K V) (x : A)
      → IsTable done ks d
      → IsTable (done ++ x ∷ []) (list_key ks (key x)) (put_in d x)
  put_in-IsTable done ks d x h =
      let k = key x in
      let old : get_default d k start ≡ value_of done k =
        ap (λ t. get_default t k start) h.table
        ∙ get_default-tabled (value_of done) ks k
            (λ new. ap (foldl update start) (h.complete k new)) in
      record {
        table =
            ap (λ t. set t k (update (get_default d k start) x)) h.table
            ∙ ap (λ v. set (tabled (value_of done) ks) k (update v x)) old
            ∙ ap (set (tabled (value_of done) ks) k) (sym (value_of_same done x))
            ∙ set-tabled (value_of done) (value_of (done ++ x ∷ [])) ks k h.unique
                (λ j differ. value_of_other done x j differ);
        unique = list_key-IsUnique ks k h.unique;
        complete = λ j new.
            let (before, differ) = listed-list_key ks j k new in
            having_other done x j (λ eq. differ (sym eq)) ∙ h.complete j before;
      }

  all-IsTable :
      (xs done : List A) (ks : List K) (d : Dict K V)
      → IsTable done ks d
      → IsTable (done ++ xs) (foldl list_key ks (map key xs)) (foldl put_in d xs)
  all-IsTable [] done ks d h = subst (λ t. IsTable t ks d) (sym (append-nil done)) h
  all-IsTable (x ∷ xs) done ks d h =
      subst
        (λ t.
          IsTable t (foldl list_key (list_key ks (key x)) (map key xs))
            (foldl put_in (put_in d x) xs))
        (append_assoc done (x ∷ []) xs)
        (all-IsTable xs (done ++ x ∷ []) (list_key ks (key x)) (put_in d x)
          (put_in-IsTable done ks d x h))

  -- The dictionary that a loop over a list builds: the distinct keys, in the order in which they
  -- come first, each with the value of its elements.
  pub put_in_all :
      (xs : List A) → foldl put_in [] xs ≡ map (λ k. (k, value_of xs k)) (distinct (map key xs))
  put_in_all xs =
      (all-IsTable xs [] [] [] (record { table = refl; unique = tt; complete = λ k h. refl })).table
