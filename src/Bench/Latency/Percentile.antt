-- ===== src/Bench/Latency/Percentile.antt =====
-- Percentiles of sorted samples.
use raft_lsmt.Base.{
  ℕ, zero, suc, ◌+◌, ◌-◌, ◌*◌, ◌/◌, ◌%◌, ◌<◌, ◌≤◌, ◌≡◌, ◌⊎◌, inl, inr, refl, true, false, ◌≢◌, sym,
  ap, subst, min, ◌∙◌, List, [], ◌∷◌, length, arith, leb, All, All-imp, Bool-cases, ◌==◌, nat_key,
  some, get_elem?, get_elem?_lt,
}
use native.Mathlib.Nat.{mod-lt}
use native.Mathlib.Decide.{dec_le, dec_lt}
use raft_lsmt.Bench.Latency.{insert_sorted, sort, sample, upper_index, calculate_percentile}

-- No sample is above a later one.
abbrev pub IsSorted : List ℕ → Type 0
IsSorted [] = Unit {0}
IsSorted (x ∷ xs) = All (λ y. x ≤ y) xs × IsSorted xs

insert_sorted-All :
    (P : ℕ → Type 0) (x : ℕ) (ys : List ℕ) → P x → All P ys → All P (insert_sorted x ys)
unfolding insert_sorted
insert_sorted-All P x [] p h = (p, tt)
insert_sorted-All P x (y ∷ ys) p h = elim (Bool-cases (leb x y)) [
  | inl le ↦ rw le (p, h)
  | inr gt ↦ rw gt (h.0, insert_sorted-All P x ys p h.1)
]

insert_sorted-IsSorted : (x : ℕ) (ys : List ℕ) → IsSorted ys → IsSorted (insert_sorted x ys)
unfolding insert_sorted
insert_sorted-IsSorted x [] h = (tt, tt)
insert_sorted-IsSorted x (y ∷ ys) h = elim (dec_le x y) [
  | yes le ↦
      let test : leb x y ≡ raft_lsmt.Base.true = ground arith in
      rw test ((le, All-imp (λ z. y ≤ z) (λ z. x ≤ z) ys (λ z l. omega arith) h.0), h)
  | no gt ↦
      let test : leb x y ≡ raft_lsmt.Base.false = ground arith in
      rw test
        (insert_sorted-All (λ z. y ≤ z) x ys (omega arith) h.0, insert_sorted-IsSorted x ys h.1)
]

sort-IsSorted : (xs : List ℕ) → IsSorted (sort xs)
unfolding sort
sort-IsSorted [] = tt
sort-IsSorted (x ∷ xs) = insert_sorted-IsSorted x (sort xs) (sort-IsSorted xs)

-- Samples grow with their index.
sample_All : (P : ℕ → Type 0) (xs : List ℕ) (i : ℕ) → All P xs → i < length xs → P (sample xs i)
unfolding sample
sample_All P [] i h lt = absurd (omega arith)
sample_All P (x ∷ xs) zero h lt = h.0
sample_All P (x ∷ xs) (suc i) h lt = sample_All P xs i h.1 (omega arith)

sample_le :
    (xs : List ℕ) (i j : ℕ) → IsSorted xs → i ≤ j → j < length xs → sample xs i ≤ sample xs j
unfolding sample
sample_le [] i j h le lt = absurd (omega arith)
sample_le (x ∷ xs) zero zero h le lt = omega arith
sample_le (x ∷ xs) zero (suc j) h le lt = sample_All (λ y. x ≤ y) xs j h.0 (omega arith)
sample_le (x ∷ xs) (suc i) zero h le lt = absurd (omega arith)
sample_le (x ∷ xs) (suc i) (suc j) h le lt = sample_le xs i j h.1 (omega arith) (omega arith)

-- The curve between two samples, at a weight in hundredths.
abbrev blend : ℕ → ℕ → ℕ → ℕ
blend weight a b = (100 - weight) * a + weight * b

mul_mono : (v w d : ℕ) → v ≤ w → v * d ≤ w * d
mul_mono v w d h = grind arith

blend_sum : (u w a d : ℕ) → u * a + w * (a + d) ≡ (u + w) * a + w * d
blend_sum u w a d = grind arith

blend_lem : (w a b : ℕ) → w ≤ 100 → a ≤ b → blend w a b ≡ 100 * a + w * (b - a)
blend_lem w a b hw hab =
    let whole : 100 - w + w ≡ 100 = omega arith in
    let apart : a + (b - a) ≡ b = omega arith in
    ap (λ t. (100 - w) * a + w * t) (sym apart)
    ∙ blend_sum (100 - w) w a (b - a)
    ∙ ap (λ t. t * a + w * (b - a)) whole

-- The curve at an index in hundredths.
abbrev curve : List ℕ → ℕ → ℕ
curve xs index =
    let lower = index / 100 in
    blend (index % 100) (sample xs lower) (sample xs (upper_index (length xs) lower))

-- The indices of the samples around an index are inside.
upper_index_le :
    (count lower : ℕ)
    → lower < count
    → (lower ≤ upper_index count lower) × (upper_index count lower < count)
unfolding upper_index
upper_index_le count lower h = ground arith

upper_index_below :
    (count lower next : ℕ) → lower < next → next < count → upper_index count lower ≤ next
unfolding upper_index
upper_index_below count lower next h h' = ground arith

blend_above : (w a b : ℕ) → w ≤ 100 → a ≤ b → 100 * a ≤ blend w a b
blend_above w a b hw hab = omega (arith, blend_lem w a b hw hab)

blend_below : (w a b : ℕ) → w ≤ 100 → a ≤ b → blend w a b ≤ 100 * b
blend_below w a b hw hab = omega (arith, blend_lem w a b hw hab, mul_mono w 100 (b - a) hw)

blend_mono : (v w a b : ℕ) → v ≤ w → w ≤ 100 → a ≤ b → blend v a b ≤ blend w a b
blend_mono v w a b h hw hab =
    omega (arith, blend_lem v a b (omega arith) hab, blend_lem w a b hw hab, mul_mono v w (b - a) h)

-- The samples around an index that is inside.
around :
    (xs : List ℕ) (lower : ℕ)
    → IsSorted xs
    → lower < length xs
    → sample xs lower ≤ sample xs (upper_index (length xs) lower)
around xs lower h inside =
    let (le, lt) = upper_index_le (length xs) lower inside in
    sample_le xs lower (upper_index (length xs) lower) h le lt

curve_mono :
    (xs : List ℕ) (i j : ℕ) → IsSorted xs → i ≤ j → j / 100 < length xs → curve xs i ≤ curve xs j
curve_mono xs i j h le inside =
    let wi = mod-lt i {m = 100} (omega arith) in
    let wj = mod-lt j {m = 100} (omega arith) in
    let upper = sample xs (upper_index (length xs) (i / 100)) in
    let ordered = around xs (i / 100) h (omega arith) in
    elim (dec_lt (i / 100) (j / 100)) [
      | yes below ↦
          let step =
            sample_le xs (upper_index (length xs) (i / 100)) (j / 100) h
              (upper_index_below (length xs) (i / 100) (j / 100) below inside) inside in
          let first = blend_below (i % 100) (sample xs (i / 100)) upper (omega arith) ordered in
          let second =
            blend_above (j % 100) (sample xs (j / 100))
              (sample xs (upper_index (length xs) (j / 100))) (omega arith)
              (around xs (j / 100) h inside) in
          omega arith
      | no same ↦
          let eq : j / 100 ≡ i / 100 = omega arith in
          subst
            (λ l.
              curve xs i ≤ blend (j % 100) (sample xs l) (sample xs (upper_index (length xs) l)))
            (sym eq)
            (blend_mono (i % 100) (j % 100) (sample xs (i / 100)) upper (omega arith) (omega arith)
              ordered)
    ]

-- At a whole index the curve is the sample.
curve_point : (xs : List ℕ) (k : ℕ) → curve xs (100 * k) ≡ 100 * sample xs k
curve_point xs k =
    let lower : 100 * k / 100 ≡ k = omega arith in
    let weight : 100 * k % 100 ≡ 0 = omega arith in rw (lower, weight) (omega arith)

-- A percentile is a point of the curve.
calculate_percentile_lem :
    (xs : List ℕ) (p : ℕ)
    → 0 < length xs
    → calculate_percentile xs p ≡ curve xs (min p 100 * (length xs - 1))
unfolding calculate_percentile
calculate_percentile_lem xs p h =
    let filled : (length xs == 0) ≡ false = ground arith in
    elim (dec_le 100 p) [
      | yes top ↦
          let high : leb 100 p ≡ true = ground arith in
          let whole : min p 100 ≡ 100 = omega arith in
          rw (filled, high)
            (sym (ap (λ t. curve xs (t * (length xs - 1))) whole ∙ curve_point xs (length xs - 1)))
      | no inner ↦
          let low : leb 100 p ≡ false = ground arith in
          let whole : min p 100 ≡ p = omega arith in
          elim (dec_lt 0 p) [
            | yes pos ↦
                let some_p : (p == 0) ≡ false = ground arith in rw (filled, low, some_p, whole) refl
            | no none_ ↦
                let zero_p : p ≡ 0 = omega arith in
                let start : 0 * (length xs - 1) ≡ 0 = omega arith in
                rw (filled, low, zero_p, start) (sym (curve_point xs 0))
          ]
    ]

length-insert_sorted : (x : ℕ) (ys : List ℕ) → length (insert_sorted x ys) ≡ suc (length ys)
unfolding insert_sorted
length-insert_sorted x [] = refl
length-insert_sorted x (y ∷ ys) = elim (Bool-cases (leb x y)) [
  | inl le ↦ rw le refl
  | inr gt ↦ rw gt (ap suc (length-insert_sorted x ys))
]

length-sort : (xs : List ℕ) → length (sort xs) ≡ length xs
unfolding sort
length-sort [] = refl
length-sort (x ∷ xs) = length-insert_sorted x (sort xs) ∙ ap suc (length-sort xs)

grow :
    (xs : List ℕ) (p q : ℕ)
    → IsSorted xs
    → 0 < length xs
    → p ≤ q
    → calculate_percentile xs p ≤ calculate_percentile xs q
grow xs p q h some_sample le =
    let last = length xs - 1 in
    let up = mul_mono (min p 100) (min q 100) last (omega arith) in
    let top = mul_mono (min q 100) 100 last (omega arith) in
    omega (
      arith,
      calculate_percentile_lem xs p some_sample,
      calculate_percentile_lem xs q some_sample,
      curve_mono xs (min p 100 * last) (min q 100 * last) h up (omega arith),
    )

not_empty : (xs : List ℕ) → xs ≢ [] → 0 < length xs
not_empty [] h = absurd (h refl)
not_empty (x ∷ xs) h = omega arith

-- The percentiles of some samples, once they are sorted, grow with the percentage, from the first of
-- them at 0 to the last at 100.
pub percentiles_grow :
    (samples : List ℕ) (p q : ℕ)
    → samples ≢ []
    → p ≤ q
    → (calculate_percentile (sort samples) p ≤ calculate_percentile (sort samples) q)
      × (calculate_percentile (sort samples) 0 ≡ 100 * sample (sort samples) 0)
      × (calculate_percentile (sort samples) 100 ≡ 100 * sample (sort samples) (length samples - 1))
percentiles_grow samples p q some_sample h =
    let xs = sort samples in
    let count = length-sort samples in
    let filled : 0 < length xs = omega (arith, not_empty samples some_sample) in
    let start : 0 * (length xs - 1) ≡ 0 = omega arith in
    (
      grow xs p q (sort-IsSorted samples) filled h,
      calculate_percentile_lem xs 0 filled ∙ ap (curve xs) start ∙ curve_point xs 0,
      calculate_percentile_lem xs 100 filled
          ∙ curve_point xs (length xs - 1)
          ∙ ap (λ n. 100 * sample xs (n - 1)) count,
    )
