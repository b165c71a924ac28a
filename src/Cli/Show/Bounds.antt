-- ===== src/Cli/Show/Bounds.antt =====
-- How wide and how deep a converted value can get.
use raft_lsmt.Base.{
  ℕ, suc, ◌+◌, ◌-◌, ◌/◌, ◌≤◌, ◌≡◌, refl, max, List, [], ◌∷◌, arith, length, length-append,
  length-take, length-drop, take, drop, All, All-append, All-take, All-drop, ltb, ◌==◌, nat_key,
  if◌then◌else◌, true, false,
}
use native.Mathlib.Decide.{dec_lt}
use raft_lsmt.Cli.Show.{
  Value, number, text, other, dataclass, dict, sequence, Items, nil, cons, Fields, end, field,
  Shown, too_deep, omitted, number_shown, text_shown, dict_shown, list_shown, ShownItems, no_items,
  item, ShownFields, no_fields, shown_field, items_of, last_part, cut_middle, convert_and_truncate,
  convert_items, convert_fields,
}

-- The number of elements of the longest list in it.
unfoldable mutual
  pub widest : Shown → ℕ
  widest too_deep = 0
  widest (omitted n) = 0
  widest (number_shown n) = 0
  widest (text_shown s) = 0
  widest (dict_shown fields) = widest_fields fields
  widest (list_shown items) = max (count_items items) (widest_items items)

  pub widest_items : ShownItems → ℕ
  widest_items no_items = 0
  widest_items (item s rest) = max (widest s) (widest_items rest)

  pub widest_fields : ShownFields → ℕ
  widest_fields no_fields = 0
  widest_fields (shown_field k s rest) = max (widest s) (widest_fields rest)

  pub count_items : ShownItems → ℕ
  count_items no_items = 0
  count_items (item s rest) = suc (count_items rest)

-- How deep lists and dictionaries stand in each other.
unfoldable mutual
  pub nesting : Shown → ℕ
  nesting too_deep = 0
  nesting (omitted n) = 0
  nesting (number_shown n) = 0
  nesting (text_shown s) = 0
  nesting (dict_shown fields) = suc (nesting_fields fields)
  nesting (list_shown items) = suc (nesting_items items)

  pub nesting_items : ShownItems → ℕ
  nesting_items no_items = 0
  nesting_items (item s rest) = max (nesting s) (nesting_items rest)

  pub nesting_fields : ShownFields → ℕ
  nesting_fields no_fields = 0
  nesting_fields (shown_field k s rest) = max (nesting s) (nesting_fields rest)

-- A value that is at most as wide and as deep as given.
abbrev pub Within : ℕ → ℕ → Shown → Type 0
Within w d s = (widest s ≤ w) × (nesting s ≤ d)

count_items_of : (xs : List Shown) → count_items (items_of xs) ≡ length xs
unfolding count_items
count_items_of [] = refl
count_items_of (x ∷ xs) = omega (arith, count_items_of xs)

items-Within :
    (w d : ℕ) (xs : List Shown)
    → All (Within w d) xs
    → (widest_items (items_of xs) ≤ w) × (nesting_items (items_of xs) ≤ d)
unfolding widest nesting
items-Within w d [] h = (omega arith, omega arith)
items-Within w d (x ∷ xs) h =
    let (a, b) = items-Within w d xs h.1 in let (c, e) = h.0 in (omega arith, omega arith)

-- A list that is cut, or short enough, for a length of two at least.
cut-Within :
    (w d max_length : ℕ) (xs : List Shown)
    → 2 ≤ max_length
    → All (Within w d) xs
    → All (Within w d) (cut_middle omitted max_length xs)
      × (length (cut_middle omitted max_length xs) ≤ max_length + 1)
unfolding cut_middle last_part widest nesting
cut-Within w d max_length xs two h =
    let half = max_length / 2 in
    let some_half : (half == 0) ≡ false = ground arith in
    elim (dec_lt max_length (length xs)) [
      | no short ↦
          let test : ltb max_length (length xs) ≡ false = ground arith in
          rw (test, cut_middle) (h, omega arith)
      | yes long ↦
          let test : ltb max_length (length xs) ≡ true = ground arith in
          let back = drop (length xs - half) xs in
          let note : Within w d (omitted (length xs - max_length)) = (omega arith, omega arith) in
          rw (test, some_half, cut_middle, last_part)
            (
              All-append (Within w d) (take half xs) (omitted (length xs - max_length) ∷ back)
                  (All-take (Within w d) half xs h)
                  (note, All-drop (Within w d) (length xs - half) xs h),
              omega (
                arith,
                length-append (take half xs) (omitted (length xs - max_length) ∷ back),
                length-take half xs,
                length-drop (length xs - half) xs,
              ),
            )
    ]

-- What a conversion may nest, from a depth that is not below the greatest.
module _ (max_depth max_length : ℕ) (two : 2 ≤ max_length) where
  choose-Within :
      (depth : ℕ) (s : Shown)
      → (depth ≤ max_depth → Within (max_length + 1) (max_depth + 1 - depth) s)
      → Within
          (max_length + 1)
          (max_depth + 1 - depth)
          (if ltb max_depth depth then too_deep else s)
  unfolding widest nesting
  choose-Within depth s h = elim (dec_lt max_depth depth) [
    | yes deep ↦
        let test : ltb max_depth depth ≡ true = ground arith in rw test (omega arith, omega arith)
    | no fine ↦ let test : ltb max_depth depth ≡ false = ground arith in rw test (h (omega arith))
  ]

  leaf-Within :
      (depth : ℕ) (s : Shown)
      → Within 0 0 s
      → Within
          (max_length + 1)
          (max_depth + 1 - depth)
          (if ltb max_depth depth then too_deep else s)
  leaf-Within depth s h = choose-Within depth s (λ fine. (omega arith, omega arith))

  mutual
    unfolding convert_and_truncate widest nesting

    convert-Within :
        (depth : ℕ) (v : Value)
        → Within
            (max_length + 1)
            (max_depth + 1 - depth)
            (convert_and_truncate max_depth max_length depth v)
    convert-Within depth (number n) = leaf-Within depth (number_shown n) (omega arith, omega arith)
    convert-Within depth (text s) = leaf-Within depth (text_shown s) (omega arith, omega arith)
    convert-Within depth (other s) = leaf-Within depth (text_shown s) (omega arith, omega arith)
    convert-Within depth (dataclass fields) =
        let (a, b) = fields_convert-Within (suc depth) fields in
        choose-Within depth (dict_shown (convert_fields max_depth max_length (suc depth) fields))
          (λ h. (a, omega (arith, b)))
    convert-Within depth (dict fields) =
        let (a, b) = fields_convert-Within (suc depth) fields in
        choose-Within depth (dict_shown (convert_fields max_depth max_length (suc depth) fields))
          (λ h. (a, omega (arith, b)))
    convert-Within depth (sequence items) =
        let converted = convert_items max_depth max_length (suc depth) items in
        let kept = cut_middle omitted max_length converted in
        let (all, few) =
          cut-Within (max_length + 1) (max_depth + 1 - suc depth) max_length converted two
            (items_convert-Within (suc depth) items) in
        let (a, b) = items-Within (max_length + 1) (max_depth + 1 - suc depth) kept all in
        choose-Within depth (list_shown (items_of kept))
          (λ h. (omega (arith, a, few, count_items_of kept), omega (arith, b)))

    items_convert-Within :
        (depth : ℕ) (items : Items)
        → All
            (Within (max_length + 1) (max_depth + 1 - depth))
            (convert_items max_depth max_length depth items)
    items_convert-Within depth nil = tt
    items_convert-Within depth (cons v rest) =
        (convert-Within depth v, items_convert-Within depth rest)

    fields_convert-Within :
        (depth : ℕ) (fields : Fields)
        → (widest_fields (convert_fields max_depth max_length depth fields) ≤ max_length + 1)
          × (nesting_fields (convert_fields max_depth max_length depth fields)
              ≤ max_depth + 1 - depth)
    fields_convert-Within depth end = (omega arith, omega arith)
    fields_convert-Within depth (field k v rest) =
        let (a, b) = convert-Within depth v in
        let (c, e) = fields_convert-Within depth rest in (omega arith, omega arith)

-- For a length of two at least: whatever the value, no list of what is shown has more than one
-- element above the length, the note on what is left out, and lists and dictionaries are nested no
-- deeper than one above the depth.
pub convert_and_truncate-Within :
    (max_depth max_length : ℕ) (v : Value)
    → 2 ≤ max_length
    → Within (max_length + 1) (max_depth + 1) (convert_and_truncate max_depth max_length 0 v)
convert_and_truncate-Within max_depth max_length v two =
    let (a, b) = convert-Within max_depth max_length two 0 v in (a, omega (arith, b))
