-- ===== src/Cli/Show.antt =====
-- cli.py, `show`: the results of a read as they are printed, in full depth (`--verbose`) or as plain
-- lines. A dataclass is converted as the dictionary of its fields; the keys of a dictionary are given
-- as `str` makes them, and so are the values of no basic type. Of the basic types there are numbers and
-- texts; a float, a Boolean and None would be shown as they are too.
pub mod Bounds
pub mod Plain
mod Tests
use raft_lsmt.Base.{
  ℕ, zero, suc, ◌+◌, ◌-◌, ◌/◌, String, List, [], ◌∷◌, ◌++◌, map, length, take, drop, ltb, ◌==◌,
  nat_key, if◌then◌else◌,
}
use raft_lsmt.Base.Dict.{Dict}
use raft_lsmt.Client.Datatypes.{Node, Record}
use raft_lsmt.Client.Wire.Response.{Response}
use raft_lsmt.Client.Read.{Results}

mutual
  pub data Value : Type 0 where
    number : ℕ → Value
    text : String → Value
    other : String → Value
    dataclass : Fields → Value
    dict : Fields → Value
    sequence : Items → Value

  pub data Items : Type 0 where
    nil : Items
    cons : Value → Items → Items

  pub data Fields : Type 0 where
    end : Fields
    field : String → Value → Fields → Fields

-- What a conversion gives: the two texts that it makes up itself are `too_deep` and `omitted`.
mutual
  pub data Shown : Type 0 where
    too_deep : Shown
    omitted : ℕ → Shown
    number_shown : ℕ → Shown
    text_shown : String → Shown
    dict_shown : ShownFields → Shown
    list_shown : ShownItems → Shown

  pub data ShownItems : Type 0 where
    no_items : ShownItems
    item : Shown → ShownItems → ShownItems

  pub data ShownFields : Type 0 where
    no_fields : ShownFields
    shown_field : String → Shown → ShownFields → ShownFields

abbrev pub items_of : List Shown → ShownItems
items_of [] = no_items
items_of (s ∷ rest) = item s (items_of rest)

-- `obj[-half:]`, where `-0` is 0.
unfoldable pub last_part {ℓ} : {A : Type ℓ} → ℕ → List A → List A
last_part half xs = if half == 0 then xs else drop (length xs - half) xs

-- A list with more than `max_length` elements, cut in the middle.
unfoldable pub cut_middle {ℓ} : {A : Type ℓ} → (ℕ → A) → ℕ → List A → List A
cut_middle note max_length xs =
    let half = max_length / 2 in
    if ltb max_length (length xs)
    then take half xs ++ note (length xs - max_length) ∷ last_part half xs
    else xs

-- Every element is converted here, where the source converts only those that it keeps.
unfoldable mutual
  pub convert_and_truncate : ℕ → ℕ → ℕ → Value → Shown
  convert_and_truncate max_depth max_length depth (number n) =
      if ltb max_depth depth then too_deep else number_shown n
  convert_and_truncate max_depth max_length depth (text s) =
      if ltb max_depth depth then too_deep else text_shown s
  convert_and_truncate max_depth max_length depth (other s) =
      if ltb max_depth depth then too_deep else text_shown s
  convert_and_truncate max_depth max_length depth (dataclass fields) =
      let converted = convert_fields max_depth max_length (suc depth) fields in
      if ltb max_depth depth then too_deep else dict_shown converted
  convert_and_truncate max_depth max_length depth (dict fields) =
      let converted = convert_fields max_depth max_length (suc depth) fields in
      if ltb max_depth depth then too_deep else dict_shown converted
  convert_and_truncate max_depth max_length depth (sequence items) =
      let converted = convert_items max_depth max_length (suc depth) items in
      if ltb max_depth depth
      then too_deep
      else list_shown (items_of (cut_middle omitted max_length converted))

  pub convert_items : ℕ → ℕ → ℕ → Items → List Shown
  convert_items max_depth max_length depth nil = []
  convert_items max_depth max_length depth (cons v rest) =
      convert_and_truncate max_depth max_length depth v
      ∷ convert_items max_depth max_length depth rest

  pub convert_fields : ℕ → ℕ → ℕ → Fields → ShownFields
  convert_fields max_depth max_length depth end = no_fields
  convert_fields max_depth max_length depth (field k v rest) =
      shown_field k (convert_and_truncate max_depth max_length depth v)
        (convert_fields max_depth max_length depth rest)

-- The lines of the plain rendering.
pub data Line : Type 0 where
  cluster_line : String → Line
  node_line : Node → Line
  value_line : String → ℕ → Line
  plain_line : ℕ → Line
  total_line : ℕ → Line
  record_line : Record → Line
  omitted_line : ℕ → Line
  empty_line : Line

-- The records, the middle left out, and a line where there are none.
unfoldable pub record_lines : ℕ → List Record → List Line
record_lines max_length [] = empty_line ∷ []
record_lines max_length (rec ∷ records) =
    let lines = map record_line (rec ∷ records) in cut_middle omitted_line max_length lines

abbrev pub response_lines : Node × Response → List Line
response_lines (node, response) =
    node_line node
    ∷ value_line "req_id" response.req_id
    ∷ value_line "limit_reached" (if response.limit_reached then 1 else 0)
    ∷ value_line "min_id" response.min_id
    ∷ value_line "min_ts" response.min_ts
    ∷ value_line "max_id" response.max_id
    ∷ value_line "max_ts" response.max_ts
    ∷ value_line "records_bytes" response.records_bytes
    ∷ value_line "records_count" response.records_count
    ∷ total_line (length response.records)
    ∷ record_lines 10 response.records

unfoldable pub node_lines : List (Node × Response) → List Line
node_lines [] = []
node_lines (answered ∷ rest) = response_lines answered ++ node_lines rest

unfoldable pub cluster_lines : Dict String (List (Node × Response)) → List Line
cluster_lines [] = []
cluster_lines ((cluster_name, node_list) ∷ rest) =
    cluster_line cluster_name ∷ node_lines node_list ++ cluster_lines rest

-- Every key of the results is shown as a cluster: behind the clusters, the latency, and the metrics,
-- whose entries are no dictionaries and are passed over.
unfoldable pub show_plain : Results → List Line
show_plain results =
    cluster_lines results.by_cluster
    ++ cluster_line "_latency_ms"
      ∷ plain_line results.latency_ms
      ∷ cluster_line "_request_metrics"
      ∷ []
