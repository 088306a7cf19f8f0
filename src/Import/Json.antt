-- ===== src/Import/Json.antt =====
-- `parse_json` of draco-core/src/table_import.rs. `serde_json` is a parameter: of a text that is an
-- array, `from_str` gives for each item the entries of an object in the order of the file, and
-- `none` for any other value; `is_json` tells whether a text is JSON at all; `kind_of` and
-- `to_string` read a value.
pub mod Header
pub mod Cells
pub mod Objects
pub mod Imported
use mathlib.Core.Option.{map as map_option}
use draco.Base.{
  if◌then◌else◌, is_some, length, is_empty, Result, err, ok, ◌>>=◌, ◌>>◌, reject_if, ℕ, zero, suc,
  ◌+◌, Bool, true, false, Option, none, some, List, [], ◌∷◌, ◌++◌, map,
}
use draco.Text.{Text, codes, text_eq}
use draco.Text.Assoc.{HashMap, get, insert}
use draco.Import.{ParsedImport, ImportParseError, empty, invalid_json, json_not_array_of_objects}
use draco.Import.Csv.{strip_bom}

-- The variants of `serde_json::Value` that the code tells apart.
pub data JsonKind : Type 0 where
  null : JsonKind
  text_value : Text → JsonKind
  flag : Bool → JsonKind
  number : JsonKind
  nested : JsonKind

-- `vec![None; n]`
abbrev pub replicate : {A : Type 0} → ℕ → A → List A
replicate zero x = []
replicate (suc n) x = x ∷ replicate n x

-- The write to a place of a list, which panics where there is none.
unfoldable pub replace_at : {A : Type 0} → ℕ → A → List A → Option (List A)
replace_at i x [] = none
replace_at zero x (y ∷ ys) = some (x ∷ ys)
replace_at (suc i) x (y ∷ ys) = map_option (λ rest. y ∷ rest) (replace_at i x ys)

-- `JsonItem`
pub data JsonItem (V : Type 0) : Type 0 where
  object : List (Text × V) → JsonItem V
  other : JsonItem V

module _ {V : Type 0} where
  -- One step of `visit_map`: a key that stands there already keeps its place.
  unfoldable pub put_field : Text → V → List (Text × V) → List (Text × V)
  put_field key value [] = (key, value) ∷ []
  put_field key value ((existing, old) ∷ fields) =
      let rest = put_field key value fields in
      if text_eq existing key then (existing, value) ∷ fields else (existing, old) ∷ rest

  unfoldable pub visit_map : List (Text × V) → List (Text × V) → List (Text × V)
  unfolding put_field
  visit_map fields [] = fields
  visit_map fields ((key, value) ∷ entries) = visit_map (put_field key value fields) entries

  abbrev pub read_item : Option (List (Text × V)) → JsonItem V
  read_item none = other
  read_item (some entries) = object (visit_map [] entries)

  -- The loop over the keys of an object.
  unfoldable pub add_keys : List (Text × V) → List Text × HashMap ℕ → List Text × HashMap ℕ
  add_keys [] header = header
  add_keys ((key, value) ∷ fields) (columns, index) = add_keys fields (
      if is_some (get key index)
      then (columns, index)
      else (columns ++ key ∷ [], insert key (length columns) index))

  -- The loop over the items.
  unfoldable pub collect_objects :
      ℕ
      → List (JsonItem V)
      → List Text × HashMap ℕ
      → Result ImportParseError (List (List (Text × V)) × List Text × HashMap ℕ)
  unfolding add_keys
  collect_objects position [] header = ok ([], header.0, header.1)
  collect_objects position (other ∷ items) header = err (json_not_array_of_objects (position + 1))
  collect_objects position (object fields ∷ items) header = do
    (objects, columns, index) ← collect_objects (position + 1) items (add_keys fields header)
    ok (fields ∷ objects, columns, index)

  -- The items of an array, or the error of a text that is none.
  abbrev pub array_of :
      ImportParseError
      → Option (List (Option (List (Text × V))))
      → Result ImportParseError (List (JsonItem V))
  array_of failure none = err failure
  array_of failure (some items) = ok (map read_item items)

  module _ (kind_of : V → JsonKind) (to_string : V → Text) where
    abbrev pub text_of_kind : JsonKind → Text → Option Text
    text_of_kind null printed = none
    text_of_kind (text_value text) printed = some text
    text_of_kind (flag true) printed = some (codes "true")
    text_of_kind (flag false) printed = some (codes "false")
    text_of_kind number printed = some printed
    text_of_kind nested printed = some printed

    abbrev pub json_to_text : V → Option Text
    json_to_text value = text_of_kind (kind_of value) (to_string value)

    -- The loop that fills a row; `none` is a panic of `index[&key]` or of `row[…]`.
    unfoldable pub fill_row :
        HashMap ℕ → List (Text × V) → List (Option Text) → Option (List (Option Text))
    unfolding replace_at
    fill_row index [] row = some row
    fill_row index ((key, value) ∷ fields) row = elim (get key index) [
      | none ↦ none
      | some place ↦ elim (replace_at place (json_to_text value) row) [
        | none ↦ none
        | some filled ↦ fill_row index fields filled
      ]
    ]

    unfoldable pub fill_rows :
        HashMap ℕ → ℕ → List (List (Text × V)) → Option (List (List (Option Text)))
    unfolding fill_row
    fill_rows index width [] = some []
    fill_rows index width (fields ∷ objects) = elim (fill_row index fields (replicate width none)) [
      | none ↦ none
      | some row ↦ map_option (λ rows. row ∷ rows) (fill_rows index width objects)
    ]

    -- From the items on. `none` within the result is a panic.
    unfoldable pub rows_of_items : List (JsonItem V) → Result ImportParseError (Option ParsedImport)
    unfolding collect_objects fill_rows
    rows_of_items items = do
      (objects, columns, index) ← collect_objects 0 items ([], [])
      reject_if (is_empty columns) empty
      ok (
          map_option (λ rows. record { columns = columns; rows = rows })
            (fill_rows index (length columns) objects))

    module _ (from_str : Text → Option (List (Option (List (Text × V)))))
        (is_json : Text → Bool) where
      unfoldable pub parse_json : Text → Result ImportParseError (Option ParsedImport)
      unfolding visit_map rows_of_items strip_bom
      parse_json text = do
        let stripped = strip_bom text
        let failure = if is_json stripped then json_not_array_of_objects 0 else invalid_json
        items ← array_of failure (from_str stripped)
        rows_of_items items
