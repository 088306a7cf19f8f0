-- ===== src/Import/Mapping/Delivered.antt =====
-- What `encode_rows` hands to COPY, read back.
use mathlib.Core.List.{append_assoc}
use mathlib.Core.Option.{map as map_option}
use draco.Base.{
  leb, Bool-cases, length, get_elem?, get_elem?-lt, All, ok, ℕ, ◌<◌, ◌≡◌, refl, ap, inl, inr,
  Option, none, some, List, [], ◌∷◌, ◌++◌, map, arith,
}
use draco.Text.{Text, str_bytes}
use draco.Import.{ParsedImport}
use draco.Import.Copy.{Bytes, push_copy_text_row, read_copy}
use draco.Import.Copy.Read.{read_copy-row, push_copy_text_row-append, read_copy-nil}
use draco.Import.Csv.{CsvOptions, parse_csv}
use draco.Import.Csv.Shape.{HasWidth, parse_csv-IsRectangular}
use draco.Import.Mapping.{
  TableImportColumnView, TableImportMappingInput, column_names, validate_mapping, copy_chunk_bytes,
  select_values, encode_from, encode_rows,
}
use draco.Import.Mapping.Checked.{sources_of, FitsEntry, validate_mapping_iff}

-- The chunks one after the other, as the server receives them.
abbrev pub flatten : List Bytes → Bytes
flatten [] = []
flatten (chunk ∷ chunks) = chunk ++ flatten chunks

-- Every index stands in every row.
abbrev IsWithin : List ℕ → List (Option Text) → Type 0
IsWithin indexes row = All (λ i. i < length row) indexes

-- The values of a row in the columns of a mapping, as bytes.
abbrev pub value_in : Option (Option Text) → Option (Option Bytes)
value_in none = none
value_in (some none) = some none
value_in (some (some text)) = some (some (str_bytes text))

abbrev pub values_in : List (Option Text) → List ℕ → List (Option (Option Bytes))
values_in row indexes = map (λ index. value_in (get_elem? row index)) indexes

value_in-some : (value : Option Text) → some (map_option str_bytes value) ≡ value_in (some value)
value_in-some none = refl
value_in-some (some text) = refl

select_values-some :
    (row : List (Option Text)) (indexes : List ℕ)
    → IsWithin indexes row
    → (values : List (Option Bytes)) × (select_values row indexes ≡ some values)
      × (length values ≡ length indexes)
      × (map some values ≡ values_in row indexes)
unfolding select_values
select_values-some row [] h = ([], refl, refl, refl)
select_values-some row (i ∷ is) h =
    let (value, found) = get_elem?-lt row i h.0 in
    let (values, rest, len, meant) = select_values-some row is h.1 in
    (
      map_option str_bytes value ∷ values,
      rw (found, rest, select_values) refl,
      omega (arith, len),
      rw (value_in-some value) (rw found (ap (λ others. value_in (some value) ∷ others) meant)),
    )

-- What was selected are the values that the indexes name.
selected-values_in :
    (row : List (Option Text)) (indexes : List ℕ) (values : List (Option Bytes))
    → IsWithin indexes row
    → select_values row indexes ≡ some values
    → map some values ≡ values_in row indexes
selected-values_in row indexes values within chosen =
    let (found, same, _, meant) = select_values-some row indexes within in
    let equal : found ≡ values = cc (same, chosen) in rw (← equal) meant

rows-values_in :
    (read : List (List (Option Bytes))) (rows : List (List (Option Text))) (indexes : List ℕ)
    → All (IsWithin indexes) rows
    → map some read ≡ map (λ row. select_values row indexes) rows
    → map (map some) read ≡ map (λ row. values_in row indexes) rows
rows-values_in [] [] indexes within h = refl
rows-values_in [] (row ∷ rows) indexes within h = cc (h)
rows-values_in (r ∷ read) [] indexes within h = cc (h)
rows-values_in (r ∷ read) (row ∷ rows) indexes (here, within) h =
    let first = selected-values_in row indexes r here (cc (h)) in
    rw first (
      ap (λ others. values_in row indexes ∷ others)
        (rows-values_in read rows indexes within (cc (h))))

-- The chunks deliver the rows of `rows` behind what the buffer holds.
abbrev Delivers : Bytes → List (List (Option Text)) → List ℕ → Type 0
Delivers buffer rows indexes =
    (chunks : List Bytes) × (sent : Bytes) × (encode_from buffer rows indexes ≡ some chunks)
    × (flatten chunks ≡ buffer ++ sent)
    × (map some (read_copy sent) ≡ map (λ row. select_values row indexes) rows)

encode_from-cons :
    (buffer : Bytes) (row : List (Option Text)) (rows : List (List (Option Text)))
    (indexes : List ℕ) (v : Option Bytes) (vs : List (Option Bytes))
    → select_values row indexes ≡ some (v ∷ vs)
    → ((b : Bytes) → Delivers b rows indexes)
    → Delivers buffer (row ∷ rows) indexes
unfolding encode_from
encode_from-cons buffer row rows indexes v vs chosen later =
    let line = push_copy_text_row [] (v ∷ vs) in
    let filled = push_copy_text_row buffer (v ∷ vs) in
    elim (Bool-cases (leb copy_chunk_bytes (length filled))) [
      | inl full ↦
          let (chunks, sent, made, flat, back) = later [] in
          (
            filled ∷ chunks,
            line ++ sent,
            rw (chosen, full, made, encode_from) refl,
            cc (flat, push_copy_text_row-append buffer v vs, append_assoc buffer line sent),
            rw (chosen, read_copy-row v vs sent) (cc back),
          )
      | inr room ↦
          let (chunks, sent, made, flat, back) = later filled in
          (
            chunks,
            line ++ sent,
            rw (chosen, room, made, encode_from) refl,
            cc (flat, push_copy_text_row-append buffer v vs, append_assoc buffer line sent),
            rw (chosen, read_copy-row v vs sent) (cc back),
          )
    ]

encode_from-values :
    (buffer : Bytes) (row : List (Option Text)) (rows : List (List (Option Text))) (index : ℕ)
    (indexes : List ℕ) (values : List (Option Bytes))
    → select_values row (index ∷ indexes) ≡ some values
    → length values ≡ length (index ∷ indexes)
    → ((b : Bytes) → Delivers b rows (index ∷ indexes))
    → Delivers buffer (row ∷ rows) (index ∷ indexes)
encode_from-values buffer row rows index indexes [] chosen len later = ground arith
encode_from-values buffer row rows index indexes (v ∷ vs) chosen len later =
    encode_from-cons buffer row rows (index ∷ indexes) v vs chosen later

sources_of-IsWithin :
    (es : List TableImportMappingInput) (known : List Text) (n : ℕ) (row : List (Option Text))
    → All (FitsEntry known n) es
    → length row ≡ n
    → IsWithin (sources_of es) row
sources_of-IsWithin [] known n row h len = tt
sources_of-IsWithin (e ∷ es) known n row h len =
    (omega (arith, len, h.0.0), sources_of-IsWithin es known n row h.1 len)

rows-IsWithin :
    (es : List TableImportMappingInput) (known columns : List Text)
    (rows : List (List (Option Text)))
    → All (FitsEntry known (length columns)) es
    → All (HasWidth (length columns)) rows
    → All (IsWithin (sources_of es)) rows
rows-IsWithin es known columns [] h widths = tt
rows-IsWithin es known columns (row ∷ rows) h widths = (
  sources_of-IsWithin es known (length columns) row h widths.0,
  rows-IsWithin es known columns rows h widths.1,
)

encode_from-Delivers :
    (rows : List (List (Option Text))) (index : ℕ) (indexes : List ℕ) (buffer : Bytes)
    → All (IsWithin (index ∷ indexes)) rows
    → Delivers buffer rows (index ∷ indexes)
unfolding encode_from
encode_from-Delivers [] index indexes [] h = ([], [], refl, refl, ap (map some) read_copy-nil)
encode_from-Delivers [] index indexes (b ∷ bs) h =
    ((b ∷ bs) ∷ [], [], refl, refl, ap (map some) read_copy-nil)
encode_from-Delivers (row ∷ rows) index indexes buffer h =
    let (values, chosen, len, _) = select_values-some row (index ∷ indexes) h.0 in
    encode_from-values buffer row rows index indexes values chosen len
      (λ b. encode_from-Delivers rows index indexes b h.1)

-- Whatever the table is, an import of a parsed CSV file whose mapping was accepted encodes every
-- row with no index out of range. What COPY reads from the chunks is, row by row and in order,
-- the values of the columns that the mapping names, NULL where the file has NULL.
pub parse_csv-encode_rows :
    (text : Text) (options : CsvOptions) (p : ParsedImport) (mapping : List TableImportMappingInput)
    (table : List TableImportColumnView) (indexes : List ℕ) (targets : List Text)
    → parse_csv text options ≡ ok p
    → validate_mapping mapping p.columns table ≡ ok (indexes, targets)
    → (chunks : List Bytes) × (encode_rows p.rows indexes ≡ some chunks)
      × (map (map some) (read_copy (flatten chunks))
          ≡ map (λ row. values_in row (sources_of mapping)) p.rows)
unfolding encode_rows
parse_csv-encode_rows text options p [] table indexes targets parsed mapped =
    elim (((validate_mapping_iff [] p.columns table indexes targets).0 mapped).0.filled refl) [ ]
parse_csv-encode_rows text options p (e ∷ es) table indexes targets parsed mapped =
    let (m, same, _) = (validate_mapping_iff (e ∷ es) p.columns table indexes targets).0 mapped in
    let shape = parse_csv-IsRectangular text options p parsed in
    let within =
      rows-IsWithin (e ∷ es) (column_names table) p.columns p.rows m.fitting shape.rows_fit in
    let (chunks, sent, made, flat, back) =
      encode_from-Delivers p.rows e.source_column (sources_of es) [] within in
    let delivered = rows-values_in (read_copy sent) p.rows (sources_of (e ∷ es)) within back in
    rw same (chunks, made, rw flat delivered)
