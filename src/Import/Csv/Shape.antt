-- ===== src/Import/Csv/Shape.antt =====
-- What every parsed file looks like.
use draco.Base.{
  Bool-cases, length, is_empty, all, length-append, All, All-append, Result, ok, err, ◌>>◌,
  >>=-eq-ok, reject_if, ℕ, zero, suc, ◌+◌, ◌<◌, ◌≡◌, refl, ap, ◌≢◌, ◌⊎◌, inl, inr, Bool, true,
  false, not, ◌||◌, Option, none, some, List, [], ◌∷◌, ◌++◌, arith,
}
use draco.Text.{Text}
use draco.Import.{
  ParsedImport, ImportParseError, empty, reject_duplicate_columns, AreDistinct,
  reject_duplicate_columns_iff,
}
use draco.Import.Csv.{
  CsvOptions, Reader, start_reader, field_value, finish_field, is_blank_record, finish_record, step,
  takes_two, scan, header_names, numbered, check_rows, split_header, expected_count, named_columns,
  assemble, last_record, strip_bom, parse_csv,
}

abbrev pub HasWidth : ℕ → List (Option Text) → Type 0
HasWidth n row = length row ≡ n

pub record IsRectangular (p : ParsedImport) : Type 0 where
  pub rows_fit : All (HasWidth (length p.columns)) p.rows
  pub columns_distinct : AreDistinct p.columns
  pub some_column : p.columns ≢ []

length-header_names :
    (index : ℕ) (header : List (Option Text)) → length (header_names index header) ≡ length header
unfolding header_names
length-header_names index [] = refl
length-header_names index (h ∷ hs) = ap suc (length-header_names (index + 1) hs)

length-numbered : (index n : ℕ) → length (numbered index n) ≡ n
unfolding numbered
length-numbered index zero = refl
length-numbered index (suc n) = ap suc (length-numbered (index + 1) n)

-- A record that the loop over the characters pushed has a field.
abbrev pub IsFilledRecord : ℕ × List (Option Text) → Type 0
IsFilledRecord r = 0 < length r.1

length-finish_field :
    (options : CsvOptions) (r : Reader) → 0 < length (finish_field options r).fields
length-finish_field options r =
    omega (arith, length-append r.fields (field_value options r.field r.quoted ∷ []))

push-IsFilledRecord :
    (records : List (ℕ × List (Option Text))) (line : ℕ) (fields : List (Option Text))
    → 0 < length fields
    → All IsFilledRecord records
    → All IsFilledRecord (records ++ (line, fields) ∷ [])
push-IsFilledRecord records line fields h all =
    All-append IsFilledRecord records ((line, fields) ∷ []) all (h, tt)

finish_record-IsFilledRecord :
    (options : CsvOptions) (r : Reader)
    → All IsFilledRecord r.records
    → All IsFilledRecord (finish_record options r).records
unfolding finish_record
finish_record-IsFilledRecord options r all =
    elim (Bool-cases (is_blank_record (finish_field options r).fields)) [
      | inl blank ↦ rw blank all
      | inr filled ↦
          rw filled
            (push-IsFilledRecord r.records r.record_line _ (length-finish_field options r) all)
    ]

-- Either the records are as they were, or the record that was read is finished.
step-records :
    (options : CsvOptions) (r : Reader) (c : ℕ) (next : Option ℕ)
    → ((step options r c next).records ≡ r.records)
      ⊎ ((step options r c next).records ≡ (finish_record options r).records)
unfolding step
step-records options r c next = ground arith

step-IsFilledRecord :
    (options : CsvOptions) (r : Reader) (c : ℕ) (next : Option ℕ)
    → All IsFilledRecord r.records
    → All IsFilledRecord (step options r c next).records
step-IsFilledRecord options r c next all = elim (step-records options r c next) [
  | inl same ↦ rw same all
  | inr more ↦ rw more (finish_record-IsFilledRecord options r all)
]

scan-IsFilledRecord :
    (options : CsvOptions) (r : Reader) (text : Text)
    → All IsFilledRecord r.records
    → All IsFilledRecord (scan options r text).records
unfolding scan
scan-IsFilledRecord options r [] all = all
scan-IsFilledRecord options r (c ∷ []) all = step-IsFilledRecord options r c none all
scan-IsFilledRecord options r (c ∷ d ∷ rest) all =
    let r' = step options r c (some d) in
    let all' = step-IsFilledRecord options r c (some d) all in
    elim (Bool-cases (takes_two r c (some d))) [
      | inl two ↦ rw two (scan-IsFilledRecord options r' rest all')
      | inr one ↦ rw one (scan-IsFilledRecord options r' (d ∷ rest) all')
    ]

last_record-IsFilledRecord :
    (options : CsvOptions) (r : Reader)
    → All IsFilledRecord r.records
    → All IsFilledRecord (last_record options r)
unfolding last_record
last_record-IsFilledRecord options r all =
    elim (Bool-cases (not (is_empty r.field) || r.quoted || not (is_empty r.fields))) [
      | inl open_field ↦
          rw open_field
            (push-IsFilledRecord r.records r.record_line _ (length-finish_field options r) all)
      | inr closed ↦ rw closed all
    ]

abbrev rows_of : Result ImportParseError (ℕ × List (List (Option Text))) → List (List (Option Text))
rows_of (ok (final, rows)) = rows
rows_of (err e) = []

check_rows-cons :
    (expected line final : ℕ) (row : List (Option Text)) (rest : List (ℕ × List (Option Text)))
    (rows : List (List (Option Text)))
    → check_rows expected ((line, row) ∷ rest) ≡ ok (final, rows)
    → ((expected ≡ 0) ⊎ (expected ≡ length row))
      × (check_rows (length row) rest ≡ ok (final, rows_of (check_rows (length row) rest)))
      × (rows ≡ row ∷ rows_of (check_rows (length row) rest))
unfolding check_rows
check_rows-cons expected line final row rest rows h = ground arith

-- The count that the loop ends with is the width of every row.
check_rows-width :
    (expected final : ℕ) (records : List (ℕ × List (Option Text)))
    (rows : List (List (Option Text)))
    → All IsFilledRecord records
    → check_rows expected records ≡ ok (final, rows)
    → All (HasWidth final) rows × ((expected ≡ 0) ⊎ (expected ≡ final))
unfolding check_rows
check_rows-width expected final [] rows all h =
    let e : rows ≡ [] = ground arith in rw e (tt, inr (ground arith))
check_rows-width expected final ((line, row) ∷ rest) rows all h =
    let (first, later, split) = check_rows-cons expected line final row rest rows h in
    let (widths, same) = check_rows-width (length row) final rest _ all.1 later in
    let e : length row ≡ final = ground arith in rw split ((e, widths), ground arith)

split_header-IsFilledRecord :
    (has_header : Bool) (records rest : List (ℕ × List (Option Text)))
    (columns : Option (List Text))
    → All IsFilledRecord records
    → split_header has_header records ≡ ok (columns, rest)
    → All IsFilledRecord rest
unfolding split_header
split_header-IsFilledRecord false records rest columns all h =
    let e : rest ≡ records = ground arith in rw e all
split_header-IsFilledRecord true [] rest columns all h = cc
split_header-IsFilledRecord true ((line, header) ∷ records) rest columns all h =
    let e : rest ≡ records = ground arith in rw e all.1

-- The columns are as many as the loop counted.
length-named_columns :
    (columns : Option (List Text)) (final : ℕ)
    → (expected_count columns ≡ 0) ⊎ (expected_count columns ≡ final)
    → is_empty (named_columns columns final) ≡ false
    → length (named_columns columns final) ≡ final
length-named_columns none final h ne = length-numbered 0 final
length-named_columns (some []) final h ne = cc
length-named_columns (some (c ∷ cs)) final h ne = ground arith

-- The last checks of `assemble`, when they pass.
checked :
    (names : List Text) (rows : List (List (Option Text))) (p : ParsedImport)
    → (do
      reject_if (is_empty names) empty
      reject_duplicate_columns names
      ok (record { columns = names; rows = rows }))
      ≡ ok p
    → (is_empty names ≡ false)
      × (reject_duplicate_columns names ≡ ok tt)
      × (p.columns ≡ names)
      × (p.rows ≡ rows)
checked names rows p h = ground arith

assemble-IsRectangular :
    (options : CsvOptions) (records : List (ℕ × List (Option Text))) (p : ParsedImport)
    → All IsFilledRecord records
    → assemble options records ≡ ok p
    → IsRectangular p
unfolding assemble
assemble-IsRectangular options records p all h =
    let (split, s1, h1) = >>=-eq-ok (split_header options.has_header records) _ h in
    let rest_all = split_header-IsFilledRecord options.has_header records split.1 split.0 all s1 in
    let (counted, s2, h2) = >>=-eq-ok (check_rows (expected_count split.0) split.1) _ h1 in
    let (filled, distinct, names, rows) =
      checked (named_columns split.0 counted.0) counted.1 p h2 in
    let (widths, same) = check_rows-width _ counted.0 split.1 counted.1 rest_all s2 in
    let len = length-named_columns split.0 counted.0 same filled in
    record {
      rows_fit = rw (rows, names, len) widths;
      columns_distinct =
          rw names ((reject_duplicate_columns_iff (named_columns split.0 counted.0)).0 distinct);
      some_column = λ e. ground arith;
    }

-- Whatever the file and the options, a parsed file has at least one column, no column name twice,
-- and every row has exactly one value for each column.
pub parse_csv-IsRectangular :
    (text : Text) (options : CsvOptions) (p : ParsedImport)
    → parse_csv text options ≡ ok p
    → IsRectangular p
unfolding parse_csv
parse_csv-IsRectangular text options p h =
    let r = scan options start_reader (strip_bom text) in
    let e : assemble options (last_record options r) ≡ ok p = ground arith in
    assemble-IsRectangular options (last_record options r) p
      (last_record-IsFilledRecord options r
        (scan-IsFilledRecord options start_reader (strip_bom text) tt))
      e
