-- ===== src/Import/Csv/RoundTrip/Files.antt =====
-- `parse_csv` on a whole file that was written with every value quoted.
use mathlib.Core.List.{append-nil, append_assoc}
use draco.Base.{
  ◌==◌, ==_iff, length, is_empty, length-map, All, ok, ℕ, ◌+◌, ◌≤◌, ◌<◌, ◌≡◌, refl, ap, ◌∙◌, true,
  false, Option, none, some, List, [], ◌∷◌, ◌++◌, map, arith,
}
use draco.Text.{Text, trim, strip_prefix}
use draco.Import.{ParsedImport, AreDistinct, reject_duplicate_columns_iff}
use draco.Import.Csv.{
  CsvOptions, Reader, is_blank_record, scan, header_name, header_names, check_rows, split_header,
  assemble, last_record, finish, strip_bom, parse_csv,
}
use draco.Import.Csv.Printed.{printed_record, between}
use draco.Import.Csv.Shape.{HasWidth}
use draco.Import.Csv.RoundTrip.{IsPlain, scan-record}

abbrev pub printed_records : ℕ → List (List (Option Text)) → Text
printed_records delimiter [] = []
printed_records delimiter (row ∷ rows) =
    printed_record delimiter row ++ printed_records delimiter rows

-- The header and the rows behind it.
abbrev pub printed_file : ℕ → ParsedImport → Text
printed_file delimiter p = printed_records delimiter (map some p.columns ∷ p.rows)

abbrev rows_of : List (ℕ × List (Option Text)) → List (List (Option Text))
rows_of [] = []
rows_of (r ∷ rest) = r.1 ∷ rows_of rest

wide-is_blank_record : (row : List (Option Text)) → 2 ≤ length row → is_blank_record row ≡ false
unfolding is_blank_record
wide-is_blank_record [] h = ground arith
wide-is_blank_record (none ∷ []) h = ground arith
wide-is_blank_record (some value ∷ []) h = ground arith
wide-is_blank_record (v ∷ w ∷ ws) h = ground arith

abbrev IsWide : List (Option Text) → Type 0
IsWide row = 2 ≤ length row

-- What the loop leaves after these records: the records with some line numbers.
record IsScanned (options : CsvOptions) (r : Reader) (before : List (ℕ × List (Option Text)))
    (rows : List (List (Option Text))) : Type 0 where
  added : List (ℕ × List (Option Text))
  same : rows_of added ≡ rows
  line : ℕ
  quote_line : ℕ
  stands : r ≡ between options (before ++ added) [] line line quote_line

scan-records :
    (options : CsvOptions) (plain : IsPlain options) (rows : List (List (Option Text)))
    (before : List (ℕ × List (Option Text))) (line quote_line : ℕ)
    → All IsWide rows
    → IsScanned options
        (scan options
          (between options before [] line line quote_line)
          (printed_records options.delimiter rows))
        before
        rows
unfolding scan
scan-records options plain [] before line quote_line h = record {
  added = [];
  same = refl;
  line = line;
  quote_line = quote_line;
  stands = rw (append-nil before) refl;
}
scan-records options plain ([] ∷ rows) before line quote_line h = ground arith
scan-records options plain ((v ∷ vs) ∷ rows) before line quote_line h =
    let (l, q, e) =
      scan-record options plain vs v before [] line line quote_line
        (printed_records options.delimiter rows) (wide-is_blank_record (v ∷ vs) h.0) in
    let later = scan-records options plain rows (before ++ (line, v ∷ vs) ∷ []) l q h.1 in
    record {
      added = (line, v ∷ vs) ∷ later.added;
      same = ap ((v ∷ vs) ∷◌) later.same;
      line = later.line;
      quote_line = later.quote_line;
      stands = e ∙ (later.stands ∙ rw (append_assoc before ((line, v ∷ vs) ∷ []) later.added) refl);
    }

positive-not_zero : (n : ℕ) → 0 < n → (n == 0) ≡ false
positive-not_zero n h = ground arith

check_rows-ok :
    (width : ℕ) (records : List (ℕ × List (Option Text)))
    → 0 < width
    → All (HasWidth width) (rows_of records)
    → check_rows width records ≡ ok (width, rows_of records)
unfolding check_rows
check_rows-ok width [] positive h = refl
check_rows-ok width ((line, row) ∷ records) positive h =
    rw
      (
        positive-not_zero width positive,
        (==_iff (length row) width).1 h.0,
        check_rows-ok width records positive h.1,
        check_rows,
      )
      refl

-- A column name that the parser keeps as it is.
abbrev pub IsName : Text → Type 0
IsName name = (trim name ≡ name) × (is_empty name ≡ false)

header_names-same :
    (index : ℕ) (columns : List Text)
    → All IsName columns
    → header_names index (map some columns) ≡ columns
unfolding header_names header_name
header_names-same index [] h = refl
header_names-same index (name ∷ columns) h =
    rw (h.0.0, h.0.1, header_names-same (index + 1) columns h.1) refl

-- A parsed file that can be written as CSV: two columns or more, whose names differ and are kept
-- as they are, and a value for each column in each row.
pub record IsPrintable (p : ParsedImport) : Type 0 where
  pub two_columns : 2 ≤ length p.columns
  pub named : All IsName p.columns
  pub columns_differ : AreDistinct p.columns
  pub rows_fit : All (HasWidth (length p.columns)) p.rows

two-not_empty : (names : List Text) → 2 ≤ length names → is_empty names ≡ false
two-not_empty [] h = ground arith
two-not_empty (name ∷ names) h = refl

assemble-header :
    (options : CsvOptions) (p : ParsedImport) (records : List (ℕ × List (Option Text)))
    → options.has_header ≡ true
    → IsPrintable p
    → rows_of records ≡ map some p.columns ∷ p.rows
    → assemble options records ≡ ok p
unfolding assemble split_header
assemble-header options p [] header h same = ground arith
assemble-header options p ((line, first) ∷ records) header h same =
    let first_same : first ≡ map some p.columns = cc same in
    let rest_same : rows_of records ≡ p.rows = cc same in
    rw
      (
        header,
        first_same,
        header_names-same 0 p.columns h.named,
        check_rows-ok (length p.columns) records (omega (arith, h.two_columns))
            (rw rest_same h.rows_fit),
      )
      (rw
        (
          two-not_empty p.columns h.two_columns,
          (reject_duplicate_columns_iff p.columns).1 h.columns_differ,
          rest_same,
        )
        refl)

finish-between :
    (options : CsvOptions) (records : List (ℕ × List (Option Text))) (line quote_line : ℕ)
    → finish options (between options records [] line line quote_line) ≡ assemble options records
unfolding finish last_record
finish-between options records line quote_line = refl

strip_bom-quote : (s : Text) → strip_bom (b'"' ∷ s) ≡ b'"' ∷ s
unfolding strip_bom strip_prefix
strip_bom-quote s = refl

strip_bom-record :
    (delimiter : ℕ) (name : Text) (vs : List (Option Text)) (t : Text)
    → strip_bom (printed_record delimiter (some name ∷ vs) ++ t)
      ≡ printed_record delimiter (some name ∷ vs) ++ t
strip_bom-record delimiter name [] t = strip_bom-quote _
strip_bom-record delimiter name (v ∷ vs) t = strip_bom-quote _

strip_bom-printed_file :
    (delimiter : ℕ) (columns : List Text) (rows : List (List (Option Text)))
    → 2 ≤ length columns
    → strip_bom (printed_records delimiter (map some columns ∷ rows))
      ≡ printed_records delimiter (map some columns ∷ rows)
strip_bom-printed_file delimiter [] rows h = ground arith
strip_bom-printed_file delimiter (name ∷ columns) rows h =
    strip_bom-record delimiter name (map some columns) (printed_records delimiter rows)

rows-IsWide :
    (n : ℕ) (rows : List (List (Option Text))) → 2 ≤ n → All (HasWidth n) rows → All IsWide rows
rows-IsWide n [] h widths = tt
rows-IsWide n (row ∷ rows) h widths = (omega (arith, h, widths.0), rows-IsWide n rows h widths.1)

-- A file of two columns or more that is written with every value in quotes, every quote within one
-- doubled, NULL as an empty field, a line break behind each record and the names of the columns
-- first, is read back as it was, whatever characters the values hold. The delimiter is no quote
-- and no line break, the file is read with a header and with empty fields as NULL, the names of
-- the columns differ, are not empty and have no white space at their ends.
pub parse_csv-printed_file :
    (options : CsvOptions) (p : ParsedImport)
    → IsPlain options
    → options.has_header ≡ true
    → IsPrintable p
    → parse_csv (printed_file options.delimiter p) options ≡ ok p
unfolding parse_csv
parse_csv-printed_file options p plain header h =
    let wide : All IsWide (map some p.columns ∷ p.rows) = (
      omega (arith, h.two_columns, length-map p.columns some),
      rows-IsWide (length p.columns) p.rows h.two_columns h.rows_fit,
    ) in
    let scanned = scan-records options plain (map some p.columns ∷ p.rows) [] 1 1 wide in
    rw (strip_bom-printed_file options.delimiter p.columns p.rows h.two_columns, scanned.stands)
      (finish-between options scanned.added scanned.line scanned.quote_line
        ∙ assemble-header options p scanned.added header h scanned.same)
