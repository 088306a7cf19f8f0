-- ===== src/Import/Csv.antt =====
-- `parse_csv` of draco-core/src/table_import.rs: the loop over the characters is `scan`, and the
-- part behind it `assemble`.
pub mod Printed
pub mod Shape
pub mod RoundTrip
use draco.Base.{
  ◌==◌, if◌then◌else◌, unwrap_or, length, is_empty, Result, err, ok, ◌>>=◌, ◌>>◌, reject_if, ℕ,
  zero, suc, ◌+◌, Bool, true, false, not, ◌&&◌, ◌||◌, Option, none, some, List, [], ◌∷◌, ◌++◌,
}
use draco.Text.{Text, codes, trim, strip_prefix}
use draco.Text.Decimal.{decimal}
use draco.Import.{
  ParsedImport, ImportParseError, empty, unterminated_quote, field_count, reject_duplicate_columns,
}

pub record CsvOptions : Type 0 where
  pub delimiter : ℕ
  pub has_header : Bool
  pub empty_as_null : Bool

-- `CsvOptions::default`
abbrev pub default_options : CsvOptions
default_options = record { delimiter = b','; has_header = true; empty_as_null = true }

-- The variables of the loop. `fields` is the record that is being read.
pub record Reader : Type 0 where
  pub records : List (ℕ × List (Option Text))
  pub fields : List (Option Text)
  pub field : Text
  pub quoted : Bool
  pub in_quotes : Bool
  pub line : ℕ
  pub record_line : ℕ
  pub quote_line : ℕ

abbrev pub start_reader : Reader
start_reader = record {
  records = [];
  fields = [];
  field = [];
  quoted = false;
  in_quotes = false;
  line = 1;
  record_line = 1;
  quote_line = 1;
}

abbrev pub push_char : Reader → ℕ → Reader
push_char r c = record r { field = r.field ++ c ∷ [] }

-- The value that `finish_field` pushes.
abbrev pub field_value : CsvOptions → Text → Bool → Option Text
field_value options value quoted =
    if options.empty_as_null && is_empty value && not quoted then none else some value

abbrev pub finish_field : CsvOptions → Reader → Reader
finish_field options r = record r {
  field = [];
  quoted = false;
  fields = r.fields ++ field_value options r.field r.quoted ∷ [];
}

-- `finished.len() == 1 && finished[0]` is NULL or empty
unfoldable pub is_blank_record : List (Option Text) → Bool
is_blank_record [] = false
is_blank_record (none ∷ []) = true
is_blank_record (some value ∷ []) = is_empty value
is_blank_record (_ ∷ _ ∷ _) = false

unfoldable pub finish_record : CsvOptions → Reader → Reader
finish_record options r =
    let finished = (finish_field options r).fields in
    record r {
      field = [];
      quoted = false;
      fields = [];
      records =
          if is_blank_record finished
          then r.records
          else r.records ++ (r.record_line, finished) ∷ [];
      line = r.line + 1;
      record_line = r.line + 1;
    }

abbrev pub peeks : Option ℕ → ℕ → Bool
peeks none c = false
peeks (some d) c = d == c

-- One character, with the one after it.
unfoldable pub step_quoted : Reader → ℕ → Option ℕ → Reader
step_quoted r c next =
    if c == b'"' && peeks next b'"'
    then push_char r b'"'
    else if c == b'"'
    then record r { in_quotes = false }
    else if c == b'\n'
    then push_char (record r { line = r.line + 1 }) b'\n'
    else push_char r c

unfoldable pub step_plain : CsvOptions → Reader → ℕ → Option ℕ → Reader
step_plain options r c next =
    if c == b'"' && is_empty r.field && not r.quoted
    then record r { in_quotes = true; quoted = true; quote_line = r.line }
    else if c == b'\r' && peeks next b'\n'
    then r
    else if c == b'\n' || c == b'\r'
    then finish_record options r
    else if c == options.delimiter
    then finish_field options r
    else push_char r c

unfoldable pub step : CsvOptions → Reader → ℕ → Option ℕ → Reader
unfolding step_quoted step_plain finish_record
step options r c next = if r.in_quotes then step_quoted r c next else step_plain options r c next

-- A doubled quote inside quotes: the second one is taken with the first.
abbrev pub takes_two : Reader → ℕ → Option ℕ → Bool
takes_two r c next = r.in_quotes && c == b'"' && peeks next b'"'

unfoldable pub scan : CsvOptions → Reader → Text → Reader
scan options r [] = r
scan options r (c ∷ []) = step options r c none
scan options r (c ∷ d ∷ rest) =
    let r' = step options r c (some d) in
    let skipped = scan options r' rest in
    let kept = scan options r' (d ∷ rest) in if takes_two r c (some d) then skipped else kept

-- The name of a header field, at its position.
unfoldable pub header_name : ℕ → Option Text → Text
header_name index none = codes "column_" ++ decimal (index + 1)
header_name index (some name) =
    if is_empty (trim name) then codes "column_" ++ decimal (index + 1) else trim name

unfoldable pub header_names : ℕ → List (Option Text) → List Text
unfolding header_name
header_names index [] = []
header_names index (name ∷ rest) = header_name index name ∷ header_names (index + 1) rest

-- `column_1` and so on, for a file with no header.
unfoldable pub numbered : ℕ → ℕ → List Text
numbered index zero = []
numbered index (suc n) = (codes "column_" ++ decimal (index + 1)) ∷ numbered (index + 1) n

-- The loop over the data records: every one has as many fields as the first, or the header.
unfoldable pub check_rows :
    ℕ → List (ℕ × List (Option Text)) → Result ImportParseError (ℕ × List (List (Option Text)))
check_rows expected [] = ok (expected, [])
check_rows expected ((line, row) ∷ rest) =
    let wanted = if expected == 0 then length row else expected in
    if not (length row == wanted)
    then err (field_count line wanted (length row))
    else do (final, rows) ← check_rows wanted rest; ok (final, row ∷ rows)

-- The header, if the file has one, and the other records.
unfoldable pub split_header :
    Bool
    → List (ℕ × List (Option Text))
    → Result ImportParseError (Option (List Text) × List (ℕ × List (Option Text)))
split_header false records = ok (none, records)
split_header true [] = err empty
split_header true ((_, header) ∷ records) = ok (some (header_names 0 header), records)

abbrev pub expected_count : Option (List Text) → ℕ
expected_count none = 0
expected_count (some columns) = length columns

abbrev pub named_columns : Option (List Text) → ℕ → List Text
named_columns none expected = numbered 0 expected
named_columns (some columns) expected = columns

unfoldable pub assemble :
    CsvOptions → List (ℕ × List (Option Text)) → Result ImportParseError ParsedImport
assemble options records = do
  (columns, rest) ← split_header options.has_header records
  (expected, rows) ← check_rows (expected_count columns) rest
  reject_if (is_empty (named_columns columns expected)) empty
  reject_duplicate_columns (named_columns columns expected)
  ok (record { columns = named_columns columns expected; rows = rows })

-- What is left when the characters are used up.
unfoldable pub last_record : CsvOptions → Reader → List (ℕ × List (Option Text))
last_record options r =
    if not (is_empty r.field) || r.quoted || not (is_empty r.fields)
    then r.records ++ (r.record_line, (finish_field options r).fields) ∷ []
    else r.records

unfoldable pub finish : CsvOptions → Reader → Result ImportParseError ParsedImport
unfolding last_record
finish options r =
    if r.in_quotes
    then err (unterminated_quote r.quote_line)
    else assemble options (last_record options r)

abbrev byte_order_mark : Text
byte_order_mark = 0xfeff ∷ []

unfoldable pub strip_bom : Text → Text
strip_bom text = unwrap_or (strip_prefix byte_order_mark text) text

unfoldable pub parse_csv : Text → CsvOptions → Result ImportParseError ParsedImport
unfolding finish
parse_csv text options = finish options (scan options start_reader (strip_bom text))
