-- ===== src/Tests/Imports.antt =====
-- A small file with a quoted value and an empty one.
use draco.Base.{ok, ◌≡◌, refl, ◌↔◌, true, false, none, some, List, [], ◌∷◌, map, arith}
use draco.Text.{Text, codes, text_eq, is_whitespace, trim, strip_prefix}
use draco.Import.{ParsedImport, member, reject_duplicate_columns}
use draco.Import.Copy.{Bytes, read_copy}
use draco.Import.Csv.{
  default_options, is_blank_record, finish_record, step, scan, header_names, check_rows,
  split_header, assemble, last_record, finish, strip_bom, parse_csv,
}
use draco.Import.Csv.Shape.{IsRectangular, parse_csv-IsRectangular}
use draco.Import.Csv.RoundTrip.{IsPlain}
use draco.Import.Csv.RoundTrip.Files.{printed_file, IsPrintable, parse_csv-printed_file}
use draco.Import.Mapping.{
  TableImportColumnView, TableImportMappingInput, column_names, map_entries, is_missing,
  validate_mapping, encode_rows,
}
use draco.Import.Mapping.Checked.{sources_of, targets_of, IsMapping, validate_mapping_iff}
use draco.Import.Mapping.Delivered.{flatten, values_in, parse_csv-encode_rows}

abbrev a_file : Text
a_file = codes "a,b\n1,\"x,y\"\n,2"

abbrev a_parsed : ParsedImport
a_parsed = record {
  columns = codes "a" ∷ codes "b" ∷ [];
  rows = (some (codes "1") ∷ some (codes "x,y") ∷ []) ∷ (none ∷ some (codes "2") ∷ []) ∷ [];
}

parse_csv-a_file : parse_csv a_file default_options ≡ ok a_parsed
unfolding parse_csv strip_bom strip_prefix scan step finish_record is_blank_record finish
    last_record assemble split_header header_names check_rows reject_duplicate_columns member
    text_eq trim is_whitespace
parse_csv-a_file = refl

abbrev a_table : List TableImportColumnView
a_table =
    record { name = codes "x"; data_type = codes "text"; nullable = true; has_default = false } ∷ []

abbrev a_mapping : List TableImportMappingInput
a_mapping = record { source_column = 1; table_column = codes "x" } ∷ []

validate_mapping-a_mapping :
    validate_mapping a_mapping a_parsed.columns a_table ≡ ok (1 ∷ [], codes "x" ∷ [])
unfolding validate_mapping map_entries is_missing column_names member text_eq
validate_mapping-a_mapping = refl

parse_csv-IsRectangular_example : IsRectangular a_parsed
parse_csv-IsRectangular_example =
    parse_csv-IsRectangular a_file default_options a_parsed parse_csv-a_file

parse_csv-encode_rows_example :
    (chunks : List Bytes) × (encode_rows a_parsed.rows (1 ∷ []) ≡ some chunks)
    × (map (map some) (read_copy (flatten chunks))
        ≡ map (λ row. values_in row (sources_of a_mapping)) a_parsed.rows)
parse_csv-encode_rows_example =
    parse_csv-encode_rows a_file default_options a_parsed a_mapping a_table (1 ∷ [])
      (codes "x" ∷ []) parse_csv-a_file validate_mapping-a_mapping

validate_mapping_iff_example :
    (validate_mapping a_mapping a_parsed.columns a_table ≡ ok (1 ∷ [], codes "x" ∷ [])) ↔ (
      IsMapping a_mapping a_parsed.columns a_table
      × ((1 ∷ []) ≡ sources_of a_mapping)
      × ((codes "x" ∷ []) ≡ targets_of a_mapping))
validate_mapping_iff_example =
    validate_mapping_iff a_mapping a_parsed.columns a_table (1 ∷ []) (codes "x" ∷ [])

default-IsPlain : IsPlain default_options
default-IsPlain = record { no_quote = refl; no_newline = refl; no_return = refl; nulls = refl }

a_parsed-IsPrintable : IsPrintable a_parsed
unfolding trim is_whitespace member text_eq
a_parsed-IsPrintable = record {
  two_columns = omega arith;
  named = ((refl, refl), ((refl, refl), tt));
  columns_differ = (refl, (refl, tt));
  rows_fit = (refl, (refl, tt));
}

parse_csv-printed_file_example :
    parse_csv (printed_file b',' a_parsed) default_options ≡ ok a_parsed
parse_csv-printed_file_example =
    parse_csv-printed_file default_options a_parsed default-IsPlain refl a_parsed-IsPrintable
