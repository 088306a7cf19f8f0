-- ===== src/Import/Json/Imported.antt =====
-- What is imported of a JSON file.
use mathlib.Core.Option.{map as map_option}
use draco.Base.{
  if◌then◌else◌, is_empty, All, ok, ◌>>=◌, >>=-eq-ok, reject_if-eq-ok, ◌≡◌, refl, sym, ap, ◌∙◌,
  Bool, Option, none, some, List, [], ◌∷◌, map,
}
use draco.Text.{Text, text_eq}
use draco.Text.Assoc.{get}
use draco.Import.{ParsedImport, ImportParseError, AreDistinct}
use draco.Import.Csv.{strip_bom}
use draco.Import.Json.{
  JsonKind, object, visit_map, read_item, collect_objects, array_of, json_to_text, rows_of_items,
  parse_json,
}
use draco.Import.Json.Header.{AreColumns, IsHeader, position}
use draco.Import.Json.Cells.{
  cell_after, meant_row, meant_text, json_to_text-meant_text, collect_objects-IsCollected,
  fill_rows-map, ok-injective,
}
use draco.Import.Json.Objects.{visit_map-AreColumns, cell_after-visit_map}

abbrev imported : List Text → List (List (Option Text)) → ParsedImport
imported columns rows = record { columns = columns; rows = rows }

module _ {V : Type 0} where
  abbrev visited : List (List (Text × V)) → List (List (Text × V))
  visited entries = map (visit_map []) entries

  -- Items that are all objects, as the file spells them.
  read_items-objects :
      (items : List (Option (List (Text × V)))) (found : List (List (Text × V)))
      → map read_item items ≡ map object found
      → (entries : List (List (Text × V))) × (items ≡ map (λ (e : List (Text × V)). some e) entries)
        × (found ≡ visited entries)
  read_items-objects [] [] h = ([], refl, refl)
  read_items-objects [] (fields ∷ found) h = cc (h)
  read_items-objects (item ∷ items) [] h = cc (h)
  read_items-objects (none ∷ items) (fields ∷ found) h = cc (h)
  read_items-objects (some entry ∷ items) (fields ∷ found) h =
      let (entries, same_items, same_found) = read_items-objects items found (cc (h)) in
      let first : fields ≡ visit_map [] entry = cc (h) in
      (entry ∷ entries, rw same_items refl, rw first (rw same_found refl))

  visited-AreColumns :
      (columns : List Text) (entries : List (List (Text × V)))
      → All (AreColumns columns) (visited entries)
      → All (AreColumns columns) entries
  visited-AreColumns columns [] h = tt
  visited-AreColumns columns (entry ∷ entries) (here, rest) =
      ((visit_map-AreColumns columns [] entry here).1, visited-AreColumns columns entries rest)

  module _ (kind_of : V → JsonKind) (to_string : V → Text) where
    meant_row-visit_map :
        (columns : List Text) (entry : List (Text × V))
        → meant_row kind_of to_string columns (visit_map [] entry)
          ≡ meant_row kind_of to_string columns entry
    unfolding cell_after
    meant_row-visit_map [] entry = refl
    meant_row-visit_map (column ∷ columns) entry =
        rw (cell_after-visit_map kind_of to_string none column [] entry tt) (
          ap (λ rest. cell_after kind_of to_string none column entry ∷ rest)
            (meant_row-visit_map columns entry))

    meant_rows-visited :
        (columns : List Text) (entries : List (List (Text × V)))
        → map (meant_row kind_of to_string columns) (visited entries)
          ≡ map (meant_row kind_of to_string columns) entries
    meant_rows-visited columns [] = refl
    meant_rows-visited columns (entry ∷ entries) = rw (meant_row-visit_map columns entry) (
        ap (λ rest. meant_row kind_of to_string columns entry ∷ rest)
          (meant_rows-visited columns entries))

    -- The text of a column's value: of the last value that an object gives the name, and NULL where
    -- it gives none.
    unfoldable pub cell_of : Option Text → Text → List (Text × V) → Option Text
    cell_of before column [] = before
    cell_of before column ((key, value) ∷ fields) =
        cell_of (if text_eq key column then meant_text kind_of to_string value else before) column
          fields

    abbrev pub row_of : List Text → List (Text × V) → List (Option Text)
    row_of columns fields = map (λ column. cell_of none column fields) columns

    cell_after-cell_of :
        (before : Option Text) (column : Text) (fields : List (Text × V))
        → cell_after kind_of to_string before column fields ≡ cell_of before column fields
    unfolding cell_after cell_of
    cell_after-cell_of before column [] = refl
    cell_after-cell_of before column ((key, value) ∷ fields) =
        cell_after-cell_of
          (if text_eq key column then json_to_text kind_of to_string value else before) column
          fields
        ∙ ap (λ text. cell_of (if text_eq key column then text else before) column fields)
            (json_to_text-meant_text kind_of to_string value)

    meant_row-row_of :
        (columns : List Text) (entry : List (Text × V))
        → meant_row kind_of to_string columns entry ≡ row_of columns entry
    meant_row-row_of [] entry = refl
    meant_row-row_of (column ∷ columns) entry =
        rw (cell_after-cell_of none column entry)
          (ap (λ rest. cell_of none column entry ∷ rest) (meant_row-row_of columns entry))

    meant_rows-row_of :
        (columns : List Text) (entries : List (List (Text × V)))
        → map (meant_row kind_of to_string columns) entries ≡ map (row_of columns) entries
    meant_rows-row_of columns [] = refl
    meant_rows-row_of columns (entry ∷ entries) =
        rw (meant_row-row_of columns entry)
          (ap (λ rest. row_of columns entry ∷ rest) (meant_rows-row_of columns entries))

    -- The answer for items that are objects, over distinct columns that hold all their names.
    pub record IsImported (items : Option (List (Option (List (Text × V)))))
        (answer : Option ParsedImport) : Type 0 where
      pub columns : List Text
      pub objects : List (List (Text × V))
      pub all_objects : items ≡ some (map (λ (e : List (Text × V)). some e) objects)
      pub distinct : AreDistinct columns
      pub covered : All (AreColumns columns) objects
      pub answered : answer ≡ some (imported columns (map (row_of columns) objects))

    items-IsImported :
        (items : List (Option (List (Text × V)))) (answer : Option ParsedImport)
        → rows_of_items kind_of to_string (map read_item items) ≡ ok answer
        → IsImported (some items) answer
    unfolding rows_of_items get position
    items-IsImported items answer h =
        let ((found, columns, index), collected, h1) =
          >>=-eq-ok (collect_objects 0 (map read_item items) ([], [])) _ h in
        let (_, h2) = reject_if-eq-ok (is_empty columns) _ _ h1 in
        let known =
          collect_objects-IsCollected 0 (map read_item items) ([], []) no_columns collected in
        let (entries, same_items, same_found) = read_items-objects items found known.all_objects in
        let rows = fill_rows-map kind_of to_string columns index found known.header known.covered in
        record {
          columns = columns;
          objects = entries;
          all_objects = ap (λ (i : List (Option (List (Text × V)))). some i) same_items;
          distinct = known.header.distinct;
          covered =
              visited-AreColumns columns entries
                (all_covered columns found entries same_found known.covered);
          answered =
              sym (ok-injective h2)
              ∙ ap (map_option (imported columns)) rows
              ∙ ap (λ r. some (imported columns r)) (rows_meant columns found entries same_found);
        }
      where
        no_columns : IsHeader [] []
        no_columns = record { distinct = tt; placed = λ k. refl }

        rows_meant :
            (columns : List Text) (found entries : List (List (Text × V)))
            → found ≡ visited entries
            → map (meant_row kind_of to_string columns) found ≡ map (row_of columns) entries
        rows_meant columns found entries same =
            ap (map (meant_row kind_of to_string columns)) same
            ∙ meant_rows-visited columns entries
            ∙ meant_rows-row_of columns entries

        all_covered :
            (columns : List Text) (found entries : List (List (Text × V)))
            → found ≡ visited entries
            → All (AreColumns columns) found
            → All (AreColumns columns) (visited entries)
        all_covered columns found entries same = rw same (λ g. g)

    module _ (from_str : Text → Option (List (Option (List (Text × V)))))
        (is_json : Text → Bool) where
      -- The JSON import never panics: where it is not refused, the file behind a byte order mark is
      -- an array of objects, the columns are distinct and hold each name of each object, and the
      -- rows are the objects in order, each with the text of the last value that it gives the name
      -- of a column, and NULL where it gives none.
      pub parse_json-IsImported :
          (text : Text) (answer : Option ParsedImport)
          → parse_json kind_of to_string from_str is_json text ≡ ok answer
          → IsImported (from_str (strip_bom text)) answer
      unfolding parse_json
      parse_json-IsImported text answer h = read (from_str (strip_bom text)) _ h
        where
          read :
              (items : Option (List (Option (List (Text × V))))) (failure : ImportParseError)
              → (array_of failure items >>= rows_of_items kind_of to_string) ≡ ok answer
              → IsImported items answer
          read none failure done = cc (done)
          read (some items) failure done = items-IsImported items answer done
