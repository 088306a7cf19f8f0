-- ===== src/Tests/Pending.antt =====
-- A preview of one candidate, and its import.
use draco.Base.{
  All, err, ok, ℕ, ◌+◌, ◌≡◌, refl, Bool, true, false, Option, none, some, List, [], ◌∷◌, ◌++◌,
}
use draco.Text.{Text, codes, text_eq, is_whitespace, is_ascii_digit, trim}
use draco.Connection.{validate_connection, ConnectionInput, validate_input}
use draco.Import.{member}
use draco.ConnectionImport.{ImportedConnection, digits_value}
use draco.PendingImport.{
  pgpass, saved, ConnectionImportResultView, PendingImport, import_expired, import_input,
  parse_usize, select_key, select_keys, emptied, tested, import_one, import_all, import_selected,
  import_connections,
}
use draco.PendingImport.Once.{imported_once}

abbrev shop_candidate : ImportedConnection
shop_candidate = record {
  label = codes "shop";
  host = codes "db.test";
  port = 5432;
  database = codes "shop";
  user = codes "ana";
  ssl = true;
  ssl_verification_downgraded = false;
  password = some (codes "secret");
  ignored_parameters = [];
}

abbrev shop_preview : PendingImport
shop_preview = record { created = 5000; candidates = some (pgpass, shop_candidate) ∷ [] }

abbrev always_answers : ConnectionInput → Text → Bool
always_answers input password = true

-- The store is the number of connections saved.
abbrev count_saved : ConnectionInput → Option Text → ℕ → ℕ × Option Text
count_saved input password count = (count + 1, some (codes "new"))

abbrev shop_views : List ConnectionImportResultView
shop_views =
    record {
      key = codes "0";
      label = codes "shop";
      status = saved;
      connection_id = some (codes "new");
    }
    ∷ []

abbrev emptied_preview : PendingImport
emptied_preview = record { created = 5000; candidates = none ∷ [] }

shop_imported :
    import_connections always_answers count_saved 6000 (some shop_preview) (codes "0" ∷ []) 0
    ≡ ok (shop_views, emptied_preview, 1)
unfolding import_connections import_selected select_keys select_key parse_usize digits_value
    is_ascii_digit member import_all import_one tested validate_input validate_connection
    import_input emptied trim is_whitespace
shop_imported = refl

imported_once_example :
    All
      (λ v.
        v.status ≡ saved
        → (key : Text) (i later : ℕ) (more : List Text) (s2 : ℕ) → parse_usize v.key ≡ some i
        → parse_usize key ≡ some i
        → import_connections always_answers count_saved later (some emptied_preview) (key ∷ more) s2
          ≡ err import_expired)
      shop_views
imported_once_example =
    imported_once always_answers count_saved shop_preview emptied_preview 6000 (codes "0" ∷ []) 0 1
      shop_views shop_imported

-- Two spellings of one candidate's key in one call save it twice.
shop_imported_twice :
    import_connections always_answers count_saved 6000
      (some shop_preview)
      (codes "0" ∷ codes "00" ∷ [])
      0
    ≡ ok (
      shop_views
          ++ (record {
            key = codes "00";
            label = codes "shop";
            status = saved;
            connection_id = some (codes "new");
          }
              ∷ []),
      emptied_preview,
      2,
    )
unfolding import_connections import_selected select_keys select_key parse_usize digits_value
    is_ascii_digit member import_all import_one tested validate_input validate_connection
    import_input emptied trim is_whitespace text_eq
shop_imported_twice = refl
