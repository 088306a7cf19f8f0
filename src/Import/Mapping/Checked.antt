-- ===== src/Import/Mapping/Checked.antt =====
-- What `validate_mapping` lets through.
use mathlib.Core.List.{append-nil, append_assoc}
use draco.Base.{
  leb, Bool-cases, length, is_empty, retain, All, ok, ◌>>◌, >>=-eq-ok, reject_if, ℕ, ◌<◌, ◌≡◌, refl,
  ap, ◌≢◌, ◌↔◌, inl, inr, Bool, true, false, not, ◌||◌, List, [], ◌∷◌, ◌++◌, arith,
}
use draco.Text.{Text}
use draco.Error.{ApplicationError}
use draco.Import.{member, AreDistinct, AreNew, AreNew-cons, cons-AreNew, AreNew-nil}
use draco.Import.Mapping.{
  TableImportColumnView, TableImportMappingInput, column_names, map_entries, is_missing,
  validate_mapping,
}

abbrev pub sources_of : List TableImportMappingInput → List ℕ
sources_of [] = []
sources_of (entry ∷ rest) = entry.source_column ∷ sources_of rest

abbrev pub targets_of : List TableImportMappingInput → List Text
targets_of [] = []
targets_of (entry ∷ rest) = entry.table_column ∷ targets_of rest

-- An entry reads a column of the file and fills a column of the table.
abbrev pub FitsEntry : List Text → ℕ → TableImportMappingInput → Type 0
FitsEntry known sources entry =
    (entry.source_column < sources) × (member entry.table_column known ≡ true)

-- A column that may not be NULL and has no default is filled by the mapping.
abbrev pub IsCovered : List Text → TableImportColumnView → Type 0
IsCovered targets column =
    column.nullable ≡ false → column.has_default ≡ false → member column.name targets ≡ true

is_missing-IsCovered :
    (targets : List Text) (column : TableImportColumnView)
    → (is_missing targets column ≡ false) ↔ IsCovered targets column
unfolding is_missing
is_missing-IsCovered targets column = ground arith

-- A mapping that names at least one column, only columns that exist, no table column twice, and
-- every table column that has to be filled.
pub record IsMapping (mapping : List TableImportMappingInput) (sources : List Text)
    (table : List TableImportColumnView) : Type 0 where
  pub filled : mapping ≢ []
  pub fitting : All (FitsEntry (column_names table) (length sources)) mapping
  pub distinct : AreDistinct (targets_of mapping)
  pub covering : All (IsCovered (targets_of mapping)) table

lt→leb-false : (a b : ℕ) → a < b → leb b a ≡ false
lt→leb-false a b h = ground arith

module _ (known : List Text) (sources : ℕ) where
  map_entries-ok :
      (used : List Text) (indexes : List ℕ) (targets : List Text)
      (es : List TableImportMappingInput) (r : List ℕ × List Text)
      → map_entries known sources used indexes targets es ≡ ok r
      → (r ≡ (indexes ++ sources_of es, targets ++ targets_of es))
        × All (FitsEntry known sources) es
        × AreDistinct (targets_of es)
        × AreNew used (targets_of es)
  unfolding map_entries
  map_entries-ok used indexes targets [] r h =
      (cc (h, append-nil indexes, append-nil targets), tt, tt, tt)
  map_entries-ok used indexes targets (e ∷ es) r h =
      elim (Bool-cases (leb sources e.source_column || not (member e.table_column known))) [
        | inl bad ↦ ground arith
        | inr good ↦ elim (Bool-cases (member e.table_column used)) [
          | inl twice ↦ ground arith
          | inr new ↦
              let (same, fits, distinct, fresh) =
                map_entries-ok (e.table_column ∷ used) (indexes ++ e.source_column ∷ [])
                  (targets ++ e.table_column ∷ []) es r (ground arith) in
              let (apart, absent) = AreNew-cons e.table_column used (targets_of es) fresh in
              (
                cc (
                  same,
                  append_assoc indexes (e.source_column ∷ []) (sources_of es),
                  append_assoc targets (e.table_column ∷ []) (targets_of es),
                ),
                (ground arith, fits),
                (absent, distinct),
                (new, apart),
              )
        ]
      ]

  ok-map_entries :
      (used : List Text) (indexes : List ℕ) (targets : List Text)
      (es : List TableImportMappingInput)
      → All (FitsEntry known sources) es
      → AreDistinct (targets_of es)
      → AreNew used (targets_of es)
      → map_entries known sources used indexes targets es
        ≡ ok (indexes ++ sources_of es, targets ++ targets_of es)
  unfolding map_entries
  ok-map_entries used indexes targets [] fits distinct fresh =
      cc (append-nil indexes, append-nil targets)
  ok-map_entries used indexes targets (e ∷ es) fits distinct fresh =
      rw
        (
          lt→leb-false (e.source_column) sources fits.0.0,
          fits.0.1,
          fresh.0,
          ok-map_entries (e.table_column ∷ used) (indexes ++ e.source_column ∷ [])
              (targets ++ e.table_column ∷ []) es fits.1 distinct.1
              (cons-AreNew e.table_column used (targets_of es) fresh.1 distinct.0),
        )
        (cc (
          append_assoc indexes (e.source_column ∷ []) (sources_of es),
          append_assoc targets (e.table_column ∷ []) (targets_of es),
        ))

-- No column is left that the mapping has to fill.
retain-none :
    (targets : List Text) (table : List TableImportColumnView)
    → (is_empty (retain (is_missing targets) table) ≡ true) ↔ All (IsCovered targets) table
retain-none targets [] = ground arith
retain-none targets (column ∷ table) =
    ground (arith, retain-none targets table, is_missing-IsCovered targets column)

cons-not_nil : (e : TableImportMappingInput) (es : List TableImportMappingInput) → (e ∷ es) ≢ []
cons-not_nil e es h = cc

passed :
    (test : Bool) (e : ApplicationError) (found r : List ℕ × List Text)
    → (reject_if (not test) e >> ok (found.0, found.1)) ≡ ok r
    → (r ≡ found) × (test ≡ true)
passed true e found r h = (cc h, refl)
passed false e found r h = ground arith

validate_mapping-ok :
    (mapping : List TableImportMappingInput) (sources : List Text)
    (table : List TableImportColumnView) (r : List ℕ × List Text)
    → validate_mapping mapping sources table ≡ ok r
    → IsMapping mapping sources table × (r ≡ (sources_of mapping, targets_of mapping))
unfolding validate_mapping
validate_mapping-ok [] sources table r h = ground arith
validate_mapping-ok (e ∷ es) sources table r h =
    let (found, s1, h1) =
      >>=-eq-ok (map_entries (column_names table) (length sources) [] [] [] (e ∷ es)) _ h in
    let (same, fits, distinct, _) =
      map_entries-ok (column_names table) (length sources) [] [] [] (e ∷ es) found s1 in
    let (kept, none_left) = passed (is_empty (retain (is_missing found.1) table)) _ found r h1 in
    (
      record {
        filled = cons-not_nil e es;
        fitting = fits;
        distinct = distinct;
        covering = (retain-none (targets_of (e ∷ es)) table).0 (cc (same, none_left));
      },
      cc (kept, same),
    )

ok-validate_mapping :
    (mapping : List TableImportMappingInput) (sources : List Text)
    (table : List TableImportColumnView)
    → IsMapping mapping sources table
    → validate_mapping mapping sources table ≡ ok (sources_of mapping, targets_of mapping)
unfolding validate_mapping
ok-validate_mapping [] sources table m = elim (m.filled refl) [ ]
ok-validate_mapping (e ∷ es) sources table m =
    rw
      (
        ok-map_entries (column_names table) (length sources) [] [] [] (e ∷ es) m.fitting m.distinct
            (AreNew-nil (targets_of (e ∷ es))),
        (retain-none (targets_of (e ∷ es)) table).1 m.covering,
      )
      refl

-- The mapping is accepted exactly when it is one, and the indexes and the columns that are
-- returned are its own, in its order.
pub validate_mapping_iff :
    (mapping : List TableImportMappingInput) (sources : List Text)
    (table : List TableImportColumnView) (indexes : List ℕ) (targets : List Text)
    → (validate_mapping mapping sources table ≡ ok (indexes, targets)) ↔ (
        IsMapping mapping sources table
        × (indexes ≡ sources_of mapping)
        × (targets ≡ targets_of mapping))
validate_mapping_iff mapping sources table indexes targets = (
  (λ h.
      let (m, same) = validate_mapping-ok mapping sources table (indexes, targets) h in
      (m, ap (λ r. r.0) same, ap (λ r. r.1) same)),
  (λ h. cc (ok-validate_mapping mapping sources table h.0, h.1, h.2)),
)
