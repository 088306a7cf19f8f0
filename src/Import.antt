-- ===== src/Import.antt =====
-- draco-core/src/table_import.rs and draco-app/src/table_import.rs: a CSV or JSON file becomes
-- rows of text values, and those become `COPY` data for a table.
pub mod Copy
pub mod Csv
pub mod Json
pub mod Mapping
use draco.Base.{
  if◌then◌else◌, Bool-cases, Result, err, ok, ℕ, ◌≡◌, refl, ◌↔◌, inl, inr, Bool, false, ◌||◌,
  Option, List, [], ◌∷◌, arith,
}
use draco.Text.{Text, text_eq, text_eq_iff}

pub data ImportFormat : Type 0 where
  csv : ImportFormat
  json : ImportFormat

pub record ParsedImport : Type 0 where
  pub columns : List Text
  pub rows : List (List (Option Text))

pub data ImportParseError : Type 0 where
  too_large : ImportParseError
  not_utf8 : ImportParseError
  empty : ImportParseError
  unterminated_quote : ℕ → ImportParseError
  field_count : ℕ → ℕ → ℕ → ImportParseError
  invalid_json : ImportParseError
  json_not_array_of_objects : ℕ → ImportParseError
  duplicate_column : Text → ImportParseError

-- Whether a text is one of a list: `HashSet::contains`.
unfoldable pub member : Text → List Text → Bool
member k [] = false
member k (j ∷ js) = text_eq j k || member k js

-- `reject_duplicate_columns`: the set of the names seen so far is `seen`.
reject_seen : List Text → List Text → Result ImportParseError (Unit {0})
reject_seen seen [] = ok tt
reject_seen seen (column ∷ rest) =
    if member column seen then err (duplicate_column column) else reject_seen (column ∷ seen) rest

unfoldable pub reject_duplicate_columns : List Text → Result ImportParseError (Unit {0})
unfolding reject_seen
reject_duplicate_columns columns = reject_seen [] columns

-- No name stands twice.
abbrev pub AreDistinct : List Text → Type 0
AreDistinct [] = Unit
AreDistinct (k ∷ ks) = (member k ks ≡ false) × AreDistinct ks

-- None of the names was seen.
abbrev pub AreNew : List Text → List Text → Type 0
AreNew seen [] = Unit
AreNew seen (k ∷ ks) = (member k seen ≡ false) × AreNew seen ks

pub AreNew-cons :
    (k : Text) (seen ks : List Text) → AreNew (k ∷ seen) ks → AreNew seen ks × (member k ks ≡ false)
unfolding member
AreNew-cons k seen [] h = (tt, refl)
AreNew-cons k seen (j ∷ js) h =
    let (new, apart) = AreNew-cons k seen js h.1 in ground (arith, text_eq_iff k j, text_eq_iff j k)

pub cons-AreNew :
    (k : Text) (seen ks : List Text) → AreNew seen ks → member k ks ≡ false → AreNew (k ∷ seen) ks
unfolding member
cons-AreNew k seen [] h m = tt
cons-AreNew k seen (j ∷ js) h m =
    let later = cons-AreNew k seen js h.1 (ground arith) in
    (ground (arith, text_eq_iff k j, text_eq_iff j k), later)

reject_seen-ok :
    (seen columns : List Text)
    → reject_seen seen columns ≡ ok tt
    → AreDistinct columns × AreNew seen columns
unfolding reject_seen
reject_seen-ok seen [] h = (tt, tt)
reject_seen-ok seen (k ∷ ks) h = elim (Bool-cases (member k seen)) [
  | inl old ↦ ground arith
  | inr new ↦
      let (distinct, fresh) = reject_seen-ok (k ∷ seen) ks (ground arith) in
      let (apart, absent) = AreNew-cons k seen ks fresh in ((absent, distinct), (new, apart))
]

ok-reject_seen :
    (seen columns : List Text)
    → AreDistinct columns
    → AreNew seen columns
    → reject_seen seen columns ≡ ok tt
unfolding reject_seen
ok-reject_seen seen [] d n = refl
ok-reject_seen seen (k ∷ ks) d n =
    rw n.0 (ok-reject_seen (k ∷ seen) ks d.1 (cons-AreNew k seen ks n.1 d.0))

pub AreNew-nil : (ks : List Text) → AreNew [] ks
unfolding member
AreNew-nil [] = tt
AreNew-nil (k ∷ ks) = (refl, AreNew-nil ks)

-- The check passes exactly on lists with no repeated name.
pub reject_duplicate_columns_iff :
    (columns : List Text) → (reject_duplicate_columns columns ≡ ok tt) ↔ AreDistinct columns
unfolding reject_duplicate_columns
reject_duplicate_columns_iff columns =
    (λ h. (reject_seen-ok [] columns h).0, λ d. ok-reject_seen [] columns d (AreNew-nil columns))
