-- ===== src/Import/Csv/Printed.antt =====
-- A CSV file as RFC 4180 writes it, with every value quoted and NULL as an empty field, and how
-- the loop of `parse_csv` reads one field of it.
use mathlib.Core.List.{append-nil, append_assoc}
use draco.Base.{
  ◌==◌, if◌then◌else◌, ==_iff, Bool-cases, ℕ, ◌+◌, ◌≡◌, refl, ◌∙◌, inl, inr, true, false, Option,
  none, some, List, [], ◌∷◌, ◌++◌, arith,
}
use draco.Text.{Text}
use draco.Import.Csv.{CsvOptions, Reader, step_quoted, step_plain, step, takes_two, scan}

-- Every quote is doubled.
abbrev pub doubled : Text → Text
doubled [] = []
doubled (c ∷ s) = if c == b'"' then b'"' ∷ b'"' ∷ doubled s else c ∷ doubled s

abbrev pub printed_field : Option Text → Text
printed_field none = []
printed_field (some value) = b'"' ∷ (doubled value ++ b'"' ∷ [])

abbrev pub printed_record : ℕ → List (Option Text) → Text
printed_record delimiter [] = b'\n' ∷ []
printed_record delimiter (v ∷ []) = printed_field v ++ b'\n' ∷ []
printed_record delimiter (v ∷ w ∷ ws) =
    printed_field v ++ (delimiter ∷ printed_record delimiter (w ∷ ws))

abbrev pub newlines : Text → ℕ
newlines [] = 0
newlines (c ∷ s) = (if c == b'\n' then 1 else 0) + newlines s

abbrev pub head? : Text → Option ℕ
head? [] = none
head? (c ∷ s) = some c

abbrev pub tail : Text → Text
tail [] = []
tail (c ∷ s) = s

-- One round of the loop, at any rest of the text.
pub scan-cons :
    (options : CsvOptions) (r : Reader) (c : ℕ) (s : Text)
    → scan options r (c ∷ s) ≡ (
        if takes_two r c (head? s)
        then scan options (step options r c (head? s)) (tail s)
        else scan options (step options r c (head? s)) s)
unfolding scan
scan-cons options r c [] = ground arith
scan-cons options r c (d ∷ s) = refl

add_zero : (a : ℕ) → a + 0 ≡ a
add_zero a = omega arith

zero_add : (a : ℕ) → 0 + a ≡ a
zero_add a = omega arith

add_assoc : (a b c : ℕ) → (a + b) + c ≡ a + (b + c)
add_assoc a b c = omega arith

-- The reader between two fields, and within and behind a quoted one.
module _ (options : CsvOptions) (records : List (ℕ × List (Option Text)))
    (fields : List (Option Text)) (record_line : ℕ) where
  abbrev pub between : ℕ → ℕ → Reader
  between line quote_line = record {
    records = records;
    fields = fields;
    field = [];
    quoted = false;
    in_quotes = false;
    line = line;
    record_line = record_line;
    quote_line = quote_line;
  }

  abbrev pub within : Text → ℕ → ℕ → Reader
  within field line quote_line = record (between line quote_line) {
    field = field;
    quoted = true;
    in_quotes = true;
  }

  abbrev pub behind : Text → ℕ → ℕ → Reader
  behind field line quote_line = record (between line quote_line) { field = field; quoted = true }

  within-other :
      (field : Text) (line quote_line c : ℕ) (s : Text)
      → (c == b'"') ≡ false
      → scan options (within field line quote_line) (c ∷ s)
        ≡ scan options
            (within (field ++ c ∷ []) (line + (if c == b'\n' then 1 else 0)) quote_line)
            s
  unfolding step step_quoted
  within-other field line quote_line c s h =
      rw (scan-cons options (within field line quote_line) c s, h) (ground arith)

  within-quote :
      (field : Text) (line quote_line : ℕ) (s : Text)
      → scan options (within field line quote_line) (b'"' ∷ b'"' ∷ s)
        ≡ scan options (within (field ++ b'"' ∷ []) line quote_line) s
  unfolding scan step step_quoted
  within-quote field line quote_line s = refl

  within-close :
      (field : Text) (line quote_line d : ℕ) (rest : Text)
      → (d == b'"') ≡ false
      → scan options (within field line quote_line) (b'"' ∷ d ∷ rest)
        ≡ scan options (behind field line quote_line) (d ∷ rest)
  unfolding scan step step_quoted
  within-close field line quote_line d rest h = rw h refl

  -- The characters between the quotes, up to the closing one.
  scan-doubled :
      (value field : Text) (line quote_line d : ℕ) (rest : Text)
      → (d == b'"') ≡ false
      → scan options (within field line quote_line) (doubled value ++ (b'"' ∷ d ∷ rest))
        ≡ scan options (behind (field ++ value) (line + newlines value) quote_line) (d ∷ rest)
  scan-doubled [] field line quote_line d rest h =
      rw (append-nil field, add_zero line) (within-close field line quote_line d rest h)
  scan-doubled (c ∷ s) field line quote_line d rest h = elim (Bool-cases (c == b'"')) [
    | inl quote ↦ rw ((==_iff c b'"').0 quote) (
        within-quote field line quote_line (doubled s ++ (b'"' ∷ d ∷ rest))
        ∙ (scan-doubled s (field ++ b'"' ∷ []) line quote_line d rest h
            ∙ rw (append_assoc field (b'"' ∷ []) s) (same_line s)))
    | inr plain ↦ rw plain (
        within-other field line quote_line c (doubled s ++ (b'"' ∷ d ∷ rest)) plain
        ∙ (scan-doubled s (field ++ c ∷ []) (line + (if c == b'\n' then 1 else 0)) quote_line d rest
              h
            ∙ rw
                (
                  append_assoc field (c ∷ []) s,
                  add_assoc line (if c == b'\n' then 1 else 0) (newlines s),
                )
                refl))
  ]
    where
      same_line :
          (s : Text)
          → scan options (behind (field ++ b'"' ∷ s) (line + newlines s) quote_line) (d ∷ rest)
            ≡ scan options
                (behind (field ++ b'"' ∷ s) (line + newlines (b'"' ∷ s)) quote_line)
                (d ∷ rest)
      same_line s = rw (zero_add (newlines s)) refl

  -- The reader behind a field, before the separator that ends it.
  abbrev pub read_field : Option Text → ℕ → ℕ → Reader
  read_field none line quote_line = between line quote_line
  read_field (some value) line quote_line = behind value (line + newlines value) line

  pub scan-printed_field :
      (v : Option Text) (line quote_line d : ℕ) (rest : Text)
      → (d == b'"') ≡ false
      → scan options (between line quote_line) (printed_field v ++ (d ∷ rest))
        ≡ scan options (read_field v line quote_line) (d ∷ rest)
  unfolding step step_plain
  scan-printed_field none line quote_line d rest h = refl
  scan-printed_field (some value) line quote_line d rest h =
      rw (append_assoc (doubled value) (b'"' ∷ []) (d ∷ rest)) (
        scan-cons options (between line quote_line) b'"' (doubled value ++ (b'"' ∷ d ∷ rest))
        ∙ scan-doubled value [] line line d rest h)
