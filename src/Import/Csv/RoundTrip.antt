-- ===== src/Import/Csv/RoundTrip.antt =====
-- `parse_csv` reads back a file that was written with every value quoted.
pub mod Files
use mathlib.Core.List.{append_assoc}
use draco.Base.{
  ◌==◌, ==_iff, ℕ, ◌+◌, ◌≡◌, refl, ◌∙◌, Bool, true, false, Option, none, some, List, [], ◌∷◌, ◌++◌,
  arith,
}
use draco.Text.{Text}
use draco.Import.Csv.{
  CsvOptions, field_value, is_blank_record, finish_record, step_plain, step, scan,
}
use draco.Import.Csv.Printed.{
  printed_field, printed_record, newlines, head?, scan-cons, between, read_field,
  scan-printed_field,
}

-- A delimiter that is no quote and no line break, and NULL as the empty field.
pub record IsPlain (options : CsvOptions) : Type 0 where
  pub no_quote : (options.delimiter == b'"') ≡ false
  pub no_newline : (options.delimiter == b'\n') ≡ false
  pub no_return : (options.delimiter == b'\r') ≡ false
  pub nulls : options.empty_as_null ≡ true

module _ (options : CsvOptions) (plain : IsPlain options) where
  field_value-quoted : (value : Text) → field_value options value true ≡ some value
  field_value-quoted value = ground arith

  -- What a delimiter does behind a field.
  step-delimiter :
      (records : List (ℕ × List (Option Text))) (fields : List (Option Text))
      (record_line line quote_line : ℕ) (field : Text) (quoted : Bool) (next : Option ℕ)
      → step_plain options
          (record (between options records fields record_line line quote_line) {
            field = field;
            quoted = quoted;
          })
          options.delimiter
          next
        ≡ between options records
            (fields ++ field_value options field quoted ∷ [])
            record_line
            line
            quote_line
  unfolding step_plain
  step-delimiter records fields record_line line quote_line field quoted next =
      rw
        (
          plain.no_quote,
          plain.no_newline,
          plain.no_return,
          (==_iff options.delimiter options.delimiter).1 refl,
        )
        refl

  -- One field and the delimiter behind it.
  scan-field :
      (records : List (ℕ × List (Option Text))) (fields : List (Option Text))
      (record_line line quote_line : ℕ) (v : Option Text) (rest : Text)
      → (l : ℕ) × (q : ℕ) × (scan options
            (between options records fields record_line line quote_line)
            (printed_field v ++ (options.delimiter ∷ rest))
          ≡ scan options (between options records (fields ++ v ∷ []) record_line l q) rest)
  unfolding step
  scan-field records fields record_line line quote_line none rest = (
    line,
    quote_line,
    scan-cons options (between options records fields record_line line quote_line) options.delimiter
          rest
        ∙ rw (step-delimiter records fields record_line line quote_line [] false (head? rest))
            (rw plain.nulls refl),
  )
  scan-field records fields record_line line quote_line (some value) rest = (
    line + newlines value,
    line,
    scan-printed_field options records fields record_line (some value) line quote_line
          options.delimiter rest plain.no_quote
        ∙ (scan-cons options
              (read_field options records fields record_line (some value) line quote_line)
              options.delimiter rest
            ∙ rw
                (step-delimiter records fields record_line (line + newlines value) line value true
                  (head? rest))
                (rw (field_value-quoted value) refl)),
  )

  -- What a line break does behind the last field of a record that is not blank.
  step-newline :
      (records : List (ℕ × List (Option Text))) (fields : List (Option Text))
      (record_line line quote_line : ℕ) (field : Text) (quoted : Bool) (next : Option ℕ)
      → is_blank_record (fields ++ field_value options field quoted ∷ []) ≡ false
      → step_plain options
          (record (between options records fields record_line line quote_line) {
            field = field;
            quoted = quoted;
          })
          b'\n'
          next
        ≡ between options
            (records ++ (record_line, fields ++ field_value options field quoted ∷ []) ∷ [])
            []
            (line + 1)
            (line + 1)
            quote_line
  unfolding step_plain finish_record
  step-newline records fields record_line line quote_line field quoted next filled = rw filled refl

  scan-last :
      (records : List (ℕ × List (Option Text))) (fields : List (Option Text))
      (record_line line quote_line : ℕ) (v : Option Text) (rest : Text)
      → is_blank_record (fields ++ v ∷ []) ≡ false
      → (l : ℕ) × (q : ℕ) × (scan options
            (between options records fields record_line line quote_line)
            (printed_field v ++ (b'\n' ∷ rest))
          ≡ scan options
              (between options (records ++ (record_line, fields ++ v ∷ []) ∷ []) [] l l q)
              rest)
  unfolding step
  scan-last records fields record_line line quote_line none rest filled = (
    line + 1,
    quote_line,
    scan-cons options (between options records fields record_line line quote_line) b'\n' rest
        ∙ rw
            (step-newline records fields record_line line quote_line [] false (head? rest)
              (rw plain.nulls filled))
            (rw plain.nulls refl),
  )
  scan-last records fields record_line line quote_line (some value) rest filled = (
    line + newlines value + 1,
    line,
    scan-printed_field options records fields record_line (some value) line quote_line b'\n' rest
          refl
        ∙ (scan-cons options
              (read_field options records fields record_line (some value) line quote_line) b'\n'
              rest
            ∙ rw
                (step-newline records fields record_line (line + newlines value) line value true
                  (head? rest) (rw (field_value-quoted value) filled))
                (rw (field_value-quoted value) refl)),
  )

  -- A whole record, from any of its fields on.
  pub scan-record :
      (vs : List (Option Text)) (v : Option Text) (records : List (ℕ × List (Option Text)))
      (fields : List (Option Text)) (record_line line quote_line : ℕ) (rest : Text)
      → is_blank_record (fields ++ v ∷ vs) ≡ false
      → (l : ℕ) × (q : ℕ) × (scan options
            (between options records fields record_line line quote_line)
            (printed_record options.delimiter (v ∷ vs) ++ rest)
          ≡ scan options
              (between options (records ++ (record_line, fields ++ v ∷ vs) ∷ []) [] l l q)
              rest)
  scan-record [] v records fields record_line line quote_line rest filled =
      rw (append_assoc (printed_field v) (b'\n' ∷ []) rest)
        (scan-last records fields record_line line quote_line v rest filled)
  scan-record (w ∷ ws) v records fields record_line line quote_line rest filled =
      let more = printed_record options.delimiter (w ∷ ws) ++ rest in
      let (l1, q1, e1) = scan-field records fields record_line line quote_line v more in
      let (l2, q2, e2) =
        scan-record ws w records (fields ++ v ∷ []) record_line l1 q1 rest
          (rw (append_assoc fields (v ∷ []) (w ∷ ws)) filled) in
      (
        l2,
        q2,
        rw
            (append_assoc (printed_field v)
              (options.delimiter ∷ printed_record options.delimiter (w ∷ ws)) rest)
            (e1 ∙ rw (← append_assoc fields (v ∷ []) (w ∷ ws)) e2),
      )
