-- ===== src/Ddl/Targeted.antt =====
-- Which view definitions the editor accepts.
use mathlib.Core.List.{append_assoc}
use draco.Base.{
  ltb, ◌==◌, ==_iff, Bool-cases, is_empty, ok, ℕ, ◌≤◌, String, ◌≡◌, refl, sym, ap, ◌∙◌, ◌↔◌, inl,
  inr, Bool, true, false, not, some, List, [], ◌∷◌, ◌++◌, arith,
}
use draco.Text.{
  Text, codes, text_eq_iff, is_whitespace, to_ascii_lowercase, byte_len, trim_start, trim, contains,
}
use draco.SchemaDiff.Ident.{double_quotes}
use draco.TableEditor.{quote_name}
use draco.ConnectionImport.Url.{strip_prefix_ignore_case}
use draco.Ddl.{
  with_char, quoted_name, keyword, identifier, in_schema, qualify, target_name,
  validate_definition_text, require_target, keywords, validate_view_ddl,
}

-- A text that does not go on with a quote.
abbrev pub ends_quote : Text → Bool
ends_quote [] = true
ends_quote (c ∷ s) = not (c == b'"')

quoted_name-end :
    (rest : Text) → ends_quote rest ≡ true → quoted_name (b'"' ∷ rest) ≡ (some [], rest)
unfolding quoted_name
quoted_name-end [] h = refl
quoted_name-end (d ∷ s) h = ground arith

quoted_name-doubled : (s : Text) → quoted_name (b'"' ∷ b'"' ∷ s) ≡ with_char b'"' (quoted_name s)
unfolding quoted_name
quoted_name-doubled s = refl

quoted_name-plain :
    (c : ℕ) (s : Text) → (c == b'"') ≡ false → quoted_name (c ∷ s) ≡ with_char c (quoted_name s)
unfolding quoted_name
quoted_name-plain c [] h = rw h refl
quoted_name-plain c (d ∷ s) h = rw h refl

quoted_name-double_quotes :
    (name rest : Text)
    → ends_quote rest ≡ true
    → quoted_name (double_quotes name ++ (b'"' ∷ rest)) ≡ (some name, rest)
unfolding double_quotes
quoted_name-double_quotes [] rest h = quoted_name-end rest h
quoted_name-double_quotes (c ∷ name) rest h =
    let ih = quoted_name-double_quotes name rest h in
    elim (Bool-cases (c == b'"')) [
      | inl quote ↦
          let same : c ≡ b'"' = (==_iff c b'"').0 quote in
          rw same
            (quoted_name-doubled (double_quotes name ++ (b'"' ∷ rest)) ∙ ap (with_char b'"') ih)
      | inr plain ↦
          rw plain
            (quoted_name-plain c (double_quotes name ++ (b'"' ∷ rest)) plain ∙ ap (with_char c) ih)
    ]

unfoldable pub view_text : Text → Text → Text → Text
view_text schema name body =
    codes "CREATE OR REPLACE VIEW " ++ (quote_name schema ++ (b'.' ∷ (quote_name name ++ body)))

module _ (is_alphanumeric : ℕ → Bool) where
  identifier-quote_name :
      (name rest : Text)
      → ends_quote rest ≡ true
      → identifier is_alphanumeric (quote_name name ++ rest) ≡ (some name, rest)
  unfolding identifier quote_name trim_start is_whitespace
  identifier-quote_name name rest h =
      ap quoted_name (append_assoc (double_quotes name) (b'"' ∷ []) rest)
      ∙ quoted_name-double_quotes name rest h

  identifier-blank :
      (s : Text) → identifier is_alphanumeric (b' ' ∷ s) ≡ identifier is_alphanumeric s
  unfolding identifier trim_start is_whitespace
  identifier-blank s = refl

  -- A name in quotes behind a blank, a point, and a second name in quotes.
  target_name-quoted :
      (schema name rest : Text)
      → ends_quote rest ≡ true
      → target_name is_alphanumeric
          (b' ' ∷ (quote_name schema ++ (b'.' ∷ (quote_name name ++ rest))))
        ≡ (some (record { schema = some schema; name = name }), rest)
  unfolding target_name trim_start is_whitespace
  target_name-quoted schema name rest h =
      let behind = b'.' ∷ (quote_name name ++ rest) in
      ap (qualify is_alphanumeric)
        (identifier-blank (quote_name schema ++ behind) ∙ identifier-quote_name schema behind refl)
      ∙ ap (in_schema is_alphanumeric schema) (identifier-quote_name name rest h)

  module _ (blank : is_alphanumeric b' ' ≡ false) where
    keyword-found :
        (k : String) (s remaining rest : Text)
        → trim_start s ≡ remaining
        → strip_prefix_ignore_case remaining (codes k) ≡ some (b' ' ∷ rest)
        → keyword is_alphanumeric k s ≡ (true, b' ' ∷ rest)
    unfolding keyword
    keyword-found k s remaining rest trimmed stripped = rw (trimmed, stripped, blank) refl

    keywords-found :
        (k : String) (ks : List String) (s rest : Text)
        → keyword is_alphanumeric k s ≡ (true, rest)
        → keywords is_alphanumeric (k ∷ ks) s ≡ keywords is_alphanumeric ks rest
    unfolding keywords
    keywords-found k ks s rest found = rw found refl

    view_keywords :
        (s : Text)
        → keywords is_alphanumeric
            ("CREATE" ∷ "OR" ∷ "REPLACE" ∷ "VIEW" ∷ [])
            (codes "CREATE OR REPLACE VIEW " ++ s)
          ≡ (true, b' ' ∷ s)
    unfolding keywords trim_start is_whitespace strip_prefix_ignore_case to_ascii_lowercase
    view_keywords s =
        let s1 = codes "OR REPLACE VIEW " ++ s in
        let s2 = codes "REPLACE VIEW " ++ s in
        let s3 = codes "VIEW " ++ s in
        keywords-found "CREATE" ("OR" ∷ "REPLACE" ∷ "VIEW" ∷ []) (codes "CREATE " ++ s1) (b' ' ∷ s1)
          (keyword-found "CREATE" (codes "CREATE " ++ s1) (codes "CREATE " ++ s1) s1 refl refl)
        ∙ keywords-found "OR" ("REPLACE" ∷ "VIEW" ∷ []) (b' ' ∷ s1) (b' ' ∷ s2)
            (keyword-found "OR" (b' ' ∷ s1) s1 s2 refl refl)
        ∙ keywords-found "REPLACE" ("VIEW" ∷ []) (b' ' ∷ s2) (b' ' ∷ s3)
            (keyword-found "REPLACE" (b' ' ∷ s2) s2 s3 refl refl)
        ∙ keywords-found "VIEW" [] (b' ' ∷ s3) (b' ' ∷ s)
            (keyword-found "VIEW" (b' ' ∷ s3) s3 s refl refl)

    require_target_iff :
        (found schema name : Text) (named : Text)
        → (require_target is_alphanumeric
              (some (record { schema = some found; name = named }))
              schema
              name
              "label.view"
              true
            ≡ ok tt)
          ↔ ((found ≡ schema) × (named ≡ name))
    unfolding require_target
    require_target_iff found schema name named = (
      λ h. ground (arith, h, text_eq_iff found schema, text_eq_iff named name),
      λ (same, same_name).
          ground (arith, same, same_name, text_eq_iff found schema, text_eq_iff named name),
    )

    definition_accepted :
        (text : Text) (label : String)
        → is_empty text ≡ false
        → trim text ≡ text
        → byte_len text ≤ 2097152
        → contains 0 text ≡ false
        → validate_definition_text is_alphanumeric text label ≡ ok text
    unfolding validate_definition_text
    definition_accepted text label full trimmed short no_zero =
        let small : ltb 2097152 (byte_len text) ≡ false = ground (arith, short) in
        rw (trimmed, full, small, no_zero) refl

    view_text-full : (schema name body : Text) → is_empty (view_text schema name body) ≡ false
    unfolding view_text
    view_text-full schema name body = refl

    validate_view_ddl-target :
        (found named body schema name : Text)
        → ends_quote body ≡ true
        → validate_definition_text is_alphanumeric (view_text found named body) "label.view"
          ≡ ok (view_text found named body)
        → validate_view_ddl is_alphanumeric (view_text found named body) schema name
          ≡ require_target is_alphanumeric
              (some (record { schema = some found; name = named }))
              schema
              name
              "label.view"
              true
    unfolding validate_view_ddl view_text
    validate_view_ddl-target found named body schema name ends accepted =
        rw
          (
            accepted,
            view_keywords (quote_name found ++ (b'.' ∷ (quote_name named ++ body))),
            target_name-quoted found named body ends,
          )
          refl

    -- A definition of a view whose name is written in quotes, as the editor shows it, with any text
    -- behind it, is accepted for an object exactly if it names that object: the same schema and the
    -- same name, whatever characters they hold. The definition is trimmed, holds no zero and has at
    -- most 2 MiB, and a blank is not alphanumeric.
    pub validate_view_ddl_iff :
        (found named body schema name : Text)
        → ends_quote body ≡ true
        → trim (view_text found named body) ≡ view_text found named body
        → byte_len (view_text found named body) ≤ 2097152
        → contains 0 (view_text found named body) ≡ false
        → (validate_view_ddl is_alphanumeric (view_text found named body) schema name ≡ ok tt)
          ↔ ((found ≡ schema) × (named ≡ name))
    validate_view_ddl_iff found named body schema name ends trimmed short no_zero =
        let text = view_text found named body in
        let accepted =
          definition_accepted text "label.view" (view_text-full found named body) trimmed short
            no_zero in
        let same = validate_view_ddl-target found named body schema name ends accepted in
        let decided = require_target_iff found schema name named in
        (λ h. decided.0 (sym same ∙ h), λ fits. same ∙ decided.1 fits)
