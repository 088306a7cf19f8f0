-- ===== src/SchemaDiff/Ident.antt =====
-- `quote_ident`, `is_reserved` and `requalify` of draco-core/src/schema_diff.rs.
pub mod Quoted
pub mod Requalified
use draco.Base.{
  ◌==◌, if◌then◌else◌, is_some_and, length, all, ℕ, zero, suc, Bool, false, not, ◌&&◌, ◌||◌, Option,
  none, some, List, [], ◌∷◌, ◌++◌, map,
}
use draco.Text.{Text, codes, is_ascii_digit, is_ascii_lowercase, strip_prefix}
use draco.Import.{member}

abbrev reserved : List Text
reserved = map codes (
    "all" ∷ "analyse" ∷ "analyze" ∷ "and" ∷ "any" ∷ "array" ∷ "as" ∷ "asc" ∷ "asymmetric" ∷ "both"
    ∷ "case" ∷ "cast" ∷ "check" ∷ "collate" ∷ "column" ∷ "constraint" ∷ "create" ∷ "current_catalog"
    ∷ "current_date" ∷ "current_role" ∷ "current_time" ∷ "current_timestamp" ∷ "current_user"
    ∷ "default" ∷ "deferrable" ∷ "desc" ∷ "distinct" ∷ "do" ∷ "else" ∷ "end" ∷ "except" ∷ "false"
    ∷ "fetch" ∷ "for" ∷ "foreign" ∷ "from" ∷ "grant" ∷ "group" ∷ "having" ∷ "in" ∷ "initially"
    ∷ "intersect" ∷ "into" ∷ "lateral" ∷ "leading" ∷ "limit" ∷ "localtime" ∷ "localtimestamp"
    ∷ "not" ∷ "null" ∷ "offset" ∷ "on" ∷ "only" ∷ "or" ∷ "order" ∷ "placing" ∷ "primary"
    ∷ "references" ∷ "returning" ∷ "select" ∷ "session_user" ∷ "some" ∷ "symmetric" ∷ "system_user"
    ∷ "table" ∷ "then" ∷ "to" ∷ "trailing" ∷ "true" ∷ "union" ∷ "unique" ∷ "user" ∷ "using"
    ∷ "variadic" ∷ "when" ∷ "where" ∷ "window" ∷ "with" ∷ [])

unfoldable pub is_reserved : Text → Bool
is_reserved identifier = member identifier reserved

-- `replace('"', "\"\"")`
unfoldable pub double_quotes : Text → Text
double_quotes [] = []
double_quotes (c ∷ s) =
    let rest = double_quotes s in if c == b'"' then b'"' ∷ b'"' ∷ rest else c ∷ rest

abbrev pub starts_plain : Text → Bool
starts_plain [] = false
starts_plain (first ∷ s) = is_ascii_lowercase first || first == b'_'

abbrev pub plain_char : ℕ → Bool
plain_char c = is_ascii_lowercase c || is_ascii_digit c || c == b'_' || c == b'$'

abbrev pub is_plain : Text → Bool
is_plain identifier =
    starts_plain identifier && all plain_char identifier && not (is_reserved identifier)

unfoldable pub quote_ident : Text → Text
unfolding double_quotes
quote_ident identifier =
    if is_plain identifier then identifier else b'"' ∷ (double_quotes identifier ++ b'"' ∷ [])

-- `find` of a text: what stands before the first place where it does, and behind it.
abbrev pub find_later : ℕ → Option (Text × Text) → Option (Text × Text)
find_later c none = none
find_later c (some found) = some (c ∷ found.0, found.1)

unfoldable pub find_text : Text → Text → Option (Text × Text)
find_text needle [] = elim (strip_prefix needle []) [ none ↦ none | some after ↦ some ([], after) ]
find_text needle (c ∷ s) =
    let later = find_text needle s in
    elim (strip_prefix needle (c ∷ s)) [ some after ↦ some ([], after) | none ↦ find_later c later ]

abbrev pub last_char : Text → Option ℕ
last_char [] = none
last_char (c ∷ []) = some c
last_char (c ∷ d ∷ s) = last_char (d ∷ s)

-- `char::is_alphanumeric` is a parameter: its table is Unicode's.
module _ (is_alphanumeric : ℕ → Bool) where
  -- What is written for a qualifier that was found behind `before`: where another name ends with
  -- it, the qualifier itself.
  unfoldable pub rewritten : Text → Text → Text → Text
  rewritten needle replacement before =
      let inside_other_name =
        is_some_and (last_char before)
          (λ c. is_alphanumeric c || c == b'_' || c == b'$' || c == b'.') in
      if inside_other_name then needle else replacement

  -- The loop: `output` is what has been written, and each round uses up the qualifier at least.
  unfoldable pub requalify_from : ℕ → Text → Text → Text → Text → Text
  unfolding rewritten
  requalify_from zero needle replacement output rest = output ++ rest
  requalify_from (suc fuel) needle replacement output rest = elim (find_text needle rest) [
    | none ↦ output ++ rest
    | some found ↦
        let before = output ++ found.0 in
        requalify_from fuel needle replacement (before ++ rewritten needle replacement before)
          found.1
  ]

  -- A round for each character of the text is enough.
  unfoldable pub requalify : Text → Text → Text → Text
  unfolding requalify_from
  requalify text source target =
      requalify_from (length text) (quote_ident source ++ b'.' ∷ [])
        (quote_ident target ++ b'.' ∷ []) [] text
