-- ===== src/SchemaDiff/Ident/Quoted.antt =====
-- What PostgreSQL reads where `quote_ident` wrote a name.
use draco.Base.{
  leb, ◌==◌, if◌then◌else◌, ℕ, Bool, true, false, not, ◌&&◌, ◌||◌, Option, none, some, List, [],
  ◌∷◌, map,
}
use draco.Text.{Text, codes, to_ascii_lowercase}
use draco.Import.{member}
use draco.SchemaDiff.Ident.{plain_char}

-- A reader of identifiers: a quoted one ends at a quote that is not doubled, and a plain one is
-- folded to lower case and is no key word.
abbrev read_more : ℕ → Option (Text × Text) → Option (Text × Text)
read_more c none = none
read_more c (some found) = some (c ∷ found.0, found.1)

-- `after_quote` tells that the character before was a quote within the identifier.
unfoldable pub read_quoted : Bool → Text → Option (Text × Text)
read_quoted true [] = some ([], [])
read_quoted false [] = none
read_quoted after_quote (c ∷ s) = elim after_quote [
  | true ↦ if c == b'"' then read_more b'"' (read_quoted false s) else some ([], c ∷ s)
  | false ↦ elim (c == b'"') [
    | true ↦ read_quoted true s
    | false ↦ read_more c (read_quoted false s)
  ]
]

-- Letters, those beyond ASCII included, digits, underscores and dollar signs.
abbrev pub name_char : ℕ → Bool
name_char c = plain_char (to_ascii_lowercase c) || leb 128 c

unfoldable pub read_plain : Text → Text × Text
read_plain [] = ([], [])
read_plain (c ∷ s) =
    let rest = read_plain s in
    if name_char c then (to_ascii_lowercase c ∷ rest.0, rest.1) else ([], c ∷ s)

-- The key words of PostgreSQL's manual that are reserved.
abbrev pub reserved_words : List Text
reserved_words = map codes (
    "all" ∷ "analyse" ∷ "analyze" ∷ "and" ∷ "any" ∷ "array" ∷ "as" ∷ "asc" ∷ "asymmetric" ∷ "both"
    ∷ "case" ∷ "cast" ∷ "check" ∷ "collate" ∷ "column" ∷ "constraint" ∷ "create" ∷ "current_catalog"
    ∷ "current_date" ∷ "current_role" ∷ "current_time" ∷ "current_timestamp" ∷ "current_user"
    ∷ "default" ∷ "deferrable" ∷ "desc" ∷ "distinct" ∷ "do" ∷ "else" ∷ "end" ∷ "except" ∷ "false"
    ∷ "fetch" ∷ "for" ∷ "foreign" ∷ "from" ∷ "grant" ∷ "group" ∷ "having" ∷ "in" ∷ "initially"
    ∷ "intersect" ∷ "into" ∷ "lateral" ∷ "leading" ∷ "limit" ∷ "localtime" ∷ "localtimestamp"
    ∷ "not" ∷ "null" ∷ "offset" ∷ "on" ∷ "only" ∷ "or" ∷ "order" ∷ "placing" ∷ "primary"
    ∷ "references" ∷ "returning" ∷ "select" ∷ "session_user" ∷ "some" ∷ "symmetric" ∷ "system_user"
    ∷ "table" ∷ "then" ∷ "to" ∷ "trailing" ∷ "true" ∷ "union" ∷ "unique" ∷ "user" ∷ "using"
    ∷ "variadic" ∷ "when" ∷ "where" ∷ "window" ∷ "with" ∷ [])

-- The key words that only a function or a type may have as its name.
abbrev pub function_words : List Text
function_words = map codes (
    "authorization" ∷ "binary" ∷ "collation" ∷ "concurrently" ∷ "cross" ∷ "current_schema"
    ∷ "freeze" ∷ "full" ∷ "ilike" ∷ "inner" ∷ "is" ∷ "isnull" ∷ "join" ∷ "left" ∷ "like" ∷ "natural"
    ∷ "notnull" ∷ "outer" ∷ "overlaps" ∷ "right" ∷ "similar" ∷ "tablesample" ∷ "verbose" ∷ [])

abbrev pub is_key_word : Text → Bool
is_key_word name = member name reserved_words || member name function_words

abbrev no_key_word : Text × Text → Option (Text × Text)
no_key_word found = if is_key_word found.0 then none else some found

unfoldable pub read_identifier : Text → Option (Text × Text)
unfolding read_quoted read_plain
read_identifier [] = none
read_identifier (c ∷ s) =
    if c == b'"' then read_quoted false s else no_key_word (read_plain (c ∷ s))

-- What stands behind an identifier does not go on with it.
abbrev pub ends_name : Text → Bool
ends_name [] = true
ends_name (c ∷ s) = not (c == b'"') && not (name_char c)
