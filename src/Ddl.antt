-- ===== src/Ddl.antt =====
-- The checks of definitions that are edited as text, in draco-app/src/lib.rs: `DdlCursor` and the
-- validators of views, sequences, indexes, functions and triggers. A cursor is the text that is
-- still to be read; `char::is_alphanumeric` is a parameter, since its table is the library's.
pub mod Targeted
pub mod Names
use draco.Base.{
  ltb, ◌==◌, if◌then◌else◌, is_some, take, is_empty, Result, err, ok, ◌>>=◌, ◌>>◌, reject_if, ℕ,
  String, Bool, true, false, not, ◌&&◌, ◌||◌, Option, none, some, List, [], ◌∷◌, map,
}
use draco.Text.{
  Text, codes, text_eq, is_whitespace, to_ascii_lowercase, byte_len, trim_start, trim, contains,
  starts_with, join,
}
use draco.Error.{validation, with_param, ApplicationError, invalid_input}
use draco.ConnectionImport.Url.{strip_prefix_ignore_case}

pub record SqlObjectName : Type 0 where
  pub schema : Option Text
  pub name : Text

abbrev pub rejected_ddl : String → ApplicationError
rejected_ddl key = invalid_input (validation key)

-- `label` is the catalog key that `Validation::label` makes of its words.
abbrev pub rejected_label : String → String → ApplicationError
rejected_label key label = invalid_input (with_param (validation key) "label" (codes label))

-- The text behind an opening quote: what is read of the name, and the rest. A quote that is doubled
-- stands for one; a name that is not closed is none, and the cursor is at the end.
abbrev pub with_char : ℕ → Option Text × Text → Option Text × Text
with_char c (none, rest) = (none, rest)
with_char c (some name, rest) = (some (c ∷ name), rest)

unfoldable pub quoted_name : Text → Option Text × Text
quoted_name [] = (none, [])
quoted_name (c ∷ []) = if c == b'"' then (some [], []) else (none, [])
quoted_name (c ∷ d ∷ s) =
    let doubled = with_char b'"' (quoted_name s) in
    let plain = with_char c (quoted_name (d ∷ s)) in
    if c == b'"' then if d == b'"' then doubled else (some [], d ∷ s) else plain

module _ (is_alphanumeric : ℕ → Bool) where
  abbrev pub is_word_char : ℕ → Bool
  is_word_char c = is_alphanumeric c || c == b'_' || c == b'$'

  abbrev pub starts_word : Text → Bool
  starts_word [] = false
  starts_word (c ∷ s) = is_word_char c

  abbrev keyword_at : Text → Option Text → Bool × Text
  keyword_at s none = (false, s)
  keyword_at s (some rest) = if starts_word rest then (false, s) else (true, rest)

  -- `DdlCursor::keyword`
  unfoldable pub keyword : String → Text → Bool × Text
  keyword expected s =
      let remaining = trim_start s in
      keyword_at remaining (strip_prefix_ignore_case remaining (codes expected))

  -- The longest run of word characters, and the rest.
  unfoldable pub word_run : Text → Text × Text
  word_run [] = ([], [])
  word_run (c ∷ s) =
      let (word, rest) = word_run s in if is_word_char c then (c ∷ word, rest) else ([], c ∷ s)

  abbrev plain_name : Text → Text × Text → Option Text × Text
  plain_name s (word, rest) =
      if is_empty word then (none, s) else (some (map to_ascii_lowercase word), rest)

  abbrev name_at : Text → Option Text × Text
  name_at [] = (none, [])
  name_at (c ∷ s) = if c == b'"' then quoted_name s else plain_name (c ∷ s) (word_run (c ∷ s))

  -- `DdlCursor::identifier`
  unfoldable pub identifier : Text → Option Text × Text
  unfolding quoted_name word_run
  identifier s = name_at (trim_start s)

  abbrev pub in_schema : Text → Option Text × Text → Option SqlObjectName × Text
  in_schema first (none, rest) = (none, rest)
  in_schema first (some name, rest) = (some (record { schema = some first; name = name }), rest)

  abbrev pub name_behind : Text → Text → Option SqlObjectName × Text
  name_behind first [] = (some (record { schema = none; name = first }), [])
  name_behind first (c ∷ s) =
      if c == b'.'
      then in_schema first (identifier s)
      else (some (record { schema = none; name = first }), c ∷ s)

  abbrev pub qualify : Option Text × Text → Option SqlObjectName × Text
  qualify (none, rest) = (none, rest)
  qualify (some first, rest) = name_behind first (trim_start rest)

  -- `DdlCursor::qualified_name`
  unfoldable pub target_name : Text → Option SqlObjectName × Text
  target_name s = qualify (identifier s)

  unfoldable pub validate_definition_text : Text → String → Result ApplicationError Text
  validate_definition_text ddl label =
      let trimmed = trim ddl in
      if is_empty trimmed || ltb 2097152 (byte_len trimmed) || contains 0 trimmed
      then err (rejected_label "validation.definitionRequired" label)
      else ok trimmed

  abbrev schema_fits : Option Text → Text → Bool
  schema_fits none schema = true
  schema_fits (some s) schema = text_eq s schema

  abbrev pub is_target : Option SqlObjectName → Text → Text → Bool → Bool
  is_target none schema name require_schema = false
  is_target (some target) schema name require_schema =
      text_eq target.name name
      && schema_fits target.schema schema
      && (not require_schema || is_some target.schema)

  unfoldable pub require_target :
      Option SqlObjectName → Text → Text → String → Bool → Result ApplicationError (Unit {0})
  require_target target schema name label require_schema =
      if is_target target schema name require_schema
      then ok tt
      else err (rejected_label "validation.definitionTarget" label)

  -- `cursor.keyword(a) && cursor.keyword(b) && ...`: a keyword that is not there ends the chain.
  unfoldable pub keywords : List String → Text → Bool × Text
  keywords [] s = (true, s)
  keywords (k ∷ ks) s =
      let (found, rest) = keyword k s in
      let more = keywords ks rest in if found then more else (false, rest)

  unfoldable pub validate_view_ddl : Text → Text → Text → Result ApplicationError (Unit {0})
  unfolding keywords
  validate_view_ddl ddl schema name = do
    trimmed ← validate_definition_text ddl "label.view"
    let (found, rest) = keywords ("CREATE" ∷ "OR" ∷ "REPLACE" ∷ "VIEW" ∷ []) trimmed
    reject_if (not found) (rejected_ddl "validation.onlyCreateOrReplaceViewDefinitions")
    require_target (target_name rest).0 schema name "label.view" true

  unfoldable pub validate_sequence_ddl : Text → Text → Text → Result ApplicationError (Unit {0})
  unfolding keywords
  validate_sequence_ddl ddl schema name = do
    trimmed ← validate_definition_text ddl "label.sequence"
    let (found, rest) = keywords ("ALTER" ∷ "SEQUENCE" ∷ []) trimmed
    reject_if (not found) (rejected_ddl "validation.onlyAlterSequenceDefinitionsAreAccepted")
    require_target (target_name rest).0 schema name "label.sequence" true

  unfoldable pub validate_index_ddl : Text → Text → Text → Text → Result ApplicationError (Unit {0})
  validate_index_ddl ddl schema table name = do
    trimmed ← validate_definition_text ddl "label.index"
    let (created, s1) = keyword "CREATE" trimmed
    reject_if (not created) (rejected_ddl "validation.onlyCreateIndexDefinitionsAreAccepted")
    let (_, s2) = keyword "UNIQUE" s1
    let (index, s3) = keyword "INDEX" s2
    let (concurrently, s4) = keyword "CONCURRENTLY" s3
    reject_if (not index || concurrently)
        (rejected_ddl "validation.onlyTransactionalCreateUniqueIndexDefinitions")
    let (index_target, s5) = target_name s4
    let (on, s6) = keyword "ON" s5
    reject_if (not on) (rejected_ddl "validation.theIndexDefinitionMustIdentifyIts")
    let (_, s7) = keyword "ONLY" s6
    let (table_target, _) = target_name s7
    require_target index_target schema name "label.index" false
    require_target table_target schema table "label.indexTable" true

-- `split_whitespace`
abbrev first_of_word : ℕ → Bool → List Text → List Text
first_of_word c true (word ∷ words) = (c ∷ word) ∷ words
first_of_word c _ words = (c ∷ []) ∷ words

abbrev starts_dark : Text → Bool
starts_dark [] = false
starts_dark (c ∷ s) = not (is_whitespace c)

unfoldable pub split_whitespace : Text → List Text
split_whitespace [] = []
split_whitespace (c ∷ s) =
    let words = split_whitespace s in
    if is_whitespace c then words else first_of_word c (starts_dark s) words

-- The first four words, in lower case.
unfoldable pub head_words : Text → Text
unfolding split_whitespace
head_words ddl = map to_ascii_lowercase (join (codes " ") (take 4 (split_whitespace ddl)))

unfoldable pub validate_function_ddl : Text → Result ApplicationError (Unit {0})
validate_function_ddl ddl = do
  let trimmed = trim ddl
  reject_if (is_empty trimmed || ltb 2097152 (byte_len trimmed) || contains 0 trimmed)
      (rejected_ddl "validation.functionDefinitionIsRequiredAndMust")
  let prefix = head_words trimmed
  reject_if
      (not (
        starts_with (codes "create function ") prefix
        || starts_with (codes "create procedure ") prefix
        || starts_with (codes "create or replace function") prefix
        || starts_with (codes "create or replace procedure") prefix))
      (rejected_ddl "validation.onlyCreateOrReplaceFunctionProcedure")

unfoldable pub validate_trigger_ddl : Text → Result ApplicationError (Unit {0})
validate_trigger_ddl ddl = do
  let trimmed = trim ddl
  reject_if (is_empty trimmed || ltb 1048576 (byte_len trimmed) || contains 0 trimmed)
      (rejected_ddl "validation.triggerDefinitionIsRequiredAndMust")
  let prefix = head_words trimmed
  reject_if
      (not (
        starts_with (codes "create trigger ") prefix
        || starts_with (codes "create or replace trigger") prefix))
      (rejected_ddl "validation.onlyCreateOrReplaceTriggerDefinitions")
