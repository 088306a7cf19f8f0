-- ===== src/Assistant.antt =====
-- `is_read_only_select` of draco-core/src/assistant.rs: the guard of the tools with which the
-- assistant runs a query.
use draco.Base.{◌==◌, if◌then◌else◌, is_empty, any, Bool, not, ◌&&◌, ◌||◌, List, [], ◌∷◌, map}
use draco.Text.{Text, codes, to_ascii_lowercase, trim, contains, starts_with, contains_text}

-- `strip_suffix(';')`, or the text itself.
unfoldable pub without_semicolon : Text → Text
without_semicolon [] = []
without_semicolon (c ∷ []) = if c == b';' then [] else c ∷ []
without_semicolon (c ∷ d ∷ s) = c ∷ without_semicolon (d ∷ s)

abbrev banned : List Text
banned =
    codes " into "
    ∷ codes " for update"
    ∷ codes " for share"
    ∷ codes " for no key update"
    ∷ codes " for key share"
    ∷ []

abbrev select_words : List Text
select_words = codes "select" ∷ codes "with" ∷ codes "table " ∷ codes "values" ∷ []

unfoldable pub is_read_only_select : Text → Bool
unfolding without_semicolon
is_read_only_select sql =
    let trimmed = trim (without_semicolon (trim sql)) in
    let lower = map to_ascii_lowercase trimmed in
    not (is_empty trimmed || contains b';' trimmed)
    && any (λ word. starts_with word lower) select_words
    && not (any (λ needle. contains_text needle lower) banned)
