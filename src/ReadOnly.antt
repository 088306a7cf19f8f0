-- ===== src/ReadOnly.antt =====
-- `reenables_writes` of draco-app/src/lib.rs: whether a statement tries to make a read-only session
-- writable again. `char::is_alphanumeric` and `str::to_lowercase` are parameters, since their
-- tables are Unicode's.
use draco.Base.{
  ◌==◌, if◌then◌else◌, is_empty, any, ℕ, Bool, true, false, ◌&&◌, ◌||◌, List, [], ◌∷◌, ◌++◌,
}
use draco.Text.{Text, codes, text_eq}

-- Where the loop stands: the two `find` calls skip to the end of a comment.
pub data Place : Type 0 where
  outside : Place
  in_line : Place
  in_block : Place

-- The loop that drops comments. A line comment ends before its line break, and a block comment
-- leaves a space, also where its end is missing.
unfoldable pub without_comments : Place → Text → Text
without_comments outside [] = []
without_comments outside (c ∷ []) = c ∷ []
without_comments outside (c ∷ d ∷ s) = elim (c == b'-' && d == b'-') [
  | true ↦ without_comments in_line s
  | false ↦ elim (c == b'/' && d == b'*') [
    | true ↦ without_comments in_block s
    | false ↦ c ∷ without_comments outside (d ∷ s)
  ]
]
without_comments in_line [] = []
without_comments in_line (c ∷ s) = elim (c == b'\n') [
  | true ↦ c ∷ without_comments outside s
  | false ↦ without_comments in_line s
]
without_comments in_block [] = b' ' ∷ []
without_comments in_block (c ∷ []) = b' ' ∷ []
without_comments in_block (c ∷ d ∷ s) = elim (c == b'*' && d == b'/') [
  | true ↦ b' ' ∷ without_comments outside s
  | false ↦ without_comments in_block (d ∷ s)
]

-- `ends_with`
unfoldable pub ends_with : Text → Text → Bool
ends_with suffix [] = is_empty suffix
ends_with suffix (c ∷ s) = text_eq suffix (c ∷ s) || ends_with suffix s

module _ (is_alphanumeric : ℕ → Bool) (to_lowercase : Text → Text) where
  abbrev finish_word : Text → List Text → List Text
  finish_word word rest = if is_empty word then rest else to_lowercase word ∷ rest

  -- `split` at every character that is in no word, and the words that are not empty, lowered.
  unfoldable pub words_from : Text → Text → List Text
  words_from word [] = finish_word word []
  words_from word (c ∷ s) = elim (is_alphanumeric c || c == b'_') [
    | true ↦ words_from (word ++ c ∷ []) s
    | false ↦ finish_word word (words_from [] s)
  ]

  -- `windows(2)`
  unfoldable pub has_read_write : List Text → Bool
  has_read_write [] = false
  has_read_write (a ∷ []) = false
  has_read_write (a ∷ b ∷ rest) =
      text_eq a (codes "read") && text_eq b (codes "write") || has_read_write (b ∷ rest)

  abbrev is_setter : Text → Bool
  is_setter word =
      text_eq word (codes "set")
      || text_eq word (codes "set_config")
      || text_eq word (codes "reset")

  unfoldable pub reenables_writes : Text → Bool
  unfolding without_comments words_from has_read_write ends_with
  reenables_writes sql =
      let words = words_from [] (without_comments outside sql) in
      let changes_setting =
        any (ends_with (codes "transaction_read_only")) words && any is_setter words in
      has_read_write words || changes_setting
