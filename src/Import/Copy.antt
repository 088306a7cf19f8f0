-- ===== src/Import/Copy.antt =====
-- The text format of PostgreSQL's COPY: `push_copy_text_row` of draco-core/src/table_import.rs
-- writes it, and `read_copy` reads it the way PostgreSQL documents it.
pub mod Read
use draco.Base.{
  ltb, ◌==◌, if◌then◌else◌, ℕ, ◌+◌, Bool, true, false, Option, none, some, List, [], ◌∷◌, ◌++◌, map,
}
use draco.Text.{text_eq}

abbrev pub Bytes : Type 0
Bytes = List ℕ

unfoldable pub escape_byte : ℕ → Bytes
escape_byte byte =
    if byte == b'\\'
    then b'\\' ∷ b'\\' ∷ []
    else if byte == b'\t'
    then b'\\' ∷ b't' ∷ []
    else if byte == b'\n'
    then b'\\' ∷ b'n' ∷ []
    else if byte == b'\r'
    then b'\\' ∷ b'r' ∷ []
    else byte ∷ []

-- The loop over the bytes of one value.
unfoldable pub push_bytes : Bytes → Bytes → Bytes
unfolding escape_byte
push_bytes buffer [] = buffer
push_bytes buffer (byte ∷ text) = push_bytes (buffer ++ escape_byte byte) text

unfoldable pub push_value : Bytes → Option Bytes → Bytes
unfolding push_bytes
push_value buffer none = buffer ++ b'\\' ∷ b'N' ∷ []
push_value buffer (some text) = push_bytes buffer text

-- The loop over the values, from one index on.
unfoldable pub push_values : ℕ → Bytes → List (Option Bytes) → Bytes
unfolding push_value
push_values index buffer [] = buffer
push_values index buffer (value ∷ values) =
    push_values (index + 1)
      (push_value (if ltb 0 index then buffer ++ b'\t' ∷ [] else buffer) value) values

unfoldable pub push_copy_text_row : Bytes → List (Option Bytes) → Bytes
unfolding push_values
push_copy_text_row buffer values = push_values 0 buffer values ++ b'\n' ∷ []

-- A reader of the format: the parts between separators, the first one apart.
unfoldable pub split_on : ℕ → Bytes → Bytes × List Bytes
split_on separator [] = ([], [])
split_on separator (c ∷ s) =
    let (first, others) = split_on separator s in
    if c == separator then ([], first ∷ others) else (c ∷ first, others)

-- The byte that a letter behind a backslash stands for.
abbrev pub unescaped : ℕ → ℕ
unescaped c =
    if c == b't' then b'\t' else if c == b'n' then b'\n' else if c == b'r' then b'\r' else c

-- The flag tells whether the byte before was a backslash that escapes this one.
unfoldable pub unescape : Bool → Bytes → Bytes
unescape pending [] = []
unescape true (c ∷ s) = unescaped c ∷ unescape false s
unescape false (c ∷ s) = let rest = unescape (c == b'\\') s in if c == b'\\' then rest else c ∷ rest

unfoldable pub read_value : Bytes → Option Bytes
unfolding unescape
read_value text = if text_eq text (b'\\' ∷ b'N' ∷ []) then none else some (unescape false text)

unfoldable pub read_row : Bytes → List (Option Bytes)
unfolding split_on read_value
read_row line =
    let (first, others) = split_on b'\t' line in read_value first ∷ map read_value others

unfoldable pub read_lines : Bytes → List Bytes → List (List (Option Bytes))
read_lines first [] = []
read_lines first (second ∷ others) = read_row first ∷ read_lines second others

-- Each row ends with a line break, so the part after the last one is no row.
unfoldable pub read_copy : Bytes → List (List (Option Bytes))
unfolding read_lines
read_copy text = let (first, others) = split_on b'\n' text in read_lines first others
