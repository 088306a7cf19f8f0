-- ===== src/Import/Copy/Read.antt =====
-- Reading what `push_copy_text_row` wrote.
use mathlib.Core.List.{append-nil, append_assoc}
use draco.Base.{
  ◌==◌, lt→ltb, All, All-append, ℕ, ◌+◌, ◌<◌, ◌≡◌, refl, sym, false, Option, none, some, List, [],
  ◌∷◌, ◌++◌, map, arith,
}
use draco.Text.{text_eq}
use draco.Import.Copy.{
  Bytes, escape_byte, push_bytes, push_value, push_values, push_copy_text_row, split_on, unescape,
  read_value, read_row, read_copy,
}

-- What one value appends, whatever is in the buffer.
abbrev pub value_text : Option Bytes → Bytes
value_text v = push_value [] v

-- What the values behind the first append.
abbrev pub tail_text : List (Option Bytes) → Bytes
tail_text [] = []
tail_text (v ∷ vs) = b'\t' ∷ (value_text v ++ tail_text vs)

abbrev pub IsFree : ℕ → Bytes → Type 0
IsFree separator s = All (λ c. (c == separator) ≡ false) s

pub push_bytes-append :
    (text buffer : Bytes) → push_bytes buffer text ≡ buffer ++ push_bytes [] text
unfolding push_bytes
push_bytes-append [] buffer = sym (append-nil buffer)
push_bytes-append (b ∷ text) buffer = cc (
  push_bytes-append text (buffer ++ escape_byte b),
  push_bytes-append text (escape_byte b),
  append_assoc buffer (escape_byte b) (push_bytes [] text),
)

pub push_value-append :
    (v : Option Bytes) (buffer : Bytes) → push_value buffer v ≡ buffer ++ value_text v
unfolding push_value
push_value-append none buffer = refl
push_value-append (some text) buffer = push_bytes-append text buffer

pub push_values-append :
    (vs : List (Option Bytes)) (index : ℕ) (buffer : Bytes)
    → 0 < index
    → push_values index buffer vs ≡ buffer ++ tail_text vs
unfolding push_values
push_values-append [] index buffer h = sym (append-nil buffer)
push_values-append (v ∷ vs) index buffer h = rw (lt→ltb 0 index h) (
    cc (
      push_values-append vs (index + 1) (push_value (buffer ++ b'\t' ∷ []) v) (omega arith),
      push_value-append v (buffer ++ b'\t' ∷ []),
      append_assoc (buffer ++ b'\t' ∷ []) (value_text v) (tail_text vs),
      append_assoc buffer (b'\t' ∷ []) (value_text v ++ tail_text vs),
    ))

pub push_copy_text_row-cons :
    (buffer : Bytes) (v : Option Bytes) (vs : List (Option Bytes))
    → push_copy_text_row buffer (v ∷ vs) ≡ buffer ++ ((value_text v ++ tail_text vs) ++ b'\n' ∷ [])
unfolding push_copy_text_row push_values
push_copy_text_row-cons buffer v vs = cc (
  push_values-append vs 1 (push_value buffer v) (omega arith),
  push_value-append v buffer,
  append_assoc buffer (value_text v) (tail_text vs),
  append_assoc buffer (value_text v ++ tail_text vs) (b'\n' ∷ []),
)

-- Neither separator stands in the text of a value.
escape_byte-IsFree : (b : ℕ) → IsFree b'\t' (escape_byte b) × IsFree b'\n' (escape_byte b)
unfolding escape_byte
escape_byte-IsFree b = ground arith

push_bytes-IsFree :
    (text : Bytes) → IsFree b'\t' (push_bytes [] text) × IsFree b'\n' (push_bytes [] text)
unfolding push_bytes
push_bytes-IsFree [] = (tt, tt)
push_bytes-IsFree (b ∷ text) =
    let (here-tab, here-line) = escape_byte-IsFree b in
    let (rest-tab, rest-line) = push_bytes-IsFree text in
    rw (push_bytes-append text (escape_byte b)) (
      All-append _ (escape_byte b) (push_bytes [] text) here-tab rest-tab,
      All-append _ (escape_byte b) (push_bytes [] text) here-line rest-line,
    )

value_text-IsFree : (v : Option Bytes) → IsFree b'\t' (value_text v) × IsFree b'\n' (value_text v)
unfolding push_value
value_text-IsFree none = ground arith
value_text-IsFree (some text) = push_bytes-IsFree text

pub split_on-append :
    (separator : ℕ) (s t : Bytes)
    → IsFree separator s
    → split_on separator (s ++ separator ∷ t)
      ≡ (s, (split_on separator t).0 ∷ (split_on separator t).1)
unfolding split_on
split_on-append separator [] t h = ground arith
split_on-append separator (c ∷ s) t h = rw (split_on-append separator s t h.1, h.0) refl

split_on-all : (separator : ℕ) (s : Bytes) → IsFree separator s → split_on separator s ≡ (s, [])
unfolding split_on
split_on-all separator [] h = refl
split_on-all separator (c ∷ s) h = rw (split_on-all separator s h.1, h.0) refl

unescape-escape_byte :
    (b : ℕ) (s : Bytes) → unescape false (escape_byte b ++ s) ≡ b ∷ unescape false s
unfolding unescape escape_byte
unescape-escape_byte b s = ground arith

unescape-push_bytes : (text : Bytes) → unescape false (push_bytes [] text) ≡ text
unfolding unescape push_bytes
unescape-push_bytes [] = refl
unescape-push_bytes (b ∷ text) = cc (
  push_bytes-append text (escape_byte b),
  unescape-escape_byte b (push_bytes [] text),
  unescape-push_bytes text,
)

-- No value is written as the mark of NULL.
push_bytes-not_null : (text : Bytes) → text_eq (push_bytes [] text) (b'\\' ∷ b'N' ∷ []) ≡ false
unfolding push_bytes escape_byte text_eq
push_bytes-not_null [] = refl
push_bytes-not_null (b ∷ text) = rw (push_bytes-append text (escape_byte b)) (ground arith)

read_value-value_text : (v : Option Bytes) → read_value (value_text v) ≡ v
unfolding read_value push_value text_eq
read_value-value_text none = refl
read_value-value_text (some text) = rw (push_bytes-not_null text, unescape-push_bytes text) refl

tail_text-IsFree : (vs : List (Option Bytes)) → IsFree b'\n' (tail_text vs)
tail_text-IsFree [] = tt
tail_text-IsFree (v ∷ vs) =
    (refl, All-append _ (value_text v) (tail_text vs) (value_text-IsFree v).1 (tail_text-IsFree vs))

split_on-text :
    (v : Option Bytes) (vs : List (Option Bytes))
    → split_on b'\t' (value_text v ++ tail_text vs) ≡ (value_text v, map value_text vs)
split_on-text v [] =
    rw (append-nil (value_text v)) (split_on-all b'\t' (value_text v) (value_text-IsFree v).0)
split_on-text v (w ∷ ws) =
    rw
      (
        split_on-append b'\t' (value_text v) (value_text w ++ tail_text ws) (value_text-IsFree v).0,
        split_on-text w ws,
      )
      refl

read_value-map : (vs : List (Option Bytes)) → map read_value (map value_text vs) ≡ vs
read_value-map [] = refl
read_value-map (v ∷ vs) = cc (read_value-value_text v, read_value-map vs)

read_row-text :
    (v : Option Bytes) (vs : List (Option Bytes)) → read_row (value_text v ++ tail_text vs) ≡ v ∷ vs
unfolding read_row
read_row-text v vs = rw (split_on-text v vs) (cc (read_value-value_text v, read_value-map vs))

-- One row that was written at the front of a text, with whatever follows it.
pub read_copy-row :
    (v : Option Bytes) (vs : List (Option Bytes)) (t : Bytes)
    → read_copy (push_copy_text_row [] (v ∷ vs) ++ t) ≡ (v ∷ vs) ∷ read_copy t
unfolding read_copy
read_copy-row v vs t =
    rw
      (
        push_copy_text_row-cons [] v vs,
        append_assoc (value_text v ++ tail_text vs) (b'\n' ∷ []) t,
        split_on-append b'\n' (value_text v ++ tail_text vs) t (
            All-append _ (value_text v) (tail_text vs) (value_text-IsFree v).1
              (tail_text-IsFree vs)),
        read_row-text v vs,
      )
      refl

pub push_copy_text_row-append :
    (buffer : Bytes) (v : Option Bytes) (vs : List (Option Bytes))
    → push_copy_text_row buffer (v ∷ vs) ≡ buffer ++ push_copy_text_row [] (v ∷ vs)
push_copy_text_row-append buffer v vs =
    cc (push_copy_text_row-cons buffer v vs, push_copy_text_row-cons [] v vs)

pub read_copy-nil : read_copy [] ≡ []
unfolding read_copy split_on
read_copy-nil = refl
