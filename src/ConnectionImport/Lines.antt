-- ===== src/ConnectionImport/Lines.antt =====
-- Reading back a line of the password file.
use mathlib.Core.List.{append-nil, append_assoc}
use draco.Base.{
  ◌==◌, if◌then◌else◌, lt→ltb, Bool-cases, All-append, ℕ, ◌+◌, ◌<◌, ◌≡◌, refl, inl, inr, false,
  ◌||◌, some, List, [], ◌∷◌, ◌++◌, arith,
}
use draco.Text.{Text}
use draco.Import.Copy.Read.{IsFree}
use draco.ConnectionImport.{PgpassEntry, read_fields, trim_returns, parse_line}

-- A field as libpq documents it: a backslash before every colon and backslash.
abbrev pub escaped_field : Text → Text
escaped_field [] = []
escaped_field (c ∷ s) =
    if c == b':' || c == b'\\' then b'\\' ∷ c ∷ escaped_field s else c ∷ escaped_field s

abbrev pub printed_line : PgpassEntry → Text
printed_line e =
    escaped_field e.host
    ++ (b':'
        ∷ (escaped_field e.port
            ++ (b':'
                ∷ (escaped_field e.database
                    ++ (b':' ∷ (escaped_field e.user ++ (b':' ∷ escaped_field e.password)))))))

-- No carriage return in a field.
abbrev pub IsFreeOfReturns : PgpassEntry → Type 0
IsFreeOfReturns e =
    IsFree b'\r' e.host
    × IsFree b'\r' e.port
    × IsFree b'\r' e.database
    × IsFree b'\r' e.user
    × IsFree b'\r' e.password

read_fields-plain :
    (count : ℕ) (fields : List Text) (current s : Text) (c : ℕ)
    → (c == b':' || c == b'\\') ≡ false
    → read_fields false count fields current (c ∷ s)
      ≡ read_fields false count fields (current ++ c ∷ []) s
unfolding read_fields
read_fields-plain count fields current s c h = ground arith

read_fields-escaped :
    (count : ℕ) (fields : List Text) (current value s : Text)
    → read_fields false count fields current (escaped_field value ++ s)
      ≡ read_fields false count fields (current ++ value) s
unfolding read_fields
read_fields-escaped count fields current [] s = rw (append-nil current) refl
read_fields-escaped count fields current (c ∷ value) s =
    let rest = read_fields-escaped count fields (current ++ c ∷ []) value s in
    let assoc = append_assoc current (c ∷ []) value in
    let text = escaped_field value ++ s in
    elim (Bool-cases (c == b':' || c == b'\\')) [
      | inl special ↦ rw special (cc (rest, assoc))
      | inr plain ↦ rw plain (cc (rest, assoc, read_fields-plain count fields current text c plain))
    ]

read_fields-colon :
    (count : ℕ) (fields : List Text) (current s : Text)
    → count < 4
    → read_fields false count fields current (b':' ∷ s)
      ≡ read_fields false (count + 1) (fields ++ current ∷ []) [] s
unfolding read_fields
read_fields-colon count fields current s h = rw (lt→ltb count 4 h, read_fields) refl

read_field-next :
    (count : ℕ) (fields : List Text) (value s : Text)
    → count < 4
    → read_fields false count fields [] (escaped_field value ++ (b':' ∷ s))
      ≡ read_fields false (count + 1) (fields ++ value ∷ []) [] s
read_field-next count fields value s h =
    cc (
      read_fields-escaped count fields [] value (b':' ∷ s),
      read_fields-colon count fields value s h,
    )

read_fields-last :
    (count : ℕ) (fields : List Text) (value : Text)
    → read_fields false count fields [] (escaped_field value) ≡ fields ++ value ∷ []
unfolding read_fields
read_fields-last count fields value =
    cc (append-nil (escaped_field value), read_fields-escaped count fields [] value [])

trim_returns-IsFree : (s : Text) → IsFree b'\r' s → trim_returns s ≡ s
unfolding trim_returns
trim_returns-IsFree [] h = refl
trim_returns-IsFree (c ∷ s) h = rw (trim_returns-IsFree s h.1, h.0) refl

escaped_field-IsFree : (s : Text) → IsFree b'\r' s → IsFree b'\r' (escaped_field s)
escaped_field-IsFree [] h = tt
escaped_field-IsFree (c ∷ s) h = elim (Bool-cases (c == b':' || c == b'\\')) [
  | inl special ↦ rw special (refl, (h.0, escaped_field-IsFree s h.1))
  | inr plain ↦ rw plain (h.0, escaped_field-IsFree s h.1)
]

printed_line-IsFree : (e : PgpassEntry) → IsFreeOfReturns e → IsFree b'\r' (printed_line e)
printed_line-IsFree e (host, port, database, user, password) = joined e.host _ host (
    joined e.port _ port (
      joined e.database _ database
        (joined e.user _ user (escaped_field-IsFree e.password password))))
  where
    joined :
        (s t : Text)
        → IsFree b'\r' s
        → IsFree b'\r' t
        → IsFree b'\r' (escaped_field s ++ (b':' ∷ t))
    joined s t hs ht =
        All-append _ (escaped_field s) (b':' ∷ t) (escaped_field-IsFree s hs) (refl, ht)

-- A line in which every colon and backslash of the five fields is escaped is read as exactly these
-- fields, as long as none holds a carriage return.
pub parse_line-printed_line :
    (e : PgpassEntry) → IsFreeOfReturns e → parse_line (printed_line e) ≡ some e
unfolding parse_line
parse_line-printed_line e h = rw (trim_returns-IsFree (printed_line e) (printed_line-IsFree e h)) (
    rw
      (
        read_field-next 0 [] e.host _ (omega arith),
        read_field-next 1 (e.host ∷ []) e.port _ (omega arith),
        read_field-next 2 (e.host ∷ e.port ∷ []) e.database _ (omega arith),
        read_field-next 3 (e.host ∷ e.port ∷ e.database ∷ []) e.user _ (omega arith),
        read_fields-last 4 (e.host ∷ e.port ∷ e.database ∷ e.user ∷ []) e.password,
      )
      refl)
