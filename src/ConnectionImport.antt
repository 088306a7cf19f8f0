-- ===== src/ConnectionImport.antt =====
-- The password file of draco-core/src/connection_import.rs: `parse_pgpass`, `pgpass_password` and
-- `pgpass_connections`, with `parse_port`, `ssl_from_mode` and `default_label`. Url and Services
-- hold the rest of that file: `parse_connection_url` and the service file.
pub mod Lines
pub mod Targets
pub mod Url
pub mod Services
pub mod Encoded
pub mod Separated
pub mod Printed
use mathlib.Core.Option.{map as map_option}
use draco.Base.{
  ltb, ◌==◌, if◌then◌else◌, is_empty, any, find, ℕ, ◌+◌, ◌-◌, ◌*◌, ◌^◌, Bool, true, false, ◌&&◌,
  ◌||◌, Option, none, some, List, [], ◌∷◌, ◌++◌,
}
use draco.Text.{Text, codes, text_eq, is_ascii_digit, trim_start, trim, starts_with}
use draco.Text.Decimal.{decimal}

pub record PgpassEntry : Type 0 where
  pub host : Text
  pub port : Text
  pub database : Text
  pub user : Text
  pub password : Text

pub record ImportedConnection : Type 0 where
  pub label : Text
  pub host : Text
  pub port : ℕ
  pub database : Text
  pub user : Text
  pub ssl : Bool
  pub ssl_verification_downgraded : Bool
  pub password : Option Text
  pub ignored_parameters : List Text

-- `str::parse::<u16>`: decimal digits, at least one, with an optional plus sign, below 2 ^ 16.
unfoldable pub digits_value : ℕ → Text → Option ℕ
digits_value acc [] = some acc
digits_value acc (c ∷ s) =
    let rest = digits_value (acc * 10 + (c - b'0')) s in if is_ascii_digit c then rest else none

abbrev pub strip_plus : Text → Text
strip_plus [] = []
strip_plus (c ∷ s) = if c == b'+' then s else c ∷ s

abbrev pub keep_if : (ℕ → Bool) → Option ℕ → Option ℕ
keep_if test none = none
keep_if test (some n) = if test n then some n else none

unfoldable pub parse_u16 : Text → Option ℕ
unfolding digits_value
parse_u16 value =
    let digits = strip_plus value in
    if is_empty digits then none else keep_if (λ n. ltb n (2 ^ 16)) (digits_value 0 digits)

unfoldable pub parse_port : Text → Option ℕ
parse_port value = keep_if (λ port. ltb 0 port) (parse_u16 value)

-- Whether TLS is on, and whether a certificate verification was asked for.
unfoldable pub ssl_from_mode : Text → Option (Bool × Bool)
ssl_from_mode mode =
    if text_eq mode (codes "disable")
      || text_eq mode (codes "allow")
      || text_eq mode (codes "prefer")
    then some (false, false)
    else if text_eq mode (codes "require")
    then some (true, false)
    else if text_eq mode (codes "verify-ca") || text_eq mode (codes "verify-full")
    then some (true, true)
    else none

unfoldable pub default_label : Text → Text → Text
default_label database host = if is_empty database then host else database ++ (b'@' ∷ host)

abbrev wildcard : Text
wildcard = b'*' ∷ []

abbrev field_matches : Text → Text → Bool
field_matches pattern_text value = text_eq pattern_text wildcard || text_eq pattern_text value

unfoldable pub matches : PgpassEntry → Text → ℕ → Text → Text → Bool
matches entry host port database user =
    field_matches entry.host host
    && field_matches entry.port (decimal port)
    && field_matches entry.database database
    && field_matches entry.user user

-- The loop over the characters of a line. `escaped` tells that a backslash stands before, and
-- `count` is the length of `fields`.
unfoldable pub read_fields : Bool → ℕ → List Text → Text → Text → List Text
read_fields escaped count fields current [] = fields ++ current ∷ []
read_fields true count fields current (c ∷ s) = read_fields false count fields (current ++ c ∷ []) s
read_fields false count fields current (c ∷ s) = elim (c == b'\\') [
  | true ↦ read_fields true count fields current s
  | false ↦ elim (c == b':' && ltb count 4) [
    | true ↦ read_fields false (count + 1) (fields ++ current ∷ []) [] s
    | false ↦ read_fields false count fields (current ++ c ∷ []) s
  ]
]

-- `try_into` an array of five.
abbrev five_fields : List Text → Option PgpassEntry
five_fields (host ∷ port ∷ database ∷ user ∷ password ∷ []) =
    some
      (record { host = host; port = port; database = database; user = user; password = password })
five_fields _ = none

-- `trim_end_matches('\r')`
unfoldable pub trim_returns : Text → Text
trim_returns [] = []
trim_returns (c ∷ s) =
    let rest = trim_returns s in if c == b'\r' && is_empty rest then [] else c ∷ rest

unfoldable pub is_comment : Text → Bool
is_comment line = is_empty (trim line) || starts_with (b'#' ∷ []) (trim_start line)

unfoldable pub parse_line : Text → Option PgpassEntry
unfolding read_fields trim_returns
parse_line line = five_fields (read_fields false 0 [] [] (trim_returns line))

-- `str::lines`. That it takes a carriage return off a line changes nothing here: `parse_line` takes
-- off all of them, and `trim` does.
unfoldable pub lines : Text → List Text
lines [] = []
lines (c ∷ s) = elim (c == b'\n') [ true ↦ [] ∷ lines s | false ↦ first_char c (lines s) ]
  where
    first_char : ℕ → List Text → List Text
    first_char c [] = (c ∷ []) ∷ []
    first_char c (line ∷ rest) = (c ∷ line) ∷ rest

unfoldable pub parse_lines : List Text → List PgpassEntry
unfolding is_comment parse_line
parse_lines [] = []
parse_lines (line ∷ rest) =
    let others = parse_lines rest in
    if is_comment line
    then others
    else elim (parse_line line) [ none ↦ others | some entry ↦ entry ∷ others ]

unfoldable pub parse_pgpass : Text → List PgpassEntry
unfolding lines parse_lines
parse_pgpass content = parse_lines (lines content)

abbrev password_of : Option PgpassEntry → Option Text
password_of none = none
password_of (some entry) = some entry.password

unfoldable pub pgpass_password : List PgpassEntry → Text → ℕ → Text → Text → Option Text
unfolding matches
pgpass_password entries host port database user =
    password_of (find (λ entry. matches entry host port database user) entries)

-- `DEFAULT_PORT`
abbrev pub default_port : ℕ
default_port = 5432

-- A wildcard host or user names no connection, and a socket path is not dialled.
unfoldable pub is_skipped : PgpassEntry → Bool
is_skipped entry =
    text_eq entry.host wildcard
    || text_eq entry.user wildcard
    || is_empty entry.host
    || starts_with (b'/' ∷ []) entry.host

unfoldable pub target_port : PgpassEntry → Option ℕ
target_port entry = if text_eq entry.port wildcard then some default_port else parse_port entry.port

unfoldable pub connection_at : PgpassEntry → ℕ → ImportedConnection
connection_at entry port =
    let database = if text_eq entry.database wildcard then codes "postgres" else entry.database in
    record {
      label = default_label database entry.host;
      host = entry.host;
      port = port;
      database = database;
      user = entry.user;
      ssl = false;
      ssl_verification_downgraded = false;
      password = if is_empty entry.password then none else some entry.password;
      ignored_parameters = [];
    }

-- The connection that one line names, if it names one.
unfoldable pub named_target : PgpassEntry → Option ImportedConnection
unfolding is_skipped target_port connection_at
named_target entry =
    if is_skipped entry then none else map_option (connection_at entry) (target_port entry)

unfoldable pub same_target : ImportedConnection → ImportedConnection → Bool
same_target c d =
    text_eq c.host d.host
    && c.port == d.port
    && text_eq c.database d.database
    && text_eq c.user d.user

-- The loop over the lines. `seen` holds the connections whose targets are in the set.
unfoldable pub connections_from :
    List ImportedConnection → List PgpassEntry → List ImportedConnection
unfolding named_target same_target
connections_from seen [] = []
connections_from seen (entry ∷ entries) = elim (named_target entry) [
  | none ↦ connections_from seen entries
  | some c ↦ elim (any (same_target c) seen) [
    | true ↦ connections_from seen entries
    | false ↦ c ∷ connections_from (c ∷ seen) entries
  ]
]

unfoldable pub pgpass_connections : List PgpassEntry → List ImportedConnection
unfolding connections_from
pgpass_connections entries = connections_from [] entries
