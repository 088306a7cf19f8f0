-- ===== src/ConnectionImport/Url.antt =====
-- Connection URLs in draco-core/src/connection_import.rs: `parse_connection_url` with
-- `percent_decode` and `split_host_port`.
use mathlib.Core.Option.{map as map_option}
use draco.Base.{
  leb, ◌==◌, if◌then◌else◌, unwrap_or, or_else, is_empty, Result, err, ok, ◌>>=◌, ◌>>◌, ok_or,
  reject_if, ℕ, ◌+◌, ◌-◌, ◌*◌, Bool, false, not, ◌&&◌, ◌||◌, Option, none, some, List, [], ◌∷◌,
  ◌++◌,
}
use draco.Text.{
  Text, codes, text_eq, is_ascii_digit, is_ascii_lowercase, to_ascii_lowercase, trim, contains,
  strip_prefix, starts_with, split_once, split, rsplit_once, str_bytes,
}
use draco.Text.Sorted.{sorted_set}
use draco.Text.Utf8.{from_utf8}
use draco.ConnectionImport.{
  ImportedConnection, parse_port, ssl_from_mode, default_label, default_port,
}

pub data UrlError : Type 0 where
  scheme : UrlError
  encoding : UrlError
  multiple_hosts : UrlError
  unix_socket : UrlError
  port : UrlError
  ssl_mode : UrlError
  malformed : UrlError

abbrev pub default_host : Text
default_host = codes "localhost"

-- The prefix is ASCII, so that bytes and characters agree.
unfoldable pub strip_prefix_ignore_case : Text → Text → Option Text
strip_prefix_ignore_case s [] = some s
strip_prefix_ignore_case [] (c ∷ prefix) = none
strip_prefix_ignore_case (d ∷ s) (c ∷ prefix) =
    let rest = strip_prefix_ignore_case s prefix in
    if to_ascii_lowercase d == to_ascii_lowercase c then rest else none

abbrev pub hex_digit : ℕ → Option ℕ
hex_digit c =
    if is_ascii_digit c
    then some (c - b'0')
    else if is_ascii_lowercase (to_ascii_lowercase c) && leb (to_ascii_lowercase c) b'f'
    then some (to_ascii_lowercase c - 87)
    else none

abbrev pub hex_sum : Option ℕ → Option ℕ → Option ℕ
hex_sum (some high) (some low) = some (high * 16 + low)
hex_sum _ _ = none

-- `u8::from_str_radix` on two bytes, which takes a plus sign in front of a digit.
unfoldable pub hex_value : ℕ → ℕ → Option ℕ
unfolding is_ascii_digit is_ascii_lowercase to_ascii_lowercase
hex_value high low =
    if high == b'+' then hex_digit low else hex_sum (hex_digit high) (hex_digit low)

abbrev pub decoded_pair : Option ℕ → Option (List ℕ) → Option (List ℕ)
decoded_pair none rest = none
decoded_pair (some b) rest = map_option (λ bytes. b ∷ bytes) rest

-- The loop over the bytes.
unfoldable pub decode_bytes : List ℕ → Option (List ℕ)
decode_bytes [] = some []
decode_bytes (b ∷ []) = if b == b'%' then none else some (b ∷ [])
decode_bytes (b ∷ high ∷ []) =
    let rest = decode_bytes (high ∷ []) in
    if b == b'%' then none else map_option (λ bytes. b ∷ bytes) rest
decode_bytes (b ∷ high ∷ low ∷ s) =
    let pair = decoded_pair (hex_value high low) (decode_bytes s) in
    let rest = decode_bytes (high ∷ low ∷ s) in
    if b == b'%' then pair else map_option (λ bytes. b ∷ bytes) rest

abbrev pub no_nul : Option Text → Result UrlError Text
no_nul none = err encoding
no_nul (some s) = if contains 0 s then err encoding else ok s

abbrev pub utf8_text : Option (List ℕ) → Result UrlError Text
utf8_text none = err encoding
utf8_text (some bytes) = no_nul (from_utf8 bytes)

unfoldable pub percent_decode : Text → Result UrlError Text
unfolding decode_bytes hex_value
percent_decode value = utf8_text (decode_bytes (str_bytes value))

abbrev some_port : Option ℕ → Result UrlError (Option ℕ)
some_port none = err port
some_port (some n) = ok (some n)

-- `[host]` with an optional `:port` behind.
abbrev port_after : Text → Result UrlError (Option ℕ)
port_after [] = ok none
port_after (c ∷ after) = if c == b':' then some_port (parse_port after) else err malformed

abbrev bracketed_host : Option (Text × Text) → Result UrlError (Text × Option ℕ)
bracketed_host none = err malformed
bracketed_host (some (host, after)) = do
  number ← port_after after
  reject_if (is_empty host || not (contains b':' host)) malformed
  decoded ← percent_decode host
  ok (decoded, number)

abbrev pub plain_host : Text → Option (Text × Text) → Result UrlError (Text × Option ℕ)
plain_host hostinfo none = do decoded ← percent_decode hostinfo; ok (decoded, none)
plain_host hostinfo (some (host, raw_port)) = do
  number ← (if is_empty raw_port then ok none else some_port (parse_port raw_port))
  decoded ← percent_decode host
  ok (decoded, number)

abbrev pub host_by_bracket : Text → Option Text → Result UrlError (Text × Option ℕ)
host_by_bracket hostinfo none = plain_host hostinfo (rsplit_once b':' hostinfo)
host_by_bracket hostinfo (some bracketed) = bracketed_host (split_once b']' bracketed)

unfoldable pub split_host_port : Text → Result UrlError (Text × Option ℕ)
split_host_port hostinfo = host_by_bracket hostinfo (strip_prefix (b'[' ∷ []) hostinfo)

-- The variables of the loop over the query.
pub record UrlParts : Type 0 where
  pub host : Text
  pub port : Option ℕ
  pub database : Text
  pub user : Text
  pub password : Option Text
  pub ssl : Bool
  pub ssl_verification_downgraded : Bool
  pub ignored_parameters : List Text

abbrev moded : UrlParts → Option (Bool × Bool) → Result UrlError UrlParts
moded parts none = err ssl_mode
moded parts (some (ssl, downgraded)) =
    ok (record parts { ssl = ssl; ssl_verification_downgraded = downgraded })

abbrev ported : UrlParts → Option ℕ → Result UrlError UrlParts
ported parts none = err port
ported parts (some n) = ok (record parts { port = some n })

unfoldable pub url_parameter : Text → Text → UrlParts → Result UrlError UrlParts
url_parameter key value parts =
    if text_eq key (codes "host") || text_eq key (codes "hostaddr")
    then if contains b',' value
      then err multiple_hosts
      else if text_eq key (codes "host") || is_empty parts.host
      then ok (record parts { host = value })
      else ok parts
    else if text_eq key (codes "port")
    then ported parts (parse_port value)
    else if text_eq key (codes "dbname")
    then ok (record parts { database = value })
    else if text_eq key (codes "user")
    then ok (record parts { user = value })
    else if text_eq key (codes "password")
    then ok (record parts { password = some value })
    else if text_eq key (codes "sslmode")
    then moded parts (ssl_from_mode value)
    else ok (record parts { ignored_parameters = parts.ignored_parameters ++ key ∷ [] })

abbrev url_pair : Option (Text × Text) → UrlParts → Result UrlError UrlParts
url_pair none parts = err malformed
url_pair (some (raw_key, raw_value)) parts = do
  key ← percent_decode raw_key
  value ← percent_decode raw_value
  url_parameter key value parts

unfoldable pub url_query : List Text → UrlParts → Result UrlError UrlParts
unfolding url_parameter
url_query [] parts = ok parts
url_query (pair ∷ pairs) parts = do
  parts' ← (if is_empty pair then ok parts else url_pair (split_once b'=' pair) parts)
  url_query pairs parts'

-- A text in front of a separator, and what stands behind it if there is one.
abbrev pub cut_at : Text → Option (Text × Text) → Text × Option Text
cut_at s none = (s, none)
cut_at s (some (before, after)) = (before, some after)

unfoldable pub cut : ℕ → Text → Text × Option Text
cut separator s = cut_at s (split_once separator s)

-- The user part, if there is one, and the host part.
abbrev pub user_host : Text → Option (Text × Text) → Option Text × Text
user_host authority none = (none, authority)
user_host authority (some (userinfo, hostinfo)) = (some userinfo, hostinfo)

unfoldable pub userinfo_of : Text → Option Text × Text
userinfo_of authority = user_host authority (rsplit_once b'@' authority)

-- `map(percent_decode).transpose()?`
abbrev decode_some : Option Text → Result UrlError (Option Text)
decode_some none = ok none
decode_some (some raw) = do decoded ← percent_decode raw; ok (some decoded)

unfoldable pub credentials : Option Text → Result UrlError (Text × Option Text)
credentials none = ok ([], none)
credentials (some userinfo) = do
  let (raw_user, raw_password) = cut b':' userinfo
  user ← percent_decode raw_user
  password ← decode_some raw_password
  ok (user, password)

abbrev pub not_blank : Option Text → Option Text
not_blank none = none
not_blank (some s) = if is_empty s then none else some s

abbrev pub is_socket : Text → Bool
is_socket host = starts_with (b'/' ∷ []) host || starts_with (b'@' ∷ []) host

-- The end of the function: the defaults, the label and the connection.
unfoldable pub connection_of : UrlParts → Result UrlError ImportedConnection
connection_of parts =
    let host = if is_empty parts.host then default_host else parts.host in
    let database = if is_empty parts.database then parts.user else parts.database in
    if is_socket parts.host
    then err unix_socket
    else ok (record {
      label = default_label database host;
      host = host;
      port = unwrap_or parts.port default_port;
      database = database;
      user = parts.user;
      ssl = parts.ssl;
      ssl_verification_downgraded = parts.ssl_verification_downgraded;
      password = not_blank parts.password;
      ignored_parameters = sorted_set parts.ignored_parameters;
    })

-- What stands behind the scheme.
unfoldable pub url_connection : Text → Result UrlError ImportedConnection
url_connection rest = do
  let (before_query, query) = cut b'?' rest
  let (authority, path) = cut b'/' before_query
  let (userinfo, hostinfo) = userinfo_of authority
  (user, password) ← credentials userinfo
  reject_if (contains b',' hostinfo) multiple_hosts
  (host, number) ← split_host_port hostinfo
  database ← decode_some path
  parts ← url_query (split b'&' (unwrap_or query [])) (record {
    host = host;
    port = number;
    database = unwrap_or database [];
    user = user;
    password = password;
    ssl = false;
    ssl_verification_downgraded = false;
    ignored_parameters = [];
  })
  connection_of parts

unfoldable pub after_scheme : Text → Result UrlError Text
after_scheme url =
    ok_or
      (or_else (strip_prefix_ignore_case url (codes "postgresql://"))
        (strip_prefix_ignore_case url (codes "postgres://")))
      scheme

unfoldable pub parse_connection_url : Text → Result UrlError ImportedConnection
parse_connection_url url = do rest ← after_scheme (trim url); url_connection rest
