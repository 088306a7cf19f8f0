-- ===== src/Tests/Urls.antt =====
-- A connection URL whose names hold separators.
use draco.Base.{ok, ◌≡◌, refl, true, false, some, [], ◌∷◌}
use draco.Text.{
  codes, text_eq, is_whitespace, is_ascii_digit, is_ascii_lowercase, to_ascii_lowercase, trim,
  contains, strip_prefix, starts_with, split_once, split, rsplit_once, str_bytes,
}
use draco.ConnectionImport.{parse_u16, parse_port, ssl_from_mode, default_label}
use draco.Text.Sorted.{text_lt, insert_sorted, sorted_set}
use draco.Text.Utf8.{from_utf8}
use draco.ConnectionImport.Url.{
  strip_prefix_ignore_case, percent_decode, split_host_port, url_parameter, url_query, cut,
  userinfo_of, credentials, connection_of, url_connection, after_scheme, parse_connection_url,
}
use draco.ConnectionImport.Printed.{
  printed_url, printed_connection, IsPrintable, parse_connection_url-printed_url,
}

some_parts :
    IsPrintable (codes "ana@x") (codes "p:/é") (codes "db.test") (codes "6543") (codes "shop") 6543
unfolding contains is_ascii_digit parse_port parse_u16 starts_with
some_parts = record {
  user_scalar = refl;
  password_scalar = refl;
  host_scalar = refl;
  database_scalar = refl;
  user_zero = refl;
  password_zero = refl;
  host_zero = refl;
  database_zero = refl;
  host_given = refl;
  host_network = refl;
  database_given = refl;
  password_given = refl;
  digits = refl;
  number = refl;
}

parse_connection_url-printed_url_example :
    parse_connection_url
      (printed_url (codes "ana@x") (codes "p:/é") (codes "db.test") (codes "6543") (codes "shop"))
    ≡ ok (printed_connection (codes "ana@x") (codes "p:/é") (codes "db.test") 6543 (codes "shop"))
parse_connection_url-printed_url_example =
    parse_connection_url-printed_url (codes "ana@x") (codes "p:/é") (codes "db.test") (codes "6543")
      (codes "shop") 6543 some_parts

sample_url :
    parse_connection_url
      (codes "postgres://ana%40x:s%3acret@[::1]:6543/shop?sslmode=require&b=1&a=2&b=3")
    ≡ ok (record {
      label = codes "shop@::1";
      host = codes "::1";
      port = 6543;
      database = codes "shop";
      user = codes "ana@x";
      ssl = true;
      ssl_verification_downgraded = false;
      password = some (codes "s:cret");
      ignored_parameters = codes "a" ∷ codes "b" ∷ [];
    })
unfolding parse_connection_url after_scheme url_connection strip_prefix_ignore_case credentials cut
    userinfo_of split_host_port url_query connection_of trim is_whitespace percent_decode str_bytes
    from_utf8 contains split_once rsplit_once split strip_prefix starts_with url_parameter text_eq
    parse_port parse_u16 is_ascii_digit ssl_from_mode default_label sorted_set insert_sorted text_lt
    to_ascii_lowercase is_ascii_lowercase
sample_url = refl

-- A sign is taken for a hexadecimal digit.
plus_decoded : percent_decode (codes "%+f") ≡ ok (15 ∷ [])
unfolding percent_decode str_bytes from_utf8 contains
plus_decoded = refl
