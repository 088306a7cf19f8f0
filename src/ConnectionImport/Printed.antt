-- ===== src/ConnectionImport/Printed.antt =====
-- A connection written as a URL and read again.
use draco.Base.{◌==◌, is_empty, all, ok, ℕ, ◌≡◌, refl, ap, ◌∙◌, true, false, some, [], ◌∷◌, ◌++◌}
use draco.Text.{Text, codes, is_whitespace, is_ascii_digit, trim, contains, split}
use draco.Text.Sorted.{sorted_set}
use draco.Text.Utf8.{is_scalar}
use draco.ConnectionImport.{ImportedConnection, parse_port, default_label}
use draco.ConnectionImport.Url.{
  plain_host, host_by_bracket, split_host_port, url_query, user_host, userinfo_of, credentials,
  is_socket, connection_of, url_connection, parse_connection_url,
}
use draco.ConnectionImport.Encoded.{
  percent_encode, is_safe, percent_encode-is_safe, percent_decode-percent_encode,
}
use draco.ConnectionImport.Separated.{
  cut-first, cut-absent, rsplit_once-last, contains-append, contains-safe, visible, trim-visible,
  visible-append, safe-visible, digits-safe, unsafe_colon, unsafe_query, unsafe_slash, unsafe_at,
  unsafe_comma, both_free, contains-cons, strip_bracket, percent_encode-given, digits-given,
  scheme-visible, after_scheme-prefix,
}

-- The URL of a user, a password, a host, a port and a database.
unfoldable pub printed_url : Text → Text → Text → Text → Text → Text
printed_url user password host port_text database =
    let userinfo = percent_encode user ++ (b':' ∷ percent_encode password) in
    let hostinfo = percent_encode host ++ (b':' ∷ port_text) in
    codes "postgresql://" ++ ((userinfo ++ (b'@' ∷ hostinfo)) ++ (b'/' ∷ percent_encode database))

-- The connection that the URL stands for.
abbrev pub printed_connection : Text → Text → Text → ℕ → Text → ImportedConnection
printed_connection user password host port database = record {
  label = database ++ (b'@' ∷ host);
  host = host;
  port = port;
  database = database;
  user = user;
  ssl = false;
  ssl_verification_downgraded = false;
  password = some password;
  ignored_parameters = [];
}

-- What a printed URL is made of: a host that is not empty, texts that a URL can carry, and digits.
pub record IsPrintable (user password host port_text database : Text) (port : ℕ) : Type 0 where
  pub user_scalar : all is_scalar user ≡ true
  pub password_scalar : all is_scalar password ≡ true
  pub host_scalar : all is_scalar host ≡ true
  pub database_scalar : all is_scalar database ≡ true
  pub user_zero : contains 0 user ≡ false
  pub password_zero : contains 0 password ≡ false
  pub host_zero : contains 0 host ≡ false
  pub database_zero : contains 0 database ≡ false
  pub host_given : is_empty host ≡ false
  pub host_network : is_socket host ≡ false
  pub database_given : is_empty database ≡ false
  pub password_given : is_empty password ≡ false
  pub digits : all is_ascii_digit port_text ≡ true
  pub number : parse_port port_text ≡ some port

module _ (user password host port_text database : Text) (port : ℕ)
    (p : IsPrintable user password host port_text database port) where
  abbrev hostinfo : Text
  hostinfo = percent_encode host ++ (b':' ∷ port_text)

  abbrev userinfo : Text
  userinfo = percent_encode user ++ (b':' ∷ percent_encode password)

  abbrev authority : Text
  authority = userinfo ++ (b'@' ∷ hostinfo)

  host_safe : all is_safe (percent_encode host) ≡ true
  host_safe = percent_encode-is_safe host p.host_scalar

  port_safe : all is_safe port_text ≡ true
  port_safe = digits-safe port_text p.digits

  split_host_port-printed :
      split_host_port (percent_encode host ++ (b':' ∷ port_text)) ≡ ok (host, some port)
  unfolding split_host_port
  split_host_port-printed =
      ap (host_by_bracket hostinfo) (
        strip_bracket (percent_encode host) (b':' ∷ port_text) host_safe
          (percent_encode-given host p.host_given))
      ∙ ap (plain_host hostinfo) (
          rsplit_once-last b':' (percent_encode host) port_text
            (contains-safe b':' port_text unsafe_colon port_safe))
      ∙ rw
          (
            digits-given port_text port p.number,
            p.number,
            percent_decode-percent_encode host p.host_scalar p.host_zero,
          )
          refl

  credentials-printed :
      credentials (some (percent_encode user ++ (b':' ∷ percent_encode password)))
      ≡ ok (user, some password)
  unfolding credentials
  credentials-printed =
      rw
        (
          cut-first b':' (percent_encode user) (percent_encode password) (
              contains-safe b':' (percent_encode user) unsafe_colon
                (percent_encode-is_safe user p.user_scalar)),
          percent_decode-percent_encode user p.user_scalar p.user_zero,
          percent_decode-percent_encode password p.password_scalar p.password_zero,
        )
        refl

  -- A character that is neither safe nor a colon is in no part.
  hostinfo-free : (c : ℕ) → is_safe c ≡ false → (b':' == c) ≡ false → contains c hostinfo ≡ false
  hostinfo-free c unsafe colon =
      contains-append c (percent_encode host) (b':' ∷ port_text)
      ∙ both_free _ _ (contains-safe c (percent_encode host) unsafe host_safe)
          (contains-cons c b':' port_text colon (contains-safe c port_text unsafe port_safe))

  userinfo-free : (c : ℕ) → is_safe c ≡ false → (b':' == c) ≡ false → contains c userinfo ≡ false
  userinfo-free c unsafe colon =
      contains-append c (percent_encode user) (b':' ∷ percent_encode password)
      ∙ both_free _ _
          (contains-safe c (percent_encode user) unsafe (percent_encode-is_safe user p.user_scalar))
          (contains-cons c b':' (percent_encode password) colon (
            contains-safe c (percent_encode password) unsafe
              (percent_encode-is_safe password p.password_scalar)))

  authority-free :
      (c : ℕ)
      → is_safe c ≡ false
      → (b':' == c) ≡ false
      → (b'@' == c) ≡ false
      → contains c authority ≡ false
  authority-free c unsafe colon at =
      contains-append c userinfo (b'@' ∷ hostinfo)
      ∙ both_free _ _ (userinfo-free c unsafe colon)
          (contains-cons c b'@' hostinfo at (hostinfo-free c unsafe colon))

  abbrev rest : Text
  rest = authority ++ (b'/' ∷ percent_encode database)

  rest-no_query : contains b'?' rest ≡ false
  rest-no_query =
      contains-append b'?' authority (b'/' ∷ percent_encode database)
      ∙ both_free _ _ (authority-free b'?' unsafe_query refl refl) (
          contains-cons b'?' b'/' (percent_encode database) refl (
            contains-safe b'?' (percent_encode database) unsafe_query
              (percent_encode-is_safe database p.database_scalar)))

  rest-visible : all visible rest ≡ true
  unfolding is_whitespace
  rest-visible =
      let shown = λ (s : Text) (scalar : all is_scalar s ≡ true).
        safe-visible (percent_encode s) (percent_encode-is_safe s scalar) in
      visible-append authority (b'/' ∷ percent_encode database)
        (visible-append userinfo (b'@' ∷ hostinfo)
          (visible-append (percent_encode user) (b':' ∷ percent_encode password)
            (shown user p.user_scalar) (shown password p.password_scalar))
          (visible-append (percent_encode host) (b':' ∷ port_text) (shown host p.host_scalar)
            (safe-visible port_text port_safe)))
        (shown database p.database_scalar)

  abbrev connection : ImportedConnection
  connection = printed_connection user password host port database

  connection_of-printed :
      connection_of (record {
        host = host;
        port = some port;
        database = database;
        user = user;
        password = some password;
        ssl = false;
        ssl_verification_downgraded = false;
        ignored_parameters = [];
      })
      ≡ ok connection
  unfolding connection_of default_label sorted_set
  connection_of-printed =
      rw (p.host_given, p.database_given, p.password_given, p.host_network, p.database_given) refl

  userinfo_of-authority : userinfo_of authority ≡ (some userinfo, hostinfo)
  unfolding userinfo_of
  userinfo_of-authority =
      ap (user_host authority)
        (rsplit_once-last b'@' userinfo hostinfo (hostinfo-free b'@' unsafe_at refl))

  url_connection-printed : url_connection rest ≡ ok connection
  unfolding url_connection url_query split
  url_connection-printed =
      rw
        (
          cut-absent b'?' rest rest-no_query,
          cut-first b'/' authority (percent_encode database)
              (authority-free b'/' unsafe_slash refl refl),
          userinfo_of-authority,
          credentials-printed,
          hostinfo-free b',' unsafe_comma refl,
          split_host_port-printed,
          percent_decode-percent_encode database p.database_scalar p.database_zero,
        )
        connection_of-printed

  url-visible :
      trim (printed_url user password host port_text database) ≡ codes "postgresql://" ++ rest
  unfolding printed_url
  url-visible =
      trim-visible (codes "postgresql://" ++ rest)
        (visible-append (codes "postgresql://") rest scheme-visible rest-visible)

  -- A URL of a user, a password, a host, a port and a database, each of them not empty, in percent
  -- encoding, is read as the connection that it was written for, whatever characters the names and
  -- the password hold: the host is no socket and the port's digits are read as the port.
  pub parse_connection_url-printed_url :
      parse_connection_url (printed_url user password host port_text database)
      ≡ ok (printed_connection user password host port database)
  unfolding parse_connection_url
  parse_connection_url-printed_url =
      rw (url-visible, after_scheme-prefix rest) url_connection-printed
