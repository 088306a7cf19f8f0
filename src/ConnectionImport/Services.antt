-- ===== src/ConnectionImport/Services.antt =====
-- The connection service file in draco-core/src/connection_import.rs: `parse_pg_service` and
-- `service_connections`.
use mathlib.Core.List.{reverse}
use draco.Base.{
  ◌==◌, if◌then◌else◌, unwrap_or, or_else, is_empty, retain, ℕ, Bool, false, not, ◌||◌, Option,
  none, some, List, [], ◌∷◌,
}
use draco.Text.{Text, codes, trim, contains, strip_prefix, starts_with, split_once}
use draco.Text.Assoc.{HashMap, get, insert}
use draco.Text.Sorted.{keys, sorted_set}
use draco.Import.{member}
use draco.ConnectionImport.{
  PgpassEntry, ImportedConnection, parse_port, ssl_from_mode, lines, pgpass_password, default_port,
}
use draco.ConnectionImport.Url.{default_host, not_blank, is_socket}

pub record ServiceEntry : Type 0 where
  pub name : Text
  pub parameters : HashMap Text

-- `strip_suffix` of one character.
unfoldable pub strip_last : ℕ → Text → Option Text
strip_last c [] = none
strip_last c (d ∷ []) = if d == c then some [] else none
strip_last c (d ∷ e ∷ s) = elim (strip_last c (e ∷ s)) [
  | some front ↦ some (d ∷ front)
  | none ↦ none
]

abbrev section_after : Option Text → Option Text
section_after none = none
section_after (some line) = strip_last b']' line

-- The name between brackets, if the line is a section's head.
unfoldable pub section_name : Text → Option Text
unfolding strip_last
section_name line = section_after (strip_prefix (b'[' ∷ []) line)

abbrev set_parameter : Option (Text × Text) → ServiceEntry → ServiceEntry
set_parameter none service = service
set_parameter (some (key, value)) service = record service {
  parameters = insert (trim key) (trim value) service.parameters;
}

-- A setting goes to the last service, and is skipped where there is none. The services are kept
-- with the last one in front.
unfoldable pub to_last : Text → List ServiceEntry → List ServiceEntry
to_last line [] = []
to_last line (service ∷ services) = set_parameter (split_once b'=' line) service ∷ services

unfoldable pub service_line : List ServiceEntry → Text → List ServiceEntry
unfolding section_name to_last
service_line services raw =
    let line = trim raw in
    if is_empty line || starts_with (b'#' ∷ []) line || starts_with (b';' ∷ []) line
    then services
    else elim (section_name line) [
      | some name ↦ record { name = trim name; parameters = [] } ∷ services
      | none ↦ to_last line services
    ]

unfoldable pub service_lines : List ServiceEntry → List Text → List ServiceEntry
unfolding service_line
service_lines services [] = services
service_lines services (line ∷ rest) = service_lines (service_line services line) rest

unfoldable pub parse_pg_service : Text → List ServiceEntry
unfolding service_lines
parse_pg_service content =
    retain (λ (s : ServiceEntry). not (is_empty s.name))
      (reverse (service_lines [] (lines content)))

-- A parameter that is not empty.
unfoldable pub parameter : ServiceEntry → Text → Option Text
parameter service key = not_blank (get key service.parameters)

abbrev known_keys : List Text
known_keys =
    codes "host"
    ∷ codes "hostaddr"
    ∷ codes "port"
    ∷ codes "user"
    ∷ codes "dbname"
    ∷ codes "sslmode"
    ∷ codes "password"
    ∷ []

abbrev port_or_default : Option Text → Option ℕ
port_or_default none = some default_port
port_or_default (some raw) = parse_port raw

abbrev mode_or_off : Option Text → Option (Bool × Bool)
mode_or_off none = some (false, false)
mode_or_off (some mode) = ssl_from_mode mode

-- The first connection that is `none` ends the closure, as `?` does.
infixl 5 ◌>?=◌
abbrev ◌>?=◌ : {A B : Type 0} → Option A → (A → Option B) → Option B
none >?= rest = none
some a >?= rest = rest a

-- The body of `service_connections` for one service.
unfoldable pub service_connection :
    List PgpassEntry → Option Text → ServiceEntry → Option ImportedConnection
unfolding parameter
service_connection pgpass default_user service =
    let host =
      unwrap_or (or_else (parameter service (codes "host")) (parameter service (codes "hostaddr")))
        default_host in
    if contains b',' host || is_socket host
    then none
    else port_or_default (parameter service (codes "port")) >?= λ number.
        or_else (parameter service (codes "user")) default_user >?= λ user.
        mode_or_off (parameter service (codes "sslmode")) >?= λ mode.
        let database = unwrap_or (parameter service (codes "dbname")) user in
        some (record {
          label = service.name;
          host = host;
          port = number;
          database = database;
          user = user;
          ssl = mode.0;
          ssl_verification_downgraded = mode.1;
          password = not_blank (
              or_else (parameter service (codes "password"))
                (pgpass_password pgpass host number database user));
          ignored_parameters =
              sorted_set (retain (λ key. not (member key known_keys)) (keys service.parameters));
        })

abbrev kept_connection :
    Option ImportedConnection → List ImportedConnection → List ImportedConnection
kept_connection none others = others
kept_connection (some c) others = c ∷ others

unfoldable pub service_connections :
    List ServiceEntry → List PgpassEntry → Option Text → List ImportedConnection
unfolding service_connection
service_connections [] pgpass default_user = []
service_connections (service ∷ services) pgpass default_user =
    kept_connection (service_connection pgpass default_user service)
      (service_connections services pgpass default_user)
