-- ===== src/Tests/Passwords.antt =====
-- A line of a password file with a colon in the password.
use draco.Base.{All, ◌≡◌, refl, some, [], ◌∷◌}
use draco.Text.{codes}
use draco.ConnectionImport.{PgpassEntry, parse_line, pgpass_connections}
use draco.ConnectionImport.Lines.{printed_line, IsFreeOfReturns, parse_line-printed_line}
use draco.ConnectionImport.Targets.{IsDialable, AreApart, pgpass_connections_sound}

abbrev a_line : PgpassEntry
a_line = record {
  host = codes "db";
  port = codes "*";
  database = codes "*";
  user = codes "me";
  password = codes "a:b";
}

a_line-free : IsFreeOfReturns a_line
a_line-free =
    ((refl, (refl, tt)), (refl, tt), (refl, tt), (refl, (refl, tt)), (refl, (refl, (refl, tt))))

parse_line-printed_line_example : parse_line (printed_line a_line) ≡ some a_line
parse_line-printed_line_example = parse_line-printed_line a_line a_line-free

pgpass_connections_sound_example :
    All IsDialable (pgpass_connections (a_line ∷ a_line ∷ []))
    × AreApart (pgpass_connections (a_line ∷ a_line ∷ []))
pgpass_connections_sound_example = pgpass_connections_sound (a_line ∷ a_line ∷ [])
