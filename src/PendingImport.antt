-- ===== src/PendingImport.antt =====
-- draco-app/src/connection_import.rs: the preview of connection files, which is kept until the
-- import, and the import of the selected candidates. Reading a file, the connection test and saving
-- a connection with its password are arguments; a call is modelled without others beside it.
pub mod Once
use draco.Base.{
  ltb, ◌==◌, if◌then◌else◌, is_some, unwrap_or, length, get_elem?, is_empty, any, Result, err, ok,
  ◌>>=◌, ◌>>◌, ok_or, reject_if, ℕ, zero, suc, ◌+◌, ◌-◌, ◌*◌, ◌^◌, Bool, true, false, ◌&&◌, Option,
  none, some, List, [], ◌∷◌, ◌++◌, map,
}
use draco.Text.{Text, text_eq, to_ascii_lowercase}
use draco.Text.Decimal.{decimal}
use draco.Error.{Validation, validation, ApplicationError, invalid_input}
use draco.Connection.{DbConnection, ConnectionInput, validate_input}
use draco.Import.{member}
use draco.ConnectionImport.{
  ImportedConnection, digits_value, strip_plus, keep_if, parse_pgpass, pgpass_connections,
}
use draco.ConnectionImport.Url.{
  UrlError, scheme, encoding, multiple_hosts, unix_socket, ssl_mode, malformed,
  parse_connection_url,
}
use draco.ConnectionImport.Services.{parse_pg_service, service_connections}

pub data ConnectionImportSource : Type 0 where
  pgpass : ConnectionImportSource
  service : ConnectionImportSource

pub data ConnectionImportStatus : Type 0 where
  saved : ConnectionImportStatus
  invalid : ConnectionImportStatus
  test_failed : ConnectionImportStatus
  save_failed : ConnectionImportStatus

pub record ConnectionImportResultView : Type 0 where
  pub key : Text
  pub label : Text
  pub status : ConnectionImportStatus
  pub connection_id : Option Text

abbrev pub Candidate : Type 0
Candidate = ConnectionImportSource × ImportedConnection

-- A slot is empty once its candidate is imported.
pub record PendingImport : Type 0 where
  pub created : ℕ
  pub candidates : List (Option Candidate)

pub record ConnectionImportSourceView : Type 0 where
  pub source : ConnectionImportSource
  pub found : Bool
  pub count : ℕ

pub record ConnectionImportCandidateView : Type 0 where
  pub key : Text
  pub source : ConnectionImportSource
  pub label : Text
  pub host : Text
  pub port : ℕ
  pub database : Text
  pub user : Text
  pub ssl : Bool
  pub ssl_verification_downgraded : Bool
  pub has_password : Bool
  pub already_saved : Bool

-- The messages of `url_validation`.
unfoldable pub url_validation : UrlError → Validation
url_validation scheme = validation "validation.connectionUrlScheme"
url_validation encoding = validation "validation.connectionUrlEncoding"
url_validation multiple_hosts = validation "validation.connectionUrlMultipleHosts"
url_validation unix_socket = validation "validation.connectionUrlUnixSocket"
url_validation UrlError.port = validation "validation.connectionUrlPort"
url_validation ssl_mode = validation "validation.connectionUrlSslMode"
url_validation malformed = validation "validation.connectionUrlMalformed"

abbrev url_answer : Result UrlError ImportedConnection → Result ApplicationError ImportedConnection
url_answer (ok connection) = ok connection
url_answer (err e) = err (invalid_input (url_validation e))

-- `Application::parse_connection_url`
unfoldable pub parse_url_view : Text → Result ApplicationError ImportedConnection
parse_url_view url = url_answer (parse_connection_url url)

abbrev parsed_or_none : {A : Type 0} → (Text → List A) → Option Text → List A
parsed_or_none parse none = []
parsed_or_none parse (some text) = parse text

abbrev from_source : ConnectionImportSource → List ImportedConnection → List Candidate
from_source source connections = map (λ c. (source, c)) connections

-- `preview_connection_imports`: what was found in the two files, and the candidates.
unfoldable pub standard_candidates :
    Option Text → Option Text → Option Text → List ConnectionImportSourceView × List Candidate
standard_candidates pgpass_text service_text os_user =
    let entries = parsed_or_none parse_pgpass pgpass_text in
    let services = parsed_or_none parse_pg_service service_text in
    let from_pgpass = pgpass_connections entries in
    let from_services = service_connections services entries os_user in
    (
      record { source = service; found = is_some service_text; count = length from_services }
          ∷ record { source = pgpass; found = is_some pgpass_text; count = length from_pgpass }
          ∷ [],
      from_source service from_services ++ from_source pgpass from_pgpass,
    )

abbrev file_connections :
    ConnectionImportSource → Text → Option Text → Option Text → List ImportedConnection
file_connections pgpass text pgpass_text os_user = pgpass_connections (parse_pgpass text)
file_connections service text pgpass_text os_user =
    service_connections (parse_pg_service text) (parsed_or_none parse_pgpass pgpass_text) os_user

-- `preview_connection_import_file`
unfoldable pub file_candidates :
    ConnectionImportSource
    → Option Text
    → Option Text
    → Option Text
    → Result ApplicationError (List ConnectionImportSourceView × List Candidate)
file_candidates source none pgpass_text os_user =
    err (invalid_input (validation "validation.connectionImportFileUnreadable"))
file_candidates source (some text) pgpass_text os_user =
    let connections = file_connections source text pgpass_text os_user in
    ok (
      record { source = source; found = true; count = length connections } ∷ [],
      from_source source connections,
    )

abbrev same_ignoring_case : Text → Text → Bool
same_ignoring_case s t = text_eq (map to_ascii_lowercase s) (map to_ascii_lowercase t)

unfoldable pub is_saved : List DbConnection → ImportedConnection → Bool
is_saved saved_ones c =
    any
      (λ s.
        same_ignoring_case s.host c.host
        && s.port == c.port
        && text_eq s.database c.database
        && text_eq s.user c.user)
      saved_ones

unfoldable pub candidate_views :
    List DbConnection → ℕ → List Candidate → List ConnectionImportCandidateView
unfolding is_saved
candidate_views saved_ones index [] = []
candidate_views saved_ones index ((source, connection) ∷ candidates) =
    record {
      key = decimal index;
      source = source;
      label = connection.label;
      host = connection.host;
      port = connection.port;
      database = connection.database;
      user = connection.user;
      ssl = connection.ssl;
      ssl_verification_downgraded = connection.ssl_verification_downgraded;
      has_password = is_some connection.password;
      already_saved = is_saved saved_ones connection;
    }
    ∷ candidate_views saved_ones (index + 1) candidates

-- `replace_pending_import`
unfoldable pub replace_pending_import :
    ℕ → List DbConnection → List Candidate → PendingImport × List ConnectionImportCandidateView
replace_pending_import now saved_ones candidates = (
  record { created = now; candidates = map (λ (c : Candidate). some c) candidates },
  candidate_views saved_ones 0 candidates,
)

unfoldable pub discard_connection_import : Option PendingImport → Option PendingImport
discard_connection_import pending = none

-- Ten minutes in milliseconds.
abbrev pub pending_import_ttl : ℕ
pending_import_ttl = 10 * 60 * 1000

abbrev pub import_expired : ApplicationError
import_expired = invalid_input (validation "validation.connectionImportExpired")

unfoldable pub import_input : ImportedConnection → ConnectionInput
import_input c = record {
  id = none;
  label = c.label;
  host = c.host;
  port = c.port;
  database = c.database;
  user = c.user;
  ssl = c.ssl;
  ssh_enabled = false;
  ssh_host = none;
  ssh_port = none;
  ssh_user = none;
  ssh_key_path = none;
  ssh_jump_host = none;
  ssh_jump_port = none;
  ssh_jump_user = none;
  ssh_jump_key_path = none;
  favorite = false;
  environment = none;
  read_only = false;
}

-- `str::parse::<usize>` on 64 bits.
unfoldable pub parse_usize : Text → Option ℕ
parse_usize value =
    let digits = strip_plus value in
    if is_empty digits then none else keep_if (λ n. ltb n (2 ^ 64)) (digits_value 0 digits)

abbrev pub Selected : Type 0
Selected = Text × ℕ × ImportedConnection

abbrev pub slot_of : Option (Option Candidate) → Result ApplicationError ImportedConnection
slot_of none = err import_expired
slot_of (some none) = err import_expired
slot_of (some (some (_, connection))) = ok connection

-- One key of the selection.
unfoldable pub select_key :
    List (Option Candidate) → Text → Result ApplicationError (ℕ × ImportedConnection)
select_key candidates key = do
  index ← ok_or (parse_usize key) import_expired
  connection ← slot_of (get_elem? candidates index)
  ok (index, connection)

-- The loop over the keys: a key that was seen is passed over. `seen` is the set of the keys so far.
unfoldable pub select_keys :
    List (Option Candidate) → List Text → List Text → Result ApplicationError (List Selected)
unfolding select_key
select_keys candidates seen [] = ok []
select_keys candidates seen (key ∷ keys) =
    let others = select_keys candidates seen keys in
    let first = do
      (index, connection) ← select_key candidates key
      rest ← select_keys candidates (key ∷ seen) keys
      ok ((key, index, connection) ∷ rest)
    in if member key seen then others else first

-- `slot = None`, within the list.
unfoldable pub emptied : ℕ → List (Option Candidate) → List (Option Candidate)
emptied index [] = []
emptied zero (slot ∷ slots) = none ∷ slots
emptied (suc index) (slot ∷ slots) = slot ∷ emptied index slots

module _ (test_connection : ConnectionInput → Text → Bool) where
  unfoldable pub tested : ImportedConnection → ConnectionImportStatus
  tested connection =
      let input = import_input connection in
      elim (validate_input input) [
        | err _ ↦ invalid
        | ok _ ↦
            if test_connection input (unwrap_or connection.password []) then saved else test_failed
      ]

  module _ {S : Type 0} (save : ConnectionInput → Option Text → S → S × Option Text) where
    -- The answer of saving: the new connection's identifier, or an error.
    abbrev pub answered :
        Selected
        → List (Option Candidate)
        → S × Option Text
        → ConnectionImportResultView × List (Option Candidate) × S
    answered (key, index, connection) slots (s, some id) = (
      record { key = key; label = connection.label; status = saved; connection_id = some id },
      emptied index slots,
      s,
    )
    answered (key, index, connection) slots (s, none) = (
      record { key = key; label = connection.label; status = save_failed; connection_id = none },
      slots,
      s,
    )

    abbrev pub unsaved :
        Selected
        → ConnectionImportStatus
        → List (Option Candidate)
        → S
        → ConnectionImportResultView × List (Option Candidate) × S
    unsaved (key, index, connection) status slots s = (
      record { key = key; label = connection.label; status = status; connection_id = none },
      slots,
      s,
    )

    abbrev pub outcome :
        Selected
        → ConnectionImportStatus
        → List (Option Candidate)
        → S
        → ConnectionImportResultView × List (Option Candidate) × S
    outcome selected saved slots s =
        answered selected slots (save (import_input selected.2) selected.2.password s)
    outcome selected invalid slots s = unsaved selected invalid slots s
    outcome selected test_failed slots s = unsaved selected test_failed slots s
    outcome selected save_failed slots s = unsaved selected save_failed slots s

    -- One candidate: its status from the test, and where it passed, the attempt to save it.
    unfoldable pub import_one :
        Selected
        → List (Option Candidate)
        → S
        → ConnectionImportResultView × List (Option Candidate) × S
    unfolding tested
    import_one selected slots s = outcome selected (tested selected.2) slots s

    -- The loop over the selected candidates.
    unfoldable pub import_all :
        List Selected
        → List (Option Candidate)
        → S
        → List ConnectionImportResultView × List (Option Candidate) × S
    unfolding import_one
    import_all [] slots s = ([], slots, s)
    import_all (selected ∷ rest) slots s =
        let (view, slots', s') = import_one selected slots s in
        let (views, slots'', s'') = import_all rest slots' s' in (view ∷ views, slots'', s'')

    -- `import_connections`: the answer, the pending import and the store afterwards. A time at
    -- which the pending import is older than ten minutes counts as if there was none.
    unfoldable pub import_selected :
        PendingImport
        → List Text
        → S
        → Result ApplicationError (List ConnectionImportResultView × PendingImport × S)
    unfolding select_keys import_all
    import_selected pending keys s = do
      selected ← select_keys pending.candidates [] keys
      reject_if (is_empty selected)
          (invalid_input (validation "validation.connectionImportNothingSelected"))
      let (views, slots, s') = import_all selected pending.candidates s
      ok (views, record pending { candidates = slots }, s')

    unfoldable pub import_connections :
        ℕ
        → Option PendingImport
        → List Text
        → S
        → Result ApplicationError (List ConnectionImportResultView × PendingImport × S)
    unfolding import_selected
    import_connections now none keys s = err import_expired
    import_connections now (some pending) keys s =
        if ltb pending_import_ttl (now - pending.created)
        then err import_expired
        else import_selected pending keys s
