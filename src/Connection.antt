-- ===== src/Connection.antt =====
-- draco-core/src/connection.rs: a stored connection, a draft of one and its validation; and
-- `ConnectionInput` of draco-app/src/lib.rs with `validate_input` and `into_core`.
pub mod Validated
use draco.Base.{
  ltb, if◌then◌else◌, unwrap_or, is_empty, Result, ok, err, ℕ, ◌%◌, ◌^◌, String, Bool, false, ◌||◌,
  Option, none, List, [], ◌∷◌, ◌++◌, map,
}
use draco.Text.{Text, codes, trim, join}
use draco.Error.{validation, with_param, ApplicationError, invalid_connection}

pub data ConnectionEnvironment : Type 0 where
  development : ConnectionEnvironment
  staging : ConnectionEnvironment
  production : ConnectionEnvironment

pub record DbConnection : Type 0 where
  pub id : Text
  pub label : Text
  pub host : Text
  pub port : ℕ
  pub database : Text
  pub user : Text
  pub ssl : Bool
  pub ssh_enabled : Bool
  pub ssh_host : Option Text
  pub ssh_port : Option ℕ
  pub ssh_user : Option Text
  pub ssh_key_path : Option Text
  pub ssh_jump_host : Option Text
  pub ssh_jump_port : Option ℕ
  pub ssh_jump_user : Option Text
  pub ssh_jump_key_path : Option Text
  pub favorite : Bool
  pub environment : Option ConnectionEnvironment
  pub read_only : Bool

-- `DbConnection::default`
abbrev pub default_connection : DbConnection
default_connection = record {
  id = [];
  label = [];
  host = codes "localhost";
  port = 5432;
  database = [];
  user = [];
  ssl = false;
  ssh_enabled = false;
  ssh_host = none;
  ssh_port = none;
  ssh_user = none;
  ssh_key_path = none;
  ssh_jump_host = none;
  ssh_jump_port = none;
  ssh_jump_user = none;
  ssh_jump_key_path = none;
  favorite = false;
  environment = none;
  read_only = false;
}

pub record DbConnectionDraft : Type 0 where
  pub label : Text
  pub host : Text
  pub port : ℕ
  pub database : Text
  pub user : Text
  pub ssl : Bool

-- `if test { errors.push(message) }`
push_if : Bool → String → List String → List String
push_if test message errors = if test then errors ++ message ∷ [] else errors

unfoldable pub validate_connection : DbConnectionDraft → List String
unfolding push_if
validate_connection draft =
    let labelled = push_if (is_empty (trim draft.label)) "Label is required" [] in
    let hosted = push_if (is_empty (trim draft.host)) "Host is required" labelled in
    let named = push_if (is_empty (trim draft.database)) "Database is required" hosted in
    let owned = push_if (is_empty (trim draft.user)) "User is required" named in
    push_if (ltb draft.port 1 || ltb 65535 draft.port) "Port must be between 1 and 65535" owned

-- The form as the interface sends it. `port` is a u32 here.
pub record ConnectionInput : Type 0 where
  pub id : Option Text
  pub label : Text
  pub host : Text
  pub port : ℕ
  pub database : Text
  pub user : Text
  pub ssl : Bool
  pub ssh_enabled : Bool
  pub ssh_host : Option Text
  pub ssh_port : Option ℕ
  pub ssh_user : Option Text
  pub ssh_key_path : Option Text
  pub ssh_jump_host : Option Text
  pub ssh_jump_port : Option ℕ
  pub ssh_jump_user : Option Text
  pub ssh_jump_key_path : Option Text
  pub favorite : Bool
  pub environment : Option ConnectionEnvironment
  pub read_only : Bool

-- `port as u16` keeps the low 16 bits.
unfoldable pub into_core : ConnectionInput → DbConnection
into_core input = record {
  id = unwrap_or input.id [];
  label = input.label;
  host = input.host;
  port = input.port % 2 ^ 16;
  database = input.database;
  user = input.user;
  ssl = input.ssl;
  ssh_enabled = input.ssh_enabled;
  ssh_host = input.ssh_host;
  ssh_port = input.ssh_port;
  ssh_user = input.ssh_user;
  ssh_key_path = input.ssh_key_path;
  ssh_jump_host = input.ssh_jump_host;
  ssh_jump_port = input.ssh_jump_port;
  ssh_jump_user = input.ssh_jump_user;
  ssh_jump_key_path = input.ssh_jump_key_path;
  favorite = input.favorite;
  environment = input.environment;
  read_only = input.read_only;
}

unfoldable pub validate_input : ConnectionInput → Result ApplicationError (Unit {0})
unfolding validate_connection
validate_input input =
    let errors = validate_connection (record {
      label = input.label;
      host = input.host;
      port = input.port;
      database = input.database;
      user = input.user;
      ssl = input.ssl;
    }) in
    if is_empty errors
    then ok tt
    else err (
        invalid_connection (
          with_param (validation "validation.connectionFields") "details"
            (join (codes "; ") (map codes errors))))
