-- ===== src/Error.antt =====
-- draco-core/src/error.rs and the errors of draco-app/src/lib.rs. Errors of other libraries are
-- one constructor with their text. A rejected input keeps its message key and parameters; the
-- English text that goes with the key is not modelled.
use draco.Base.{String, List, [], ◌∷◌, ◌++◌}
use draco.Text.{Text}

pub data CoreError : Type 0 where
  not_connected : CoreError
  not_registered : CoreError
  external : Text → CoreError
  other : Text → CoreError

pub record Validation : Type 0 where
  pub key : String
  pub params : List (String × Text)

-- `Validation::new`
abbrev pub validation : String → Validation
validation key = record { key = key; params = [] }

-- `Validation::param`
abbrev pub with_param : Validation → String → Text → Validation
with_param v name value = record v { params = v.params ++ (name, value) ∷ [] }

pub data ApplicationError : Type 0 where
  invalid_connection : Validation → ApplicationError
  invalid_input : Validation → ApplicationError
  connection_not_found : Text → ApplicationError
  connection_not_active : Text → ApplicationError
  read_only_connection : Text → ApplicationError
  assistant : Validation → ApplicationError
  github : Text → ApplicationError
  operation : String → ApplicationError
  core : CoreError → ApplicationError
