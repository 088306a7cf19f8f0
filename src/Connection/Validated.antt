-- ===== src/Connection/Validated.antt =====
-- What a connection that passed the validation is known to have.
use draco.Base.{ok, ◌≤◌, ◌≡◌, ◌≢◌, ◌↔◌, [], arith}
use draco.Text.{Text, trim}
use draco.Connection.{
  DbConnectionDraft, validate_connection, ConnectionInput, into_core, validate_input,
}

-- A text with something in it besides white space.
abbrev pub IsFilled : Text → Type 0
IsFilled s = trim s ≢ []

pub record IsComplete (draft : DbConnectionDraft) : Type 0 where
  pub label : IsFilled draft.label
  pub host : IsFilled draft.host
  pub database : IsFilled draft.database
  pub user : IsFilled draft.user
  pub port_positive : 1 ≤ draft.port
  pub port_fits : draft.port ≤ 65535

-- A draft passes with no message exactly when every required field is filled and the port is in
-- range.
pub validate_connection_iff :
    (draft : DbConnectionDraft) → (validate_connection draft ≡ []) ↔ IsComplete draft
unfolding validate_connection
validate_connection_iff draft = (λ h. ground arith, λ c. ground arith)

-- The port of an accepted input survives the cast to u16, and is a usable port.
pub port-into_core :
    (input : ConnectionInput)
    → validate_input input ≡ ok tt
    → ((into_core input).port ≡ input.port)
      × (1 ≤ (into_core input).port)
      × ((into_core input).port ≤ 65535)
unfolding validate_input into_core
port-into_core input h = ground arith
