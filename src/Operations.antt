-- ===== src/Operations.antt =====
-- The registry of running operations in draco-app/src/lib.rs: `register_operation`,
-- `finish_operation` and `cancel_operation`. A `watch` channel is known by a number; the registry
-- keeps the value that each channel holds and whether a receiver of it is left.
pub mod Channels
pub mod Reuse
use draco.Base.{
  ◌==◌, if◌then◌else◌, is_some, is_empty, Result, ok, err, ℕ, ◌+◌, Bool, true, false, Option, none,
  some, [],
}
use draco.Text.{Text, trim}
use draco.Text.Assoc.{HashMap, get, remove, insert}
use draco.Error.{validation, ApplicationError, invalid_input, operation}

pub record Registry : Type 0 where
  pub operations : HashMap ℕ
  pub cancelled : ℕ → Bool
  pub has_receiver : ℕ → Bool
  pub next_channel : ℕ

abbrev pub empty_registry : Registry
empty_registry = record {
  operations = [];
  cancelled = λ _. false;
  has_receiver = λ _. false;
  next_channel = 0;
}

-- The function with one value replaced.
abbrev pub update : (ℕ → Bool) → ℕ → Bool → ℕ → Bool
update f c b d = if d == c then b else f d

-- `watch::channel(false)` is opened before the map is looked at, and dropped if the id is taken.
unfoldable pub register_operation : Text → Registry → Result ApplicationError ℕ × Registry
register_operation operation_id r =
    if is_empty (trim operation_id)
    then (err (invalid_input (validation "validation.operationIdIsRequired")), r)
    else if is_some (get operation_id r.operations)
    then (
      err (operation "Operation id is already in use"),
      record r { next_channel = r.next_channel + 1 },
    )
    else (
      ok r.next_channel,
      record {
        operations = insert operation_id r.next_channel r.operations;
        cancelled = update r.cancelled r.next_channel false;
        has_receiver = update r.has_receiver r.next_channel true;
        next_channel = r.next_channel + 1;
      },
    )

unfoldable pub finish_operation : Text → Registry → Registry
finish_operation operation_id r = record r { operations = remove operation_id r.operations }

-- The task that holds the receiver ends.
unfoldable pub drop_receiver : ℕ → Registry → Registry
drop_receiver channel r = record r { has_receiver = update r.has_receiver channel false }

-- The first half of `cancel_operation`: the sender is cloned while the map is locked.
abbrev pub sender_of : Text → Registry → Option ℕ
sender_of operation_id r = get operation_id r.operations

-- The second half, with the map free again: `sender.send(true)` fails once no receiver is left.
unfoldable pub send : ℕ → Registry → Result ApplicationError (Unit {0}) × Registry
send channel r =
    if r.has_receiver channel
    then (ok tt, record r { cancelled = update r.cancelled channel true })
    else (err (operation "Operation has already finished"), r)

unfoldable pub send_to : Option ℕ → Registry → Result ApplicationError (Unit {0}) × Registry
unfolding send
send_to none r = (err (operation "Operation not found"), r)
send_to (some channel) r = send channel r

-- `cancel_operation` with nothing between its halves.
unfoldable pub cancel_operation : Text → Registry → Result ApplicationError (Unit {0}) × Registry
unfolding send_to
cancel_operation operation_id r = send_to (sender_of operation_id r) r
