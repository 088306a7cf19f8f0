-- ===== src/Ddl/Names.antt =====
-- Other inputs that draco-app/src/lib.rs checks: the names of roles, snippets and extensions, the
-- end of a role's validity, and a scheduled job.
use draco.Base.{
  ltb, leb, ◌==◌, if◌then◌else◌, is_some_and, length, is_empty, any, all, Result, err, ok, ◌>>◌,
  reject_if, ℕ, Bool, false, ◌&&◌, ◌||◌, Option, none, some, List, [], ◌∷◌, map,
}
use draco.Text.{
  Text, codes, is_control, is_ascii_digit, to_ascii_lowercase, byte_len, trim, contains,
  starts_with, str_bytes,
}
use draco.Error.{ApplicationError}
use draco.ConnectionImport.{digits_value}
use draco.Ddl.{rejected_ddl}

unfoldable pub validate_role_name : Text → Result ApplicationError Text
validate_role_name value = do
  let name = trim value
  reject_if (is_empty name) (rejected_ddl "validation.roleNameIsRequired")
  reject_if (ltb 63 (byte_len name)) (rejected_ddl "validation.roleNameMustBeAtMost")
  reject_if (contains 0 name || any is_control name)
      (rejected_ddl "validation.roleNameContainsInvalidCharacters")
  reject_if (starts_with (codes "pg_") (map to_ascii_lowercase name))
      (rejected_ddl "validation.rolesBeginningWithPgAreReserved")
  ok name

unfoldable pub validate_snippet_name : Text → Result ApplicationError Text
validate_snippet_name value = do
  let name = trim value
  reject_if (is_empty name) (rejected_ddl "validation.snippetNameIsRequired")
  reject_if (ltb 120 (length name)) (rejected_ddl "validation.snippetNameMustBeAtMost")
  reject_if (any is_control name) (rejected_ddl "validation.snippetNameContainsInvalidCharacters")
  ok name

-- The bytes of a date: ten, with two dashes between digits.
abbrev date_shape : List ℕ → Option (Text × Text × Text)
date_shape (a ∷ b ∷ c ∷ d ∷ dash ∷ e ∷ f ∷ second_dash ∷ g ∷ h ∷ []) =
    if dash == b'-'
      && second_dash == b'-'
      && all is_ascii_digit (a ∷ b ∷ c ∷ d ∷ e ∷ f ∷ g ∷ h ∷ [])
    then some (a ∷ b ∷ c ∷ d ∷ [], e ∷ f ∷ [], g ∷ h ∷ [])
    else none
date_shape _ = none

-- `parse::<u16>` and `parse::<u8>`, of digits that fit.
abbrev number_within : ℕ → ℕ → Text → Bool
number_within low high digits = is_some_and (digits_value 0 digits) (λ n. leb low n && leb n high)

abbrev is_date : Option (Text × Text × Text) → Bool
is_date none = false
is_date (some (year, month, day)) =
    number_within 1 65535 year && number_within 1 12 month && number_within 1 31 day

abbrev date_of : Text → Result ApplicationError (Option Text)
date_of value =
    if is_empty value
    then ok none
    else if is_date (date_shape (str_bytes value))
    then ok (some value)
    else err (rejected_ddl "validation.roleExpirationMustUseYyyyMm")

unfoldable pub normalize_role_valid_until : Option Text → Result ApplicationError (Option Text)
normalize_role_valid_until none = ok none
normalize_role_valid_until (some value) = date_of (trim value)

-- `len() > 63`, or a control character.
unfoldable pub validate_extension_name : Text → Result ApplicationError Text
validate_extension_name value = do
  let name = trim value
  reject_if (is_empty name) (rejected_ddl "validation.extensionNameIsRequired")
  reject_if (ltb 63 (byte_len name) || any is_control name)
      (rejected_ddl "validation.extensionNameContainsInvalidCharacters")
  ok name

pub record CronJobInput : Type 0 where
  pub name : Option Text
  pub schedule : Text
  pub command : Text

-- The trimmed name, unless it is empty.
abbrev job_name : Option Text → Option Text
job_name none = none
job_name (some name) = let name' = trim name in if is_empty name' then none else some name'

unfoldable pub validate_cron_job_input :
    CronJobInput → Result ApplicationError (Option Text × Text × Text)
validate_cron_job_input input = do
  let name = job_name input.name
  reject_if (is_some_and name (λ n. ltb 63 (length n) || any is_control n))
      (rejected_ddl "validation.scheduledJobNameMustBeAt")
  let schedule = trim input.schedule
  reject_if (is_empty schedule || ltb 100 (length schedule) || any is_control schedule)
      (rejected_ddl "validation.scheduledJobScheduleMustBe1")
  let command = trim input.command
  reject_if (is_empty command || ltb 100000 (byte_len command) || contains 0 command)
      (rejected_ddl "validation.scheduledJobCommandMustBe1")
  ok (name, schedule, command)
