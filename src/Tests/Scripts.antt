-- ===== src/Tests/Scripts.antt =====
-- A view whose names hold quotes and points.
use draco.Base.{err, ok, ℕ, ◌≤◌, ◌≡◌, refl, ◌↔◌, Bool, false, ◌||◌, some, arith}
use draco.Text.{
  Text, codes, text_eq, is_whitespace, is_control, is_ascii_digit, is_ascii_lowercase,
  to_ascii_lowercase, byte_len, trim_start, trim, contains, starts_with, str_bytes, join,
}
use draco.TableEditor.{quote_name}
use draco.ConnectionImport.{digits_value}
use draco.ConnectionImport.Url.{strip_prefix_ignore_case}
use draco.Ddl.{
  rejected_ddl, keyword, identifier, target_name, validate_definition_text, require_target,
  validate_view_ddl, validate_index_ddl, head_words, validate_function_ddl,
}
use draco.Ddl.Targeted.{view_text, validate_view_ddl_iff}
use draco.Ddl.Names.{validate_role_name, normalize_role_valid_until}

-- Letters and digits of ASCII.
abbrev is_letter : ℕ → Bool
is_letter c = is_ascii_digit c || is_ascii_lowercase (to_ascii_lowercase c)

is_letter-blank : is_letter b' ' ≡ false
unfolding is_ascii_digit is_ascii_lowercase to_ascii_lowercase
is_letter-blank = refl

abbrev a_body : Text
a_body = codes " AS SELECT 1"

a_view-trimmed :
    trim (view_text (codes "a.b") (codes "v\"w") a_body)
    ≡ view_text (codes "a.b") (codes "v\"w") a_body
unfolding trim is_whitespace view_text quote_name
a_view-trimmed = refl

a_view-short : byte_len (view_text (codes "a.b") (codes "v\"w") a_body) ≤ 2097152
unfolding byte_len view_text quote_name
a_view-short = omega arith

a_view-no_zero : contains 0 (view_text (codes "a.b") (codes "v\"w") a_body) ≡ false
unfolding contains view_text quote_name
a_view-no_zero = refl

validate_view_ddl_iff_example :
    (validate_view_ddl is_letter
        (view_text (codes "a.b") (codes "v\"w") a_body)
        (codes "a.b")
        (codes "v")
      ≡ ok tt)
    ↔ ((codes "a.b" ≡ codes "a.b") × (codes "v\"w" ≡ codes "v"))
validate_view_ddl_iff_example =
    validate_view_ddl_iff is_letter is_letter-blank (codes "a.b") (codes "v\"w") a_body
      (codes "a.b") (codes "v") refl a_view-trimmed a_view-short a_view-no_zero

index_accepted :
    validate_index_ddl is_letter
      (codes "create unique index i_name on only Public.notes using btree (name);")
      (codes "public")
      (codes "notes")
      (codes "i_name")
    ≡ ok tt
unfolding validate_index_ddl validate_definition_text keyword strip_prefix_ignore_case target_name
    identifier require_target trim trim_start is_whitespace byte_len contains text_eq is_ascii_digit
    is_ascii_lowercase to_ascii_lowercase
index_accepted = refl

function_accepted :
    validate_function_ddl (codes " Create  Or Replace\nFunction f() returns int") ≡ ok tt
unfolding validate_function_ddl head_words trim is_whitespace byte_len contains to_ascii_lowercase
    join starts_with
function_accepted = refl

role_reserved :
    validate_role_name (codes " PG_admin ")
    ≡ err (rejected_ddl "validation.rolesBeginningWithPgAreReserved")
unfolding validate_role_name trim is_whitespace is_control byte_len contains to_ascii_lowercase
    starts_with
role_reserved = refl

date_accepted :
    normalize_role_valid_until (some (codes " 2027-12-31 ")) ≡ ok (some (codes "2027-12-31"))
unfolding normalize_role_valid_until trim is_whitespace str_bytes is_ascii_digit digits_value
date_accepted = refl
