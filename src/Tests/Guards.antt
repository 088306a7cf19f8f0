-- ===== src/Tests/Guards.antt =====
-- Versions, queries of the assistant, paths in a repository, and durations.
use draco.Base.{ok, ◌≡◌, refl, true, false}
use draco.Text.{
  codes, text_eq, is_whitespace, is_ascii_digit, to_ascii_lowercase, trim_start, trim_end, trim,
  contains, starts_with, contains_text, split_once, split, join,
}
use draco.ConnectionImport.{digits_value}
use draco.Updates.{trim_v, all_numbers, is_newer_version}
use draco.Assistant.{is_read_only_select}
use draco.Store.Settings.{GithubSettings}
use draco.Github.{validate_settings, normalized_path}
use draco.Notifications.{format_duration}
use draco.Text.Decimal.{decimal}

newer_accepted : is_newer_version (codes "v1.10.0") (codes "1.9.3-rc1") ≡ true
unfolding is_newer_version split split_once trim_v all_numbers digits_value is_ascii_digit
newer_accepted = refl

unread_version : is_newer_version (codes "2.x") (codes "1.9") ≡ false
unfolding is_newer_version split split_once trim_v all_numbers digits_value is_ascii_digit
unread_version = refl

select_accepted : is_read_only_select (codes " Select * from t; ") ≡ true
unfolding is_read_only_select trim trim_start trim_end is_whitespace contains starts_with
    to_ascii_lowercase contains_text
select_accepted = refl

into_refused : is_read_only_select (codes "select * into u from t") ≡ false
unfolding is_read_only_select trim trim_start trim_end is_whitespace contains starts_with
    to_ascii_lowercase contains_text
into_refused = refl

-- A line break in place of a blank.
into_on_a_line_accepted : is_read_only_select (codes "select * into\nu from t") ≡ true
unfolding is_read_only_select trim trim_start trim_end is_whitespace contains starts_with
    to_ascii_lowercase contains_text
into_on_a_line_accepted = refl

abbrev repository_settings : GithubSettings
repository_settings = record {
  owner = codes "britors";
  repository = codes "db.scripts";
  default_branch = codes "main";
  root_path = codes "/sql/./";
}

settings_accepted : validate_settings repository_settings ≡ ok tt
unfolding validate_settings trim is_whitespace contains is_ascii_digit split text_eq
settings_accepted = refl

path_joined : normalized_path repository_settings (codes "a//b.sql") ≡ ok (codes "sql/a/b.sql")
unfolding normalized_path split text_eq join
path_joined = refl

duration_printed : format_duration 7500 ≡ codes "2 h 5 min"
unfolding format_duration decimal
duration_printed = refl
