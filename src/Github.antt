-- ===== src/Github.antt =====
-- draco-core/src/github.rs: the check of the settings and the paths within a repository. The errors of
-- the keyring and of a task are kept as texts.
use draco.Base.{
  leb, is_empty, any, all, retain, Result, ok, ◌>>◌, reject_if, ℕ, Bool, not, ◌&&◌, ◌||◌, ◌++◌,
}
use draco.Text.{Text, codes, text_eq, is_ascii_digit, trim, contains, split, join}
use draco.Error.{CoreError}
use draco.Store.Settings.{GithubSettings}

pub data GithubError : Type 0 where
  message : Text → GithubError
  core_failure : CoreError → GithubError
  secret : Text → GithubError
  secret_task : Text → GithubError

-- `is_ascii_alphanumeric`, or one of `-_.`.
unfoldable pub is_name_character : ℕ → Bool
is_name_character c =
    is_ascii_digit c
    || (leb b'a' c && leb c b'z')
    || (leb b'A' c && leb c b'Z')
    || contains c (codes "-_.")

unfoldable pub valid_name : Text → Bool
unfolding is_name_character
valid_name value = not (is_empty (trim value)) && all is_name_character value

unfoldable pub validate_settings : GithubSettings → Result GithubError (Unit {0})
unfolding valid_name
validate_settings settings = do
  reject_if (not (valid_name settings.owner) || not (valid_name settings.repository))
      (message (codes "Enter a valid GitHub owner and repository name."))
  reject_if (any (λ part. text_eq part (codes "..")) (split b'/' settings.root_path))
      (message (codes "GitHub root path cannot contain '..'."))

-- A part that counts.
abbrev is_step : Text → Bool
is_step part = not (is_empty part) && not (text_eq part (codes "."))

unfoldable pub normalized_path : GithubSettings → Text → Result GithubError Text
normalized_path settings path = do
  let parts = retain is_step (split b'/' settings.root_path ++ split b'/' path)
  reject_if (is_empty parts || any (λ part. text_eq part (codes "..")) parts)
      (message (codes "Invalid repository file path."))
  ok (join (codes "/") parts)
