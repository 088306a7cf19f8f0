-- ===== src/Files.antt =====
-- File paths that the user picked in a native dialog: `validate_file_path`,
-- `validate_selected_path`, `authorize_file_path`, `check_file_authorization` and
-- `consume_file_authorization` of draco-app/src/lib.rs. Paths are read as on Unix; what the file
-- system says of a path and the clock (in seconds) are parameters.
pub mod Authorized
pub mod Paths
use draco.Base.{
  leb, ◌==◌, if◌then◌else◌, is_some_and, any, Result, ok, err, ◌>>=◌, ◌>>◌, ok_or, reject_if, ℕ,
  ◌-◌, String, Bool, true, false, not, ◌&&◌, ◌||◌, Option, List, [], ◌∷◌,
}
use draco.Text.{Text, codes, text_eq, trim, contains, starts_with}
use draco.Text.Assoc.{HashMap, get, remove, insert}
use draco.Error.{validation, with_param, ApplicationError, invalid_input}

pub data FileAuthorizationPurpose : Type 0 where
  backup : FileAuthorizationPurpose
  restore : FileAuthorizationPurpose
  import : FileAuthorizationPurpose

unfoldable pub same_purpose : FileAuthorizationPurpose → FileAuthorizationPurpose → Bool
same_purpose backup backup = true
same_purpose restore restore = true
same_purpose import import = true
same_purpose _ _ = false

-- The names between the slashes of a path.
unfoldable pub segments : Text → List Text
segments [] = [] ∷ []
segments (c ∷ s) = elim (segments s) [
  | [] ↦ [] ∷ []
  | first ∷ rest ↦ if c == b'/' then [] ∷ first ∷ rest else (c ∷ first) ∷ rest
]

unfoldable pub is_absolute : Text → Bool
is_absolute path = starts_with (codes "/") path

abbrev pub is_parent_dir : Text → Bool
is_parent_dir segment = text_eq segment (codes "..")

-- `label` is the catalog key that `Validation::label` makes of its words.
unfoldable pub validate_file_path : Text → Text → Result ApplicationError (Unit {0})
validate_file_path value label =
    let path = trim value in
    if not (is_absolute path) || contains 0 value || any is_parent_dir (segments path)
    then err
        (invalid_input (with_param (validation "validation.absolutePathRequired") "label" label))
    else ok tt

-- What `symlink_metadata` says of a path.
pub data FileType : Type 0 where
  regular : FileType
  directory : FileType
  symlink : FileType
  missing : FileType

pub record FileSystem : Type 0 where
  pub parent : Text → Option Text
  pub is_dir : Text → Bool
  pub file_type : Text → FileType

is_symlink : FileType → Bool
is_symlink symlink = true
is_symlink regular = false
is_symlink directory = false
is_symlink missing = false

-- The checks of an input file, with the messages for a missing and for an irregular one.
input_file : FileType → String → String → Result ApplicationError (Unit {0})
input_file missing absent irregular = err (invalid_input (validation absent))
input_file regular absent irregular = ok tt
input_file directory absent irregular = err (invalid_input (validation irregular))
input_file symlink absent irregular = err (invalid_input (validation irregular))

unfoldable pub validate_selected_path :
    FileSystem → Text → FileAuthorizationPurpose → Result ApplicationError (Unit {0})
unfolding is_symlink input_file
validate_selected_path fs path backup = do
  parent ←
      ok_or (fs.parent path) (invalid_input (validation "validation.backupDestinationHasNoParent"))
  reject_if (not (fs.is_dir parent))
      (invalid_input (validation "validation.backupDestinationDirectoryDoesNotExist"))
  reject_if (is_symlink (fs.file_type path))
      (invalid_input (validation "validation.backupDestinationCannotBeASymbolic"))
validate_selected_path fs path import =
    input_file (fs.file_type path) "validation.importFileMustBeARegular"
      "validation.importFileMustBeARegular"
validate_selected_path fs path restore =
    input_file (fs.file_type path) "validation.restoreInputMustBeAnExisting"
      "validation.restoreInputMustBeARegular"

pub record Authorization : Type 0 where
  pub purpose : FileAuthorizationPurpose
  pub created : ℕ

abbrev pub AuthorizedFiles : Type 0
AuthorizedFiles = HashMap Authorization

-- `Duration::from_secs(10 * 60)`
abbrev pub authorization_ttl : ℕ
authorization_ttl = 600

unfoldable pub authorize_file_path :
    FileSystem
    → ℕ
    → Text
    → FileAuthorizationPurpose
    → AuthorizedFiles
    → Result ApplicationError AuthorizedFiles
authorize_file_path fs now path purpose files = do
  validate_file_path path (codes "label.selectedPath")
  validate_selected_path fs path purpose
  ok (insert path (record { purpose = purpose; created = now }) files)

-- The authorization is for this purpose, and not older than the limit.
unfoldable pub is_valid : ℕ → FileAuthorizationPurpose → Authorization → Bool
unfolding same_purpose
is_valid now purpose a = same_purpose a.purpose purpose && leb (now - a.created) authorization_ttl

abbrev pub choose_again : ApplicationError
choose_again = invalid_input (validation "validation.chooseTheFileAgainWithThe")

unfoldable pub check_file_authorization :
    ℕ → Text → FileAuthorizationPurpose → AuthorizedFiles → Result ApplicationError (Unit {0})
check_file_authorization now path purpose files =
    if is_some_and (get path files) (is_valid now purpose) then ok tt else err choose_again

unfoldable pub consume_file_authorization :
    ℕ
    → Text
    → FileAuthorizationPurpose
    → AuthorizedFiles
    → Result ApplicationError (Unit {0}) × AuthorizedFiles
consume_file_authorization now path purpose files =
    let authorization = get path files in
    (
      if is_some_and authorization (is_valid now purpose) then ok tt else err choose_again,
      remove path files,
    )
