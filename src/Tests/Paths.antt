-- ===== src/Tests/Paths.antt =====
-- A file that was picked for an import.
use draco.Base.{leb, if◌then◌else◌, err, ok, ◌≡◌, refl, ◌≢◌, ◌↔◌, true, false, ◌&&◌, some, [], ◌∷◌}
use draco.Text.{Text, codes, text_eq, is_whitespace, trim, contains, starts_with}
use draco.Text.Assoc.{get, remove, insert}
use draco.Files.{
  backup, import, same_purpose, segments, is_absolute, validate_file_path, regular, FileSystem,
  validate_selected_path, AuthorizedFiles, authorize_file_path, choose_again,
  check_file_authorization, consume_file_authorization,
}
use draco.Files.Authorized.{IsAuthorized, consume_single_use, authorize_then_consume}
use draco.Files.Paths.{IsContained, validate_file_path_iff, leading_space_accepted}

abbrev a_path : Text
a_path = codes "/tmp/a.csv"

abbrev a_file_system : FileSystem
a_file_system = record {
  parent = λ _. some (codes "/tmp");
  is_dir = λ _. true;
  file_type = λ _. regular;
}

abbrev picked : AuthorizedFiles
picked = (a_path, record { purpose = import; created = 0 }) ∷ []

authorize-a_path : authorize_file_path a_file_system 0 a_path import [] ≡ ok picked
unfolding authorize_file_path validate_file_path validate_selected_path is_absolute trim
    is_whitespace starts_with contains segments text_eq insert remove
authorize-a_path = refl

text_eq-a_path : text_eq a_path (codes "/b") ≡ false
unfolding text_eq
text_eq-a_path = refl

validate-a_path : validate_file_path a_path (codes "label.selectedPath") ≡ ok tt
unfolding validate_file_path is_absolute trim is_whitespace starts_with contains segments text_eq
validate-a_path = refl

consume_single_use_example :
    (((consume_file_authorization 5 a_path import picked).0 ≡ ok tt)
      ↔ IsAuthorized picked a_path import 5)
    × ((consume_file_authorization 6 a_path backup
          (consume_file_authorization 5 a_path import picked).1).0
        ≡ err choose_again)
    × (check_file_authorization 6 a_path backup
          (consume_file_authorization 5 a_path import picked).1
        ≡ err choose_again)
consume_single_use_example = consume_single_use 5 6 a_path import backup picked

authorize_then_consume_example :
    ((consume_file_authorization 5 a_path import picked).0
      ≡ (if same_purpose import import && leb 5 600 then ok tt else err choose_again))
    × (get (codes "/b") picked ≡ get (codes "/b") [])
authorize_then_consume_example =
    authorize_then_consume a_file_system 0 5 a_path (codes "/b") import import [] picked
      authorize-a_path text_eq-a_path

validate_file_path_iff_example :
    (validate_file_path a_path (codes "label") ≡ ok tt) ↔ IsContained a_path
validate_file_path_iff_example = validate_file_path_iff a_path (codes "label")

select-spaced : validate_selected_path a_file_system (b' ' ∷ a_path) import ≡ ok tt
unfolding validate_selected_path
select-spaced = refl

leading_space_accepted_example :
    (after : AuthorizedFiles) × (authorize_file_path a_file_system 7 (b' ' ∷ a_path) import []
      ≡ ok after)
    × (get (b' ' ∷ a_path) after ≡ some (record { purpose = import; created = 7 }))
    × ((rest : Text) → (b' ' ∷ a_path) ≢ b'/' ∷ rest)
leading_space_accepted_example =
    leading_space_accepted a_file_system 7 a_path import [] validate-a_path select-spaced
