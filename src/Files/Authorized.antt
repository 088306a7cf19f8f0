-- ===== src/Files/Authorized.antt =====
-- What an authorization allows.
use mathlib.Core.Path.{subst}
use draco.Base.{
  leb, if◌then◌else◌, Option-cases, is_some_and, err, ok, ℕ, ◌+◌, ◌-◌, ◌≤◌, ◌≡◌, refl, ◌↔◌, inl,
  inr, true, false, ◌&&◌, Option, some, arith,
}
use draco.Text.{Text, text_eq, text_eq_refl}
use draco.Text.Assoc.{get, get-remove, get-insert}
use draco.Files.{
  FileAuthorizationPurpose, backup, restore, import, same_purpose, FileSystem, Authorization,
  AuthorizedFiles, authorize_file_path, is_valid, choose_again, check_file_authorization,
  consume_file_authorization,
}

-- The path was picked for this purpose, at most ten minutes ago.
abbrev pub IsAuthorized : AuthorizedFiles → Text → FileAuthorizationPurpose → ℕ → Type 0
IsAuthorized files path purpose now =
    (a : Authorization) × (get path files ≡ some a)
    × (a.purpose ≡ purpose)
    × (now - a.created ≤ 600)

same_purpose_iff : (p q : FileAuthorizationPurpose) → (same_purpose p q ≡ true) ↔ (p ≡ q)
unfolding same_purpose
same_purpose_iff backup backup = (λ h. refl, λ h. refl)
same_purpose_iff backup restore = (λ h. cc (h), λ h. cc (h))
same_purpose_iff backup import = (λ h. cc (h), λ h. cc (h))
same_purpose_iff restore backup = (λ h. cc (h), λ h. cc (h))
same_purpose_iff restore restore = (λ h. refl, λ h. refl)
same_purpose_iff restore import = (λ h. cc (h), λ h. cc (h))
same_purpose_iff import backup = (λ h. cc (h), λ h. cc (h))
same_purpose_iff import restore = (λ h. cc (h), λ h. cc (h))
same_purpose_iff import import = (λ h. refl, λ h. refl)

is_valid_iff :
    (now : ℕ) (purpose : FileAuthorizationPurpose) (a : Authorization)
    → (is_valid now purpose a ≡ true) ↔ ((a.purpose ≡ purpose) × (now - a.created ≤ 600))
unfolding is_valid
is_valid_iff now purpose a = ground (arith, same_purpose_iff a.purpose purpose)

valid-IsAuthorized :
    (files : AuthorizedFiles) (path : Text) (purpose : FileAuthorizationPurpose) (now : ℕ)
    → (is_some_and (get path files) (is_valid now purpose) ≡ true)
      ↔ IsAuthorized files path purpose now
valid-IsAuthorized files path purpose now = elim (Option-cases (get path files)) [
  | inl absent ↦ rw absent (λ h. cc (h), λ (a, found, _, _). cc (found))
  | inr (a, found) ↦
      let (sound, complete) = is_valid_iff now purpose a in
      rw found (
        λ h. (a, refl, (sound h).0, (sound h).1),
        λ (b, same, meant, recent). complete (
            subst (λ x. (x.purpose ≡ purpose) × (now - x.created ≤ 600)) (some-injective same)
              (meant, recent)),
      )
]
  where
    some-injective :
        {x y : Authorization} → ◌≡◌ {A = Option Authorization} (some y) (some x) → x ≡ y
    some-injective e = cc (e)

consumed :
    (now : ℕ) (path : Text) (purpose : FileAuthorizationPurpose) (files : AuthorizedFiles)
    → ((consume_file_authorization now path purpose files).0 ≡ ok tt)
      ↔ (is_some_and (get path files) (is_valid now purpose) ≡ true)
unfolding consume_file_authorization
consumed now path purpose files = (λ h. ground arith, λ h. ground arith)

-- A file may be imported, restored or overwritten only if it was picked for that purpose at most
-- ten minutes before, and the authorization is used up by the attempt: the same path is refused afterwards for every
-- purpose and at every time, until it is picked again.
pub consume_single_use :
    (now later : ℕ) (path : Text) (purpose another : FileAuthorizationPurpose)
    (files : AuthorizedFiles)
    → (((consume_file_authorization now path purpose files).0 ≡ ok tt)
        ↔ IsAuthorized files path purpose now)
      × ((consume_file_authorization later path another
            (consume_file_authorization now path purpose files).1).0
          ≡ err choose_again)
      × (check_file_authorization later path another
            (consume_file_authorization now path purpose files).1
          ≡ err choose_again)
unfolding consume_file_authorization check_file_authorization
consume_single_use now later path purpose another files = (
  (
    λ h. (valid-IsAuthorized files path purpose now).0 ((consumed now path purpose files).0 h),
    λ h. (consumed now path purpose files).1 ((valid-IsAuthorized files path purpose now).1 h),
  ),
  ground (arith, get-remove path path files, text_eq_refl path),
  ground (arith, get-remove path path files, text_eq_refl path),
)

-- After a file was picked for a purpose, a use within ten minutes succeeds for exactly that
-- purpose, a later one fails, and the authorizations of the other paths are as before.
pub authorize_then_consume :
    (fs : FileSystem) (now elapsed : ℕ) (path another : Text)
    (purpose asked : FileAuthorizationPurpose) (files after : AuthorizedFiles)
    → authorize_file_path fs now path purpose files ≡ ok after
    → text_eq path another ≡ false
    → ((consume_file_authorization (now + elapsed) path asked after).0
        ≡ (if same_purpose purpose asked && leb elapsed 600 then ok tt else err choose_again))
      × (get another after ≡ get another files)
unfolding authorize_file_path consume_file_authorization is_valid
authorize_then_consume fs now elapsed path another purpose asked files after h ne = ground (
  arith,
  get-insert path path (record { purpose = purpose; created = now }) files,
  get-insert path another (record { purpose = purpose; created = now }) files,
  text_eq_refl path,
)
