-- ===== src/Files/Paths.antt =====
-- Which paths can be authorized.
use draco.Base.{
  ◌==◌, if◌then◌else◌, Bool-cases, any, ok, ℕ, ◌≡◌, refl, sym, ap, ◌∙◌, ◌≢◌, ◌↔◌, inl, inr, Bool,
  true, false, ◌&&◌, ◌||◌, some, List, [], ◌∷◌, ◌++◌, arith,
}
use draco.Text.{
  Text, codes, text_eq, text_eq_refl, is_whitespace, trim, contains, starts_with, split,
}
use draco.Text.Assoc.{get, insert, get-insert}
use draco.Files.{
  FileAuthorizationPurpose, segments, is_absolute, is_parent_dir, validate_file_path, FileSystem,
  validate_selected_path, Authorization, AuthorizedFiles, authorize_file_path,
}

-- What stands behind two dots that make up a whole segment.
abbrev pub EndsSegment : Text → Type 0
EndsSegment [] = Unit
EndsSegment (c ∷ s) = c ≡ b'/'

-- Somewhere in the path a slash is followed by two dots that are a whole segment.
abbrev pub Climbs : Text → Type 0
Climbs path = (front back : Text) × (path ≡ front ++ b'/' ∷ b'.' ∷ b'.' ∷ back) × EndsSegment back

-- An absolute path with no NUL that never climbs, once it is trimmed.
pub record IsContained (path : Text) : Type 0 where
  pub absolute : (rest : Text) × (trim path ≡ b'/' ∷ rest)
  pub no_nul : contains 0 path ≡ false
  pub no_traversal : ¬ Climbs (trim path)

-- The first segment is two dots.
abbrev climbs_here : Text → Bool
climbs_here [] = false
climbs_here (c ∷ []) = false
climbs_here (c ∷ d ∷ []) = c == b'.' && d == b'.'
climbs_here (c ∷ d ∷ e ∷ s) = c == b'.' && (d == b'.' && e == b'/')

unfoldable climbs : Text → Bool
climbs [] = false
climbs (c ∷ s) = (c == b'/' && climbs_here s) || climbs s

abbrev first_climbs : List Text → Bool
first_climbs [] = false
first_climbs (first ∷ rest) = is_parent_dir first

abbrev later_climbs : List Text → Bool
later_climbs [] = false
later_climbs (first ∷ rest) = any is_parent_dir rest

-- The segments with one more character before them.
abbrev with_char : ℕ → List Text → List Text
with_char c [] = [] ∷ []
with_char c (first ∷ rest) = if c == b'/' then [] ∷ first ∷ rest else (c ∷ first) ∷ rest

segments-cons : (c : ℕ) (s : Text) → segments (c ∷ s) ≡ with_char c (segments s)
unfolding segments
segments-cons c s = by_parts (segments s)
  where
    by_parts :
        (parts : List Text)
        → elim parts as (λ _. List Text) [
          | [] ↦ [] ∷ []
          | first ∷ rest ↦ if c == b'/' then [] ∷ first ∷ rest else (c ∷ first) ∷ rest
        ]
          ≡ with_char c parts
    by_parts [] = refl
    by_parts (first ∷ rest) = refl

segments-some : (s : Text) → (first : Text) × (rest : List Text) × (segments s ≡ first ∷ rest)
unfolding segments
segments-some [] = ([], [], refl)
segments-some (c ∷ s) =
    let (first, rest, same) = segments-some s in
    let step = segments-cons c s ∙ ap (with_char c) same in
    elim (Bool-cases (c == b'/')) [
      | inl slash ↦ ([], first ∷ rest, step ∙ rw slash refl)
      | inr inside ↦ (c ∷ first, rest, step ∙ rw inside refl)
    ]

climbs_here-segments : (s : Text) → climbs_here s ≡ first_climbs (segments s)
unfolding text_eq
climbs_here-segments [] = unfold segments in refl
climbs_here-segments (c ∷ []) = rw (segments-cons c []) (unfold segments in ground arith)
climbs_here-segments (c ∷ d ∷ []) =
    rw (segments-cons c (d ∷ [])) (rw (segments-cons d []) (unfold segments in ground arith))
climbs_here-segments (c ∷ d ∷ e ∷ s) =
    let (first, rest, same) = segments-some s in
    rw (segments-cons c (d ∷ e ∷ s))
      (rw (segments-cons d (e ∷ s)) (rw (segments-cons e s) (rw same (three first rest))))
  where
    three :
        (first : Text) (rest : List Text)
        → (c == b'.' && (d == b'.' && e == b'/'))
          ≡ first_climbs (with_char c (with_char d (with_char e (first ∷ rest))))
    three [] rest = ground arith
    three (f ∷ first) rest = ground arith

climbs-segments : (s : Text) → climbs s ≡ later_climbs (segments s)
unfolding climbs
climbs-segments [] = unfold segments in refl
climbs-segments (c ∷ s) =
    let (first, rest, same) = segments-some s in
    let here = climbs_here-segments s ∙ ap first_climbs same in
    let later = climbs-segments s ∙ ap later_climbs same in
    rw (segments-cons c s) (rw same (ground (arith, here, later)))

any-climbs : (rest : Text) → any is_parent_dir (segments (b'/' ∷ rest)) ≡ climbs (b'/' ∷ rest)
unfolding text_eq
any-climbs rest =
    let (first, others, same) = segments-some rest in
    let split = segments-cons b'/' rest ∙ ap (with_char b'/') same in
    climbs_all split ∙ sym (climbs-segments (b'/' ∷ rest) ∙ ap later_climbs split)
  where
    climbs_all :
        {first : Text} {others : List Text}
        → segments (b'/' ∷ rest) ≡ [] ∷ first ∷ others
        → any is_parent_dir (segments (b'/' ∷ rest)) ≡ any is_parent_dir (first ∷ others)
    climbs_all same = rw same refl

climbs_here-back :
    (s : Text) → climbs_here s ≡ true → (back : Text) × (s ≡ b'.' ∷ b'.' ∷ back) × EndsSegment back
climbs_here-back [] h = cc (h)
climbs_here-back (c ∷ []) h = cc (h)
climbs_here-back (c ∷ d ∷ []) h =
    let first : c ≡ b'.' = ground arith in
    let second : d ≡ b'.' = ground arith in ([], cc (first, second), tt)
climbs_here-back (c ∷ d ∷ e ∷ s) h =
    let first : c ≡ b'.' = ground arith in
    let second : d ≡ b'.' = ground arith in
    let third : e ≡ b'/' = ground arith in (e ∷ s, cc (first, second), third)

climbs-Climbs : (s : Text) → climbs s ≡ true → Climbs s
unfolding climbs
climbs-Climbs [] h = cc (h)
climbs-Climbs (c ∷ s) h = elim (Bool-cases (c == b'/' && climbs_here s)) [
  | inl here ↦
      let slash : c ≡ b'/' = ground arith in
      let (back, same, ends) = climbs_here-back s (ground (arith, here)) in
      ([], back, cc (slash, same), ends)
  | inr further ↦
      let (front, back, same, ends) = climbs-Climbs s (ground (arith, further, h)) in
      (c ∷ front, back, cc (same), ends)
]

climbs-found :
    (front back : Text) → EndsSegment back → climbs (front ++ b'/' ∷ b'.' ∷ b'.' ∷ back) ≡ true
unfolding climbs
climbs-found [] [] ends = refl
climbs-found [] (c ∷ back) ends = rw ends refl
climbs-found (c ∷ front) back ends = ground (arith, climbs-found front back ends)

absolute-slash : (path : Text) → is_absolute path ≡ true → (rest : Text) × (path ≡ b'/' ∷ rest)
unfolding is_absolute starts_with
absolute-slash [] h = cc (h)
absolute-slash (c ∷ rest) h = let slash : c ≡ b'/' = ground arith in (rest, cc (slash))

slash-absolute : (rest : Text) → is_absolute (b'/' ∷ rest) ≡ true
unfolding is_absolute starts_with
slash-absolute rest = refl

checked_path :
    (value label : Text)
    → (validate_file_path value label ≡ ok tt) ↔ (
        (is_absolute (trim value) ≡ true)
        × (contains 0 value ≡ false)
        × (any is_parent_dir (segments (trim value)) ≡ false))
unfolding validate_file_path
checked_path value label = (λ h. ground arith, λ h. ground arith)

-- A path is accepted exactly when it holds no NUL and, trimmed, starts with a slash and has no two
-- dots between a slash and the next one or the end.
pub validate_file_path_iff :
    (value label : Text) → (validate_file_path value label ≡ ok tt) ↔ IsContained value
validate_file_path_iff value label = (sound, complete)
  where
    sound : validate_file_path value label ≡ ok tt → IsContained value
    sound h =
        let (absolute, no_nul, no_parent) = (checked_path value label).0 h in
        let (rest, same) = absolute-slash (trim value) absolute in
        let calm =
          sym (any-climbs rest) ∙ sym (ap (λ p. any is_parent_dir (segments p)) same) ∙ no_parent in
        record {
          absolute = (rest, same);
          no_nul = no_nul;
          no_traversal = λ (front, back, split, ends).
              cc (calm, ap climbs (sym same ∙ split), climbs-found front back ends);
        }

    complete : IsContained value → validate_file_path value label ≡ ok tt
    complete contained =
        let (rest, same) = contained.absolute in
        let absolute = ap is_absolute same ∙ slash-absolute rest in
        let calm : climbs (b'/' ∷ rest) ≡ false = elim (Bool-cases (climbs (b'/' ∷ rest))) [
          | inl up ↦
              absurd (contained.no_traversal (climbs-Climbs (trim value) (ap climbs same ∙ up)))
          | inr calm ↦ calm
        ] in
        (checked_path value label).1 (
          absolute,
          contained.no_nul,
          ap (λ p. any is_parent_dir (segments p)) same ∙ any-climbs rest ∙ calm,
        )

spaced_passes :
    (value label : Text)
    → validate_file_path value label ≡ ok tt
    → validate_file_path (b' ' ∷ value) label ≡ ok tt
unfolding validate_file_path is_absolute trim contains starts_with is_whitespace
spaced_passes value label h = ground arith

blank_slash : (value rest : Text) → (b' ' ∷ value) ≢ b'/' ∷ rest
blank_slash value rest e = let same : ◌≡◌ {A = ℕ} b' ' b'/' = cc (e) in omega (arith, same)

-- The check looks at the trimmed path, and the untrimmed one is authorized: where a path passes the
-- check and the file system has nothing against it with a space before it, that path, which does
-- not start with a slash, is authorized as it stands.
pub leading_space_accepted :
    (fs : FileSystem) (now : ℕ) (value : Text) (purpose : FileAuthorizationPurpose)
    (files : AuthorizedFiles)
    → validate_file_path value (codes "label.selectedPath") ≡ ok tt
    → validate_selected_path fs (b' ' ∷ value) purpose ≡ ok tt
    → (after : AuthorizedFiles) × (authorize_file_path fs now (b' ' ∷ value) purpose files
        ≡ ok after)
      × (get (b' ' ∷ value) after ≡ some (record { purpose = purpose; created = now }))
      × ((rest : Text) → (b' ' ∷ value) ≢ b'/' ∷ rest)
unfolding authorize_file_path
leading_space_accepted fs now value purpose files checked selected =
    let path = b' ' ∷ value in
    let given : Authorization = record { purpose = purpose; created = now } in
    (
      insert path given files,
      rw (spaced_passes value (codes "label.selectedPath") checked) (rw selected refl),
      get-insert path path given files ∙ rw (text_eq_refl path) refl,
      λ rest e. blank_slash value rest e,
    )
