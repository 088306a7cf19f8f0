-- ===== src/Updates.antt =====
-- `is_newer_version` of draco-app/src/lib.rs: whether a release is newer than the program.
use mathlib.Core.Option.{map as map_option}
use draco.Base.{
  ltb, ◌==◌, if◌then◌else◌, is_empty, ℕ, ◌^◌, Bool, true, false, ◌&&◌, ◌||◌, Option, none, some,
  List, [], ◌∷◌,
}
use draco.Text.{Text, split_once, split}
use draco.ConnectionImport.{digits_value, strip_plus, keep_if}

-- `str::parse::<u64>`
abbrev parse_u64 : Text → Option ℕ
parse_u64 value =
    let digits = strip_plus value in
    if is_empty digits then none else keep_if (λ n. ltb n (2 ^ 64)) (digits_value 0 digits)

-- `trim_start_matches(['v', 'V'])`
unfoldable pub trim_v : Text → Text
trim_v [] = []
trim_v (c ∷ s) = let rest = trim_v s in if c == b'v' || c == b'V' then rest else c ∷ s

abbrev stable_part : Text → Option (Text × Text) → Text
stable_part value none = value
stable_part value (some (stable, _)) = stable

-- `collect` into a `Result`: all parts, or none.
unfoldable pub all_numbers : List Text → Option (List ℕ)
all_numbers [] = some []
all_numbers (part ∷ parts) = elim (parse_u64 part) [
  | none ↦ none
  | some n ↦ map_option (λ rest. n ∷ rest) (all_numbers parts)
]

-- `parse` within `is_newer_version`
unfoldable pub parse_version : Text → Option (List ℕ)
unfolding trim_v all_numbers
parse_version value =
    let bare = trim_v value in all_numbers (split b'.' (stable_part bare (split_once b'-' bare)))

-- The order of `Vec<u64>`.
unfoldable pub is_greater : List ℕ → List ℕ → Bool
is_greater [] current = false
is_greater (a ∷ candidate) [] = true
is_greater (a ∷ candidate) (b ∷ current) = ltb b a || (a == b && is_greater candidate current)

abbrev greater_if_both : Option (List ℕ) → Option (List ℕ) → Bool
greater_if_both (some candidate) (some current) = is_greater candidate current
greater_if_both _ _ = false

unfoldable pub is_newer_version : Text → Text → Bool
unfolding parse_version is_greater
is_newer_version candidate current =
    greater_if_both (parse_version candidate) (parse_version current)
