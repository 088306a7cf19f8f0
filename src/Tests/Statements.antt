-- ===== src/Tests/Statements.antt =====
-- A statement that hides a setting behind dashes in a string literal.
use draco.Base.{ℕ, ◌≡◌, refl, Bool, false, ◌||◌, ◌∷◌, ◌++◌, map}
use draco.Text.{Text, codes, text_eq, is_ascii_digit, is_ascii_lowercase, to_ascii_lowercase}
use draco.ReadOnly.{without_comments, ends_with, words_from, has_read_write, reenables_writes}

abbrev ascii_alphanumeric : ℕ → Bool
ascii_alphanumeric c = is_ascii_lowercase (to_ascii_lowercase c) || is_ascii_digit c

abbrev ascii_lowercase : Text → Text
ascii_lowercase s = map to_ascii_lowercase s

abbrev a_start : Text
a_start = codes "SELECT '"

abbrev a_tail : Text
a_tail = codes "', set_config('transaction_read_only', 'off', false)"

-- The guard lets the whole statement pass.
hidden_setting :
    reenables_writes ascii_alphanumeric ascii_lowercase (a_start ++ (b'-' ∷ b'-' ∷ a_tail)) ≡ false
unfolding reenables_writes words_from has_read_write without_comments ends_with text_eq
    is_ascii_lowercase is_ascii_digit to_ascii_lowercase
hidden_setting = refl
