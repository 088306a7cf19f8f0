-- ===== src/Text/Decimal.antt =====
-- `to_string` of an unsigned number.
use draco.Base.{ltb, if◌then◌else◌, ℕ, zero, suc, ◌+◌, ◌/◌, ◌%◌, ◌≡◌, refl, [], ◌∷◌}
use draco.Text.{Text, codes}

-- The digits of `n` in front of `acc`. One round for each digit, so `n + 1` rounds are enough.
digits_from : ℕ → ℕ → Text → Text
digits_from zero n acc = acc
digits_from (suc fuel) n acc =
    let here = (b'0' + n % 10) ∷ acc in
    let rest = digits_from fuel (n / 10) here in if ltb n 10 then here else rest

unfoldable pub decimal : ℕ → Text
unfolding digits_from
decimal n = digits_from (n + 1) n []

decimal_runs : decimal 65535 ≡ codes "65535"
unfolding decimal
decimal_runs = refl
