-- ===== src/Notifications.antt =====
-- `format_duration` of draco-app/src/notifications.rs, of whole seconds.
use draco.Base.{leb, if◌then◌else◌, ℕ, zero, suc, ◌/◌, ◌%◌, ◌++◌}
use draco.Text.{Text, codes}
use draco.Text.Decimal.{decimal}

abbrev with_rest : Text → ℕ → Text → Text
with_rest front zero unit_name = front
with_rest front (suc n) unit_name = front ++ codes " " ++ decimal (suc n) ++ unit_name

unfoldable pub format_duration : ℕ → Text
format_duration seconds =
    if leb seconds 119
    then decimal seconds ++ codes " s"
    else if leb seconds 7199
    then with_rest (decimal (seconds / 60) ++ codes " min") (seconds % 60) (codes " s")
    else with_rest (decimal (seconds / 3600) ++ codes " h") ((seconds / 60) % 60) (codes " min")
