-- ===== src/Store/Usage.antt =====
-- draco-core/src/store.rs: the daily counter of messages to the assistant.
use draco.Base.{ltb, leb, ◌==◌, if◌then◌else◌, Result, err, ok, ℕ, zero, suc, ◌+◌, ◌++◌}
use draco.Text.{Text, codes}
use draco.Text.Decimal.{decimal}
use draco.Error.{CoreError, other}
use draco.Store.{Disk, Outcome, FileSystem, Codec, read_toml, write_toml, returning}

pub record AiUsage : Type 0 where
  pub day : ℕ
  pub count : ℕ

abbrev pub ai_usage_file : Text
ai_usage_file = codes "ai-usage.toml"

-- `limit.max(1)`
abbrev pub at_least_one : ℕ → ℕ
at_least_one limit = if ltb limit 1 then 1 else limit

-- The counter of the day: it starts again on another day than the one that is stored. The day is
-- read once for the comparison and once for the new counter.
unfoldable pub usage_on : ℕ → ℕ → AiUsage → AiUsage
usage_on today again usage = if usage.day == today then usage else record { day = again; count = 0 }

module _ (fs : FileSystem) (codec : Codec AiUsage) where
  unfoldable pub consume_ai_usage : ℕ → ℕ → ℕ → Disk → Outcome ℕ
  consume_ai_usage today again limit disk =
      let usage = usage_on today again (read_toml codec ai_usage_file disk) in
      let count = usage.count + 1 in
      if leb (at_least_one limit) usage.count
      then (
        disk,
        err (
            other (
              codes "Limite diário de "
              ++ (decimal limit ++ codes " mensagens do Assistente de IA atingido."))),
      )
      else returning count (write_toml fs codec ai_usage_file (record usage { count = count }) disk)

abbrev pub min : ℕ → ℕ → ℕ
min a b = if leb a b then a else b

counted : Result CoreError ℕ → ℕ → ℕ
counted (ok _) later = later + 1
counted (err _) later = later

-- Messages on one day: how many of `n` calls were let through.
pub attempts : FileSystem → Codec AiUsage → ℕ → ℕ → ℕ → Disk → ℕ
attempts fs codec day limit zero disk = 0
attempts fs codec day limit (suc n) disk =
    let (disk', answer) = consume_ai_usage fs codec day day limit disk in
    let later = attempts fs codec day limit n disk' in counted answer later

-- The messages of the day that the code reads from a disk.
used : Codec AiUsage → ℕ → Disk → ℕ
used codec day disk = (usage_on day day (read_toml codec ai_usage_file disk)).count

-- The messages that a disk has counted on the day: none where it holds the count of another day.
unfoldable pub sent_on : Codec AiUsage → ℕ → Disk → ℕ
sent_on codec day disk =
    let stored = read_toml codec ai_usage_file disk in if stored.day == day then stored.count else 0

-- The messages that a limit allows: a limit of zero still allows one.
abbrev pub allowance : ℕ → ℕ
allowance zero = 1
allowance (suc n) = suc n
