-- ===== src/Store/Settings.antt =====
-- draco-core/src/store.rs: the settings of the application, of the GitHub integration and of the
-- assistant, and the conversations with the assistant.
use draco.Base.{
  if◌then◌else◌, unwrap_or, get_elem?, ℕ, ◌+◌, String, Bool, true, false, Option, none, some, List,
  [], ◌∷◌,
}
use draco.Text.{Text, codes}
use draco.Text.Assoc.{HashMap, get, remove, insert}
use draco.Store.{Disk, Outcome, FileSystem, Codec, read_toml, write_toml, returning}

pub data AppTheme : Type 0 where
  dark : AppTheme
  light : AppTheme

pub data AccentColor : Type 0 where
  coral : AccentColor
  blue : AccentColor
  green : AccentColor
  purple : AccentColor
  amber : AccentColor

pub record AppSettings : Type 0 where
  pub query_timeout : ℕ
  pub preview_row_limit : ℕ
  pub show_row_count : Bool
  pub theme : AppTheme
  pub accent : AccentColor
  pub check_updates_on_startup : Bool
  pub programming_workspace : Option Text
  pub notify_long_operations : Bool

-- `AppSettings::default`
abbrev pub default_settings : AppSettings
default_settings = record {
  query_timeout = 30000;
  preview_row_limit = 100;
  show_row_count = false;
  theme = dark;
  accent = coral;
  check_updates_on_startup = true;
  programming_workspace = none;
  notify_long_operations = true;
}

abbrev pub settings_file : Text
settings_file = codes "settings.toml"

-- `get_settings` and `patch_settings`; the codec's default is `default_settings`.
unfoldable pub get_settings : Codec AppSettings → Disk → AppSettings
get_settings codec disk = read_toml codec settings_file disk

module _ (fs : FileSystem) (codec : Codec AppSettings) where
  unfoldable pub patch_settings : (AppSettings → AppSettings) → Disk → Outcome AppSettings
  unfolding get_settings
  patch_settings f disk =
      let settings = f (get_settings codec disk) in
      returning settings (write_toml fs codec settings_file settings disk)

pub record GithubSettings : Type 0 where
  pub owner : Text
  pub repository : Text
  pub root_path : Text
  pub default_branch : Text

abbrev pub github_settings_file : Text
github_settings_file = codes "github-settings.toml"

unfoldable pub get_github_settings : Codec GithubSettings → Disk → GithubSettings
get_github_settings codec disk = read_toml codec github_settings_file disk

unfoldable pub save_github_settings :
    FileSystem → Codec GithubSettings → GithubSettings → Disk → Outcome (Unit {0})
save_github_settings fs codec settings disk = write_toml fs codec github_settings_file settings disk

pub data AiProvider : Type 0 where
  anthropic : AiProvider
  open_ai : AiProvider
  gemini : AiProvider
  open_ai_compatible : AiProvider

-- `AiProvider::ALL`
abbrev pub all_providers : List AiProvider
all_providers = anthropic ∷ open_ai ∷ gemini ∷ open_ai_compatible ∷ []

-- `AiProvider::id`
unfoldable pub provider_id : AiProvider → String
provider_id anthropic = "anthropic"
provider_id open_ai = "openai"
provider_id gemini = "gemini"
provider_id open_ai_compatible = "openai_compatible"

-- `AiProvider::label`
unfoldable pub provider_label : AiProvider → String
provider_label anthropic = "Anthropic"
provider_label open_ai = "OpenAI"
provider_label gemini = "Gemini"
provider_label open_ai_compatible = "OpenAI-compatible"

-- `AiProvider::default_model`
unfoldable pub default_model : AiProvider → String
default_model anthropic = "claude-haiku-4-5"
default_model open_ai = "gpt-4.1-mini"
default_model gemini = "gemini-2.5-flash"
default_model open_ai_compatible = "llama3.1"

-- `AiProvider::from_index`
unfoldable pub from_index : ℕ → AiProvider
from_index index = unwrap_or (get_elem? all_providers index) anthropic

abbrev provider_eq : AiProvider → AiProvider → Bool
provider_eq anthropic anthropic = true
provider_eq open_ai open_ai = true
provider_eq gemini gemini = true
provider_eq open_ai_compatible open_ai_compatible = true
provider_eq _ _ = false

position_from : ℕ → AiProvider → List AiProvider → Option ℕ
position_from at p [] = none
position_from at p (q ∷ rest) =
    let later = position_from (at + 1) p rest in if provider_eq q p then some at else later

-- `AiProvider::index`
unfoldable pub index : AiProvider → ℕ
unfolding position_from
index p = unwrap_or (position_from 0 p all_providers) 0

pub record AiSettings : Type 0 where
  pub provider : AiProvider
  pub anthropic_model : Text
  pub openai_model : Text
  pub gemini_model : Text
  pub openai_compatible_model : Text
  pub openai_compatible_base_url : Text
  pub max_messages_per_day : ℕ
  pub max_rounds_per_message : ℕ

-- `AiSettings::default`
unfoldable pub default_ai_settings : AiSettings
unfolding default_model
default_ai_settings = record {
  provider = anthropic;
  anthropic_model = codes (default_model anthropic);
  openai_model = codes (default_model open_ai);
  gemini_model = codes (default_model gemini);
  openai_compatible_model = codes (default_model open_ai_compatible);
  openai_compatible_base_url = codes "http://localhost:11434/v1";
  max_messages_per_day = 200;
  max_rounds_per_message = 8;
}

model_of : AiProvider → AiSettings → Text
model_of anthropic s = s.anthropic_model
model_of open_ai s = s.openai_model
model_of gemini s = s.gemini_model
model_of open_ai_compatible s = s.openai_compatible_model

-- `AiSettings::model`
unfoldable pub model : AiSettings → Text
unfolding model_of
model s = model_of s.provider s

with_model : AiProvider → Text → AiSettings → AiSettings
with_model anthropic value s = record s { anthropic_model = value }
with_model open_ai value s = record s { openai_model = value }
with_model gemini value s = record s { gemini_model = value }
with_model open_ai_compatible value s = record s { openai_compatible_model = value }

-- `AiSettings::set_model`
unfoldable pub set_model : Text → AiSettings → AiSettings
unfolding with_model
set_model value s = with_model s.provider value s

abbrev pub ai_settings_file : Text
ai_settings_file = codes "ai-settings.toml"

unfoldable pub get_ai_settings : Codec AiSettings → Disk → AiSettings
get_ai_settings codec disk = read_toml codec ai_settings_file disk

unfoldable pub save_ai_settings :
    FileSystem → Codec AiSettings → AiSettings → Disk → Outcome (Unit {0})
save_ai_settings fs codec settings disk = write_toml fs codec ai_settings_file settings disk

pub data AiRole : Type 0 where
  user : AiRole
  assistant : AiRole

pub record AiMessage : Type 0 where
  pub role : AiRole
  pub content : Text
  pub tool_label : Option Text

abbrev pub ai_history_file : Text
ai_history_file = codes "ai-history.toml"

unfoldable pub get_ai_history : Codec (HashMap (List AiMessage)) → Text → Disk → List AiMessage
get_ai_history codec conn_id disk =
    unwrap_or (get conn_id (read_toml codec ai_history_file disk)) []

module _ (fs : FileSystem) (codec : Codec (HashMap (List AiMessage))) where
  unfoldable pub save_ai_history : Text → List AiMessage → Disk → Outcome (Unit {0})
  save_ai_history conn_id messages disk =
      let conversations = read_toml codec ai_history_file disk in
      write_toml fs codec ai_history_file (insert conn_id messages conversations) disk

  unfoldable pub clear_ai_history : Text → Disk → Outcome (Unit {0})
  clear_ai_history conn_id disk =
      let conversations = read_toml codec ai_history_file disk in
      write_toml fs codec ai_history_file (remove conn_id conversations) disk
