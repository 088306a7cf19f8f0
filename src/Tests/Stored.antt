-- ===== src/Tests/Stored.antt =====
-- The store on a file system that works, with an encoding of the values that occur.
use native.Mathlib.Decide.{ℕ_discrete}
use draco.Base.{ok, ◌≡◌, refl, sym, ap, Option, none, some, List, [], ◌∷◌}
use draco.Text.{Text, codes, text_eq}
use draco.Text.Assoc.{HashMap}
use draco.Connection.{DbConnection, default_connection}
use draco.Store.{
  Disk, written, Outcome, FileSystem, Codec, read_toml, write_toml, returning, connections_file,
  history_file, HistoryEntry, Snippet, identified, save_connection, delete_connection, add_history,
}
use draco.Store.Settings.{
  AppSettings, default_settings, GithubSettings, AiSettings, default_ai_settings, AiMessage,
}
use draco.Store.Usage.{AiUsage, ai_usage_file}
use draco.Store.Refined.{
  Codecs, Call, save_conn, delete_conn, record_query, perform, run, replay, view, run-replay,
}

abbrev working : FileSystem
working = record {
  write = λ path raw disk. (written path raw disk, ok tt);
  write_ok = λ path raw disk disk' h. sym (ap (λ (o : Outcome (Unit {0})). o.0) h);
}

abbrev empty_disk : Disk
empty_disk path = none

-- The two numbers of a counter, one after the other.
abbrev usage_text : AiUsage → Option Text
usage_text u = some (u.day ∷ u.count ∷ [])

abbrev read_usage : Text → Option AiUsage
read_usage (day ∷ count ∷ []) = some (record { day = day; count = count })
read_usage _ = none

read-usage_text : (u : AiUsage) (raw : Text) → usage_text u ≡ some raw → read_usage raw ≡ some u
read-usage_text u raw h = let same : u.day ∷ u.count ∷ [] ≡ raw = cc (h) in rw (← same) refl

abbrev usage_codec : Codec AiUsage
usage_codec = record {
  default = record { day = 0; count = 0 };
  to_toml = usage_text;
  from_toml = read_usage;
  from_to = λ a raw h. read-usage_text a raw h;
}

-- An encoding of one value besides the default, by a text for each.
module _ {A : Type 0} (same : Discrete A) (normal value : A) where
  print_known : A → Option Text
  print_known a = elim (same a normal) [
    | yes _ ↦ some []
    | no _ ↦ elim (same a value) [ yes _ ↦ some (1 ∷ []) | no _ ↦ none ]
  ]

  read_known : Text → Option A
  read_known [] = some normal
  read_known (_ ∷ _) = some value

  printed_normal : (a : A) (raw : Text) → a ≡ normal → some [] ≡ some raw → read_known raw ≡ some a
  unfolding read_known
  printed_normal a raw e h = let r : [] ≡ raw = cc (h) in rw (← r) (ap some (sym e))

  printed_value :
      (a : A) (raw : Text) → a ≡ value → some (1 ∷ []) ≡ some raw → read_known raw ≡ some a
  unfolding read_known
  printed_value a raw e h = let r : 1 ∷ [] ≡ raw = cc (h) in rw (← r) (ap some (sym e))

  read-print_known : (a : A) (raw : Text) → print_known a ≡ some raw → read_known raw ≡ some a
  unfolding print_known
  read-print_known a raw =
      elim (same a normal)
        as (λ d.
          (elim d as (λ _. Option Text) [
            | yes _ ↦ some []
            | no _ ↦ elim (same a value) as (λ _. Option Text) [
              | yes _ ↦ some (1 ∷ [])
              | no _ ↦ none
            ]
          ])
            ≡ some raw
          → read_known raw ≡ some a) [
            | yes e ↦ printed_normal a raw e
            | no _ ↦
                elim (same a value)
                  as (λ d.
                    (elim d as (λ _. Option Text) [ yes _ ↦ some (1 ∷ []) | no _ ↦ none ])
                      ≡ some raw
                    → read_known raw ≡ some a) [
                      | yes e ↦ printed_value a raw e
                      | no _ ↦ λ h. cc (h)
                    ]
          ]

connection_list-discrete : Discrete (List DbConnection)
connection_list-discrete = hlevel (ℕ_discrete)

history_list-discrete : Discrete (List HistoryEntry)
history_list-discrete = hlevel (ℕ_discrete)

snippet_list-discrete : Discrete (List Snippet)
snippet_list-discrete = hlevel (ℕ_discrete)

settings-discrete : Discrete AppSettings
settings-discrete = hlevel (ℕ_discrete)

github-discrete : Discrete GithubSettings
github-discrete = hlevel (ℕ_discrete)

ai_settings-discrete : Discrete AiSettings
ai_settings-discrete = hlevel (ℕ_discrete)

chats-discrete : Discrete (HashMap (List AiMessage))
chats-discrete = hlevel (ℕ_discrete)

abbrev known : {A : Type 0} → Discrete A → A → A → Codec A
known same normal value = record {
  default = normal;
  to_toml = print_known same normal value;
  from_toml = read_known same normal value;
  from_to = read-print_known same normal value;
}

abbrev a_connection : DbConnection
a_connection = record default_connection { id = codes "c1"; label = codes "local" }

abbrev a_query : HistoryEntry
a_query = record {
  id = codes "q1";
  sql = codes "select 1";
  conn_id = codes "c1";
  conn_label = codes "local";
  timestamp = 5;
  duration_ms = 2;
  row_count = 1;
}

abbrev no_github : GithubSettings
no_github = record { owner = []; repository = []; root_path = []; default_branch = [] }

abbrev some_codecs : Codecs
some_codecs = record {
  connections = known connection_list-discrete [] (a_connection ∷ []);
  history = known history_list-discrete [] (a_query ∷ []);
  snippets = known snippet_list-discrete [] [];
  settings = known settings-discrete default_settings default_settings;
  github = known github-discrete no_github no_github;
  ai_settings = known ai_settings-discrete default_ai_settings default_ai_settings;
  ai_history = known chats-discrete [] [];
}

-- A connection is saved with a new identifier, a query is recorded, and another connection is
-- deleted.
abbrev some_calls : List Call
some_calls =
    save_conn (codes "c1") (record default_connection { label = codes "local" })
    ∷ record_query (codes "q1") a_query
    ∷ delete_conn (codes "c2")
    ∷ []

abbrev last_disk : Disk
last_disk =
    written connections_file (1 ∷ [])
      (written history_file (1 ∷ []) (written connections_file (1 ∷ []) empty_disk))

some_calls-run : run working some_codecs some_calls empty_disk ≡ some last_disk
unfolding run perform print_known read_known save_connection add_history delete_connection
    write_toml read_toml returning identified connection_list-discrete history_list-discrete text_eq
    ℕ_discrete
some_calls-run = refl

run-replay_example : view some_codecs last_disk ≡ replay some_calls (view some_codecs empty_disk)
run-replay_example = run-replay working some_codecs some_calls empty_disk last_disk some_calls-run

-- The limit is two messages, and one is already counted on the day.
abbrev one_used : Disk
one_used = written ai_usage_file (20000 ∷ 1 ∷ []) empty_disk
