-- ===== src/Store/Refined.antt =====
-- The store against an abstract one: a map of the connections by their identifier, two lists,
-- three settings and a map of the conversations, each changed by its own operations alone.
use mathlib.Core.Path.{fun_ext}
use draco.Base.{
  if◌then◌else◌, Bool-cases, Option-cases, unwrap_or, take, is_empty, retain, find, err, ok, ℕ, ◌≡◌,
  refl, sym, ap, ◌∙◌, ◌≢◌, inl, inr, true, false, not, Option, none, some, List, [], ◌∷◌, arith,
}
use draco.Text.{Text, text_eq, text_eq_iff}
use draco.Text.Assoc.{HashMap, get, remove, insert, get-remove, get-insert}
use draco.Connection.{DbConnection}
use draco.Store.{
  Disk, written, Outcome, FileSystem, Codec, read_toml, write_toml, returning, connections_file,
  history_file, snippets_file, HistoryEntry, Snippet, identified, has_conn_id, replace_or_push,
  rename_first, list_connections, get_connection, save_connection, delete_connection, list_history,
  add_history, delete_history_entry, clear_history, list_snippets, save_snippet, delete_snippet,
  rename_snippet,
}
use draco.Store.Settings.{
  AppSettings, settings_file, get_settings, patch_settings, GithubSettings, github_settings_file,
  get_github_settings, save_github_settings, AiSettings, ai_settings_file, get_ai_settings,
  save_ai_settings, AiMessage, ai_history_file, get_ai_history, save_ai_history, clear_ai_history,
}
use draco.Store.Written.{write_toml-ok, read-written_self}

-- The codecs of the seven files.
pub record Codecs : Type 0 where
  pub connections : Codec (List DbConnection)
  pub history : Codec (List HistoryEntry)
  pub snippets : Codec (List Snippet)
  pub settings : Codec AppSettings
  pub github : Codec GithubSettings
  pub ai_settings : Codec AiSettings
  pub ai_history : Codec (HashMap (List AiMessage))

-- A call of one of the store's operations, with the identifier or the time that it is given.
pub data Call : Type 0 where
  save_conn : Text → DbConnection → Call
  delete_conn : Text → Call
  record_query : Text → HistoryEntry → Call
  forget_query : Text → Call
  forget_queries : Call
  keep_snippet : Text → ℕ → Snippet → Call
  drop_snippet : Text → Call
  name_snippet : Text → Text → Call
  patch : (AppSettings → AppSettings) → Call
  set_github : GithubSettings → Call
  set_ai : AiSettings → Call
  save_chat : Text → List AiMessage → Call
  clear_chat : Text → Call

-- What an outcome leaves: the disk, or nothing where the operation reported an error.
abbrev pub settled : {A : Type 0} → Outcome A → Option Disk
settled (disk, ok _) = some disk
settled (disk, err _) = none

unfoldable pub perform : FileSystem → Codecs → Call → Disk → Option Disk
perform fs c (save_conn fresh conn) d = settled (save_connection fs c.connections fresh conn d)
perform fs c (delete_conn id) d = settled (delete_connection fs c.connections id d)
perform fs c (record_query fresh e) d = settled (add_history fs c.history fresh e d)
perform fs c (forget_query id) d = settled (delete_history_entry fs c.history id d)
perform fs c forget_queries d = settled (clear_history fs c.history d)
perform fs c (keep_snippet fresh now s) d = settled (save_snippet fs c.snippets fresh now s d)
perform fs c (drop_snippet id) d = settled (delete_snippet fs c.snippets id d)
perform fs c (name_snippet id name) d = settled (rename_snippet fs c.snippets id name d)
perform fs c (patch f) d = settled (patch_settings fs c.settings f d)
perform fs c (set_github s) d = settled (save_github_settings fs c.github s d)
perform fs c (set_ai s) d = settled (save_ai_settings fs c.ai_settings s d)
perform fs c (save_chat id messages) d = settled (save_ai_history fs c.ai_history id messages d)
perform fs c (clear_chat id) d = settled (clear_ai_history fs c.ai_history id d)

unfoldable pub run : FileSystem → Codecs → List Call → Disk → Option Disk
run fs c [] d = some d
run fs c (call ∷ calls) d = elim (perform fs c call d) [ none ↦ none | some d' ↦ run fs c calls d' ]

-- The abstract store.
pub record Abstract : Type 0 where
  pub connections : Text → Option DbConnection
  pub history : List HistoryEntry
  pub snippets : List Snippet
  pub settings : AppSettings
  pub github : GithubSettings
  pub ai_settings : AiSettings
  pub chats : Text → List AiMessage

abbrev pub put {ℓ} : {V : Type ℓ} → Text → V → (Text → V) → Text → V
put k v f j = if text_eq k j then v else f j

-- The first snippet with the identifier gets the name.
renamed : Text → Text → List Snippet → List Snippet
renamed id name [] = []
renamed id name (s ∷ rest) = elim (text_eq s.id id) [
  | true ↦ record s { name = name } ∷ rest
  | false ↦ s ∷ renamed id name rest
]

pub specified : Call → Abstract → Abstract
specified (save_conn fresh conn) a =
    let saved = if is_empty conn.id then record conn { id = fresh } else conn in
    record a { connections = put saved.id (some saved) a.connections }
specified (delete_conn id) a = record a { connections = put id none a.connections }
specified (record_query fresh e) a = record a {
  history = take 50 (record e { id = fresh } ∷ a.history);
}
specified (forget_query id) a = record a {
  history = retain (λ (e : HistoryEntry). not (text_eq e.id id)) a.history;
}
specified forget_queries a = record a { history = [] }
specified (keep_snippet fresh now s) a = record a {
  snippets = record s { id = fresh; created_at = now } ∷ a.snippets;
}
specified (drop_snippet id) a = record a {
  snippets = retain (λ (s : Snippet). not (text_eq s.id id)) a.snippets;
}
specified (name_snippet id name) a = record a { snippets = renamed id name a.snippets }
specified (patch f) a = record a { settings = f a.settings }
specified (set_github s) a = record a { github = s }
specified (set_ai s) a = record a { ai_settings = s }
specified (save_chat id messages) a = record a { chats = put id messages a.chats }
specified (clear_chat id) a = record a { chats = put id [] a.chats }

pub replay : List Call → Abstract → Abstract
replay [] a = a
replay (call ∷ calls) a = replay calls (specified call a)

-- What the reading operations show of a disk.
pub view : Codecs → Disk → Abstract
unfolding get_connection list_connections list_history list_snippets get_settings
    get_github_settings get_ai_settings get_ai_history read_toml text_eq
view c d = record {
  connections = λ id. get_connection c.connections id d;
  history = list_history c.history d;
  snippets = list_snippets c.snippets d;
  settings = get_settings c.settings d;
  github = get_github_settings c.github d;
  ai_settings = get_ai_settings c.ai_settings d;
  chats = λ id. get_ai_history c.ai_history id d;
}

find-replace_or_push :
    (conn : DbConnection) (cs : List DbConnection) (id : Text)
    → find (has_conn_id id) (replace_or_push conn cs)
      ≡ put conn.id (some conn) (λ j. find (has_conn_id j) cs) id
unfolding replace_or_push
find-replace_or_push conn [] id = ground arith
find-replace_or_push conn (c ∷ cs) id = ground (
  arith,
  text_eq_iff c.id conn.id,
  text_eq_iff c.id id,
  text_eq_iff conn.id id,
  find-replace_or_push conn cs id,
)

find-retain :
    (gone : Text) (cs : List DbConnection) (id : Text)
    → find (has_conn_id id) (retain (λ c. not (has_conn_id gone c)) cs)
      ≡ put gone none (λ j. find (has_conn_id j) cs) id
find-retain gone [] id = ground arith
find-retain gone (c ∷ cs) id =
    ground (
      arith,
      text_eq_iff c.id gone,
      text_eq_iff c.id id,
      text_eq_iff gone id,
      find-retain gone cs id,
    )

-- A write that is settled succeeded.
settled-ok : (o : Outcome (Unit {0})) (d' : Disk) → settled o ≡ some d' → o ≡ (d', ok tt)
settled-ok (d, ok tt) d' h = ground arith
settled-ok (d, err e) d' h = cc

settled-returning :
    {A : Type 0} (value : A) (o : Outcome (Unit {0})) (d' : Disk)
    → settled (returning value o) ≡ some d'
    → settled o ≡ some d'
unfolding returning
settled-returning value (d, ok tt) d' h = h
settled-returning value (d, err e) d' h = h

module _ (fs : FileSystem) (c : Codecs) (d d' : Disk) where
  -- The disk after a settled write, and what the written file then holds.
  settled_write :
      {A : Type 0} (codec : Codec A) (file : Text) (a : A)
      → settled (write_toml fs codec file a d) ≡ some d'
      → (raw : Text) × (d' ≡ written file raw d) × (read_toml codec file (written file raw d) ≡ a)
  settled_write codec file a h =
      let (raw, printed, same) = write_toml-ok fs codec file a d d' (settled-ok _ d' h) in
      (raw, same, read-written_self fs codec file a raw d printed)

  view_connections :
      (a : List DbConnection)
      → settled (write_toml fs c.connections connections_file a d) ≡ some d'
      → view c d'
        ≡ (let new = a in record (view c d) { connections = λ id. find (has_conn_id id) new })
  unfolding view
  view_connections a h =
      let (raw, same, holds) = settled_write c.connections connections_file a h in
      rw same (
        ap
          (λ (new : List DbConnection). record (view c d) {
            connections = λ id. find (has_conn_id id) new;
          })
          holds)

  view_history :
      (a : List HistoryEntry)
      → settled (write_toml fs c.history history_file a d) ≡ some d'
      → view c d' ≡ (let new = a in record (view c d) { history = new })
  unfolding view
  view_history a h =
      let (raw, same, holds) = settled_write c.history history_file a h in
      rw same (ap (λ (new : List HistoryEntry). record (view c d) { history = new }) holds)

  view_snippets :
      (a : List Snippet)
      → settled (write_toml fs c.snippets snippets_file a d) ≡ some d'
      → view c d' ≡ (let new = a in record (view c d) { snippets = new })
  unfolding view
  view_snippets a h =
      let (raw, same, holds) = settled_write c.snippets snippets_file a h in
      rw same (ap (λ (new : List Snippet). record (view c d) { snippets = new }) holds)

  view_settings :
      (a : AppSettings)
      → settled (write_toml fs c.settings settings_file a d) ≡ some d'
      → view c d' ≡ (let new = a in record (view c d) { settings = new })
  unfolding view
  view_settings a h =
      let (raw, same, holds) = settled_write c.settings settings_file a h in
      rw same (ap (λ (new : AppSettings). record (view c d) { settings = new }) holds)

  view_github :
      (a : GithubSettings)
      → settled (write_toml fs c.github github_settings_file a d) ≡ some d'
      → view c d' ≡ (let new = a in record (view c d) { github = new })
  unfolding view
  view_github a h =
      let (raw, same, holds) = settled_write c.github github_settings_file a h in
      rw same (ap (λ (new : GithubSettings). record (view c d) { github = new }) holds)

  view_ai_settings :
      (a : AiSettings)
      → settled (write_toml fs c.ai_settings ai_settings_file a d) ≡ some d'
      → view c d' ≡ (let new = a in record (view c d) { ai_settings = new })
  unfolding view
  view_ai_settings a h =
      let (raw, same, holds) = settled_write c.ai_settings ai_settings_file a h in
      rw same (ap (λ (new : AiSettings). record (view c d) { ai_settings = new }) holds)

  view_ai_history :
      (a : HashMap (List AiMessage))
      → settled (write_toml fs c.ai_history ai_history_file a d) ≡ some d'
      → view c d' ≡ (let new = a in record (view c d) { chats = λ id. unwrap_or (get id new) [] })
  unfolding view
  view_ai_history a h =
      let (raw, same, holds) = settled_write c.ai_history ai_history_file a h in
      rw same (
        ap
          (λ (new : HashMap (List AiMessage)). record (view c d) {
            chats = λ id. unwrap_or (get id new) [];
          })
          holds)

perform_connections :
    (fs : FileSystem) (c : Codecs) (d d' : Disk) (cs : List DbConnection)
    (m : Text → Option DbConnection)
    → ((id : Text) → find (has_conn_id id) cs ≡ m id)
    → settled (write_toml fs c.connections connections_file cs d) ≡ some d'
    → view c d' ≡ record (view c d) { connections = m }
perform_connections fs c d d' cs m agrees h =
    view_connections fs c d d' cs h
    ∙ ap (λ f. record (view c d) { connections = f }) (fun_ext agrees)

perform_chats :
    (fs : FileSystem) (c : Codecs) (d d' : Disk) (chats : HashMap (List AiMessage))
    (m : Text → List AiMessage)
    → ((id : Text) → unwrap_or (get id chats) [] ≡ m id)
    → settled (write_toml fs c.ai_history ai_history_file chats d) ≡ some d'
    → view c d' ≡ record (view c d) { chats = m }
perform_chats fs c d d' chats m agrees h =
    view_ai_history fs c d d' chats h ∙ ap (λ f. record (view c d) { chats = f }) (fun_ext agrees)

chat-insert :
    (id : Text) (messages : List AiMessage) (chats : HashMap (List AiMessage)) (j : Text)
    → unwrap_or (get j (insert id messages chats)) []
      ≡ put id messages (λ k. unwrap_or (get k chats) []) j
chat-insert id messages chats j = ground (arith, get-insert id j messages chats)

chat-remove :
    (id : Text) (chats : HashMap (List AiMessage)) (j : Text)
    → unwrap_or (get j (remove id chats)) [] ≡ put id [] (λ k. unwrap_or (get k chats) []) j
chat-remove id chats j = ground (arith, get-remove id j chats)

rename_first-renamed :
    (id name : Text) (ss : List Snippet) → rename_first id name ss ≡ renamed id name ss
unfolding rename_first renamed
rename_first-renamed id name [] = refl
rename_first-renamed id name (s ∷ rest) = elim (Bool-cases (text_eq s.id id)) [
  | inl here ↦ rw (here, renamed) refl
  | inr later ↦ rw (later, renamed) (ap (λ others. s ∷ others) (rename_first-renamed id name rest))
]

-- One call that succeeds changes what is read as the specification says, and nothing else.
perform-specified :
    (fs : FileSystem) (c : Codecs) (call : Call) (d d' : Disk)
    → perform fs c call d ≡ some d'
    → view c d' ≡ specified call (view c d)
unfolding perform specified view identified save_connection delete_connection add_history
    delete_history_entry clear_history save_snippet delete_snippet rename_snippet patch_settings
    save_github_settings save_ai_settings save_ai_history clear_ai_history
perform-specified fs c (save_conn fresh conn) d d' h =
    perform_connections fs c d d' _ _
      (find-replace_or_push (identified fresh conn) (list_connections c.connections d))
      (settled-returning _ _ d' h)
perform-specified fs c (delete_conn id) d d' h =
    perform_connections fs c d d' _ _ (find-retain id (list_connections c.connections d)) h
perform-specified fs c (record_query fresh e) d d' h = view_history fs c d d' _ h
perform-specified fs c (forget_query id) d d' h = view_history fs c d d' _ h
perform-specified fs c forget_queries d d' h = view_history fs c d d' _ h
perform-specified fs c (keep_snippet fresh now s) d d' h =
    view_snippets fs c d d' _ (settled-returning _ _ d' h)
perform-specified fs c (drop_snippet id) d d' h = view_snippets fs c d d' _ h
perform-specified fs c (name_snippet id name) d d' h =
    view_snippets fs c d d' _ h
    ∙ ap (λ (new : List Snippet). record (view c d) { snippets = new })
        (rename_first-renamed id name (list_snippets c.snippets d))
perform-specified fs c (patch f) d d' h = view_settings fs c d d' _ (settled-returning _ _ d' h)
perform-specified fs c (set_github s) d d' h = view_github fs c d d' s h
perform-specified fs c (set_ai s) d d' h = view_ai_settings fs c d d' s h
perform-specified fs c (save_chat id messages) d d' h =
    perform_chats fs c d d' _ _ (chat-insert id messages (read_toml c.ai_history ai_history_file d))
      h
perform-specified fs c (clear_chat id) d d' h =
    perform_chats fs c d d' _ _ (chat-remove id (read_toml c.ai_history ai_history_file d)) h

run-step :
    (fs : FileSystem) (c : Codecs) (call : Call) (calls : List Call) (d after : Disk)
    → perform fs c call d ≡ some after
    → run fs c (call ∷ calls) d ≡ run fs c calls after
unfolding run
run-step fs c call calls d after done = rw (done, run) refl

no_run :
    (fs : FileSystem) (c : Codecs) (call : Call) (calls : List Call) (d d' : Disk)
    → perform fs c call d ≡ none
    → run fs c (call ∷ calls) d ≢ some d'
unfolding run
no_run fs c call calls d d' failed h = ground (arith, failed)

-- After any sequence of the store's calls that all succeed, the reading operations show what the
-- abstract store shows after the same calls: each connection as it was last saved, unless it was
-- deleted since, the last fifty queries, the snippets, the settings and each conversation; and a
-- call changes no part of it but its own.
pub run-replay :
    (fs : FileSystem) (c : Codecs) (calls : List Call) (d d' : Disk)
    → run fs c calls d ≡ some d'
    → view c d' ≡ replay calls (view c d)
unfolding run replay
run-replay fs c [] d d' h = cc
run-replay fs c (call ∷ calls) d d' h = elim (Option-cases (perform fs c call d)) [
  | inl failed ↦ absurd (no_run fs c call calls d d' failed h)
  | inr (after, done) ↦
      run-replay fs c calls after d' (sym (run-step fs c call calls d after done) ∙ h)
      ∙ ap (replay calls) (perform-specified fs c call d after done)
]
