-- ===== src/Settings/Draft.antt =====
-- `ConfigEditorCard` against the draft and the file of the server, as `GetConfigYAML`,
-- `UpdateConfigYAML` and `DeleteConfigYAML` of internal/handler/settings.go serve them.
use mihomo_cp.Prelude.{
  Bool, true, false, ◌≡◌, refl, ap, List, [], ◌∷◌, Option, none, some, if◌then◌else◌,
}
use mihomo_cp.Js.Text.{Text, is_empty}
use mihomo_cp.Settings.{
  Outcome, done, failed, Toast, config_load_failed, config_saved, config_save_failed,
  config_draft_cleared, config_clear_failed,
}

pub data Source : Type 0 where
  file draft : Source

-- The raw draft, empty where there is none, and the configuration file, where it can be read.
pub record Server : Type 0 where
  pub raw_config_draft : Text
  pub config_file : Option Text

pub record Config : Type 0 where
  pub content : Text
  pub source : Source

-- The answer from the file, where it can be read.
abbrev pub file_answer : Option Text → Outcome Config
file_answer none = failed
file_answer (some text) = done (record { content = text; source = file })

-- `h.settings` answers in all three; a request may still get lost on the way.
unfoldable pub get_config_yaml : Server → Outcome Config
get_config_yaml s =
    if is_empty s.raw_config_draft
    then file_answer s.config_file
    else done (record { content = s.raw_config_draft; source = draft })

unfoldable pub update_config_yaml : Text → Server → Server × Outcome Unit
update_config_yaml content s =
    if is_empty content then (s, failed) else (record s { raw_config_draft = content }, done tt)

unfoldable pub delete_config_yaml : Server → Server × Outcome Unit
delete_config_yaml s = (record s { raw_config_draft = [] }, done tt)

pub record Editor : Type 0 where
  pub content : Text
  pub source : Source
  pub loading : Bool
  pub saving : Bool
  pub clearing : Bool

abbrev pub first_editor : Editor
first_editor = record {
  content = [];
  source = file;
  loading = true;
  saving = false;
  clearing = false;
}

-- Whether a request reaches the server and its answer comes back. Where only the answer is lost, the
-- server has acted, and the page sees a failure all the same.
pub data Fate : Type 0 where
  reaches lost answer_lost : Fate

abbrev pub answer : {A : Type 0} → Fate → Outcome A → Outcome A
answer reaches o = o
answer _ o = failed

abbrev pub after_fate : Fate → Server × Outcome Unit → Server → Server × Outcome Unit
after_fate reaches r s = r
after_fate lost r s = (s, failed)
after_fate answer_lost r s = (r.0, failed)

-- `fetchConfig` with its answer.
unfoldable pub fetch_config : Outcome Config → Editor → Editor × List Toast
fetch_config (done c) e = (record e { content = c.content; source = c.source; loading = false }, [])
fetch_config failed e = (record e { loading = false }, config_load_failed ∷ [])

-- `handleSaveDraft` with its answer.
unfoldable pub save_draft : Outcome Unit → Editor → Editor × List Toast
save_draft (done _) e = (record e { source = draft; saving = false }, config_saved ∷ [])
save_draft failed e = (record e { saving = false }, config_save_failed ∷ [])

-- `handleClearDraft` with the answer to its first request and that to the fetch behind it.
unfoldable pub clear_draft : Outcome Unit → Outcome Config → Editor → Editor × List Toast
unfolding fetch_config
clear_draft (done _) fetched e =
    let (next, toasts) = fetch_config fetched e in
    (record next { clearing = false }, config_draft_cleared ∷ toasts)
clear_draft failed fetched e = (record e { clearing = false }, config_clear_failed ∷ [])

-- The editor and the server through one press of each button.
unfoldable pub press_save : Fate → Editor → Server → Editor × Server
unfolding save_draft update_config_yaml
press_save f e s =
    let (next, o) = after_fate f (update_config_yaml e.content s) s in ((save_draft o e).0, next)

unfoldable pub press_clear : Fate → Fate → Editor → Server → Editor × Server
unfolding clear_draft delete_config_yaml get_config_yaml
press_clear f g e s =
    let (next, o) = after_fate f (delete_config_yaml s) s in
    ((clear_draft o (answer g (get_config_yaml next)) e).0, next)

-- What a press of the save button stores for a text that is not empty, over the three fates of the
-- request: whenever the request arrives the draft of the server is the text, but the editor is marked
-- as a draft only if the answer arrives as well.
press_save_lem :
    (e : Editor) (s : Server)
    → is_empty e.content ≡ false
    → ((press_save reaches e s).0.source ≡ draft)
      × ((press_save reaches e s).1.raw_config_draft ≡ e.content)
      × ((press_save answer_lost e s).0.source ≡ e.source)
      × ((press_save answer_lost e s).1.raw_config_draft ≡ e.content)
      × ((press_save lost e s).0.source ≡ e.source)
      × ((press_save lost e s).1 ≡ s)
unfolding press_save
press_save_lem e s n = rw n (refl, refl, refl, refl, refl, refl)

-- Clearing the draft, where both requests arrive and the file can be read, leaves the server without a draft and the editor with
-- the text of the file, marked as such. Where the deletion arrives and the fetch behind it is lost, the
-- draft is gone as well, but the editor goes on showing it as a draft.
press_clear_lem :
    (e : Editor) (s : Server) (text : Text)
    → s.config_file ≡ some text
    → ((press_clear reaches reaches e s).0.content ≡ text)
      × ((press_clear reaches reaches e s).0.source ≡ file)
      × ((press_clear reaches reaches e s).1.raw_config_draft ≡ [])
      × ((press_clear reaches lost e s).0.content ≡ e.content)
      × ((press_clear reaches lost e s).0.source ≡ e.source)
      × ((press_clear reaches lost e s).1.raw_config_draft ≡ [])
unfolding press_clear
press_clear_lem e s text h = (
  ap (λ (o : Option Text). (fetch_config (file_answer o) e).0.content) h,
  ap (λ (o : Option Text). (fetch_config (file_answer o) e).0.source) h,
  refl,
  refl,
  refl,
  refl,
)
