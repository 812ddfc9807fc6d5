-- ===== src/RuleProviders.antt =====
-- The page of the rule providers, web/src/pages/rule-providers.tsx: the form, the editor of the
-- content, and the page with its table and dialogs. `Number` and `String` of the host are parameters.
pub mod Form
pub mod Editor
pub mod Deleting
use mihomo_cp.Prelude.{
  ℕ, Bool, true, false, not, ◌&&◌, ◌||◌, List, [], ◌∷◌, ◌++◌, Option, none, some, is_some,
  if◌then◌else◌,
}
use mihomo_cp.Js.Text.{Text, codes, text_eq, is_empty}
use mihomo_cp.Js.Value.{Value, num, str, Number, int, Object, empty, field, get, nullish}
use mihomo_cp.Api
use mihomo_cp.Api.{Endpoint}

pub record RuleProvider : Type 0 where
  pub id : Text
  pub name : Text
  pub type : Text
  pub behavior : Text
  pub config : Object

pub record FormState : Type 0 where
  pub name : Text
  pub type : Text
  pub behavior : Text
  pub url : Text
  pub interval : Text
  pub path : Text

abbrev pub default_form : FormState
default_form = record {
  name = [];
  type = codes "http";
  behavior = codes "domain";
  url = [];
  interval = codes "86400";
  path = [];
}

-- `String(v ?? d)`.
abbrev pub string_or : (Value → Text) → Value → Text → Text
string_or to_text v d = elim (nullish v (str d)) [ str s ↦ s | w ↦ to_text w ]

unfoldable pub provider_to_form : (Value → Text) → RuleProvider → FormState
unfolding get
provider_to_form to_text p = record {
  name = p.name;
  type = p.type;
  behavior = p.behavior;
  url = string_or to_text (get (codes "url") p.config) [];
  interval = string_or to_text (get (codes "interval") p.config) (codes "86400");
  path = string_or to_text (get (codes "path") p.config) [];
}

-- The effect on `[open, provider]`, when the dialog opens.
unfoldable pub load : (Value → Text) → Option RuleProvider → FormState
unfolding provider_to_form
load to_text none = default_form
load to_text (some p) = provider_to_form to_text p

-- What `onSave` takes.
pub record ProviderData : Type 0 where
  pub name : Text
  pub type : Text
  pub behavior : Text
  pub config : Object

abbrev pub interval_value : (Text → Number) → Text → Value
interval_value to_number interval =
    num (if is_empty interval then int 8_6400 else to_number interval)

abbrev pub is_http : Text → Bool
unfolding text_eq
is_http type = text_eq type (codes "http")

unfoldable pub config_of : (Text → Number) → FormState → Object
unfolding is_http
config_of to_number form = field (codes "path") (str form.path) (
    if is_http form.type
    then field (codes "url") (str form.url)
        (field (codes "interval") (interval_value to_number form.interval) empty)
    else empty)

unfoldable pub handle_submit : (Text → Number) → FormState → ProviderData
unfolding config_of
handle_submit to_number form = record {
  name = form.name;
  type = form.type;
  behavior = form.behavior;
  config = config_of to_number form;
}

-- The editor of the content.
pub record EditorState : Type 0 where
  pub content : Text
  pub loading : Bool
  pub saving : Bool

abbrev pub first_editor : EditorState
first_editor = record { content = []; loading = false; saving = false }

pub data Outcome (A : Type 0) : Type 0 where
  done : A → Outcome A
  failed : Outcome A

pub data Toast : Type 0 where
  load_failed load_content_failed content_saved content_save_failed : Toast
  updated created update_failed create_failed deleted delete_failed : Toast
  refreshed refresh_failed : Text → Toast

abbrev pub or_empty : Option Text → Text
or_empty none = []
or_empty (some s) = s

-- The effect on `[open, provider]` up to its request.
abbrev pub start_content : EditorState → EditorState
start_content s = record s { loading = true }

-- The answer to it: `res.data?.content`.
unfoldable pub finish_content : Outcome (Option Text) → EditorState → EditorState × List Toast
finish_content (done found) s = (record s { content = or_empty found; loading = false }, [])
finish_content failed s = (record s { loading = false }, load_content_failed ∷ [])

abbrev pub type_content : Text → EditorState → EditorState
type_content text s = record s { content = text }

-- The request of `handleSave` of the editor: the provider and the content.
unfoldable pub start_save :
    Option RuleProvider → EditorState → EditorState × Option (Endpoint × Text)
start_save none s = (s, none)
start_save (some p) s =
    (record s { saving = true }, some (Api.rule_providers (Api.update_content p.id), s.content))

-- The answer, and whether the editor closes.
unfoldable pub finish_save : Outcome Unit → EditorState → EditorState × (List Toast × Bool)
finish_save (done _) s = (record s { saving = false }, (content_saved ∷ [], true))
finish_save failed s = (record s { saving = false }, (content_save_failed ∷ [], false))

-- The page.
pub record PageState : Type 0 where
  pub providers : List RuleProvider
  pub loading : Bool
  pub form_open : Bool
  pub editing_provider : Option RuleProvider
  pub deleting_id : Option Text
  pub confirm_open : Bool
  pub refreshing_id : Option Text
  pub content_provider : Option RuleProvider
  pub content_open : Bool

abbrev pub first_page : PageState
first_page = record {
  providers = [];
  loading = false;
  form_open = false;
  editing_provider = none;
  deleting_id = none;
  confirm_open = false;
  refreshing_id = none;
  content_provider = none;
  content_open = false;
}

-- What happens to the page: a button, a dialog that opens or closes, or the answer to a request, of
-- which the arguments tell to what.
pub data Event : Type 0 where
  fetched : Outcome (Option (List RuleProvider)) → Event
  add_clicked : Event
  edit_clicked content_clicked delete_clicked refresh_clicked : RuleProvider → Event
  form_opens content_opens confirm_opens : Bool → Event
  submitted : ProviderData → Event
  saved : Option RuleProvider → Outcome Unit → Event
  confirmed : Event
  delete_answered : Outcome Unit → Event
  refresh_answered : RuleProvider → Outcome Unit → Event

-- What an event makes the page do besides its state.
pub data Command : Type 0 where
  send : Endpoint → Command
  send_data : Endpoint → ProviderData → Command
  show : Toast → Command

abbrev pub listed : Option (List RuleProvider) → List RuleProvider
listed none = []
listed (some ps) = ps

-- `fetchProviders` up to its answer.
abbrev pub fetching : PageState → PageState
fetching s = record s { loading = true }

-- `handleSave` up to its answer, by `editingProvider`.
abbrev pub save_request : Option RuleProvider → Endpoint
save_request none = Api.rule_providers Api.create_rule_provider
save_request (some p) = Api.rule_providers (Api.update_rule_provider p.id)

-- `handleDeleteConfirm` up to its answer.
abbrev pub delete_request : Option Text → List Command
delete_request none = []
delete_request (some id) =
    if is_empty id then [] else send (Api.rule_providers (Api.delete_rule_provider id)) ∷ []

-- `if (!o) setX(undefined)`.
abbrev pub unless_open : Bool → Option RuleProvider → Option RuleProvider
unless_open true p = p
unless_open false p = none

abbrev pub save_toast : Option RuleProvider → Outcome Unit → Toast
save_toast none (done _) = created
save_toast none failed = create_failed
save_toast (some _) (done _) = updated
save_toast (some _) failed = update_failed

unfoldable pub step : Event → PageState → PageState × List Command
step (fetched (done found)) s = (record s { providers = listed found; loading = false }, [])
step (fetched failed) s = (record s { loading = false }, show load_failed ∷ [])
step add_clicked s = (record s { editing_provider = none; form_open = true }, [])
step (edit_clicked p) s = (record s { editing_provider = some p; form_open = true }, [])
step (content_clicked p) s = (record s { content_provider = some p; content_open = true }, [])
step (delete_clicked p) s = (record s { deleting_id = some p.id; confirm_open = true }, [])
step (refresh_clicked p) s = (
  record s { refreshing_id = some p.id },
  send (Api.rule_providers (Api.refresh_rule_provider p.id)) ∷ [],
)
step (form_opens o) s =
    (record s { form_open = o; editing_provider = unless_open o s.editing_provider }, [])
step (content_opens o) s =
    (record s { content_open = o; content_provider = unless_open o s.content_provider }, [])
step (confirm_opens o) s = (record s { confirm_open = o }, [])
step (submitted d) s = (s, send_data (save_request s.editing_provider) d ∷ [])
step (saved p (done d)) s = (
  fetching (record s { form_open = false; editing_provider = none }),
  show (save_toast p (done d)) ∷ send (Api.rule_providers Api.list_rule_providers) ∷ [],
)
step (saved p failed) s = (s, show (save_toast p failed) ∷ [])
step confirmed s = (record s { confirm_open = false }, delete_request s.deleting_id)
step (delete_answered (done _)) s = (
  fetching (record s { deleting_id = none }),
  show deleted ∷ send (Api.rule_providers Api.list_rule_providers) ∷ [],
)
step (delete_answered failed) s = (record s { deleting_id = none }, show delete_failed ∷ [])
step (refresh_answered p (done _)) s =
    (record s { refreshing_id = none }, show (refreshed p.name) ∷ [])
step (refresh_answered p failed) s =
    (record s { refreshing_id = none }, show (refresh_failed p.name) ∷ [])
