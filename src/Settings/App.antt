-- ===== src/Settings/App.antt =====
-- `AppSettingsCard`: the settings of the application, one text field for each of five keys.
use mihomo_cp.Prelude.{
  All, Bool, Bool-cases, inl, inr, if◌then◌else◌, true, false, ◌≡◌, refl, List, [], ◌∷◌, Option,
  none, some,
}
use mihomo_cp.Js.Text.{Text, codes, text_eq}
use mihomo_cp.Js.Value.{Value, str, Object, empty, get, nullish}
use mihomo_cp.Js.Record.{put, get-put, get-put-other}
use mihomo_cp.Settings.{Outcome, done, failed, Toast, settings_saved, settings_save_failed}

pub data Key : Type 0 where
  config_path working_dir binary_path controller_url controller_secret : Key

abbrev pub key_text : Key → Text
key_text config_path = codes "mihomo_config_path"
key_text working_dir = codes "mihomo_working_dir"
key_text binary_path = codes "mihomo_binary_path"
key_text controller_url = codes "external_controller_url"
key_text controller_secret = codes "external_controller_secret"

pub record Card : Type 0 where
  pub settings : Object
  pub loading : Bool
  pub saving : Bool

abbrev pub first_card : Card
first_card = record { settings = empty; loading = true; saving = false }

-- `res.data ?? {}`.
abbrev pub object_or_empty : Option Object → Object
object_or_empty none = empty
object_or_empty (some o) = o

-- The answer to `fetchSettings`.
unfoldable pub fetch_settings : Outcome (Option Object) → Card → Card
fetch_settings (done found) s = record s { settings = object_or_empty found; loading = false }
fetch_settings failed s = record s { loading = false }

unfoldable pub handle_change : Key → Text → Card → Card
unfolding put
handle_change k v s = record s { settings = put (key_text k) (str v) s.settings }

-- What a field shows.
abbrev pub shown : Key → Card → Value
shown k s = nullish (get (key_text k) s.settings) (str [])

-- The body that `handleSave` sends.
unfoldable pub start_save : Card → Card × Object
start_save s = (record s { saving = true }, s.settings)

unfoldable pub finish_save : Outcome Unit → Card → Card × List Toast
finish_save (done _) s = (record s { saving = false }, settings_saved ∷ [])
finish_save failed s = (record s { saving = false }, settings_save_failed ∷ [])

-- The settings that the card starts from: those of the answer, or none.
abbrev pub loaded : Outcome (Option Object) → Object
loaded (done found) = object_or_empty found
loaded failed = empty

settings_loaded : (o : Outcome (Option Object)) → (fetch_settings o first_card).settings ≡ loaded o
unfolding fetch_settings
settings_loaded (done found) = refl
settings_loaded failed = refl

-- The keys under which the server reads and stores the settings: `AppSettings` of
-- internal/model/settings.go.
abbrev pub server_keys : List Text
server_keys =
    codes "mihomo_config"
    ∷ codes "mihomo_dir"
    ∷ codes "mihomo_binary"
    ∷ codes "ext_controller"
    ∷ codes "ext_secret"
    ∷ codes "raw_config_draft"
    ∷ codes "isolation_interface"
    ∷ codes "isolation_dns"
    ∷ []

not_among : Text → List Text → Bool
unfolding text_eq
not_among k [] = true
not_among k (j ∷ js) = if text_eq k j then false else not_among k js

-- No field of the card has a key of the server.
not_among-server_keys : (k : Key) → not_among (key_text k) server_keys ≡ true
unfolding not_among
not_among-server_keys config_path = refl
not_among-server_keys working_dir = refl
not_among-server_keys binary_path = refl
not_among-server_keys controller_url = refl
not_among-server_keys controller_secret = refl

untouched :
    (k : Text) (v : Value) (o : Object) (js : List Text)
    → not_among k js ≡ true
    → All (λ (j : Text). get j (put k v o) ≡ get j o) js
unfolding not_among
untouched k v o [] n = tt
untouched k v o (j ∷ js) n = elim (Bool-cases (text_eq k j)) [
  | inl e ↦ let bad : false ≡ true = rw e at n in cc
  | inr e ↦
      let rest : not_among k js ≡ true = rw e at n in
      (get-put-other k j v o e, untouched k v o js rest)
]

-- After the card has loaded and one field was edited, the body that is saved has the entered text at the key of
-- the field, and every other key as the server has answered it; after a failed load the card is shown
-- all the same, and the body has no other key at all. None of the keys under which the server stores
-- the settings is changed by the edit, whichever field it is.
pub start_save-handle_change :
    (o : Outcome (Option Object)) (k : Key) (v other : Text)
    → let card = handle_change k v (fetch_settings o first_card) in
      (card.loading ≡ false)
      × (get (key_text k) (start_save card).1 ≡ str v)
      × (text_eq (key_text k) other ≡ false → get other (start_save card).1 ≡ get other (loaded o))
      × All (λ (j : Text). get j (start_save card).1 ≡ get j (loaded o)) server_keys
unfolding start_save handle_change fetch_settings
start_save-handle_change (done found) k v other = (
  refl,
  get-put (key_text k) (str v) (object_or_empty found),
  λ n. get-put-other (key_text k) other (str v) (object_or_empty found) n,
  untouched (key_text k) (str v) (object_or_empty found) server_keys (not_among-server_keys k),
)
start_save-handle_change failed k v other = (
  refl,
  get-put (key_text k) (str v) empty,
  λ n. get-put-other (key_text k) other (str v) empty n,
  untouched (key_text k) (str v) empty server_keys (not_among-server_keys k),
)
