-- ===== src/Witnesses/Settings.antt =====
-- The settings page at concrete states.
use mihomo_cp.Prelude.{All, ◌≡◌, ◌≢◌, refl, ◌⊎◌, false, [], ◌∷◌, some}
use mihomo_cp.Js.Text.{Text, codes, text_eq}
use mihomo_cp.Js.Value.{str, get}
use mihomo_cp.Api
use mihomo_cp.Session.{User}
use mihomo_cp.Settings.{failed}
use mihomo_cp.Settings.App.{
  first_card, server_keys, key_text, binary_path, loaded, fetch_settings, handle_change, start_save,
  start_save-handle_change,
}
use mihomo_cp.Settings.Users.{
  Dialog, Card, handle_save, Valid, step, delete_clicked, confirmed, send,
}
use mihomo_cp.Settings.Deleting.{Reached, at_first, after, step-confirmed_user}
use mihomo_cp.Settings.Draft.{Editor, Server, file, answer_lost, press_save}
use mihomo_cp.Settings.Users

start_save-handle_change_example :
    let card = handle_change binary_path (codes "/m") (fetch_settings failed first_card) in
    (card.loading ≡ false)
    × (get (key_text binary_path) (start_save card).1 ≡ str (codes "/m"))
    × (text_eq (key_text binary_path) (codes "external_controller_secret") ≡ false
        → get (codes "external_controller_secret") (start_save card).1
          ≡ get (codes "external_controller_secret") (loaded failed))
    × All (λ (j : Text). get j (start_save card).1 ≡ get j (loaded failed)) server_keys
start_save-handle_change_example =
    start_save-handle_change failed binary_path (codes "/m") (codes "external_controller_secret")

abbrev typed : Dialog
typed = record { username = codes " u "; password = codes "p"; role = codes "admin" }

abbrev me : User
me = record { id = codes "1"; username = codes "me"; role = codes "admin" }

abbrev other : User
other = record { id = codes "2"; username = codes "o"; role = codes "readonly" }

abbrev asked : Card
unfolding step
asked = (step (some me) (delete_clicked other) Users.first_card).0

asked-Reached : Reached me asked
unfolding asked
asked-Reached = after (delete_clicked other) at_first

step-confirmed_user_example :
    ((step (some me) confirmed asked).1 ≡ [])
    ⊎ ((id : Text) × ((id ≢ codes "1")
          × ((step (some me) confirmed asked).1 ≡ send (Api.settings (Api.delete_user id)) ∷ [])))
step-confirmed_user_example = step-confirmed_user me asked-Reached

abbrev editor : Editor
editor = record {
  content = codes "a: 1";
  source = file;
  loading = false;
  saving = false;
  clearing = false;
}

abbrev server : Server
server = record { raw_config_draft = []; config_file = some (codes "f") }

-- The draft is stored although its answer is lost: the editor goes on showing the file as its source.
stored_unseen :
    ((press_save answer_lost editor server).1.raw_config_draft ≡ editor.content)
    × ((press_save answer_lost editor server).0.source ≡ file)
unfolding press_save
stored_unseen = (refl, refl)
