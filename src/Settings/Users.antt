-- ===== src/Settings/Users.antt =====
-- `UserDialog` and `UserManagementCard`: the dialog of a user, and the table of the users.
use mihomo_cp.Prelude.{
  Bool, true, false, ◌||◌, ◌≡◌, refl, List, [], ◌∷◌, Option, none, some, if◌then◌else◌, Bool-cases,
  inl, inr,
}
use mihomo_cp.Js.Text.{Text, codes, text_eq, trim, is_empty}
use mihomo_cp.Api
use mihomo_cp.Api.{Endpoint}
use mihomo_cp.Session.{User}
use mihomo_cp.Settings.{
  Outcome, done, failed, Toast, username_required, password_required, user_updated, user_created,
  user_update_failed, user_create_failed, cannot_delete_self, user_deleted, user_delete_failed,
}

pub record Dialog : Type 0 where
  pub username : Text
  pub password : Text
  pub role : Text

-- The effect on `[open, editingUser]`, when the dialog opens.
abbrev pub load : Option User → Dialog
load none = record { username = []; password = []; role = codes "readonly" }
load (some u) = record { username = u.username; password = []; role = u.role }

-- The bodies of the two requests.
pub record NewUser : Type 0 where
  pub username : Text
  pub password : Text
  pub role : Text

pub record UserUpdate : Type 0 where
  pub role : Text
  pub password : Option Text

-- What `handleSave` comes to before an answer: a message, or a request.
pub data Attempt : Type 0 where
  refused : Toast → Attempt
  creates : NewUser → Attempt
  updates : Text → UserUpdate → Attempt

-- `!s.trim()`.
unfoldable pub is_blank : Text → Bool
unfolding trim
is_blank s = is_empty (trim s)

unfoldable pub handle_save : Option User → Dialog → Attempt
unfolding is_blank trim
handle_save none d =
    if is_blank d.username
    then refused username_required
    else if is_blank d.password
    then refused password_required
    else creates (record { username = trim d.username; password = d.password; role = d.role })
handle_save (some u) d =
    updates u.id
      (record { role = d.role; password = if is_blank d.password then none else some d.password })

-- The toast of the answer, and whether the dialog closes and the users are fetched again.
abbrev pub finish_save : Option User → Outcome Unit → Toast × Bool
finish_save none (done _) = (user_created, true)
finish_save none failed = (user_create_failed, false)
finish_save (some _) (done _) = (user_updated, true)
finish_save (some _) failed = (user_update_failed, false)

-- The card.
pub record Card : Type 0 where
  pub users : List User
  pub loading : Bool
  pub dialog_open : Bool
  pub editing_user : Option User
  pub deleting_id : Option Text
  pub confirm_open : Bool

abbrev pub first_card : Card
first_card = record {
  users = [];
  loading = true;
  dialog_open = false;
  editing_user = none;
  deleting_id = none;
  confirm_open = false;
}

pub data Event : Type 0 where
  fetched : Outcome (Option (List User)) → Event
  add_clicked : Event
  edit_clicked delete_clicked : User → Event
  dialog_opens confirm_opens : Bool → Event
  saved confirmed : Event
  delete_answered : Outcome Unit → Event

pub data Command : Type 0 where
  send : Endpoint → Command
  show : Toast → Command

-- `res.data ?? []`, and `[]` where the request has failed.
abbrev pub listed : Outcome (Option (List User)) → List User
listed (done (some us)) = us
listed _ = []

-- `user.id === currentUser?.id`.
abbrev pub is_current : Option User → User → Bool
is_current none u = false
is_current (some c) u = text_eq u.id c.id

-- `if (!o) setEditingUser(undefined)`.
abbrev pub unless_open : Bool → Option User → Option User
unless_open true u = u
unless_open false u = none

abbrev pub delete_request : Option Text → List Command
delete_request none = []
delete_request (some id) = if is_empty id then [] else send (Api.settings (Api.delete_user id)) ∷ []

module _ (current : Option User) where
  -- `isAdmin`: the card is shown to an administrator only.
  unfoldable pub is_admin : Bool
  unfolding text_eq
  is_admin = elim current [ none ↦ false | some u ↦ text_eq u.role (codes "admin") ]

  unfoldable pub step : Event → Card → Card × List Command
  unfolding text_eq
  step (fetched o) s = (record s { users = listed o; loading = false }, [])
  step add_clicked s = (record s { editing_user = none; dialog_open = true }, [])
  step (edit_clicked u) s = (record s { editing_user = some u; dialog_open = true }, [])
  step (delete_clicked u) s =
      if is_current current u
      then (s, show cannot_delete_self ∷ [])
      else (record s { deleting_id = some u.id; confirm_open = true }, [])
  step (dialog_opens o) s =
      (record s { dialog_open = o; editing_user = unless_open o s.editing_user }, [])
  step (confirm_opens o) s = (record s { confirm_open = o }, [])
  step saved s = (
    record s { dialog_open = false; editing_user = none },
    send (Api.settings Api.list_users) ∷ [],
  )
  step confirmed s = (record s { confirm_open = false }, delete_request s.deleting_id)
  step (delete_answered (done _)) s =
      (record s { deleting_id = none }, show user_deleted ∷ send (Api.settings Api.list_users) ∷ [])
  step (delete_answered failed) s = (record s { deleting_id = none }, show user_delete_failed ∷ [])

-- What an attempt to save a dialog is.
abbrev pub Valid : Option User → Dialog → Attempt → Type 0
Valid none d (creates n) =
    (n.username ≡ trim d.username)
    × (is_empty n.username ≡ false)
    × (n.password ≡ d.password)
    × (is_blank n.password ≡ false)
    × (n.role ≡ d.role)
Valid none d (refused r) = ((is_blank d.username || is_blank d.password) ≡ true)
Valid (some u) d (updates id b) =
    (id ≡ u.id)
    × (b.role ≡ d.role)
    × (b.password ≡ (if is_blank d.password then none else some d.password))
Valid _ d _ = ⊥

filled_name : (s : Text) → is_blank s ≡ false → is_empty (trim s) ≡ false
unfolding is_blank
filled_name s e = e

-- A request for a new user has a user name and a password that are not blank, the name without
-- white space at its ends; one for a user that exists has a password where one was entered that is not
-- blank, and only there; the role is the chosen one.
handle_save-Valid : (u : Option User) (d : Dialog) → Valid u d (handle_save u d)
unfolding handle_save
handle_save-Valid (some u) d = (refl, refl, refl)
handle_save-Valid none d = elim (Bool-cases (is_blank d.username)) [
  | inl b ↦ rw b (rw b refl)
  | inr n ↦ elim (Bool-cases (is_blank d.password)) [
    | inl b ↦ rw (n, b) (rw (n, b) refl)
    | inr m ↦ rw (n, m) (refl, filled_name d.username n, refl, m, refl)
  ]
]
