-- ===== src/Session.antt =====
-- The session: web/src/stores/auth.ts, the hooks of web/src/api/client.ts, `handleSubmit` of
-- web/src/pages/login.tsx, `handleLogout` of web/src/components/layout/header.tsx and
-- `ProtectedRoute` of web/src/routes.tsx. The `persist` middleware of zustand is a `Persist`.
pub mod Steps
pub mod Login
use mihomo_cp.Prelude.{
  ℕ, Bool, true, false, not, ◌||◌, ◌≡◌, [], ◌∷◌, ◌++◌, Option, none, some, ◌==◌, if◌then◌else◌,
}
use mihomo_cp.Js.Text.{Text, codes, is_empty}
use mihomo_cp.Js.Value.{
  Value, undefined, null, bool, str, obj, arr, num, Number, nan, plus, minus, get, of_nullable,
}

pub record User : Type 0 where
  pub id : Text
  pub username : Text
  pub role : Text

pub record Auth : Type 0 where
  pub access_token : Option Text
  pub refresh_token : Option Text
  pub user : Option User

-- The state that the store starts with.
abbrev pub signed_out : Auth
signed_out = record { access_token = none; refresh_token = none; user = none }

-- The item `auth-storage` of the local storage: missing, no JSON, or a JSON value.
pub data Stored : Type 0 where
  absent : Stored
  broken : Stored
  json : Value → Stored

-- What the front end does with a browser: the store of the page, the storage, and whether the
-- location is the login page.
pub record Browser : Type 0 where
  pub memory : Auth
  pub stored : Stored
  pub at_login : Bool

-- `v || null` on a value of any type.
abbrev pub truthy : Value → Option Value
truthy undefined = none
truthy null = none
truthy (bool b) = if b then some (bool b) else none
truthy (num nan) = none
truthy (num (plus m k)) = if m == 0 then none else some (num (plus m k))
truthy (num (minus m k)) = if m == 0 then none else some (num (minus m k))
truthy (str []) = none
truthy v = some v

-- `v?.name`.
abbrev pub optional_get : Text → Value → Value
optional_get name (obj o) = get name o
optional_get name _ = undefined

unfoldable pub get_token : Stored → Option Value
unfolding get
get_token absent = none
get_token broken = none
get_token (json parsed) =
    truthy (optional_get (codes "accessToken") (optional_get (codes "state") parsed))

-- `!!accessToken`.
abbrev pub has_token : Option Text → Bool
has_token none = false
has_token (some s) = not (is_empty s)

unfoldable pub is_authenticated : Browser → Bool
is_authenticated b = has_token b.memory.access_token

-- The middleware: it writes the state at every `set` under the key `state`, and merges what it finds
-- into the initial state when the page is loaded.
pub record Persist : Type 0 where
  pub value : Auth → Value
  pub read : Stored → Auth
  pub value_token :
      (a : Auth)
      → optional_get (codes "accessToken") (optional_get (codes "state") (value a))
        ≡ of_nullable str a.access_token
  pub read_absent : read absent ≡ signed_out
  pub read_value : (a : Auth) → read (json (value a)) ≡ a

-- The beforeRequest hook: the header `Authorization`, if it is set.
unfoldable pub before_request : (Value → Text) → Browser → Option Text
unfolding get_token
before_request to_text b = elim (get_token b.stored) [
  | none ↦ none
  | some token ↦ some (codes "Bearer " ++ to_text token)
]

-- What `ProtectedRoute` does on a page behind it.
unfoldable pub protected_route : Browser → Browser
unfolding is_authenticated
protected_route b = if is_authenticated b then b else record b { at_login = true }

module _ (persist : Persist) where
  -- A `set` of the store.
  abbrev pub set : Auth → Browser → Browser
  set a b = record b { memory = a; stored = json (persist.value a) }

  unfoldable pub set_tokens : Text → Text → Browser → Browser
  set_tokens access refresh b =
      set (record b.memory { access_token = some access; refresh_token = some refresh }) b

  unfoldable pub set_user : User → Browser → Browser
  set_user user b = set (record b.memory { user = some user }) b

  unfoldable pub logout : Browser → Browser
  logout b = set signed_out b

  -- The page is loaded anew.
  abbrev pub reload : Browser → Browser
  reload b = record b { memory = persist.read b.stored }

  -- The afterResponse hook; setting `location.href` loads the login page.
  unfoldable pub after_response : ℕ → Browser → Browser
  after_response status b =
      let cleared = record b { stored = absent } in
      if status == 401
      then if b.at_login then cleared else reload (record cleared { at_login = true })
      else b

  unfoldable pub handle_logout : Browser → Browser
  unfolding logout
  handle_logout b = record (logout b) { at_login = true }
