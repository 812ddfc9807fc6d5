-- ===== src/Witnesses/Session.antt =====
-- A login and a session at concrete inputs.
use mihomo_cp.Prelude.{◌≡◌, refl, ◌⊎◌, true, [], Option, none, some}
use mihomo_cp.Js.Text.{Text, codes}
use mihomo_cp.Js.Value.{Value, str, obj, empty, field, get, of_nullable}
use mihomo_cp.Session.{
  User, Auth, signed_out, Stored, absent, json, Browser, Persist, truthy, get_token,
  is_authenticated, set_tokens, after_response,
}
use mihomo_cp.Session.Login.{Tokens, ok, refused, failed, handle_submit, handle_submit-failed}
use mihomo_cp.Session.Steps.{here, next, tokens_come, response, Reach-get_token}

abbrev user_value : User → Value
user_value u = obj (
    field (codes "id") (str u.id)
      (field (codes "username") (str u.username) (field (codes "role") (str u.role) empty)))

abbrev auth_value : Auth → Value
auth_value a = obj (
    field (codes "state")
      (obj (
        field (codes "accessToken") (of_nullable str a.access_token) (
          field (codes "refreshToken") (of_nullable str a.refresh_token)
            (field (codes "user") (of_nullable user_value a.user) empty))))
      empty)

abbrev text_of : Value → Option Text
text_of (str s) = some s
text_of _ = none

abbrev text_or_blank : Value → Text
text_or_blank (str s) = s
text_or_blank _ = []

unfoldable user_of : Value → Option User
unfolding get
user_of (obj o) = some (record {
  id = text_or_blank (get (codes "id") o);
  username = text_or_blank (get (codes "username") o);
  role = text_or_blank (get (codes "role") o);
})
user_of _ = none

unfoldable auth_of : Value → Auth
unfolding get user_of
auth_of (obj o) = record {
  access_token = text_of (get (codes "accessToken") o);
  refresh_token = text_of (get (codes "refreshToken") o);
  user = user_of (get (codes "user") o);
}
auth_of _ = signed_out

unfoldable read : Stored → Auth
unfolding get auth_of
read (json (obj o)) = auth_of (get (codes "state") o)
read _ = signed_out

read_lem :
    (access refresh : Option Text) (user : Option User)
    → read
        (json (auth_value (record { access_token = access; refresh_token = refresh; user = user })))
      ≡ record { access_token = access; refresh_token = refresh; user = user }
unfolding read
read_lem none none none = refl
read_lem none none (some _) = refl
read_lem none (some _) none = refl
read_lem none (some _) (some _) = refl
read_lem (some _) none none = refl
read_lem (some _) none (some _) = refl
read_lem (some _) (some _) none = refl
read_lem (some _) (some _) (some _) = refl

persist : Persist
unfolding get read
persist = record {
  value = auth_value;
  read = read;
  value_token = λ a. refl;
  read_absent = refl;
  read_value = λ a. read_lem a.access_token a.refresh_token a.user;
}

abbrev visit : Browser
visit = record { memory = signed_out; stored = absent; at_login = true }

abbrev logged_in : Browser
logged_in = set_tokens persist (codes "a") (codes "r") visit

Reach-get_token_example :
    (get_token (after_response persist 401 logged_in).stored ≡ none)
    ⊎ (get_token (after_response persist 401 logged_in).stored
        ≡ truthy (of_nullable str (after_response persist 401 logged_in).memory.access_token))
Reach-get_token_example =
    Reach-get_token persist visit (after_response persist 401 logged_in) refl
      (next (next here (tokens_come (codes "a") (codes "r") visit)) (response 401 logged_in))

abbrev tokens : Tokens
tokens = record { access = codes "a"; refresh = codes "r" }

abbrev admin : User
admin = record { id = codes "1"; username = codes "admin"; role = codes "admin" }

handle_submit-failed_example :
    ((handle_submit persist (codes "admin") (codes "pw") (ok tokens) (refused 401) visit).1
      ≡ failed)
    × (is_authenticated
          (handle_submit persist (codes "admin") (codes "pw") (ok tokens) (refused 401) visit).0
        ≡ true)
    × ((handle_submit persist
          (codes "admin")
          (codes "pw")
          (ok tokens)
          (refused 401)
          visit).0.memory.access_token
        ≡ some (codes "a"))
    × ((handle_submit persist
          (codes "admin")
          (codes "pw")
          (ok tokens)
          (refused 401)
          visit).0.memory.refresh_token
        ≡ some (codes "r"))
    × ((handle_submit persist (codes "admin") (codes "pw") (ok tokens) (refused 401) visit).0.stored
        ≡ absent)
handle_submit-failed_example =
    handle_submit-failed persist (codes "admin") (codes "pw") tokens 401 visit (λ e. cc) (λ e. cc)
      (λ e. cc) refl
