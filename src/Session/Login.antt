-- ===== src/Session/Login.antt =====
-- `handleSubmit` of web/src/pages/login.tsx, over the answers of its two requests.
use mihomo_cp.Prelude.{
  ℕ, ◌≡◌, ◌≢◌, refl, inl, inr, true, false, ◌||◌, not, [], ◌∷◌, some, ◌==◌, if◌then◌else◌,
  Bool-cases,
}
use mihomo_cp.Js.Text.{Text, is_empty}
use mihomo_cp.Session.{
  User, absent, json, Browser, Persist, set_tokens, set_user, after_response, is_authenticated,
}

-- What a request comes to: its data, a response with another status, or no response.
pub data Answer {ℓ} (A : Type ℓ) : Type ℓ where
  ok : A → Answer A
  refused : ℕ → Answer A
  unreachable : Answer A

pub record Tokens : Type 0 where
  pub access : Text
  pub refresh : Text

pub data Outcome : Type 0 where
  ignored : Outcome
  failed : Outcome
  entered : Outcome

module _ (persist : Persist) where
  -- The browser after a request; the hook only acts on a status that is no success.
  unfoldable pub answered {ℓ} : {A : Type ℓ} → Answer A → Browser → Browser
  unfolding after_response
  answered (ok _) b = b
  answered (refused status) b = after_response persist status b
  answered unreachable b = b

  -- From `authApi.me()` on.
  unfoldable pub enter : Answer User → Browser → Browser × Outcome
  unfolding set_user answered
  enter (ok user) b = (record (set_user persist user b) { at_login = false }, entered)
  enter (refused status) b = (answered {A = User} (refused status) b, failed)
  enter unreachable b = (b, failed)

  unfoldable pub login : Answer Tokens → Answer User → Browser → Browser × Outcome
  unfolding set_tokens enter answered
  login (ok tokens) me b = enter me (set_tokens persist tokens.access tokens.refresh b)
  login (refused status) me b = (answered {A = Tokens} (refused status) b, failed)
  login unreachable me b = (b, failed)

  unfoldable pub handle_submit :
      Text → Text → Answer Tokens → Answer User → Browser → Browser × Outcome
  unfolding login
  handle_submit username password tokens me b =
      if is_empty username || is_empty password then (b, ignored) else login tokens me b

  -- The state in which the page is entered: both answers have come, and the store and the storage
  -- hold the same new tokens and the same user.
  pub record Entered (tokens : Tokens) (me : User) (b : Browser) : Type 0 where
    pub access : b.memory.access_token ≡ some tokens.access
    pub refresh : b.memory.refresh_token ≡ some tokens.refresh
    pub user : b.memory.user ≡ some me
    pub stored : b.stored ≡ json (persist.value b.memory)
    pub left : b.at_login ≡ false

  -- The login page is left only if both requests succeed, and then the new session is the one of the
  -- answers, in the store and in the storage.
  handle_submit-Entered :
      (username password : Text) (t : Answer Tokens) (m : Answer User) (b : Browser)
      → (handle_submit username password t m b).1 ≡ entered
      → (tokens : Tokens) × (user : User) × (t ≡ ok tokens)
        × (m ≡ ok user)
        × Entered tokens user (handle_submit username password t m b).0
  unfolding handle_submit
  handle_submit-Entered [] password t m b e = cc
  handle_submit-Entered (_ ∷ _) [] t m b e = cc
  handle_submit-Entered (_ ∷ _) (_ ∷ _) (ok tokens) (ok user) b e = (
    tokens,
    user,
    refl,
    refl,
    record { access = refl; refresh = refl; user = refl; stored = refl; left = refl },
  )
  handle_submit-Entered (_ ∷ _) (_ ∷ _) (ok tokens) (refused s) b e = cc
  handle_submit-Entered (_ ∷ _) (_ ∷ _) (ok tokens) unreachable b e = cc
  handle_submit-Entered (_ ∷ _) (_ ∷ _) (refused s) m b e = cc
  handle_submit-Entered (_ ∷ _) (_ ∷ _) unreachable m b e = cc

  not_blank : (s : Text) → s ≢ [] → not (is_empty s) ≡ true
  not_blank [] h = absurd (h refl)
  not_blank (_ ∷ _) h = refl

  -- When the tokens arrive and the request for the user is refused, the login is reported as failed,
  -- and yet the store holds both new tokens and counts as authenticated; the storage holds the same
  -- state, or nothing if the status was 401.
  pub handle_submit-failed :
      (username password : Text) (tokens : Tokens) (status : ℕ) (b : Browser)
      → username ≢ []
      → password ≢ []
      → tokens.access ≢ []
      → b.at_login ≡ true
      → ((handle_submit username password (ok tokens) (refused status) b).1 ≡ failed)
        × (is_authenticated (handle_submit username password (ok tokens) (refused status) b).0
            ≡ true)
        × ((handle_submit username password (ok tokens) (refused status) b).0.memory.access_token
            ≡ some tokens.access)
        × ((handle_submit username password (ok tokens) (refused status) b).0.memory.refresh_token
            ≡ some tokens.refresh)
        × ((handle_submit username password (ok tokens) (refused status) b).0.stored ≡ (
            if status == 401
            then absent
            else json (persist.value (set_tokens persist tokens.access tokens.refresh b).memory)))
  unfolding handle_submit is_authenticated
  handle_submit-failed [] password tokens status b u p a at = absurd (u refl)
  handle_submit-failed (_ ∷ _) [] tokens status b u p a at = absurd (p refl)
  handle_submit-failed (_ ∷ _) (_ ∷ _) tokens status b u p a at =
      elim (Bool-cases (status == 401)) [
        | inl gone ↦ rw (gone, at) (refl, not_blank tokens.access a, refl, refl, refl)
        | inr other ↦ rw other (refl, not_blank tokens.access a, refl, refl, refl)
      ]
