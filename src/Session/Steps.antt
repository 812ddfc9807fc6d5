-- ===== src/Session/Steps.antt =====
-- What can happen to a session, step by step, and what holds after any number of steps.
use mihomo_cp.Prelude.{
  ℕ, ◌≡◌, refl, sym, ap, ◌∙◌, ◌⊎◌, inl, inr, true, false, none, ◌==◌, Bool-cases,
}
use mihomo_cp.Js.Text.{Text}
use mihomo_cp.Js.Value.{str, of_nullable}
use mihomo_cp.Session.{
  User, Auth, absent, json, Browser, Persist, get_token, truthy, signed_out, set_tokens, set_user,
  after_response, handle_logout, protected_route, reload, is_authenticated,
}

module _ (persist : Persist) where
  -- Pages set tokens and the user, answers come with any status and in any order, the user logs out or
  -- loads the page anew, and a page behind `ProtectedRoute` is opened.
  pub data Step : Browser → Browser → Type 0 where
    tokens_come :
        (access refresh : Text) (b : Browser) → Step b (set_tokens persist access refresh b)
    user_comes : (user : User) (b : Browser) → Step b (set_user persist user b)
    response : (status : ℕ) (b : Browser) → Step b (after_response persist status b)
    logs_out : (b : Browser) → Step b (handle_logout persist b)
    reloads : (b : Browser) → Step b (reload persist b)
    opens : (b : Browser) → Step b (protected_route (record b { at_login = false }))

  pub data Reach (b : Browser) : Browser → Type 0 where
    here : Reach b b
    next : {c d : Browser} → Reach b c → Step c d → Reach b d

  -- The storage holds nothing, or what the store holds.
  abbrev pub InStep : Browser → Type 0
  InStep b = (b.stored ≡ absent) ⊎ (b.stored ≡ json (persist.value b.memory))

  after_response-InStep :
      (status : ℕ) (b : Browser) → InStep b → InStep (after_response persist status b)
  unfolding after_response
  after_response-InStep status b h = elim (Bool-cases (status == 401)) [
    | inr other ↦ rw other h
    | inl gone ↦ elim (Bool-cases b.at_login) [
      | inl on ↦ inl (rw (gone, on) refl)
      | inr off ↦ inl (rw (gone, off) refl)
    ]
  ]

  protected_route-InStep :
      (b : Browser) → InStep b → InStep (protected_route (record b { at_login = false }))
  unfolding protected_route
  protected_route-InStep b h = elim (Bool-cases (is_authenticated b)) [
    | inl known ↦ rw known h
    | inr unknown ↦ rw unknown h
  ]

  reload-InStep : (b : Browser) → InStep b → InStep (reload persist b)
  reload-InStep b (inl e) = inl e
  reload-InStep b (inr e) =
      inr (
        e
        ∙ ap (λ a. json (persist.value a)) (sym (ap persist.read e ∙ persist.read_value b.memory)))

  Step-InStep : {b c : Browser} → Step b c → InStep b → InStep c
  unfolding set_tokens set_user handle_logout
  Step-InStep (tokens_come access refresh b) h = inr refl
  Step-InStep (user_comes user b) h = inr refl
  Step-InStep (response status b) h = after_response-InStep status b h
  Step-InStep (logs_out b) h = inr refl
  Step-InStep (reloads b) h = reload-InStep b h
  Step-InStep (opens b) h = protected_route-InStep b h

  Reach-InStep : {b c : Browser} → InStep b → Reach b c → InStep c
  Reach-InStep h here = h
  Reach-InStep h (next r s) = Step-InStep s (Reach-InStep h r)

  get_token_json :
      (a : Auth) → get_token (json (persist.value a)) ≡ truthy (of_nullable str a.access_token)
  unfolding get_token
  get_token_json a = ap truthy (persist.value_token a)

  -- From a first visit on, whatever happens in whatever order: a request carries no token, or the one
  -- that the store of the page holds at that moment.
  pub Reach-get_token :
      (b c : Browser)
      → b.stored ≡ absent
      → Reach b c
      → (get_token c.stored ≡ none)
        ⊎ (get_token c.stored ≡ truthy (of_nullable str c.memory.access_token))
  unfolding get_token
  Reach-get_token b c first r = elim (Reach-InStep (inl first) r) [
    | inl gone ↦ inl (rw gone refl)
    | inr same ↦ inr (ap get_token same ∙ get_token_json c.memory)
  ]

  -- A response with status 401 that arrives off the login page ends the session: the store is signed
  -- out, the storage is empty, and the location is the login page.
  after_response_unauthorized :
      (b : Browser)
      → b.at_login ≡ false
      → (after_response persist 401 b).memory ≡ signed_out
        × ((after_response persist 401 b).stored ≡ absent)
        × ((after_response persist 401 b).at_login ≡ true)
  unfolding after_response
  after_response_unauthorized b off = rw off (persist.read_absent, refl, refl)
