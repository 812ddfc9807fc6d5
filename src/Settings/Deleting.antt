-- ===== src/Settings/Deleting.antt =====
-- No deletion of the own account.
use mihomo_cp.Prelude.{
  ◌≡◌, ◌≢◌, refl, subst, ◌∙◌, ap, ◌⊎◌, inl, inr, [], ◌∷◌, Option, none, some, Bool-cases,
  Option-cases,
}
use mihomo_cp.Js.Text.{Text, text_eq, is_empty}
use mihomo_cp.Js.Text.Laws.{text_eq-eq-false}
use mihomo_cp.Api
use mihomo_cp.Session.{User}
use mihomo_cp.Settings.{done, failed}
use mihomo_cp.Settings.Users.{
  Card, first_card, Event, fetched, add_clicked, edit_clicked, delete_clicked, dialog_opens,
  confirm_opens, saved, confirmed, delete_answered, send, delete_request, step,
}

module _ (current : User) where
  -- The states that the card comes to, whatever happens in whatever order.
  pub data Reached : Card → Type 0 where
    at_first : Reached first_card
    after : {s : Card} (e : Event) → Reached s → Reached (step (some current) e s).0

  abbrev Spares : Option Text → Type 0
  Spares none = Unit
  Spares (some id) = id ≢ current.id

  spared : {s : Card} → Reached s → Spares s.deleting_id
  unfolding step
  spared at_first = tt
  spared (after (fetched o) r) = spared r
  spared (after add_clicked r) = spared r
  spared (after (edit_clicked u) r) = spared r
  spared (after {s} (delete_clicked u) r) = elim (Bool-cases (text_eq u.id current.id)) [
    | inl e ↦ rw e (spared r)
    | inr n ↦ rw n (text_eq-eq-false u.id current.id n)
  ]
  spared (after (dialog_opens o) r) = spared r
  spared (after (confirm_opens o) r) = spared r
  spared (after saved r) = spared r
  spared (after confirmed r) = spared r
  spared (after (delete_answered (done _)) r) = tt
  spared (after (delete_answered failed) r) = tt

  -- Whatever happens to the card in whatever order: confirming sends nothing, or the deletion of a user other than
  -- the one who is logged in.
  pub step-confirmed_user :
      {s : Card}
      → Reached s
      → ((step (some current) confirmed s).1 ≡ [])
        ⊎ ((id : Text) × ((id ≢ current.id)
              × ((step (some current) confirmed s).1
                  ≡ send (Api.settings (Api.delete_user id)) ∷ [])))
  unfolding step
  step-confirmed_user {s} r = elim (Option-cases s.deleting_id) [
    | inl e ↦ inl (ap delete_request e)
    | inr (id, e) ↦ elim (Bool-cases (is_empty id)) [
      | inl blank ↦ inl (ap delete_request e ∙ rw blank refl)
      | inr full ↦ inr (id, (subst Spares e (spared r), ap delete_request e ∙ rw full refl))
    ]
  ]
