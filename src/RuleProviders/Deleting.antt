-- ===== src/RuleProviders/Deleting.antt =====
-- Which provider a confirmed deletion is about.
use mihomo_cp.Prelude.{
  ◌≡◌, refl, sym, ◌∙◌, ap, ◌⊎◌, inl, inr, [], ◌∷◌, Option, none, some, Bool-cases, Option-cases,
}
use mihomo_cp.Js.Text.{Text, is_empty}
use mihomo_cp.Api
use mihomo_cp.RuleProviders.{
  RuleProvider, Outcome, done, failed, PageState, first_page, Event, fetched, add_clicked,
  edit_clicked, content_clicked, delete_clicked, refresh_clicked, form_opens, content_opens,
  confirm_opens, submitted, saved, confirmed, delete_answered, refresh_answered, send,
  delete_request, step,
}

-- The provider whose button for deleting was pressed last.
abbrev last_clicked : Event → Option Text → Option Text
last_clicked (delete_clicked p) last = some p.id
last_clicked _ last = last

-- The states that the page comes to, whatever happens in whatever order, each with the provider whose
-- button for deleting was pressed last.
pub data Reached : Option Text → PageState → Type 0 where
  at_first : Reached none first_page
  after :
      {last : Option Text} {s : PageState} (e : Event)
      → Reached last s
      → Reached (last_clicked e last) (step e s).0

aimed :
    {last : Option Text} {s : PageState}
    → Reached last s
    → (s.deleting_id ≡ none) ⊎ (s.deleting_id ≡ last)
unfolding step
aimed at_first = inl refl
aimed (after (fetched (done x)) r) = aimed r
aimed (after (fetched failed) r) = aimed r
aimed (after add_clicked r) = aimed r
aimed (after (edit_clicked p) r) = aimed r
aimed (after (content_clicked p) r) = aimed r
aimed (after (refresh_clicked p) r) = aimed r
aimed (after (form_opens o) r) = aimed r
aimed (after (content_opens o) r) = aimed r
aimed (after (confirm_opens o) r) = aimed r
aimed (after (submitted d) r) = aimed r
aimed (after (saved p (done d)) r) = aimed r
aimed (after (saved p failed) r) = aimed r
aimed (after confirmed r) = aimed r
aimed (after (refresh_answered p (done d)) r) = aimed r
aimed (after (refresh_answered p failed) r) = aimed r
aimed (after (delete_answered (done d)) r) = inl refl
aimed (after (delete_answered failed) r) = inl refl
aimed (after (delete_clicked p) r) = inr refl

-- Whatever happens to the page in whatever order: confirming sends nothing, or the deletion of the provider whose
-- button for deleting was pressed last.
pub step-confirmed :
    {last : Option Text} {s : PageState}
    → Reached last s
    → ((step confirmed s).1 ≡ [])
      ⊎ ((id : Text) × ((last ≡ some id)
            × ((step confirmed s).1
                ≡ send (Api.rule_providers (Api.delete_rule_provider id)) ∷ [])))
unfolding step
step-confirmed {last} {s} r = elim (Option-cases s.deleting_id) [
  | inl e ↦ inl (ap delete_request e)
  | inr (id, e) ↦ elim (Bool-cases (is_empty id)) [
    | inl blank ↦ inl (ap delete_request e ∙ rw blank refl)
    | inr full ↦ inr (
      id,
      (
        elim (aimed r) [ inl n ↦ absurd (cc) | inr l ↦ sym l ∙ e ],
        ap delete_request e ∙ rw full refl,
      ),
    )
  ]
]

-- A deletion whose answer arrives when another provider is up for confirmation: confirming this one then
-- does nothing.
delete_answered-step-confirmed :
    (o : Outcome Unit) (p : RuleProvider) (s : PageState)
    → (step confirmed (step (delete_answered o) (step (delete_clicked p) s).0).0).1 ≡ []
unfolding step
delete_answered-step-confirmed (done _) p s = refl
delete_answered-step-confirmed failed p s = refl
