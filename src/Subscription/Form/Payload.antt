-- ===== src/Subscription/Form/Payload.antt =====
-- What the payload of `submit` holds and what it leaves out.
use mihomo_cp.Prelude.{
  ◌≡◌, ◌≢◌, refl, sym, ap, subst, ◌∙◌, ◌↔◌, ◌⊎◌, inl, inr, Bool, true, false, not, ◌||◌, [], ◌∷◌,
  Option, none, some, some_inj, is_some, find, if◌then◌else◌, Option-cases,
}
use mihomo_cp.Js.Text.{Text, text_eq, trim, non_empty}
use mihomo_cp.Js.Text.Laws.{text_eq_iff}
use mihomo_cp.Subscription.Form.Provider.{Unnamed, unfound_iff}
use mihomo_cp.Subscription.Form.{
  SourceType, native, traffic, Subscription, FormProps, Form, Host, TrafficProvider,
  existing_provider, handle_traffic_provider_change, inherit,
}
use mihomo_cp.Subscription.Form.Submit.{
  SubscriptionInput, SaveRequest, trimmed_url, trimmed_provider, editing_current, may_update_url,
  traffic_input, native_input, input_of, request_of, check, submit,
}
use mihomo_cp.Subscription.Form.Checks.{Acceptable, submit_iff}

non_empty_iff : (s u : Text) → (non_empty s ≡ some u) ↔ ((s ≡ u) × (u ≢ []))
non_empty_iff [] u = (λ e. cc, λ h. absurd (h.1 (sym h.0)))
non_empty_iff (c ∷ s) u = (λ e. (some_inj e, λ z. cc), λ h. ap some h.0)

may_iff :
    {A : Type 0} (o : Option A) (own : Bool)
    → ((not (is_some o) || own) ≡ true) ↔ ((o ≡ none) ⊎ (own ≡ true))
may_iff none own = (λ _. inl refl, λ _. refl)
may_iff (some a) own = (λ e. inr e, λ h. elim h [ inl e ↦ cc | inr e ↦ e ])

sent_iff :
    (may : Bool) (s u : Text)
    → ((if may then non_empty s else none) ≡ some u) ↔ ((may ≡ true) × (s ≡ u) × (u ≢ []))
sent_iff true s u = (
  λ e. let (same, full) = (non_empty_iff s u).0 e in (refl, same, full),
  λ h. (non_empty_iff s u).1 (h.1, h.2),
)
sent_iff false s u = (λ e. cc, λ h. cc (h.0))

-- The provider name that is sent is the one of the edited subscription.
abbrev pub KeepsProvider : Option Subscription → Form → Type 0
KeepsProvider edited form =
    (s : Subscription) × (edited ≡ some s) × (trimmed_provider form ≡ s.provider_name)

keeps_iff :
    (edited : Option Subscription) (name : Text)
    → ((elim edited [ none ↦ false | some s ↦ text_eq name s.provider_name ]) ≡ true)
      ↔ ((s : Subscription) × (edited ≡ some s) × (name ≡ s.provider_name))
keeps_iff none name = (λ e. cc, λ h. cc (h.1))
keeps_iff (some s) name = (
  λ e. (s, refl, (text_eq_iff name s.provider_name).0 e),
  λ (r, here, same).
      (text_eq_iff name s.provider_name).1
        (same ∙ ap (λ (x : Subscription). x.provider_name) (sym (some_inj here))),
)

editing_current_iff :
    (props : FormProps) (form : Form)
    → (editing_current props form ≡ true) ↔ KeepsProvider props.subscription form
unfolding editing_current
editing_current_iff props form = keeps_iff props.subscription (trimmed_provider form)

module _ (host : Host) where
  url_core :
      (props : FormProps) (form : Form) (u : Text) (s : SourceType)
      → ((elim s as (λ _. SubscriptionInput) [
        | native ↦ native_input host props form
        | traffic ↦ traffic_input host props form
      ]).url
          ≡ some u)
        ↔ ((s ≡ native)
            × (Unnamed (trim form.provider_name) props.providers
                ⊎ KeepsProvider props.subscription form)
            × (trimmed_url form ≡ u)
            × (u ≢ []))
  unfolding native_input traffic_input may_update_url existing_provider
  url_core props form u native = (
    λ e.
        let (may, same, full) = (sent_iff _ _ _).0 e in
        (
          refl,
          elim ((may_iff (existing_provider props form) _).0 may) [
            | inl new ↦ inl ((unfound_iff _ _).0 new)
            | inr own ↦ inr ((editing_current_iff props form).0 own)
          ],
          same,
          full,
        ),
    λ h. (sent_iff _ _ _).1 (
      (may_iff (existing_provider props form) _).1 (elim h.1 [
        | inl new ↦ inl ((unfound_iff _ _).1 new)
        | inr own ↦ inr ((editing_current_iff props form).1 own)
      ]),
      h.2,
      h.3,
    ),
  )
  url_core props form u traffic = (λ e. cc, λ h. cc (h.0))

  -- A URL is sent exactly when the source is native, the trimmed URL field holds it and is not blank,
  -- and either no listed provider has the trimmed text of the provider field as its name, or the
  -- provider name that is sent is the one of the edited subscription.
  pub input_of-url :
      (props : FormProps) (form : Form) (u : Text)
      → ((input_of host props form).url ≡ some u) ↔ (
          (form.source_type ≡ native)
          × (Unnamed (trim form.provider_name) props.providers
              ⊎ KeepsProvider props.subscription form)
          × (trimmed_url form ≡ u)
          × (u ≢ []))
  unfolding input_of
  input_of-url props form u = url_core props form u form.source_type

  -- The fields that the backend keeps or inherits because they are left out.
  pub record LeavesSupplements (input : SubscriptionInput) : Type 0 where
    pub quota : input.quota_bytes ≡ none
    pub day : input.reset_day ≡ none
    pub hour : input.reset_hour ≡ none
    pub minute : input.reset_minute ≡ none
    pub zone : input.timezone ≡ none

  untouched :
      (props : FormProps) (form : Form)
      → form.source_type ≡ traffic
      → form.quota_dirty ≡ false
      → form.reset_dirty ≡ false
      → LeavesSupplements (input_of host props form)
  unfolding input_of traffic_input
  untouched props form t q r =
      rw (input_of, t, traffic_input, q, r)
        record { quota = refl; day = refl; hour = refl; minute = refl; zone = refl }

  inherited :
      (props : FormProps) (form : Form) (id : Text) (tp : TrafficProvider)
      → props.subscription ≡ none
      → find (λ p. text_eq p.id id) props.traffic_providers ≡ some tp
      → handle_traffic_provider_change host props id form
        ≡ inherit host tp (record form { traffic_provider_id = id })
  unfolding handle_traffic_provider_change
  inherited props form id tp new found = rw (handle_traffic_provider_change, new, found) refl

  -- When a new traffic subscription chooses a traffic provider that exists, its quota and its reset
  -- are left out of the payload, whatever was typed before: the backend inherits them.
  handle_traffic_provider_change-input_of :
      (props : FormProps) (form : Form) (id : Text) (tp : TrafficProvider)
      → props.subscription ≡ none
      → form.source_type ≡ traffic
      → find (λ p. text_eq p.id id) props.traffic_providers ≡ some tp
      → LeavesSupplements (input_of host props (handle_traffic_provider_change host props id form))
  unfolding handle_traffic_provider_change
  handle_traffic_provider_change-input_of props form id tp new t found =
      subst (λ f. LeavesSupplements (input_of host props f))
        (sym (inherited props form id tp new found))
        (untouched props (inherit host tp (record form { traffic_provider_id = id })) t refl refl)

  pub submit-eq-some :
      (props : FormProps) (form : Form) (r : SaveRequest)
      → (submit host props form).1 ≡ some r
      → (r ≡ request_of host props form) × Acceptable host props form
  unfolding submit
  submit-eq-some props form r e = elim (Option-cases (check host props form)) [
    | inl fine ↦
        let same : request_of host props form ≡ r = some_inj (rw (submit, fine) at e) in
        (sym same, (submit_iff host props form).0 (e ∙ ap some (sym same)))
    | inr (m, wrong) ↦ cc (rw (submit, wrong) at e)
  ]
