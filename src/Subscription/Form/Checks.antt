-- ===== src/Subscription/Form/Checks.antt =====
-- When `submit` saves: its chain of early returns against what the form must hold.
use mihomo_cp.Prelude.{
  ◌≡◌, ◌≢◌, refl, ◌↔◌, inl, inr, true, false, [], Option, none, some, is_some, if◌then◌else◌,
  Bool-cases, Option-cases, arith,
}
use mihomo_cp.Js.Text.{Text, trim, is_empty}
use mihomo_cp.Js.Value.{Number, is_finite}
use mihomo_cp.Js.Compare.{not_positive}
use mihomo_cp.Subscription.Form.{
  SourceType, native, traffic, FormProps, Form, Host, Message, traffic_provider_required,
  existing_provider,
}
use mihomo_cp.Subscription.Form.Submit.{
  trimmed_name, editing_current, quota, manual_expiry_iso, bad_reset, bad_quota, valid_timezone,
  bad_timezone, bad_expiry, check_provider, check, request_of, submit,
}
use mihomo_cp.Subscription.Form.Conditions.{
  guard_none, is_empty_iff, WholeIn, reset_gates, ProviderFits, renamed_iff, url_iff, amount_iff,
  expiry_iff,
}
use mihomo_cp.Subscription.Form.Provider.{linked_elsewhere_iff, is_found_iff, unfound_iff}

module _ (host : Host) where
  pub record ResetFits (form : Form) : Type 0 where
    pub day : WholeIn 1 31 (host.to_number form.reset_day)
    pub hour : WholeIn 0 23 (host.to_number form.reset_hour)
    pub minute : WholeIn 0 59 (host.to_number form.reset_minute)
    pub zone : valid_timezone host (trim form.timezone) ≡ true

  reset_iff :
      (form : Form)
      → ((bad_reset host form ≡ false) × (bad_timezone host form ≡ false))
        ↔ (form.reset_configured ≡ true → ResetFits form)
  unfolding bad_reset bad_timezone
  reset_iff form = elim (Bool-cases form.reset_configured) [
    | inr off ↦ rw off (λ e h. cc, λ _. (refl, refl))
    | inl on ↦ rw on (
      λ (e, z) _.
          let (a, b, c, d, f, g, h, i, j) = (reset_gates _ _ _ _ _ _ _ _ _).0 e in
          record {
            day = record { whole = a; from = b; to = c };
            hour = record { whole = d; from = f; to = g };
            minute = record { whole = h; from = i; to = j };
            zone = ground arith;
          },
      λ h.
          let fits = h refl in
          let zone = fits.zone in
          (
            (reset_gates _ _ _ _ _ _ _ _ _).1 (
              fits.day.whole, fits.day.from, fits.day.to, fits.hour.whole, fits.hour.from,
              fits.hour.to, fits.minute.whole, fits.minute.from, fits.minute.to,
            ),
            ground arith,
          ),
    )
  ]

  check_provider_iff :
      (props : FormProps) (form : Form)
      → (check_provider host props form ≡ none) ↔ ProviderFits props form
  unfolding check_provider editing_current existing_provider
  check_provider_iff props form = (
    λ e.
        let (free, e₁) = (guard_none _ _ _).0 e in
        let (renamed, e₂) = (guard_none _ _ _).0 e₁ in
        let (reachable, _) = (guard_none _ _ _).0 e₂ in
        record {
          free = (linked_elsewhere_iff props form).0 free;
          renamed = λ s h other.
              (is_found_iff _ _).0 ((renamed_iff props.subscription _ _).0 renamed s h other);
          reachable = λ h. (url_iff _ _).0 reachable ((unfound_iff _ _).1 h);
        },
    λ fits. (guard_none _ _ _).1 (
      (linked_elsewhere_iff props form).1 fits.free,
      (guard_none _ _ _).1 (
        (renamed_iff props.subscription _ _).1
            (λ s h other. (is_found_iff _ _).1 (fits.renamed s h other)),
        (guard_none _ _ _).1 ((url_iff _ _).1 (λ h. fits.reachable ((unfound_iff _ _).0 h)), refl),
      ),
    ),
  )

  -- What the form must hold to be saved, each part on its own.
  pub record Acceptable (props : FormProps) (form : Form) : Type 0 where
    pub named : trimmed_name form ≢ []
    pub reset : form.reset_configured ≡ true → ResetFits form
    pub amount :
        (q : Number) → quota host form ≡ some q → (is_finite q ≡ true) × (not_positive q ≡ false)
    pub expiry :
        form.expiry_dirty ≡ true
        → form.manual_expiry ≢ []
        → is_some (manual_expiry_iso host form) ≡ true
    pub chosen : form.source_type ≡ traffic → form.traffic_provider_id ≢ []
    pub provider : form.source_type ≡ native → ProviderFits props form

  source_iff :
      (s : SourceType) (id : Text) (rest : Option Message) {P : Type 0}
      → ((rest ≡ none) ↔ P)
      → ((if (elim s [ native ↦ false | traffic ↦ true ])
            then if is_empty id then some traffic_provider_required else none
            else rest)
          ≡ none)
        ↔ ((s ≡ traffic → id ≢ []) × (s ≡ native → P))
  source_iff native id rest p = (λ e. (λ h. cc, λ _. p.0 e), λ h. p.1 (h.1 refl))
  source_iff traffic id rest p = (
    λ e. (λ _. (is_empty_iff id).0 (((guard_none _ _ _).0 e).0), λ h. cc),
    λ h. (guard_none _ _ _).1 ((is_empty_iff id).1 (h.0 refl), refl),
  )

  bad_quota_iff :
      (form : Form)
      → (bad_quota host form ≡ false) ↔ (
          (q : Number) → quota host form ≡ some q → (is_finite q ≡ true) × (not_positive q ≡ false))
  unfolding bad_quota
  bad_quota_iff form = amount_iff (quota host form)

  bad_expiry_iff :
      (form : Form)
      → (bad_expiry host form ≡ false) ↔ (
          form.expiry_dirty ≡ true
          → form.manual_expiry ≢ []
          → is_some (manual_expiry_iso host form) ≡ true)
  unfolding bad_expiry
  bad_expiry_iff form = expiry_iff form.expiry_dirty form.manual_expiry _

  check_iff :
      (props : FormProps) (form : Form) → (check host props form ≡ none) ↔ Acceptable props form
  unfolding check
  check_iff props form = (
    λ e.
        let (named, e₁) = (guard_none _ _ _).0 e in
        let (reset, e₂) = (guard_none _ _ _).0 e₁ in
        let (amount, e₃) = (guard_none _ _ _).0 e₂ in
        let (zone, e₄) = (guard_none _ _ _).0 e₃ in
        let (expiry, e₅) = (guard_none _ _ _).0 e₄ in
        let (chosen, provider) =
          (source_iff form.source_type form.traffic_provider_id _ (check_provider_iff props form)).0
            e₅ in
        record {
          named = (is_empty_iff _).0 named;
          reset = (reset_iff form).0 (reset, zone);
          amount = (bad_quota_iff form).0 amount;
          expiry = (bad_expiry_iff form).0 expiry;
          chosen = chosen;
          provider = provider;
        },
    λ ok.
        let (reset, zone) = (reset_iff form).1 ok.reset in
        let source =
          (source_iff form.source_type form.traffic_provider_id _ (check_provider_iff props form)).1
            (ok.chosen, ok.provider) in
        let expiry = (bad_expiry_iff form).1 ok.expiry in
        let amount = (bad_quota_iff form).1 ok.amount in
        rw ((is_empty_iff _).1 ok.named, reset, amount, zone, expiry) source,
  )

  -- `submit` calls `onSave` with its payload exactly when the form is acceptable: it has a name; a reset
  -- that is configured lies within bounds and in a known zone; a quota that is typed is finite and
  -- positive; a changed expiry that is typed reads as an instant; a traffic source is chosen. For a
  -- native source, the first provider with the name in the provider field, if there is one, is linked
  -- to no subscription but the edited one, there is one if the edited subscription changes its provider
  -- name, and if there is none a URL is typed. A blank provider field is looked up as it is.
  pub submit_iff :
      (props : FormProps) (form : Form)
      → ((submit host props form).1 ≡ some (request_of host props form)) ↔ Acceptable props form
  unfolding submit
  submit_iff props form = elim (Option-cases (check host props form)) [
    | inl fine ↦ rw (submit, fine) (λ _. (check_iff props form).0 fine, λ _. refl)
    | inr (m, wrong) ↦
        rw (submit, wrong) (λ e. cc, λ ok. let fine = (check_iff props form).1 ok in cc)
  ]
