-- ===== src/Subscription/Form/Ranges.antt =====
-- The numbers of a payload that is sent, and the payload of a subscription that is saved as it was
-- opened.
use mihomo_cp.Prelude.{
  ℕ, ◌≡◌, refl, sym, subst, ◌⊎◌, inl, inr, Bool, true, false, Option, none, some, some_inj,
  Bool-cases, if◌then◌else◌,
}
use mihomo_cp.Js.Text.{Text}
use mihomo_cp.Js.Value.{Number, int}
use mihomo_cp.Subscription.Form.{
  SourceType, native, traffic, Subscription, FormProps, Form, Host, load, load_subscription,
}
use mihomo_cp.Subscription.Form.Submit.{
  SubscriptionInput, SaveRequest, keep_if, traffic_input, native_input, input_of, may_update_url,
  trimmed_url, reset_number, submit,
}
use mihomo_cp.Subscription.Form.Conditions.{WholeIn}
use mihomo_cp.Subscription.Form.Checks.{Acceptable}
use mihomo_cp.Subscription.Form.Payload.{submit-eq-some}

kept {ℓ} : {A : Type ℓ} (b : Bool) (x d : A) → keep_if b x ≡ some d → x ≡ d
kept true x d e = some_inj e
kept false x d e = cc

module _ (host : Host) where
  -- The reset fields of a payload, where it has them: zeros, or whole numbers within their bounds.
  pub record ResetSent (input : SubscriptionInput) : Type 0 where
    pub day : (d : Number) → input.reset_day ≡ some d → (d ≡ int 0) ⊎ WholeIn 1 31 d
    pub hour : (h : Number) → input.reset_hour ≡ some h → (h ≡ int 0) ⊎ WholeIn 0 23 h
    pub minute : (m : Number) → input.reset_minute ≡ some m → (m ≡ int 0) ⊎ WholeIn 0 59 m

  number_sent :
      (form : Form) (value : Text) (low high : ℕ)
      → (form.reset_configured ≡ true → WholeIn low high (host.to_number value))
      → (reset_number host form value ≡ int 0) ⊎ WholeIn low high (reset_number host form value)
  number_sent form value low high fits = elim (Bool-cases form.reset_configured) [
    | inl on ↦ inr (rw on (fits on))
    | inr off ↦ inl (rw off refl)
  ]

  reset_sent :
      (props : FormProps) (form : Form) (s : SourceType)
      → Acceptable host props form
      → ResetSent (elim s as (λ _. SubscriptionInput) [
        | native ↦ native_input host props form
        | traffic ↦ traffic_input host props form
      ])
  unfolding native_input traffic_input
  reset_sent props form native ok = record {
    day = λ d e.
        subst (λ x. (x ≡ int 0) ⊎ WholeIn 1 31 x) (some_inj e)
          (number_sent form form.reset_day 1 31 (λ on. (ok.reset on).day));
    hour = λ h e.
        subst (λ x. (x ≡ int 0) ⊎ WholeIn 0 23 x) (some_inj e)
          (number_sent form form.reset_hour 0 23 (λ on. (ok.reset on).hour));
    minute = λ m e.
        subst (λ x. (x ≡ int 0) ⊎ WholeIn 0 59 x) (some_inj e)
          (number_sent form form.reset_minute 0 59 (λ on. (ok.reset on).minute));
  }
  reset_sent props form traffic ok = record {
    day = λ d e.
        subst (λ x. (x ≡ int 0) ⊎ WholeIn 1 31 x) (kept form.reset_dirty _ d e)
          (number_sent form form.reset_day 1 31 (λ on. (ok.reset on).day));
    hour = λ h e.
        subst (λ x. (x ≡ int 0) ⊎ WholeIn 0 23 x) (kept form.reset_dirty _ h e)
          (number_sent form form.reset_hour 0 23 (λ on. (ok.reset on).hour));
    minute = λ m e.
        subst (λ x. (x ≡ int 0) ⊎ WholeIn 0 59 x) (kept form.reset_dirty _ m e)
          (number_sent form form.reset_minute 0 59 (λ on. (ok.reset on).minute));
  }

  -- In every payload that is sent, the day, hour and minute of the reset are left out, are zero, or
  -- are whole numbers from 1 to 31, from 0 to 23, and from 0 to 59.
  pub submit-ResetSent :
      (props : FormProps) (form : Form) (r : SaveRequest)
      → (submit host props form).1 ≡ some r
      → ResetSent r.input
  unfolding input_of
  submit-ResetSent props form r e =
      let (same, ok) = submit-eq-some host props form r e in
      subst (λ q. ResetSent q.input) (sym same) (reset_sent props form form.source_type ok)

  -- What a payload leaves as the backend has it.
  pub record LeavesStored (input : SubscriptionInput) : Type 0 where
    pub url : input.url ≡ none
    pub quota : input.quota_bytes ≡ none
    pub expiry : input.manual_expire ≡ none
    pub source : input.source_type ≡ none

  blank_url : (may : Bool) → (if◌then◌else◌ {A = Option Text} may none none) ≡ none
  blank_url true = refl
  blank_url false = refl

  leaves_stored :
      (props : FormProps) (form : Form) (s : Subscription) (o : SourceType)
      → props.subscription ≡ some s
      → LeavesStored (elim o as (λ _. SubscriptionInput) [
        | native ↦ native_input host props (load_subscription host s form)
        | traffic ↦ traffic_input host props (load_subscription host s form)
      ])
  unfolding native_input traffic_input load_subscription trimmed_url
  leaves_stored props form s native old = record {
    url = blank_url (may_update_url host props (load_subscription host s form));
    quota = refl;
    expiry = refl;
    source = refl;
  }
  leaves_stored props form s traffic old = record {
    url = refl;
    quota = refl;
    expiry = refl;
    source = rw old refl;
  }

  -- A subscription that is opened in the form and saved without a change: the payload has no URL,
  -- quota, expiry or source type, so that the stored ones are kept.
  pub load-input_of :
      (props : FormProps) (form : Form) (s : Subscription)
      → props.subscription ≡ some s
      → LeavesStored (input_of host props (load host true (some s) form))
  unfolding input_of load
  load-input_of props form s old =
      leaves_stored props form s (load_subscription host s form).source_type old
