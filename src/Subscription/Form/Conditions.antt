-- ===== src/Subscription/Form/Conditions.antt =====
-- The checks of `submit`, one by one, against what they ask for.
use mihomo_cp.Prelude.{
  subst, ◌≡◌, ℕ, ◌≢◌, refl, ap, ◌∙◌, ◌↔◌, inl, inr, Bool, true, false, not, ◌&&◌, ◌||◌, [], ◌∷◌,
  Option, none, some, some_inj, is_some, if◌then◌else◌, Bool-cases, arith,
}
use mihomo_cp.Js.Text.{Text, text_eq, trim, is_empty}
use mihomo_cp.Js.Text.Laws.{text_eq_iff}
use mihomo_cp.Js.Value.{Number, is_finite}
use mihomo_cp.Js.Compare.{is_integer, below, above, not_positive}
use mihomo_cp.Subscription.Form.{Subscription, FormProps, Form, DiscoveredProvider}
use mihomo_cp.Subscription.Form.Provider.{FirstNamed, Unnamed, LinkedHere}
use mihomo_cp.Subscription.Form.Submit.{trimmed_provider, trimmed_url}

-- An early return is not taken, and neither is a later one.
pub guard_none {ℓ} :
    {A : Type ℓ} (bad : Bool) (m : A) (rest : Option A)
    → ((if bad then some m else rest) ≡ none) ↔ ((bad ≡ false) × (rest ≡ none))
guard_none true m rest = (λ e. cc, λ h. cc (h.0))
guard_none false m rest = (λ e. (refl, e), λ h. h.1)

pub is_empty_iff : (s : Text) → (is_empty s ≡ false) ↔ (s ≢ [])
is_empty_iff [] = (λ e. cc, λ h. absurd (h refl))
is_empty_iff (c ∷ s) = (λ e h. cc, λ h. refl)

-- A whole number from `low` to `high`.
pub record WholeIn (low : ℕ) (high : ℕ) (n : Number) : Type 0 where
  pub whole : is_integer n ≡ true
  pub from : below n low ≡ false
  pub to : above n high ≡ false

pub reset_gates :
    (a b c d e f g h i : Bool)
    → ((not a || b || c || not d || e || f || not g || h || i) ≡ false) ↔ (
        (a ≡ true)
        × (b ≡ false)
        × (c ≡ false)
        × (d ≡ true)
        × (e ≡ false)
        × (f ≡ false)
        × (g ≡ true)
        × (h ≡ false)
        × (i ≡ false))
reset_gates a b c d e f g h i = ground arith

-- What the checks on the provider of a native source ask for: the provider that the provider field
-- names, if any, is linked to no subscription but the edited one; an edited subscription that changes
-- its provider gets one that exists; a provider that does not exist needs a URL.
pub record ProviderFits (props : FormProps) (form : Form) : Type 0 where
  pub free :
      (p : DiscoveredProvider)
      → FirstNamed (trim form.provider_name) p props.providers
      → LinkedHere props.subscription p
  pub renamed :
      (s : Subscription)
      → props.subscription ≡ some s
      → trimmed_provider form ≢ s.provider_name
      → (p : DiscoveredProvider) × FirstNamed (trim form.provider_name) p props.providers
  pub reachable : Unnamed (trim form.provider_name) props.providers → trimmed_url form ≢ []

pub renamed_iff :
    (o : Option Subscription) (provider : Text) (exists : Bool)
    → ((is_some o
          && not (elim o [ none ↦ false | some s ↦ text_eq provider s.provider_name ])
          && not exists)
        ≡ false)
      ↔ ((s : Subscription) → o ≡ some s → provider ≢ s.provider_name → exists ≡ true)
renamed_iff none provider exists = (λ e s h. cc, λ _. refl)
renamed_iff (some s) provider true = (λ e s' h other. refl, λ _. ground arith)
renamed_iff (some s) provider false = (
  λ e s' h other. absurd (
      other (
        (text_eq_iff provider s.provider_name).0 (ground arith)
        ∙ ap (λ r. r.provider_name) (some_inj h))),
  λ h. elim (Bool-cases (text_eq provider s.provider_name)) [
    | inl same ↦ rw same refl
    | inr other ↦ cc (h s refl (λ e. cc ((text_eq_iff provider s.provider_name).1 e, other)))
  ],
)

pub url_iff :
    {A : Type 0} (o : Option A) (url : Text)
    → ((not (is_some o) && is_empty url) ≡ false) ↔ (o ≡ none → url ≢ [])
url_iff none url = (λ e _. (is_empty_iff _).0 e, λ h. (is_empty_iff _).1 (h refl))
url_iff (some p) url = (λ e h. cc, λ _. refl)

pub amount_iff :
    (o : Option Number)
    → ((elim o [ none ↦ false | some q ↦ not (is_finite q) || not_positive q ]) ≡ false)
      ↔ ((q : Number) → o ≡ some q → (is_finite q ≡ true) × (not_positive q ≡ false))
amount_iff none = (λ e q h. cc, λ _. refl)
amount_iff (some q) = (
  λ e r h.
      let here : (is_finite q ≡ true) × (not_positive q ≡ false) = ground arith in
      subst (λ x. (is_finite x ≡ true) × (not_positive x ≡ false)) (some_inj h) here,
  λ h. let here = h q refl in ground arith,
)

pub expiry_iff :
    (dirty : Bool) (typed : Text) (given : Bool)
    → ((dirty && not (is_empty typed) && not given) ≡ false)
      ↔ (dirty ≡ true → typed ≢ [] → given ≡ true)
expiry_iff false typed given = (λ e h. cc, λ _. refl)
expiry_iff true [] given = (λ e h full. absurd (full refl), λ _. refl)
expiry_iff true (c ∷ s) true = (λ e h full. refl, λ _. refl)
expiry_iff true (c ∷ s) false = (λ e. cc, λ h. cc (h refl (λ e. cc)))
