-- ===== src/Subscription/Form/Submit.antt =====
-- `submit` of subscription-form.tsx: its checks in their order, the payload, and what becomes of the
-- form before and after `onSave`.
use mihomo_cp.Prelude.{
  Bool, true, false, not, ◌&&◌, ◌||◌, [], Option, none, some, is_some, if◌then◌else◌,
}
use mihomo_cp.Js.Text.{Text, text_eq, trim, is_empty, non_empty}
use mihomo_cp.Js.Value.{Number, is_finite, int}
use mihomo_cp.Js.Compare.{is_integer, below, above, not_positive}
use mihomo_cp.Subscription.WallTime.{wall_time_to_iso}
use mihomo_cp.Subscription.Form.{
  SourceType, native, traffic, FormProps, Form, Host, Message, form_invalid,
  traffic_provider_required, provider_conflict, provider_must_exist, url_required, or_text,
  text_or_empty, existing_provider, linked_elsewhere,
}

pub record SubscriptionInput : Type 0 where
  pub name : Text
  pub url : Option Text
  pub provider_name : Option Text
  pub source_type : Option SourceType
  pub traffic_provider_id : Option Text
  pub quota_bytes : Option Number
  pub manual_expire : Option Text
  pub reset_day : Option Number
  pub reset_hour : Option Number
  pub reset_minute : Option Number
  pub timezone : Option Text
  pub enabled : Bool

-- The payload with the id of the subscription, as `onSave` takes them.
pub record SaveRequest : Type 0 where
  pub input : SubscriptionInput
  pub id : Option Text

abbrev pub is_traffic : Form → Bool
is_traffic form = elim form.source_type [ native ↦ false | traffic ↦ true ]

unfoldable pub trimmed_name : Form → Text
unfolding trim
trimmed_name form = trim form.name

unfoldable pub trimmed_provider : Form → Text
unfolding trim
trimmed_provider form = or_text (trim form.provider_name) (trim form.name)

unfoldable pub trimmed_url : Form → Text
unfolding trim
trimmed_url form = trim form.url

-- The trimmed provider name is the one of the edited subscription.
unfoldable pub editing_current : FormProps → Form → Bool
unfolding text_eq trimmed_provider
editing_current props form = elim props.subscription [
  | none ↦ false
  | some s ↦ text_eq (trimmed_provider form) s.provider_name
]

abbrev pub keep_if {ℓ} : {A : Type ℓ} → Bool → A → Option A
keep_if true a = some a
keep_if false a = none

module _ (host : Host) where
  unfoldable pub quota : Form → Option Number
  unfolding trim
  quota form = if is_empty (trim form.quota_gb) then none else some (host.to_number form.quota_gb)

  unfoldable pub manual_expiry_iso : Form → Option Text
  unfolding wall_time_to_iso
  manual_expiry_iso form =
      if is_empty form.manual_expiry
      then some []
      else wall_time_to_iso host.clock form.manual_expiry form.expiry_timezone

  abbrev pub reset_number : Form → Text → Number
  reset_number form value = if form.reset_configured then host.to_number value else int 0

  unfoldable pub bad_reset : Form → Bool
  bad_reset form =
      let day = reset_number form form.reset_day in
      let hour = reset_number form form.reset_hour in
      let minute = reset_number form form.reset_minute in
      form.reset_configured
      && (not (is_integer day)
          || below day 1
          || above day 31
          || not (is_integer hour)
          || below hour 0
          || above hour 23
          || not (is_integer minute)
          || below minute 0
          || above minute 59)

  abbrev pub bad_amount : Option Number → Bool
  bad_amount none = false
  bad_amount (some q) = not (is_finite q) || not_positive q

  unfoldable pub bad_quota : Form → Bool
  unfolding quota
  bad_quota form = bad_amount (quota form)

  -- `validTimezone`.
  abbrev pub valid_timezone : Text → Bool
  valid_timezone zone = is_empty zone || host.clock.is_zone zone

  unfoldable pub bad_timezone : Form → Bool
  unfolding trim
  bad_timezone form = form.reset_configured && not (valid_timezone (trim form.timezone))

  unfoldable pub bad_expiry : Form → Bool
  unfolding manual_expiry_iso
  bad_expiry form =
      form.expiry_dirty
      && not (is_empty form.manual_expiry)
      && not (is_some (manual_expiry_iso form))

  -- The checks on the provider of a native source.
  unfoldable pub check_provider : FormProps → Form → Option Message
  unfolding linked_elsewhere editing_current existing_provider trimmed_url
  check_provider props form =
      let existing = is_some (existing_provider props form) in
      if linked_elsewhere props form
      then some provider_conflict
      else if is_some props.subscription && not (editing_current props form) && not existing
      then some provider_must_exist
      else if not existing && is_empty (trimmed_url form)
      then some url_required
      else none

  unfoldable pub check : FormProps → Form → Option Message
  unfolding trimmed_name bad_reset bad_quota bad_timezone bad_expiry check_provider
  check props form =
      if is_empty (trimmed_name form)
      then some form_invalid
      else if bad_reset form
      then some form_invalid
      else if bad_quota form
      then some form_invalid
      else if bad_timezone form
      then some form_invalid
      else if bad_expiry form
      then some form_invalid
      else if is_traffic form
      then if is_empty form.traffic_provider_id then some traffic_provider_required else none
      else check_provider props form

  abbrev pub sent_timezone : Form → Text
  sent_timezone form = if form.reset_configured then trim form.timezone else []

  abbrev pub sent_quota : Form → Option Number
  sent_quota form =
      keep_if form.quota_dirty (elim (quota form) [ none ↦ int 0 | some q ↦ host.gb_bytes q ])

  abbrev pub sent_expiry : Form → Option Text
  sent_expiry form = keep_if form.expiry_dirty (text_or_empty (manual_expiry_iso form))

  unfoldable pub traffic_input : FormProps → Form → SubscriptionInput
  unfolding trimmed_name trim quota manual_expiry_iso
  traffic_input props form = record {
    name = trimmed_name form;
    enabled = form.enabled;
    url = none;
    provider_name = none;
    traffic_provider_id = some form.traffic_provider_id;
    source_type = keep_if (not (is_some props.subscription)) traffic;
    quota_bytes = sent_quota form;
    reset_day = keep_if form.reset_dirty (reset_number form form.reset_day);
    reset_hour = keep_if form.reset_dirty (reset_number form form.reset_hour);
    reset_minute = keep_if form.reset_dirty (reset_number form form.reset_minute);
    timezone = keep_if form.reset_dirty (sent_timezone form);
    manual_expire = sent_expiry form;
  }

  unfoldable pub may_update_url : FormProps → Form → Bool
  unfolding existing_provider editing_current
  may_update_url props form =
      not (is_some (existing_provider props form)) || editing_current props form

  unfoldable pub native_input : FormProps → Form → SubscriptionInput
  unfolding trimmed_name trimmed_provider trimmed_url trim quota manual_expiry_iso may_update_url
  native_input props form = record {
    name = trimmed_name form;
    enabled = form.enabled;
    provider_name = some (trimmed_provider form);
    source_type = none;
    reset_day = some (reset_number form form.reset_day);
    reset_hour = some (reset_number form form.reset_hour);
    reset_minute = some (reset_number form form.reset_minute);
    timezone = some (sent_timezone form);
    url = if may_update_url props form then non_empty (trimmed_url form) else none;
    quota_bytes = sent_quota form;
    manual_expire = sent_expiry form;
    traffic_provider_id = some form.traffic_provider_id;
  }

  unfoldable pub input_of : FormProps → Form → SubscriptionInput
  unfolding traffic_input native_input
  input_of props form = elim form.source_type [
    | native ↦ native_input props form
    | traffic ↦ traffic_input props form
  ]

  abbrev pub request_of : FormProps → Form → SaveRequest
  request_of props form = record {
    input = input_of props form;
    id = elim props.subscription [ none ↦ none | some s ↦ some s.id ];
  }

  -- The form while `onSave` runs, and the call that was made, if any.
  unfoldable pub submit : FormProps → Form → Form × Option SaveRequest
  unfolding check input_of
  submit props form = elim (check props form) [
    | some message ↦ (record form { form_error = some message }, none)
    | none ↦ (record form { form_error = none; saving = true }, some (request_of props form))
  ]

-- After `onSave` has ended, well or not: the form, and whether the dialog is closed.
unfoldable pub settle : Bool → Form → Form × Bool
settle saved form = (record form { saving = false }, saved)
