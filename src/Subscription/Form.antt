-- ===== src/Subscription/Form.antt =====
-- The form of web/src/components/subscriptions/subscription-form.tsx: the data it reads, its state,
-- its `useEffect` and its handlers. `submit` is in Form/Submit.
pub mod Submit
pub mod Provider
pub mod Conditions
pub mod Checks
pub mod Payload
pub mod Ranges
use mihomo_cp.Prelude.{
  Bool, true, false, not, ◌&&◌, ◌||◌, List, [], ◌∷◌, Option, none, some, ◌or_else◌, is_some, find,
  if◌then◌else◌,
}
use mihomo_cp.Js.Text.{Text, codes, text_eq, trim, is_empty}
use mihomo_cp.Js.Value.{Number, at_least}
use mihomo_cp.Js.Compare.{not_positive, above, or_zero}
use mihomo_cp.Subscription.WallTime.{Clock, to_date_time_input}

pub data SourceType : Type 0 where
  native : SourceType
  traffic : SourceType

-- The fields of `Subscription`, and below of `DiscoveredProvider` and `TrafficProvider`, that the form
-- reads; `total` is `userinfo?.total ?? 0`, with `none`
-- where there is no `userinfo`.
pub record Subscription : Type 0 where
  pub id : Text
  pub name : Text
  pub enabled : Bool
  pub provider_name : Text
  pub source_type : Text
  pub quota_bytes : Option Number
  pub total : Option Number
  pub expires_at : Option Text
  pub expires_source : Text
  pub reset_day : Number
  pub reset_hour : Number
  pub reset_minute : Number
  pub timezone : Option Text
  pub traffic_provider_id : Text

pub record DiscoveredProvider : Type 0 where
  pub name : Text
  pub linked_subscription_id : Option Text

pub record TrafficProvider : Type 0 where
  pub id : Text
  pub quota_bytes : Number
  pub reset_day : Number
  pub reset_hour : Number
  pub reset_minute : Number
  pub reset_timezone : Text

pub record FormProps : Type 0 where
  pub subscription : Option Subscription
  pub providers : List DiscoveredProvider
  pub traffic_providers : List TrafficProvider

-- The keys of the texts that `formError` is set to.
pub data Message : Type 0 where
  form_invalid : Message
  traffic_provider_required : Message
  provider_conflict : Message
  provider_must_exist : Message
  url_required : Message

-- The `useState` cells; `form_error` is `none` for the empty text.
pub record Form : Type 0 where
  pub name : Text
  pub source_type : SourceType
  pub provider_name : Text
  pub provider_touched : Bool
  pub url : Text
  pub enabled : Bool
  pub quota_gb : Text
  pub quota_dirty : Bool
  pub manual_expiry : Text
  pub expiry_dirty : Bool
  pub expiry_timezone : Text
  pub reset_configured : Bool
  pub reset_dirty : Bool
  pub reset_day : Text
  pub reset_hour : Text
  pub reset_minute : Text
  pub timezone : Text
  pub traffic_provider_id : Text
  pub form_error : Option Message
  pub saving : Bool

-- The host: `Number(text)`, `String(number)`, the browser's zone, the amount of bytes as a text in
-- GB with two decimals, `Math.round(quota * GB)`, and the clock.
pub record Host : Type 0 where
  pub to_number : Text → Number
  pub number_text : Number → Text
  pub gb_text : Number → Text
  pub gb_bytes : Number → Number
  pub browser_timezone : Text
  pub clock : Clock

-- `text || other`.
abbrev pub or_text : Text → Text → Text
or_text [] other = other
or_text (c ∷ s) other = c ∷ s

abbrev pub text_or_empty : Option Text → Text
text_or_empty none = []
text_or_empty (some s) = s

-- `(total ?? 0) <= 0`.
abbrev pub no_total : Option Number → Bool
no_total none = true
no_total (some total) = not_positive total

abbrev pub found_provider : List DiscoveredProvider → Text → Option DiscoveredProvider
found_provider providers wanted = find (λ p. text_eq p.name wanted) providers

unfoldable pub existing_provider : FormProps → Form → Option DiscoveredProvider
unfolding text_eq trim
existing_provider props form = found_provider props.providers (trim form.provider_name)

-- `id !== subscription?.id`.
unfoldable pub other_id : Option Subscription → Text → Bool
unfolding text_eq
other_id none id = true
other_id (some s) id = not (text_eq id s.id)

unfoldable pub linked_elsewhere : FormProps → Form → Bool
unfolding existing_provider other_id
linked_elsewhere props form = elim (existing_provider props form) [
  | none ↦ false
  | some p ↦ elim p.linked_subscription_id [
    | none ↦ false
    | some id ↦ not (is_empty id) && other_id props.subscription id
  ]
]

-- The condition under which the save button is not disabled.
unfoldable pub can_save : FormProps → Form → Bool
unfolding linked_elsewhere
can_save props form = not (form.saving || linked_elsewhere props form)

unfoldable pub handle_name_change : FormProps → Text → Form → Form
handle_name_change props value form =
    if not (is_some props.subscription) && not form.provider_touched
    then record form { name = value; provider_name = value }
    else record form { name = value }

unfoldable pub handle_timezone_change : Text → Form → Form
handle_timezone_change value form = record form { timezone = value; reset_dirty = true }

unfoldable pub change_provider_name : Text → Form → Form
change_provider_name value form = record form { provider_touched = true; provider_name = value }

unfoldable pub change_quota : Text → Form → Form
change_quota value form = record form { quota_gb = value; quota_dirty = true }

unfoldable pub change_reset_configured : Bool → Form → Form
unfolding text_eq
change_reset_configured checked form = record form {
  reset_configured = checked;
  reset_dirty = true;
  reset_day =
      if checked && (is_empty form.reset_day || text_eq form.reset_day (codes "0"))
      then codes "1"
      else form.reset_day;
}

unfoldable pub change_manual_expiry : Text → Form → Form
change_manual_expiry value form = record form { manual_expiry = value; expiry_dirty = true }

module _ (host : Host) where
  -- `hasReset ? String(day) : '1'`.
  abbrev pub day_text : Number → Text
  day_text day = if at_least day 1 then host.number_text day else codes "1"

  abbrev pub shown_quota : Subscription → Text
  shown_quota s = elim s.quota_bytes [
    | none ↦ []
    | some bytes ↦ if no_total s.total then host.gb_text bytes else []
  ]

  abbrev pub expiry_zone : Subscription → Text
  expiry_zone s = or_text (text_or_empty s.timezone) host.browser_timezone

  -- The first branch of the effect.
  unfoldable pub load_subscription : Subscription → Form → Form
  unfolding text_eq to_date_time_input
  load_subscription s form = record form {
    form_error = none;
    url = [];
    name = s.name;
    source_type = if text_eq s.source_type (codes "traffic") then traffic else native;
    provider_name = or_text s.provider_name s.name;
    provider_touched = true;
    enabled = s.enabled;
    quota_gb = shown_quota s;
    expiry_timezone = expiry_zone s;
    quota_dirty = false;
    expiry_dirty = false;
    manual_expiry =
        if text_eq s.expires_source (codes "manual")
        then to_date_time_input host.clock s.expires_at (expiry_zone s)
        else [];
    reset_configured = at_least s.reset_day 1;
    reset_dirty = false;
    reset_day = day_text s.reset_day;
    reset_hour = host.number_text (or_zero s.reset_hour);
    reset_minute = host.number_text (or_zero s.reset_minute);
    timezone = text_or_empty s.timezone;
    traffic_provider_id = s.traffic_provider_id;
  }

  -- The second branch: a new subscription.
  unfoldable pub load_new : Form → Form
  load_new form = record form {
    form_error = none;
    url = [];
    name = [];
    source_type = native;
    provider_name = [];
    provider_touched = false;
    enabled = true;
    quota_gb = [];
    quota_dirty = false;
    manual_expiry = [];
    expiry_dirty = false;
    expiry_timezone = host.browser_timezone;
    reset_configured = false;
    reset_dirty = false;
    reset_day = codes "1";
    reset_hour = codes "0";
    reset_minute = codes "0";
    timezone = host.browser_timezone;
    traffic_provider_id = [];
  }

  -- The effect on `[open, subscription]`.
  unfoldable pub load : Bool → Option Subscription → Form → Form
  unfolding load_subscription load_new
  load false o form = form
  load true (some s) form = load_subscription s form
  load true none form = load_new form

  abbrev pub inherit : TrafficProvider → Form → Form
  inherit tp form = record form {
    quota_gb = if above tp.quota_bytes 0 then host.gb_text tp.quota_bytes else [];
    quota_dirty = false;
    reset_configured = at_least tp.reset_day 1;
    reset_day = day_text tp.reset_day;
    reset_hour = host.number_text (or_zero tp.reset_hour);
    reset_minute = host.number_text (or_zero tp.reset_minute);
    timezone = tp.reset_timezone;
    reset_dirty = false;
  }

  unfoldable pub handle_traffic_provider_change : FormProps → Text → Form → Form
  unfolding text_eq
  handle_traffic_provider_change props value form =
      let chosen = record form { traffic_provider_id = value } in
      if is_some props.subscription
      then chosen
      else elim (find (λ p. text_eq p.id value) props.traffic_providers) [
        | none ↦ chosen
        | some tp ↦ inherit tp chosen
      ]
