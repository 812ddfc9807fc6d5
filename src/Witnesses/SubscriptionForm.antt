-- ===== src/Witnesses/SubscriptionForm.antt =====
-- The subscription form and its wall-clock times at concrete inputs.
use mihomo_cp.Prelude.{
  ◌≡◌, ◌≢◌, refl, ◌+◌, ◌*◌, ◌/◌, ◌%◌, ◌↔◌, ◌⊎◌, true, false, not, [], ◌∷◌, none, some, find, arith,
}
use mihomo_cp.Js.Text.{Text, codes, is_empty, text_eq, trim}
use mihomo_cp.Js.Text.Decimal.{decimal}
use mihomo_cp.Js.Value.{Number, plus, int}
use mihomo_cp.Js.Date.{pos, pos_part}
use mihomo_cp.Subscription.WallTime.{WallTime, Clock, match_wall, wall_text, wall_time_to_iso}
use mihomo_cp.Subscription.WallTime.Laws.{Printable, match_wall-wall_text}
use mihomo_cp.Subscription.Form.{
  native, traffic, Subscription, TrafficProvider, FormProps, Form, Host, can_save, load, can_save,
  handle_name_change,
}
use mihomo_cp.Subscription.Form.Submit.{trimmed_url, input_of, request_of, check, submit}
use mihomo_cp.Subscription.Form.Checks.{Acceptable, submit_iff}
use mihomo_cp.Subscription.Form.Payload.{KeepsProvider, input_of-url}
use mihomo_cp.Subscription.Form.Provider.{Unnamed}
use mihomo_cp.Subscription.Form.Ranges.{ResetSent, LeavesStored, submit-ResetSent, load-input_of}
use mihomo_cp.Witnesses.Inputs.{digit, century}

-- A clock that knows the time of the day in UTC.
abbrev day_clock : Clock
day_clock = record {
  utc = λ w. pos (((w.hour * 60 + w.minute) * 60 + w.second) * 1000);
  is_zone = λ zone. not (is_empty zone);
  wall_clock = λ t zone. some (record {
    year = 2026;
    month = 1;
    day = 2;
    hour = pos_part t / 3_600_000;
    minute = pos_part t / 60_000 % 60;
    second = pos_part t / 1000 % 60;
  });
  to_iso = λ t. some (decimal (pos_part t));
  time_of = century;
}

abbrev shown : Number → Text
shown (plus m _) = decimal m
shown _ = codes "0"

abbrev host : Host
host = record {
  to_number = digit;
  number_text = shown;
  gb_text = shown;
  gb_bytes = λ n. n;
  browser_timezone = codes "UTC";
  clock = day_clock;
}

abbrev morning : WallTime
morning = record { year = 2026; month = 1; day = 2; hour = 3; minute = 4; second = 5 }

morning-Printable : Printable morning
morning-Printable = record {
  from = omega arith;
  year = omega arith;
  month = omega arith;
  day = omega arith;
  hour = omega arith;
  minute = omega arith;
  second = omega arith;
}

match_wall-wall_text_example : match_wall (wall_text morning) ≡ some morning
match_wall-wall_text_example = match_wall-wall_text morning morning-Printable

morning_iso :
    wall_time_to_iso day_clock (codes "2026-01-02T03:04") (codes "UTC") ≡ some (codes "11040000")
unfolding wall_time_to_iso decimal
morning_iso = refl

abbrev blank_form : Form
blank_form = record {
  name = [];
  source_type = native;
  provider_name = [];
  provider_touched = false;
  url = [];
  enabled = true;
  quota_gb = [];
  quota_dirty = false;
  manual_expiry = [];
  expiry_dirty = false;
  expiry_timezone = codes "UTC";
  reset_configured = false;
  reset_dirty = false;
  reset_day = codes "1";
  reset_hour = codes "0";
  reset_minute = codes "0";
  timezone = codes "UTC";
  traffic_provider_id = [];
  form_error = none;
  saving = false;
}

-- A new native subscription with a quota and a reset.
abbrev new_form : Form
new_form = record blank_form {
  name = codes " Work ";
  provider_name = codes "Work";
  url = codes "https://a.example/s";
  quota_gb = codes "5";
  quota_dirty = true;
  reset_configured = true;
  reset_dirty = true;
  reset_day = codes "7";
}

abbrev pub stored : Subscription
stored = record {
  id = codes "s1";
  name = codes "Work";
  enabled = true;
  provider_name = codes "Work";
  source_type = codes "native";
  quota_bytes = some (int 5);
  total = none;
  expires_at = none;
  expires_source = codes "unknown";
  reset_day = int 7;
  reset_hour = int 0;
  reset_minute = int 0;
  timezone = none;
  traffic_provider_id = [];
}

abbrev plan : TrafficProvider
plan = record {
  id = codes "t1";
  quota_bytes = int 9;
  reset_day = int 3;
  reset_hour = int 0;
  reset_minute = int 0;
  reset_timezone = codes "UTC";
}

abbrev props : FormProps
props = record {
  subscription = none;
  providers = record { name = codes "Taken"; linked_subscription_id = some (codes "s2") } ∷ [];
  traffic_providers = plan ∷ [];
}

abbrev edit_props : FormProps
edit_props = record props { subscription = some stored }

new_form_saved : (submit host props new_form).1 ≡ some (request_of host props new_form)
unfolding submit
new_form_saved = refl

submit_iff_example :
    ((submit host props new_form).1 ≡ some (request_of host props new_form))
    ↔ Acceptable host props new_form
submit_iff_example = submit_iff host props new_form

submit-ResetSent_example : ResetSent host (request_of host props new_form).input
submit-ResetSent_example =
    submit-ResetSent host props new_form (request_of host props new_form) new_form_saved

input_of-url_example : ((input_of host props new_form).url ≡ some (codes "https://a.example/s")) ↔ (
    (new_form.source_type ≡ native)
    × (Unnamed (codes "Work") props.providers ⊎ KeepsProvider props.subscription new_form)
    × (trimmed_url new_form ≡ codes "https://a.example/s")
    × (codes "https://a.example/s" ≢ []))
unfolding trim
input_of-url_example = input_of-url host props new_form (codes "https://a.example/s")

plan_found : find (λ p. text_eq p.id (codes "t1")) props.traffic_providers ≡ some plan
unfolding text_eq
plan_found = refl

load-input_of_example :
    LeavesStored host (input_of host edit_props (load host true (some stored) new_form))
load-input_of_example = load-input_of host edit_props new_form stored refl

-- A blank provider field, while the name is that of a provider linked to another subscription: the
-- form is sent, with the URL.
abbrev shadow_form : Form
shadow_form = record blank_form { name = codes "Taken"; url = codes "https://b.example/s" }

shadow_sent : (submit host props shadow_form).1 ≡ some (request_of host props shadow_form)
unfolding submit
shadow_sent = refl

shadow_url :
    ((input_of host props shadow_form).url ≡ some (codes "https://b.example/s"))
    × ((input_of host props shadow_form).provider_name ≡ some (codes "Taken"))
unfolding input_of
shadow_url = (refl, refl)

-- A traffic source has no provider field, yet its provider name follows the name: the form passes
-- every check, and the save button is disabled.
abbrev traffic_form : Form
traffic_form =
    record (handle_name_change props (codes "Taken")
      (record blank_form { source_type = traffic })) { traffic_provider_id = codes "t1" }

traffic_blocked : (check host props traffic_form ≡ none) × (can_save props traffic_form ≡ false)
unfolding check can_save handle_name_change
traffic_blocked = (refl, refl)
