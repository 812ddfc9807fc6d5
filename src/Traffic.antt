-- ===== src/Traffic.antt =====
-- The traffic page, web/src/pages/traffic.tsx: the dialog of a provider and the alert settings.
-- `parseFloat`, `parseInt`, the arithmetic on doubles and the known zones are the host's.
pub mod Patterns
pub mod Provider
use mihomo_cp.Prelude.{
  ℕ, Bool, true, false, not, ◌&&◌, ◌||◌, List, [], ◌∷◌, ◌++◌, map, keep, Option, none, some, ◌==◌,
  if◌then◌else◌,
}
use mihomo_cp.Js.Text.{Text, codes, trim, is_empty}
use mihomo_cp.Js.Value.{Number, nan, int}
use mihomo_cp.Js.Compare.{below, above, not_positive}

pub record TrafficProvider : Type 0 where
  pub id : Text
  pub name : Text
  pub quota_bytes : Number
  pub reset_day : Number
  pub reset_hour : Option Number
  pub reset_minute : Option Number
  pub reset_timezone : Option Text
  pub node_patterns : List Text
  pub subscription_url : Text
  pub enabled : Bool

pub record ProviderForm : Type 0 where
  pub name : Text
  pub quota_gb : Text
  pub reset_day : Text
  pub reset_hour : Text
  pub reset_minute : Text
  pub reset_timezone : Text
  pub patterns : Text
  pub subscription_url : Text
  pub enabled : Bool

abbrev pub empty_form : ProviderForm
empty_form = record {
  name = [];
  quota_gb = [];
  reset_day = codes "1";
  reset_hour = codes "0";
  reset_minute = codes "0";
  reset_timezone = [];
  patterns = [];
  subscription_url = [];
  enabled = true;
}

pub record ProviderInput : Type 0 where
  pub name : Text
  pub quota_bytes : Number
  pub reset_day : Number
  pub reset_hour : Number
  pub reset_minute : Number
  pub reset_timezone : Text
  pub node_patterns : List Text
  pub subscription_url : Text
  pub enabled : Bool

pub record Host : Type 0 where
  pub parse_float : Text → Number
  pub parse_int : Text → Number
  pub number_text : Number → Text
  pub gb_text : Number → Text
  pub gb_bytes : Number → Number
  pub is_zone : Text → Bool

-- `[,，]`.
abbrev pub is_comma : ℕ → Bool
is_comma c = c == 44 || c == 0xff0c

-- A character in front of the first piece.
abbrev pub onto_first : ℕ → List Text → List Text
onto_first c [] = (c ∷ []) ∷ []
onto_first c (piece ∷ pieces) = (c ∷ piece) ∷ pieces

-- `text.split(/[,，]/)`.
unfoldable pub split_commas : Text → List Text
split_commas [] = [] ∷ []
split_commas (c ∷ s) =
    let rest = split_commas s in if is_comma c then [] ∷ rest else onto_first c rest

-- `.map((s) => s.trim()).filter(Boolean)`.
abbrev pub trimmed_pieces : List Text → List Text
trimmed_pieces pieces = keep (λ s. not (is_empty s)) (map trim pieces)

unfoldable pub patterns_of : Text → List Text
unfolding split_commas trim
patterns_of s = trimmed_pieces (split_commas s)

-- `patterns.join(', ')`.
unfoldable pub join_patterns : List Text → Text
join_patterns [] = []
join_patterns (p ∷ []) = p
join_patterns (p ∷ q ∷ ps) = p ++ 44 ∷ 32 ∷ join_patterns (q ∷ ps)

abbrev pub is_nan : Number → Bool
is_nan nan = true
is_nan _ = false

abbrev pub or_zero_number : Option Number → Number
or_zero_number none = int 0
or_zero_number (some n) = n

abbrev pub or_empty : Option Text → Text
or_empty none = []
or_empty (some s) = s

-- `arr.length ? arr : [80, 95]`.
abbrev pub or_default_thresholds : List Number → List Number
or_default_thresholds [] = int 80 ∷ int 95 ∷ []
or_default_thresholds (n ∷ ns) = n ∷ ns

abbrev pub is_threshold : Number → Bool
is_threshold n = not (is_nan n) && above n 0 && not (above n 100)

module _ (host : Host) where
  unfoldable pub open_edit : TrafficProvider → ProviderForm
  unfolding join_patterns
  open_edit p = record {
    name = p.name;
    quota_gb = if above p.quota_bytes 0 then host.gb_text p.quota_bytes else [];
    reset_day = host.number_text p.reset_day;
    reset_hour = host.number_text (or_zero_number p.reset_hour);
    reset_minute = host.number_text (or_zero_number p.reset_minute);
    reset_timezone = or_empty p.reset_timezone;
    patterns = join_patterns p.node_patterns;
    subscription_url = p.subscription_url;
    enabled = p.enabled;
  }

  abbrev pub valid_timezone : Text → Bool
  valid_timezone zone = is_empty zone || host.is_zone zone

  -- The test of `saveProvider`.
  unfoldable pub is_invalid : ProviderForm → Bool
  unfolding trim
  is_invalid form =
      let quota_gb = host.parse_float form.quota_gb in
      let day = host.parse_int form.reset_day in
      let hour = host.parse_int form.reset_hour in
      let minute = host.parse_int form.reset_minute in
      is_empty (trim form.name)
      || is_nan quota_gb
      || below quota_gb 0
      || is_nan day
      || below day 1
      || above day 31
      || is_nan hour
      || below hour 0
      || above hour 23
      || is_nan minute
      || below minute 0
      || above minute 59
      || not (valid_timezone (trim form.reset_timezone))

  unfoldable pub input_of : ProviderForm → ProviderInput
  unfolding trim patterns_of
  input_of form = record {
    name = trim form.name;
    quota_bytes = host.gb_bytes (host.parse_float form.quota_gb);
    reset_day = host.parse_int form.reset_day;
    reset_hour = host.parse_int form.reset_hour;
    reset_minute = host.parse_int form.reset_minute;
    reset_timezone = trim form.reset_timezone;
    node_patterns = patterns_of form.patterns;
    subscription_url = trim form.subscription_url;
    enabled = form.enabled;
  }

  -- What `saveProvider` sends, if it sends anything.
  unfoldable pub save_provider : ProviderForm → Option ProviderInput
  unfolding is_invalid input_of
  save_provider form = if is_invalid form then none else some (input_of form)

  -- The thresholds that `saveSettings` sends.
  unfoldable pub thresholds_of : Text → List Number
  unfolding split_commas trim
  thresholds_of s =
      or_default_thresholds
        (keep is_threshold (map (λ piece. host.parse_int (trim piece)) (split_commas s)))
