-- ===== src/NodeScore/Info.antt =====
-- `normalizeIpInfo`: one flat payload as the facts that it states, each read under the names that
-- the two endpoints use. A value of another type, or a blank text, is no fact.
use mihomo_cp.Prelude.{Bool, List, [], Option, none, some, ◌or_else◌, if◌then◌else◌}
use mihomo_cp.Js.Text.{Text, codes, is_empty, trim}
use mihomo_cp.Js.Value.{
  Number, is_finite, Value, bool, num, str, arr, obj, Items, nil, cons, Object, get, nullish,
}
use mihomo_cp.Js.TextSet.{add}
use mihomo_cp.NodeScore.{IpIntel}

unfoldable pub empty_intel : IpIntel
empty_intel = record {
  ip = none;
  cidr = none;
  country = none;
  country_code = none;
  region = none;
  city = none;
  asn = none;
  asn_org = none;
  company_type = none;
  company_name = none;
  datacenter_name = none;
  is_residential = none;
  is_datacenter = none;
  is_vpn = none;
  is_proxy = none;
  is_tor = none;
  is_mobile = none;
  is_crawler = none;
  is_abuser = none;
  abuser_score = none;
  trust_score = none;
  sources = [];
  ai_verdict_label = none;
  ai_verdict_reason = none;
  raw = none;
}

unfoldable pub as_record : Value → Option Object
as_record (obj o) = some o
as_record _ = none

-- `str`: a text that is not blank.
unfoldable pub as_text : Value → Option Text
unfolding trim
as_text (str s) = if is_empty (trim s) then none else some s
as_text _ = none

unfoldable pub as_bool : Value → Option Bool
as_bool (bool b) = some b
as_bool _ = none

abbrev pub finite : Number → Option Number
finite n = if is_finite n then some n else none

-- `o.name`, with the name as a literal.
abbrev pub text_at : Object → Text → Option Text
text_at o name = as_text (get name o)

abbrev pub bool_at : Object → Text → Option Bool
bool_at o name = as_bool (get name o)

abbrev pub add_some : List Text → Option Text → List Text
add_some set none = set
add_some set (some s) = add set s

-- One entry of the list of sources.
unfoldable pub source_name : Value → Option Text
unfolding as_text get
source_name (str s) = some s
source_name (obj o) =
    text_at o (codes "src") or_else text_at o (codes "name") or_else text_at o (codes "source")
source_name _ = none

unfoldable pub source_names : List Text → Items → List Text
unfolding source_name add
source_names set nil = set
source_names set (cons v vs) = source_names (add_some set (source_name v)) vs

abbrev pub listed : List Text → Value → List Text
listed set (arr vs) = source_names set vs
listed set _ = set

-- A field of an object that may be absent.
abbrev pub text_in : Option Object → Text → Option Text
text_in none name = none
text_in (some o) name = text_at o name

module _ (to_number : Text → Number) where
  -- `num`: a finite number, or a text that is not blank and reads as one.
  unfoldable pub as_number : Value → Option Number
  unfolding trim
  as_number (num n) = finite n
  as_number (str s) = if is_empty (trim s) then none else finite (to_number s)
  as_number _ = none

  unfoldable pub intel_of : Object → IpIntel
  unfolding as_record as_text as_bool as_number source_names get
  intel_of c =
      let sources = add_some [] (text_at c (codes "src")) in
      let raw_sources = nullish (get (codes "sources") c) (get (codes "geo_sources") c) in
      let verdict = as_record (get (codes "ai_verdict") c) in
      record {
        ip = text_at c (codes "ip");
        cidr = text_at c (codes "cidr");
        country = text_at c (codes "country");
        country_code = text_at c (codes "countryCode") or_else text_at c (codes "country_code");
        region = text_at c (codes "region");
        city = text_at c (codes "city");
        asn = as_number (get (codes "asn") c);
        asn_org =
            text_at c (codes "asOrganization")
            or_else text_at c (codes "as_organization")
            or_else text_at c (codes "asn_org")
            or_else text_at c (codes "asnOrg");
        company_type = text_at c (codes "company_type") or_else text_at c (codes "companyType");
        company_name =
            text_at c (codes "company_name")
            or_else text_at c (codes "companyName")
            or_else text_at c (codes "isp");
        datacenter_name =
            text_at c (codes "datacenter_name") or_else text_at c (codes "datacenterName");
        is_residential =
            bool_at c (codes "isResidential") or_else bool_at c (codes "is_residential");
        is_datacenter = bool_at c (codes "is_datacenter") or_else bool_at c (codes "isDatacenter");
        is_vpn = bool_at c (codes "is_vpn") or_else bool_at c (codes "isVpn");
        is_proxy = bool_at c (codes "is_proxy") or_else bool_at c (codes "isProxy");
        is_tor = bool_at c (codes "is_tor") or_else bool_at c (codes "isTor");
        is_mobile = bool_at c (codes "is_mobile") or_else bool_at c (codes "isMobile");
        is_crawler = bool_at c (codes "is_crawler") or_else bool_at c (codes "isCrawler");
        is_abuser = bool_at c (codes "is_abuser") or_else bool_at c (codes "isAbuser");
        abuser_score = text_at c (codes "abuser_score") or_else text_at c (codes "abuserScore");
        trust_score =
            as_number (get (codes "trust_score") c) or_else as_number (get (codes "trustScore") c);
        sources = listed sources raw_sources;
        ai_verdict_label = text_in verdict (codes "label");
        ai_verdict_reason = text_in verdict (codes "reasoning");
        raw = some c;
      }

  abbrev pub intel_or_empty : Option Object → IpIntel
  intel_or_empty none = empty_intel
  intel_or_empty (some c) = intel_of c

  unfoldable pub normalize_ip_info : Value → IpIntel
  unfolding intel_of empty_intel as_record
  normalize_ip_info raw = intel_or_empty (as_record raw)
