-- ===== src/NodeScore/View.antt =====
-- The row of the score table as the pages show it, web/src/api/node-scores.ts: `toNodeScoreView` and
-- its helpers. `to_number` is `Number(text)`; `utc_year` is the year of `new Date(text)`, `none` where
-- the date is invalid. Optional fields of a row that are missing are `none` too.
pub mod Laws
pub mod Facts
use mihomo_cp.Prelude.{
  Bool, true, false, List, [], ◌∷◌, map, Option, none, some, ◌or_else◌, if◌then◌else◌,
}
use mihomo_cp.Js.Text.{Text, codes, text_eq, is_empty, non_empty}
use mihomo_cp.Js.Value.{
  Number, is_finite, Value, undefined, null, bool, num, str, Object, empty, field, of_nullable,
}
use mihomo_cp.Js.Date.{ℤ, pos, leb_ℤ}
use mihomo_cp.NodeScore.{
  IpMatch, exact, cidr, mismatch, unknown, SourceName, claude, lookup, IpIntel, SourceIntel,
}
use mihomo_cp.Subscription.Timestamp.{normalize_timestamp}
use mihomo_cp.NodeScore.Band.{match_of_text}
use mihomo_cp.NodeScore.Info.{finite, normalize_ip_info}
use mihomo_cp.NodeScore.Sources.{parse_score_sources}
use mihomo_cp.NodeScore.Split.{source_of}

pub record NodeScore : Type 0 where
  pub id : Text
  pub node_name : Text
  pub node_kind : Text
  pub provider_name : Option Text
  pub status : Text
  pub error : Text
  pub error_code : Text
  pub exit_ip : Text
  pub exit_ip_cidr : Option Text
  pub trust_score : Option Number
  pub score_source : Text
  pub queried_ip : Option Text
  pub matched_ip : Option Text
  pub ip_mismatch : Bool
  pub range_only : Bool
  pub claude_ip_match : Option Text
  pub claude_response_ip : Option Text
  pub country : Option Text
  pub country_code : Option Text
  pub asn : Option Number
  pub asn_org : Option Text
  pub company_type : Option Text
  pub is_residential : Option Bool
  pub is_datacenter : Option Bool
  pub is_vpn : Option Bool
  pub is_proxy : Option Bool
  pub is_tor : Option Bool
  pub abuser_score : Option Text
  pub checked_at : Option Text
  pub last_success_at : Option Text
  pub next_due : Option Text
  pub updated_at : Option Text
  pub ip_info : Value

pub data ViewKind : Type 0 where
  static provider : ViewKind

pub data ViewStatus : Type 0 where
  pending checking ok error skipped : ViewStatus

pub record NodeScoreView : Type 0 where
  pub id : Text
  pub kind : ViewKind
  pub node_name : Text
  pub provider_name : Text
  pub status : ViewStatus
  pub score : Option Number
  pub score_source : Text
  pub ip_match : IpMatch
  pub ip_mismatch : Bool
  pub range_only : Bool
  pub exit_ip : Option Text
  pub exit_ip_cidr : Option Text
  pub queried_ip : Option Text
  pub matched_ip : Option Text
  pub sources : List SourceIntel
  pub checked_at : Option Text
  pub last_success_at : Option Text
  pub next_due : Option Text
  pub updated_at : Option Text
  pub error : Text
  pub error_code : Text

unfoldable pub normalize_score_status : Text → ViewStatus
unfolding text_eq
normalize_score_status value =
    if text_eq value (codes "testing")
    then checking
    else if text_eq value (codes "failed")
    then error
    else if text_eq value (codes "checking")
    then checking
    else if text_eq value (codes "ok")
    then ok
    else if text_eq value (codes "error")
    then error
    else if text_eq value (codes "skipped")
    then skipped
    else pending

-- `s || null` on a text that may be null.
abbrev pub filled : Option Text → Option Text
filled none = none
filled (some s) = non_empty s

abbrev pub or_blank : Option Text → Text
or_blank none = []
or_blank (some s) = s

-- `typeof x === 'number' && Number.isFinite(x) ? x : null`.
abbrev pub finite_score : Option Number → Option Number
finite_score none = none
finite_score (some n) = finite n

unfoldable pub merge_row_intel : IpIntel → NodeScore → IpIntel
merge_row_intel intel row = record intel {
  country = intel.country or_else row.country;
  country_code = intel.country_code or_else row.country_code;
  asn = intel.asn or_else row.asn;
  asn_org = intel.asn_org or_else row.asn_org;
  company_type = intel.company_type or_else row.company_type;
  is_residential = intel.is_residential or_else row.is_residential;
  is_datacenter = intel.is_datacenter or_else row.is_datacenter;
  is_vpn = intel.is_vpn or_else row.is_vpn;
  is_proxy = intel.is_proxy or_else row.is_proxy;
  is_tor = intel.is_tor or_else row.is_tor;
  abuser_score = intel.abuser_score or_else row.abuser_score;
  trust_score = intel.trust_score or_else row.trust_score;
}

-- The facts of a row, as the payload that `syntheticClaudeSource` normalizes.
unfoldable pub row_payload : NodeScore → Object
row_payload row = field (codes "country") (of_nullable str row.country) (
    field (codes "countryCode") (of_nullable str row.country_code) (
      field (codes "asn") (of_nullable num row.asn) (
        field (codes "asOrganization") (of_nullable str row.asn_org) (
          field (codes "company_type") (of_nullable str row.company_type) (
            field (codes "is_residential") (of_nullable bool row.is_residential) (
              field (codes "is_datacenter") (of_nullable bool row.is_datacenter) (
                field (codes "is_vpn") (of_nullable bool row.is_vpn) (
                  field (codes "is_proxy") (of_nullable bool row.is_proxy) (
                    field (codes "is_tor") (of_nullable bool row.is_tor) (
                      field (codes "abuser_score") (of_nullable str row.abuser_score) (
                        field (codes "trust_score") (of_nullable num row.trust_score)
                          empty)))))))))))

-- `lookupMatch === 'mismatch'`.
abbrev pub is_mismatch : Option IpMatch → Bool
is_mismatch (some mismatch) = true
is_mismatch _ = false

abbrev pub match_word : Option Text → IpMatch
match_word none = unknown
match_word (some s) = match_of_text s

-- The match that a row states: `ip_mismatch`, then `range_only`, then its own word if not empty,
-- then whether an address was matched at all.
unfoldable pub row_match : NodeScore → IpMatch
unfolding match_of_text
row_match row =
    if row.ip_mismatch
    then match_of_text (codes "mismatch")
    else if row.range_only
    then match_of_text (codes "cidr")
    else match_word (
        filled row.claude_ip_match
        or_else some
            (elim (filled row.matched_ip) [ none ↦ codes "unknown" | some _ ↦ codes "exact" ]))

module _ (to_number : Text → Number) where
  unfoldable pub synthetic_claude_source : NodeScore → Option IpMatch → SourceIntel
  unfolding normalize_ip_info row_payload match_of_text
  synthetic_claude_source row lookup_match = record {
    source = claude;
    query_ip = filled row.queried_ip or_else non_empty row.exit_ip;
    response_ip = filled row.matched_ip or_else filled row.claude_response_ip;
    ip_match = if is_mismatch lookup_match then unknown else match_word row.claude_ip_match;
    cidr = row.exit_ip_cidr;
    trust_score = finite_score row.trust_score;
    intel = normalize_ip_info to_number (Value.obj (row_payload row));
  }

  -- The `claude` source gets the facts that it misses from the row; others stay.
  unfoldable pub merge_source : NodeScore → SourceIntel → SourceIntel
  unfolding merge_row_intel
  merge_source row source = elim (source.source) [
    | claude ↦ record source { intel = merge_row_intel source.intel row }
    | lookup ↦ source
  ]

  abbrev pub parent_match : NodeScore → Value
  parent_match row = if row.range_only then str (codes "cidr") else undefined

  abbrev pub lookup_match : Option SourceIntel → Option IpMatch
  lookup_match none = none
  lookup_match (some s) = some s.ip_match

  unfoldable pub view_sources : NodeScore → List SourceIntel
  unfolding parse_score_sources synthetic_claude_source merge_source
  view_sources row =
      let sources = parse_score_sources to_number row.ip_info (parent_match row) in
      elim (source_of claude sources) [
        | none ↦ synthetic_claude_source row (lookup_match (source_of lookup sources)) ∷ sources
        | some _ ↦ map (merge_source row) sources
      ]

  module _ (utc_year : Text → Option ℤ) where
    unfoldable pub to_node_score_view : NodeScore → NodeScoreView
    unfolding view_sources row_match normalize_score_status normalize_timestamp text_eq
    to_node_score_view row = record {
      id = row.id;
      kind = if text_eq row.node_kind (codes "provider") then provider else static;
      node_name = row.node_name;
      provider_name = or_blank row.provider_name;
      status = normalize_score_status row.status;
      score = finite_score row.trust_score;
      score_source = row.score_source;
      ip_match = row_match row;
      ip_mismatch = row.ip_mismatch;
      range_only = row.range_only;
      exit_ip = non_empty row.exit_ip;
      exit_ip_cidr = filled row.exit_ip_cidr;
      queried_ip = filled row.queried_ip;
      matched_ip = filled row.matched_ip or_else filled row.claude_response_ip;
      sources = view_sources row;
      checked_at = normalize_timestamp utc_year row.checked_at;
      last_success_at = normalize_timestamp utc_year row.last_success_at;
      next_due = normalize_timestamp utc_year row.next_due;
      updated_at = normalize_timestamp utc_year row.updated_at;
      error = row.error;
      error_code = row.error_code;
    }
