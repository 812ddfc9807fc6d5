-- ===== src/Witnesses/NodeScore.antt =====
-- Payloads, rows and views at concrete inputs.
use mihomo_cp.Prelude.{◌≡◌, ◌≢◌, refl, ◌↔◌, ◌⊎◌, true, false, [], ◌∷◌, none, some}
use mihomo_cp.Js.Text.{codes}
use mihomo_cp.Js.Value.{int, undefined, str, obj, Object, empty, field}
use mihomo_cp.NodeScore.{exact, mismatch, claude, lookup}
use mihomo_cp.NodeScore.Info.{intel_of}
use mihomo_cp.NodeScore.Facts.{StatedBy, intel_of-StatedBy}
use mihomo_cp.NodeScore.Sources.{build_source, claude_raw, lookup_raw, parse_score_sources}
use mihomo_cp.NodeScore.Split.{names, source_of}
use mihomo_cp.NodeScore.View.{
  NodeScore, error, filled, parent_match, view_sources, to_node_score_view,
}
use mihomo_cp.NodeScore.View.Laws.{HasClaude, view_sources_lem, to_node_score_view-exact}
use mihomo_cp.Witnesses.Inputs.{digit, century}

abbrev claude_part : Object
claude_part = field (codes "ip") (str (codes "1.2.3.4")) (
    field (codes "query_ip") (str (codes "1.2.3.4")) (
      field (codes "country") (str (codes " "))
        (field (codes "trust_score") (str (codes "7")) empty)))

abbrev lookup_part : Object
lookup_part =
    field (codes "ip") (str (codes "1.2.3.9"))
      (field (codes "query_ip") (str (codes "1.2.3.4")) empty)

abbrev payload : Object
payload = field (codes "iprisk") (obj claude_part) (field (codes "lookup") (obj lookup_part) empty)

parsed :
    ((build_source digit claude claude_part undefined).ip_match ≡ exact)
    × ((build_source digit lookup lookup_part undefined).ip_match ≡ mismatch)
    × ((intel_of digit claude_part).country ≡ none)
    × ((intel_of digit claude_part).trust_score ≡ some (int 7))
unfolding build_source intel_of
parsed = (refl, refl, refl, refl)

intel_of-StatedBy_example : StatedBy digit claude_part (intel_of digit claude_part)
intel_of-StatedBy_example = intel_of-StatedBy digit claude_part

payload-parts : (claude_raw payload ≡ some claude_part) × (lookup_raw payload ≡ some lookup_part)
unfolding claude_raw lookup_raw
payload-parts = (refl, refl)

abbrev pub row : NodeScore
row = record {
  id = codes "r";
  node_name = codes "A";
  node_kind = codes "provider";
  provider_name = none;
  status = codes "failed";
  error = [];
  error_code = [];
  exit_ip = codes "1.2.3.4";
  exit_ip_cidr = none;
  trust_score = some (int 60);
  score_source = [];
  queried_ip = none;
  matched_ip = some (codes "1.2.3.4");
  ip_mismatch = false;
  range_only = false;
  claude_ip_match = none;
  claude_response_ip = none;
  country = some (codes "JP");
  country_code = none;
  asn = none;
  asn_org = none;
  company_type = none;
  is_residential = some true;
  is_datacenter = none;
  is_vpn = none;
  is_proxy = none;
  is_tor = none;
  abuser_score = none;
  checked_at = some (codes "0001-01-01T00:00:00Z");
  last_success_at = some (codes "2026-01-01T00:00:00Z");
  next_due = none;
  updated_at = none;
  ip_info = obj (field (codes "lookup") (obj lookup_part) empty);
}

viewed :
    let view = to_node_score_view digit century row in
    (view.status ≡ error)
    × (view.ip_match ≡ exact)
    × (view.checked_at ≡ none)
    × (view.last_success_at ≡ row.last_success_at)
    × (names view.sources ≡ claude ∷ lookup ∷ [])
unfolding to_node_score_view
viewed = (refl, refl, refl, refl, refl)

view_sources_lem_example :
    HasClaude (names (view_sources digit row))
    × (source_of lookup (view_sources digit row)
        ≡ source_of lookup (parse_score_sources digit row.ip_info (parent_match digit row)))
view_sources_lem_example = view_sources_lem digit row

to_node_score_view-exact_example : ((to_node_score_view digit century row).ip_match ≡ exact) ↔ (
    (row.ip_mismatch ≡ false)
    × (row.range_only ≡ false)
    × ((filled row.claude_ip_match ≡ some (codes "exact"))
        ⊎ ((filled row.claude_ip_match ≡ none) × (filled row.matched_ip ≢ none))))
to_node_score_view-exact_example = to_node_score_view-exact digit century row
