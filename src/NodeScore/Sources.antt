-- ===== src/NodeScore/Sources.antt =====
-- `parseScoreSources` and `buildSource`: a combined payload as its independent sources.
use mihomo_cp.Prelude.{
  Bool, not, ◌&&◌, ◌||◌, List, [], ◌∷◌, ◌++◌, Option, none, some, ◌or_else◌, if◌then◌else◌,
}
use mihomo_cp.Js.Text.{Text, codes, text_eq}
use mihomo_cp.Js.Value.{Number, Value, Object, get, nullish, is_defined}
use mihomo_cp.NodeScore.{IpMatch, exact, mismatch, unknown, SourceName, claude, lookup, SourceIntel}
use mihomo_cp.NodeScore.Band.{normalize_ip_match}
use mihomo_cp.NodeScore.Info.{as_record, text_at, intel_of}

-- The comparison of the addresses, where both are known.
abbrev pub compare_ips : Option Text → Option Text → IpMatch
compare_ips none response = unknown
compare_ips (some query) none = unknown
compare_ips (some query) (some response) = if text_eq query response then exact else mismatch

abbrev pub if_unknown : IpMatch → IpMatch → IpMatch
if_unknown unknown m = m
if_unknown m _ = m

abbrev pub defined_at : Object → Text → Bool
defined_at o name = is_defined (get name o)

abbrev pub record_at : Object → Text → Option Object
record_at o name = as_record (get name o)

unfoldable pub claude_raw : Object → Option Object
unfolding as_record get
claude_raw root =
    record_at root (codes "claude")
    or_else record_at root (codes "claude_risk")
    or_else record_at root (codes "iprisk")

unfoldable pub lookup_raw : Object → Option Object
unfolding as_record get
lookup_raw root =
    record_at root (codes "lookup")
    or_else record_at root (codes "ip_lookup")
    or_else record_at root (codes "ipLookup")

unfoldable pub looks_like_claude : Object → Bool
unfolding get
looks_like_claude root =
    not (defined_at root (codes "ai_verdict"))
    && (defined_at root (codes "timezone")
        || defined_at root (codes "rpki_status")
        || defined_at root (codes "as_organization"))

unfoldable pub looks_like_lookup : Object → Bool
unfolding get
looks_like_lookup root =
    defined_at root (codes "ai_verdict")
    || defined_at root (codes "is_bogon")
    || defined_at root (codes "intelligence")

module _ (to_number : Text → Number) where
  unfoldable pub build_source : SourceName → Object → Value → SourceIntel
  unfolding intel_of normalize_ip_match get text_eq
  build_source source o parent_match =
      let intel = intel_of to_number o in
      record {
        source = source;
        query_ip = text_at o (codes "query_ip");
        response_ip = intel.ip;
        ip_match =
            if_unknown (normalize_ip_match (nullish (get (codes "ip_match") o) parent_match))
              (compare_ips (text_at o (codes "query_ip")) intel.ip);
        cidr = intel.cidr;
        trust_score = intel.trust_score;
        intel = intel;
      }

  abbrev pub built : SourceName → Option Object → Value → List SourceIntel
  built source none parent_match = []
  built source (some o) parent_match = build_source source o parent_match ∷ []

  -- The branch for a payload that is a single response.
  unfoldable pub single_source : Object → Value → List SourceIntel
  unfolding looks_like_claude looks_like_lookup build_source
  single_source root parent_match =
      if looks_like_claude root
      then build_source claude root parent_match ∷ []
      else if looks_like_lookup root
      then build_source lookup root parent_match ∷ []
      else []

  abbrev pub or_single : List SourceIntel → Object → Value → List SourceIntel
  or_single [] root parent_match = single_source root parent_match
  or_single (s ∷ out) root parent_match = s ∷ out

  unfoldable pub sources_of : Object → Value → List SourceIntel
  unfolding claude_raw lookup_raw build_source single_source
  sources_of root parent_match =
      or_single
        (built claude (claude_raw root) parent_match ++ built lookup (lookup_raw root) parent_match)
        root parent_match

  abbrev pub sources_or_none : Option Object → Value → List SourceIntel
  sources_or_none none parent_match = []
  sources_or_none (some root) parent_match = sources_of root parent_match

  unfoldable pub parse_score_sources : Value → Value → List SourceIntel
  unfolding as_record sources_of
  parse_score_sources raw parent_match = sources_or_none (as_record raw) parent_match
