-- ===== src/NodeScoreDetail.antt =====
-- The dialog of a score, web/src/components/node-scores/node-score-detail.tsx: what it shows, as rows of
-- labels and texts. A label is a key of the translation. The texts of numbers and dates and
-- `encodeURIComponent` are the host's.
pub mod Facts
pub mod Hints
pub mod Dialog
use mihomo_cp.Prelude.{
  Bool, true, false, not, ◌&&◌, List, [], ◌∷◌, ◌++◌, find, Option, none, some, ◌or_else◌, ◌>>=◌,
  if◌then◌else◌,
}
use mihomo_cp.Js.Text.{Text, codes, is_empty, text_eq}
use mihomo_cp.Js.Text.Split.{join}
use mihomo_cp.Js.Value.{Number}
use mihomo_cp.NodeScore.{
  ScoreBand, high, medium, low, very_low, IpMatch, exact, cidr, mismatch, unknown, SourceName,
  claude, lookup, IpIntel, SourceIntel,
}
use mihomo_cp.NodeScore.Band.{score_band}
use mihomo_cp.NodeScore.Split.{source_of}
use mihomo_cp.NodeScore.View.{
  NodeScore, NodeScoreView, ViewKind, provider, static, ViewStatus, pending, checking, ok, error,
  skipped, filled,
}

-- A translated text, or a text or a number as it is.
pub data Piece : Type 0 where
  key raw : Text → Piece
  number : Number → Piece

pub record Row : Type 0 where
  pub label : Piece
  pub value : List Piece

-- The classes of a badge or a score, named by their colours.
pub data Tone : Type 0 where
  emerald amber destructive muted : Tone

-- `BAND_KEY`, `MATCH_KEY` and `STATUS_KEY`.
abbrev pub band_key : ScoreBand → Text
band_key high = codes "nodeScores.scoreHigh"
band_key medium = codes "nodeScores.scoreMedium"
band_key low = codes "nodeScores.scoreLow"
band_key very_low = codes "nodeScores.scoreVeryLow"

abbrev pub match_key : IpMatch → Text
match_key exact = codes "nodeScores.matchExact"
match_key cidr = codes "nodeScores.matchCidr"
match_key mismatch = codes "nodeScores.matchMismatch"
match_key unknown = codes "nodeScores.matchUnknown"

abbrev pub status_key : ViewStatus → Text
status_key pending = codes "nodeScores.statusPending"
status_key checking = codes "nodeScores.statusTesting"
status_key ok = codes "nodeScores.statusOk"
status_key error = codes "nodeScores.statusFailed"
status_key skipped = codes "nodeScores.statusSkipped"

-- `EXIT_SOURCE_KEY[s]`.
unfoldable pub exit_source_key : Text → Option Text
unfolding text_eq
exit_source_key s =
    if text_eq s (codes "claude-trace")
    then some (codes "nodeScores.exitSourceClaude")
    else if text_eq s (codes "cloudflare-trace")
    then some (codes "nodeScores.exitSourceCloudflare")
    else none

abbrev pub match_class : IpMatch → Tone
match_class exact = emerald
match_class cidr = amber
match_class mismatch = destructive
match_class unknown = muted

unfoldable pub score_class : Option Number → Option ScoreBand → Tone
score_class none band = muted
score_class (some _) (some high) = emerald
score_class (some _) (some medium) = amber
score_class (some _) _ = destructive

abbrev pub bool_text : Option Bool → Piece
bool_text none = key (codes "common.unknown")
bool_text (some true) = key (codes "common.yes")
bool_text (some false) = key (codes "common.no")

abbrev pub dash : Piece
dash = raw (codes "—")

-- `fact` of a text, and of a number.
abbrev pub fact : Option Text → Piece
fact none = dash
fact (some []) = dash
fact (some (c ∷ s)) = raw (c ∷ s)

abbrev pub number_fact : Option Number → Piece
number_fact none = dash
number_fact (some n) = number n

abbrev pub row : Text → List Piece → Row
row label value = record { label = key label; value = value }

-- A row for a value that is there.
abbrev pub row_if : Text → Option Bool → List Row
row_if label none = []
row_if label (some b) = row label (bool_text (some b) ∷ []) ∷ []

abbrev pub text_row_if : Piece → Option Text → List Row
text_row_if label o = elim (filled o) [
  | none ↦ []
  | some s ↦ record { label = label; value = raw s ∷ [] } ∷ []
]

-- The code of the country behind its name.
abbrev pub code_piece : Option Text → List Piece
code_piece o = elim (filled o) [ none ↦ [] | some s ↦ raw (codes " (" ++ s ++ codes ")") ∷ [] ]

unfoldable pub intel_facts : IpIntel → List Row
intel_facts intel =
    row (codes "nodeScores.country") (fact intel.country ∷ code_piece intel.country_code)
    ∷ row (codes "nodeScores.asn") (number_fact intel.asn ∷ [])
    ∷ row (codes "nodeScores.asnOrg") (fact intel.asn_org ∷ [])
    ∷ row (codes "nodeScores.companyType") (fact intel.company_type ∷ [])
    ∷ row (codes "nodeScores.residential") (bool_text intel.is_residential ∷ [])
    ∷ row (codes "nodeScores.datacenter") (bool_text intel.is_datacenter ∷ [])
    ∷ row (codes "nodeScores.vpn") (bool_text intel.is_vpn ∷ [])
    ∷ row (codes "nodeScores.proxy") (bool_text intel.is_proxy ∷ [])
    ∷ row (codes "nodeScores.tor") (bool_text intel.is_tor ∷ [])
    ∷ (row_if (codes "nodeScores.mobile") intel.is_mobile
        ++ (row_if (codes "nodeScores.crawler") intel.is_crawler
            ++ text_row_if (key (codes "nodeScores.abuserScore")) intel.abuser_score))

pub record Header : Type 0 where
  pub title : Text
  pub score : Piece
  pub score_tone : Tone
  pub band : Option Text
  pub match : Text
  pub match_tone : Tone

abbrev pub score_piece : Option Number → Piece
score_piece none = key (codes "nodeScores.scoreMissing")
score_piece (some n) = number n

unfoldable pub source_header : Text → Option Number → IpMatch → Header
unfolding score_band score_class
source_header title score match =
    let band = score_band score in
    record {
      title = title;
      score = score_piece score;
      score_tone = score_class score band;
      band = band >>= (λ (b : ScoreBand). some (band_key b));
      match = match_key match;
      match_tone = match_class match;
    }

pub data Hint : Type 0 where
  mismatch_hint cidr_hint : Hint

-- The verdict of the model, with its reason if there is one.
pub record Verdict : Type 0 where
  pub label : Text
  pub reason : Option Text

pub record Card : Type 0 where
  pub header : Header
  pub rows : List Row
  pub hint : Option Hint
  pub verdict : Option Verdict
  pub facts : List Row
  pub sources : List Row
  pub note : Option Text

abbrev pub sources_row : List Text → List Row
sources_row [] = []
sources_row (s ∷ ss) = row (codes "nodeScores.sources") (raw (join (codes ", ") (s ∷ ss)) ∷ []) ∷ []

-- `{view.ipMismatch && ...}` and `{!view.ipMismatch && view.rangeOnly && ...}`.
abbrev pub view_hint : NodeScoreView → Option Hint
view_hint view =
    if view.ip_mismatch
    then some mismatch_hint
    else if view.range_only
    then some cidr_hint
    else none

abbrev pub cidr_row : Option Text → List Row
cidr_row = text_row_if (raw (codes "CIDR"))

unfoldable pub claude_source : NodeScoreView → Card
unfolding source_header intel_facts join
claude_source view =
    let source = source_of claude view.sources in
    record {
      header =
          source_header (codes "nodeScores.claudeSource")
            (view.score or_else (source >>= (λ (s : SourceIntel). s.trust_score))) view.ip_match;
      rows =
          row (codes "nodeScores.ipMatch") (
            fact view.queried_ip
            ∷ raw (codes " → ")
            ∷ fact (view.matched_ip or_else (source >>= (λ (s : SourceIntel). s.response_ip)))
            ∷ [])
          ∷ cidr_row (source >>= (λ (s : SourceIntel). s.cidr));
      hint = view_hint view;
      verdict = none;
      facts = elim source [ none ↦ [] | some s ↦ intel_facts s.intel ];
      sources = elim source [ none ↦ [] | some s ↦ sources_row s.intel.sources ];
      note = elim source [ none ↦ some (codes "nodeScores.sourceIdle") | some _ ↦ none ];
    }

abbrev pub match_hint : IpMatch → Option Hint
match_hint mismatch = some mismatch_hint
match_hint cidr = some cidr_hint
match_hint _ = none

abbrev pub verdict_of : IpIntel → Option Verdict
verdict_of intel = elim (filled intel.ai_verdict_label) [
  | none ↦ none
  | some l ↦ some (record { label = l; reason = filled intel.ai_verdict_reason })
]

abbrev pub lookup_card : Option SourceIntel → Card
unfolding source_header intel_facts join
lookup_card none = record {
  header = source_header (codes "nodeScores.lookupSource") none unknown;
  rows = [];
  hint = none;
  verdict = none;
  facts = [];
  sources = [];
  note = some (codes "nodeScores.lookupNotStored");
}
lookup_card (some s) = record {
  header = source_header (codes "nodeScores.lookupSource") s.trust_score s.ip_match;
  rows =
      row (codes "nodeScores.ipMatch")
        (fact s.query_ip ∷ raw (codes " → ") ∷ fact s.response_ip ∷ [])
      ∷ cidr_row s.cidr;
  hint = match_hint s.ip_match;
  verdict = verdict_of s.intel;
  facts = intel_facts s.intel;
  sources = sources_row s.intel.sources;
  note = none;
}

unfoldable pub lookup_source : NodeScoreView → Card
unfolding lookup_card
lookup_source view = lookup_card (source_of lookup view.sources)
