-- ===== src/NodeScoreDetail/Dialog.antt =====
-- The dialog itself: `NodeScoreDetail`.
use mihomo_cp.Prelude.{Bool, not, ◌||◌, List, [], ◌∷◌, ◌++◌, Option, none, some, ◌>>=◌, ◌or_else◌}
use mihomo_cp.Js.Text.{Text, codes, non_empty}
use mihomo_cp.Js.Text.Split.{join}
use mihomo_cp.NodeScore.View.{NodeScoreView, provider, static, filled}
use mihomo_cp.NodeScoreDetail.{
  Piece, key, raw, Row, row, Tone, match_key, match_class, status_key, exit_source_key, Card,
  claude_source, lookup_source,
}

-- What the dialog reads of a row besides its view: `sources`, `exit_ip_source` and two URLs.
pub record Extra : Type 0 where
  pub sources : List Text
  pub exit_ip_source : Option Text
  pub detail_url : Option Text
  pub score_url : Option Text

-- The alert of an error.
pub record Failure : Type 0 where
  pub message : Text
  pub code : Option Text

pub record Detail : Type 0 where
  pub match : Text
  pub match_tone : Tone
  pub status : Text
  pub identity : List Row
  pub egress : List Row
  pub cards : List Card
  pub timing : List Row
  pub failure : Option Failure
  pub score_url : Text
  pub detail_url : Option Text
  pub refresh_disabled : Bool

-- A text, or a key where it is missing or empty.
abbrev pub text_or_key : Option Text → Text → Piece
text_or_key o k = elim (filled o) [ none ↦ key k | some s ↦ raw s ]

abbrev pub provider_piece : NodeScoreView → Piece
provider_piece view = elim (view.kind) [
  | provider ↦ text_or_key (some view.provider_name) (codes "common.unknown")
  | static ↦ key (codes "nodeScores.sourceStatic")
]

abbrev pub sources_piece : List Text → Piece
sources_piece [] = key (codes "common.unknown")
sources_piece (s ∷ ss) = raw (join (codes ", ") (s ∷ ss))

-- `view.exitIp ?? t(...)`, with the range behind it.
abbrev pub exit_pieces : NodeScoreView → List Piece
exit_pieces view =
    elim (view.exit_ip) [ none ↦ key (codes "nodeScores.exitIpUnknown") | some ip ↦ raw ip ]
    ∷ elim (filled view.exit_ip_cidr) [
      | none ↦ []
      | some range ↦ raw (codes "(" ++ range ++ codes ")") ∷ []
    ]

abbrev pub exit_source_piece : Option Text → Piece
unfolding exit_source_key
exit_source_piece o = elim (filled o) [
  | none ↦ key (codes "common.unknown")
  | some s ↦ elim (exit_source_key s) [ none ↦ raw s | some k ↦ key k ]
]

abbrev pub date_piece : Option Text → Text → Piece
date_piece none k = key k
date_piece (some s) k = raw s

abbrev pub failure_of : NodeScoreView → Option Failure
failure_of view =
    non_empty view.error
    >>= (λ (m : Text). some (record { message = m; code = non_empty view.error_code }))

abbrev pub address_page : Text
address_page = codes "https://ip.net.coffee/ip/"

-- `view.exitIp ? ... : ''`, of which the empty text shows no link.
abbrev pub page_of_exit : (Text → Text) → Option Text → Option Text
page_of_exit encode ip = elim (ip >>= non_empty) [
  | none ↦ none
  | some s ↦ some (address_page ++ encode s)
]

-- `encode` is `encodeURIComponent`, of an address, on which it does not throw. `format_date` is
-- `formatApiDateTime` in the language of the page.
module _ (encode : Text → Text) (format_date : Option Text → Option Text) where
  unfoldable pub detail : Extra → NodeScoreView → Bool → Bool → Detail
  unfolding claude_source lookup_source join
  detail extra view is_admin refreshing = record {
    match = match_key view.ip_match;
    match_tone = match_class view.ip_match;
    status = status_key view.status;
    identity =
        row (codes "common.name") (raw view.node_name ∷ [])
        ∷ row (codes "nodeScores.sourceProvider") (provider_piece view ∷ [])
        ∷ row (codes "nodeScores.sources") (sources_piece extra.sources ∷ [])
        ∷ [];
    egress =
        row (codes "nodeScores.exitIp") (exit_pieces view)
        ∷ row (codes "nodeScores.ipMatch") (key (match_key view.ip_match) ∷ [])
        ∷ row (codes "nodeScores.exitSource") (exit_source_piece extra.exit_ip_source ∷ [])
        ∷ [];
    cards = claude_source view ∷ lookup_source view ∷ [];
    timing =
        row (codes "nodeScores.checkedAt")
          (date_piece (format_date view.checked_at) (codes "nodeScores.neverChecked") ∷ [])
        ∷ row (codes "nodeScores.lastSuccess")
            (date_piece (format_date view.last_success_at) (codes "common.never") ∷ [])
        ∷ row (codes "nodeScores.nextRefresh")
            (date_piece (format_date view.next_due) (codes "nodeScores.nextDueUnknown") ∷ [])
        ∷ [];
    failure = failure_of view;
    score_url = elim (filled extra.score_url) [
      | none ↦ codes "https://ip.net.coffee/claude/"
      | some u ↦ u
    ];
    detail_url = filled extra.detail_url or_else page_of_exit encode view.exit_ip;
    refresh_disabled = not is_admin || refreshing;
  }
