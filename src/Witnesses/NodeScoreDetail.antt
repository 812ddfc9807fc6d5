-- ===== src/Witnesses/NodeScoreDetail.antt =====
-- The dialog of a score at concrete rows.
use mihomo_cp.Prelude.{◌≡◌, refl, true}
use mihomo_cp.NodeScore.{mismatch}
use mihomo_cp.NodeScore.View.{NodeScore, to_node_score_view}
use mihomo_cp.NodeScoreDetail.{claude_source, match_key, match_class, mismatch_hint}
use mihomo_cp.NodeScoreDetail.Hints.{claude_source-hint}
use mihomo_cp.Witnesses.Inputs.{digit, century}
use mihomo_cp.Witnesses.NodeScore.{row}

abbrev mismatched : NodeScore
mismatched = record row { ip_mismatch = true; range_only = true }

claude_source-hint_example :
    ((claude_source (to_node_score_view digit century mismatched)).header.match
      ≡ match_key mismatch)
    × ((claude_source (to_node_score_view digit century mismatched)).header.match_tone
        ≡ match_class mismatch)
unfolding claude_source to_node_score_view
claude_source-hint_example = claude_source-hint digit century mismatched mismatch_hint refl
