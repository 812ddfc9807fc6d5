-- ===== src/NodeScoreDetail/Hints.antt =====
-- The hints of the cards, and the labels beside them.
use mihomo_cp.Prelude.{◌≡◌, ap, true, false, Bool, Option, none, some, some_inj, if◌then◌else◌}
use mihomo_cp.Js.Text.{Text}
use mihomo_cp.Js.Date.{ℤ}
use mihomo_cp.Js.Value.{Number}
use mihomo_cp.NodeScore.{IpMatch, exact, unknown, cidr, mismatch}
use mihomo_cp.NodeScore.View.{NodeScore, to_node_score_view, row_match}
use mihomo_cp.NodeScoreDetail.{
  Hint, mismatch_hint, cidr_hint, match_hint, match_key, match_class, source_header, claude_source,
}

abbrev match_of_hint : Hint → IpMatch
match_of_hint mismatch_hint = mismatch
match_of_hint cidr_hint = cidr

hinted :
    (a b : Bool) (m : IpMatch) (h : Hint)
    → (if a then some mismatch_hint else if b then some cidr_hint else none) ≡ some h
    → (if a then mismatch else if b then cidr else m) ≡ match_of_hint h
hinted true b m h e = ap match_of_hint (some_inj e)
hinted false true m h e = ap match_of_hint (some_inj e)
hinted false false m h e = cc

match_hint-eq-some : (m : IpMatch) (h : Hint) → match_hint m ≡ some h → m ≡ match_of_hint h
match_hint-eq-some exact h e = cc
match_hint-eq-some cidr h e = ap match_of_hint (some_inj e)
match_hint-eq-some mismatch h e = ap match_of_hint (some_inj e)
match_hint-eq-some unknown h e = cc

module _ (to_number : Text → Number) (utc_year : Text → Option ℤ) where
  -- A hint that the claude card of a row shows fits the label beside it: the hint on a mismatch stands with the label of a
  -- mismatch and its colour, the hint on the range with the label of the range.
  pub claude_source-hint :
      (row : NodeScore) (h : Hint)
      → let card = claude_source (to_node_score_view to_number utc_year row) in
        card.hint ≡ some h
        → (card.header.match ≡ match_key (match_of_hint h))
          × (card.header.match_tone ≡ match_class (match_of_hint h))
  unfolding claude_source to_node_score_view source_header row_match
  claude_source-hint row h e =
      let same : row_match row ≡ match_of_hint h = hinted row.ip_mismatch row.range_only _ h e in
      (ap match_key same, ap match_class same)
