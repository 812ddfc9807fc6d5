-- ===== src/NodeScoreDetail/Facts.antt =====
-- That no fact of a card is shown blank.
use mihomo_cp.Prelude.{Bool, true, false, [], ◌∷◌, Option, none, some, All, All-append}
use mihomo_cp.Js.Text.{Text, codes}
use mihomo_cp.Js.Value.{Number}
use mihomo_cp.NodeScore.{IpIntel}
use mihomo_cp.NodeScoreDetail.{
  Piece, key, raw, Row, row_if, text_row_if, code_piece, fact, number_fact, bool_text, intel_facts,
}

-- A piece with something to see, where the translations of the keys have.
abbrev pub Visible : Piece → Type 0
Visible (raw []) = ⊥
Visible _ = Unit

abbrev pub Shows : Row → Type 0
Shows r = All Visible r.value

Visible-fact : (o : Option Text) → Visible (fact o)
Visible-fact none = tt
Visible-fact (some []) = tt
Visible-fact (some (c ∷ s)) = tt

Visible-number : (o : Option Number) → Visible (number_fact o)
Visible-number none = tt
Visible-number (some n) = tt

Visible-bool : (o : Option Bool) → Visible (bool_text o)
Visible-bool none = tt
Visible-bool (some true) = tt
Visible-bool (some false) = tt

shown_country : (name code : Option Text) → All Visible (fact name ∷ code_piece code)
shown_country name none = (Visible-fact name, tt)
shown_country name (some []) = (Visible-fact name, tt)
shown_country name (some (c ∷ s)) = (Visible-fact name, (tt, tt))

shown_if : (label : Text) (o : Option Bool) → All Shows (row_if label o)
shown_if label none = tt
shown_if label (some b) = ((Visible-bool (some b), tt), tt)

shown_text_if : (label : Piece) (o : Option Text) → All Shows (text_row_if label o)
shown_text_if label none = tt
shown_text_if label (some []) = tt
shown_text_if label (some (c ∷ s)) = ((tt, tt), tt)

-- Every fact that a card shows of an address has something to see: an unknown or empty one is shown as a
-- dash or as unknown, or its row is left out, and no piece of a row is blank.
intel_facts-Shows : (intel : IpIntel) → All Shows (intel_facts intel)
unfolding intel_facts
intel_facts-Shows intel = (
  shown_country intel.country intel.country_code,
  (
    (Visible-number intel.asn, tt),
    (
      (Visible-fact intel.asn_org, tt),
      (
        (Visible-fact intel.company_type, tt),
        (
          (Visible-bool intel.is_residential, tt),
          (
            (Visible-bool intel.is_datacenter, tt),
            (
              (Visible-bool intel.is_vpn, tt),
              (
                (Visible-bool intel.is_proxy, tt),
                (
                  (Visible-bool intel.is_tor, tt),
                  All-append Shows (row_if (codes "nodeScores.mobile") intel.is_mobile) _
                      (shown_if (codes "nodeScores.mobile") intel.is_mobile)
                      (All-append Shows (row_if (codes "nodeScores.crawler") intel.is_crawler) _
                        (shown_if (codes "nodeScores.crawler") intel.is_crawler)
                        (shown_text_if (key (codes "nodeScores.abuserScore")) intel.abuser_score)),
                ),
              ),
            ),
          ),
        ),
      ),
    ),
  ),
)
