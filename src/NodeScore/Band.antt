-- ===== src/NodeScore/Band.antt =====
-- `scoreBand` and `normalizeIpMatch`.
use mihomo_cp.Prelude.{
  ℕ, ◌*◌, ◌^◌, ◌≤◌, ◌≡◌, refl, sym, ap, ◌∙◌, subst, ◌↔◌, true, Option, none, some, if◌then◌else◌,
  some_inj, arith,
}
use mihomo_cp.Js.Text.{Text, codes, text_eq}
use mihomo_cp.Js.Value.{Number, nan, infinity, plus, minus, is_finite, at_least, Value, str}
use mihomo_cp.NodeScore.{
  ScoreBand, high, medium, low, very_low, IpMatch, exact, cidr, mismatch, unknown,
}

unfoldable pub score_band : Option Number → Option ScoreBand
score_band none = none
score_band (some score) =
    if is_finite score
    then (if at_least score 80
        then some high
        else if at_least score 50
        then some medium
        else if at_least score 25
        then some low
        else some very_low)
    else none

-- The three words that the API uses, and `unknown` for every other value.
unfoldable pub match_of_text : Text → IpMatch
unfolding text_eq
match_of_text s =
    if text_eq s (codes "exact")
    then exact
    else if text_eq s (codes "cidr")
    then cidr
    else if text_eq s (codes "mismatch")
    then mismatch
    else unknown

unfoldable pub normalize_ip_match : Value → IpMatch
unfolding match_of_text
normalize_ip_match (str s) = match_of_text s
normalize_ip_match _ = unknown

-- A finite score is at least `n`, as a statement on the fraction that it is.
abbrev pub Reaches : ℕ → Number → Type 0
Reaches n nan = ⊥
Reaches n (infinity _) = ⊥
Reaches n (plus m k) = n * 2 ^ k ≤ m
Reaches n (minus m k) = (m ≡ 0) × (n ≡ 0)

abbrev pub InBand : ScoreBand → Number → Type 0
InBand high s = Reaches 80 s
InBand medium s = Reaches 50 s × (¬ Reaches 80 s)
InBand low s = Reaches 25 s × (¬ Reaches 50 s)
InBand very_low s = ¬ Reaches 25 s

band_of : Number → Option ScoreBand
unfolding score_band
band_of s = score_band (some s)

band_of_plus : (m k : ℕ) (b : ScoreBand) → (band_of (plus m k) ≡ some b) ↔ InBand b (plus m k)
unfolding band_of
band_of_plus m k high = ground arith
band_of_plus m k medium = ground arith
band_of_plus m k low = ground arith
band_of_plus m k very_low = ground arith

band_of_minus : (m k : ℕ) (b : ScoreBand) → (band_of (minus m k) ≡ some b) ↔ InBand b (minus m k)
unfolding band_of
band_of_minus m k high = ground arith
band_of_minus m k medium = ground arith
band_of_minus m k low = ground arith
band_of_minus m k very_low = ground arith

-- A score has a band exactly when it is known and finite and lies in that band: at least 80, at
-- least 50 but not 80, at least 25 but not 50, or not at least 25.
score_band_iff :
    (score : Option Number) (b : ScoreBand)
    → (score_band score ≡ some b)
      ↔ ((s : Number) × (score ≡ some s) × (is_finite s ≡ true) × InBand b s)
unfolding score_band band_of
score_band_iff none b = (λ e. cc, λ h. cc (h.1))
score_band_iff (some nan) b = (λ e. cc, λ h. let f = ap is_finite (some_inj h.1) ∙ h.2 in cc)
score_band_iff (some (infinity i)) b =
    (λ e. cc, λ h. let f = ap is_finite (some_inj h.1) ∙ h.2 in cc)
score_band_iff (some (plus m k)) b = (
  λ e. (plus m k, refl, refl, (band_of_plus m k b).0 e),
  λ h. (band_of_plus m k b).1 (subst (InBand b) (sym (some_inj h.1)) h.3),
)
score_band_iff (some (minus m k)) b = (
  λ e. (minus m k, refl, refl, (band_of_minus m k b).0 e),
  λ h. (band_of_minus m k b).1 (subst (InBand b) (sym (some_inj h.1)) h.3),
)
