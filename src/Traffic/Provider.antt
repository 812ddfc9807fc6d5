-- ===== src/Traffic/Provider.antt =====
-- What the dialog of a provider sends.
use mihomo_cp.Prelude.{
  ◌≡◌, ◌≢◌, refl, sym, subst, ap, ◌∙◌, inl, inr, Bool, true, false, not, ◌&&◌, ◌||◌, List, [], ◌∷◌,
  some, some_inj, Bool-cases, All, ℕ, keep, map, arith,
}
use mihomo_cp.Js.Text.{Text, trim, is_empty}
use mihomo_cp.Js.Value.{Number}
use mihomo_cp.Js.Compare.{below, above}
use mihomo_cp.Traffic.{
  TrafficProvider, ProviderForm, ProviderInput, Host, is_nan, valid_timezone, open_edit, is_invalid,
  input_of, save_provider, is_threshold, split_commas, or_default_thresholds, thresholds_of,
}
use mihomo_cp.Traffic.Patterns.{Clean, patterns_of-join_patterns}

-- A number from `low` to `high`, and not NaN.
abbrev pub Within : ℕ → ℕ → Number → Type 0
Within low high n = (is_nan n ≡ false) × (below n low ≡ false) × (above n high ≡ false)

abbrev Threshold : Number → Type 0
Threshold n = (above n 0 ≡ true) × (above n 100 ≡ false)

threshold_parts : (a b c : Bool) → (not a && b && not c) ≡ true → (b ≡ true) × (c ≡ false)
threshold_parts a b c e = ground arith

kept_thresholds : (ns : List Number) → All Threshold (keep is_threshold ns)
kept_thresholds [] = tt
kept_thresholds (n ∷ ns) = elim (Bool-cases (is_threshold n)) [
  | inl h ↦
      rw (keep, h) (threshold_parts (is_nan n) (above n 0) (above n 100) h, kept_thresholds ns)
  | inr h ↦ rw (keep, h) (kept_thresholds ns)
]

defaulted :
    (ns : List Number)
    → All Threshold ns
    → (or_default_thresholds ns ≢ []) × All Threshold (or_default_thresholds ns)
defaulted [] h = (λ e. cc, ((refl, refl), ((refl, refl), tt)))
defaulted (n ∷ ns) h = (λ e. cc, h)

module _ (host : Host) where
  -- What the server may rely on in a saved provider.
  pub record Sound (input : ProviderInput) : Type 0 where
    pub named : is_empty input.name ≡ false
    pub day : Within 1 31 input.reset_day
    pub hour : Within 0 23 input.reset_hour
    pub minute : Within 0 59 input.reset_minute
    pub zone : valid_timezone host input.reset_timezone ≡ true

  valid_parts :
      (a b c d e f g h i j k l z : Bool)
      → (a || b || c || d || e || f || g || h || i || j || k || l || not z) ≡ false
      → (a ≡ false)
        × (d ≡ false)
        × (e ≡ false)
        × (f ≡ false)
        × (g ≡ false)
        × (h ≡ false)
        × (i ≡ false)
        × (j ≡ false)
        × (k ≡ false)
        × (l ≡ false)
        × (z ≡ true)
  valid_parts a b c d e f g h i j k l z v = ground arith

  -- A provider that is sent has a name, a day from 1 to 31, an hour from 0 to 23, a minute from 0 to
  -- 59, and a known time zone or none.
  pub save_provider-Sound :
      (form : ProviderForm) (input : ProviderInput)
      → save_provider host form ≡ some input
      → Sound input
  unfolding save_provider is_invalid input_of
  save_provider-Sound form input e = elim (Bool-cases (is_invalid host form)) [
    | inl bad ↦ cc (rw (save_provider, bad) at e)
    | inr good ↦
        let (named, d, e₁, f, g, h, i, j, k, l, zone) =
          valid_parts _ _ _ _ _ _ _ _ _ _ _ _ _ good in
        subst Sound (some_inj (rw (save_provider, good) at e)) (record {
          named = named;
          day = (d, e₁, f);
          hour = (g, h, i);
          minute = (j, k, l);
          zone = zone;
        })
  ]

  -- A provider that is opened and saved without a change keeps its patterns, when these have no comma
  -- and no white space at their ends.
  open_edit-save_provider :
      (p : TrafficProvider) (input : ProviderInput)
      → All Clean p.node_patterns
      → save_provider host (open_edit host p) ≡ some input
      → (input.node_patterns ≡ p.node_patterns) × (input.enabled ≡ p.enabled)
  unfolding save_provider input_of open_edit
  open_edit-save_provider p input clean e = elim (Bool-cases (is_invalid host (open_edit host p))) [
    | inl bad ↦ cc (rw (save_provider, bad) at e)
    | inr good ↦
        let same : input_of host (open_edit host p) ≡ input =
          some_inj (rw (save_provider, good) at e) in
        (
          ap (λ i. i.node_patterns) (sym same) ∙ patterns_of-join_patterns p.node_patterns clean,
          ap (λ i. i.enabled) (sym same),
        )
  ]

  -- The thresholds that are saved are never empty, and each is above 0 and at most 100.
  thresholds_of_lem :
      (s : Text)
      → (thresholds_of host s ≢ [])
        × All (λ n. (above n 0 ≡ true) × (above n 100 ≡ false)) (thresholds_of host s)
  unfolding thresholds_of
  thresholds_of_lem s =
      let ns = map (λ piece. host.parse_int (trim piece)) (split_commas s) in
      defaulted (keep is_threshold ns) (kept_thresholds ns)
