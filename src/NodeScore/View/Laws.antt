-- ===== src/NodeScore/View/Laws.antt =====
-- The sources of a row's view, and how its match is decided.
use mihomo_cp.Prelude.{
  ◌≡◌, ◌≢◌, refl, subst, Bool-cases, ◌or_else◌, sym, ◌∙◌, ap, ◌↔◌, ◌⊎◌, inl, inr, true, false, List,
  [], ◌∷◌, map, Option, none, some, some_inj, arith,
}
use mathlib.Core.Path.{subst₂}
use mihomo_cp.Js.Text.Laws.{text_eq_iff}
use mihomo_cp.Js.Text.{Text, codes}
use mihomo_cp.Js.Value.{Number, is_finite}
use mihomo_cp.Js.Date.{ℤ}
use mihomo_cp.NodeScore.{IpMatch, exact, SourceName, claude, lookup, SourceIntel}
use mihomo_cp.NodeScore.Band.{match_of_text}
use mihomo_cp.NodeScore.Sources.{parse_score_sources}
use mihomo_cp.NodeScore.Split.{
  source_of, names, InOrder, nothing, claude_only, lookup_only, both, parse_score_sources-InOrder,
}
use mihomo_cp.NodeScore.View.{
  NodeScore, filled, finite_score, row_match, match_word, synthetic_claude_source, merge_source,
  parent_match, lookup_match, view_sources, to_node_score_view,
}

-- The claude card, and behind it the lookup card if there is one.
pub data HasClaude : List SourceName → Type 0 where
  alone : HasClaude (claude ∷ [])
  with_lookup : HasClaude (claude ∷ lookup ∷ [])

-- A source with its name given anew.
abbrev pub as_source : SourceName → SourceIntel → SourceIntel
as_source name s = record s { source = name }

-- The lists that `InOrder` allows, with the sources themselves.
pub data Shape : List SourceIntel → Type 0 where
  no_source : Shape []
  claude_source : (s : SourceIntel) → Shape (as_source claude s ∷ [])
  lookup_source : (s : SourceIntel) → Shape (as_source lookup s ∷ [])
  two_sources : (s t : SourceIntel) → Shape (as_source claude s ∷ as_source lookup t ∷ [])

named : (s : SourceIntel) (n : SourceName) → s.source ≡ n → as_source n s ≡ s
named s n e = ap (λ m. as_source m s) (sym e)

pub Shape-of_InOrder :
    (sources : List SourceIntel) (ns : List SourceName)
    → names sources ≡ ns
    → InOrder ns
    → Shape sources
Shape-of_InOrder [] _ e i = no_source
Shape-of_InOrder (s ∷ []) _ e claude_only =
    subst (λ q. Shape (q ∷ [])) (named s claude (cc)) (claude_source s)
Shape-of_InOrder (s ∷ []) _ e lookup_only =
    subst (λ q. Shape (q ∷ [])) (named s lookup (cc)) (lookup_source s)
Shape-of_InOrder (s ∷ []) _ e nothing = cc
Shape-of_InOrder (s ∷ []) _ e both = cc
Shape-of_InOrder (s ∷ t ∷ []) _ e both =
    subst₂ (λ q r. Shape (q ∷ r ∷ [])) (named s claude (cc)) (named t lookup (cc)) (two_sources s t)
Shape-of_InOrder (s ∷ t ∷ []) _ e nothing = cc
Shape-of_InOrder (s ∷ t ∷ []) _ e claude_only = cc
Shape-of_InOrder (s ∷ t ∷ []) _ e lookup_only = cc
Shape-of_InOrder (s ∷ t ∷ u ∷ more) _ e both = cc
Shape-of_InOrder (s ∷ t ∷ u ∷ more) _ e nothing = cc
Shape-of_InOrder (s ∷ t ∷ u ∷ more) _ e claude_only = cc
Shape-of_InOrder (s ∷ t ∷ u ∷ more) _ e lookup_only = cc

finite_score_iff :
    (o : Option Number) (n : Number)
    → (finite_score o ≡ some n) ↔ ((o ≡ some n) × (is_finite n ≡ true))
finite_score_iff none n = (λ e. cc, λ h. cc (h.0))
finite_score_iff (some m) n = elim (Bool-cases (is_finite m)) [
  | inl f ↦ rw f (λ e. (e, ap is_finite (sym (some_inj e)) ∙ f), λ h. h.0)
  | inr f ↦ rw f (λ e. cc, λ h. let g = sym f ∙ ap is_finite (some_inj h.0) ∙ h.1 in cc)
]

match_of_text-exact : (s : Text) → (match_of_text s ≡ exact) ↔ (s ≡ codes "exact")
unfolding match_of_text
match_of_text-exact s = ground (arith, text_eq_iff s (codes "exact"))

-- The word of a row and its matched address, as `row_match` reads them.
word_match : Option Text → Option Text → IpMatch
word_match word matched =
    match_word
      (word or_else some (elim matched [ none ↦ codes "unknown" | some _ ↦ codes "exact" ]))

word_match-exact :
    (word matched : Option Text)
    → (word_match word matched ≡ exact)
      ↔ ((word ≡ some (codes "exact")) ⊎ ((word ≡ none) × (matched ≢ none)))
unfolding word_match match_of_text
word_match-exact (some s) matched = (
  λ e. inl (ap some ((match_of_text-exact s).0 e)),
  λ h. elim h [ inl e ↦ (match_of_text-exact s).1 (some_inj e) | inr k ↦ cc (k.0) ],
)
word_match-exact none none = (λ e. cc, λ h. elim h [ inl e ↦ cc | inr k ↦ absurd (k.1 refl) ])
word_match-exact none (some m) = (λ e. inr (refl, λ z. cc), λ h. (match_of_text-exact _).1 refl)

row_match-exact :
    (row : NodeScore)
    → (row_match row ≡ exact) ↔ (
        (row.ip_mismatch ≡ false)
        × (row.range_only ≡ false)
        × ((filled row.claude_ip_match ≡ some (codes "exact"))
            ⊎ ((filled row.claude_ip_match ≡ none) × (filled row.matched_ip ≢ none))))
unfolding row_match word_match match_of_text
row_match-exact row = elim (Bool-cases row.ip_mismatch) [
  | inl m ↦ rw m (λ e. cc, λ h. cc (h.0))
  | inr m ↦ elim (Bool-cases row.range_only) [
    | inl r ↦ rw (m, r) (λ e. cc, λ h. cc (h.1))
    | inr r ↦
        let w = word_match-exact (filled row.claude_ip_match) (filled row.matched_ip) in
        rw (m, r) (λ e. (refl, refl, w.0 e), λ h. w.1 h.2)
  ]
]

module _ (to_number : Text → Number) where
  -- The sources of a row's view, from the sources of its payload.
  unfoldable pub completed : NodeScore → List SourceIntel → List SourceIntel
  unfolding synthetic_claude_source merge_source
  completed row sources = elim (source_of claude sources) [
    | none ↦
        synthetic_claude_source to_number row (lookup_match to_number (source_of lookup sources))
        ∷ sources
    | some _ ↦ map (merge_source to_number row) sources
  ]

  completed-HasClaude :
      (row : NodeScore) {sources : List SourceIntel}
      → Shape sources
      → HasClaude (names (completed row sources))
        × (source_of lookup (completed row sources) ≡ source_of lookup sources)
  unfolding completed
  completed-HasClaude row no_source = (alone, refl)
  completed-HasClaude row (claude_source s) = (alone, refl)
  completed-HasClaude row (lookup_source s) = (with_lookup, refl)
  completed-HasClaude row (two_sources s t) = (with_lookup, refl)

  -- Whatever the row and its payload are, its view has one `claude` source in front and at most one
  -- `lookup` source behind it; and the `lookup` source is the one of the payload, unchanged.
  pub view_sources_lem :
      (row : NodeScore)
      → HasClaude (names (view_sources to_number row))
        × (source_of lookup (view_sources to_number row)
            ≡ source_of lookup
                (parse_score_sources to_number row.ip_info (parent_match to_number row)))
  unfolding view_sources completed
  view_sources_lem row = completed-HasClaude row (
      Shape-of_InOrder (parse_score_sources to_number row.ip_info (parent_match to_number row)) _
        refl (parse_score_sources-InOrder to_number row.ip_info (parent_match to_number row)))

  module _ (utc_year : Text → Option ℤ) where
    -- The score of a view is the score of the row, exactly when that is a finite number.
    to_node_score_view-score :
        (row : NodeScore) (n : Number)
        → ((to_node_score_view to_number utc_year row).score ≡ some n)
          ↔ ((row.trust_score ≡ some n) × (is_finite n ≡ true))
    unfolding to_node_score_view
    to_node_score_view-score row n = finite_score_iff row.trust_score n

    -- A view shows an exact match only if the row has neither a mismatch nor a mere range, and its
    -- own word is `exact`, or is missing while some address was matched.
    pub to_node_score_view-exact :
        (row : NodeScore)
        → ((to_node_score_view to_number utc_year row).ip_match ≡ exact) ↔ (
            (row.ip_mismatch ≡ false)
            × (row.range_only ≡ false)
            × ((filled row.claude_ip_match ≡ some (codes "exact"))
                ⊎ ((filled row.claude_ip_match ≡ none) × (filled row.matched_ip ≢ none))))
    unfolding to_node_score_view
    to_node_score_view-exact row = row_match-exact row
