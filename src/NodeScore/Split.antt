-- ===== src/NodeScore/Split.antt =====
-- The sources of a payload: which there are, that one does not depend on the other, and when an
-- address counts as matched.
use mihomo_cp.Prelude.{
  ◌≡◌, ◌≢◌, refl, sym, ◌∙◌, some_inj, ◌↔◌, ◌⊎◌, inl, inr, Bool, true, false, List, [], ◌∷◌, map,
  Option, none, some, Bool-cases, Option-cases, find, arith,
}
use mihomo_cp.Js.Text.{Text, codes}
use mihomo_cp.Js.Text.Laws.{text_eq_iff}
use mihomo_cp.Js.Value.{Number, Value, Object, get, nullish}
use mihomo_cp.NodeScore.{
  IpMatch, exact, mismatch, cidr, unknown, SourceName, claude, lookup, SourceIntel,
}
use mihomo_cp.NodeScore.Band.{normalize_ip_match}
use mihomo_cp.NodeScore.Info.{text_at, intel_of}
use mihomo_cp.NodeScore.Sources.{
  compare_ips, if_unknown, build_source, claude_raw, lookup_raw, single_source, sources_of,
  looks_like_claude, looks_like_lookup, parse_score_sources,
}

abbrev pub is_source : SourceName → SourceName → Bool
is_source claude claude = true
is_source lookup lookup = true
is_source _ _ = false

-- `sources.find((s) => s.source === name)`.
abbrev pub source_of : SourceName → List SourceIntel → Option SourceIntel
source_of name = find (λ s. is_source s.source name)

abbrev pub names : List SourceIntel → List SourceName
names = map (λ s. s.source)

-- Each source at most once, `claude` in front.
pub data InOrder : List SourceName → Type 0 where
  nothing : InOrder []
  claude_only : InOrder (claude ∷ [])
  lookup_only : InOrder (lookup ∷ [])
  both : InOrder (claude ∷ lookup ∷ [])

abbrev BothKnown : (Text → Text → Type 0) → Option Text → Option Text → Type 0
BothKnown P a b = (q : Text) × (r : Text) × (a ≡ some q) × (b ≡ some r) × P q r

compare_ips-exact : (a b : Option Text) → (compare_ips a b ≡ exact) ↔ BothKnown (λ q r. q ≡ r) a b
compare_ips-exact none b = (λ e. cc, λ k. cc (k.2))
compare_ips-exact (some q) none = (λ e. cc, λ k. cc (k.3))
compare_ips-exact (some q) (some r) = (
  λ e. (q, r, refl, refl, ground (arith, text_eq_iff q r)),
  λ k.
      let same : q ≡ r = some_inj (k.2) ∙ k.4 ∙ sym (some_inj (k.3)) in
      ground (arith, text_eq_iff q r),
)

compare_ips-mismatch :
    (a b : Option Text) → (compare_ips a b ≡ mismatch) ↔ BothKnown (λ q r. q ≢ r) a b
compare_ips-mismatch none b = (λ e. cc, λ k. cc (k.2))
compare_ips-mismatch (some q) none = (λ e. cc, λ k. cc (k.3))
compare_ips-mismatch (some q) (some r) = (
  λ e. (q, r, refl, refl, ground (arith, text_eq_iff q r)),
  λ k.
      let other : q ≢ r = λ h. k.4 (sym (some_inj (k.2)) ∙ h ∙ some_inj (k.3)) in
      ground (arith, text_eq_iff q r),
)

match_exact :
    (m : IpMatch) (a b : Option Text)
    → (if_unknown m (compare_ips a b) ≡ exact)
      ↔ ((m ≡ exact) ⊎ ((m ≡ unknown) × BothKnown (λ q r. q ≡ r) a b))
match_exact exact a b = (λ e. inl refl, λ h. refl)
match_exact cidr a b = (λ e. cc, λ h. elim h [ inl e ↦ cc | inr k ↦ cc (k.0) ])
match_exact mismatch a b = (λ e. cc, λ h. elim h [ inl e ↦ cc | inr k ↦ cc (k.0) ])
match_exact unknown a b = (
  λ e. inr (refl, (compare_ips-exact a b).0 e),
  λ h. elim h [ inl e ↦ cc | inr k ↦ (compare_ips-exact a b).1 k.1 ],
)

match_mismatch :
    (m : IpMatch) (a b : Option Text)
    → (if_unknown m (compare_ips a b) ≡ mismatch)
      ↔ ((m ≡ mismatch) ⊎ ((m ≡ unknown) × BothKnown (λ q r. q ≢ r) a b))
match_mismatch mismatch a b = (λ e. inl refl, λ h. refl)
match_mismatch cidr a b = (λ e. cc, λ h. elim h [ inl e ↦ cc | inr k ↦ cc (k.0) ])
match_mismatch exact a b = (λ e. cc, λ h. elim h [ inl e ↦ cc | inr k ↦ cc (k.0) ])
match_mismatch unknown a b = (
  λ e. inr (refl, (compare_ips-mismatch a b).0 e),
  λ h. elim h [ inl e ↦ cc | inr k ↦ (compare_ips-mismatch a b).1 k.1 ],
)

module _ (to_number : Text → Number) where
  single_source-InOrder :
      (root : Object) (pm : Value) → InOrder (names (single_source to_number root pm))
  unfolding single_source build_source
  single_source-InOrder root pm = elim (Bool-cases (looks_like_claude root)) [
    | inl c ↦ rw c claude_only
    | inr n ↦ elim (Bool-cases (looks_like_lookup root)) [
      | inl l ↦ rw (n, l) lookup_only
      | inr m ↦ rw (n, m) nothing
    ]
  ]

  sources_of-InOrder : (root : Object) (pm : Value) → InOrder (names (sources_of to_number root pm))
  unfolding sources_of build_source
  sources_of-InOrder root pm = elim (Option-cases (claude_raw root)) [
    | inl c ↦ elim (Option-cases (lookup_raw root)) [
      | inl l ↦ rw (c, l) (single_source-InOrder root pm)
      | inr (o, l) ↦ rw (c, l) lookup_only
    ]
    | inr (o, c) ↦ elim (Option-cases (lookup_raw root)) [
      | inl l ↦ rw (c, l) claude_only
      | inr (p, l) ↦ rw (c, l) both
    ]
  ]

  -- Whatever the payload is, each source is there at most once, and `claude` comes first.
  pub parse_score_sources-InOrder :
      (raw pm : Value) → InOrder (names (parse_score_sources to_number raw pm))
  unfolding parse_score_sources
  parse_score_sources-InOrder (Value.obj root) pm = sources_of-InOrder root pm
  parse_score_sources-InOrder Value.undefined pm = nothing
  parse_score_sources-InOrder _ pm = nothing

  -- A payload with its own object for the claude source gives that source from this object alone:
  -- what else the payload holds does not change it.
  sources_of-claude :
      (root c : Object) (pm : Value)
      → claude_raw root ≡ some c
      → source_of claude (sources_of to_number root pm) ≡ some (build_source to_number claude c pm)
  unfolding sources_of build_source
  sources_of-claude root c pm e = rw e refl

  -- A payload with its own object for the lookup source gives that source from this object alone:
  -- what else the payload holds, the object of the claude source included, does not change it.
  sources_of-lookup :
      (root l : Object) (pm : Value)
      → lookup_raw root ≡ some l
      → source_of lookup (sources_of to_number root pm) ≡ some (build_source to_number lookup l pm)
  unfolding sources_of build_source
  sources_of-lookup root l pm e = elim (Option-cases (claude_raw root)) [
    | inl n ↦ rw (n, e)
    | inr (c, k) ↦ rw (k, e)
  ]

  -- What the payload itself, or else the caller, says of the match.
  abbrev pub explicit_match : Object → Value → IpMatch
  explicit_match o pm = normalize_ip_match (nullish (get (codes "ip_match") o) pm)

  -- Both addresses of the payload are known, and `P` holds of them.
  abbrev pub KnownIps : (Text → Text → Type 0) → Object → Type 0
  KnownIps P o =
      (q : Text) × (r : Text) × (text_at o (codes "query_ip") ≡ some q)
      × ((intel_of to_number o).ip ≡ some r)
      × P q r

  -- The match of a source is `exact` exactly when the payload or its caller says so, or neither
  -- says a known word and both addresses are known and equal.
  build_source-exact :
      (name : SourceName) (o : Object) (pm : Value)
      → ((build_source to_number name o pm).ip_match ≡ exact) ↔ (
          (explicit_match o pm ≡ exact)
          ⊎ ((explicit_match o pm ≡ unknown) × KnownIps (λ q r. q ≡ r) o))
  unfolding build_source
  build_source-exact name o pm = match_exact (explicit_match o pm) _ _

  -- It is `mismatch` exactly when the payload or its caller says so, or neither says a known word
  -- and both addresses are known and differ.
  build_source-mismatch :
      (name : SourceName) (o : Object) (pm : Value)
      → ((build_source to_number name o pm).ip_match ≡ mismatch) ↔ (
          (explicit_match o pm ≡ mismatch)
          ⊎ ((explicit_match o pm ≡ unknown) × KnownIps (λ q r. q ≢ r) o))
  unfolding build_source
  build_source-mismatch name o pm = match_mismatch (explicit_match o pm) _ _
