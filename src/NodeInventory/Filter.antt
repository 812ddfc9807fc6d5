-- ===== src/NodeInventory/Filter.antt =====
-- `filterNodeRows`: the page filters over the merged rows. `lower` is `toLowerCase`; an absent
-- filter is `none`.
use mihomo_cp.Prelude.{
  ◌≡◌, refl, sym, inl, inr, Bool-cases, ◌∙◌, ap, ◌↔◌, Bool, true, false, not, ◌&&◌, ◌||◌, List, [],
  ◌∷◌, ◌++◌, Option, none, some, if◌then◌else◌, In, keep, length, drop, arith,
}
use mihomo_cp.Prelude.Kept.{In-keep}
use mihomo_cp.Js.Text.{Text, codes, text_eq, is_empty, trim, starts_with, includes}
use mihomo_cp.Js.Text.Occurs.{Occurs, starts_with_iff, search_iff}
use mihomo_cp.Js.Text.Laws.{text_eq_iff}
use mihomo_cp.NodeInventory.{NodeRow, NodeKind, static, provider, is_static}
use mihomo_cp.NodeInventory.Rows.{or_default, provider_source}

pub record NodeFilters : Type 0 where
  pub search : Option Text
  pub protocol : Option Text
  pub source : Option Text
  pub country : Option Text

abbrev pub all_sources : Text
all_sources = codes "__all__"

abbrev pub static_source : Text
static_source = codes "__static__"

abbrev pub provider_prefix : Text
provider_prefix = codes "provider:"

-- A filter that is present and not empty.
abbrev pub is_set : Option Text → Bool
is_set none = false
is_set (some s) = not (is_empty s)

abbrev pub text_of : Option Text → Text
text_of o = or_default o []

-- The branches on `source` in the predicate.
unfoldable pub source_ok : Text → NodeRow → Bool
unfolding text_eq starts_with
source_ok source row =
    if text_eq source static_source
    then is_static row.kind
    else if starts_with source provider_prefix
    then text_eq row.provider_name (drop (length provider_prefix) source)
    else true

-- The four early returns of the predicate, over any tests.
gates_iff :
    (a b c d : Bool)
    → ((if not a
          then false
          else if b
          then false
          else if not c
          then false
          else if d
          then false
          else true)
        ≡ true)
      ↔ ((a ≡ true) × (b ≡ false) × (c ≡ true) × (d ≡ false))
gates_iff a b c d = ground arith

guard_iff : (set same : Bool) → ((set && not same) ≡ false) ↔ (set ≡ true → same ≡ true)
guard_iff true true = ground arith
guard_iff true false = ground arith
guard_iff false _ = (λ _ h. cc, λ _. refl)

guard₂_iff :
    (set fixed same : Bool)
    → ((set && (not fixed || not same)) ≡ false) ↔ (set ≡ true → (fixed ≡ true) × (same ≡ true))
guard₂_iff true true true = ground arith
guard₂_iff true true false = (λ h. cc, λ h. cc (h refl).1)
guard₂_iff true false same = (λ h. cc, λ h. cc (h refl).0)
guard₂_iff false _ _ = (λ _ h. cc, λ _. refl)

static_of : (k : NodeKind) → is_static k ≡ true → k ≡ static
static_of static e = refl
static_of provider e = cc

-- The filter value of a provider selects by the provider's name alone.
source_ok-provider :
    (name : Text) (row : NodeRow)
    → source_ok (provider_source name) row ≡ text_eq row.provider_name name
unfolding source_ok provider_source text_eq
source_ok-provider name row = refl

-- What the source filter asks of a row: the static source asks for a static row, and the value of a
-- provider asks for a row of that provider. Any other value asks for nothing.
pub record SourceFits (source : Text) (row : NodeRow) : Type 0 where
  pub static_rows : source ≡ static_source → row.kind ≡ static
  pub provider_rows : (name : Text) → source ≡ provider_source name → row.provider_name ≡ name

source_ok-static : (row : NodeRow) → source_ok static_source row ≡ is_static row.kind
unfolding source_ok text_eq
source_ok-static row = refl

source_ok-provider_rows :
    (source : Text) (row : NodeRow) (name : Text)
    → source ≡ provider_source name
    → source_ok source row ≡ text_eq row.provider_name name
source_ok-provider_rows source row name e =
    ap (λ s. source_ok s row) e ∙ source_ok-provider name row

source_ok_iff :
    (source : Text) (row : NodeRow) → (source_ok source row ≡ true) ↔ SourceFits source row
unfolding source_ok
source_ok_iff source row = (
  λ ok. record {
    static_rows = λ e.
        static_of row.kind (sym (source_ok-static row) ∙ ap (λ s. source_ok s row) (sym e) ∙ ok);
    provider_rows = λ name e.
        (text_eq_iff row.provider_name name).0
          (sym (source_ok-provider_rows source row name e) ∙ ok);
  },
  λ fits. elim (Bool-cases (text_eq source static_source)) [
    | inl e ↦
        rw (source_ok, e) (ap is_static (fits.static_rows ((text_eq_iff source static_source).0 e)))
    | inr n ↦ elim (Bool-cases (starts_with source provider_prefix)) [
      | inl e ↦
          let (name, same) = (starts_with_iff source provider_prefix).0 e in
          let here : source ≡ provider_source name = unfold provider_source in same in
          source_ok-provider_rows source row name here
          ∙ (text_eq_iff row.provider_name name).1 (fits.provider_rows name here)
      | inr m ↦ rw (source_ok, n, m) refl
    ]
  ],
)

module _ (lower : Text → Text) where
  unfoldable pub search_ok : Text → NodeRow → Bool
  unfolding includes
  search_ok needle row =
      is_empty needle || includes (lower (row.name ++ 10 ∷ row.provider_name)) needle

  unfoldable pub row_ok : NodeFilters → NodeRow → Bool
  unfolding search_ok source_ok trim text_eq
  row_ok filters row =
      if not (search_ok (lower (trim (text_of filters.search))) row)
      then false
      else if is_set filters.protocol && not (text_eq row.protocol (text_of filters.protocol))
      then false
      else if not (source_ok (or_default filters.source all_sources) row)
      then false
      else if is_set filters.country
          && (not (is_static row.kind) || not (text_eq row.country (text_of filters.country)))
      then false
      else true

  unfoldable pub filter_node_rows : List NodeRow → NodeFilters → List NodeRow
  unfolding row_ok
  filter_node_rows rows filters = keep (row_ok filters) rows

  -- What it means that a row answers the filters, without the tests and their order: the search text
  -- stands somewhere in the name and the provider name, with a line feed between them, without regard
  -- to case.
  pub record Answers (filters : NodeFilters) (row : NodeRow) : Type 0 where
    pub found :
        Occurs (lower (trim (text_of filters.search))) (lower (row.name ++ 10 ∷ row.provider_name))
    pub protocol : is_set filters.protocol ≡ true → row.protocol ≡ text_of filters.protocol
    pub source : SourceFits (or_default filters.source all_sources) row
    pub country :
        is_set filters.country ≡ true
        → (row.kind ≡ static) × (row.country ≡ text_of filters.country)

  search_ok_iff :
      (needle : Text) (row : NodeRow)
      → (search_ok needle row ≡ true) ↔ Occurs needle (lower (row.name ++ 10 ∷ row.provider_name))
  unfolding search_ok
  search_ok_iff needle row = search_iff (lower (row.name ++ 10 ∷ row.provider_name)) needle

  row_ok_iff :
      (filters : NodeFilters) (row : NodeRow) → (row_ok filters row ≡ true) ↔ Answers filters row
  unfolding row_ok
  row_ok_iff filters row = (
    λ e.
        let (found, other, source, country) = (gates_iff _ _ _ _).0 e in
        record {
          found = (search_ok_iff _ row).0 found;
          protocol = λ h. (text_eq_iff _ _).0 ((guard_iff _ _).0 other h);
          source = (source_ok_iff _ row).0 source;
          country = λ h.
              let (fixed, same) = (guard₂_iff _ _ _).0 country h in
              (static_of row.kind fixed, (text_eq_iff _ _).0 same);
        },
    λ a. (gates_iff _ _ _ _).1 (
      (search_ok_iff _ row).1 a.found,
      (guard_iff _ _).1 (λ h. (text_eq_iff _ _).1 (a.protocol h)),
      (source_ok_iff _ row).1 a.source,
      (guard₂_iff _ _ _).1
          (λ h. (ap is_static (a.country h).0, (text_eq_iff _ _).1 (a.country h).1)),
    ),
  )

  -- A row is kept exactly when it is one of the rows and answers every filter: the search text stands
  -- in its name or provider name (joined by a line feed), it has the protocol if one is set, it is
  -- static if the source is the static one and of that provider if the source is a provider, and if a
  -- country is set it is a static row of that country.
  pub In-filter_node_rows :
      (row : NodeRow) (rows : List NodeRow) (filters : NodeFilters)
      → In row (filter_node_rows rows filters) ↔ (In row rows × Answers filters row)
  unfolding filter_node_rows
  In-filter_node_rows row rows filters = (
    λ m. let (h, e) = (In-keep (row_ok filters) row rows).0 m in (h, (row_ok_iff filters row).0 e),
    λ m. (In-keep (row_ok filters) row rows).1 (m.0, (row_ok_iff filters row).1 m.1),
  )

  -- An active country filter hides every provider row, whatever the other filters are.
  filter_node_rows-country :
      (row : NodeRow) (rows : List NodeRow) (filters : NodeFilters)
      → is_set filters.country ≡ true
      → row.kind ≡ provider
      → ¬ In row (filter_node_rows rows filters)
  filter_node_rows-country row rows filters h k m =
      let e = (((In-filter_node_rows row rows filters).0 m).1.country h).0 in cc

  -- With the source set to a provider, a row is kept only if it is of that provider: the whole
  -- provider name is compared, whatever characters it holds.
  filter_node_rows-provider :
      (row : NodeRow) (rows : List NodeRow) (filters : NodeFilters) (name : Text)
      → filters.source ≡ some (provider_source name)
      → In row (filter_node_rows rows filters)
      → row.provider_name ≡ name
  filter_node_rows-provider row rows filters name e m =
      ((In-filter_node_rows row rows filters).0 m).1.source.provider_rows name
        (ap (λ o. or_default o all_sources) e)
