-- ===== src/ProxiesPage.antt =====
-- The page of the nodes, web/src/pages/proxies.tsx: its state, the answers of its two fetches, and what
-- it shows. The fetches of static proxies and of provider nodes are independent.
pub mod Fetches
use mihomo_cp.Prelude.{
  Bool, true, false, not, ◌||◌, List, [], ◌∷◌, Option, none, some, ◌>>=◌, find, length, drop,
  if◌then◌else◌,
}
use mihomo_cp.Js.Text.{Text, codes, text_eq, is_empty, trim, starts_with}
use mihomo_cp.Js.Value.{Value}
use mihomo_cp.NodeInventory.{Proxy, RuntimeProxyProvider, ProviderStatus, ok, NodeRow}
use mihomo_cp.NodeInventory.Rows.{or_default, provider_source, build_node_rows}
use mihomo_cp.NodeInventory.Filter.{NodeFilters, all_sources, static_source, filter_node_rows}

pub record PageState : Type 0 where
  pub proxies : List Proxy
  pub providers : List RuntimeProxyProvider
  pub loading : Bool
  pub static_error : Bool
  pub providers_loading : Bool
  pub providers_error : Bool
  pub search : Text
  pub protocol_filter : Text
  pub source_filter : Text
  pub country_filter : Text

abbrev pub first_state : PageState
first_state = record {
  proxies = [];
  providers = [];
  loading = false;
  static_error = false;
  providers_loading = false;
  providers_error = false;
  search = [];
  protocol_filter = [];
  source_filter = all_sources;
  country_filter = [];
}

unfoldable pub start_proxies : PageState → PageState
start_proxies s = record s { loading = true }

-- A response with its data, which may be missing; `none` is an exception.
unfoldable pub finish_proxies : Option (Option (List Proxy)) → PageState → PageState
finish_proxies (some found) s = record s {
  proxies = or_default found [];
  static_error = false;
  loading = false;
}
finish_proxies none s = record s { static_error = true; loading = false }

unfoldable pub start_providers : PageState → PageState
start_providers s = record s { providers_loading = true }

unfoldable pub finish_providers :
    Option (Option (List RuntimeProxyProvider)) → PageState → PageState
finish_providers (some found) s = record s {
  providers = or_default found [];
  providers_error = false;
  providers_loading = false;
}
finish_providers none s = record s {
  providers = [];
  providers_error = true;
  providers_loading = false;
}

-- The name after `provider:` in the source filter, or the empty text.
unfoldable pub selected_provider_name : PageState → Text
unfolding starts_with provider_source
selected_provider_name s =
    let prefix = provider_source [] in
    if starts_with s.source_filter prefix then drop (length prefix) s.source_filter else []

unfoldable pub selected_provider : PageState → Option RuntimeProxyProvider
unfolding selected_provider_name text_eq
selected_provider s = find (λ p. text_eq p.name (selected_provider_name s)) s.providers

-- `selectedProvider && selectedProvider.status !== 'ok'`.
abbrev pub is_unknown : Option RuntimeProxyProvider → Bool
is_unknown none = false
is_unknown (some p) = elim p.status [ ok ↦ false | _ ↦ true ]

pub data SourceLabel : Type 0 where
  source_static : SourceLabel
  source_unknown : Text → SourceLabel
  source_named : Text → SourceLabel
  source_all : SourceLabel

unfoldable pub source_label : PageState → SourceLabel
unfolding selected_provider
source_label s =
    let name = selected_provider_name s in
    if text_eq s.source_filter static_source
    then source_static
    else if is_empty name
    then source_all
    else if is_unknown (selected_provider s)
    then source_unknown name
    else source_named name

unfoldable pub has_filters : PageState → Bool
unfolding trim text_eq
has_filters s =
    not (is_empty (trim s.search))
    || not (is_empty s.protocol_filter)
    || not (is_empty s.country_filter)
    || not (text_eq s.source_filter all_sources)

pub data EmptyMessage : Type 0 where
  provider_unknown : EmptyMessage
  no_matching_nodes : EmptyMessage
  load_failed : EmptyMessage
  no_proxies : EmptyMessage

unfoldable pub empty_message : PageState → EmptyMessage
unfolding selected_provider has_filters
empty_message s =
    if is_unknown (selected_provider s)
    then provider_unknown
    else if has_filters s
    then no_matching_nodes
    else if s.static_error
    then load_failed
    else no_proxies

abbrev pub filters_of : PageState → NodeFilters
filters_of s = record {
  search = some s.search;
  protocol = some s.protocol_filter;
  source = some s.source_filter;
  country = some s.country_filter;
}

module _ (lower : Text → Text) (to_text : Value → Text) where
  unfoldable pub all_rows : PageState → Option (List NodeRow)
  unfolding build_node_rows
  all_rows s = build_node_rows lower to_text s.proxies s.providers

  unfoldable pub shown_rows : PageState → Option (List NodeRow)
  unfolding all_rows filter_node_rows
  shown_rows s = do rows ← all_rows s; some (filter_node_rows lower rows (filters_of s))
