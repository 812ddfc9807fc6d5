-- ===== src/ProxiesPage/Fetches.antt =====
-- The two fetches of the page, in any order.
use mihomo_cp.Prelude.{◌≡◌, refl, sym, ap, ◌∙◌, List, [], ◌∷◌, Option, none, some}
use mihomo_cp.Js.Text.{Text}
use mihomo_cp.Js.Value.{Value}
use mihomo_cp.NodeInventory.{Proxy, RuntimeProxyProvider, NodeRow}
use mihomo_cp.NodeInventory.Rows.{or_default, build_node_rows}
use mihomo_cp.NodeInventory.Statics.{static_part, build_node_rows-static_part}
use mihomo_cp.ProxiesPage.{
  PageState, first_state, start_proxies, finish_proxies, start_providers, finish_providers,
  all_rows,
}

-- What happens to the page: requests are sent, answers come, and filters are set.
pub data Event : Type 0 where
  proxies_asked : Event
  proxies_come : Option (Option (List Proxy)) → Event
  providers_asked : Event
  providers_come : Option (Option (List RuntimeProxyProvider)) → Event
  filters_set : Text → Text → Text → Text → Event

unfoldable pub happen : Event → PageState → PageState
unfolding start_proxies finish_proxies start_providers finish_providers
happen proxies_asked s = start_proxies s
happen (proxies_come answer) s = finish_proxies answer s
happen providers_asked s = start_providers s
happen (providers_come answer) s = finish_providers answer s
happen (filters_set search protocol source country) s = record s {
  search = search;
  protocol_filter = protocol;
  source_filter = source;
  country_filter = country;
}

-- The state after a history, whose last event stands first.
unfoldable pub after : List Event → PageState
unfolding happen
after [] = first_state
after (e ∷ earlier) = happen e (after earlier)

-- The proxies of the last answer that was no failure, and none before the first.
abbrev pub last_proxies : List Event → List Proxy
last_proxies [] = []
last_proxies (proxies_come (some found) ∷ es) = or_default found []
last_proxies (proxies_come none ∷ es) = last_proxies es
last_proxies (proxies_asked ∷ es) = last_proxies es
last_proxies (providers_asked ∷ es) = last_proxies es
last_proxies (providers_come answer ∷ es) = last_proxies es
last_proxies (filters_set a b c d ∷ es) = last_proxies es

after-last_proxies : (es : List Event) → (after es).proxies ≡ last_proxies es
unfolding after
after-last_proxies [] = refl
after-last_proxies (proxies_come (some found) ∷ es) = refl
after-last_proxies (proxies_come none ∷ es) = after-last_proxies es
after-last_proxies (proxies_asked ∷ es) = after-last_proxies es
after-last_proxies (providers_asked ∷ es) = after-last_proxies es
after-last_proxies (providers_come (some found) ∷ es) = after-last_proxies es
after-last_proxies (providers_come none ∷ es) = after-last_proxies es
after-last_proxies (filters_set a b c d ∷ es) = after-last_proxies es

module _ (lower : Text → Text) (to_text : Value → Text) where
  -- After any history of the page, its static rows are, keys included, the table of the last proxies
  -- that were fetched: no answer about the providers, good or bad, early or late, changes them.
  pub all_rows-after :
      (es : List Event) (rows : List NodeRow)
      → all_rows lower to_text (after es) ≡ some rows
      → build_node_rows lower to_text (last_proxies es) [] ≡ some (static_part rows)
  unfolding all_rows
  all_rows-after es rows e =
      ap (λ ps. build_node_rows lower to_text ps []) (sym (after-last_proxies es))
      ∙ build_node_rows-static_part lower to_text (after es).proxies (after es).providers rows e
