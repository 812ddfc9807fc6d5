-- ===== src/NodeInventory/Build.antt =====
-- What `buildNodeRows` builds: it always ends, its keys are all different, and apart from the keys
-- its rows are the static rows in order and then the provider rows in order.
use mihomo_cp.Prelude.{
  ◌>>=◌, ◌≡◌, refl, sym, ◌∙◌, subst, List, [], ◌∷◌, ◌++◌, map, Option, none, some,
}
use mihomo_cp.Prelude.Unique.{Unique}
use mihomo_cp.Js.Text.{Text}
use mihomo_cp.Js.Value.{Value}
use mihomo_cp.NodeInventory.{Proxy, RuntimeProviderNode, RuntimeProxyProvider, NodeRow}
use mihomo_cp.NodeInventory.Rows.{
  or_default, Pushed, push, static_row, provider_row, push_proxies, push_nodes, push_providers,
  build_node_rows,
}
use mihomo_cp.NodeInventory.Push.{
  keys, Relabelled, start, grow_all, push_all, push_all-append, push_all_unused, bind_cong,
}

module _ (lower : Text → Text) (to_text : Value → Text) where
  -- The rows with their own keys: what the table shows, in order.
  abbrev pub provider_rows : List RuntimeProxyProvider → List NodeRow
  provider_rows [] = []
  provider_rows (owner ∷ rest) =
      map (provider_row lower to_text owner) (or_default owner.nodes []) ++ provider_rows rest

  abbrev pub source_rows : List Proxy → List RuntimeProxyProvider → List NodeRow
  source_rows proxies providers = map (static_row lower to_text) proxies ++ provider_rows providers

  push_proxies_lem :
      (proxies : List Proxy) (p : Pushed)
      → push_proxies lower to_text proxies p ≡ push_all (map (static_row lower to_text) proxies) p
  unfolding push_proxies push_all
  push_proxies_lem [] p = refl
  push_proxies_lem (proxy ∷ rest) p =
      bind_cong (push (static_row lower to_text proxy) p) _ _ (push_proxies_lem rest)

  push_nodes_lem :
      (owner : RuntimeProxyProvider) (nodes : List RuntimeProviderNode) (p : Pushed)
      → push_nodes lower to_text owner nodes p
        ≡ push_all (map (provider_row lower to_text owner) nodes) p
  unfolding push_nodes push_all
  push_nodes_lem owner [] p = refl
  push_nodes_lem owner (node ∷ rest) p =
      bind_cong (push (provider_row lower to_text owner node) p) _ _ (push_nodes_lem owner rest)

  push_providers_lem :
      (providers : List RuntimeProxyProvider) (p : Pushed)
      → push_providers lower to_text providers p ≡ push_all (provider_rows providers) p
  unfolding push_providers push_all
  push_providers_lem [] p = refl
  push_providers_lem (owner ∷ rest) p = rw (push_nodes_lem owner (or_default owner.nodes []) p) (
      bind_cong (push_all _ p) _ _ (push_providers_lem rest)
      ∙ sym (push_all-append _ (provider_rows rest) p))

  pub build_as_push_all :
      (proxies : List Proxy) (providers : List RuntimeProxyProvider)
      → build_node_rows lower to_text proxies providers
        ≡ (push_all (source_rows proxies providers) start >>= λ p. some p.rows)
  unfolding build_node_rows start
  build_as_push_all proxies providers =
      rw (push_proxies_lem proxies (record { used = []; rows = [] })) (
        rw (push_all-append (map (static_row lower to_text) proxies) (provider_rows providers))
          (finish (push_all (map (static_row lower to_text) proxies) _)))
    where
      finish :
          (o : Option Pushed)
          → (o >>= λ p. push_providers lower to_text providers p >>= λ q. some q.rows)
            ≡ ((o >>= λ p. push_all (provider_rows providers) p) >>= λ q. some q.rows)
      finish none = refl
      finish (some p) = rw (push_providers_lem providers p)

  -- Whatever the proxies and providers are, the loops end and a table is built. Its keys are all
  -- different; and row for row it is the static rows in order, then the nodes of the providers in
  -- order, with nothing changed but the key, which is the row's own key or that key with `#n`.
  pub build_node_rows_lem :
      (proxies : List Proxy) (providers : List RuntimeProxyProvider)
      → (rows : List NodeRow) × (build_node_rows lower to_text proxies providers ≡ some rows)
        × Unique (keys rows)
        × Relabelled (source_rows proxies providers) rows
  unfolding build_node_rows start
  build_node_rows_lem proxies providers =
      let all =
        grow_all (source_rows proxies providers) start (record { tracked = refl; distinct = tt }) in
      (
        all.after.rows,
        rw (build_as_push_all proxies providers) (rw all.pushed refl),
        subst Unique all.valid.tracked all.valid.distinct,
        rw all.appended all.relabelled,
      )

  -- Rows whose keys are all different keep them: the table is exactly the source rows.
  build_node_rows-distinct :
      (proxies : List Proxy) (providers : List RuntimeProxyProvider)
      → Unique (keys (source_rows proxies providers))
      → build_node_rows lower to_text proxies providers ≡ some (source_rows proxies providers)
  unfolding start
  build_node_rows-distinct proxies providers u =
      rw (build_as_push_all proxies providers)
        (rw (push_all_unused (source_rows proxies providers) start u))
