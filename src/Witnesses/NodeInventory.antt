-- ===== src/Witnesses/NodeInventory.antt =====
-- The node table at concrete proxies and providers.
use mihomo_cp.Prelude.{◌≡◌, refl, ◌↔◌, inl, inr, true, List, [], ◌∷◌, none, some, In}
use mihomo_cp.Prelude.Unique.{Unique}
use mihomo_cp.Js.Text.{codes}
use mihomo_cp.Js.Value.{str, bool, empty, field}
use mihomo_cp.NodeInventory.{Proxy, RuntimeProviderNode, RuntimeProxyProvider, NodeRow, ok}
use mihomo_cp.NodeInventory.Protocol.{normalize_protocol, protocol_label}
use mihomo_cp.NodeInventory.Rows.{static_row, provider_row, build_node_rows, provider_source}
use mihomo_cp.NodeInventory.Push.{keys, Relabelled}
use mihomo_cp.NodeInventory.Build.{source_rows, build_node_rows_lem}
use mihomo_cp.NodeInventory.Filter.{NodeFilters, Answers, filter_node_rows, In-filter_node_rows}
use mihomo_cp.Witnesses.Inputs.{ascii_lower, plain_text}

abbrev pub tokyo : Proxy
tokyo = record {
  id = codes "1";
  name = codes "Tokyo";
  type = codes "ss";
  country = some (codes "JP");
  config = some (field (codes "server") (str (codes "h")) (field (codes "udp") (bool true) empty));
}

abbrev node : RuntimeProviderNode
node = record {
  id = codes "n";
  name = codes "A";
  type = codes "Any_TLS";
  alive = some true;
  udp = none;
  delay = none;
}

abbrev owner : RuntimeProxyProvider
owner = record {
  name = codes "P";
  status = ok;
  updated_at = none;
  node_count = none;
  nodes = some (node ∷ node ∷ []);
}

abbrev pub tokyo_row : NodeRow
tokyo_row = static_row ascii_lower plain_text tokyo

abbrev pub node_row : NodeRow
node_row = provider_row ascii_lower plain_text owner node

twice_the_same_node :
    build_node_rows ascii_lower plain_text (tokyo ∷ []) (owner ∷ [])
    ≡ some (tokyo_row ∷ node_row ∷ record node_row { key = codes "provider:n#2" } ∷ [])
unfolding build_node_rows
twice_the_same_node = refl

aliases :
    (normalize_protocol ascii_lower (codes " Shadow-Socks R") ≡ codes "ssr")
    × (protocol_label (codes "anytls") ≡ codes "AnyTLS")
unfolding normalize_protocol protocol_label
aliases = (refl, refl)

build_node_rows_lem_example :
    (rows : List NodeRow) × (build_node_rows ascii_lower plain_text (tokyo ∷ []) (owner ∷ [])
      ≡ some rows)
    × Unique (keys rows)
    × Relabelled (source_rows ascii_lower plain_text (tokyo ∷ []) (owner ∷ [])) rows
build_node_rows_lem_example = build_node_rows_lem ascii_lower plain_text (tokyo ∷ []) (owner ∷ [])

abbrev pub lone : RuntimeProxyProvider
lone = record owner { nodes = some (node ∷ []) }

lone-Unique : Unique (keys (source_rows ascii_lower plain_text (tokyo ∷ []) (lone ∷ [])))
unfolding static_row provider_row
lone-Unique = (λ m. elim m [ inl e ↦ cc | inr k ↦ k ], (λ k. k, tt))

abbrev rows : List NodeRow
rows = tokyo_row ∷ node_row ∷ []

abbrev japan : NodeFilters
japan = record { search = none; protocol = none; source = none; country = some (codes "JP") }

abbrev of_p : NodeFilters
of_p = record {
  search = some (codes " a ");
  protocol = some (codes "anytls");
  source = some (provider_source (codes "P"));
  country = none;
}

filtered :
    (filter_node_rows ascii_lower rows japan ≡ tokyo_row ∷ [])
    × (filter_node_rows ascii_lower rows of_p ≡ node_row ∷ [])
unfolding filter_node_rows static_row provider_row provider_source
filtered = (refl, refl)

In-filter_node_rows_example :
    In node_row (filter_node_rows ascii_lower rows of_p)
    ↔ (In node_row rows × Answers ascii_lower of_p node_row)
In-filter_node_rows_example = In-filter_node_rows ascii_lower node_row rows of_p

node_row-In : In node_row (filter_node_rows ascii_lower rows of_p)
unfolding filter_node_rows static_row provider_row provider_source
node_row-In = inl refl
