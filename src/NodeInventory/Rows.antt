-- ===== src/NodeInventory/Rows.antt =====
-- `buildNodeRows`: one row for each static proxy and each provider node, pushed in order with a key
-- made unique. `lower` is `toLowerCase` and `to_text` is `String(value)`.
use mihomo_cp.Prelude.{
  ◌>>=◌, ℕ, zero, suc, ◌+◌, Bool, true, false, List, [], ◌∷◌, ◌++◌, Option, none, some,
  if◌then◌else◌, length,
}
use mihomo_cp.Js.Text.{Text, codes, text_eq, is_empty}
use mihomo_cp.Js.Text.Decimal.{decimal}
use mihomo_cp.Js.Value.{Value, Object, undefined, null, bool, str, empty, get}
use mihomo_cp.Js.TextSet.{has, add}
use mihomo_cp.NodeInventory.{
  Proxy, RuntimeProviderNode, RuntimeProxyProvider, NodeRow, static, provider,
}
use mihomo_cp.NodeInventory.Protocol.{normalize_protocol}

-- `providerSource(name)`.
unfoldable pub provider_source : Text → Text
provider_source name = codes "provider:" ++ name

-- `v === undefined || v === null || v === ''`.
abbrev pub is_missing : Value → Bool
is_missing undefined = true
is_missing null = true
is_missing (str s) = is_empty s
is_missing _ = false

-- `o ?? d`.
abbrev pub or_default {ℓ} : {A : Type ℓ} → Option A → A → A
or_default none d = d
or_default (some a) d = a

-- `typeof v === 'boolean' ? v : null`.
abbrev pub as_bool : Value → Option Bool
as_bool (bool b) = some b
as_bool _ = none

-- The key `${base}#${suffix}`.
unfoldable pub numbered : Text → ℕ → Text
unfolding decimal
numbered base suffix = base ++ b'#' ∷ decimal suffix

-- The loop of `push`: `while (used.has(key)) { key = `${row.key}#${suffix}`; suffix += 1; }`.
-- `none` means that the fuel ran out.
unfoldable pub fresh : ℕ → List Text → Text → Text → ℕ → Option Text
unfolding has numbered
fresh zero used base key suffix = none
fresh (suc fuel) used base key suffix =
    let next = fresh fuel used base (numbered base suffix) (suffix + 1) in
    if has used key then next else some key

-- The set of used keys and the rows pushed so far.
pub record Pushed : Type 0 where
  pub used : List Text
  pub rows : List NodeRow

-- One more round than there are used keys.
unfoldable pub push : NodeRow → Pushed → Option Pushed
unfolding fresh add text_eq
push row p = do
  key ← fresh (suc (length p.used)) p.used row.key row.key 2
  let row' = if text_eq key row.key then row else record row { key = key }
  some (record { used = add p.used key; rows = p.rows ++ row' ∷ [] })

module _ (lower : Text → Text) (to_text : Value → Text) where
  unfoldable pub server_label : Object → Text
  unfolding get
  server_label config =
      let server = get (codes "server") config in
      let port = get (codes "port") config in
      if is_missing server
      then codes "—"
      else if is_missing port
      then to_text server
      else to_text server ++ b':' ∷ to_text port

  unfoldable pub static_row : Proxy → NodeRow
  unfolding server_label normalize_protocol get
  static_row proxy =
      let config = or_default proxy.config empty in
      record {
        key = codes "static:" ++ proxy.id;
        kind = static;
        id = proxy.id;
        name = proxy.name;
        protocol = normalize_protocol lower proxy.type;
        provider_name = [];
        provider_status = none;
        country = or_default proxy.country [];
        server = server_label config;
        alive = none;
        udp = as_bool (get (codes "udp") config);
        delay = none;
        read_only = false;
        proxy = some proxy;
        provider_node = none;
      }

  unfoldable pub provider_row : RuntimeProxyProvider → RuntimeProviderNode → NodeRow
  unfolding normalize_protocol
  provider_row owner node = record {
    key = codes "provider:" ++ node.id;
    kind = provider;
    id = node.id;
    name = node.name;
    protocol = normalize_protocol lower node.type;
    provider_name = owner.name;
    provider_status = some owner.status;
    country = [];
    server = codes "—";
    alive = node.alive;
    udp = node.udp;
    delay = node.delay;
    read_only = true;
    proxy = none;
    provider_node = some node;
  }

  unfoldable pub push_proxies : List Proxy → Pushed → Option Pushed
  unfolding push static_row
  push_proxies [] p = some p
  push_proxies (proxy ∷ rest) p = do p' ← push (static_row proxy) p; push_proxies rest p'

  unfoldable pub push_nodes :
      RuntimeProxyProvider → List RuntimeProviderNode → Pushed → Option Pushed
  unfolding push provider_row
  push_nodes owner [] p = some p
  push_nodes owner (node ∷ rest) p = do
    p' ← push (provider_row owner node) p
    push_nodes owner rest p'

  unfoldable pub push_providers : List RuntimeProxyProvider → Pushed → Option Pushed
  unfolding push_nodes
  push_providers [] p = some p
  push_providers (owner ∷ rest) p = do
    p' ← push_nodes owner (or_default owner.nodes []) p
    push_providers rest p'

  unfoldable pub build_node_rows : List Proxy → List RuntimeProxyProvider → Option (List NodeRow)
  unfolding push_proxies push_providers
  build_node_rows proxies providers = do
    p ← push_proxies proxies (record { used = []; rows = [] })
    q ← push_providers providers p
    some q.rows
