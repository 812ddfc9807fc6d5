-- ===== src/Api/Meant.antt =====
-- The handler of the server that each endpoint is meant for, and what a path asks of its arguments.
use mihomo_cp.Prelude.{◌≡◌, false, [], ◌∷◌, Option, some, ◌>>=◌}
use mihomo_cp.Js.Text.{Text, codes, text_eq, is_empty}
use mihomo_cp.Js.Text.Split.{Free}
use mihomo_cp.Runtime.{UriComponent}
use mihomo_cp.Api
use mihomo_cp.Api.{Method, Endpoint, get, post, put, delete}
use mihomo_cp.Api.Requests.{request}
use mihomo_cp.Api.Routes.{Call, call, anyone, protected, admin_only, front_end, serve}

-- The call that each endpoint is meant for; the detection of countries has no handler of its own.
unfoldable pub meant : Endpoint → Option Call
meant (Api.auth Api.login) = some (call anyone (codes "authHandler.Login") [])
meant (Api.auth Api.refresh_token) = some (call anyone (codes "authHandler.Refresh") [])
meant (Api.auth Api.me) = some (call protected (codes "authHandler.Me") [])
meant (Api.auth Api.change_password) = some (call protected (codes "authHandler.ChangePassword") [])
meant (Api.proxies Api.list_proxies) = some (call protected (codes "proxyHandler.List") [])
meant (Api.proxies (Api.get_proxy id)) = some (call protected (codes "proxyHandler.Get") (id ∷ []))
meant (Api.proxies Api.create_proxy) = some (call admin_only (codes "proxyHandler.Create") [])
meant (Api.proxies (Api.update_proxy id)) =
    some (call admin_only (codes "proxyHandler.Update") (id ∷ []))
meant (Api.proxies (Api.delete_proxy id)) =
    some (call admin_only (codes "proxyHandler.Delete") (id ∷ []))
meant (Api.proxies (Api.copy_proxy id)) =
    some (call admin_only (codes "proxyHandler.Copy") (id ∷ []))
meant (Api.proxies Api.reorder_proxies) = some (call admin_only (codes "proxyHandler.Reorder") [])
meant (Api.proxies (Api.proxy_refs id)) =
    some (call protected (codes "proxyHandler.Refs") (id ∷ []))
meant (Api.proxies Api.detect_countries) = some front_end
meant (Api.proxy_groups Api.list_groups) = some (call protected (codes "proxyGroupHandler.List") [])
meant (Api.proxy_groups (Api.get_group id)) =
    some (call protected (codes "proxyGroupHandler.Get") (id ∷ []))
meant (Api.proxy_groups Api.create_group) =
    some (call admin_only (codes "proxyGroupHandler.Create") [])
meant (Api.proxy_groups (Api.update_group id)) =
    some (call admin_only (codes "proxyGroupHandler.Update") (id ∷ []))
meant (Api.proxy_groups (Api.delete_group id)) =
    some (call admin_only (codes "proxyGroupHandler.Delete") (id ∷ []))
meant (Api.proxy_groups Api.reorder_groups) =
    some (call admin_only (codes "proxyGroupHandler.Reorder") [])
meant (Api.proxy_groups (Api.group_refs id)) =
    some (call protected (codes "proxyGroupHandler.Refs") (id ∷ []))
meant (Api.publishing Api.discard) = some (call admin_only (codes "publishHandler.Discard") [])
meant (Api.publishing Api.preview) = some (call admin_only (codes "publishHandler.Preview") [])
meant (Api.publishing Api.validate) = some (call admin_only (codes "publishHandler.Validate") [])
meant (Api.publishing Api.publish) = some (call admin_only (codes "publishHandler.Publish") [])
meant (Api.publishing Api.rollback) = some (call admin_only (codes "publishHandler.Rollback") [])
meant (Api.publishing Api.publish_history) =
    some (call admin_only (codes "publishHandler.History") [])
meant (Api.publishing (Api.history_detail id)) =
    some (call admin_only (codes "publishHandler.HistoryDetail") (id ∷ []))
meant (Api.publishing Api.publish_status) = some (call protected (codes "publishHandler.Status") [])
meant (Api.rule_providers Api.list_rule_providers) =
    some (call protected (codes "ruleProviderHandler.List") [])
meant (Api.rule_providers Api.create_rule_provider) =
    some (call admin_only (codes "ruleProviderHandler.Create") [])
meant (Api.rule_providers (Api.update_rule_provider id)) =
    some (call admin_only (codes "ruleProviderHandler.Update") (id ∷ []))
meant (Api.rule_providers (Api.delete_rule_provider id)) =
    some (call admin_only (codes "ruleProviderHandler.Delete") (id ∷ []))
meant (Api.rule_providers (Api.refresh_rule_provider id)) =
    some (call admin_only (codes "ruleProviderHandler.Refresh") (id ∷ []))
meant (Api.rule_providers (Api.get_content id)) =
    some (call protected (codes "ruleProviderHandler.GetContent") (id ∷ []))
meant (Api.rule_providers (Api.update_content id)) =
    some (call admin_only (codes "ruleProviderHandler.UpdateContent") (id ∷ []))
meant (Api.rules Api.list_rules) = some (call protected (codes "ruleHandler.List") [])
meant (Api.rules Api.create_rule) = some (call admin_only (codes "ruleHandler.Create") [])
meant (Api.rules (Api.update_rule id)) =
    some (call admin_only (codes "ruleHandler.Update") (id ∷ []))
meant (Api.rules (Api.delete_rule id)) =
    some (call admin_only (codes "ruleHandler.Delete") (id ∷ []))
meant (Api.rules Api.reorder_rules) = some (call admin_only (codes "ruleHandler.Reorder") [])
meant (Api.settings Api.get_settings) =
    some (call admin_only (codes "settingsHandler.GetSettings") [])
meant (Api.settings Api.update_settings) =
    some (call admin_only (codes "settingsHandler.UpdateSettings") [])
meant (Api.settings Api.list_users) = some (call admin_only (codes "settingsHandler.ListUsers") [])
meant (Api.settings Api.create_user) =
    some (call admin_only (codes "settingsHandler.CreateUser") [])
meant (Api.settings (Api.update_user id)) =
    some (call admin_only (codes "settingsHandler.UpdateUser") (id ∷ []))
meant (Api.settings (Api.delete_user id)) =
    some (call admin_only (codes "settingsHandler.DeleteUser") (id ∷ []))
meant (Api.settings Api.get_config_yaml) =
    some (call admin_only (codes "settingsHandler.GetConfigYAML") [])
meant (Api.settings Api.update_config_yaml) =
    some (call admin_only (codes "settingsHandler.UpdateConfigYAML") [])
meant (Api.settings Api.delete_config_yaml) =
    some (call admin_only (codes "settingsHandler.DeleteConfigYAML") [])
meant (Api.system_config Api.get_system_config) =
    some (call admin_only (codes "systemConfigHandler.Get") [])
meant (Api.system_config Api.update_system_config) =
    some (call admin_only (codes "systemConfigHandler.Update") [])
meant (Api.node_scores Api.list_scores) = some (call protected (codes "scoresHandler.List") [])
meant (Api.node_scores (Api.get_score id)) =
    some (call protected (codes "scoresHandler.Get") (id ∷ []))
meant (Api.node_scores (Api.refresh_score id)) =
    some (call admin_only (codes "scoresHandler.RefreshOne") (id ∷ []))
meant (Api.node_scores Api.refresh_scores) =
    some (call admin_only (codes "scoresHandler.RefreshBatch") [])
meant (Api.runtime Api.connections) = some (call protected (codes "runtimeHandler.Connections") [])
meant (Api.runtime (Api.close_connection id)) =
    some (call admin_only (codes "runtimeHandler.CloseConnection") (id ∷ []))
meant (Api.runtime Api.runtime_proxies) = some (call protected (codes "runtimeHandler.Proxies") [])
meant (Api.runtime (Api.proxy_delay id)) =
    some (call protected (codes "runtimeHandler.ProxyDelay") (id ∷ []))
meant (Api.runtime (Api.provider_node_healthcheck provider node)) =
    some (call protected (codes "runtimeHandler.ProxyProviderNodeDelay") (provider ∷ node ∷ []))
meant (Api.runtime (Api.switch_proxy id)) =
    some (call admin_only (codes "runtimeHandler.SwitchProxy") (id ∷ []))
meant (Api.runtime Api.runtime_rules) = some (call protected (codes "runtimeHandler.Rules") [])
meant (Api.runtime Api.runtime_providers) =
    some (call protected (codes "runtimeHandler.Providers") [])
meant (Api.runtime Api.proxy_providers) =
    some (call protected (codes "runtimeHandler.ProxyProviders") [])
meant (Api.runtime (Api.refresh_provider id)) =
    some (call admin_only (codes "runtimeHandler.RefreshProvider") (id ∷ []))
meant (Api.runtime Api.version) = some (call protected (codes "runtimeHandler.Version") [])
meant (Api.subscriptions Api.list_subscriptions) =
    some (call protected (codes "subscriptionHandler.List") [])
meant (Api.subscriptions (Api.get_subscription id)) =
    some (call protected (codes "subscriptionHandler.Get") (id ∷ []))
meant (Api.subscriptions Api.discover_providers) =
    some (call protected (codes "subscriptionHandler.Discover") [])
meant (Api.subscriptions Api.create_subscription) =
    some (call admin_only (codes "subscriptionHandler.Create") [])
meant (Api.subscriptions (Api.update_subscription id)) =
    some (call admin_only (codes "subscriptionHandler.Update") (id ∷ []))
meant (Api.subscriptions (Api.remove_subscription id)) =
    some (call admin_only (codes "subscriptionHandler.Delete") (id ∷ []))
meant (Api.subscriptions (Api.refresh_subscription id)) =
    some (call admin_only (codes "subscriptionHandler.Refresh") (id ∷ []))
meant (Api.traffic Api.traffic_summary) = some (call protected (codes "trafficHandler.Summary") [])
meant (Api.traffic Api.traffic_history) = some (call protected (codes "trafficHandler.History") [])
meant (Api.traffic Api.traffic_providers) =
    some (call protected (codes "trafficHandler.ListProviders") [])
meant (Api.traffic Api.create_traffic_provider) =
    some (call admin_only (codes "trafficHandler.CreateProvider") [])
meant (Api.traffic (Api.update_traffic_provider id)) =
    some (call admin_only (codes "trafficHandler.UpdateProvider") (id ∷ []))
meant (Api.traffic (Api.delete_traffic_provider id)) =
    some (call admin_only (codes "trafficHandler.DeleteProvider") (id ∷ []))
meant (Api.traffic Api.traffic_alerts) = some (call protected (codes "trafficHandler.Alerts") [])
meant (Api.traffic Api.traffic_settings) =
    some (call admin_only (codes "trafficHandler.GetSettings") [])
meant (Api.traffic Api.update_traffic_settings) =
    some (call admin_only (codes "trafficHandler.UpdateSettings") [])
meant (Api.traffic Api.test_notify) = some (call admin_only (codes "trafficHandler.TestNotify") [])

-- A segment that a URL and `http.ServeMux` leave where it is, unlike `.` and `..`.
pub record NoDots (s : Text) : Type 0 where
  pub one : text_eq s (codes ".") ≡ false
  pub two : text_eq s (codes "..") ≡ false

-- An id that a path may have as it is: one segment, not empty, not `.` or `..`, that decodes to
-- itself and in which neither a query nor a fragment begins.
pub record Plain (decode : Text → Option Text) (id : Text) : Type 0 where
  pub segment : Free 47 id
  pub no_query : Free 63 id
  pub no_fragment : Free 35 id
  pub no_dots : NoDots id
  pub full : is_empty id ≡ false
  pub verbatim : decode id ≡ some id

-- A name that `encodeURIComponent` takes, with a result that is not empty and not `.` or `..`.
pub record Encoded (uri : UriComponent) (name : Text) : Type 0 where
  pub code : Text
  pub encoded : uri.encode name ≡ some code
  pub full : is_empty code ≡ false
  pub no_dots : NoDots code

module _ (uri : UriComponent) where
  -- What the paths of the endpoints ask of their arguments.
  abbrev pub Sendable : Endpoint → Type 0
  Sendable (Api.proxies (Api.get_proxy id)) = Plain uri.decode id
  Sendable (Api.proxies (Api.update_proxy id)) = Plain uri.decode id
  Sendable (Api.proxies (Api.delete_proxy id)) = Plain uri.decode id
  Sendable (Api.proxies (Api.copy_proxy id)) = Plain uri.decode id
  Sendable (Api.proxies (Api.proxy_refs id)) = Plain uri.decode id
  Sendable (Api.proxy_groups (Api.get_group id)) = Plain uri.decode id
  Sendable (Api.proxy_groups (Api.update_group id)) = Plain uri.decode id
  Sendable (Api.proxy_groups (Api.delete_group id)) = Plain uri.decode id
  Sendable (Api.proxy_groups (Api.group_refs id)) = Plain uri.decode id
  Sendable (Api.publishing (Api.history_detail id)) = Plain uri.decode id
  Sendable (Api.rule_providers (Api.update_rule_provider id)) = Plain uri.decode id
  Sendable (Api.rule_providers (Api.delete_rule_provider id)) = Plain uri.decode id
  Sendable (Api.rule_providers (Api.refresh_rule_provider id)) = Plain uri.decode id
  Sendable (Api.rule_providers (Api.get_content id)) = Plain uri.decode id
  Sendable (Api.rule_providers (Api.update_content id)) = Plain uri.decode id
  Sendable (Api.rules (Api.update_rule id)) = Plain uri.decode id
  Sendable (Api.rules (Api.delete_rule id)) = Plain uri.decode id
  Sendable (Api.settings (Api.update_user id)) = Plain uri.decode id
  Sendable (Api.settings (Api.delete_user id)) = Plain uri.decode id
  Sendable (Api.node_scores (Api.get_score id)) = Encoded uri id
  Sendable (Api.node_scores (Api.refresh_score id)) = Encoded uri id
  Sendable (Api.runtime (Api.close_connection id)) = Plain uri.decode id
  Sendable (Api.runtime (Api.proxy_delay id)) = Encoded uri id
  Sendable (Api.runtime (Api.provider_node_healthcheck provider node)) =
      Encoded uri provider × Encoded uri node
  Sendable (Api.runtime (Api.switch_proxy id)) = Encoded uri id
  Sendable (Api.runtime (Api.refresh_provider id)) = Encoded uri id
  Sendable (Api.subscriptions (Api.get_subscription id)) =
      Plain uri.decode id × (text_eq (codes "providers") id ≡ false)
  Sendable (Api.subscriptions (Api.update_subscription id)) = Plain uri.decode id
  Sendable (Api.subscriptions (Api.remove_subscription id)) = Plain uri.decode id
  Sendable (Api.subscriptions (Api.refresh_subscription id)) = Plain uri.decode id
  Sendable (Api.traffic (Api.update_traffic_provider id)) = Plain uri.decode id
  Sendable (Api.traffic (Api.delete_traffic_provider id)) = Plain uri.decode id
  Sendable _ = Unit

  -- The call that an endpoint ends in.
  unfoldable pub served : Endpoint → Option Call
  unfolding request serve
  served e =
      request uri.encode e >>= (λ (r : Method × Text). let (m, path) = r in serve uri.decode m path)
