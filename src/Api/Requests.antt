-- ===== src/Api/Requests.antt =====
-- The requests of the front end, web/src/api/: the method and the path of each function of the API
-- objects. A path is what stands behind `/api/`, without the query. `encode` is
-- `encodeURIComponent`, which may throw.
use mihomo_cp.Prelude.{◌++◌, Option, some, ◌>>=◌}
use mihomo_cp.Js.Text.{Text, codes}
use mihomo_cp.Api.{
  Method, AuthApi, ProxiesApi, ProxyGroupsApi, PublishApi, RuleProvidersApi, RulesApi, SettingsApi,
  SystemConfigApi, NodeScoresApi, RuntimeApi, SubscriptionsApi, TrafficApi, Endpoint, get, post,
  put, delete, login, refresh_token, me, change_password, list_proxies, get_proxy, create_proxy,
  update_proxy, delete_proxy, copy_proxy, reorder_proxies, proxy_refs, detect_countries,
  list_groups, get_group, create_group, update_group, delete_group, reorder_groups, group_refs,
  discard, preview, validate, publish, rollback, publish_history, history_detail, publish_status,
  list_rule_providers, create_rule_provider, update_rule_provider, delete_rule_provider,
  refresh_rule_provider, get_content, update_content, list_rules, create_rule, update_rule,
  delete_rule, reorder_rules, get_settings, update_settings, list_users, create_user, update_user,
  delete_user, get_config_yaml, update_config_yaml, delete_config_yaml, get_system_config,
  update_system_config, list_scores, get_score, refresh_score, refresh_scores, connections,
  close_connection, runtime_proxies, proxy_delay, provider_node_healthcheck, switch_proxy,
  runtime_rules, runtime_providers, proxy_providers, refresh_provider, version, list_subscriptions,
  get_subscription, discover_providers, create_subscription, update_subscription,
  remove_subscription, refresh_subscription, traffic_summary, traffic_history, traffic_providers,
  create_traffic_provider, update_traffic_provider, delete_traffic_provider, traffic_alerts,
  traffic_settings, update_traffic_settings, test_notify, auth, proxies, proxy_groups, publishing,
  rule_providers, rules, settings, system_config, node_scores, runtime, subscriptions, traffic,
}

-- The requests of `authApi`.
unfoldable pub auth_request : AuthApi → Option (Method × Text)
auth_request login = some (post, codes "auth/login")
auth_request refresh_token = some (post, codes "auth/refresh")
auth_request me = some (get, codes "auth/me")
auth_request change_password = some (put, codes "auth/change-password")

-- The requests of `proxiesApi`.
unfoldable pub proxies_request : ProxiesApi → Option (Method × Text)
proxies_request list_proxies = some (get, codes "proxies")
proxies_request (get_proxy id) = some (get, codes "proxies/" ++ id)
proxies_request create_proxy = some (post, codes "proxies")
proxies_request (update_proxy id) = some (put, codes "proxies/" ++ id)
proxies_request (delete_proxy id) = some (delete, codes "proxies/" ++ id)
proxies_request (copy_proxy id) = some (post, codes "proxies/" ++ id ++ codes "/copy")
proxies_request reorder_proxies = some (post, codes "proxies/reorder")
proxies_request (proxy_refs id) = some (get, codes "proxies/" ++ id ++ codes "/refs")
proxies_request detect_countries = some (post, codes "proxies/detect-countries")

-- The requests of `proxyGroupsApi`.
unfoldable pub proxy_groups_request : ProxyGroupsApi → Option (Method × Text)
proxy_groups_request list_groups = some (get, codes "proxy-groups")
proxy_groups_request (get_group id) = some (get, codes "proxy-groups/" ++ id)
proxy_groups_request create_group = some (post, codes "proxy-groups")
proxy_groups_request (update_group id) = some (put, codes "proxy-groups/" ++ id)
proxy_groups_request (delete_group id) = some (delete, codes "proxy-groups/" ++ id)
proxy_groups_request reorder_groups = some (post, codes "proxy-groups/reorder")
proxy_groups_request (group_refs id) = some (get, codes "proxy-groups/" ++ id ++ codes "/refs")

-- The requests of `publishApi`.
unfoldable pub publishing_request : PublishApi → Option (Method × Text)
publishing_request discard = some (post, codes "publish/discard")
publishing_request preview = some (get, codes "publish/preview")
publishing_request validate = some (post, codes "publish/validate")
publishing_request publish = some (post, codes "publish")
publishing_request rollback = some (post, codes "publish/rollback")
publishing_request publish_history = some (get, codes "publish/history")
publishing_request (history_detail id) = some (get, codes "publish/history/" ++ id)
publishing_request publish_status = some (get, codes "publish/status")

-- The requests of `ruleProvidersApi`.
unfoldable pub rule_providers_request : RuleProvidersApi → Option (Method × Text)
rule_providers_request list_rule_providers = some (get, codes "rule-providers")
rule_providers_request create_rule_provider = some (post, codes "rule-providers")
rule_providers_request (update_rule_provider id) = some (put, codes "rule-providers/" ++ id)
rule_providers_request (delete_rule_provider id) = some (delete, codes "rule-providers/" ++ id)
rule_providers_request (refresh_rule_provider id) =
    some (post, codes "rule-providers/" ++ id ++ codes "/refresh")
rule_providers_request (get_content id) =
    some (get, codes "rule-providers/" ++ id ++ codes "/content")
rule_providers_request (update_content id) =
    some (put, codes "rule-providers/" ++ id ++ codes "/content")

-- The requests of `rulesApi`.
unfoldable pub rules_request : RulesApi → Option (Method × Text)
rules_request list_rules = some (get, codes "rules")
rules_request create_rule = some (post, codes "rules")
rules_request (update_rule id) = some (put, codes "rules/" ++ id)
rules_request (delete_rule id) = some (delete, codes "rules/" ++ id)
rules_request reorder_rules = some (post, codes "rules/reorder")

-- The requests of `settingsApi`.
unfoldable pub settings_request : SettingsApi → Option (Method × Text)
settings_request get_settings = some (get, codes "settings")
settings_request update_settings = some (put, codes "settings")
settings_request list_users = some (get, codes "settings/users")
settings_request create_user = some (post, codes "settings/users")
settings_request (update_user id) = some (put, codes "settings/users/" ++ id)
settings_request (delete_user id) = some (delete, codes "settings/users/" ++ id)
settings_request get_config_yaml = some (get, codes "settings/config-yaml")
settings_request update_config_yaml = some (put, codes "settings/config-yaml")
settings_request delete_config_yaml = some (delete, codes "settings/config-yaml")

-- The requests of `systemConfigApi`.
unfoldable pub system_config_request : SystemConfigApi → Option (Method × Text)
system_config_request get_system_config = some (get, codes "system-config")
system_config_request update_system_config = some (put, codes "system-config")

-- The requests of `nodeScoresApi`.
unfoldable pub node_scores_request : (Text → Option Text) → NodeScoresApi → Option (Method × Text)
node_scores_request encode list_scores = some (get, codes "node-scores")
node_scores_request encode (get_score id) =
    encode id >>= (λ (x : Text). some (get, codes "node-scores/" ++ x))
node_scores_request encode (refresh_score id) =
    encode id >>= (λ (x : Text). some (post, codes "node-scores/" ++ x ++ codes "/refresh"))
node_scores_request encode refresh_scores = some (post, codes "node-scores/refresh")

-- The requests of `runtimeApi`.
unfoldable pub runtime_request : (Text → Option Text) → RuntimeApi → Option (Method × Text)
runtime_request encode connections = some (get, codes "runtime/connections")
runtime_request encode (close_connection id) = some (delete, codes "runtime/connections/" ++ id)
runtime_request encode runtime_proxies = some (get, codes "runtime/proxies")
runtime_request encode (proxy_delay id) =
    encode id >>= (λ (x : Text). some (get, codes "runtime/proxies/" ++ x ++ codes "/delay"))
runtime_request encode (provider_node_healthcheck provider node) =
    encode provider >>= (λ (p : Text). encode node >>= (λ (n : Text).
      some (
        get,
        codes "runtime/proxy-providers/" ++ (p ++ (codes "/" ++ (n ++ codes "/healthcheck"))),
      )))
runtime_request encode (switch_proxy id) =
    encode id >>= (λ (x : Text). some (put, codes "runtime/proxies/" ++ x ++ codes "/selected"))
runtime_request encode runtime_rules = some (get, codes "runtime/rules")
runtime_request encode runtime_providers = some (get, codes "runtime/providers")
runtime_request encode proxy_providers = some (get, codes "runtime/proxy-providers")
runtime_request encode (refresh_provider id) =
    encode id >>= (λ (x : Text). some (put, codes "runtime/providers/rules/" ++ x))
runtime_request encode version = some (get, codes "runtime/version")

-- The requests of `subscriptionsApi`.
unfoldable pub subscriptions_request : SubscriptionsApi → Option (Method × Text)
subscriptions_request list_subscriptions = some (get, codes "subscriptions")
subscriptions_request (get_subscription id) = some (get, codes "subscriptions/" ++ id)
subscriptions_request discover_providers = some (get, codes "subscriptions/providers")
subscriptions_request create_subscription = some (post, codes "subscriptions")
subscriptions_request (update_subscription id) = some (put, codes "subscriptions/" ++ id)
subscriptions_request (remove_subscription id) = some (delete, codes "subscriptions/" ++ id)
subscriptions_request (refresh_subscription id) =
    some (post, codes "subscriptions/" ++ id ++ codes "/refresh")

-- The requests of `trafficApi`.
unfoldable pub traffic_request : TrafficApi → Option (Method × Text)
traffic_request traffic_summary = some (get, codes "traffic/summary")
traffic_request traffic_history = some (get, codes "traffic/history")
traffic_request traffic_providers = some (get, codes "traffic/providers")
traffic_request create_traffic_provider = some (post, codes "traffic/providers")
traffic_request (update_traffic_provider id) = some (put, codes "traffic/providers/" ++ id)
traffic_request (delete_traffic_provider id) = some (delete, codes "traffic/providers/" ++ id)
traffic_request traffic_alerts = some (get, codes "traffic/alerts")
traffic_request traffic_settings = some (get, codes "traffic/settings")
traffic_request update_traffic_settings = some (put, codes "traffic/settings")
traffic_request test_notify = some (post, codes "traffic/test-notify")

-- The request of an endpoint.
unfoldable pub request : (Text → Option Text) → Endpoint → Option (Method × Text)
unfolding auth_request proxies_request proxy_groups_request publishing_request
    rule_providers_request rules_request settings_request system_config_request node_scores_request
    runtime_request subscriptions_request traffic_request
request encode (auth e) = auth_request e
request encode (proxies e) = proxies_request e
request encode (proxy_groups e) = proxy_groups_request e
request encode (publishing e) = publishing_request e
request encode (rule_providers e) = rule_providers_request e
request encode (rules e) = rules_request e
request encode (settings e) = settings_request e
request encode (system_config e) = system_config_request e
request encode (node_scores e) = node_scores_request encode e
request encode (runtime e) = runtime_request encode e
request encode (subscriptions e) = subscriptions_request e
request encode (traffic e) = traffic_request e
