-- ===== src/Api.antt =====
-- The functions of the API objects, web/src/api/, with the arguments that their paths have.
pub mod Requests
pub mod Routes
pub mod Segments
pub mod Meant
pub mod Served
pub mod Guards
use mihomo_cp.Js.Text.{Text}

pub data Method : Type 0 where
  get post put delete : Method

-- `authApi`.
pub data AuthApi : Type 0 where
  login : AuthApi
  refresh_token : AuthApi
  me : AuthApi
  change_password : AuthApi

-- `proxiesApi`.
pub data ProxiesApi : Type 0 where
  list_proxies : ProxiesApi
  get_proxy : Text → ProxiesApi
  create_proxy : ProxiesApi
  update_proxy : Text → ProxiesApi
  delete_proxy : Text → ProxiesApi
  copy_proxy : Text → ProxiesApi
  reorder_proxies : ProxiesApi
  proxy_refs : Text → ProxiesApi
  detect_countries : ProxiesApi

-- `proxyGroupsApi`.
pub data ProxyGroupsApi : Type 0 where
  list_groups : ProxyGroupsApi
  get_group : Text → ProxyGroupsApi
  create_group : ProxyGroupsApi
  update_group : Text → ProxyGroupsApi
  delete_group : Text → ProxyGroupsApi
  reorder_groups : ProxyGroupsApi
  group_refs : Text → ProxyGroupsApi

-- `publishApi`.
pub data PublishApi : Type 0 where
  discard : PublishApi
  preview : PublishApi
  validate : PublishApi
  publish : PublishApi
  rollback : PublishApi
  publish_history : PublishApi
  history_detail : Text → PublishApi
  publish_status : PublishApi

-- `ruleProvidersApi`.
pub data RuleProvidersApi : Type 0 where
  list_rule_providers : RuleProvidersApi
  create_rule_provider : RuleProvidersApi
  update_rule_provider : Text → RuleProvidersApi
  delete_rule_provider : Text → RuleProvidersApi
  refresh_rule_provider : Text → RuleProvidersApi
  get_content : Text → RuleProvidersApi
  update_content : Text → RuleProvidersApi

-- `rulesApi`.
pub data RulesApi : Type 0 where
  list_rules : RulesApi
  create_rule : RulesApi
  update_rule : Text → RulesApi
  delete_rule : Text → RulesApi
  reorder_rules : RulesApi

-- `settingsApi`.
pub data SettingsApi : Type 0 where
  get_settings : SettingsApi
  update_settings : SettingsApi
  list_users : SettingsApi
  create_user : SettingsApi
  update_user : Text → SettingsApi
  delete_user : Text → SettingsApi
  get_config_yaml : SettingsApi
  update_config_yaml : SettingsApi
  delete_config_yaml : SettingsApi

-- `systemConfigApi`.
pub data SystemConfigApi : Type 0 where
  get_system_config : SystemConfigApi
  update_system_config : SystemConfigApi

-- `nodeScoresApi`.
pub data NodeScoresApi : Type 0 where
  list_scores : NodeScoresApi
  get_score : Text → NodeScoresApi
  refresh_score : Text → NodeScoresApi
  refresh_scores : NodeScoresApi

-- `runtimeApi`.
pub data RuntimeApi : Type 0 where
  connections : RuntimeApi
  close_connection : Text → RuntimeApi
  runtime_proxies : RuntimeApi
  proxy_delay : Text → RuntimeApi
  provider_node_healthcheck : Text → Text → RuntimeApi
  switch_proxy : Text → RuntimeApi
  runtime_rules : RuntimeApi
  runtime_providers : RuntimeApi
  proxy_providers : RuntimeApi
  refresh_provider : Text → RuntimeApi
  version : RuntimeApi

-- `subscriptionsApi`.
pub data SubscriptionsApi : Type 0 where
  list_subscriptions : SubscriptionsApi
  get_subscription : Text → SubscriptionsApi
  discover_providers : SubscriptionsApi
  create_subscription : SubscriptionsApi
  update_subscription : Text → SubscriptionsApi
  remove_subscription : Text → SubscriptionsApi
  refresh_subscription : Text → SubscriptionsApi

-- `trafficApi`.
pub data TrafficApi : Type 0 where
  traffic_summary : TrafficApi
  traffic_history : TrafficApi
  traffic_providers : TrafficApi
  create_traffic_provider : TrafficApi
  update_traffic_provider : Text → TrafficApi
  delete_traffic_provider : Text → TrafficApi
  traffic_alerts : TrafficApi
  traffic_settings : TrafficApi
  update_traffic_settings : TrafficApi
  test_notify : TrafficApi

pub data Endpoint : Type 0 where
  auth : AuthApi → Endpoint
  proxies : ProxiesApi → Endpoint
  proxy_groups : ProxyGroupsApi → Endpoint
  publishing : PublishApi → Endpoint
  rule_providers : RuleProvidersApi → Endpoint
  rules : RulesApi → Endpoint
  settings : SettingsApi → Endpoint
  system_config : SystemConfigApi → Endpoint
  node_scores : NodeScoresApi → Endpoint
  runtime : RuntimeApi → Endpoint
  subscriptions : SubscriptionsApi → Endpoint
  traffic : TrafficApi → Endpoint
