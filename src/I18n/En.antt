-- ===== src/I18n/En.antt =====
-- The dictionary `en` of web/src/i18n/en.ts, in the order of the source: the children hold its entries.
pub mod AppNav
pub mod ProxiesProxy
pub mod ProxyGroupsRules
pub mod SystemConfigPublish
pub mod Runtime
pub mod Settings
pub mod Subscriptions
pub mod Subscriptions2
pub mod NodeScores
pub mod Traffic
use Prim.Native.String.{String}
use mihomo_cp.Prelude.{List, [], ◌∷◌, ◌++◌}
use mihomo_cp.I18n.En.AppNav.{en_app_nav}
use mihomo_cp.I18n.En.ProxiesProxy.{en_proxies_proxy}
use mihomo_cp.I18n.En.ProxyGroupsRules.{en_proxy_groups_rules}
use mihomo_cp.I18n.En.SystemConfigPublish.{en_system_config_publish}
use mihomo_cp.I18n.En.Runtime.{en_runtime}
use mihomo_cp.I18n.En.Settings.{en_settings}
use mihomo_cp.I18n.En.Subscriptions.{en_subscriptions}
use mihomo_cp.I18n.En.Subscriptions2.{en_subscriptions_2}
use mihomo_cp.I18n.En.NodeScores.{en_node_scores}
use mihomo_cp.I18n.En.Traffic.{en_traffic}

-- The sections of the dictionary.
abbrev pub en_sections : List (List (String × String))
en_sections =
    en_app_nav ∷ en_proxies_proxy ∷ en_proxy_groups_rules ∷ en_system_config_publish ∷ en_runtime
    ∷ en_settings ∷ en_subscriptions ∷ en_subscriptions_2 ∷ en_node_scores ∷ en_traffic ∷ []
