-- ===== src/I18n/Zh.antt =====
-- The dictionary `zh` of web/src/i18n/zh.ts, in the order of the source: the children hold its entries.
pub mod AppNav
pub mod ProxiesProxy
pub mod ProxyGroupsRules
pub mod SystemConfigPublish
pub mod Runtime
pub mod Settings
pub mod Subscriptions
pub mod Subscriptions2
pub mod NodeScores
pub mod Traffic
use Prim.Native.String.{String}
use mihomo_cp.Prelude.{List, [], ◌∷◌, ◌++◌}
use mihomo_cp.I18n.Zh.AppNav.{zh_app_nav}
use mihomo_cp.I18n.Zh.ProxiesProxy.{zh_proxies_proxy}
use mihomo_cp.I18n.Zh.ProxyGroupsRules.{zh_proxy_groups_rules}
use mihomo_cp.I18n.Zh.SystemConfigPublish.{zh_system_config_publish}
use mihomo_cp.I18n.Zh.Runtime.{zh_runtime}
use mihomo_cp.I18n.Zh.Settings.{zh_settings}
use mihomo_cp.I18n.Zh.Subscriptions.{zh_subscriptions}
use mihomo_cp.I18n.Zh.Subscriptions2.{zh_subscriptions_2}
use mihomo_cp.I18n.Zh.NodeScores.{zh_node_scores}
use mihomo_cp.I18n.Zh.Traffic.{zh_traffic}

-- The sections of the dictionary.
abbrev pub zh_sections : List (List (String × String))
zh_sections =
    zh_app_nav ∷ zh_proxies_proxy ∷ zh_proxy_groups_rules ∷ zh_system_config_publish ∷ zh_runtime
    ∷ zh_settings ∷ zh_subscriptions ∷ zh_subscriptions_2 ∷ zh_node_scores ∷ zh_traffic ∷ []
