-- ===== src/Api/Served.antt =====
-- Every request of the front end is served by the handler it is meant for.
use mihomo_cp.Prelude.{◌≡◌, refl, ◌∙◌, ap, subst, false, List, [], ◌∷◌, ◌++◌, Option, some, ◌>>=◌}
use mihomo_cp.Js.Text.{Text, codes, text_eq, is_empty}
use mihomo_cp.Js.Text.Split.{split, split-append, split-between}
use mihomo_cp.Runtime.{UriComponent}
use mihomo_cp.Api
use mihomo_cp.Api.{Method, Endpoint, get, post, put, delete}
use mihomo_cp.Api.Requests.{request}
use mihomo_cp.Api.Segments.{at_end, inside, dispatch-subscription}
use mihomo_cp.Api.Meant.{meant, served, Sendable, Encoded}
use mihomo_cp.Api.Routes.{call, protected, admin_only, decoded, dispatch, serve}

dispatch_two :
    (decode : Text → Option Text) (p q : Text) {provider node : Text}
    → is_empty p ≡ false
    → is_empty q ≡ false
    → decode p ≡ some provider
    → decode q ≡ some node
    → dispatch decode get
        (split 47 (codes "runtime/proxy-providers") ++ p ∷ q ∷ codes "healthcheck" ∷ [])
      ≡ some (call protected (codes "runtimeHandler.ProxyProviderNodeDelay") (provider ∷ node ∷ []))
unfolding dispatch decoded split
dispatch_two decode [] q fp fq dp dq = cc
dispatch_two decode (c ∷ s) [] fp fq dp dq = cc
dispatch_two decode (c ∷ s) (d ∷ t) fp fq dp dq =
    let e : dispatch decode get (
          split 47 (codes "runtime/proxy-providers")
          ++ (c ∷ s) ∷ (d ∷ t) ∷ codes "healthcheck" ∷ [])
        ≡ (decoded decode ((c ∷ s) ∷ (d ∷ t) ∷ []) >>= (λ (vs : List Text).
            some (call protected (codes "runtimeHandler.ProxyProviderNodeDelay") vs))) =
      refl in
    e ∙ rw (dp, dq) refl

-- The path with two arguments.
between_two :
    (uri : UriComponent) {provider node : Text} (p : Encoded uri provider) (q : Encoded uri node)
    → serve uri.decode get (
        codes "runtime/proxy-providers"
        ++ 47 ∷ (p.code ++ 47 ∷ (q.code ++ 47 ∷ codes "healthcheck")))
      ≡ some (call protected (codes "runtimeHandler.ProxyProviderNodeDelay") (provider ∷ node ∷ []))
unfolding serve
between_two uri {provider} {node} p q =
    ap (dispatch uri.decode get) (
      split-between 47 (codes "runtime/proxy-providers")
        (p.code ++ 47 ∷ (q.code ++ 47 ∷ codes "healthcheck")) refl
      ∙ ap (λ (ps : List Text). split 47 (codes "runtime/proxy-providers") ++ ps)
          (split-append 47 p.code (q.code ++ 47 ∷ codes "healthcheck") refl
              (uri.encode_segment provider p.code p.encoded)
            ∙ ap (λ (ps : List Text). p.code ∷ ps)
                (split-append 47 q.code (codes "healthcheck") refl
                  (uri.encode_segment node q.code q.encoded))))
    ∙ dispatch_two uri.decode p.code q.code p.full q.full
        (uri.encode_decode provider p.code p.encoded) (uri.encode_decode node q.code q.encoded)

module _ (uri : UriComponent) where
  -- A request whose arguments may stand in a path reaches the handler it is meant for, which receives the
  -- arguments as they were given, and the request for the detection of countries, which has
  -- no handler of its own, ends at the pages of the front end.
  pub served-meant : (e : Endpoint) → Sendable uri e → served uri e ≡ meant e
  unfolding served meant request dispatch serve split decoded
  served-meant (Api.proxies (Api.get_proxy id)) p =
      at_end uri.decode protected (codes "proxyHandler.Get") get (codes "proxies") id id p.segment
        p.full p.verbatim (λ c s _. refl)
  served-meant (Api.proxies (Api.update_proxy id)) p =
      at_end uri.decode admin_only (codes "proxyHandler.Update") put (codes "proxies") id id
        p.segment p.full p.verbatim (λ c s _. refl)
  served-meant (Api.proxies (Api.delete_proxy id)) p =
      at_end uri.decode admin_only (codes "proxyHandler.Delete") delete (codes "proxies") id id
        p.segment p.full p.verbatim (λ c s _. refl)
  served-meant (Api.proxies (Api.copy_proxy id)) p =
      inside uri.decode admin_only (codes "proxyHandler.Copy") post (codes "proxies") id id
        (codes "copy") p.segment p.full p.verbatim (λ c s _. refl)
  served-meant (Api.proxies (Api.proxy_refs id)) p =
      inside uri.decode protected (codes "proxyHandler.Refs") get (codes "proxies") id id
        (codes "refs") p.segment p.full p.verbatim (λ c s _. refl)
  served-meant (Api.proxy_groups (Api.get_group id)) p =
      at_end uri.decode protected (codes "proxyGroupHandler.Get") get (codes "proxy-groups") id id
        p.segment p.full p.verbatim (λ c s _. refl)
  served-meant (Api.proxy_groups (Api.update_group id)) p =
      at_end uri.decode admin_only (codes "proxyGroupHandler.Update") put (codes "proxy-groups") id
        id p.segment p.full p.verbatim (λ c s _. refl)
  served-meant (Api.proxy_groups (Api.delete_group id)) p =
      at_end uri.decode admin_only (codes "proxyGroupHandler.Delete") delete (codes "proxy-groups")
        id id p.segment p.full p.verbatim (λ c s _. refl)
  served-meant (Api.proxy_groups (Api.group_refs id)) p =
      inside uri.decode protected (codes "proxyGroupHandler.Refs") get (codes "proxy-groups") id id
        (codes "refs") p.segment p.full p.verbatim (λ c s _. refl)
  served-meant (Api.publishing (Api.history_detail id)) p =
      at_end uri.decode admin_only (codes "publishHandler.HistoryDetail") get
        (codes "publish/history") id id p.segment p.full p.verbatim (λ c s _. refl)
  served-meant (Api.rule_providers (Api.update_rule_provider id)) p =
      at_end uri.decode admin_only (codes "ruleProviderHandler.Update") put (codes "rule-providers")
        id id p.segment p.full p.verbatim (λ c s _. refl)
  served-meant (Api.rule_providers (Api.delete_rule_provider id)) p =
      at_end uri.decode admin_only (codes "ruleProviderHandler.Delete") delete
        (codes "rule-providers") id id p.segment p.full p.verbatim (λ c s _. refl)
  served-meant (Api.rule_providers (Api.refresh_rule_provider id)) p =
      inside uri.decode admin_only (codes "ruleProviderHandler.Refresh") post
        (codes "rule-providers") id id (codes "refresh") p.segment p.full p.verbatim (λ c s _. refl)
  served-meant (Api.rule_providers (Api.get_content id)) p =
      inside uri.decode protected (codes "ruleProviderHandler.GetContent") get
        (codes "rule-providers") id id (codes "content") p.segment p.full p.verbatim (λ c s _. refl)
  served-meant (Api.rule_providers (Api.update_content id)) p =
      inside uri.decode admin_only (codes "ruleProviderHandler.UpdateContent") put
        (codes "rule-providers") id id (codes "content") p.segment p.full p.verbatim (λ c s _. refl)
  served-meant (Api.rules (Api.update_rule id)) p =
      at_end uri.decode admin_only (codes "ruleHandler.Update") put (codes "rules") id id p.segment
        p.full p.verbatim (λ c s _. refl)
  served-meant (Api.rules (Api.delete_rule id)) p =
      at_end uri.decode admin_only (codes "ruleHandler.Delete") delete (codes "rules") id id
        p.segment p.full p.verbatim (λ c s _. refl)
  served-meant (Api.settings (Api.update_user id)) p =
      at_end uri.decode admin_only (codes "settingsHandler.UpdateUser") put (codes "settings/users")
        id id p.segment p.full p.verbatim (λ c s _. refl)
  served-meant (Api.settings (Api.delete_user id)) p =
      at_end uri.decode admin_only (codes "settingsHandler.DeleteUser") delete
        (codes "settings/users") id id p.segment p.full p.verbatim (λ c s _. refl)
  served-meant (Api.node_scores (Api.get_score id)) p = rw p.encoded (
      at_end uri.decode protected (codes "scoresHandler.Get") get (codes "node-scores") p.code id
        (uri.encode_segment id p.code p.encoded) p.full (uri.encode_decode id p.code p.encoded)
        (λ c s _. refl))
  served-meant (Api.node_scores (Api.refresh_score id)) p = rw p.encoded (
      inside uri.decode admin_only (codes "scoresHandler.RefreshOne") post (codes "node-scores")
        p.code id (codes "refresh") (uri.encode_segment id p.code p.encoded) p.full
        (uri.encode_decode id p.code p.encoded) (λ c s _. refl))
  served-meant (Api.runtime (Api.close_connection id)) p =
      at_end uri.decode admin_only (codes "runtimeHandler.CloseConnection") delete
        (codes "runtime/connections") id id p.segment p.full p.verbatim (λ c s _. refl)
  served-meant (Api.runtime (Api.proxy_delay id)) p = rw p.encoded (
      inside uri.decode protected (codes "runtimeHandler.ProxyDelay") get (codes "runtime/proxies")
        p.code id (codes "delay") (uri.encode_segment id p.code p.encoded) p.full
        (uri.encode_decode id p.code p.encoded) (λ c s _. refl))
  served-meant (Api.runtime (Api.provider_node_healthcheck provider node)) (p, q) =
      rw (p.encoded, q.encoded) (between_two uri p q)
  served-meant (Api.runtime (Api.switch_proxy id)) p = rw p.encoded (
      inside uri.decode admin_only (codes "runtimeHandler.SwitchProxy") put
        (codes "runtime/proxies") p.code id (codes "selected")
        (uri.encode_segment id p.code p.encoded) p.full (uri.encode_decode id p.code p.encoded)
        (λ c s _. refl))
  served-meant (Api.runtime (Api.refresh_provider id)) p = rw p.encoded (
      at_end uri.decode admin_only (codes "runtimeHandler.RefreshProvider") put
        (codes "runtime/providers/rules") p.code id (uri.encode_segment id p.code p.encoded) p.full
        (uri.encode_decode id p.code p.encoded) (λ c s _. refl))
  served-meant (Api.subscriptions (Api.get_subscription id)) (p, other) =
      at_end uri.decode protected (codes "subscriptionHandler.Get") get (codes "subscriptions") id
        id p.segment p.full p.verbatim
        (λ c s e.
          dispatch-subscription uri.decode c s
            (subst (λ (t : Text). text_eq (codes "providers") t ≡ false) e other))
  served-meant (Api.subscriptions (Api.update_subscription id)) p =
      at_end uri.decode admin_only (codes "subscriptionHandler.Update") put (codes "subscriptions")
        id id p.segment p.full p.verbatim (λ c s _. refl)
  served-meant (Api.subscriptions (Api.remove_subscription id)) p =
      at_end uri.decode admin_only (codes "subscriptionHandler.Delete") delete
        (codes "subscriptions") id id p.segment p.full p.verbatim (λ c s _. refl)
  served-meant (Api.subscriptions (Api.refresh_subscription id)) p =
      inside uri.decode admin_only (codes "subscriptionHandler.Refresh") post
        (codes "subscriptions") id id (codes "refresh") p.segment p.full p.verbatim (λ c s _. refl)
  served-meant (Api.traffic (Api.update_traffic_provider id)) p =
      at_end uri.decode admin_only (codes "trafficHandler.UpdateProvider") put
        (codes "traffic/providers") id id p.segment p.full p.verbatim (λ c s _. refl)
  served-meant (Api.traffic (Api.delete_traffic_provider id)) p =
      at_end uri.decode admin_only (codes "trafficHandler.DeleteProvider") delete
        (codes "traffic/providers") id id p.segment p.full p.verbatim (λ c s _. refl)
  served-meant (Api.auth Api.login) _ = refl
  served-meant (Api.auth Api.refresh_token) _ = refl
  served-meant (Api.auth Api.me) _ = refl
  served-meant (Api.auth Api.change_password) _ = refl
  served-meant (Api.proxies Api.list_proxies) _ = refl
  served-meant (Api.proxies Api.create_proxy) _ = refl
  served-meant (Api.proxies Api.reorder_proxies) _ = refl
  served-meant (Api.proxies Api.detect_countries) _ = refl
  served-meant (Api.proxy_groups Api.list_groups) _ = refl
  served-meant (Api.proxy_groups Api.create_group) _ = refl
  served-meant (Api.proxy_groups Api.reorder_groups) _ = refl
  served-meant (Api.publishing Api.discard) _ = refl
  served-meant (Api.publishing Api.preview) _ = refl
  served-meant (Api.publishing Api.validate) _ = refl
  served-meant (Api.publishing Api.publish) _ = refl
  served-meant (Api.publishing Api.rollback) _ = refl
  served-meant (Api.publishing Api.publish_history) _ = refl
  served-meant (Api.publishing Api.publish_status) _ = refl
  served-meant (Api.rule_providers Api.list_rule_providers) _ = refl
  served-meant (Api.rule_providers Api.create_rule_provider) _ = refl
  served-meant (Api.rules Api.list_rules) _ = refl
  served-meant (Api.rules Api.create_rule) _ = refl
  served-meant (Api.rules Api.reorder_rules) _ = refl
  served-meant (Api.settings Api.get_settings) _ = refl
  served-meant (Api.settings Api.update_settings) _ = refl
  served-meant (Api.settings Api.list_users) _ = refl
  served-meant (Api.settings Api.create_user) _ = refl
  served-meant (Api.settings Api.get_config_yaml) _ = refl
  served-meant (Api.settings Api.update_config_yaml) _ = refl
  served-meant (Api.settings Api.delete_config_yaml) _ = refl
  served-meant (Api.system_config Api.get_system_config) _ = refl
  served-meant (Api.system_config Api.update_system_config) _ = refl
  served-meant (Api.node_scores Api.list_scores) _ = refl
  served-meant (Api.node_scores Api.refresh_scores) _ = refl
  served-meant (Api.runtime Api.connections) _ = refl
  served-meant (Api.runtime Api.runtime_proxies) _ = refl
  served-meant (Api.runtime Api.runtime_rules) _ = refl
  served-meant (Api.runtime Api.runtime_providers) _ = refl
  served-meant (Api.runtime Api.proxy_providers) _ = refl
  served-meant (Api.runtime Api.version) _ = refl
  served-meant (Api.subscriptions Api.list_subscriptions) _ = refl
  served-meant (Api.subscriptions Api.discover_providers) _ = refl
  served-meant (Api.subscriptions Api.create_subscription) _ = refl
  served-meant (Api.traffic Api.traffic_summary) _ = refl
  served-meant (Api.traffic Api.traffic_history) _ = refl
  served-meant (Api.traffic Api.traffic_providers) _ = refl
  served-meant (Api.traffic Api.create_traffic_provider) _ = refl
  served-meant (Api.traffic Api.traffic_alerts) _ = refl
  served-meant (Api.traffic Api.traffic_settings) _ = refl
  served-meant (Api.traffic Api.update_traffic_settings) _ = refl
  served-meant (Api.traffic Api.test_notify) _ = refl
