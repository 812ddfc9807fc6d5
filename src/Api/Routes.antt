-- ===== src/Api/Routes.antt =====
-- The routes that internal/server/server.go registers below `/api/`, and the choice among them:
-- `http.ServeMux` of Go takes the most specific pattern that matches the method and the path, and hands
-- the handler the decoded segments at the wildcards. A path that no pattern matches goes to the
-- pattern `/`, which serves the embedded front end without a guard. The
-- paths are clean ones: `ServeMux` answers a path with an empty segment, `.` or `..` by a redirect.
use mihomo_cp.Prelude.{
  Bool, true, false, not, ◌&&◌, List, [], ◌∷◌, keep, length, Option, none, some, ◌==◌,
  if◌then◌else◌, ◌>>=◌,
}
use mihomo_cp.Js.Text.{Text, codes, text_eq, is_empty}
use mihomo_cp.Js.Text.Split.{split}
use mihomo_cp.Api.{Method, get, post, put, delete}

pub data Segment : Type 0 where
  lit : Text → Segment
  wild : Segment

-- Registered as it is, or behind `protected` or `adminOnly`.
pub data Guard : Type 0 where
  anyone protected admin_only : Guard

pub record Route : Type 0 where
  pub method : Method
  pub pattern : List Segment
  pub guard : Guard
  pub handler : Text

abbrev route : Method → List Segment → Guard → Text → Route
route m p g h = record { method = m; pattern = p; guard = g; handler = h }

abbrev pub routes : List Route
routes =
    route get (lit (codes "health") ∷ []) anyone (codes "health")
    ∷ route post (lit (codes "auth") ∷ lit (codes "login") ∷ []) anyone (codes "authHandler.Login")
    ∷ route post (lit (codes "auth") ∷ lit (codes "refresh") ∷ []) anyone
        (codes "authHandler.Refresh")
    ∷ route get (lit (codes "auth") ∷ lit (codes "me") ∷ []) protected (codes "authHandler.Me")
    ∷ route put (lit (codes "auth") ∷ lit (codes "change-password") ∷ []) protected
        (codes "authHandler.ChangePassword")
    ∷ route get (lit (codes "proxies") ∷ []) protected (codes "proxyHandler.List")
    ∷ route post (lit (codes "proxies") ∷ []) admin_only (codes "proxyHandler.Create")
    ∷ route post (lit (codes "proxies") ∷ lit (codes "reorder") ∷ []) admin_only
        (codes "proxyHandler.Reorder")
    ∷ route get (lit (codes "proxies") ∷ wild ∷ []) protected (codes "proxyHandler.Get")
    ∷ route put (lit (codes "proxies") ∷ wild ∷ []) admin_only (codes "proxyHandler.Update")
    ∷ route delete (lit (codes "proxies") ∷ wild ∷ []) admin_only (codes "proxyHandler.Delete")
    ∷ route post (lit (codes "proxies") ∷ wild ∷ lit (codes "copy") ∷ []) admin_only
        (codes "proxyHandler.Copy")
    ∷ route get (lit (codes "proxies") ∷ wild ∷ lit (codes "refs") ∷ []) protected
        (codes "proxyHandler.Refs")
    ∷ route get (lit (codes "proxy-groups") ∷ []) protected (codes "proxyGroupHandler.List")
    ∷ route post (lit (codes "proxy-groups") ∷ []) admin_only (codes "proxyGroupHandler.Create")
    ∷ route post (lit (codes "proxy-groups") ∷ lit (codes "reorder") ∷ []) admin_only
        (codes "proxyGroupHandler.Reorder")
    ∷ route get (lit (codes "proxy-groups") ∷ wild ∷ []) protected (codes "proxyGroupHandler.Get")
    ∷ route put (lit (codes "proxy-groups") ∷ wild ∷ []) admin_only
        (codes "proxyGroupHandler.Update")
    ∷ route delete (lit (codes "proxy-groups") ∷ wild ∷ []) admin_only
        (codes "proxyGroupHandler.Delete")
    ∷ route post (lit (codes "proxy-groups") ∷ wild ∷ lit (codes "copy") ∷ []) admin_only
        (codes "proxyGroupHandler.Copy")
    ∷ route get (lit (codes "proxy-groups") ∷ wild ∷ lit (codes "refs") ∷ []) protected
        (codes "proxyGroupHandler.Refs")
    ∷ route get (lit (codes "rules") ∷ []) protected (codes "ruleHandler.List")
    ∷ route post (lit (codes "rules") ∷ []) admin_only (codes "ruleHandler.Create")
    ∷ route post (lit (codes "rules") ∷ lit (codes "reorder") ∷ []) admin_only
        (codes "ruleHandler.Reorder")
    ∷ route get (lit (codes "rules") ∷ wild ∷ []) protected (codes "ruleHandler.Get")
    ∷ route put (lit (codes "rules") ∷ wild ∷ []) admin_only (codes "ruleHandler.Update")
    ∷ route delete (lit (codes "rules") ∷ wild ∷ []) admin_only (codes "ruleHandler.Delete")
    ∷ route get (lit (codes "rule-providers") ∷ []) protected (codes "ruleProviderHandler.List")
    ∷ route post (lit (codes "rule-providers") ∷ []) admin_only (codes "ruleProviderHandler.Create")
    ∷ route get (lit (codes "rule-providers") ∷ wild ∷ []) protected
        (codes "ruleProviderHandler.Get")
    ∷ route put (lit (codes "rule-providers") ∷ wild ∷ []) admin_only
        (codes "ruleProviderHandler.Update")
    ∷ route delete (lit (codes "rule-providers") ∷ wild ∷ []) admin_only
        (codes "ruleProviderHandler.Delete")
    ∷ route post (lit (codes "rule-providers") ∷ wild ∷ lit (codes "refresh") ∷ []) admin_only
        (codes "ruleProviderHandler.Refresh")
    ∷ route get (lit (codes "rule-providers") ∷ wild ∷ lit (codes "content") ∷ []) protected
        (codes "ruleProviderHandler.GetContent")
    ∷ route put (lit (codes "rule-providers") ∷ wild ∷ lit (codes "content") ∷ []) admin_only
        (codes "ruleProviderHandler.UpdateContent")
    ∷ route get (lit (codes "system-config") ∷ []) admin_only (codes "systemConfigHandler.Get")
    ∷ route put (lit (codes "system-config") ∷ []) admin_only (codes "systemConfigHandler.Update")
    ∷ route get (lit (codes "publish") ∷ lit (codes "preview") ∷ []) admin_only
        (codes "publishHandler.Preview")
    ∷ route post (lit (codes "publish") ∷ lit (codes "validate") ∷ []) admin_only
        (codes "publishHandler.Validate")
    ∷ route post (lit (codes "publish") ∷ []) admin_only (codes "publishHandler.Publish")
    ∷ route post (lit (codes "publish") ∷ lit (codes "discard") ∷ []) admin_only
        (codes "publishHandler.Discard")
    ∷ route post (lit (codes "publish") ∷ lit (codes "rollback") ∷ []) admin_only
        (codes "publishHandler.Rollback")
    ∷ route get (lit (codes "publish") ∷ lit (codes "history") ∷ []) admin_only
        (codes "publishHandler.History")
    ∷ route get (lit (codes "publish") ∷ lit (codes "history") ∷ wild ∷ []) admin_only
        (codes "publishHandler.HistoryDetail")
    ∷ route get (lit (codes "publish") ∷ lit (codes "status") ∷ []) protected
        (codes "publishHandler.Status")
    ∷ route post (lit (codes "runtime") ∷ lit (codes "native-precheck") ∷ []) protected
        (codes "precheckHandler.Check")
    ∷ route get (lit (codes "runtime") ∷ lit (codes "connections") ∷ []) protected
        (codes "runtimeHandler.Connections")
    ∷ route delete (lit (codes "runtime") ∷ lit (codes "connections") ∷ wild ∷ []) admin_only
        (codes "runtimeHandler.CloseConnection")
    ∷ route get (lit (codes "runtime") ∷ lit (codes "proxies") ∷ []) protected
        (codes "runtimeHandler.Proxies")
    ∷ route get (lit (codes "runtime") ∷ lit (codes "proxies") ∷ wild ∷ lit (codes "delay") ∷ [])
        protected (codes "runtimeHandler.ProxyDelay")
    ∷ route put (lit (codes "runtime") ∷ lit (codes "proxies") ∷ wild ∷ lit (codes "selected") ∷ [])
        admin_only (codes "runtimeHandler.SwitchProxy")
    ∷ route get (lit (codes "runtime") ∷ lit (codes "rules") ∷ []) protected
        (codes "runtimeHandler.Rules")
    ∷ route get (lit (codes "runtime") ∷ lit (codes "providers") ∷ []) protected
        (codes "runtimeHandler.Providers")
    ∷ route get (lit (codes "runtime") ∷ lit (codes "proxy-providers") ∷ []) protected
        (codes "runtimeHandler.ProxyProviders")
    ∷ route get
        (lit (codes "runtime")
          ∷ lit (codes "proxy-providers")
          ∷ wild
          ∷ wild
          ∷ lit (codes "healthcheck")
          ∷ [])
        protected (codes "runtimeHandler.ProxyProviderNodeDelay")
    ∷ route put (lit (codes "runtime") ∷ lit (codes "providers") ∷ lit (codes "rules") ∷ wild ∷ [])
        admin_only (codes "runtimeHandler.RefreshProvider")
    ∷ route get (lit (codes "runtime") ∷ lit (codes "version") ∷ []) protected
        (codes "runtimeHandler.Version")
    ∷ route get (lit (codes "traffic") ∷ lit (codes "summary") ∷ []) protected
        (codes "trafficHandler.Summary")
    ∷ route get (lit (codes "traffic") ∷ lit (codes "history") ∷ []) protected
        (codes "trafficHandler.History")
    ∷ route get (lit (codes "traffic") ∷ lit (codes "providers") ∷ []) protected
        (codes "trafficHandler.ListProviders")
    ∷ route post (lit (codes "traffic") ∷ lit (codes "providers") ∷ []) admin_only
        (codes "trafficHandler.CreateProvider")
    ∷ route put (lit (codes "traffic") ∷ lit (codes "providers") ∷ wild ∷ []) admin_only
        (codes "trafficHandler.UpdateProvider")
    ∷ route delete (lit (codes "traffic") ∷ lit (codes "providers") ∷ wild ∷ []) admin_only
        (codes "trafficHandler.DeleteProvider")
    ∷ route get (lit (codes "traffic") ∷ lit (codes "alerts") ∷ []) protected
        (codes "trafficHandler.Alerts")
    ∷ route get (lit (codes "traffic") ∷ lit (codes "settings") ∷ []) admin_only
        (codes "trafficHandler.GetSettings")
    ∷ route put (lit (codes "traffic") ∷ lit (codes "settings") ∷ []) admin_only
        (codes "trafficHandler.UpdateSettings")
    ∷ route post (lit (codes "traffic") ∷ lit (codes "test-notify") ∷ []) admin_only
        (codes "trafficHandler.TestNotify")
    ∷ route get (lit (codes "subscriptions") ∷ []) protected (codes "subscriptionHandler.List")
    ∷ route post (lit (codes "subscriptions") ∷ []) admin_only (codes "subscriptionHandler.Create")
    ∷ route get (lit (codes "subscriptions") ∷ lit (codes "providers") ∷ []) protected
        (codes "subscriptionHandler.Discover")
    ∷ route get (lit (codes "subscriptions") ∷ wild ∷ []) protected
        (codes "subscriptionHandler.Get")
    ∷ route put (lit (codes "subscriptions") ∷ wild ∷ []) admin_only
        (codes "subscriptionHandler.Update")
    ∷ route delete (lit (codes "subscriptions") ∷ wild ∷ []) admin_only
        (codes "subscriptionHandler.Delete")
    ∷ route post (lit (codes "subscriptions") ∷ wild ∷ lit (codes "refresh") ∷ []) admin_only
        (codes "subscriptionHandler.Refresh")
    ∷ route get (lit (codes "node-scores") ∷ []) protected (codes "scoresHandler.List")
    ∷ route post (lit (codes "node-scores") ∷ lit (codes "refresh") ∷ []) admin_only
        (codes "scoresHandler.RefreshBatch")
    ∷ route get (lit (codes "node-scores") ∷ wild ∷ []) protected (codes "scoresHandler.Get")
    ∷ route post (lit (codes "node-scores") ∷ wild ∷ lit (codes "refresh") ∷ []) admin_only
        (codes "scoresHandler.RefreshOne")
    ∷ route post (lit (codes "import") ∷ lit (codes "config") ∷ []) admin_only
        (codes "importHandler.Import")
    ∷ route get (lit (codes "settings") ∷ []) admin_only (codes "settingsHandler.GetSettings")
    ∷ route put (lit (codes "settings") ∷ []) admin_only (codes "settingsHandler.UpdateSettings")
    ∷ route get (lit (codes "settings") ∷ lit (codes "config-yaml") ∷ []) admin_only
        (codes "settingsHandler.GetConfigYAML")
    ∷ route put (lit (codes "settings") ∷ lit (codes "config-yaml") ∷ []) admin_only
        (codes "settingsHandler.UpdateConfigYAML")
    ∷ route delete (lit (codes "settings") ∷ lit (codes "config-yaml") ∷ []) admin_only
        (codes "settingsHandler.DeleteConfigYAML")
    ∷ route get (lit (codes "settings") ∷ lit (codes "users") ∷ []) admin_only
        (codes "settingsHandler.ListUsers")
    ∷ route post (lit (codes "settings") ∷ lit (codes "users") ∷ []) admin_only
        (codes "settingsHandler.CreateUser")
    ∷ route put (lit (codes "settings") ∷ lit (codes "users") ∷ wild ∷ []) admin_only
        (codes "settingsHandler.UpdateUser")
    ∷ route delete (lit (codes "settings") ∷ lit (codes "users") ∷ wild ∷ []) admin_only
        (codes "settingsHandler.DeleteUser")
    ∷ []

abbrev pub same_method : Method → Method → Bool
same_method get get = true
same_method post post = true
same_method put put = true
same_method delete delete = true
same_method _ _ = false

-- A wildcard stands for one segment that is not empty.
unfoldable pub fits : List Segment → List Text → Bool
unfolding text_eq
fits [] [] = true
fits (lit a ∷ ps) (s ∷ ss) = text_eq a s && fits ps ss
fits (wild ∷ ps) (s ∷ ss) = not (is_empty s) && fits ps ss
fits _ _ = false

unfoldable pub matches : Method → List Text → Route → Bool
unfolding fits
matches m path r =
    same_method m r.method && (length r.pattern == length path) && fits r.pattern path

-- Each path that the first pattern matches is one that the second matches.
unfoldable pub more_specific : List Segment → List Segment → Bool
more_specific (lit a ∷ ps) (_ ∷ qs) = more_specific ps qs
more_specific (wild ∷ ps) (wild ∷ qs) = more_specific ps qs
more_specific (wild ∷ ps) (lit b ∷ qs) = false
more_specific _ _ = true

unfoldable pub most_specific : List Route → Option Route
unfolding more_specific
most_specific [] = none
most_specific (r ∷ rs) = elim (most_specific rs) [
  | none ↦ some r
  | some q ↦ if more_specific q.pattern r.pattern then some q else some r
]

unfoldable pub captured : List Segment → List Text → List Text
captured (lit _ ∷ ps) (s ∷ ss) = captured ps ss
captured (wild ∷ ps) (s ∷ ss) = s ∷ captured ps ss
captured _ _ = []

unfoldable pub decoded : (Text → Option Text) → List Text → Option (List Text)
decoded decode [] = some []
decoded decode (s ∷ ss) =
    let rest = decoded decode ss in
    decode s >>= (λ (v : Text). rest >>= (λ (vs : List Text). some (v ∷ vs)))

-- What serves a request: the guard, the handler, and the values of the wildcards.
pub record Call : Type 0 where
  pub guard : Guard
  pub handler : Text
  pub values : List Text

abbrev pub call : Guard → Text → List Text → Call
call g h vs = record { guard = g; handler = h; values = vs }

-- What `s.mux.Handle("/", ...)` registers: the pages of the front end, for any method and for any
-- path that no other pattern matches.
abbrev pub front_end : Call
front_end = call anyone (codes "frontend") []

-- The call of a route that was chosen, with the values of its wildcards.
unfoldable pub taken : (Text → Option Text) → List Text → Route → Option Call
unfolding captured decoded
taken decode path r =
    decoded decode (captured r.pattern path)
    >>= (λ (values : List Text). some (call r.guard r.handler values))

unfoldable pub dispatch : (Text → Option Text) → Method → List Text → Option Call
unfolding matches most_specific taken
dispatch decode m path = elim (most_specific (keep (matches m path) routes)) [
  | none ↦ some front_end
  | some r ↦ taken decode path r
]

unfoldable pub serve : (Text → Option Text) → Method → Text → Option Call
unfolding dispatch split
serve decode m path = dispatch decode m (split b'/' path)
