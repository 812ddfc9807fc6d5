-- ===== src/I18n/En/Runtime.antt =====
-- web/src/i18n/en.ts, from `runtime.title` to `runtime.noLogs`.
use Prim.Native.String.{String}
use mihomo_cp.Prelude.{List, [], ◌∷◌}

abbrev pub en_runtime : List (String × String)
en_runtime =
    ("runtime.title", "Runtime")
    ∷ ("runtime.connections", "Connections")
    ∷ ("runtime.proxies", "Proxies")
    ∷ ("runtime.rules", "Rules")
    ∷ ("runtime.providers", "Providers")
    ∷ ("runtime.logs", "Logs")
    ∷ ("runtime.loadingProxies", "Loading proxies...")
    ∷ ("runtime.loadingRules", "Loading rules...")
    ∷ ("runtime.loadingProviders", "Loading providers...")
    ∷ ("runtime.noProxyGroups", "No proxy groups found. Mihomo may not be running.")
    ∷ ("runtime.noRules", "No rules found. Mihomo may not be running.")
    ∷ ("runtime.noProviders", "No providers found. Mihomo may not be running.")
    ∷ ("runtime.selected", "Selected")
    ∷ ("runtime.testDelay", "Test delay")
    ∷ ("runtime.switchProxy", "Switch to this proxy")
    ∷ ("runtime.switchedTo", "Switched to {name}")
    ∷ ("runtime.switchFailed", "Failed to switch proxy")
    ∷ ("runtime.providerRefreshed", "Provider \"{name}\" refreshed")
    ∷ ("runtime.providerRefreshFailed", "Failed to refresh \"{name}\"")
    ∷ ("runtime.timeout", "Timeout")
    ∷ ("runtime.payload", "Payload")
    ∷ ("runtime.proxy", "Proxy")
    ∷ ("runtime.rules_count", "{count} rules")
    ∷ ("runtime.updated", "Updated")
    ∷ ("runtime.searchPlaceholder", "Search by host, rule, chain...")
    ∷ ("runtime.connectionCount", "{count} connections")
    ∷ ("runtime.loadingConnections", "Loading connections...")
    ∷ ("runtime.noConnections", "No active connections")
    ∷ ("runtime.host", "Host")
    ∷ ("runtime.network", "Network")
    ∷ ("runtime.chains", "Chains")
    ∷ ("runtime.rule", "Rule")
    ∷ ("runtime.download", "Download")
    ∷ ("runtime.upload", "Upload")
    ∷ ("runtime.closeConnection", "Close connection")
    ∷ ("runtime.addRule", "Add rule for this host")
    ∷ (
      "runtime.noLogs",
      "No log entries available. Real-time log streaming requires WebSocket (deferred for MVP).",
    )
    ∷ []
