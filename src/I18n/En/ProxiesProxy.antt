-- ===== src/I18n/En/ProxiesProxy.antt =====
-- web/src/i18n/en.ts, from `proxies.title` to `proxy.none`.
use Prim.Native.String.{String}
use mihomo_cp.Prelude.{List, [], ◌∷◌}

abbrev pub en_proxies_proxy : List (String × String)
en_proxies_proxy =
    ("proxies.title", "Proxies")
    ∷ ("proxies.add", "Add Proxy")
    ∷ ("proxies.searchPlaceholder", "Search proxies...")
    ∷ ("proxies.loadFailed", "Failed to load proxies")
    ∷ ("proxies.updated", "Proxy updated")
    ∷ ("proxies.created", "Proxy created")
    ∷ ("proxies.updateFailed", "Failed to update proxy")
    ∷ ("proxies.createFailed", "Failed to create proxy")
    ∷ ("proxies.deleted", "Proxy deleted")
    ∷ ("proxies.deleteFailed", "Failed to delete proxy")
    ∷ ("proxies.copied", "Copied")
    ∷ ("proxies.copyFailed", "Failed to copy proxy")
    ∷ ("proxies.noProxies", "No proxies found. Click \"Add Proxy\" to create one.")
    ∷ ("proxies.deleteTitle", "Delete Proxy")
    ∷ (
      "proxies.deleteConfirm",
      "Are you sure you want to delete \"{name}\"? This action cannot be undone.",
    )
    ∷ (
      "proxies.deleteWithRefs",
      "This proxy is referenced by {count} group(s): {names}. Deleting it will remove it from those groups. Continue?",
    )
    ∷ ("proxies.server", "Server")
    ∷ ("proxies.addDialog", "Add Proxy")
    ∷ ("proxies.editDialog", "Edit Proxy")
    ∷ ("proxies.namePlaceholder", "Proxy name")
    ∷ ("proxies.serverPlaceholder", "hostname or IP")
    ∷ ("proxies.port", "Port")
    ∷ ("proxies.portPlaceholder", "1-65535")
    ∷ ("proxies.selectType", "Select type")
    ∷ ("proxies.country", "Country")
    ∷ ("proxies.selectCountry", "Select country")
    ∷ ("proxies.allCountries", "All countries")
    ∷ ("proxies.detectCountries", "Detect Countries")
    ∷ ("proxies.detectingCountries", "Detecting...")
    ∷ ("proxies.countriesDetected", "{count} proxies updated")
    ∷ ("proxies.countriesDetectFailed", "Failed to detect countries")
    ∷ ("proxies.noCountriesFound", "No country flags found in the pasted text")
    ∷ (
      "proxies.detectCountriesDesc",
      "Paste your Surge [Proxy] section below. Country flags (e.g. 🇺🇸🇯🇵🇭🇰) in proxy names will be matched to your mihomo proxies.",
    )
    ∷ (
      "proxies.detectCountriesPlaceholder",
      "🇺🇸 PS-SS-c21s1 = ss, server, port, ...\n🇯🇵 JP-01 = ss, server, port, ...",
    )
    ∷ ("proxies.detectCountriesApply", "Apply")
    ∷ ("proxies.delay", "Delay")
    ∷ ("proxies.testDelay", "Test Delay")
    ∷ ("proxies.timeout", "Timeout")
    ∷ ("proxies.error", "Error")
    ∷ ("proxies.testAllDelay", "Test All")
    ∷ ("proxies.ipScores", "IP scores")
    ∷ ("proxies.testing", "Testing...")
    ∷ ("proxies.source", "Source")
    ∷ ("proxies.sourceAll", "All sources")
    ∷ ("proxies.sourceStatic", "Static")
    ∷ ("proxies.readOnly", "Read-only")
    ∷ ("proxies.details", "Details")
    ∷ ("proxies.nodeDetails", "Node details")
    ∷ (
      "proxies.nodeDetailsDesc",
      "Subscription node — read-only. Only safe runtime metadata is shown; the server address, provider URL and credentials are never exposed.",
    )
    ∷ ("proxies.fieldProtocol", "Protocol")
    ∷ ("proxies.fieldProvider", "Subscription")
    ∷ ("proxies.fieldAlive", "Alive")
    ∷ ("proxies.fieldUDP", "UDP")
    ∷ ("proxies.fieldDelay", "Delay")
    ∷ ("proxies.fieldProviderStatus", "Subscription status")
    ∷ ("proxies.fieldProviderUpdated", "Updated")
    ∷ ("proxies.nodeCount", "Nodes")
    ∷ ("proxies.unknown", "Unknown")
    ∷ ("proxies.yes", "Yes")
    ∷ ("proxies.no", "No")
    ∷ ("proxies.providerStatusOK", "Loaded")
    ∷ ("proxies.providerUnknown", "Load failed / unknown")
    ∷ ("proxies.providerLoadFailed", "Failed to load subscription nodes")
    ∷ (
      "proxies.providerLoadFailedDesc",
      "Static nodes remain fully usable. Retry after mihomo is reachable again.",
    )
    ∷ ("proxies.retry", "Retry")
    ∷ ("proxies.noMatchingNodes", "No nodes match the current filters.")
    ∷ ("proxy.cipher", "Cipher")
    ∷ ("proxy.password", "Password")
    ∷ ("proxy.udp", "UDP")
    ∷ ("proxy.sni", "SNI")
    ∷ ("proxy.skipCertVerify", "Skip Cert Verify")
    ∷ ("proxy.uuid", "UUID")
    ∷ ("proxy.alterId", "Alter ID")
    ∷ ("proxy.tls", "TLS")
    ∷ ("proxy.serverName", "Server Name")
    ∷ ("proxy.network", "Network")
    ∷ ("proxy.flow", "Flow")
    ∷ ("proxy.username", "Username")
    ∷ ("proxy.obfs", "Obfs")
    ∷ ("proxy.obfsPassword", "Obfs Password")
    ∷ ("proxy.congestionController", "Congestion Controller")
    ∷ ("proxy.none", "(none)")
    ∷ []
