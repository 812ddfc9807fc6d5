-- ===== src/I18n/En/NodeScores.antt =====
-- web/src/i18n/en.ts, from `nodeScores.title` to `nodeScores.scoreUnavailable`.
use Prim.Native.String.{String}
use mihomo_cp.Prelude.{List, [], ◌∷◌}

abbrev pub en_node_scores : List (String × String)
en_node_scores =
    ("nodeScores.title", "Node IP Scores")
    ∷ ("nodeScores.readonlyHint", "Read-only view: only administrators can queue score refreshes.")
    ∷ (
      "nodeScores.disclaimer",
      "The Claude Trust Score is an independent Net.Coffee signal (0–100, higher is better). It is not an official Anthropic score.",
    )
    ∷ ("nodeScores.loadFailed", "Failed to load node scores")
    ∷ (
      "nodeScores.cadenceHint",
      "Scores refresh automatically every 7 days; manual refresh queues the node and the list polls for the result.",
    )
    ∷ (
      "nodeScores.empty",
      "No nodes have been scored yet. Add a node or refresh a provider to queue scoring.",
    )
    ∷ ("nodeScores.searchPlaceholder", "Search nodes, egress IP or ASN…")
    ∷ ("nodeScores.kind", "Source")
    ∷ ("nodeScores.allKinds", "All node sources")
    ∷ ("nodeScores.allStatuses", "All statuses")
    ∷ ("nodeScores.sourceStatic", "Static")
    ∷ ("nodeScores.sourceProvider", "Provider")
    ∷ ("nodeScores.statusPending", "Pending")
    ∷ ("nodeScores.statusTesting", "Testing")
    ∷ ("nodeScores.statusOk", "Scored")
    ∷ ("nodeScores.statusFailed", "Failed")
    ∷ ("nodeScores.statusSkipped", "Skipped")
    ∷ ("nodeScores.scoreMissing", "No score")
    ∷ ("nodeScores.scoreHigh", "High trust")
    ∷ ("nodeScores.scoreMedium", "Moderate")
    ∷ ("nodeScores.scoreLow", "Low trust")
    ∷ ("nodeScores.scoreVeryLow", "Very low")
    ∷ ("nodeScores.trustScore", "Claude Trust Score")
    ∷ ("nodeScores.exitIp", "Egress IP")
    ∷ ("nodeScores.exitIpUnknown", "Unknown")
    ∷ ("nodeScores.rangeOnly", "Neighbor IP in declared range ({cidr})")
    ∷ ("nodeScores.ipMatch", "IP match")
    ∷ ("nodeScores.matchExact", "Exact address")
    ∷ ("nodeScores.matchCidr", "Declared range (not exact)")
    ∷ ("nodeScores.matchMismatch", "Different IP")
    ∷ ("nodeScores.matchUnknown", "Unknown")
    ∷ (
      "nodeScores.ipMismatchHint",
      "The vendor returned data for a different address. It is not presented as this node’s score.",
    )
    ∷ (
      "nodeScores.cidrHint",
      "The vendor returned a neighbor IP inside the declared range. Use it as a reference only, not as an exact score for the queried IP.",
    )
    ∷ ("nodeScores.country", "Country")
    ∷ ("nodeScores.asn", "ASN")
    ∷ ("nodeScores.asnOrg", "ASN organization")
    ∷ ("nodeScores.companyType", "Company type")
    ∷ ("nodeScores.ipType", "IP type")
    ∷ ("nodeScores.residential", "Residential")
    ∷ ("nodeScores.datacenter", "Datacenter")
    ∷ ("nodeScores.vpn", "VPN")
    ∷ ("nodeScores.proxy", "Proxy")
    ∷ ("nodeScores.tor", "Tor")
    ∷ ("nodeScores.mobile", "Mobile")
    ∷ ("nodeScores.crawler", "Crawler")
    ∷ ("nodeScores.abuser", "Abuse signals")
    ∷ ("nodeScores.abuserScore", "Abuse score")
    ∷ ("nodeScores.sources", "Sources")
    ∷ ("nodeScores.sourceLink", "Public details")
    ∷ ("nodeScores.checkedAt", "Last checked")
    ∷ ("nodeScores.lastSuccess", "Last success")
    ∷ ("nodeScores.nextRefresh", "Next refresh")
    ∷ ("nodeScores.neverChecked", "Never checked")
    ∷ ("nodeScores.detailTitle", "Node IP Score")
    ∷ ("nodeScores.detailIdentity", "Node")
    ∷ ("nodeScores.detailEgress", "Egress")
    ∷ ("nodeScores.detailIntel", "IP intelligence")
    ∷ ("nodeScores.detailTiming", "Schedule")
    ∷ ("nodeScores.detailError", "Error")
    ∷ ("nodeScores.refresh", "Refresh score")
    ∷ ("nodeScores.refreshing", "Refreshing…")
    ∷ ("nodeScores.refreshed", "Scoring refreshed")
    ∷ ("nodeScores.refreshFailed", "Failed to refresh score")
    ∷ ("nodeScores.refreshAll", "Refresh all")
    ∷ ("nodeScores.refreshingAll", "Refreshing all…")
    ∷ ("nodeScores.batchQueued", "Queued {count} node(s) for scoring")
    ∷ ("nodeScores.batchFailed", "Failed to queue scoring")
    ∷ (
      "nodeScores.scopeNote",
      "Scores come from a server-side egress probe. Browser DNS, STUN and WebRTC are not tested.",
    )
    ∷ ("nodeScores.pendingHint", "Waiting for the first probe.")
    ∷ (
      "nodeScores.failedHint",
      "The last attempt failed. A previous successful score is kept when available.",
    )
    ∷ ("nodeScores.nextDueUnknown", "Not scheduled")
    ∷ ("nodeScores.scoreSource", "Score source")
    ∷ ("nodeScores.probeMethod", "Egress probe")
    ∷ ("nodeScores.probeMethodValue", "Server-side, isolated transport")
    ∷ ("nodeScores.unscored", "Not scored")
    ∷ ("nodeScores.showingCount", "{count} node(s)")
    ∷ ("nodeScores.updated", "Updated")
    ∷ ("nodeScores.selectAll", "Select all")
    ∷ ("nodeScores.selectedCount", "{count} selected")
    ∷ ("nodeScores.refreshSelected", "Refresh selected")
    ∷ ("nodeScores.clearSelection", "Clear selection")
    ∷ ("nodeScores.claudeSource", "Claude source · /api/iprisk")
    ∷ ("nodeScores.lookupSource", "Comprehensive source · /api/ip/lookup")
    ∷ ("nodeScores.sourceIdle", "No data from this source")
    ∷ ("nodeScores.lookupNotStored", "The comprehensive source result is not stored for this row.")
    ∷ ("nodeScores.exitSource", "Egress source")
    ∷ ("nodeScores.exitSourceClaude", "claude.ai trace")
    ∷ ("nodeScores.exitSourceCloudflare", "Cloudflare trace")
    ∷ ("nodeScores.errorCode", "Error code")
    ∷ ("nodeScores.scoreUnavailable", "Score unavailable")
    ∷ []
