-- ===== src/I18n/En/Traffic.antt =====
-- web/src/i18n/en.ts, from `nodeScores.noMismatch` to `traffic.testFailed`.
use Prim.Native.String.{String}
use mihomo_cp.Prelude.{List, [], ◌∷◌}

abbrev pub en_traffic : List (String × String)
en_traffic =
    ("nodeScores.noMismatch", "No mismatch")
    ∷ ("nodeScores.rangeBadge", "Neighbor IP")
    ∷ ("nodeScores.attempts", "Attempts")
    ∷ ("nodeScores.noFlags", "None detected")
    ∷ ("nav.traffic", "Traffic")
    ∷ ("traffic.disabled", "Disabled")
    ∷ ("traffic.cycle", "Cycle")
    ∷ ("traffic.resetDay", "resets on day")
    ∷ ("traffic.localCounted", "Locally counted")
    ∷ ("traffic.vendorReported", "Vendor reported")
    ∷ ("traffic.today", "Today")
    ∷ ("traffic.estDaysLeft", "Est. days left")
    ∷ ("traffic.days", "days")
    ∷ ("traffic.topNodes", "Top nodes this cycle")
    ∷ ("traffic.unassigned", "Unassigned")
    ∷ ("traffic.total", "Total")
    ∷ ("traffic.upload", "Upload")
    ∷ ("traffic.download", "Download")
    ∷ ("traffic.dailyUsage", "Daily usage (last 30 days)")
    ∷ ("traffic.unassignedNodes", "Nodes not assigned to any provider (last 30 days)")
    ∷ ("traffic.alertSettings", "Alert notifications")
    ∷ ("traffic.alertChannel", "Channel")
    ∷ ("traffic.channelNone", "Disabled (log only)")
    ∷ ("traffic.alertTarget", "Target URL")
    ∷ ("traffic.alertThresholds", "Thresholds (% of quota, comma-separated)")
    ∷ ("traffic.testNotify", "Send test")
    ∷ (
      "traffic.alertHint",
      "Each threshold fires at most once per billing cycle. Alerts are checked every 5 minutes against max(local count, vendor reported).",
    )
    ∷ ("traffic.recentAlerts", "Recent alerts")
    ∷ ("traffic.noAlerts", "No alerts fired")
    ∷ ("traffic.notNotified", "not delivered")
    ∷ ("traffic.addProvider", "Add provider")
    ∷ ("traffic.editProvider", "Edit provider")
    ∷ (
      "traffic.noProviders",
      "No traffic providers configured yet. Add one to start tracking quota.",
    )
    ∷ ("traffic.quotaGB", "Monthly quota (GB)")
    ∷ ("traffic.resetDayLabel", "Reset day (1-31)")
    ∷ ("traffic.resetHour", "Reset hour")
    ∷ ("traffic.resetMinute", "Reset minute")
    ∷ ("traffic.resetTimezone", "Reset timezone")
    ∷ (
      "traffic.resetTimezoneHint", "IANA name, e.g. Asia/Shanghai. Empty uses the server timezone.",
    )
    ∷ ("traffic.nodePatterns", "Node patterns")
    ∷ (
      "traffic.nodePatternsHint",
      "Comma-separated glob patterns matched against node names, e.g. PS-*, HK-*",
    )
    ∷ ("traffic.subscriptionUrl", "Subscription URL (optional)")
    ∷ (
      "traffic.subscriptionUrlHint",
      "If set, vendor-reported usage is read from the subscription-userinfo header every 30 minutes.",
    )
    ∷ ("traffic.enabled", "Enabled")
    ∷ ("traffic.loadFailed", "Failed to load traffic data")
    ∷ ("traffic.saveFailed", "Save failed")
    ∷ ("traffic.formInvalid", "Please fill name, quota and reset day correctly")
    ∷ (
      "traffic.deleteConfirm",
      "Delete this provider? Its alerts and vendor usage snapshots are removed too.",
    )
    ∷ ("traffic.settingsSaved", "Alert settings saved")
    ∷ ("traffic.testSent", "Test notification sent")
    ∷ ("traffic.testFailed", "Test notification failed — check channel and target")
    ∷ []
