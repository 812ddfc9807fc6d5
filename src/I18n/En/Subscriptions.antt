-- ===== src/I18n/En/Subscriptions.antt =====
-- web/src/i18n/en.ts, from `subscriptions.title` to `subscriptions.resetNoneHint`.
use Prim.Native.String.{String}
use mihomo_cp.Prelude.{List, [], ◌∷◌}

abbrev pub en_subscriptions : List (String × String)
en_subscriptions =
    ("subscriptions.title", "Subscriptions")
    ∷ (
      "subscriptions.readonlyHint",
      "Read-only view: only administrators can add, edit, refresh or delete subscriptions.",
    )
    ∷ ("subscriptions.add", "Add Subscription")
    ∷ ("subscriptions.edit", "Edit Subscription")
    ∷ ("subscriptions.empty", "No subscriptions yet. Add one to track quota, expiry and resets.")
    ∷ ("subscriptions.loadFailed", "Failed to load subscriptions")
    ∷ ("subscriptions.created", "Subscription created in the draft")
    ∷ ("subscriptions.updated", "Subscription updated in the draft")
    ∷ ("subscriptions.deleted", "Subscription deleted")
    ∷ ("subscriptions.deleteTitle", "Delete Subscription")
    ∷ (
      "subscriptions.deleteConfirm",
      "Delete \"{name}\"? If no proxy group references its provider, the provider entry is removed from the config draft as well; publish to apply. If it is still referenced, deletion is blocked until those references are removed.",
    )
    ∷ ("subscriptions.deleteFailed", "Failed to delete subscription")
    ∷ ("subscriptions.saveFailed", "Failed to save subscription")
    ∷ ("subscriptions.saveConflict", "A subscription or provider with this name already exists.")
    ∷ (
      "subscriptions.deleteReferencedGeneric",
      "Cannot delete: the provider is still referenced by a proxy group.",
    )
    ∷ ("subscriptions.formInvalid", "Please check the name, URL, quota and reset schedule")
    ∷ ("subscriptions.refresh", "Refresh")
    ∷ ("subscriptions.refreshing", "Refreshing…")
    ∷ ("subscriptions.refreshed", "Subscription refreshed")
    ∷ ("subscriptions.refreshFailed", "Refresh failed")
    ∷ ("subscriptions.refreshAll", "Refresh all")
    ∷ ("subscriptions.refreshingAll", "Refreshing all…")
    ∷ ("subscriptions.statusOk", "Up to date")
    ∷ ("subscriptions.statusStale", "Stale data")
    ∷ ("subscriptions.statusError", "Refresh failed")
    ∷ ("subscriptions.statusDisabled", "Auto-update paused")
    ∷ ("subscriptions.statusPending", "Waiting for first refresh")
    ∷ ("subscriptions.provider", "Native provider")
    ∷ ("subscriptions.providerNone", "Not linked")
    ∷ (
      "subscriptions.providerHint",
      "The subscription is stored as a mihomo proxy-provider in the config draft. Link an existing provider or create one with this name.",
    )
    ∷ ("subscriptions.providerName", "Provider name")
    ∷ ("subscriptions.providerNamePlaceholder", "e.g. provider-main")
    ∷ ("subscriptions.providerLink", "Link an existing provider")
    ∷ ("subscriptions.providerCreate", "Create a new provider with this name")
    ∷ ("subscriptions.nodeCount", "Nodes")
    ∷ ("subscriptions.nodeCountUnknown", "Unknown until the provider is fetched")
    ∷ ("subscriptions.providerMissing", "The linked provider is missing from the config draft")
    ∷ ("subscriptions.providerSourceCreated", "Created")
    ∷ ("subscriptions.providerSourceLinked", "Linked")
    ∷ ("subscriptions.sourceType", "Source type")
    ∷ ("subscriptions.sourceTypeNative", "Native provider")
    ∷ (
      "subscriptions.sourceTypeNativeHint",
      "Creates or links a native mihomo proxy-provider in the config draft (published via Publish Center).",
    )
    ∷ ("subscriptions.sourceTypeTraffic", "Existing static source")
    ∷ (
      "subscriptions.sourceTypeTrafficHint",
      "Tracks an existing traffic provider and its static nodes. No native provider is created and the config draft is never touched.",
    )
    ∷ ("subscriptions.sourceTypeTrafficBadge", "Static source")
    ∷ ("subscriptions.trafficSource", "Traffic source")
    ∷ ("subscriptions.trafficSourceSelect", "Select an existing traffic provider…")
    ∷ ("subscriptions.trafficProviderRequired", "Select the traffic provider this source tracks.")
    ∷ (
      "subscriptions.urlManagedByTrafficSource",
      "The subscription link is owned by the traffic source and stays there; nothing is duplicated here.",
    )
    ∷ ("subscriptions.statusLocal", "Local data")
    ∷ (
      "subscriptions.localOnlyHint",
      "This source has no subscription link. Showing locally sampled usage only; vendor usage and expiry are unknown.",
    )
    ∷ (
      "subscriptions.supplierResetDayNotice",
      "Vendor reports reset day {day} (day only — no hour or timezone).",
    )
    ∷ (
      "subscriptions.scheduleConfiguredHint",
      "Reset time and timezone above are locally configured, not supplied by the vendor.",
    )
    ∷ ("subscriptions.nodeCountMatched", "Matched static nodes")
    ∷ ("subscriptions.deleteTitleTraffic", "Delete Static Source Tracking")
    ∷ (
      "subscriptions.deleteConfirmTraffic",
      "Delete the tracking record for \"{name}\"? The traffic source, its history and all static nodes/groups stay untouched.",
    )
    ∷ (
      "subscriptions.pausedUsageHintTraffic",
      "Automatic metadata refresh is paused. The traffic source and static config are untouched.",
    )
    ∷ ("subscriptions.localUsed", "Local accounting this cycle")
    ∷ ("subscriptions.resetInDays", "in {days} day(s)")
    ∷ ("subscriptions.cycleEnds", "Current cycle ends {time}")
    ∷ (
      "subscriptions.pausedHint",
      "Pausing only stops automatic subscription metadata refresh and node scoring. Already-published provider nodes keep carrying traffic until group references are removed and the provider is deleted and published.",
    )
    ∷ (
      "subscriptions.pausedUsageHint",
      "Automatic subscription refresh and scoring are paused. Already-published nodes can still carry traffic; to stop using them, remove the proxy-group references first, then delete the provider and publish the change.",
    )
    ∷ (
      "subscriptions.neverFetchedHint",
      "No vendor data yet. Refresh to fetch quota, expiry and reset information.",
    )
    ∷ (
      "subscriptions.staleHint",
      "Vendor data is missing or older than 24 hours. The last successful values are kept and labelled with their fetch time.",
    )
    ∷ ("subscriptions.url", "Subscription URL")
    ∷ ("subscriptions.urlPlaceholder", "https://provider.example/subscription")
    ∷ (
      "subscriptions.urlKeepHint",
      "Leave blank to keep the stored URL. It is never shown again in full.",
    )
    ∷ (
      "subscriptions.urlMaskedHint",
      "URLs are masked in the UI; full URLs are never returned to the browser.",
    )
    ∷ ("subscriptions.enabled", "Auto-update subscription info and scoring")
    ∷ ("subscriptions.quota", "Quota")
    ∷ ("subscriptions.total", "Total")
    ∷ ("subscriptions.used", "Used")
    ∷ ("subscriptions.remaining", "Remaining")
    ∷ ("subscriptions.usageSource", "Usage source")
    ∷ ("subscriptions.sourceVendor", "Vendor reported")
    ∷ ("subscriptions.sourceLocal", "Local accounting")
    ∷ ("subscriptions.sourceManual", "Manual")
    ∷ ("subscriptions.sourceNone", "No data yet")
    ∷ ("subscriptions.dataUpdatedAt", "Usage updated")
    ∷ ("subscriptions.expiresAt", "Expires")
    ∷ ("subscriptions.expiryUnknown", "Not reported")
    ∷ ("subscriptions.expirySource", "Expiry source")
    ∷ ("subscriptions.expirySourceVendor", "Vendor")
    ∷ ("subscriptions.expirySourceManual", "Manual")
    ∷ ("subscriptions.expirySourceUnknown", "Unknown")
    ∷ ("subscriptions.nextReset", "Next reset")
    ∷ ("subscriptions.resetSchedule", "Reset schedule")
    ∷ ("subscriptions.resetConfigure", "Configure monthly reset schedule")
    ∷ ("subscriptions.resetNone", "No monthly reset policy (unknown)")
    ∷ (
      "subscriptions.resetNoneHint",
      "Unchecked means no monthly reset policy (unknown). Changing other fields will not invent a schedule.",
    )
    ∷ []
