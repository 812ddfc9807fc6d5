-- ===== src/I18n/En/Subscriptions2.antt =====
-- web/src/i18n/en.ts, from `subscriptions.resetDay` to `subscriptions.refreshAllSummary`.
use Prim.Native.String.{String}
use mihomo_cp.Prelude.{List, [], ◌∷◌}

abbrev pub en_subscriptions_2 : List (String × String)
en_subscriptions_2 =
    ("subscriptions.resetDay", "Reset day")
    ∷ ("subscriptions.resetHour", "Hour")
    ∷ ("subscriptions.resetMinute", "Minute")
    ∷ ("subscriptions.timezone", "Timezone")
    ∷ (
      "subscriptions.resetHint",
      "Day is clamped to the last day of shorter months. Time is interpreted in the selected IANA timezone.",
    )
    ∷ ("subscriptions.lastRefresh", "Last refresh attempt")
    ∷ ("subscriptions.lastSuccess", "Last successful refresh")
    ∷ ("subscriptions.neverRefreshed", "Never refreshed")
    ∷ ("subscriptions.lastError", "Last error")
    ∷ ("subscriptions.draftPending", "Draft changes pending")
    ∷ (
      "subscriptions.draftPendingHint",
      "Saved to the draft. Publish from Publish Center to apply it to the running mihomo config.",
    )
    ∷ ("subscriptions.goToPublish", "Open Publish Center")
    ∷ ("subscriptions.sectionBasic", "Basics")
    ∷ ("subscriptions.sectionQuota", "Quota & schedule")
    ∷ ("subscriptions.sectionExpiry", "Expiry")
    ∷ ("subscriptions.quotaGB", "Manual monthly quota (GiB)")
    ∷ ("subscriptions.quotaGBHint", "Leave blank to use the quota reported by the vendor.")
    ∷ ("subscriptions.manualExpiry", "Manual expiry (date, time & timezone)")
    ∷ ("subscriptions.manualExpiryTimezone", "Expiry timezone")
    ∷ (
      "subscriptions.manualExpiryHint",
      "Used only when the vendor does not report an expiry. Untouched values are preserved.",
    )
    ∷ ("subscriptions.remainingUnknown", "Unknown")
    ∷ ("subscriptions.urlRequired", "A subscription URL is required to create a new provider.")
    ∷ ("subscriptions.providerConflict", "This provider is already linked to another subscription.")
    ∷ (
      "subscriptions.providerMustExist",
      "When editing, choose an existing provider. Create new providers from a new subscription.",
    )
    ∷ (
      "subscriptions.urlIgnoredForLink",
      "This provider already exists, so the URL field is ignored and the provider is linked as-is.",
    )
    ∷ (
      "subscriptions.providerSelectHint",
      "If the name matches an existing native provider, it is linked instead of duplicated.",
    )
    ∷ ("subscriptions.effectiveQuota", "Current effective quota: {value}")
    ∷ ("subscriptions.vendorExpiry", "Vendor expiry: {value}")
    ∷ ("subscriptions.clearManualExpiry", "Clear the field and save to remove the manual expiry.")
    ∷ ("subscriptions.serverTimezone", "Server local time")
    ∷ ("subscriptions.delete", "Delete subscription")
    ∷ (
      "subscriptions.deleteBlocked",
      "Cannot delete: the provider is still referenced by {groups}. Remove those references first.",
    )
    ∷ ("subscriptions.localProvider", "Local accounting provider (optional)")
    ∷ ("subscriptions.localProviderNone", "None")
    ∷ (
      "subscriptions.localProviderHint",
      "Link a traffic provider to show locally sampled usage for the current cycle next to vendor numbers.",
    )
    ∷ ("subscriptions.rateLimited", "Rate limited; retry after {seconds}s.")
    ∷ ("subscriptions.refreshAllSummary", "{ok} refreshed, {failed} failed")
    ∷ []
