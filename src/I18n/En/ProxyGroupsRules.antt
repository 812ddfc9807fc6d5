-- ===== src/I18n/En/ProxyGroupsRules.antt =====
-- web/src/i18n/en.ts, from `proxyGroups.title` to `ruleProviders.contentSaveFailed`.
use Prim.Native.String.{String}
use mihomo_cp.Prelude.{List, [], ◌∷◌}

abbrev pub en_proxy_groups_rules : List (String × String)
en_proxy_groups_rules =
    ("proxyGroups.title", "Proxy Groups")
    ∷ ("proxyGroups.add", "Add Group")
    ∷ ("proxyGroups.searchPlaceholder", "Search groups...")
    ∷ ("proxyGroups.loadFailed", "Failed to load proxy groups")
    ∷ ("proxyGroups.updated", "Proxy group updated")
    ∷ ("proxyGroups.created", "Proxy group created")
    ∷ ("proxyGroups.updateFailed", "Failed to update proxy group")
    ∷ ("proxyGroups.createFailed", "Failed to create proxy group")
    ∷ ("proxyGroups.deleted", "Proxy group deleted")
    ∷ ("proxyGroups.deleteFailed", "Failed to delete proxy group")
    ∷ ("proxyGroups.noGroups", "No proxy groups found. Click \"Add Group\" to create one.")
    ∷ ("proxyGroups.deleteTitle", "Delete Proxy Group")
    ∷ (
      "proxyGroups.deleteConfirm",
      "Are you sure you want to delete \"{name}\"? This action cannot be undone.",
    )
    ∷ (
      "proxyGroups.deleteWithRefs",
      "This group is referenced by {count} other group(s): {names}. Deleting it may break those groups. Continue?",
    )
    ∷ ("proxyGroups.members", "Members")
    ∷ ("proxyGroups.addDialog", "Add Proxy Group")
    ∷ ("proxyGroups.editDialog", "Edit Proxy Group")
    ∷ ("proxyGroups.namePlaceholder", "Group name")
    ∷ ("proxyGroups.healthCheckUrl", "Health Check URL")
    ∷ ("proxyGroups.healthCheckUrlPlaceholder", "http://www.gstatic.com/generate_204")
    ∷ ("proxyGroups.interval", "Interval (seconds)")
    ∷ ("proxyGroups.intervalPlaceholder", "300")
    ∷ ("proxyGroups.strategy", "Strategy")
    ∷ ("proxyGroups.selectStrategy", "Select strategy")
    ∷ ("proxyGroups.selectType", "Select type")
    ∷ ("rules.title", "Rules")
    ∷ ("rules.add", "Add Rule")
    ∷ ("rules.searchPlaceholder", "Search rules...")
    ∷ ("rules.loadFailed", "Failed to load rules")
    ∷ ("rules.updated", "Rule updated")
    ∷ ("rules.created", "Rule created")
    ∷ ("rules.updateFailed", "Failed to update rule")
    ∷ ("rules.createFailed", "Failed to create rule")
    ∷ ("rules.deleted", "Rule deleted")
    ∷ ("rules.deleteFailed", "Failed to delete rule")
    ∷ ("rules.orderSaveFailed", "Failed to save rule order")
    ∷ ("rules.noRules", "No rules found. Click \"Add Rule\" to create one.")
    ∷ ("rules.noMatchRule", "No MATCH rule found — add one as a fallback")
    ∷ ("rules.deleteTitle", "Delete Rule")
    ∷ (
      "rules.deleteConfirm",
      "Are you sure you want to delete this rule? This action cannot be undone.",
    )
    ∷ ("rules.addDialog", "Add Rule")
    ∷ ("rules.editDialog", "Edit Rule")
    ∷ ("rules.payload", "Payload")
    ∷ ("rules.target", "Target")
    ∷ ("rules.noResolve", "No Resolve")
    ∷ ("rules.payloadPlaceholder", "e.g. example.com, 192.168.1.0/24")
    ∷ ("rules.selectType", "Select type")
    ∷ ("rules.selectTarget", "Select target")
    ∷ ("rules.loadGroupsFailed", "Failed to load proxy groups")
    ∷ ("ruleProviders.title", "Rule Providers")
    ∷ ("ruleProviders.add", "Add Provider")
    ∷ ("ruleProviders.loadFailed", "Failed to load rule providers")
    ∷ ("ruleProviders.updated", "Rule provider updated")
    ∷ ("ruleProviders.created", "Rule provider created")
    ∷ ("ruleProviders.updateFailed", "Failed to update rule provider")
    ∷ ("ruleProviders.createFailed", "Failed to create rule provider")
    ∷ ("ruleProviders.deleted", "Rule provider deleted")
    ∷ ("ruleProviders.deleteFailed", "Failed to delete rule provider")
    ∷ ("ruleProviders.refreshed", "Refreshed \"{name}\"")
    ∷ ("ruleProviders.refreshFailed", "Failed to refresh \"{name}\"")
    ∷ (
      "ruleProviders.noProviders", "No rule providers found. Click \"Add Provider\" to create one.",
    )
    ∷ ("ruleProviders.deleteTitle", "Delete Rule Provider")
    ∷ (
      "ruleProviders.deleteConfirm",
      "Are you sure you want to delete \"{name}\"? This action cannot be undone.",
    )
    ∷ ("ruleProviders.addDialog", "Add Rule Provider")
    ∷ ("ruleProviders.editDialog", "Edit Rule Provider")
    ∷ ("ruleProviders.behavior", "Behavior")
    ∷ ("ruleProviders.url", "URL")
    ∷ ("ruleProviders.urlPlaceholder", "https://example.com/rules.yaml")
    ∷ ("ruleProviders.intervalLabel", "Interval (seconds)")
    ∷ ("ruleProviders.intervalPlaceholder", "86400")
    ∷ ("ruleProviders.path", "Path")
    ∷ ("ruleProviders.pathPlaceholder", "./rules/provider.yaml")
    ∷ ("ruleProviders.editContent", "Edit Content")
    ∷ ("ruleProviders.loadContentFailed", "Failed to load rule list")
    ∷ ("ruleProviders.contentSaved", "Rule list saved")
    ∷ ("ruleProviders.contentSaveFailed", "Failed to save rule list")
    ∷ []
