-- ===== src/I18n/En/SystemConfigPublish.antt =====
-- web/src/i18n/en.ts, from `systemConfig.title` to `publish.config`.
use Prim.Native.String.{String}
use mihomo_cp.Prelude.{List, [], ◌∷◌}

abbrev pub en_system_config_publish : List (String × String)
en_system_config_publish =
    ("systemConfig.title", "System Config")
    ∷ ("systemConfig.loadFailed", "Failed to load system config")
    ∷ ("systemConfig.saved", "System config saved")
    ∷ ("systemConfig.saveFailed", "Failed to save system config")
    ∷ ("systemConfig.saveConfig", "Save Configuration")
    ∷ ("systemConfig.general", "General")
    ∷ ("systemConfig.externalController", "External Controller")
    ∷ ("systemConfig.tun", "TUN")
    ∷ ("systemConfig.dns", "DNS")
    ∷ ("systemConfig.allowLan", "Allow LAN connections")
    ∷ ("systemConfig.enableIpv6", "Enable IPv6")
    ∷ ("systemConfig.enableTun", "Enable TUN")
    ∷ ("systemConfig.autoRoute", "Auto Route")
    ∷ ("systemConfig.enableDns", "Enable DNS")
    ∷ ("systemConfig.selectMode", "Select mode")
    ∷ ("systemConfig.selectLogLevel", "Select log level")
    ∷ ("systemConfig.selectStack", "Select stack")
    ∷ ("publish.title", "Publish Center")
    ∷ ("publish.loadingStatus", "Loading status...")
    ∷ ("publish.draftPending", "Draft changes pending — not yet published")
    ∷ ("publish.upToDate", "Up to date")
    ∷ ("publish.runningVersion", "running version v{version}")
    ∷ ("publish.loadingPreview", "Loading preview...")
    ∷ ("publish.loadingHistory", "Loading history...")
    ∷ ("publish.previewFailed", "Failed to load preview")
    ∷ ("publish.historyFailed", "Failed to load history")
    ∷ ("publish.publishedSuccess", "Configuration published successfully")
    ∷ ("publish.previewTitle", "Preview & Publish")
    ∷ ("publish.diff", "Diff")
    ∷ ("publish.fullYaml", "Full YAML")
    ∷ ("publish.noDifferences", "No differences")
    ∷ ("publish.notValidated", "Not validated")
    ∷ ("publish.valid", "Valid")
    ∷ ("publish.invalid", "Invalid ({count} error{s})")
    ∷ ("publish.validationOutput", "Validation output")
    ∷ ("publish.releaseNote", "Release note (optional)")
    ∷ ("publish.validate", "Validate")
    ∷ ("publish.validating", "Validating...")
    ∷ ("publish.publish", "Publish")
    ∷ ("publish.publishing", "Publishing...")
    ∷ ("publish.validateFirst", "Validate before publishing")
    ∷ ("publish.discard", "Discard Changes")
    ∷ ("publish.discarding", "Discarding...")
    ∷ ("publish.discardSuccess", "Changes discarded")
    ∷ ("publish.discardFailed", "Failed to discard changes")
    ∷ ("publish.configValid", "Configuration is valid")
    ∷ ("publish.validationFailed", "Validation failed: {count} error(s)")
    ∷ ("publish.validationError", "Validation failed")
    ∷ ("publish.publishFailed", "Publish failed")
    ∷ ("publish.publishSuccess", "Published successfully")
    ∷ ("publish.history", "Publish History")
    ∷ ("publish.noHistory", "No publish history yet.")
    ∷ ("publish.rollback", "Rollback")
    ∷ ("publish.rollbackTitle", "Rollback to previous version?")
    ∷ (
      "publish.rollbackConfirm",
      "This will revert to the last successful configuration. The current running config will be replaced.",
    )
    ∷ ("publish.rollbackSuccess", "Rolled back successfully")
    ∷ ("publish.rollbackFailed", "Rollback failed")
    ∷ ("publish.error", "Error")
    ∷ ("publish.config", "Config YAML")
    ∷ []
