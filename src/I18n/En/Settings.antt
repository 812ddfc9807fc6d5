-- ===== src/I18n/En/Settings.antt =====
-- web/src/i18n/en.ts, from `settings.title` to `settings.fileIndicator`.
use Prim.Native.String.{String}
use mihomo_cp.Prelude.{List, [], ◌∷◌}

abbrev pub en_settings : List (String × String)
en_settings =
    ("settings.title", "Settings")
    ∷ ("settings.appSettings", "App Settings")
    ∷ ("settings.loadingSettings", "Loading settings...")
    ∷ ("settings.saved", "Settings saved")
    ∷ ("settings.saveFailed", "Failed to save settings")
    ∷ ("settings.saveSettings", "Save Settings")
    ∷ ("settings.configPath", "mihomo Config Path")
    ∷ ("settings.configPathPlaceholder", "/etc/mihomo/config.yaml")
    ∷ ("settings.workingDir", "mihomo Working Directory")
    ∷ ("settings.workingDirPlaceholder", "/etc/mihomo")
    ∷ ("settings.binaryPath", "mihomo Binary Path")
    ∷ ("settings.binaryPathPlaceholder", "/usr/local/bin/mihomo")
    ∷ ("settings.controllerUrl", "External Controller URL")
    ∷ ("settings.controllerUrlPlaceholder", "http://127.0.0.1:9090")
    ∷ ("settings.controllerSecret", "External Controller Secret")
    ∷ ("settings.controllerSecretPlaceholder", "Leave blank if no secret")
    ∷ ("settings.userManagement", "User Management")
    ∷ ("settings.addUser", "Add User")
    ∷ ("settings.username", "Username")
    ∷ ("settings.role", "Role")
    ∷ ("settings.loadingUsers", "Loading users...")
    ∷ ("settings.noUsers", "No users found.")
    ∷ ("settings.you", "(you)")
    ∷ ("settings.addUserDialog", "Add User")
    ∷ ("settings.editUserDialog", "Edit User")
    ∷ ("settings.usernamePlaceholder", "username")
    ∷ ("settings.passwordLabel", "Password")
    ∷ ("settings.passwordEditLabel", "Password (leave blank to keep current)")
    ∷ ("settings.passwordPlaceholder", "Password")
    ∷ ("settings.passwordEditPlaceholder", "New password (optional)")
    ∷ ("settings.roleAdmin", "Admin")
    ∷ ("settings.roleReadonly", "Readonly")
    ∷ ("settings.userUpdated", "User updated")
    ∷ ("settings.userCreated", "User created")
    ∷ ("settings.userUpdateFailed", "Failed to update user")
    ∷ ("settings.userCreateFailed", "Failed to create user")
    ∷ ("settings.userDeleted", "User deleted")
    ∷ ("settings.userDeleteFailed", "Failed to delete user")
    ∷ ("settings.cannotDeleteSelf", "You cannot delete your own account")
    ∷ ("settings.usernameRequired", "Username is required")
    ∷ ("settings.passwordRequired", "Password is required")
    ∷ ("settings.deleteUserTitle", "Delete User")
    ∷ (
      "settings.deleteUserConfirm",
      "Are you sure you want to delete this user? This action cannot be undone.",
    )
    ∷ ("settings.configEditor", "Config Editor")
    ∷ (
      "settings.configEditorDesc",
      "Directly edit the mihomo config.yaml. Save as draft, then validate and publish from the Publish page.",
    )
    ∷ ("settings.configLoading", "Loading config...")
    ∷ ("settings.configLoadFailed", "Failed to load config")
    ∷ ("settings.configSaved", "Config draft saved")
    ∷ ("settings.configSaveFailed", "Failed to save config draft")
    ∷ ("settings.configDraftCleared", "Config draft cleared")
    ∷ ("settings.configClearFailed", "Failed to clear config draft")
    ∷ ("settings.saveDraft", "Save as Draft")
    ∷ ("settings.clearDraft", "Clear Draft")
    ∷ ("settings.draftIndicator", "Draft")
    ∷ ("settings.fileIndicator", "Current file")
    ∷ []
