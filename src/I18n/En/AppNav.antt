-- ===== src/I18n/En/AppNav.antt =====
-- web/src/i18n/en.ts, from `app.name` to `overview.closeConnFailed`.
use Prim.Native.String.{String}
use mihomo_cp.Prelude.{List, [], ◌∷◌}

abbrev pub en_app_nav : List (String × String)
en_app_nav =
    ("app.name", "Mihomo CP")
    ∷ ("nav.overview", "Overview")
    ∷ ("nav.proxies", "Proxies")
    ∷ ("nav.proxyGroups", "Proxy Groups")
    ∷ ("nav.rules", "Rules")
    ∷ ("nav.ruleProviders", "Rule Providers")
    ∷ ("nav.systemConfig", "System Config")
    ∷ ("nav.publish", "Publish")
    ∷ ("nav.runtime", "Runtime")
    ∷ ("nav.subscriptions", "Subscriptions")
    ∷ ("nav.nodeScores", "IP Scores")
    ∷ ("nav.settings", "Settings")
    ∷ ("header.changesPending", "Changes pending")
    ∷ ("header.account", "Account")
    ∷ ("header.changePassword", "Change Password")
    ∷ ("header.signOut", "Sign out")
    ∷ ("header.currentPassword", "Current Password")
    ∷ ("header.newPassword", "New Password")
    ∷ ("header.currentPasswordPlaceholder", "Enter current password")
    ∷ ("header.newPasswordPlaceholder", "Enter new password")
    ∷ ("header.fillBothFields", "Please fill in both fields")
    ∷ ("header.passwordChanged", "Password changed successfully")
    ∷ ("header.passwordChangeFailed", "Failed to change password. Check your current password.")
    ∷ ("header.language", "Language")
    ∷ ("header.darkMode", "Dark Mode")
    ∷ ("header.lightMode", "Light Mode")
    ∷ ("common.cancel", "Cancel")
    ∷ ("common.save", "Save")
    ∷ ("common.saving", "Saving...")
    ∷ ("common.create", "Create")
    ∷ ("common.update", "Update")
    ∷ ("common.delete", "Delete")
    ∷ ("common.confirm", "Confirm")
    ∷ ("common.edit", "Edit")
    ∷ ("common.copy", "Copy")
    ∷ ("common.loading", "Loading...")
    ∷ ("common.name", "Name")
    ∷ ("common.type", "Type")
    ∷ ("common.actions", "Actions")
    ∷ ("common.search", "Search")
    ∷ ("common.allTypes", "All types")
    ∷ ("common.refresh", "Refresh")
    ∷ ("common.view", "View")
    ∷ ("common.unknown", "Unknown")
    ∷ ("common.never", "Never")
    ∷ ("common.yes", "Yes")
    ∷ ("common.no", "No")
    ∷ ("common.all", "All")
    ∷ ("common.adminOnly", "Administrators only")
    ∷ ("common.details", "Details")
    ∷ ("login.title", "Mihomo CP")
    ∷ ("login.subtitle", "Sign in to your account")
    ∷ ("login.username", "Username")
    ∷ ("login.password", "Password")
    ∷ ("login.usernamePlaceholder", "Enter username")
    ∷ ("login.passwordPlaceholder", "Enter password")
    ∷ ("login.signIn", "Sign in")
    ∷ ("login.signingIn", "Signing in…")
    ∷ ("login.failed", "Login failed. Please check your credentials.")
    ∷ ("overview.title", "Overview")
    ∷ ("overview.mihomoStatus", "mihomo Status")
    ∷ ("overview.proxies", "Proxies")
    ∷ ("overview.rules", "Rules")
    ∷ ("overview.groups", "Groups")
    ∷ ("overview.activeConnections", "Active Connections")
    ∷ ("overview.checking", "Checking...")
    ∷ ("overview.running", "Running")
    ∷ ("overview.unreachable", "Unreachable")
    ∷ ("overview.cannotConnect", "Cannot connect")
    ∷ ("overview.configured", "configured")
    ∷ ("overview.proxyGroups", "proxy groups")
    ∷ ("overview.live", "live")
    ∷ ("overview.mihomoUnreachable", "mihomo unreachable")
    ∷ ("overview.recentPublishes", "Recent Publishes")
    ∷ ("overview.noPublishHistory", "No publish history")
    ∷ ("overview.version", "Version")
    ∷ ("overview.status", "Status")
    ∷ ("overview.operator", "Operator")
    ∷ ("overview.note", "Note")
    ∷ ("overview.time", "Time")
    ∷ ("overview.noConnections", "No active connections")
    ∷ ("overview.host", "Host")
    ∷ ("overview.network", "Network")
    ∷ ("overview.chains", "Chains")
    ∷ ("overview.rule", "Rule")
    ∷ ("overview.traffic", "Traffic")
    ∷ ("overview.duration", "Duration")
    ∷ ("overview.closeConn", "Close connection")
    ∷ ("overview.closeConnFailed", "Failed to close connection")
    ∷ []
