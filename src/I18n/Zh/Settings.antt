-- ===== src/I18n/Zh/Settings.antt =====
-- web/src/i18n/zh.ts, from `settings.title` to `settings.fileIndicator`.
use Prim.Native.String.{String}
use mihomo_cp.Prelude.{List, [], ◌∷◌}

abbrev pub zh_settings : List (String × String)
zh_settings =
    ("settings.title", "设置")
    ∷ ("settings.appSettings", "应用设置")
    ∷ ("settings.loadingSettings", "加载设置中...")
    ∷ ("settings.saved", "设置已保存")
    ∷ ("settings.saveFailed", "保存设置失败")
    ∷ ("settings.saveSettings", "保存设置")
    ∷ ("settings.configPath", "mihomo 配置路径")
    ∷ ("settings.configPathPlaceholder", "/etc/mihomo/config.yaml")
    ∷ ("settings.workingDir", "mihomo 工作目录")
    ∷ ("settings.workingDirPlaceholder", "/etc/mihomo")
    ∷ ("settings.binaryPath", "mihomo 可执行文件路径")
    ∷ ("settings.binaryPathPlaceholder", "/usr/local/bin/mihomo")
    ∷ ("settings.controllerUrl", "外部控制器地址")
    ∷ ("settings.controllerUrlPlaceholder", "http://127.0.0.1:9090")
    ∷ ("settings.controllerSecret", "外部控制器密钥")
    ∷ ("settings.controllerSecretPlaceholder", "留空表示无密钥")
    ∷ ("settings.userManagement", "用户管理")
    ∷ ("settings.addUser", "添加用户")
    ∷ ("settings.username", "用户名")
    ∷ ("settings.role", "角色")
    ∷ ("settings.loadingUsers", "加载用户中...")
    ∷ ("settings.noUsers", "暂无用户")
    ∷ ("settings.you", "（我）")
    ∷ ("settings.addUserDialog", "添加用户")
    ∷ ("settings.editUserDialog", "编辑用户")
    ∷ ("settings.usernamePlaceholder", "用户名")
    ∷ ("settings.passwordLabel", "密码")
    ∷ ("settings.passwordEditLabel", "密码（留空保持不变）")
    ∷ ("settings.passwordPlaceholder", "密码")
    ∷ ("settings.passwordEditPlaceholder", "新密码（可选）")
    ∷ ("settings.roleAdmin", "管理员")
    ∷ ("settings.roleReadonly", "只读")
    ∷ ("settings.userUpdated", "用户已更新")
    ∷ ("settings.userCreated", "用户已创建")
    ∷ ("settings.userUpdateFailed", "更新用户失败")
    ∷ ("settings.userCreateFailed", "创建用户失败")
    ∷ ("settings.userDeleted", "用户已删除")
    ∷ ("settings.userDeleteFailed", "删除用户失败")
    ∷ ("settings.cannotDeleteSelf", "不能删除当前登录的账户")
    ∷ ("settings.usernameRequired", "用户名不能为空")
    ∷ ("settings.passwordRequired", "密码不能为空")
    ∷ ("settings.deleteUserTitle", "删除用户")
    ∷ ("settings.deleteUserConfirm", "确定要删除此用户吗？此操作不可撤销。")
    ∷ ("settings.configEditor", "配置编辑器")
    ∷ ("settings.configEditorDesc", "直接编辑 mihomo config.yaml。保存为草稿后，前往发布页面进行校验和发布。")
    ∷ ("settings.configLoading", "加载配置中...")
    ∷ ("settings.configLoadFailed", "加载配置失败")
    ∷ ("settings.configSaved", "配置草稿已保存")
    ∷ ("settings.configSaveFailed", "保存配置草稿失败")
    ∷ ("settings.configDraftCleared", "配置草稿已清除")
    ∷ ("settings.configClearFailed", "清除配置草稿失败")
    ∷ ("settings.saveDraft", "保存为草稿")
    ∷ ("settings.clearDraft", "清除草稿")
    ∷ ("settings.draftIndicator", "草稿")
    ∷ ("settings.fileIndicator", "当前文件")
    ∷ []
