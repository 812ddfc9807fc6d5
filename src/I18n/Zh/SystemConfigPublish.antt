-- ===== src/I18n/Zh/SystemConfigPublish.antt =====
-- web/src/i18n/zh.ts, from `systemConfig.title` to `publish.config`.
use Prim.Native.String.{String}
use mihomo_cp.Prelude.{List, [], ◌∷◌}

abbrev pub zh_system_config_publish : List (String × String)
zh_system_config_publish =
    ("systemConfig.title", "系统配置")
    ∷ ("systemConfig.loadFailed", "加载系统配置失败")
    ∷ ("systemConfig.saved", "系统配置已保存")
    ∷ ("systemConfig.saveFailed", "保存系统配置失败")
    ∷ ("systemConfig.saveConfig", "保存配置")
    ∷ ("systemConfig.general", "通用")
    ∷ ("systemConfig.externalController", "外部控制器")
    ∷ ("systemConfig.tun", "TUN")
    ∷ ("systemConfig.dns", "DNS")
    ∷ ("systemConfig.allowLan", "允许局域网连接")
    ∷ ("systemConfig.enableIpv6", "启用 IPv6")
    ∷ ("systemConfig.enableTun", "启用 TUN")
    ∷ ("systemConfig.autoRoute", "自动路由")
    ∷ ("systemConfig.enableDns", "启用 DNS")
    ∷ ("systemConfig.selectMode", "选择模式")
    ∷ ("systemConfig.selectLogLevel", "选择日志级别")
    ∷ ("systemConfig.selectStack", "选择协议栈")
    ∷ ("publish.title", "发布中心")
    ∷ ("publish.loadingStatus", "加载状态中...")
    ∷ ("publish.draftPending", "有草稿更改未发布")
    ∷ ("publish.upToDate", "已是最新")
    ∷ ("publish.runningVersion", "当前运行版本 v{version}")
    ∷ ("publish.loadingPreview", "加载预览中...")
    ∷ ("publish.loadingHistory", "加载历史中...")
    ∷ ("publish.previewFailed", "加载预览失败")
    ∷ ("publish.historyFailed", "加载历史失败")
    ∷ ("publish.publishedSuccess", "配置发布成功")
    ∷ ("publish.previewTitle", "预览与发布")
    ∷ ("publish.diff", "差异")
    ∷ ("publish.fullYaml", "完整 YAML")
    ∷ ("publish.noDifferences", "无差异")
    ∷ ("publish.notValidated", "未校验")
    ∷ ("publish.valid", "校验通过")
    ∷ ("publish.invalid", "校验失败（{count} 个错误）")
    ∷ ("publish.validationOutput", "校验输出")
    ∷ ("publish.releaseNote", "发布说明（可选）")
    ∷ ("publish.validate", "校验")
    ∷ ("publish.validating", "校验中...")
    ∷ ("publish.publish", "发布")
    ∷ ("publish.publishing", "发布中...")
    ∷ ("publish.validateFirst", "请先校验再发布")
    ∷ ("publish.discard", "取消更改")
    ∷ ("publish.discarding", "取消中...")
    ∷ ("publish.discardSuccess", "更改已取消")
    ∷ ("publish.discardFailed", "取消更改失败")
    ∷ ("publish.configValid", "配置校验通过")
    ∷ ("publish.validationFailed", "校验失败：{count} 个错误")
    ∷ ("publish.validationError", "校验失败")
    ∷ ("publish.publishFailed", "发布失败")
    ∷ ("publish.publishSuccess", "发布成功")
    ∷ ("publish.history", "发布历史")
    ∷ ("publish.noHistory", "暂无发布记录")
    ∷ ("publish.rollback", "回滚")
    ∷ ("publish.rollbackTitle", "回滚到上一版本？")
    ∷ ("publish.rollbackConfirm", "将恢复到上次成功的配置，当前运行的配置将被替换。")
    ∷ ("publish.rollbackSuccess", "回滚成功")
    ∷ ("publish.rollbackFailed", "回滚失败")
    ∷ ("publish.error", "错误")
    ∷ ("publish.config", "配置 YAML")
    ∷ []
