-- ===== src/I18n/Zh/AppNav.antt =====
-- web/src/i18n/zh.ts, from `app.name` to `overview.closeConnFailed`.
use Prim.Native.String.{String}
use mihomo_cp.Prelude.{List, [], ◌∷◌}

abbrev pub zh_app_nav : List (String × String)
zh_app_nav =
    ("app.name", "Mihomo 控制面板")
    ∷ ("nav.overview", "总览")
    ∷ ("nav.proxies", "代理节点")
    ∷ ("nav.proxyGroups", "策略组")
    ∷ ("nav.rules", "规则")
    ∷ ("nav.ruleProviders", "规则集")
    ∷ ("nav.systemConfig", "系统配置")
    ∷ ("nav.publish", "发布")
    ∷ ("nav.runtime", "运行状态")
    ∷ ("nav.subscriptions", "订阅管理")
    ∷ ("nav.nodeScores", "IP 评分")
    ∷ ("nav.settings", "设置")
    ∷ ("header.changesPending", "有未发布的更改")
    ∷ ("header.account", "账户")
    ∷ ("header.changePassword", "修改密码")
    ∷ ("header.signOut", "退出登录")
    ∷ ("header.currentPassword", "当前密码")
    ∷ ("header.newPassword", "新密码")
    ∷ ("header.currentPasswordPlaceholder", "输入当前密码")
    ∷ ("header.newPasswordPlaceholder", "输入新密码")
    ∷ ("header.fillBothFields", "请填写所有字段")
    ∷ ("header.passwordChanged", "密码修改成功")
    ∷ ("header.passwordChangeFailed", "密码修改失败，请检查当前密码")
    ∷ ("header.language", "语言")
    ∷ ("header.darkMode", "深色模式")
    ∷ ("header.lightMode", "浅色模式")
    ∷ ("common.cancel", "取消")
    ∷ ("common.save", "保存")
    ∷ ("common.saving", "保存中...")
    ∷ ("common.create", "创建")
    ∷ ("common.update", "更新")
    ∷ ("common.delete", "删除")
    ∷ ("common.confirm", "确认")
    ∷ ("common.edit", "编辑")
    ∷ ("common.copy", "复制")
    ∷ ("common.loading", "加载中...")
    ∷ ("common.name", "名称")
    ∷ ("common.type", "类型")
    ∷ ("common.actions", "操作")
    ∷ ("common.search", "搜索")
    ∷ ("common.allTypes", "所有类型")
    ∷ ("common.refresh", "刷新")
    ∷ ("common.view", "查看")
    ∷ ("common.unknown", "未知")
    ∷ ("common.never", "从未")
    ∷ ("common.yes", "是")
    ∷ ("common.no", "否")
    ∷ ("common.all", "全部")
    ∷ ("common.adminOnly", "仅管理员可操作")
    ∷ ("common.details", "详情")
    ∷ ("login.title", "Mihomo 控制面板")
    ∷ ("login.subtitle", "登录您的账户")
    ∷ ("login.username", "用户名")
    ∷ ("login.password", "密码")
    ∷ ("login.usernamePlaceholder", "输入用户名")
    ∷ ("login.passwordPlaceholder", "输入密码")
    ∷ ("login.signIn", "登录")
    ∷ ("login.signingIn", "登录中…")
    ∷ ("login.failed", "登录失败，请检查用户名和密码")
    ∷ ("overview.title", "总览")
    ∷ ("overview.mihomoStatus", "mihomo 状态")
    ∷ ("overview.proxies", "代理节点")
    ∷ ("overview.rules", "规则")
    ∷ ("overview.groups", "策略组")
    ∷ ("overview.activeConnections", "活跃连接")
    ∷ ("overview.checking", "检查中...")
    ∷ ("overview.running", "运行中")
    ∷ ("overview.unreachable", "不可达")
    ∷ ("overview.cannotConnect", "无法连接")
    ∷ ("overview.configured", "已配置")
    ∷ ("overview.proxyGroups", "策略组")
    ∷ ("overview.live", "实时")
    ∷ ("overview.mihomoUnreachable", "mihomo 不可达")
    ∷ ("overview.recentPublishes", "最近发布")
    ∷ ("overview.noPublishHistory", "暂无发布记录")
    ∷ ("overview.version", "版本")
    ∷ ("overview.status", "状态")
    ∷ ("overview.operator", "操作者")
    ∷ ("overview.note", "备注")
    ∷ ("overview.time", "时间")
    ∷ ("overview.noConnections", "无活跃连接")
    ∷ ("overview.host", "主机")
    ∷ ("overview.network", "网络")
    ∷ ("overview.chains", "链路")
    ∷ ("overview.rule", "规则")
    ∷ ("overview.traffic", "流量")
    ∷ ("overview.duration", "时长")
    ∷ ("overview.closeConn", "关闭连接")
    ∷ ("overview.closeConnFailed", "关闭连接失败")
    ∷ []
