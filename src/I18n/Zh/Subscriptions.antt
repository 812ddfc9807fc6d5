-- ===== src/I18n/Zh/Subscriptions.antt =====
-- web/src/i18n/zh.ts, from `subscriptions.title` to `subscriptions.resetNoneHint`.
use Prim.Native.String.{String}
use mihomo_cp.Prelude.{List, [], ◌∷◌}

abbrev pub zh_subscriptions : List (String × String)
zh_subscriptions =
    ("subscriptions.title", "订阅管理")
    ∷ ("subscriptions.readonlyHint", "只读视图：只有管理员可以新增、编辑、刷新或删除订阅。")
    ∷ ("subscriptions.add", "添加订阅")
    ∷ ("subscriptions.edit", "编辑订阅")
    ∷ ("subscriptions.empty", "暂无订阅。添加后可跟踪配额、到期和重置时间。")
    ∷ ("subscriptions.loadFailed", "加载订阅失败")
    ∷ ("subscriptions.created", "订阅已保存到草稿")
    ∷ ("subscriptions.updated", "订阅已更新到草稿")
    ∷ ("subscriptions.deleted", "订阅已删除")
    ∷ ("subscriptions.deleteTitle", "删除订阅")
    ∷ (
      "subscriptions.deleteConfirm",
      "确定删除“{name}”吗？若没有策略组引用其 provider，会同时从配置草稿中移除该 provider，发布后生效；若仍被引用，则删除会被阻止，需先解除引用。",
    )
    ∷ ("subscriptions.deleteFailed", "删除订阅失败")
    ∷ ("subscriptions.saveFailed", "保存订阅失败")
    ∷ ("subscriptions.saveConflict", "同名订阅或 provider 已存在。")
    ∷ ("subscriptions.deleteReferencedGeneric", "无法删除：该 provider 仍被策略组引用。")
    ∷ ("subscriptions.formInvalid", "请检查名称、链接、配额和重置计划")
    ∷ ("subscriptions.refresh", "刷新")
    ∷ ("subscriptions.refreshing", "刷新中…")
    ∷ ("subscriptions.refreshed", "订阅已刷新")
    ∷ ("subscriptions.refreshFailed", "刷新失败")
    ∷ ("subscriptions.refreshAll", "全部刷新")
    ∷ ("subscriptions.refreshingAll", "正在全部刷新…")
    ∷ ("subscriptions.statusOk", "数据正常")
    ∷ ("subscriptions.statusStale", "数据陈旧")
    ∷ ("subscriptions.statusError", "刷新失败")
    ∷ ("subscriptions.statusDisabled", "自动更新已暂停")
    ∷ ("subscriptions.statusPending", "等待首次刷新")
    ∷ ("subscriptions.provider", "原生 provider")
    ∷ ("subscriptions.providerNone", "未关联")
    ∷ (
      "subscriptions.providerHint", "订阅以 mihomo proxy-provider 的形式保存在配置草稿中。可关联已有 provider，或用此名称新建。",
    )
    ∷ ("subscriptions.providerName", "Provider 名称")
    ∷ ("subscriptions.providerNamePlaceholder", "例如 provider-main")
    ∷ ("subscriptions.providerLink", "关联已有 provider")
    ∷ ("subscriptions.providerCreate", "用此名称新建 provider")
    ∷ ("subscriptions.nodeCount", "节点数")
    ∷ ("subscriptions.nodeCountUnknown", "provider 拉取后才能确定")
    ∷ ("subscriptions.providerMissing", "配置草稿中找不到所关联的 provider")
    ∷ ("subscriptions.providerSourceCreated", "新建")
    ∷ ("subscriptions.providerSourceLinked", "关联")
    ∷ ("subscriptions.sourceType", "来源类型")
    ∷ ("subscriptions.sourceTypeNative", "原生 provider")
    ∷ ("subscriptions.sourceTypeNativeHint", "在配置草稿中创建或关联原生 mihomo proxy-provider（经发布中心生效）。")
    ∷ ("subscriptions.sourceTypeTraffic", "既有静态来源")
    ∷ ("subscriptions.sourceTypeTrafficHint", "跟踪既有流量来源及其静态节点；不创建原生 provider，也绝不改动配置草稿。")
    ∷ ("subscriptions.sourceTypeTrafficBadge", "静态来源")
    ∷ ("subscriptions.trafficSource", "流量来源")
    ∷ ("subscriptions.trafficSourceSelect", "选择既有流量来源…")
    ∷ ("subscriptions.trafficProviderRequired", "请选择该来源要跟踪的流量 provider。")
    ∷ ("subscriptions.urlManagedByTrafficSource", "订阅链接由流量来源持有，本页不重复存储；请在流量页修改链接。")
    ∷ ("subscriptions.statusLocal", "仅本地数据")
    ∷ ("subscriptions.localOnlyHint", "该流量来源没有订阅链接：仅显示本地采样用量，厂商用量与到期时间未知。")
    ∷ ("subscriptions.supplierResetDayNotice", "厂商仅报告重置日 {day}（不含小时与时区）。")
    ∷ ("subscriptions.scheduleConfiguredHint", "上方重置时间与时区为本地配置，并非厂商提供。")
    ∷ ("subscriptions.nodeCountMatched", "匹配的静态节点")
    ∷ ("subscriptions.deleteTitleTraffic", "删除静态来源跟踪")
    ∷ ("subscriptions.deleteConfirmTraffic", "删除“{name}”的跟踪记录？流量来源、历史统计与所有静态节点/分组均不受影响。")
    ∷ ("subscriptions.pausedUsageHintTraffic", "自动元数据刷新已暂停；流量来源与静态配置不受影响。")
    ∷ ("subscriptions.localUsed", "本周期本地统计")
    ∷ ("subscriptions.resetInDays", "{days} 天后")
    ∷ ("subscriptions.cycleEnds", "当前周期结束于 {time}")
    ∷ (
      "subscriptions.pausedHint",
      "暂停只会停止自动更新订阅信息和节点评分。已发布的 provider 节点仍会承载流量，直到解除策略组引用并删除 provider 后发布生效。",
    )
    ∷ (
      "subscriptions.pausedUsageHint",
      "自动更新订阅信息和评分已暂停。已发布的节点仍会承载流量；如需停止使用，请先解除策略组引用，再删除 provider 并通过发布中心发布。",
    )
    ∷ ("subscriptions.neverFetchedHint", "尚无供应商数据。刷新以获取配额、到期和重置信息。")
    ∷ ("subscriptions.staleHint", "供应商数据缺失或超过 24 小时未更新。页面保留最后一次成功值并标注其获取时间。")
    ∷ ("subscriptions.url", "订阅链接")
    ∷ ("subscriptions.urlPlaceholder", "https://provider.example/subscription")
    ∷ ("subscriptions.urlKeepHint", "留空表示保留已存储的链接；完整链接不会再次显示。")
    ∷ ("subscriptions.urlMaskedHint", "界面只显示掩码链接，完整链接不会返回浏览器。")
    ∷ ("subscriptions.enabled", "自动更新订阅信息与评分")
    ∷ ("subscriptions.quota", "配额")
    ∷ ("subscriptions.total", "总量")
    ∷ ("subscriptions.used", "已用")
    ∷ ("subscriptions.remaining", "剩余")
    ∷ ("subscriptions.usageSource", "用量来源")
    ∷ ("subscriptions.sourceVendor", "厂商报告")
    ∷ ("subscriptions.sourceLocal", "本地统计")
    ∷ ("subscriptions.sourceManual", "手动")
    ∷ ("subscriptions.sourceNone", "暂无数据")
    ∷ ("subscriptions.dataUpdatedAt", "用量更新时间")
    ∷ ("subscriptions.expiresAt", "到期")
    ∷ ("subscriptions.expiryUnknown", "供应商未提供")
    ∷ ("subscriptions.expirySource", "到期来源")
    ∷ ("subscriptions.expirySourceVendor", "供应商")
    ∷ ("subscriptions.expirySourceManual", "手动")
    ∷ ("subscriptions.expirySourceUnknown", "未知")
    ∷ ("subscriptions.nextReset", "下次重置")
    ∷ ("subscriptions.resetSchedule", "重置计划")
    ∷ ("subscriptions.resetConfigure", "配置每月重置计划")
    ∷ ("subscriptions.resetNone", "无每月重置计划（未知）")
    ∷ ("subscriptions.resetNoneHint", "不勾选表示无每月重置计划（未知）；修改其他字段不会自动生成重置计划。")
    ∷ []
