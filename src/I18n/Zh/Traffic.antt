-- ===== src/I18n/Zh/Traffic.antt =====
-- web/src/i18n/zh.ts, from `nodeScores.noMismatch` to `traffic.testFailed`.
use Prim.Native.String.{String}
use mihomo_cp.Prelude.{List, [], ◌∷◌}

abbrev pub zh_traffic : List (String × String)
zh_traffic =
    ("nodeScores.noMismatch", "无不匹配")
    ∷ ("nodeScores.rangeBadge", "邻近 IP")
    ∷ ("nodeScores.attempts", "尝试次数")
    ∷ ("nodeScores.noFlags", "未检出")
    ∷ ("nav.traffic", "流量")
    ∷ ("traffic.disabled", "已停用")
    ∷ ("traffic.cycle", "计费周期")
    ∷ ("traffic.resetDay", "每月刷新日")
    ∷ ("traffic.localCounted", "本地统计")
    ∷ ("traffic.vendorReported", "供应商上报")
    ∷ ("traffic.today", "今日用量")
    ∷ ("traffic.estDaysLeft", "预计可用")
    ∷ ("traffic.days", "天")
    ∷ ("traffic.topNodes", "本周期用量最高的节点")
    ∷ ("traffic.unassigned", "未归属")
    ∷ ("traffic.total", "合计")
    ∷ ("traffic.upload", "上传")
    ∷ ("traffic.download", "下载")
    ∷ ("traffic.dailyUsage", "每日流量（近 30 天）")
    ∷ ("traffic.unassignedNodes", "未归属任何供应商的节点（近 30 天）")
    ∷ ("traffic.alertSettings", "告警通知")
    ∷ ("traffic.alertChannel", "通知渠道")
    ∷ ("traffic.channelNone", "不通知（仅记录）")
    ∷ ("traffic.alertTarget", "目标 URL")
    ∷ ("traffic.alertThresholds", "告警阈值（配额百分比，逗号分隔）")
    ∷ ("traffic.testNotify", "发送测试")
    ∷ ("traffic.alertHint", "每个阈值在一个计费周期内只告警一次。每 5 分钟检查一次，用量取本地统计与供应商上报的较大值。")
    ∷ ("traffic.recentAlerts", "最近告警")
    ∷ ("traffic.noAlerts", "暂无告警")
    ∷ ("traffic.notNotified", "未送达")
    ∷ ("traffic.addProvider", "添加供应商")
    ∷ ("traffic.editProvider", "编辑供应商")
    ∷ ("traffic.noProviders", "尚未配置流量供应商，添加后开始统计配额。")
    ∷ ("traffic.quotaGB", "每月配额 (GB)")
    ∷ ("traffic.resetDayLabel", "刷新日 (1-31)")
    ∷ ("traffic.resetHour", "刷新时")
    ∷ ("traffic.resetMinute", "刷新分")
    ∷ ("traffic.resetTimezone", "刷新时区")
    ∷ ("traffic.resetTimezoneHint", "IANA 名称，如 Asia/Shanghai；留空表示使用服务器时区。")
    ∷ ("traffic.nodePatterns", "节点匹配模式")
    ∷ ("traffic.nodePatternsHint", "按节点名匹配的 glob 模式，逗号分隔，如 PS-*, HK-*")
    ∷ ("traffic.subscriptionUrl", "订阅链接（可选）")
    ∷ ("traffic.subscriptionUrlHint", "填写后每 30 分钟从订阅响应的 subscription-userinfo 头读取供应商侧真实用量。")
    ∷ ("traffic.enabled", "启用")
    ∷ ("traffic.loadFailed", "加载流量数据失败")
    ∷ ("traffic.saveFailed", "保存失败")
    ∷ ("traffic.formInvalid", "请正确填写名称、配额和刷新日")
    ∷ ("traffic.deleteConfirm", "确定删除该供应商？其告警记录和供应商用量快照也会一并删除。")
    ∷ ("traffic.settingsSaved", "告警设置已保存")
    ∷ ("traffic.testSent", "测试通知已发送")
    ∷ ("traffic.testFailed", "测试通知发送失败，请检查渠道和目标地址")
    ∷ []
