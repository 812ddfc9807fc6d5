-- ===== src/I18n/Zh/Subscriptions2.antt =====
-- web/src/i18n/zh.ts, from `subscriptions.resetDay` to `subscriptions.refreshAllSummary`.
use Prim.Native.String.{String}
use mihomo_cp.Prelude.{List, [], ◌∷◌}

abbrev pub zh_subscriptions_2 : List (String × String)
zh_subscriptions_2 =
    ("subscriptions.resetDay", "重置日")
    ∷ ("subscriptions.resetHour", "时")
    ∷ ("subscriptions.resetMinute", "分")
    ∷ ("subscriptions.timezone", "时区")
    ∷ ("subscriptions.resetHint", "短月会自动取该月最后一天；时间按所选 IANA 时区解释。")
    ∷ ("subscriptions.lastRefresh", "最近刷新尝试")
    ∷ ("subscriptions.lastSuccess", "最近成功刷新")
    ∷ ("subscriptions.neverRefreshed", "从未刷新")
    ∷ ("subscriptions.lastError", "最近错误")
    ∷ ("subscriptions.draftPending", "有未发布的草稿更改")
    ∷ ("subscriptions.draftPendingHint", "已保存到草稿。请到发布中心发布后才会应用到运行中的 mihomo 配置。")
    ∷ ("subscriptions.goToPublish", "打开发布中心")
    ∷ ("subscriptions.sectionBasic", "基本信息")
    ∷ ("subscriptions.sectionQuota", "配额与重置")
    ∷ ("subscriptions.sectionExpiry", "到期")
    ∷ ("subscriptions.quotaGB", "手动月配额（GiB）")
    ∷ ("subscriptions.quotaGBHint", "留空则使用供应商上报的配额。")
    ∷ ("subscriptions.manualExpiry", "手动到期时间（日期、时间与时区）")
    ∷ ("subscriptions.manualExpiryTimezone", "到期时间时区")
    ∷ ("subscriptions.manualExpiryHint", "仅在供应商未上报到期时间时使用；未改动时保留原值。")
    ∷ ("subscriptions.remainingUnknown", "未知")
    ∷ ("subscriptions.urlRequired", "新建 provider 时必须填写订阅链接。")
    ∷ ("subscriptions.providerConflict", "该 provider 已关联到另一个订阅。")
    ∷ ("subscriptions.providerMustExist", "编辑时只能选择已有 provider；新建 provider 请新建订阅。")
    ∷ ("subscriptions.urlIgnoredForLink", "该 provider 已存在，订阅链接输入会被忽略，直接按原配置关联。")
    ∷ ("subscriptions.providerSelectHint", "名称与已有原生 provider 相同时会直接关联，不会重复创建。")
    ∷ ("subscriptions.effectiveQuota", "当前生效配额：{value}")
    ∷ ("subscriptions.vendorExpiry", "供应商到期时间：{value}")
    ∷ ("subscriptions.clearManualExpiry", "清空该字段并保存即可删除手动到期时间。")
    ∷ ("subscriptions.serverTimezone", "服务器本地时区")
    ∷ ("subscriptions.delete", "删除订阅")
    ∷ ("subscriptions.deleteBlocked", "无法删除：该 provider 仍被 {groups} 引用，请先解除引用。")
    ∷ ("subscriptions.localProvider", "本地统计供应商（可选）")
    ∷ ("subscriptions.localProviderNone", "不关联")
    ∷ ("subscriptions.localProviderHint", "关联流量供应商后，可在供应商数字旁显示本周期本地采样用量。")
    ∷ ("subscriptions.rateLimited", "触发限流，请在 {seconds} 秒后重试。")
    ∷ ("subscriptions.refreshAllSummary", "成功 {ok} 个，失败 {failed} 个")
    ∷ []
