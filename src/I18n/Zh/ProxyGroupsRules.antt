-- ===== src/I18n/Zh/ProxyGroupsRules.antt =====
-- web/src/i18n/zh.ts, from `proxyGroups.title` to `ruleProviders.contentSaveFailed`.
use Prim.Native.String.{String}
use mihomo_cp.Prelude.{List, [], ◌∷◌}

abbrev pub zh_proxy_groups_rules : List (String × String)
zh_proxy_groups_rules =
    ("proxyGroups.title", "策略组")
    ∷ ("proxyGroups.add", "添加策略组")
    ∷ ("proxyGroups.searchPlaceholder", "搜索策略组...")
    ∷ ("proxyGroups.loadFailed", "加载策略组失败")
    ∷ ("proxyGroups.updated", "策略组已更新")
    ∷ ("proxyGroups.created", "策略组已创建")
    ∷ ("proxyGroups.updateFailed", "更新策略组失败")
    ∷ ("proxyGroups.createFailed", "创建策略组失败")
    ∷ ("proxyGroups.deleted", "策略组已删除")
    ∷ ("proxyGroups.deleteFailed", "删除策略组失败")
    ∷ ("proxyGroups.noGroups", "暂无策略组，点击\"添加策略组\"创建")
    ∷ ("proxyGroups.deleteTitle", "删除策略组")
    ∷ ("proxyGroups.deleteConfirm", "确定要删除 \"{name}\" 吗？此操作不可撤销。")
    ∷ ("proxyGroups.deleteWithRefs", "此策略组被 {count} 个其他组引用：{names}。删除可能影响这些组。继续？")
    ∷ ("proxyGroups.members", "成员")
    ∷ ("proxyGroups.addDialog", "添加策略组")
    ∷ ("proxyGroups.editDialog", "编辑策略组")
    ∷ ("proxyGroups.namePlaceholder", "策略组名称")
    ∷ ("proxyGroups.healthCheckUrl", "健康检查 URL")
    ∷ ("proxyGroups.healthCheckUrlPlaceholder", "http://www.gstatic.com/generate_204")
    ∷ ("proxyGroups.interval", "检查间隔（秒）")
    ∷ ("proxyGroups.intervalPlaceholder", "300")
    ∷ ("proxyGroups.strategy", "策略")
    ∷ ("proxyGroups.selectStrategy", "选择策略")
    ∷ ("proxyGroups.selectType", "选择类型")
    ∷ ("rules.title", "规则")
    ∷ ("rules.add", "添加规则")
    ∷ ("rules.searchPlaceholder", "搜索规则...")
    ∷ ("rules.loadFailed", "加载规则失败")
    ∷ ("rules.updated", "规则已更新")
    ∷ ("rules.created", "规则已创建")
    ∷ ("rules.updateFailed", "更新规则失败")
    ∷ ("rules.createFailed", "创建规则失败")
    ∷ ("rules.deleted", "规则已删除")
    ∷ ("rules.deleteFailed", "删除规则失败")
    ∷ ("rules.orderSaveFailed", "保存规则排序失败")
    ∷ ("rules.noRules", "暂无规则，点击\"添加规则\"创建")
    ∷ ("rules.noMatchRule", "未找到 MATCH 规则 — 建议添加一条作为兜底")
    ∷ ("rules.deleteTitle", "删除规则")
    ∷ ("rules.deleteConfirm", "确定要删除此规则吗？此操作不可撤销。")
    ∷ ("rules.addDialog", "添加规则")
    ∷ ("rules.editDialog", "编辑规则")
    ∷ ("rules.payload", "匹配值")
    ∷ ("rules.target", "目标")
    ∷ ("rules.noResolve", "不解析")
    ∷ ("rules.payloadPlaceholder", "如 example.com, 192.168.1.0/24")
    ∷ ("rules.selectType", "选择类型")
    ∷ ("rules.selectTarget", "选择目标")
    ∷ ("rules.loadGroupsFailed", "加载策略组失败")
    ∷ ("ruleProviders.title", "规则集")
    ∷ ("ruleProviders.add", "添加规则集")
    ∷ ("ruleProviders.loadFailed", "加载规则集失败")
    ∷ ("ruleProviders.updated", "规则集已更新")
    ∷ ("ruleProviders.created", "规则集已创建")
    ∷ ("ruleProviders.updateFailed", "更新规则集失败")
    ∷ ("ruleProviders.createFailed", "创建规则集失败")
    ∷ ("ruleProviders.deleted", "规则集已删除")
    ∷ ("ruleProviders.deleteFailed", "删除规则集失败")
    ∷ ("ruleProviders.refreshed", "已刷新 \"{name}\"")
    ∷ ("ruleProviders.refreshFailed", "刷新 \"{name}\" 失败")
    ∷ ("ruleProviders.noProviders", "暂无规则集，点击\"添加规则集\"创建")
    ∷ ("ruleProviders.deleteTitle", "删除规则集")
    ∷ ("ruleProviders.deleteConfirm", "确定要删除 \"{name}\" 吗？此操作不可撤销。")
    ∷ ("ruleProviders.addDialog", "添加规则集")
    ∷ ("ruleProviders.editDialog", "编辑规则集")
    ∷ ("ruleProviders.behavior", "行为")
    ∷ ("ruleProviders.url", "URL")
    ∷ ("ruleProviders.urlPlaceholder", "https://example.com/rules.yaml")
    ∷ ("ruleProviders.intervalLabel", "更新间隔（秒）")
    ∷ ("ruleProviders.intervalPlaceholder", "86400")
    ∷ ("ruleProviders.path", "路径")
    ∷ ("ruleProviders.pathPlaceholder", "./rules/provider.yaml")
    ∷ ("ruleProviders.editContent", "编辑内容")
    ∷ ("ruleProviders.loadContentFailed", "加载规则列表失败")
    ∷ ("ruleProviders.contentSaved", "规则列表已保存")
    ∷ ("ruleProviders.contentSaveFailed", "保存规则列表失败")
    ∷ []
