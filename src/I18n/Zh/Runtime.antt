-- ===== src/I18n/Zh/Runtime.antt =====
-- web/src/i18n/zh.ts, from `runtime.title` to `runtime.noLogs`.
use Prim.Native.String.{String}
use mihomo_cp.Prelude.{List, [], ◌∷◌}

abbrev pub zh_runtime : List (String × String)
zh_runtime =
    ("runtime.title", "运行状态")
    ∷ ("runtime.connections", "连接")
    ∷ ("runtime.proxies", "节点")
    ∷ ("runtime.rules", "规则")
    ∷ ("runtime.providers", "规则集")
    ∷ ("runtime.logs", "日志")
    ∷ ("runtime.loadingProxies", "加载节点中...")
    ∷ ("runtime.loadingRules", "加载规则中...")
    ∷ ("runtime.loadingProviders", "加载规则集中...")
    ∷ ("runtime.noProxyGroups", "未找到策略组，mihomo 可能未运行")
    ∷ ("runtime.noRules", "未找到规则，mihomo 可能未运行")
    ∷ ("runtime.noProviders", "未找到规则集，mihomo 可能未运行")
    ∷ ("runtime.selected", "当前选择")
    ∷ ("runtime.testDelay", "测试延迟")
    ∷ ("runtime.switchProxy", "切换到此节点")
    ∷ ("runtime.switchedTo", "已切换到 {name}")
    ∷ ("runtime.switchFailed", "切换节点失败")
    ∷ ("runtime.providerRefreshed", "规则集 \"{name}\" 已刷新")
    ∷ ("runtime.providerRefreshFailed", "刷新 \"{name}\" 失败")
    ∷ ("runtime.timeout", "超时")
    ∷ ("runtime.payload", "匹配值")
    ∷ ("runtime.proxy", "代理")
    ∷ ("runtime.rules_count", "{count} 条规则")
    ∷ ("runtime.updated", "更新时间")
    ∷ ("runtime.searchPlaceholder", "按主机、规则、链路搜索...")
    ∷ ("runtime.connectionCount", "{count} 个连接")
    ∷ ("runtime.loadingConnections", "加载连接中...")
    ∷ ("runtime.noConnections", "无活跃连接")
    ∷ ("runtime.host", "主机")
    ∷ ("runtime.network", "网络")
    ∷ ("runtime.chains", "链路")
    ∷ ("runtime.rule", "规则")
    ∷ ("runtime.download", "下载")
    ∷ ("runtime.upload", "上传")
    ∷ ("runtime.closeConnection", "关闭连接")
    ∷ ("runtime.addRule", "为此主机添加规则")
    ∷ ("runtime.noLogs", "暂无日志。实时日志流需要 WebSocket 支持（MVP 后续版本）。")
    ∷ []
