-- ===== src/I18n/Zh/ProxiesProxy.antt =====
-- web/src/i18n/zh.ts, from `proxies.title` to `proxy.none`.
use Prim.Native.String.{String}
use mihomo_cp.Prelude.{List, [], ◌∷◌}

abbrev pub zh_proxies_proxy : List (String × String)
zh_proxies_proxy =
    ("proxies.title", "代理节点")
    ∷ ("proxies.add", "添加节点")
    ∷ ("proxies.searchPlaceholder", "搜索节点...")
    ∷ ("proxies.loadFailed", "加载节点失败")
    ∷ ("proxies.updated", "节点已更新")
    ∷ ("proxies.created", "节点已创建")
    ∷ ("proxies.updateFailed", "更新节点失败")
    ∷ ("proxies.createFailed", "创建节点失败")
    ∷ ("proxies.deleted", "节点已删除")
    ∷ ("proxies.deleteFailed", "删除节点失败")
    ∷ ("proxies.copied", "已复制")
    ∷ ("proxies.copyFailed", "复制节点失败")
    ∷ ("proxies.noProxies", "暂无节点，点击\"添加节点\"创建")
    ∷ ("proxies.deleteTitle", "删除节点")
    ∷ ("proxies.deleteConfirm", "确定要删除 \"{name}\" 吗？此操作不可撤销。")
    ∷ ("proxies.deleteWithRefs", "此节点被 {count} 个策略组引用：{names}。删除后将自动从这些组中移除。继续？")
    ∷ ("proxies.server", "服务器")
    ∷ ("proxies.addDialog", "添加节点")
    ∷ ("proxies.editDialog", "编辑节点")
    ∷ ("proxies.namePlaceholder", "节点名称")
    ∷ ("proxies.serverPlaceholder", "主机名或 IP")
    ∷ ("proxies.port", "端口")
    ∷ ("proxies.portPlaceholder", "1-65535")
    ∷ ("proxies.selectType", "选择类型")
    ∷ ("proxies.country", "国家/地区")
    ∷ ("proxies.selectCountry", "选择国家/地区")
    ∷ ("proxies.allCountries", "所有国家/地区")
    ∷ ("proxies.detectCountries", "识别国家")
    ∷ ("proxies.detectingCountries", "识别中...")
    ∷ ("proxies.countriesDetected", "已更新 {count} 个节点")
    ∷ ("proxies.countriesDetectFailed", "识别国家失败")
    ∷ ("proxies.noCountriesFound", "未在粘贴内容中找到国旗标识")
    ∷ (
      "proxies.detectCountriesDesc",
      "粘贴 Surge 配置的 [Proxy] 部分。将自动从节点名称中的国旗（如 🇺🇸🇯🇵🇭🇰）识别国家并匹配到 mihomo 节点。",
    )
    ∷ (
      "proxies.detectCountriesPlaceholder",
      "🇺🇸 PS-SS-c21s1 = ss, server, port, ...\n🇯🇵 JP-01 = ss, server, port, ...",
    )
    ∷ ("proxies.detectCountriesApply", "应用")
    ∷ ("proxies.delay", "延迟")
    ∷ ("proxies.testDelay", "测试延迟")
    ∷ ("proxies.timeout", "超时")
    ∷ ("proxies.error", "错误")
    ∷ ("proxies.testAllDelay", "全部测速")
    ∷ ("proxies.ipScores", "IP 评分")
    ∷ ("proxies.testing", "测速中...")
    ∷ ("proxies.source", "来源")
    ∷ ("proxies.sourceAll", "全部来源")
    ∷ ("proxies.sourceStatic", "静态")
    ∷ ("proxies.readOnly", "只读")
    ∷ ("proxies.details", "详情")
    ∷ ("proxies.nodeDetails", "节点信息")
    ∷ ("proxies.nodeDetailsDesc", "订阅节点只读，仅展示安全运行态元信息；服务地址、订阅 URL 和节点凭据不会暴露。")
    ∷ ("proxies.fieldProtocol", "协议")
    ∷ ("proxies.fieldProvider", "订阅")
    ∷ ("proxies.fieldAlive", "可用状态")
    ∷ ("proxies.fieldUDP", "UDP")
    ∷ ("proxies.fieldDelay", "延迟")
    ∷ ("proxies.fieldProviderStatus", "订阅状态")
    ∷ ("proxies.fieldProviderUpdated", "更新时间")
    ∷ ("proxies.nodeCount", "节点数")
    ∷ ("proxies.unknown", "未知")
    ∷ ("proxies.yes", "是")
    ∷ ("proxies.no", "否")
    ∷ ("proxies.providerStatusOK", "已加载")
    ∷ ("proxies.providerUnknown", "订阅加载失败或未知")
    ∷ ("proxies.providerLoadFailed", "订阅节点加载失败")
    ∷ ("proxies.providerLoadFailedDesc", "静态节点仍可正常操作；mihomo 恢复可达后重试。")
    ∷ ("proxies.retry", "重试")
    ∷ ("proxies.noMatchingNodes", "没有匹配当前筛选条件的节点。")
    ∷ ("proxy.cipher", "加密方式")
    ∷ ("proxy.password", "密码")
    ∷ ("proxy.udp", "UDP")
    ∷ ("proxy.sni", "SNI")
    ∷ ("proxy.skipCertVerify", "跳过证书验证")
    ∷ ("proxy.uuid", "UUID")
    ∷ ("proxy.alterId", "Alter ID")
    ∷ ("proxy.tls", "TLS")
    ∷ ("proxy.serverName", "服务器名称")
    ∷ ("proxy.network", "传输协议")
    ∷ ("proxy.flow", "流控")
    ∷ ("proxy.username", "用户名")
    ∷ ("proxy.obfs", "混淆")
    ∷ ("proxy.obfsPassword", "混淆密码")
    ∷ ("proxy.congestionController", "拥塞控制")
    ∷ ("proxy.none", "（无）")
    ∷ []
